-- ===== src/Net.antt =====
-- The socket loops of src/usbip.c: `readn` and `writen` over recv() and send(), which belong to the
-- operating system and are parameters here.
pub mod Laws
mod Tests
use usbip_c.Base.{ℕ, zero, suc, ◌+◌, ◌-◌, ◌≤◌, ◌<◌, ◌≡◌, Option, none, some}
use usbip_c.Base.{List, [], ◌++◌, length, take, drop, ltb, if◌then◌else◌}

-- A connected socket. `recv` and `send` answer `none` where the C call returns a count that is not
-- positive: the connection has ended, or the call failed, which it may at any time. `arriving` is
-- what has yet to arrive from the peer, and `delivered` what the peer has been sent.
pub record Socket : Type 1 where
  pub State : Type 0
  pub recv : State → ℕ → Option (List ℕ × State)
  pub send : State → List ℕ → Option (ℕ × State)
  pub arriving : State → List ℕ
  pub delivered : State → List ℕ
  pub recv_some :
      (s : State) (n : ℕ) (c : List ℕ) (s' : State)
      → 0 < n
      → recv s n ≡ some (c, s')
      → (1 ≤ length c) × (length c ≤ n) × (arriving s ≡ c ++ arriving s')
  pub send_some :
      (s : State) (b : List ℕ) (k : ℕ) (s' : State)
      → 0 < length b
      → send s b ≡ some (k, s')
      → (1 ≤ k) × (k ≤ length b) × (delivered s' ≡ delivered s ++ take k b)

module _ (sock : Socket) where
  open sock use {State, recv, send}

  -- `while (got < len)`: `fuel` bounds the rounds left, `buf` holds the `got` bytes read.
  pub readn_loop : ℕ → State → List ℕ → ℕ → Option (List ℕ × State)
  readn_loop zero s buf len = none
  readn_loop (suc fuel) s buf len =
      let round : Option (List ℕ × State) = elim (recv s (len - length buf)) [
        | none ↦ none
        | some (chunk, s') ↦ readn_loop fuel s' (buf ++ chunk) len
      ] in
      if ltb (length buf) len then round else some (buf, s)

  -- A round reads a byte at least, so `len` rounds and the last test are enough.
  pub readn : State → ℕ → Option (List ℕ × State)
  readn s len = readn_loop (suc len) s [] len

  -- The list is what is still to be put; `none` is the -1.
  pub writen_loop : ℕ → State → List ℕ → Option State
  writen_loop zero s buf = none
  writen_loop (suc fuel) s buf =
      let round : Option State = elim (send s buf) [
        | none ↦ none
        | some (k, s') ↦ writen_loop fuel s' (drop k buf)
      ] in
      if ltb 0 (length buf) then round else some s

  pub writen : State → List ℕ → Option State
  writen s buf = writen_loop (suc (length buf)) s buf
