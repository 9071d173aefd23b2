-- ===== src/Dfu/Download.antt =====
-- A whole download to a DFU function (src/classes/device/dfu.c), as a host does it.
use usbip_c.Base.{ℕ, ◌+◌, ◌*◌, ◌%◌, ◌^◌, ◌≤◌, ◌<◌, ◌≡◌, refl, ap, ◌∙◌, List, [], ◌∷◌}
use usbip_c.Base.{false, ◌==◌, if◌then◌else◌, length, take, All, arith, take-all}
use native.Mathlib.Nat.{mul-le-mul_left}
use usbip_c.Dfu.State.{Target, Dfu, Reply, reply, block_offset, call_opt}
use usbip_c.Dfu.Laws.{IsDfu}
use usbip_c.Dfu.State.{
  download_end, block_taken, download_block, after_status, handle, control, Event, request, step,
  run,
}

-- a class request from the host to the interface, block number in wValue
abbrev pub dnload_request : ℕ → List ℕ → Event
dnload_request block bytes =
    request
      (record { request_type = 0x21; request = 1; value = block; index = 0; length = length bytes })
      bytes (length bytes)

abbrev pub get_status_request : Event
get_status_request =
    request (record { request_type = 0xa1; request = 3; value = 0; index = 0; length = 6 }) [] 6

-- the state at the end, without the replies
abbrev pub End {ℓ} : {A : Type ℓ} {B : Type ℓ} {C : Type ℓ} → A × B × C → A × B
End (st, w, rs) = (st, w)

-- The host sends each block and asks for the status; an empty block ends the download.
abbrev pub host_download : ℕ → List (List ℕ) → List Event
host_download i [] = dnload_request i [] ∷ get_status_request ∷ []
host_download i (b ∷ bs) = dnload_request i b ∷ get_status_request ∷ host_download (i + 1) bs

-- the data of a download request: at least a byte, and a length that wLength can say
abbrev pub IsBlock : List ℕ → Type 0
IsBlock b = (0 < length b) × (length b < 2 ^ 16)

module _ {World : Type 0} (targets : ℕ → Target World) where
  -- the image in the application's store: block `i` at `i` times the transfer size
  abbrev pub stored : Dfu → ℕ → List (List ℕ) → World → World
  stored st i [] w = w
  stored st i (b ∷ bs) w =
      stored st (i + 1) bs ((targets st.cur).write w (i * st.transfer_size) b).1

  -- the application takes every block
  abbrev pub Accepts : ℕ → Type 0
  Accepts n = (w : World) (off : ℕ) (bytes : List ℕ) → ((targets n).write w off bytes).0 ≡ 0

  offset_fits :
      (st : Dfu) (i : ℕ)
      → st.transfer_size ≤ 4096
      → i < 2 ^ 16
      → block_offset st i ≡ i * st.transfer_size
  offset_fits st i small h = small_mod (i * st.transfer_size) (bound i st.transfer_size small h)
    where
      small_mod : (x : ℕ) → x < 2 ^ 32 → x % 2 ^ 32 ≡ x
      small_mod x h = omega arith

      bound : (i n : ℕ) → n ≤ 4096 → i < 2 ^ 16 → i * n < 2 ^ 32
      bound i n a b = omega (arith, mul-le-mul_left i a)

  -- what `begin` leaves before the first block
  abbrev ready : Dfu → World → ℕ → World
  ready st w i = if i == 0 then call_opt (targets st.cur).begin w else w

  abbrev after_block : Dfu → World → ℕ → List ℕ → World
  after_block st w i b = ((targets st.cur).write (ready st w i) (i * st.transfer_size) b).1

  taken :
      (st : Dfu) (w : World) (i : ℕ) (b : List ℕ)
      → Accepts st.cur
      → st.transfer_size ≤ 4096
      → i < 2 ^ 16
      → 0 < length b
      → step targets st w (dnload_request i b)
        ≡ (record st { state = 3; status = 0 }, after_block st w i b, reply [])
  unfolding step control handle download_block block_taken
  taken st w i b ok small fits some_bytes =
      ap
        (λ c.
          if c
          then download_end targets st w
          else download_block targets st w i (take (length b) b))
        {y = false} (ground arith)
      ∙ ap (λ t. download_block targets st w i t) (take-all (length b) b (omega arith))
      ∙ ap (λ o. written ((targets st.cur).write (ready st w i) o b)) (offset_fits st i small fits)
      ∙ ap (λ rc. (block_taken targets st rc, after_block st w i b, reply []))
          (ok (ready st w i) (i * st.transfer_size) b)
    where
      written : ℕ × World → Dfu × World × Reply
      written r = (block_taken targets st r.0, r.1, reply [])

  -- One block and the status after it, and what follows.
  round :
      (st : Dfu) (w : World) (i : ℕ) (b : List ℕ) (es : List Event)
      → Accepts st.cur
      → st.transfer_size ≤ 4096
      → i < 2 ^ 16
      → 0 < length b
      → End (run targets st w (dnload_request i b ∷ get_status_request ∷ es))
        ≡ End (run targets (record st { state = 5; status = 0 }) (after_block st w i b) es)
  unfolding run step control handle after_status
  round st w i b es ok small fits some_bytes =
      ap (λ (r : Dfu × World × Reply). End (run targets r.0 r.1 (get_status_request ∷ es)))
        (taken st w i b ok small fits some_bytes)

  later_ready : (st : Dfu) (w : World) (i : ℕ) → 1 ≤ i → ready st w i ≡ w
  later_ready st w i h =
      ap (λ c. if c then call_opt (targets st.cur).begin w else w) {y = false} (ground arith)

  later_blocks :
      (bs : List (List ℕ)) (st : Dfu) (w : World) (i : ℕ)
      → Accepts st.cur
      → st.transfer_size ≤ 4096
      → 1 ≤ i
      → i + length bs ≤ 2 ^ 16
      → All IsBlock bs
      → End (run targets st w (host_download i bs))
        ≡ (record st { state = 2; status = 0 }, call_opt (targets st.cur).finish (stored st i bs w))
  later_blocks [] st w i ok small pos fits h =
      unfold run step control handle download_end after_status in refl
  later_blocks (b ∷ bs) st w i ok small pos fits ((some_bytes, short), h) =
      round st w i b (host_download (i + 1) bs) ok small (omega arith) some_bytes
      ∙ later_blocks bs (record st { state = 5; status = 0 }) (after_block st w i b) (i + 1) ok
          small (omega arith) (omega arith) h
      ∙ ap
          (λ u. (
            record st { state = 2; status = 0 },
            call_opt (targets st.cur).finish
                (stored st (i + 1) bs ((targets st.cur).write u (i * st.transfer_size) b).1),
          ))
          (later_ready st w i pos)

  -- A host that downloads an image to an idle function, whose target takes every block, leaves the
  -- function idle and without error, and the target's store as `begin`, then the writes of the blocks
  -- in order, block `i` at `i` times the transfer size, then `finish` leave it. There is one block at
  -- least, none is empty or longer than wLength can say, and there are at most 65535 of them.
  pub download_stores :
      (st : Dfu) (w : World) (b : List ℕ) (bs : List (List ℕ))
      → Accepts st.cur
      → IsDfu st
      → st.state ≡ 2
      → length bs + 1 < 2 ^ 16
      → All IsBlock (b ∷ bs)
      → End (run targets st w (host_download 0 (b ∷ bs))) ≡ (
        record st { state = 2; status = 0 },
        call_opt (targets st.cur).finish (stored st 0 (b ∷ bs) (call_opt (targets st.cur).begin w)),
      )
  download_stores st w b bs ok v idle fits ((some_bytes, short), h) =
      round st w 0 b (host_download 1 bs) ok v.size_fits (omega arith) some_bytes
      ∙ later_blocks bs (record st { state = 5; status = 0 }) (after_block st w 0 b) 1 ok
          v.size_fits (omega arith) (omega arith) h
