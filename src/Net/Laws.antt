-- ===== src/Net/Laws.antt =====
-- What `readn` and `writen` of src/usbip.c promise over any socket.
use usbip_c.Base.{ℕ, zero, suc, ◌+◌, ◌≤◌, ◌<◌, ◌≡◌, refl, sym, ◌∙◌, none, some, arith}
use usbip_c.Base.{List, [], ◌∷◌, ◌++◌, length, take, drop, lt→ltb}
use usbip_c.Base.{Option-cases, append_assoc, append-nil, ◌⊎◌, inl, inr}
use usbip_c.Base.{take-append-drop, length-drop}
use usbip_c.Net.{Socket, readn_loop, writen_loop, writen}

module _ (sock : Socket) where
  open sock use {State, recv, send, arriving, delivered}

  -- what the loop has done when it ends: it has the bytes of `buf` and the next ones up to `len`, or a
  -- recv() of at least one byte has failed
  abbrev Got : State → List ℕ → ℕ → ℕ → Type 0
  Got s buf len fuel =
      ((want : List ℕ) × (t : State) × (readn_loop sock fuel s buf len ≡ some (buf ++ want, t))
        × (length buf + length want ≡ len)
        × (arriving s ≡ want ++ arriving t))
      ⊎ ((u : State) × (n : ℕ) × (readn_loop sock fuel s buf len ≡ none)
          × (0 < n)
          × (recv u n ≡ none))

  writen_loop_step :
      (fuel k : ℕ) (s s' : State) (buf : List ℕ)
      → 0 < length buf
      → send s buf ≡ some (k, s')
      → writen_loop sock (suc fuel) s buf ≡ writen_loop sock fuel s' (drop k buf)
  unfolding writen_loop
  writen_loop_step fuel k s s' buf h e = rw (lt→ltb 0 (length buf) h, e)

  writen_loop_stop :
      (fuel : ℕ) (s : State) (buf : List ℕ)
      → 0 < length buf
      → send s buf ≡ none
      → writen_loop sock (suc fuel) s buf ≡ none
  unfolding writen_loop
  writen_loop_stop fuel s buf h e = rw (lt→ltb 0 (length buf) h, e)

  -- what the loop has done when it ends
  abbrev Written : State → List ℕ → ℕ → Type 0
  Written s buf fuel =
      ((t : State) × (writen_loop sock fuel s buf ≡ some t) × (delivered t ≡ delivered s ++ buf))
      ⊎ ((u : State) × (b : List ℕ) × (writen_loop sock fuel s buf ≡ none)
          × (0 < length b)
          × (send u b ≡ none))

  extend :
      (s s' : State) (buf : List ℕ) (fuel k : ℕ)
      → 0 < length buf
      → send s buf ≡ some (k, s')
      → (1 ≤ k) × (k ≤ length buf) × (delivered s' ≡ delivered s ++ take k buf)
      → Written s' (drop k buf) fuel
      → Written s buf (suc fuel)
  extend s s' buf fuel k pos e (a, b, d) (inl (t, r, w)) =
      inl (t, writen_loop_step fuel k s s' buf pos e ∙ r, w ∙ join)
    where
      join : delivered s' ++ drop k buf ≡ delivered s ++ buf
      join = rw (d, append_assoc, take-append-drop k buf)
  extend s s' buf fuel k pos e f (inr (u, c, r, p, stop)) =
      inr (u, c, writen_loop_step fuel k s s' buf pos e ∙ r, p, stop)

  writen_loop-Written :
      (fuel : ℕ) (s : State) (buf : List ℕ) → length buf < fuel → Written s buf fuel
  writen_loop-Written zero s buf h = absurd (omega arith)
  writen_loop-Written (suc fuel) s [] h =
      inl (s, unfold writen_loop in refl, sym (append-nil (delivered s)))
  writen_loop-Written (suc fuel) s (b ∷ buf) h = elim (Option-cases (send s (b ∷ buf))) [
    | inl e ↦ inr (s, b ∷ buf, writen_loop_stop fuel s (b ∷ buf) (omega arith) e, omega arith, e)
    | inr ((k, s'), e) ↦
        extend s s' (b ∷ buf) fuel k (omega arith) e
          (sock.send_some s (b ∷ buf) k s' (omega arith) e)
          (writen_loop-Written fuel s' (drop k (b ∷ buf)) (
            omega
              (arith, length-drop k (b ∷ buf), sock.send_some s (b ∷ buf) k s' (omega arith) e)))
  ]

  -- `writen` ends on every socket: it puts the whole buffer, in order and once, or a send() of a
  -- part that is not empty has failed.
  pub writen_total :
      (s : State) (buf : List ℕ)
      → ((t : State) × (writen sock s buf ≡ some t) × (delivered t ≡ delivered s ++ buf))
        ⊎ ((u : State) × (b : List ℕ) × (writen sock s buf ≡ none)
            × (0 < length b)
            × (send u b ≡ none))
  unfolding writen
  writen_total s buf = writen_loop-Written (suc (length buf)) s buf (omega arith)
