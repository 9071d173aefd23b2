-- ===== src/Net/Tests.antt =====
-- A socket whose peer has sent everything, and which carries a byte at a time, under `readn` and
-- `writen` of src/usbip.c.
use usbip_c.Base.{
  ℕ, ◌≤◌, ◌<◌, ◌≡◌, sym, List, [], ◌∷◌, ◌++◌, Option, none, some, ◌⊎◌, arith, ap, ◌∙◌,
}
use usbip_c.Base.{length, take}
use usbip_c.Net.{Socket, writen}
use usbip_c.Net.Laws.{writen_total}

-- what has yet to arrive, and what was delivered
abbrev Wire : Type 0
Wire = List ℕ × List ℕ

-- one byte of a chunk, or the end
abbrev recv : Wire → ℕ → Option (List ℕ × Wire)
recv ([], out) n = none
recv (b ∷ bs, out) n = some (b ∷ [], (bs, out))

abbrev send : Wire → List ℕ → Option (ℕ × Wire)
send (inn, out) [] = none
send (inn, out) (b ∷ bs) = some (1, (inn, out ++ (b ∷ [])))

recv_some :
    (s : Wire) (n : ℕ) (c : List ℕ) (s' : Wire)
    → 0 < n
    → recv s n ≡ some (c, s')
    → (1 ≤ length c) × (length c ≤ n) × (s.0 ≡ c ++ s'.0)
recv_some ([], out) n c s' h e = absurd (cc)
recv_some (b ∷ bs, out) n c s' h e =
    let f : b ∷ [] ≡ c = cc in
    let g : (bs, out) ≡ s' = cc in
    (omega (arith, ap length f), omega (arith, ap length f), (λ i. (f i) ++ (g i).0))

send_some :
    (s : Wire) (b : List ℕ) (k : ℕ) (s' : Wire)
    → 0 < length b
    → send s b ≡ some (k, s')
    → (1 ≤ k) × (k ≤ length b) × (s'.1 ≡ s.1 ++ take k b)
send_some (inn, out) [] k s' h e = absurd (omega arith)
send_some (inn, out) (b ∷ bs) k s' h e =
    let f : 1 ≡ k = cc in
    let g : (inn, out ++ (b ∷ [])) ≡ s' = cc in
    (omega arith, omega arith, sym (λ i. (g i).1) ∙ ap (λ j. out ++ take j (b ∷ bs)) f)

abbrev bytewise : Socket
bytewise = record {
  State = Wire;
  recv = recv;
  send = send;
  arriving = λ s. s.0;
  delivered = λ s. s.1;
  recv_some = recv_some;
  send_some = send_some;
}

writen_total_example :
    ((t : Wire) × (writen bytewise ([], 1 ∷ []) (2 ∷ 3 ∷ []) ≡ some t) × (t.1 ≡ 1 ∷ 2 ∷ 3 ∷ []))
    ⊎ ((u : Wire) × (b : List ℕ) × (writen bytewise ([], 1 ∷ []) (2 ∷ 3 ∷ []) ≡ none)
        × (0 < length b)
        × (send u b ≡ none))
writen_total_example = writen_total bytewise ([], 1 ∷ []) (2 ∷ 3 ∷ [])
