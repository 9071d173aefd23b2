-- ===== src/Pacing/Order.antt =====
-- The order in which paced completions leave (src/usbip_device.c).
use usbip_c.Base.{
  ℕ, zero, suc, ◌≤◌, ◌≡◌, refl, sym, subst, ap, List, [], ◌∷◌, Bool, true, false, ltb,
  if◌then◌else◌, length, All, arith, Bool-cases, inl, inr, ltb→lt, ltb→le,
}
use mathlib.Core.List.{Perm}
use mathlib.Core.List.Perm
use usbip_c.Pacing.State.{Paced, pick, drain_paced}

-- no deadline in the list is before this one
abbrev pub IsLeast : ℕ → List Paced → Type 0
IsLeast d es = All (λ (e : Paced). d ≤ e.deadline_us) es

abbrev pub IsSorted : List Paced → Type 0
IsSorted [] = Unit {0}
IsSorted (e ∷ es) = IsLeast e.deadline_us es × IsSorted es

IsLeast-weaken : (c d : ℕ) (es : List Paced) → c ≤ d → IsLeast d es → IsLeast c es
IsLeast-weaken c d [] h k = tt
IsLeast-weaken c d (e ∷ es) h (k, ks) = (omega arith, IsLeast-weaken c d es h ks)

-- the two results of a step of `pick`
abbrev choice : Paced → Paced → List Paced → Paced × List Paced → Bool → Paced × List Paced
choice e x xs r b = if b then (r.0, e ∷ r.1) else (e, x ∷ xs)

pick_step :
    (e x : Paced) (xs : List Paced) (b : Bool)
    → ltb (pick x xs).0.deadline_us e.deadline_us ≡ b
    → pick e (x ∷ xs) ≡ choice e x xs (pick x xs) b
unfolding pick
pick_step e x xs b h = ap (choice e x xs (pick x xs)) h

-- What is picked has the least deadline, of the rest and of the whole queue; the rest is shorter by
-- one.
abbrev IsPick : Paced → List Paced → Paced × List Paced → Type 0
IsPick e es r =
    IsLeast r.0.deadline_us r.1 × IsLeast r.0.deadline_us (e ∷ es) × (length r.1 ≡ length es)

pick-IsPick : (e : Paced) (es : List Paced) → IsPick e es (pick e es)
pick-IsPick e [] = unfold pick in (tt, (omega arith, tt), refl)
pick-IsPick e (x ∷ xs) =
    let (a, b, c) = pick-IsPick x xs in
    elim (Bool-cases (ltb (pick x xs).0.deadline_us e.deadline_us)) [
      | inl before ↦ subst (IsPick e (x ∷ xs)) (sym (pick_step e x xs true before)) (
        (omega (arith, ltb→lt (pick x xs).0.deadline_us e.deadline_us before), a),
        (omega (arith, ltb→lt (pick x xs).0.deadline_us e.deadline_us before), b),
        ap suc c,
      )
      | inr after ↦
          let least =
            IsLeast-weaken e.deadline_us (pick x xs).0.deadline_us (x ∷ xs)
              (ltb→le (pick x xs).0.deadline_us e.deadline_us after) b in
          subst (IsPick e (x ∷ xs)) (sym (pick_step e x xs false after))
            (least, (omega arith, least), refl)
    ]

abbrev Both : ℕ → Paced × List Paced → Type 0
Both d r = IsLeast d (r.0 ∷ r.1)

pick-IsLeast :
    (d : ℕ) (e : Paced) (es : List Paced)
    → IsLeast d (e ∷ es)
    → IsLeast d ((pick e es).0 ∷ (pick e es).1)
pick-IsLeast d e [] h = unfold pick in h
pick-IsLeast d e (x ∷ xs) (h, hs) =
    let (a, b) = pick-IsLeast d x xs hs in
    elim (Bool-cases (ltb (pick x xs).0.deadline_us e.deadline_us)) [
      | inl before ↦ subst (Both d) (sym (pick_step e x xs true before)) (a, (h, b))
      | inr after ↦ subst (Both d) (sym (pick_step e x xs false after)) (h, hs)
    ]

drain_paced-IsLeast : (d fuel : ℕ) (q : List Paced) → IsLeast d q → IsLeast d (drain_paced fuel q)
unfolding drain_paced
drain_paced-IsLeast d zero q h = tt
drain_paced-IsLeast d (suc fuel) [] h = tt
drain_paced-IsLeast d (suc fuel) (e ∷ q) h =
    let (a, b) = pick-IsLeast d e q h in (a, drain_paced-IsLeast d fuel (pick e q).1 b)

-- Picking takes one completion out and loses none.
pick-Perm : (e : Paced) (es : List Paced) → Perm ((pick e es).0 ∷ (pick e es).1) (e ∷ es)
pick-Perm e [] = unfold pick in Perm.refl (e ∷ [])
pick-Perm e (x ∷ xs) = elim (Bool-cases (ltb (pick x xs).0.deadline_us e.deadline_us)) [
  | inl before ↦
      subst (λ (r : Paced × List Paced). Perm (r.0 ∷ r.1) (e ∷ x ∷ xs))
        (sym (pick_step e x xs true before))
        (Perm.trans (Perm.swap e (pick x xs).0 (pick x xs).1) (Perm.cons e (pick-Perm x xs)))
  | inr after ↦
      subst (λ (r : Paced × List Paced). Perm (r.0 ∷ r.1) (e ∷ x ∷ xs))
        (sym (pick_step e x xs false after)) (Perm.refl (e ∷ x ∷ xs))
]

drain_paced-Perm : (fuel : ℕ) (q : List Paced) → length q ≤ fuel → Perm (drain_paced fuel q) q
unfolding drain_paced
drain_paced-Perm zero [] h = Perm.refl []
drain_paced-Perm zero (e ∷ q) h = absurd (omega arith)
drain_paced-Perm (suc fuel) [] h = Perm.refl []
drain_paced-Perm (suc fuel) (e ∷ q) h =
    let (least, all, count) = pick-IsPick e q in
    Perm.trans (Perm.cons (pick e q).0 (drain_paced-Perm fuel (pick e q).1 (omega arith)))
      (pick-Perm e q)

drained-IsSorted : (fuel : ℕ) (q : List Paced) → length q ≤ fuel → IsSorted (drain_paced fuel q)
unfolding drain_paced
drained-IsSorted zero [] h = tt
drained-IsSorted zero (e ∷ q) h = absurd (omega arith)
drained-IsSorted (suc fuel) [] h = tt
drained-IsSorted (suc fuel) (e ∷ q) h =
    let (least, all, count) = pick-IsPick e q in
    (
      drain_paced-IsLeast (pick e q).0.deadline_us fuel (pick e q).1 least,
      drained-IsSorted fuel (pick e q).1 (omega arith),
    )

-- A connection that closes sends every paced completion that is left, each exactly as often as it was
-- queued, in the order of their deadlines, however they were queued; a round for each is enough.
pub drain_paced-IsSorted :
    (fuel : ℕ) (q : List Paced)
    → length q ≤ fuel
    → IsSorted (drain_paced fuel q) × Perm (drain_paced fuel q) q
drain_paced-IsSorted fuel q h = (drained-IsSorted fuel q h, drain_paced-Perm fuel q h)
