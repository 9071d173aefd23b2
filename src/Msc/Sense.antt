-- ===== src/Msc/Sense.antt =====
-- The sense data of each unit (src/classes/device/msc.c).
use usbip_c.Base.{ℕ, zero, suc, ◌<◌, ◌≡◌, refl, ap, ◌∙◌}
use usbip_c.Base.{List, [], ◌∷◌, arith}
use usbip_c.Base.{length, length-set, get_or, set}
use usbip_c.Msc.State.{Sense, Lun, no_lun, Msc, lun_at, set_sense}

get_or-set :
    {A : Type 0} (xs : List A) (i : ℕ) (v d : A) → i < length xs → get_or (set xs i v) i d ≡ v
get_or-set [] i v d h = absurd (omega arith)
get_or-set (x ∷ xs) zero v d h = refl
get_or-set (x ∷ xs) (suc i) v d h = get_or-set xs i v d (omega arith)

-- the data of a fixed-format sense reply
abbrev pub sense_bytes : Sense → List ℕ
sense_bytes s =
    112 ∷ 0 ∷ s.key ∷ 0 ∷ 0 ∷ 0 ∷ 0 ∷ 10 ∷ 0 ∷ 0 ∷ 0 ∷ 0 ∷ s.asc ∷ s.ascq ∷ 0 ∷ 0 ∷ 0 ∷ 0 ∷ []

pub set_sense-sense :
    (st : Msc) (i j : ℕ) (s : Sense)
    → j ≡ i
    → i < length st.luns
    → (lun_at (set_sense st i s) j).sense ≡ s
unfolding set_sense
set_sense-sense st i j s e h =
    ap (λ k. (lun_at (set_sense st i s) k).sense) e
    ∙ ap (λ (l : Lun). l.sense) (get_or-set st.luns i (record (lun_at st i) { sense = s }) no_lun h)

pub length-set_sense :
    (st : Msc) (i : ℕ) (s : Sense) → length (set_sense st i s).luns ≡ length st.luns
unfolding set_sense
length-set_sense st i s = length-set st.luns i (record (lun_at st i) { sense = s })
