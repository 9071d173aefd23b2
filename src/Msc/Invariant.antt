-- ===== src/Msc/Invariant.antt =====
-- The invariant of the state of src/classes/device/msc.c.
use usbip_c.Base.{ℕ, suc, ◌+◌, ◌≤◌, ◌<◌, ◌≡◌, refl, ap, List, [], ◌∷◌, map}
use usbip_c.Base.{true, false, some, arith}
use usbip_c.Base.{length}
use usbip_c.Msc.State.{Opts, Msc, lun_at, lun_init, Declared}
use usbip_c.Msc.Dispatch.{resolve, unit_count, built}

-- the write in flight: a unit that exists and is not protected, and blocks that it has
abbrev pub Flight : (ℕ → ℕ) → Msc → Type 0
Flight cap st =
    (st.wlun < st.n_luns)
    × ((lun_at st st.wlun).read_only ≡ false)
    × (st.wlba + st.wcount ≤ cap (lun_at st st.wlun).user)

pub record IsMsc (cap : ℕ → ℕ) (st : Msc) : Type 0 where
  pub some_unit : 1 ≤ st.n_luns
  pub few_units : st.n_luns ≤ 16
  pub rows : length st.luns ≡ st.n_luns
  pub in_flight : st.writing ≡ true → Flight cap st

-- no write is in flight, and the units are as many as before
pub quiet-IsMsc :
    (cap : ℕ → ℕ) (st st' : Msc)
    → IsMsc cap st
    → st'.n_luns ≡ st.n_luns
    → length st'.luns ≡ length st.luns
    → st'.writing ≡ false
    → IsMsc cap st'
quiet-IsMsc cap st st' v n l q = record {
  some_unit = omega (arith, v.some_unit);
  few_units = omega (arith, v.few_units);
  rows = omega (arith, v.rows);
  in_flight = λ on. absurd (cc (on, q));
}

length-map : {A B : Type 0} (f : A → B) (xs : List A) → length (map f xs) ≡ length xs
length-map f [] = refl
length-map f (x ∷ xs) = ap suc (length-map f xs)

unit_count-pos : (ds : List Declared) → 1 ≤ unit_count ds
unfolding unit_count
unit_count-pos [] = omega arith
unit_count-pos (d ∷ ds) = omega arith

unit_count-le : (ds : List Declared) → length ds ≤ 16 → unit_count ds ≤ 16
unfolding unit_count
unit_count-le [] h = omega arith
unit_count-le (d ∷ ds) h = h

length-resolve : (ds : List Declared) (opts : Opts) → length (resolve ds opts) ≡ unit_count ds
unfolding resolve unit_count
length-resolve [] opts = refl
length-resolve (d ∷ ds) opts = length-map (λ src. lun_init (some src) opts) (d ∷ ds)

pub built-IsMsc : (cap : ℕ → ℕ) (opts : Opts) → length opts.luns ≤ 16 → IsMsc cap (built opts)
built-IsMsc cap opts h = record {
  some_unit = unit_count-pos opts.luns;
  few_units = unit_count-le opts.luns h;
  rows = length-resolve opts.luns opts;
  in_flight = λ on. absurd (cc on);
}
