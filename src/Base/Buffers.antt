-- ===== src/Base/Buffers.antt =====
-- Buffers that are filled field by field, and C strings in them.
use Prim.Native.Nat.{ℕ, zero, suc, ◌+◌, ◌-◌, ◌≤◌}
use Prim.Native.Char.{code}
use Prim.Native.String.{String}
use mathlib.Core.Path.{◌≡◌, refl, ap, ◌∙◌}
use mathlib.Core.Logic.{◌≢◌}
use mathlib.Core.List.{List, [], ◌∷◌, ◌++◌}
use native.Mathlib.Omega.{arith}
use usbip_c.Base.Lists.{length, get_or, take, drop, put_at, replicate, All}
use usbip_c.Base.Tests.{◌==◌, if◌then◌else◌}
use usbip_c.Base.Bytes.{get_be16, get_be32}

-- the bytes of an ASCII literal
abbrev pub codes : String → List ℕ
codes String.[] = []
codes (String.◌∷◌ c s) = code c ∷ codes s

-- `snprintf(dst, cap, "%s", s)`: the bytes that it stores
abbrev pub cstr : ℕ → List ℕ → List ℕ
cstr cap s = take (cap - 1) s ++ (0 ∷ [])

-- the C string that an array starts with
abbrev pub until_nul : List ℕ → List ℕ
until_nul [] = []
until_nul (c ∷ s) = if c == 0 then [] else c ∷ until_nul s

-- Stores in order, each a memcpy to its offset.
abbrev pub put_fields : List (ℕ × List ℕ) → List ℕ → List ℕ
put_fields [] buf = buf
put_fields ((off, bytes) ∷ fs) buf = put_fields fs (put_at off bytes buf)

abbrev pub shift_fields : ℕ → List (ℕ × List ℕ) → List (ℕ × List ℕ)
shift_fields n [] = []
shift_fields n ((off, bytes) ∷ fs) = (n + off, bytes) ∷ shift_fields n fs

pub put_at-behind :
    (r zs x : List ℕ) (off k : ℕ) → off ≡ length r + k → put_at off x (r ++ zs) ≡ r ++ put_at k x zs
put_at-behind [] zs x off k e = ap (λ o. put_at o x zs) (omega arith)
put_at-behind (y ∷ r) zs x zero k e = absurd (omega arith)
put_at-behind (y ∷ r) zs x (suc off) k e =
    ap (λ t. y ∷ t) (put_at-behind r zs x off k (omega arith))

pub put_fields-behind :
    (n : ℕ) (fs : List (ℕ × List ℕ)) (r zs : List ℕ)
    → length r ≡ n
    → put_fields (shift_fields n fs) (r ++ zs) ≡ r ++ put_fields fs zs
put_fields-behind n [] r zs e = refl
put_fields-behind n ((off, bytes) ∷ fs) r zs e =
    ap (put_fields (shift_fields n fs)) (put_at-behind r zs bytes (n + off) off (omega arith))
    ∙ put_fields-behind n fs r (put_at off bytes zs) e

abbrev pub zeros : ℕ → List ℕ
zeros n = replicate n 0

pub put_at_nil : (dst : List ℕ) → put_at 0 [] dst ≡ dst
put_at_nil [] = refl
put_at_nil (y ∷ dst) = refl

zeros-add : (n m : ℕ) → zeros (n + m) ≡ zeros n ++ zeros m
zeros-add zero m = ap zeros (omega arith)
zeros-add (suc n) m = ap zeros {y = suc (n + m)} (omega arith) ∙ ap (λ t. 0 ∷ t) (zeros-add n m)

-- Storing a short field at the start of zeros.
pub put_at-region :
    (p : List ℕ) (n m : ℕ)
    → length p ≤ n
    → put_at 0 p (zeros (n + m)) ≡ (p ++ zeros (n - length p)) ++ zeros m
put_at-region [] n m h =
    put_at_nil (zeros (n + m))
    ∙ zeros-add n m
    ∙ ap (λ k. zeros k ++ zeros m) {y = n - 0} (omega arith)
put_at-region (x ∷ p) zero m h = absurd (omega arith)
put_at-region (x ∷ p) (suc n) m h =
    ap (λ k. put_at 0 (x ∷ p) (zeros k)) {y = suc (n + m)} (omega arith)
    ∙ ap (λ t. x ∷ t)
        (put_at-region p n m (omega arith)
          ∙ ap (λ k. (p ++ zeros k) ++ zeros m) {y = suc n - suc (length p)} (omega arith))

pub get_or-drop : (n k : ℕ) (xs : List ℕ) → get_or xs (n + k) 0 ≡ get_or (drop n xs) k 0
get_or-drop zero k xs = ap (λ i. get_or xs i 0) (omega arith)
get_or-drop (suc n) k [] = refl
get_or-drop (suc n) k (x ∷ xs) =
    ap (λ i. get_or (x ∷ xs) i 0) {y = suc (n + k)} (omega arith) ∙ get_or-drop n k xs

pub get_be32-drop : (n k : ℕ) (xs : List ℕ) → get_be32 xs (n + k) ≡ get_be32 (drop n xs) k
get_be32-drop n k xs = omega (
  arith,
  get_or-drop n k xs,
  ap (λ i. get_or xs i 0) (add_suc n k) ∙ get_or-drop n (suc k) xs,
  ap (λ i. get_or xs i 0) (ap suc (add_suc n k) ∙ add_suc n (suc k))
      ∙ get_or-drop n (suc (suc k)) xs,
  ap (λ i. get_or xs i 0)
        (ap (λ j. suc (suc j)) (add_suc n k) ∙ ap suc (add_suc n (suc k)) ∙ add_suc n (suc (suc k)))
      ∙ get_or-drop n (suc (suc (suc k))) xs,
)
  where
    add_suc : (n k : ℕ) → suc (n + k) ≡ n + suc k
    add_suc n k = omega arith

pub get_be16-drop : (n k : ℕ) (xs : List ℕ) → get_be16 xs (n + k) ≡ get_be16 (drop n xs) k
get_be16-drop n k xs =
    omega
      (arith, get_or-drop n k xs, ap (λ i. get_or xs i 0) (add_suc n k) ∙ get_or-drop n (suc k) xs)
  where
    add_suc : (n k : ℕ) → suc (n + k) ≡ n + suc k
    add_suc n k = omega arith

pub length-zeros : (n : ℕ) → length (zeros n) ≡ n
length-zeros zero = refl
length-zeros (suc n) = ap suc (length-zeros n)

-- A string that an array has room for is read back, though its NUL may lie outside the array.
pub until_nul-take :
    (n : ℕ) (s rest : List ℕ)
    → length s ≤ n
    → All (λ c. c ≢ 0) s
    → until_nul (take n (s ++ (0 ∷ rest)) ++ (0 ∷ [])) ≡ s
until_nul-take zero [] rest l h = refl
until_nul-take (suc n) [] rest l h = refl
until_nul-take zero (c ∷ s) rest l h = absurd (omega arith)
until_nul-take (suc n) (c ∷ s) rest l (h, hs) =
    ground (arith, until_nul-take n s rest (omega arith) hs)

-- A C string ends at its NUL, whatever follows.
pub until_nul-append : (s rest : List ℕ) → All (λ c. c ≢ 0) s → until_nul (s ++ (0 ∷ rest)) ≡ s
until_nul-append [] rest h = refl
until_nul-append (c ∷ s) rest (h, hs) = ground (arith, until_nul-append s rest hs)
