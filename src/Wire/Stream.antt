-- ===== src/Wire/Stream.antt =====
-- A reader of the arriving bytes: what src/usbip.c does with `readn(fd, …)` and an early return.
use usbip_c.Base.{ℕ, ◌≡◌, List, ◌++◌, length, take, drop, ltb, if◌then◌else◌, le→ltb, arith}
use usbip_c.Base.{length-append, take-length_append, drop-length_append}

-- `closed` is the C result -1. `fault` is no C result: an access outside an array.
pub data Outcome {ℓ} (A : Type ℓ) : Type ℓ where
  ok : A → Outcome A
  closed : Outcome A
  fault : Outcome A

abbrev pub Reader {ℓ} : Type ℓ → Type ℓ
Reader A = List ℕ → Outcome (A × List ℕ)

infixl 5 ◌>>=◌
abbrev pub ◌>>=◌ {ℓ κ} : {A : Type ℓ} {B : Type κ} → Reader A → (A → Reader B) → Reader B
◌>>=◌ m f s = elim (m s) [ ok (a, s') ↦ f a s' | closed ↦ closed | fault ↦ fault ]

abbrev pub return {ℓ} : {A : Type ℓ} → A → Reader A
return a s = ok (a, s)

-- `readn(fd, buf, n)`
pub readn : ℕ → Reader (List ℕ)
readn n s = if ltb (length s) n then closed else ok (take n s, drop n s)

-- What was put in front is what is read.
pub readn-append : (n : ℕ) (xs rest : List ℕ) → length xs ≡ n → readn n (xs ++ rest) ≡ ok (xs, rest)
unfolding readn
readn-append n xs rest e = rw (
  ← e,
  le→ltb (length (xs ++ rest)) (length xs) (omega (arith, length-append xs rest)),
  take-length_append xs rest,
  drop-length_append xs rest,
)
