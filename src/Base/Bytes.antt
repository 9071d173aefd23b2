-- ===== src/Base/Bytes.antt =====
-- Byte order: the accessors of include/usbip.h. A byte is a number below 256; the encoders reduce
-- each byte as the C casts do.
use Prim.Native.Nat.{ℕ, suc, ◌+◌, ◌*◌, ◌/◌, ◌%◌, ◌^◌, ◌<◌}
use mathlib.Core.Path.{◌≡◌}
use mathlib.Core.List.{List, [], ◌∷◌}
use native.Mathlib.Omega.{arith}
use usbip_c.Base.Lists.{get_or}

abbrev pub IsByte : ℕ → Type 0
IsByte b = b < 256

-- `USB_U16_LSB`, `USB_U16_MSB`
abbrev pub lsb16 : ℕ → ℕ
lsb16 x = x % 256

abbrev pub msb16 : ℕ → ℕ
msb16 x = x / 256 % 256

-- `usb_put_be32` and its siblings, as the bytes that they store
abbrev pub be16 : ℕ → List ℕ
be16 v = (v / 2 ^ 8 % 256) ∷ (v % 256) ∷ []

abbrev pub be24 : ℕ → List ℕ
be24 v = (v / 2 ^ 16 % 256) ∷ (v / 2 ^ 8 % 256) ∷ (v % 256) ∷ []

abbrev pub be32 : ℕ → List ℕ
be32 v = (v / 2 ^ 24 % 256) ∷ (v / 2 ^ 16 % 256) ∷ (v / 2 ^ 8 % 256) ∷ (v % 256) ∷ []

abbrev pub le16 : ℕ → List ℕ
le16 v = (v % 256) ∷ (v / 2 ^ 8 % 256) ∷ []

abbrev pub le32 : ℕ → List ℕ
le32 v = (v % 256) ∷ (v / 2 ^ 8 % 256) ∷ (v / 2 ^ 16 % 256) ∷ (v / 2 ^ 24 % 256) ∷ []

-- `usb_get_be32(buf + off)` and its siblings
abbrev pub get_be16 : List ℕ → ℕ → ℕ
get_be16 buf off = get_or buf off 0 * 2 ^ 8 + get_or buf (suc off) 0

abbrev pub get_be32 : List ℕ → ℕ → ℕ
get_be32 buf off =
    get_or buf off 0 * 2 ^ 24
    + get_or buf (suc off) 0 * 2 ^ 16
    + get_or buf (suc (suc off)) 0 * 2 ^ 8
    + get_or buf (suc (suc (suc off))) 0

abbrev pub get_le16 : List ℕ → ℕ → ℕ
get_le16 buf off = get_or buf off 0 + get_or buf (suc off) 0 * 2 ^ 8

abbrev pub get_le32 : List ℕ → ℕ → ℕ
get_le32 buf off =
    get_or buf off 0
    + get_or buf (suc off) 0 * 2 ^ 8
    + get_or buf (suc (suc off)) 0 * 2 ^ 16
    + get_or buf (suc (suc (suc off))) 0 * 2 ^ 24

-- The four bytes of a 32-bit value add up to it.
pub bytes32 :
    (v : ℕ)
    → v < 2 ^ 32
    → v / 2 ^ 24 % 256 * 2 ^ 24 + v / 2 ^ 16 % 256 * 2 ^ 16 + v / 2 ^ 8 % 256 * 2 ^ 8 + v % 256 ≡ v
bytes32 v h = omega arith

pub bytes16 : (v : ℕ) → v < 2 ^ 16 → v / 2 ^ 8 % 256 * 2 ^ 8 + v % 256 ≡ v
bytes16 v h = omega arith
