-- ===== src/Hid/Interval.antt =====
-- The loop of hid_encode_interval (src/classes/device/hid.c).
use usbip_c.Base.{ℕ, ◌-◌, ◌^◌, ◌≤◌, ◌≡◌}
use usbip_c.Hid.State.{interval_error}

-- the state of the loop: a candidate of the range with its error
abbrev IsBest : ℕ → ℕ × ℕ → Type 0
IsBest ms r = (r.1 ≡ interval_error ms r.0) × (1 ≤ r.0) × (r.0 ≤ 16)

-- no further than both
abbrev Within : ℕ → ℕ → ℕ × ℕ → Type 0
Within e err r = (r.1 ≤ err) × (r.1 ≤ e)

-- what the loop ends with
abbrev initial : ℕ × ℕ
initial = (1, 2 ^ 32 - 1)
