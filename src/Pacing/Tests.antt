-- ===== src/Pacing/Tests.antt =====
-- Three completions that are left (src/usbip_device.c).
use usbip_c.Base.{ℕ, ◌≡◌, refl, List, [], ◌∷◌, arith, true}
use mathlib.Core.List.{Perm}
use usbip_c.Pacing.State.{Paced, pace_submit, pick, drain_paced, iso_deadline}
use usbip_c.Pacing.Order.{IsSorted, drain_paced-IsSorted}

-- an OUT completion with no packets
abbrev late : ℕ → ℕ → Paced
late deadline seq = record { deadline_us = deadline; seqnum = seq; iso = []; bytes = [] }

abbrev left_over : List Paced
left_over = pace_submit (late 250 3) (pace_submit (late 900 2) (pace_submit (late 125 1) []))

drained : drain_paced 3 left_over ≡ late 125 1 ∷ late 250 3 ∷ late 900 2 ∷ []
unfolding drain_paced pick
drained = refl

-- eight packets at high speed, bInterval 1, after a gap
clock : iso_deadline 0 5000 true 1 8 ≡ 6000
unfolding iso_deadline
clock = refl

drain_paced-IsSorted_example :
    IsSorted (drain_paced 3 left_over) × Perm (drain_paced 3 left_over) left_over
drain_paced-IsSorted_example = drain_paced-IsSorted 3 left_over (omega arith)
