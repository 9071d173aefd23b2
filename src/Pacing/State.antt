-- ===== src/Pacing/State.antt =====
-- The deadline clock of an endpoint and the queue of paced completions of src/usbip_device.c. The
-- time is an argument.
use usbip_c.Base.{ℕ, zero, suc, ◌+◌, ◌-◌, ◌*◌, ◌^◌, List, [], ◌∷◌, Bool, ltb, ◌==◌, if◌then◌else◌}
use usbip_c.Wire.Header.{IsoPkt}

-- the service interval in microseconds, by `speed >= USB_SPEED_HIGH` and bInterval
abbrev pub frame_us : Bool → ℕ → ℕ
frame_us hs interval =
    let bint = if interval == 0 then 1 else interval in
    if hs then 125 * 2 ^ (bint - 1) else bint * 1000

-- iso_deadline, for a bInterval of 16 at most: the endpoint's new deadline from its old one
unfoldable pub iso_deadline : ℕ → ℕ → Bool → ℕ → ℕ → ℕ
iso_deadline old now hs interval npkts =
    (if ltb old now then now else old) + frame_us hs interval * npkts

-- `struct paced_ret`: the deadline, the URB that it completes, its packets, and the data of an IN
-- URB. What else of the header the reply copies is left out.
pub record Paced : Type 0 where
  pub deadline_us : ℕ
  pub seqnum : ℕ
  pub iso : List IsoPkt
  pub bytes : List ℕ

-- pace_submit puts the completion at the head.
abbrev pub pace_submit : Paced → List Paced → List Paced
pace_submit e queue = e ∷ queue

-- The earliest deadline, the first in the list among equals, and the queue without it.
unfoldable pub pick : Paced → List Paced → Paced × List Paced
pick e [] = (e, [])
pick e (x ∷ xs) =
    let (m, rest) = pick x xs in
    if ltb m.deadline_us e.deadline_us then (m, e ∷ rest) else (e, x ∷ xs)

-- pacer_run once it has to stop: every completion that is left, `fuel` of them at most
unfoldable pub drain_paced : ℕ → List Paced → List Paced
unfolding pick
drain_paced zero queue = []
drain_paced (suc fuel) [] = []
drain_paced (suc fuel) (e ∷ queue) = let (m, rest) = pick e queue in m ∷ drain_paced fuel rest
