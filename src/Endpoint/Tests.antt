-- ===== src/Endpoint/Tests.antt =====
-- Runs of one endpoint on concrete data (src/usbip_device.c).
use usbip_c.Base.{arith, ℕ, ◌≡◌, refl, List, [], ◌∷◌, ◌++◌, true, false}
use usbip_c.Endpoint.State.{
  Pending, Ep, write, write_op, in_op, stall_op, clear_op, unlink_op, Op, step, run, fresh,
}
use usbip_c.Endpoint.State.{feed, dispatch_in, serve_in, park, stall, stall_all, clear_halt}
use usbip_c.Endpoint.Stream.{contents, sent, run_stream}
use usbip_c.Endpoint.Order.{answered, waiting, replies_in_order}
use usbip_c.Endpoint.Unlink.{unlink_loses_parked}

abbrev urb : ℕ → ℕ → Pending
urb seq len = record { seqnum = seq; length = len }

-- Two URBs wait, a write feeds both and leaves a rest, which a third one and a stall find.
abbrev busy : List Op
busy =
    in_op (urb 1 2)
    ∷ in_op (urb 2 64)
    ∷ write_op (10 ∷ 11 ∷ 12 ∷ [])
    ∷ write_op (13 ∷ 14 ∷ [])
    ∷ in_op (urb 3 1)
    ∷ in_op (urb 4 8)
    ∷ in_op (urb 5 8)
    ∷ stall_op
    ∷ in_op (urb 6 8)
    ∷ clear_op
    ∷ in_op (urb 7 8)
    ∷ []

busy_replies :
    (sent (run fresh busy).1 ≡ 10 ∷ 11 ∷ 12 ∷ 13 ∷ 14 ∷ [])
    × (answered (run fresh busy).1 ≡ 1 ∷ 2 ∷ 3 ∷ 4 ∷ 5 ∷ 6 ∷ [])
unfolding run step write feed dispatch_in serve_in park stall stall_all clear_halt
busy_replies = (refl, refl)

run_stream_example :
    sent (run fresh busy).1 ++ contents (run fresh busy).0.in_queue ≡ 10 ∷ 11 ∷ 12 ∷ 13 ∷ 14 ∷ []
run_stream_example = run_stream busy (
  omega arith,
  (
    omega arith,
    (
      omega arith,
      (
        omega arith,
        (omega arith, (omega arith, (omega arith, (tt, (omega arith, (tt, (omega arith, tt))))))),
      ),
    ),
  ),
)

replies_in_order_example :
    answered (run fresh busy).1 ++ waiting (run fresh busy).0.parked
    ≡ 1 ∷ 2 ∷ 3 ∷ 4 ∷ 5 ∷ 6 ∷ 7 ∷ []
replies_in_order_example = replies_in_order busy tt

-- three URBs parked
abbrev waiting_three : Ep
waiting_three = record {
  in_queue = [];
  out_queue = [];
  parked = urb 1 8 ∷ urb 2 8 ∷ urb 3 8 ∷ [];
  has_tail = true;
  halted = false;
}

unlink_loses_parked_example :
    ((run waiting_three (unlink_op 3 ∷ in_op (urb 4 8) ∷ [])).0.parked ≡ urb 4 8 ∷ [])
    × ((run waiting_three (unlink_op 3 ∷ in_op (urb 4 8) ∷ [])).1 ≡ [])
unlink_loses_parked_example =
    unlink_loses_parked waiting_three (urb 1 8 ∷ urb 2 8 ∷ []) (urb 3 8) (urb 4 8) refl refl refl
