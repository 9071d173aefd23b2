-- ===== src/Device/State.antt =====
-- usbip_device_dispatch, usbip_device_handle_unlink and the running pacer of src/usbip_device.c,
-- over all endpoints of a device. The classes' callbacks are parameters: they work on a `World`, and
-- what they do to endpoints is a list of effects, performed in order when the callback returns.
-- `none` is an access outside a buffer or an array, or an IN URB whose length is negative as an int.
use usbip_c.Base.{ℕ, ◌+◌, ◌-◌, ◌%◌, ◌^◌, List, [], ◌∷◌, ◌++◌, map, Bool, ◌&&◌}
use usbip_c.Base.{Option, none, some, ltb, leb, ◌==◌, if◌then◌else◌, length, get_or, get_elem?, set}
use usbip_c.Base.{take, drop}
use usbip_c.Base.Bytes.{get_le16}
use usbip_c.Wire.Header.{IsoPkt, usb_in, usb_iso}
use usbip_c.Wire.Command.{Urb, positive32}
use usbip_c.Wire.Reply.{total_actual}
use usbip_c.Endpoint.State.{
  Ep, Pending, Ret, stall_ret, write, serve_in, dispatch_out, stall, unlink,
}
use usbip_c.Dfu.State.{Setup}
use usbip_c.Control.Describe.{Ident}
use usbip_c.Control.State.{Effect, write_ep, stall_ep, Classes, Core, replace_by, handle_control}
use usbip_c.Pacing.State.{Paced, iso_deadline, pace_submit, pick}

-- `struct usbip_ep` but its queues: `on_out`, and `on_iso`, which fills the packets of an IN URB
-- (the produced lengths, and the buffer) or takes those of an OUT URB
pub record Pipe (World : Type 0) : Type 0 where
  pub type : ℕ
  pub interval : ℕ
  pub on_out : Option (World → List ℕ → World × List Effect)
  pub produce : Option (World → List ℕ → List ℕ × List ℕ × World)
  pub consume : Option (World → List ℕ → List ℕ → World)

-- the parts of `struct usbip_device` and `struct conn` that dispatch changes, and the classes'
-- state; `deadlines` are the endpoints' `iso_deadline_us`
pub record Dev (World : Type 0) : Type 0 where
  pub core : Core
  pub world : World
  pub deadlines : ℕ → ℕ
  pub paced : List Paced

-- A RET_SUBMIT: usbip_send_ret, or usbip_send_ret_iso with its packets and data.
pub data Sent : Type 0 where
  plain : Ret → Sent
  iso_ret : ℕ → List IsoPkt → List ℕ → Sent

abbrev pub ret : ℕ → ℕ → List ℕ → Sent
ret seq status bytes = plain (record { seqnum = seq; status = status; bytes = bytes })

-- `-19`: no such endpoint
abbrev pub status_nodev : ℕ
status_nodev = 2 ^ 32 - 19

-- `memcpy(&setup, urb->setup, 8)` with its 16-bit fields
abbrev pub setup_of : List ℕ → Setup
setup_of raw = record {
  request_type = get_or raw 0 0;
  request = get_or raw 1 0;
  value = get_le16 raw 2;
  index = get_le16 raw 4;
  length = get_le16 raw 6;
}

abbrev pub or_empty : Option (List ℕ) → List ℕ
or_empty none = []
or_empty (some bytes) = bytes

abbrev pub bytes_of : Urb → List ℕ
bytes_of u = or_empty u.data_bytes

abbrev pub lengths : List IsoPkt → List ℕ
lengths pkts = map (λ (p : IsoPkt). p.length) pkts

-- the sum in full, where the code's is a uint32_t
unfoldable pub sum : List ℕ → ℕ
sum [] = 0
sum (n ∷ ns) = n + sum ns

-- `urb->iso[i].actual_length = lens[i]; urb->iso[i].status = 0`
unfoldable pub completed : List IsoPkt → List ℕ → List IsoPkt
completed [] lens = []
completed (p ∷ ps) [] = record p { actual_length = 0; status = 0 } ∷ completed ps []
completed (p ∷ ps) (n ∷ lens) = record p { actual_length = n; status = 0 } ∷ completed ps lens

abbrev pub join_slots : Option (List ℕ) → Option (List ℕ) → Option (List ℕ)
join_slots none rest = none
join_slots (some x) none = none
join_slots (some x) (some xs) = some (x ++ xs)

-- The OUT packets back to back. A packet that does not fit the data leaves `junk`, what malloc()
-- left in the buffer; the test is on uint32_t numbers.
unfoldable pub de_pad : (ℕ → List ℕ) → List ℕ → List IsoPkt → Option (List ℕ)
de_pad junk bytes [] = some []
de_pad junk bytes (p ∷ ps) =
    let rest = de_pad junk bytes ps in
    let slot = take p.length (drop p.offset bytes) in
    let here =
      if leb ((p.offset + p.length) % 2 ^ 32) (length bytes)
      then if leb (p.offset + p.length) (length bytes) then some slot else none
      else some (junk p.length) in
    join_slots here rest

-- one effect
unfoldable pub perform : Core → Effect → Core × List Ret
unfolding write stall
perform core (write_ep i bytes) =
    replace_by core i (λ (ep : Ep). write ep bytes) (get_elem? core.eps i)
perform core (stall_ep i) = replace_by core i stall (get_elem? core.eps i)

unfoldable pub perform_all : Core → List Effect → Core × List Ret
unfolding perform
perform_all core [] = (core, [])
perform_all core (e ∷ es) =
    let (core1, rets) = perform core e in
    let (core2, more) = perform_all core1 es in (core2, rets ++ more)

abbrev pub call_produce :
    {World : Type 0}
    → Option (World → List ℕ → List ℕ × List ℕ × World)
    → World
    → List ℕ
    → List ℕ × List ℕ × World
call_produce none w lens = (map (λ (n : ℕ). 0) lens, [], w)
call_produce (some f) w lens = f w lens

abbrev pub call_consume :
    {World : Type 0} → Option (World → List ℕ → List ℕ → World) → World → List ℕ → List ℕ → World
call_consume none w lens bytes = w
call_consume (some f) w lens bytes = f w lens bytes

abbrev pub with_index : ℕ → Option Ep → Option (ℕ × Ep)
with_index i none = none
with_index i (some ep) = some (i, ep)

abbrev pub at_index : Core → Option ℕ → Option (ℕ × Ep)
at_index core none = none
at_index core (some i) = with_index i (get_elem? core.eps i)

-- `(urb->ep < 16) ? dev->ep_map[urb->ep][urb->direction] : NULL`, with the index,
-- for a direction of 0 or 1
abbrev pub look_up : Core → Urb → Option (ℕ × Ep)
look_up core u = if ltb u.ep 16 then at_index core (core.slot u.ep u.direction) else none

-- What happens to a device: a URB from the host at a time, a round of the pacer at a time, or the
-- application's use of an endpoint.
pub data Event : Type 0 where
  submit : ℕ → Urb → Event
  tick : ℕ → Event
  apply : Effect → Event

-- An access outside a buffer ends a run.
abbrev pub and_then : {A B : Type 0} → Option A → (A → Option B) → Option B
and_then none f = none
and_then (some a) f = f a

abbrev pub prepend :
    {World : Type 0} → List Sent → Option (Dev World × List Sent) → Option (Dev World × List Sent)
prepend sent none = none
prepend sent (some r) = some (r.0, sent ++ r.1)

module _ {World : Type 0} (classes : Classes World) (ident : Ident) (pipes : ℕ → Pipe World)
    (paced_on high_speed : Bool) (junk : ℕ → List ℕ) where
  -- the end of both isochronous branches: `data` are those of an IN URB
  unfoldable pub complete_iso :
      Dev World → ℕ → ℕ → Urb → List IsoPkt → List ℕ → Dev World × List Sent
  complete_iso dev now i u iso bytes =
      let deadline =
        iso_deadline (dev.deadlines i) now high_speed (pipes i).interval u.number_of_packets in
      let entry : Paced = record {
        deadline_us = deadline;
        seqnum = u.seqnum;
        iso = iso;
        bytes = take (total_actual iso) bytes;
      } in
      if paced_on
      then (
        record dev {
          deadlines = λ j. if j == i then deadline else dev.deadlines j;
          paced = pace_submit entry dev.paced;
        },
        [],
      )
      else (dev, iso_ret u.seqnum iso (take (total_actual iso) bytes) ∷ [])

  -- what the callback did to endpoints, and then the end
  unfoldable pub after_callback :
      Dev World → ℕ → ℕ → Urb → List IsoPkt → List ℕ → Dev World × List Sent
  unfolding complete_iso perform_all
  after_callback dev now i u iso bytes =
      let (effects, w) = classes.outbox dev.world in
      let (core, rets) = perform_all dev.core effects in
      let (dev1, sent) = complete_iso (record dev { core = core; world = w }) now i u iso bytes in
      (dev1, map plain rets ++ sent)

  -- an isochronous IN URB: the class fills the packets; with no callback they are empty
  unfoldable pub iso_in : Dev World → ℕ → ℕ → Urb → Dev World × List Sent
  unfolding after_callback completed
  iso_in dev now i u =
      let (lens, bytes, w) = call_produce (pipes i).produce dev.world (lengths u.iso) in
      after_callback (record dev { world = w }) now i u (completed u.iso lens) bytes

  -- an isochronous OUT URB whose packets were copied
  unfoldable pub iso_out : Dev World → ℕ → ℕ → Urb → List ℕ → Dev World × List Sent
  unfolding after_callback completed
  iso_out dev now i u bytes =
      let w = call_consume (pipes i).consume dev.world (lengths u.iso) bytes in
      after_callback (record dev { world = w }) now i u (completed u.iso (lengths u.iso)) []

  -- after the copying of an OUT URB's packets
  abbrev pub copied : Dev World → ℕ → ℕ → Urb → Option (List ℕ) → Option (Dev World × List Sent)
  copied dev now i u none = none
  copied dev now i u (some bytes) = some (iso_out dev now i u bytes)

  -- The buffer is as long as the uint32_t sum of the lengths.
  unfoldable pub dispatch_iso : Dev World → ℕ → ℕ → Urb → Option (Dev World × List Sent)
  unfolding iso_in iso_out de_pad sum
  dispatch_iso dev now i u =
      if leb (2 ^ 32) (sum (lengths u.iso))
      then none
      else if u.direction == usb_in
      then some (iso_in dev now i u)
      else copied dev now i u (de_pad junk (bytes_of u) u.iso)

  -- an OUT URB: the callback, or the queue for usbip_device_read, and then the reply
  unfoldable pub deliver : Dev World → ℕ → Ep → Urb → Dev World × List Sent
  unfolding perform_all dispatch_out
  deliver dev i ep u = elim (pipes i).on_out [
    | none ↦
        let (ep', rets) = dispatch_out ep u.seqnum (bytes_of u) in
        (record dev { core = record dev.core { eps = set dev.core.eps i ep' } }, map plain rets)
    | some f ↦
        let (w, effects) = f dev.world (bytes_of u) in
        let (core, rets) = perform_all dev.core effects in
        (record dev { core = core; world = w }, map plain rets ++ (ret u.seqnum 0 [] ∷ []))
  ]

  -- an IN URB: a slice of what is queued, or parked
  unfoldable pub fetch : Dev World → ℕ → Ep → Urb → Dev World × List Sent
  unfolding serve_in
  fetch dev i ep u =
      let pend : Pending = record { seqnum = u.seqnum; length = u.length } in
      let (ep', rets) = serve_in ep.in_queue ep pend in
      (record dev { core = record dev.core { eps = set dev.core.eps i ep' } }, map plain rets)

  -- A URB for an endpoint that there is. The length of an IN URB is compared as an int: one of 2^31 and
  -- more is negative, and moves the offset of what is queued back.
  unfoldable pub dispatch_at : Dev World → ℕ → ℕ → Ep → Urb → Option (Dev World × List Sent)
  unfolding dispatch_iso deliver fetch
  dispatch_at dev now i ep u =
      if ep.halted
      then some (dev, plain (stall_ret u.seqnum) ∷ [])
      else if ((pipes i).type == usb_iso) && positive32 u.number_of_packets
      then dispatch_iso dev now i u
      else if u.direction == usb_in
      then if ltb u.length (2 ^ 31) then some (fetch dev i ep u) else none
      else some (deliver dev i ep u)

  -- handle_control and the reply that it sends, behind those of the URBs that a halt or a callback
  -- completes
  unfoldable pub dispatch_control : Dev World → Urb → Dev World × List Sent
  unfolding handle_control perform_all
  dispatch_control dev u =
      let (answer, core, w, rets) =
        handle_control classes ident dev.core dev.world (setup_of u.setup) (bytes_of u) in
      let (effects, w1) = classes.outbox w in
      let (core1, more) = perform_all core effects in
      (
        record dev { core = core1; world = w1 },
        map plain (rets ++ more) ++ (ret u.seqnum answer.0 answer.1 ∷ []),
      )

  -- the URB's endpoint, or none
  abbrev pub at_endpoint : Dev World → ℕ → Urb → Option (ℕ × Ep) → Option (Dev World × List Sent)
  at_endpoint dev now u none = some (dev, ret u.seqnum status_nodev [] ∷ [])
  at_endpoint dev now u (some found) = dispatch_at dev now found.0 found.1 u

  -- usbip_device_dispatch; a direction that is neither IN nor OUT indexes outside the row of `ep_map`.
  unfoldable pub dispatch : Dev World → ℕ → Urb → Option (Dev World × List Sent)
  unfolding dispatch_at dispatch_control
  dispatch dev now u =
      if u.ep == 0
      then some (dispatch_control dev u)
      else if ltb u.ep 16 && leb 2 u.direction
      then none
      else at_endpoint dev now u (look_up dev.core u)

  -- ---- the pacer, while the connection lives ----

  -- One round of pacer_run: the earliest completion leaves if it is due.
  unfoldable pub pacer_round : Dev World → ℕ → Dev World × List Sent
  unfolding pick
  pacer_round dev now = elim dev.paced [
    | [] ↦ (dev, [])
    | e ∷ queue ↦
        let (first, rest) = pick e queue in
        if ltb now first.deadline_us
        then (dev, [])
        else (record dev { paced = rest }, iso_ret first.seqnum first.iso first.bytes ∷ [])
  ]

  -- ---- usbip_device_handle_unlink ----

  unfoldable pub drop_paced : ℕ → List Paced → List Paced
  drop_paced victim [] = []
  drop_paced victim (e ∷ queue) =
      let rest = drop_paced victim queue in if e.seqnum == victim then rest else e ∷ rest

  -- every endpoint, and the paced completions; the reply is a RET_UNLINK
  unfoldable pub handle_unlink : Dev World → ℕ → Dev World
  unfolding unlink drop_paced
  handle_unlink dev victim = record dev {
    core = record dev.core { eps = map (λ (ep : Ep). unlink ep victim) dev.core.eps };
    paced = drop_paced victim dev.paced;
  }

  -- ---- a life of the connection ----

  unfoldable pub step : Dev World → Event → Option (Dev World × List Sent)
  unfolding dispatch pacer_round perform
  step dev (submit now u) = dispatch dev now u
  step dev (tick now) = some (pacer_round dev now)
  step dev (apply e) =
      let (core, rets) = perform dev.core e in some (record dev { core = core }, map plain rets)

  unfoldable pub run : Dev World → List Event → Option (Dev World × List Sent)
  unfolding step
  run dev [] = some (dev, [])
  run dev (e ∷ es) = and_then (step dev e) (λ r. prepend r.1 (run r.0 es))
