-- ===== src/Device/Transfers.antt =====
-- A URB that is dispatched is answered, parked or paced (src/usbip_device.c).
use usbip_c.Base.{ℕ, ◌^◌, ◌≡◌, refl, List, [], ◌∷◌, ◌++◌, map, arith}
use usbip_c.Base.{Bool, false, ◌&&◌, Option, none, some}
use usbip_c.Base.{ltb, leb, ◌==◌, if◌then◌else◌, if_both, if_cases, get_elem?, set}
use usbip_c.Wire.Header.{IsoPkt, usb_in, usb_iso}
use usbip_c.Wire.Command.{Urb, positive32}
use usbip_c.Endpoint.State.{Ep, Pending, stall_ret, serve_in, dispatch_out}
use usbip_c.Endpoint.Order.{serve_in-Answers}
use usbip_c.Control.Describe.{Ident}
use usbip_c.Control.State.{Effect, Classes, Core, handle_control}
use usbip_c.Device.State.{
  Dev, Pipe, Sent, plain, ret, bytes_of, setup_of, lengths, sum, de_pad, completed, perform_all,
  call_produce, call_consume, complete_iso, after_callback, iso_in, iso_out, copied, dispatch_iso,
  deliver, fetch, dispatch_at, dispatch_control, look_up, with_index, at_index, at_endpoint,
  dispatch,
}
use usbip_c.Device.Account.{
  count-append, parked_all, AllSound, held-IsSound, change-Balanced, replace-Balanced,
  perform_all-Balanced, handle_control-Balanced, then-Balanced, then-Balanced,
}
use usbip_c.Device.Ledger.{
  IfSome, Settled, answer-Settled, prepend-Settled, core-Settled, paced_seqs, queued-IsSound,
  queued-counts,
}

module _ {World : Type 0} (classes : Classes World) (ident : Ident) (pipes : ℕ → Pipe World)
    (paced_on high_speed : Bool) (junk : ℕ → List ℕ) where
  complete_iso-Settled :
      (s : ℕ) (dev : Dev World) (w : World) (now i : ℕ) (u : Urb) (iso : List IsoPkt)
      (bytes : List ℕ)
      → AllSound dev.core
      → Settled s dev (u.seqnum ∷ []) (
          complete_iso classes ident pipes paced_on high_speed junk
            (record dev { world = w })
            now
            i
            u
            iso
            bytes)
  unfolding complete_iso
  complete_iso-Settled s dev w now i u iso bytes h =
      if_both (Settled s dev (u.seqnum ∷ [])) paced_on _ _
        (
          omega (
            arith,
            count-append s (parked_all dev.core.eps) (u.seqnum ∷ paced_seqs dev.paced),
            count-append s (parked_all dev.core.eps) (paced_seqs dev.paced),
          ),
          h,
        )
        (omega arith, h)

  after_callback-Settled :
      (s : ℕ) (dev : Dev World) (w : World) (now i : ℕ) (u : Urb) (iso : List IsoPkt)
      (bytes : List ℕ)
      → AllSound dev.core
      → Settled s dev (u.seqnum ∷ []) (
          after_callback classes ident pipes paced_on high_speed junk
            (record dev { world = w })
            now
            i
            u
            iso
            bytes)
  unfolding after_callback
  after_callback-Settled s dev w now i u iso bytes h =
      let (effects, w1) = classes.outbox w in
      let (core1, rets) = perform_all dev.core effects in
      let dev1 : Dev World = record dev { core = core1; world = w1 } in
      let effected = perform_all-Balanced s effects dev.core h in
      prepend-Settled s dev dev1 (map plain rets) [] (u.seqnum ∷ [])
        (some (complete_iso classes ident pipes paced_on high_speed junk dev1 now i u iso bytes))
        (core-Settled s dev core1 w1 rets [] effected)
        (complete_iso-Settled s dev1 w1 now i u iso bytes effected.1)

  copied-Settled :
      (s : ℕ) (dev : Dev World) (now i : ℕ) (u : Urb) (o : Option (List ℕ))
      → AllSound dev.core
      → IfSome
          (Settled s dev (u.seqnum ∷ []))
          (copied classes ident pipes paced_on high_speed junk dev now i u o)
  unfolding iso_out
  copied-Settled s dev now i u none h = tt
  copied-Settled s dev now i u (some bytes) h =
      after_callback-Settled s dev (call_consume (pipes i).consume dev.world (lengths u.iso) bytes)
        now i u (completed u.iso (lengths u.iso)) [] h

  dispatch_iso-Settled :
      (s : ℕ) (dev : Dev World) (now i : ℕ) (u : Urb)
      → AllSound dev.core
      → IfSome
          (Settled s dev (u.seqnum ∷ []))
          (dispatch_iso classes ident pipes paced_on high_speed junk dev now i u)
  unfolding dispatch_iso iso_in iso_out
  dispatch_iso-Settled s dev now i u h =
      let P = Settled s dev (u.seqnum ∷ []) in
      if_both (IfSome P) (leb (2 ^ 32) (sum (lengths u.iso))) none _ tt (
        if_both (IfSome P) (u.direction == usb_in)
          (some (iso_in classes ident pipes paced_on high_speed junk dev now i u)) _
          (let r = call_produce (pipes i).produce dev.world (lengths u.iso) in
            after_callback-Settled s dev r.2 now i u (completed u.iso r.0) r.1 h)
          (copied-Settled s dev now i u (de_pad junk (bytes_of u) u.iso) h))

  fetch-Settled :
      (s : ℕ) (dev : Dev World) (i : ℕ) (ep : Ep) (u : Urb)
      → AllSound dev.core
      → get_elem? dev.core.eps i ≡ some ep
      → ep.halted ≡ false
      → Settled s dev
          (u.seqnum ∷ [])
          (fetch classes ident pipes paced_on high_speed junk dev i ep u)
  unfolding fetch
  fetch-Settled s dev i ep u h e q =
      let pend : Pending = record { seqnum = u.seqnum; length = u.length } in
      let r = serve_in ep.in_queue ep pend in
      core-Settled s dev (record dev.core { eps = set dev.core.eps i r.0 }) dev.world r.1
        (u.seqnum ∷ [])
        (replace-Balanced s dev.core i ep r (u.seqnum ∷ []) h e
          (serve_in-Answers ep.in_queue ep pend refl q (held-IsSound dev.core.eps i ep h e)))

  deliver-Settled :
      (s : ℕ) (dev : Dev World) (i : ℕ) (ep : Ep) (u : Urb)
      → AllSound dev.core
      → get_elem? dev.core.eps i ≡ some ep
      → Settled s dev
          (u.seqnum ∷ [])
          (deliver classes ident pipes paced_on high_speed junk dev i ep u)
  unfolding deliver
  deliver-Settled s dev i ep u h e = by_callback (pipes i).on_out
    where
      by_callback :
          (o : Option (World → List ℕ → World × List Effect))
          → Settled s dev (u.seqnum ∷ []) (elim o as (λ x. Dev World × List Sent) [
            | none ↦
                let (ep', rets) = dispatch_out ep u.seqnum (bytes_of u) in
                (
                  record dev { core = record dev.core { eps = set dev.core.eps i ep' } },
                  map plain rets,
                )
            | some f ↦
                let (w, effects) = f dev.world (bytes_of u) in
                let (core, rets) = perform_all dev.core effects in
                (record dev { core = core; world = w }, map plain rets ++ (ret u.seqnum 0 [] ∷ []))
          ])
      by_callback none =
          let r = dispatch_out ep u.seqnum (bytes_of u) in
          core-Settled s dev (record dev.core { eps = set dev.core.eps i r.0 }) dev.world r.1
            (u.seqnum ∷ [])
            (change-Balanced s dev.core i ep r (u.seqnum ∷ []) h e
              (queued-counts s ep u.seqnum (bytes_of u))
              (queued-IsSound ep u.seqnum (bytes_of u) (held-IsSound dev.core.eps i ep h e)))
      by_callback (some f) =
          let r = f dev.world (bytes_of u) in
          answer-Settled s dev (perform_all dev.core r.1).0 r.0 (perform_all dev.core r.1).1
            (ret u.seqnum 0 []) (perform_all-Balanced s r.1 dev.core h)

  dispatch_at-Settled :
      (s : ℕ) (dev : Dev World) (now i : ℕ) (ep : Ep) (u : Urb)
      → AllSound dev.core
      → get_elem? dev.core.eps i ≡ some ep
      → IfSome
          (Settled s dev (u.seqnum ∷ []))
          (dispatch_at classes ident pipes paced_on high_speed junk dev now i ep u)
  unfolding dispatch_at
  dispatch_at-Settled s dev now i ep u h e =
      let P = IfSome (Settled s dev (u.seqnum ∷ [])) in
      if_cases P ep.halted (some (dev, plain (stall_ret u.seqnum) ∷ [])) _ (λ q. (omega arith, h))
        (λ q.
          if_both P (((pipes i).type == usb_iso) && positive32 u.number_of_packets)
            (dispatch_iso classes ident pipes paced_on high_speed junk dev now i u) _
            (dispatch_iso-Settled s dev now i u h)
            (if_both P (u.direction == usb_in)
              (if ltb u.length (2 ^ 31)
                then some (fetch classes ident pipes paced_on high_speed junk dev i ep u)
                else none)
              (some (deliver classes ident pipes paced_on high_speed junk dev i ep u))
              (if_both P (ltb u.length (2 ^ 31))
                (some (fetch classes ident pipes paced_on high_speed junk dev i ep u)) none
                (fetch-Settled s dev i ep u h e q) tt)
              (deliver-Settled s dev i ep u h e)))

  dispatch_control-Settled :
      (s : ℕ) (dev : Dev World) (u : Urb)
      → AllSound dev.core
      → Settled s dev
          (u.seqnum ∷ [])
          (dispatch_control classes ident pipes paced_on high_speed junk dev u)
  unfolding dispatch_control
  dispatch_control-Settled s dev u h =
      let r = handle_control classes ident dev.core dev.world (setup_of u.setup) (bytes_of u) in
      let (effects, w1) = classes.outbox r.2 in
      let (core1, more) = perform_all r.1 effects in
      let before =
        handle_control-Balanced classes ident s dev.core dev.world (setup_of u.setup) (bytes_of u)
          h in
      answer-Settled s dev core1 w1 (r.3 ++ more) (ret u.seqnum r.0.0 r.0.1) (
        then-Balanced s dev.core r.1 core1 r.3 more [] before
          (perform_all-Balanced s effects r.1 before.1))

  -- the endpoint that is found stands in the table
  abbrev IsFound : Core → Option (ℕ × Ep) → Type 0
  IsFound core none = Unit
  IsFound core (some found) = get_elem? core.eps found.0 ≡ some found.1

  with_index-IsFound :
      (core : Core) (i : ℕ) (o : Option Ep)
      → get_elem? core.eps i ≡ o
      → IsFound core (with_index i o)
  with_index-IsFound core i none e = tt
  with_index-IsFound core i (some ep) e = e

  at_index-IsFound : (core : Core) (o : Option ℕ) → IsFound core (at_index core o)
  at_index-IsFound core none = tt
  at_index-IsFound core (some i) = with_index-IsFound core i (get_elem? core.eps i) refl

  look_up-IsFound : (core : Core) (u : Urb) → IsFound core (look_up core u)
  look_up-IsFound core u =
      if_both (IsFound core) (ltb u.ep 16) (at_index core (core.slot u.ep u.direction)) none
        (at_index-IsFound core (core.slot u.ep u.direction)) tt

  at_endpoint-Settled :
      (s : ℕ) (dev : Dev World) (now : ℕ) (u : Urb) (o : Option (ℕ × Ep))
      → AllSound dev.core
      → IsFound dev.core o
      → IfSome
          (Settled s dev (u.seqnum ∷ []))
          (at_endpoint classes ident pipes paced_on high_speed junk dev now u o)
  at_endpoint-Settled s dev now u none h k = (omega arith, h)
  at_endpoint-Settled s dev now u (some found) h k =
      dispatch_at-Settled s dev now found.0 found.1 u h k

  pub dispatch-Settled :
      (s : ℕ) (dev : Dev World) (now : ℕ) (u : Urb)
      → AllSound dev.core
      → IfSome
          (Settled s dev (u.seqnum ∷ []))
          (dispatch classes ident pipes paced_on high_speed junk dev now u)
  unfolding dispatch
  dispatch-Settled s dev now u h =
      if_both (IfSome (Settled s dev (u.seqnum ∷ []))) (u.ep == 0)
        (some (dispatch_control classes ident pipes paced_on high_speed junk dev u))
        (if ltb u.ep 16 && leb 2 u.direction
          then none
          else at_endpoint classes ident pipes paced_on high_speed junk dev now u
              (look_up dev.core u))
        (dispatch_control-Settled s dev u h)
        (if_both (IfSome (Settled s dev (u.seqnum ∷ []))) (ltb u.ep 16 && leb 2 u.direction) none
          (at_endpoint classes ident pipes paced_on high_speed junk dev now u (look_up dev.core u))
          tt (at_endpoint-Settled s dev now u (look_up dev.core u) h (look_up-IsFound dev.core u)))
