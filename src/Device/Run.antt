-- ===== src/Device/Run.antt =====
-- Every URB of a connection is answered once, or still waits (src/usbip_device.c).
use usbip_c.Base.{ℕ, ◌+◌, ◌≡◌, refl, ap, subst, List, [], ◌∷◌, arith}
use usbip_c.Base.{Bool, some}
use usbip_c.Base.{ltb, if◌then◌else◌, if_both}
use usbip_c.Control.Describe.{Ident}
use usbip_c.Control.State.{Classes}
use usbip_c.Pacing.State.{Paced, pick}
use usbip_c.Device.State.{
  Dev, Pipe, Sent, iso_ret, perform, pacer_round, Event, submit, tick, apply, step, run,
}
use usbip_c.Device.Account.{count, count-append, parked_all, AllSound, perform-Balanced}
use usbip_c.Device.Ledger.{
  IfSome, Settled, and_then-Settled, core-Settled, outstanding, paced_seqs, pick-count, seqs,
  submitted, submitted-cons,
}
use usbip_c.Device.Transfers.{dispatch-Settled}

module _ {World : Type 0} (classes : Classes World) (ident : Ident) (pipes : ℕ → Pipe World)
    (paced_on high_speed : Bool) (junk : ℕ → List ℕ) where
  round-Settled :
      (s now : ℕ) (dev : Dev World)
      → AllSound dev.core
      → Settled s dev [] (pacer_round classes ident pipes paced_on high_speed junk dev now)
  unfolding pacer_round
  round-Settled s now dev h = by_queue dev.paced refl
    where
      by_queue :
          (q : List Paced)
          → dev.paced ≡ q
          → Settled s dev [] (elim q as (λ x. Dev World × List Sent) [
            | [] ↦ (dev, [])
            | e ∷ queue ↦
                let (first, rest) = pick e queue in
                if ltb now first.deadline_us
                then (dev, [])
                else (record dev { paced = rest }, iso_ret first.seqnum first.iso first.bytes ∷ [])
          ])
      by_queue [] e = (omega arith, h)
      by_queue (x ∷ queue) e =
          let r = pick x queue in
          if_both (Settled s dev []) (ltb now r.0.deadline_us) (dev, []) _ (omega arith, h)
            (
              omega (
                arith,
                pick-count s x queue,
                ap (λ q. count s (paced_seqs q)) e,
                count-append s (parked_all dev.core.eps) (paced_seqs dev.paced),
                count-append s (parked_all dev.core.eps) (paced_seqs r.1),
              ),
              h,
            )

  step-Settled :
      (s : ℕ) (dev : Dev World) (e : Event)
      → AllSound dev.core
      → IfSome
          (Settled s dev (submitted (e ∷ [])))
          (step classes ident pipes paced_on high_speed junk dev e)
  unfolding step
  step-Settled s dev (submit now u) h =
      dispatch-Settled classes ident pipes paced_on high_speed junk s dev now u h
  step-Settled s dev (tick now) h = round-Settled s now dev h
  step-Settled s dev (apply e) h =
      core-Settled s dev (perform dev.core e).0 dev.world (perform dev.core e).1 []
        (perform-Balanced s dev.core e h)

  run-Settled :
      (s : ℕ) (es : List Event) (dev : Dev World)
      → AllSound dev.core
      → IfSome
          (Settled s dev (submitted es))
          (run classes ident pipes paced_on high_speed junk dev es)
  unfolding run
  run-Settled s [] dev h = (omega arith, h)
  run-Settled s (e ∷ es) dev h =
      subst
        (λ new.
          IfSome (Settled s dev new)
            (run classes ident pipes paced_on high_speed junk dev (e ∷ es)))
        (submitted-cons e es)
        (and_then-Settled s dev (submitted (e ∷ [])) (submitted es)
          (step classes ident pipes paced_on high_speed junk dev e)
          (λ (d : Dev World). run classes ident pipes paced_on high_speed junk d es)
          (step-Settled s dev e h) (λ d k. run-Settled s es d k))

  -- On a device whose endpoints are sound, whatever the host submits (to any endpoint, control
  -- requests and isochronous transfers included), whatever the classes' callbacks write to endpoints
  -- and stall, whatever the application writes and stalls and whenever the pacer looks: as long as no
  -- buffer and no array is overrun, no IN URB that is dispatched to a queue has a length of 2^31 and
  -- more, and the host unlinks nothing, every sequence number is found among the replies and the URBs
  -- that are still parked or paced exactly as often as among the URBs submitted and those that waited
  -- before. So no URB is lost, and none is answered twice.
  pub run_accounts :
      (dev dev' : Dev World) (es : List Event) (sent : List Sent)
      → AllSound dev.core
      → run classes ident pipes paced_on high_speed junk dev es ≡ some (dev', sent)
      → (s : ℕ)
      → count s (seqs sent) + count s (outstanding dev')
        ≡ count s (outstanding dev) + count s (submitted es)
  run_accounts dev dev' es sent h e s =
      (subst (IfSome (Settled s dev (submitted es))) e (run-Settled s es dev h)).0
