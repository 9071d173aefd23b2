-- ===== src/Endpoint/Unlink.antt =====
-- CMD_UNLINK at an endpoint (usbip_device_handle_unlink of src/usbip_device.c).
use usbip_c.Base.{ℕ, ◌≡◌, refl, ap, ◌∙◌, List, [], ◌∷◌, ◌++◌}
use usbip_c.Base.{Bool, false, ◌==◌, ==_iff, if◌then◌else◌}
use usbip_c.Endpoint.State.{
  Pending, Ep, tail_after, park, serve_in, dispatch_in, drop_seq, unlink, in_op, unlink_op, step,
  run,
}

-- the URBs that have another number
abbrev pub others : ℕ → List Pending → List Pending
others victim [] = []
others victim (p ∷ ps) = if p.seqnum == victim then others victim ps else p ∷ others victim ps

drop_seq-others :
    (victim : ℕ) (ps : List Pending) (tail : Bool) → (drop_seq victim ps tail).0 ≡ others victim ps
unfolding drop_seq
drop_seq-others victim [] tail = refl
drop_seq-others victim (p ∷ ps) tail =
    ap (λ rest. if p.seqnum == victim then rest else p ∷ rest)
      (drop_seq-others victim ps (if p.seqnum == victim then tail_after ps tail else tail))

-- what the walk leaves of the tail
drop_seq-last :
    (victim : ℕ) (ps : List Pending) (last : Pending) (tail : Bool)
    → last.seqnum ≡ victim
    → (drop_seq victim (ps ++ (last ∷ [])) tail).1 ≡ false
unfolding drop_seq
drop_seq-last victim [] last tail e =
    ap (λ b. if b then false else tail) ((==_iff last.seqnum victim).1 e)
drop_seq-last victim (p ∷ ps) last tail e =
    drop_seq-last victim ps last
      (if p.seqnum == victim then tail_after (ps ++ (last ∷ [])) tail else tail) e

-- An unlink sends nothing for the victim, keeps every other parked URB in its order, and keeps the
-- data and the halt.
pub unlink_exact :
    (ep : Ep) (victim : ℕ)
    → ((run ep (unlink_op victim ∷ [])).0.parked ≡ others victim ep.parked)
      × ((run ep (unlink_op victim ∷ [])).1 ≡ [])
      × ((run ep (unlink_op victim ∷ [])).0.in_queue ≡ ep.in_queue)
      × ((run ep (unlink_op victim ∷ [])).0.halted ≡ ep.halted)
unfolding run step unlink
unlink_exact ep victim = (drop_seq-others victim ep.parked ep.has_tail, refl, refl, refl)

-- Parked behind an endpoint with no tail, a URB is alone.
lone : (ep : Ep) (p : Pending) → ep.has_tail ≡ false → (park ep p).parked ≡ p ∷ []
unfolding park
lone ep p e = ap (λ b. if b then ep.parked ++ (p ∷ []) else p ∷ []) e

served-lone :
    (ep : Ep) (p : Pending)
    → ep.has_tail ≡ false
    → ep.halted ≡ false
    → ep.in_queue ≡ []
    → ((dispatch_in ep p).0.parked ≡ p ∷ []) × ((dispatch_in ep p).1 ≡ [])
unfolding dispatch_in serve_in
served-lone ep p no_tail going idle = rw (going, idle) (lone ep p no_tail, refl)

-- An endpoint that waits for data has URBs parked. The host unlinks the last of them, and sends
-- another: the chain is then that one alone. The URBs `ps` parked before are off the chain, and no
-- reply was sent for them.
pub unlink_loses_parked :
    (ep : Ep) (ps : List Pending) (last p : Pending)
    → ep.parked ≡ ps ++ (last ∷ [])
    → ep.halted ≡ false
    → ep.in_queue ≡ []
    → ((run ep (unlink_op last.seqnum ∷ in_op p ∷ [])).0.parked ≡ p ∷ [])
      × ((run ep (unlink_op last.seqnum ∷ in_op p ∷ [])).1 ≡ [])
unfolding run step
unlink_loses_parked ep ps last p chain going idle =
    let (a, b) = served-lone (unlink ep last.seqnum) p no_tail still_going still_idle in
    (a, ap (λ r. r ++ []) b)
  where
    no_tail : (unlink ep last.seqnum).has_tail ≡ false
    no_tail =
        unfold unlink in
        (ap (λ q. (drop_seq last.seqnum q ep.has_tail).1) chain
          ∙ drop_seq-last last.seqnum ps last ep.has_tail refl)

    still_going : (unlink ep last.seqnum).halted ≡ false
    still_going = unfold unlink in going

    still_idle : (unlink ep last.seqnum).in_queue ≡ []
    still_idle = unfold unlink in idle
