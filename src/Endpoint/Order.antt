-- ===== src/Endpoint/Order.antt =====
-- The replies of an endpoint to the IN URBs of the host (src/usbip_device.c), in the order of the
-- URBs.
use usbip_c.Base.{ℕ, ◌+◌, ◌-◌, ◌≡◌, subst, refl, sym, ap, ◌∙◌, List, [], ◌∷◌, ◌++◌}
use usbip_c.Base.{Bool, true, false, inl, inr, Bool-cases, if_both, append-nil, append_assoc}
use usbip_c.Base.{leb, if◌then◌else◌, length, take, drop}
use usbip_c.Endpoint.State.{
  Dbuf, Pending, Ep, Ret, tail_after, stall_ret, clip, feed, write, park, serve_in,
}
use usbip_c.Endpoint.State.{dispatch_in, stall_all, stall, clear_halt}
use usbip_c.Endpoint.State.{
  Op, write_op, in_op, out_op, stall_op, clear_op, unlink_op, step, run, fresh,
}
use usbip_c.Endpoint.Stream.{IsIdle, write-sent}

-- the URBs that replies answer
abbrev pub answered : List Ret → List ℕ
answered [] = []
answered (r ∷ rs) = r.seqnum ∷ answered rs

abbrev pub waiting : List Pending → List ℕ
waiting [] = []
waiting (p ∷ ps) = p.seqnum ∷ waiting ps

-- the IN URBs of a run
abbrev pub asked : List Op → List ℕ
asked [] = []
asked (in_op p ∷ ops) = p.seqnum ∷ asked ops
asked (write_op buf ∷ ops) = asked ops
asked (out_op seq bytes ∷ ops) = asked ops
asked (stall_op ∷ ops) = asked ops
asked (clear_op ∷ ops) = asked ops
asked (unlink_op victim ∷ ops) = asked ops

-- a run of an IN endpoint in which the host unlinks nothing
abbrev pub IsInSide : List Op → Type 0
IsInSide [] = Unit
IsInSide (in_op p ∷ ops) = IsInSide ops
IsInSide (write_op buf ∷ ops) = IsInSide ops
IsInSide (out_op seq bytes ∷ ops) = ⊥
IsInSide (stall_op ∷ ops) = IsInSide ops
IsInSide (clear_op ∷ ops) = IsInSide ops
IsInSide (unlink_op victim ∷ ops) = ⊥

-- `pend_tail` is NULL only for an empty chain.
abbrev pub IsTail : List Pending → Bool → Type 0
IsTail ps tail = tail ≡ false → ps ≡ []

-- URBs wait only for want of data, behind a sound tail, and never at a halted endpoint.
abbrev pub IsSound : Ep → Type 0
IsSound ep = IsIdle ep × IsTail ep.parked ep.has_tail × (ep.halted ≡ true → ep.parked ≡ [])

pub answered-append : (rs ts : List Ret) → answered (rs ++ ts) ≡ answered rs ++ answered ts
answered-append [] ts = refl
answered-append (r ∷ rs) ts = ap (λ t. r.seqnum ∷ t) (answered-append rs ts)

waiting-append : (ps qs : List Pending) → waiting (ps ++ qs) ≡ waiting ps ++ waiting qs
waiting-append [] qs = refl
waiting-append (p ∷ ps) qs = ap (λ t. p.seqnum ∷ t) (waiting-append ps qs)

answered-stall_all : (ps : List Pending) → answered (stall_all ps) ≡ waiting ps
unfolding stall_all
answered-stall_all [] = refl
answered-stall_all (p ∷ ps) = ap (λ t. p.seqnum ∷ t) (answered-stall_all ps)

tail_after-IsTail :
    (p : Pending) (ps : List Pending) (tail : Bool)
    → IsTail (p ∷ ps) tail
    → IsTail ps (tail_after ps tail)
tail_after-IsTail p [] tail h e = refl
tail_after-IsTail p (q ∷ qs) tail h e = absurd (let no_node = h e in cc)

feed-answered :
    (ps : List Pending) (tail : Bool) (src : List ℕ)
    → answered (feed ps tail src).3 ++ waiting (feed ps tail src).0 ≡ waiting ps
unfolding feed
feed-answered [] tail src = refl
feed-answered (p ∷ ps) tail [] = refl
feed-answered (p ∷ ps) tail (b ∷ src) =
    ap (λ t. p.seqnum ∷ t)
      (feed-answered ps (tail_after ps tail) (drop (clip p.length (length (b ∷ src))) (b ∷ src)))

feed-IsTail :
    (ps : List Pending) (tail : Bool) (src : List ℕ)
    → IsTail ps tail
    → IsTail (feed ps tail src).0 (feed ps tail src).1
unfolding feed
feed-IsTail [] tail src h = h
feed-IsTail (p ∷ ps) tail [] h = h
feed-IsTail (p ∷ ps) tail (b ∷ src) h =
    feed-IsTail ps (tail_after ps tail) (drop (clip p.length (length (b ∷ src))) (b ∷ src))
      (tail_after-IsTail p ps tail h)

-- One event answers the URBs that go from the front of the line.
abbrev pub Answers : Ep → List ℕ → Ep × List Ret → Type 0
Answers ep new r = (answered r.1 ++ waiting r.0.parked ≡ waiting ep.parked ++ new) × IsSound r.0

write-Answers : (ep : Ep) (buf : List ℕ) → IsSound ep → Answers ep [] (write ep buf)
write-Answers ep buf (idle, tail, halt) =
    let (a, b) = write-sent ep buf idle in (line, (b, tail_kept, halt_kept))
  where
    line : answered (write ep buf).1 ++ waiting (write ep buf).0.parked ≡ waiting ep.parked ++ []
    line =
        unfold write in
        (feed-answered ep.parked ep.has_tail buf ∙ sym (append-nil (waiting ep.parked)))

    tail_kept : IsTail (write ep buf).0.parked (write ep buf).0.has_tail
    tail_kept = unfold write in feed-IsTail ep.parked ep.has_tail buf tail

    halt_kept : (write ep buf).0.halted ≡ true → (write ep buf).0.parked ≡ []
    halt_kept = unfold write feed in (λ e. ap (λ ps. (feed ps ep.has_tail buf).0) (halt e))

park-behind :
    (ep : Ep) (p : Pending)
    → IsTail ep.parked ep.has_tail
    → (park ep p).parked ≡ ep.parked ++ (p ∷ [])
unfolding park
park-behind ep p h = elim (Bool-cases ep.has_tail) [
  | inl e ↦ ap (λ b. if b then ep.parked ++ (p ∷ []) else p ∷ []) e
  | inr e ↦
      ap (λ b. if b then ep.parked ++ (p ∷ []) else p ∷ []) e
      ∙ sym (ap (λ ps. ps ++ (p ∷ [])) (h e))
]

pub stalled-Answers :
    (ep : Ep) (seq : ℕ)
    → ep.parked ≡ []
    → IsSound ep
    → Answers ep (seq ∷ []) (ep, stall_ret seq ∷ [])
stalled-Answers ep seq e h =
    (ap (λ ps. seq ∷ waiting ps) e ∙ sym (ap (λ ps. waiting ps ++ (seq ∷ [])) e), h)

-- URBs that wait do so for want of data.
none_waits :
    (ep : Ep) (d : Dbuf) (ds : List Dbuf) → ep.in_queue ≡ d ∷ ds → IsIdle ep → ep.parked ≡ []
none_waits ep d ds e (inl none_queued) = absurd (cc)
none_waits ep d ds e (inr no_urb) = no_urb

in_front :
    (ep : Ep) (seq : ℕ) → ep.parked ≡ [] → seq ∷ waiting ep.parked ≡ waiting ep.parked ++ (seq ∷ [])
in_front ep seq e = ap (λ ps. seq ∷ waiting ps) e ∙ sym (ap (λ ps. waiting ps ++ (seq ∷ [])) e)

pub serve_in-Answers :
    (q : List Dbuf) (ep : Ep) (p : Pending)
    → ep.in_queue ≡ q
    → ep.halted ≡ false
    → IsSound ep
    → Answers ep (p.seqnum ∷ []) (serve_in q ep p)
serve_in-Answers [] ep p e going (idle, tail, halt) =
    unfold serve_in in
    (
      ap waiting (park-behind ep p tail) ∙ waiting-append ep.parked (p ∷ []),
      (inl (queue e), has_tail, λ halted. absurd (halts halted)),
    )
  where
    has_tail : IsTail (park ep p).parked (park ep p).has_tail
    has_tail = unfold park in (λ e. absurd (cc))

    queue : ep.in_queue ≡ [] → (park ep p).in_queue ≡ []
    queue = unfold park in (λ e. e)

    halts : (park ep p).halted ≡ true → ⊥
    halts = unfold park in (λ e. cc)
serve_in-Answers (d ∷ ds) ep p e going (idle, tail, halt) =
    unfold serve_in in
    if_both (Answers ep (p.seqnum ∷ [])) (leb (length d.bytes) (d.off + chunk))
      (record ep { in_queue = ds }, ret ∷ [])
      (record ep { in_queue = record d { off = d.off + chunk } ∷ ds }, ret ∷ [])
      (in_front ep p.seqnum no_urb, (inr no_urb, tail, halt))
      (in_front ep p.seqnum no_urb, (inr no_urb, tail, halt))
  where
    chunk : ℕ
    chunk = clip p.length (length d.bytes - d.off)

    ret : Ret
    ret = record { seqnum = p.seqnum; status = 0; bytes = take chunk (drop d.off d.bytes) }

    no_urb : ep.parked ≡ []
    no_urb = none_waits ep d ds e idle

abbrev by_halt : Ep → Pending → Bool → Ep × List Ret
by_halt ep p b = if b then (ep, stall_ret p.seqnum ∷ []) else serve_in ep.in_queue ep p

dispatch_in_lem : (ep : Ep) (p : Pending) → dispatch_in ep p ≡ by_halt ep p ep.halted
unfolding dispatch_in
dispatch_in_lem ep p = refl

dispatch_in-Answers :
    (ep : Ep) (p : Pending) → IsSound ep → Answers ep (p.seqnum ∷ []) (dispatch_in ep p)
dispatch_in-Answers ep p (idle, tail, halt) = elim (Bool-cases ep.halted) [
  | inl e ↦
      subst (Answers ep (p.seqnum ∷ [])) (sym (dispatch_in_lem ep p ∙ ap (by_halt ep p) e))
        (stalled-Answers ep p.seqnum (halt e) (idle, tail, halt))
  | inr e ↦
      subst (Answers ep (p.seqnum ∷ [])) (sym (dispatch_in_lem ep p ∙ ap (by_halt ep p) e))
        (serve_in-Answers ep.in_queue ep p refl e (idle, tail, halt))
]

pub step-Answers :
    (ep : Ep) (op : Op)
    → IsInSide (op ∷ [])
    → IsSound ep
    → Answers ep (asked (op ∷ [])) (step ep op)
step-Answers ep (write_op buf) side h = unfold step in write-Answers ep buf h
step-Answers ep (in_op p) side h = unfold step in dispatch_in-Answers ep p h
step-Answers ep (out_op seq bytes) side h = absurd side
step-Answers ep stall_op side (idle, tail, halt) =
    unfold step stall in
    (ap (λ t. t ++ []) (answered-stall_all ep.parked), (inr refl, (λ e. refl), (λ e. refl)))
step-Answers ep clear_op side (idle, tail, halt) =
    unfold step clear_halt in (sym (append-nil (waiting ep.parked)), (idle, tail, λ e. absurd (cc)))
step-Answers ep (unlink_op victim) side h = absurd side

IsInSide-cons : (op : Op) (ops : List Op) → IsInSide (op ∷ ops) → IsInSide (op ∷ []) × IsInSide ops
IsInSide-cons (write_op buf) ops h = (tt, h)
IsInSide-cons (in_op p) ops h = (tt, h)
IsInSide-cons (out_op seq bytes) ops h = absurd h
IsInSide-cons stall_op ops h = (tt, h)
IsInSide-cons clear_op ops h = (tt, h)
IsInSide-cons (unlink_op victim) ops h = absurd h

asked-cons : (op : Op) (ops : List Op) → asked (op ∷ ops) ≡ asked (op ∷ []) ++ asked ops
asked-cons (write_op buf) ops = refl
asked-cons (in_op p) ops = refl
asked-cons (out_op seq bytes) ops = refl
asked-cons stall_op ops = refl
asked-cons clear_op ops = refl
asked-cons (unlink_op victim) ops = refl

run-Answers :
    (ops : List Op) (ep : Ep)
    → IsInSide ops
    → IsSound ep
    → answered (run ep ops).1 ++ waiting (run ep ops).0.parked ≡ waiting ep.parked ++ asked ops
unfolding run
run-Answers [] ep side h = sym (append-nil (waiting ep.parked))
run-Answers (op ∷ ops) ep side h =
    let (side1, side2) = IsInSide-cons op ops side in
    let (a, b) = step-Answers ep op side1 h in
    ap (λ t. t ++ waiting (run (step ep op).0 ops).0.parked)
      (answered-append (step ep op).1 (run (step ep op).0 ops).1)
    ∙ append_assoc (answered (step ep op).1) (answered (run (step ep op).0 ops).1)
        (waiting (run (step ep op).0 ops).0.parked)
    ∙ ap (λ t. answered (step ep op).1 ++ t) (run-Answers ops (step ep op).0 side2 b)
    ∙ sym (append_assoc (answered (step ep op).1) (waiting (step ep op).0.parked) (asked ops))
    ∙ ap (λ t. t ++ asked ops) a
    ∙ append_assoc (waiting ep.parked) (asked (op ∷ [])) (asked ops)
    ∙ ap (λ t. waiting ep.parked ++ t) (sym (asked-cons op ops))

-- On a new endpoint, whatever the application writes, stalls and clears, the host's IN URBs are
-- answered in the order in which they came, each at most once: the answered ones, then the ones
-- that wait, are those that came. The host unlinks nothing here and sends no OUT URB.
pub replies_in_order :
    (ops : List Op)
    → IsInSide ops
    → answered (run fresh ops).1 ++ waiting (run fresh ops).0.parked ≡ asked ops
replies_in_order ops side = run-Answers ops fresh side (inr refl, (λ e. refl), (λ e. refl))
