-- ===== src/Endpoint/Stream.antt =====
-- The IN side of an endpoint is a byte stream (src/usbip_device.c): what the application writes is
-- what the host is sent, in order.
use usbip_c.Base.{ℕ, zero, suc, ◌+◌, ◌-◌, ◌≤◌, ◌≡◌, refl, sym, ap, ap₂, ◌∙◌, List, [], ◌∷◌, ◌++◌}
use usbip_c.Base.{
  Bool, All, ◌<◌, ◌^◌, arith, ◌⊎◌, inl, inr, Bool-cases, if_both, append-nil, append_assoc,
}
use usbip_c.Base.{leb, leb→le, length, take, drop, length-drop, take-append-drop, take-all}
use usbip_c.Endpoint.State.{
  Dbuf, Pending, Ep, Ret, tail_after, stall_ret, clip, feed, enqueue, write, serve_in,
}
use usbip_c.Endpoint.State.{
  dispatch_in, dispatch_out, stall_all, stall, clear_halt, drop_seq, unlink,
}
use usbip_c.Endpoint.State.{
  Op, write_op, in_op, out_op, stall_op, clear_op, unlink_op, step, run, fresh,
}

-- what is queued for the host
abbrev pub contents : List Dbuf → List ℕ
contents [] = []
contents (d ∷ ds) = drop d.off d.bytes ++ contents ds

-- what replies carry
abbrev pub sent : List Ret → List ℕ
sent [] = []
sent (r ∷ rs) = r.bytes ++ sent rs

-- what the application writes
abbrev pub written : List Op → List ℕ
written [] = []
written (write_op buf ∷ ops) = buf ++ written ops
written (in_op p ∷ ops) = written ops
written (out_op seq bytes ∷ ops) = written ops
written (stall_op ∷ ops) = written ops
written (clear_op ∷ ops) = written ops
written (unlink_op victim ∷ ops) = written ops

sent-append : (rs ts : List Ret) → sent (rs ++ ts) ≡ sent rs ++ sent ts
sent-append [] ts = refl
sent-append (r ∷ rs) ts =
    ap (λ t. r.bytes ++ t) (sent-append rs ts) ∙ sym (append_assoc r.bytes (sent rs) (sent ts))

contents-append : (ds es : List Dbuf) → contents (ds ++ es) ≡ contents ds ++ contents es
contents-append [] es = refl
contents-append (d ∷ ds) es =
    ap (λ t. drop d.off d.bytes ++ t) (contents-append ds es)
    ∙ sym (append_assoc (drop d.off d.bytes) (contents ds) (contents es))

contents-enqueue : (q : List Dbuf) (src : List ℕ) → contents (enqueue q src) ≡ contents q ++ src
contents-enqueue q [] = sym (append-nil (contents q))
contents-enqueue q (b ∷ src) =
    contents-append q (record { bytes = b ∷ src; off = 0 } ∷ [])
    ∙ ap (λ t. contents q ++ t) (append-nil (b ∷ src))

-- Parked URBs take the front of the data, and what they leave is the rest of it.
feed-sent :
    (ps : List Pending) (tail : Bool) (src : List ℕ)
    → sent (feed ps tail src).3 ++ (feed ps tail src).2 ≡ src
unfolding feed
feed-sent [] tail src = refl
feed-sent (p ∷ ps) tail [] = refl
feed-sent (p ∷ ps) tail (b ∷ src) =
    append_assoc (take n (b ∷ src)) (sent (feed ps (tail_after ps tail) (drop n (b ∷ src))).3)
      (feed ps (tail_after ps tail) (drop n (b ∷ src))).2
    ∙ ap (λ t. take n (b ∷ src) ++ t) (feed-sent ps (tail_after ps tail) (drop n (b ∷ src)))
    ∙ take-append-drop n (b ∷ src)
  where
    n : ℕ
    n = clip p.length (length (b ∷ src))

-- The loop ends with no data or with no URB.
feed-stop :
    (ps : List Pending) (tail : Bool) (src : List ℕ)
    → ((feed ps tail src).2 ≡ []) ⊎ ((feed ps tail src).0 ≡ [])
unfolding feed
feed-stop [] tail src = inr refl
feed-stop (p ∷ ps) tail [] = inl refl
feed-stop (p ∷ ps) tail (b ∷ src) =
    feed-stop ps (tail_after ps tail) (drop (clip p.length (length (b ∷ src))) (b ∷ src))

-- Parked URBs wait only while no data is queued.
abbrev pub IsIdle : Ep → Type 0
IsIdle ep = (ep.in_queue ≡ []) ⊎ (ep.parked ≡ [])

drop_nil : (m : ℕ) → drop {A = ℕ} m [] ≡ []
drop_nil zero = refl
drop_nil (suc m) = refl

pub drop-drop : (n m : ℕ) (xs : List ℕ) → drop m (drop n xs) ≡ drop (n + m) xs
drop-drop zero m xs = ap (λ k. drop k xs) (omega arith)
drop-drop (suc n) m [] = drop_nil m ∙ ap (λ k. drop k []) {x = suc (n + m)} (omega arith)
drop-drop (suc n) m (x ∷ xs) =
    drop-drop n m xs ∙ ap (λ k. drop k (x ∷ xs)) {x = suc (n + m)} (omega arith)

clip-le : (wanted avail : ℕ) → clip wanted avail ≤ avail
clip-le wanted avail = ground arith

pub write-sent :
    (ep : Ep) (buf : List ℕ)
    → IsIdle ep
    → (sent (write ep buf).1 ++ contents (write ep buf).0.in_queue ≡ contents ep.in_queue ++ buf)
      × IsIdle (write ep buf).0
unfolding write
write-sent ep buf h = (data_kept h, idle h)
  where
    fed : List Pending × Bool × List ℕ × List Ret
    fed = feed ep.parked ep.has_tail buf

    data_kept :
        IsIdle ep → sent fed.3 ++ contents (enqueue ep.in_queue fed.2) ≡ contents ep.in_queue ++ buf
    data_kept (inl e) =
        rw (contents-enqueue ep.in_queue fed.2, ap contents e) (feed-sent ep.parked ep.has_tail buf)
    data_kept (inr e) = rw (contents-enqueue ep.in_queue fed.2) (
        ap
          (λ ps.
            sent (feed ps ep.has_tail buf).3
            ++ (contents ep.in_queue ++ (feed ps ep.has_tail buf).2))
          e)

    idle : IsIdle ep → (enqueue ep.in_queue fed.2 ≡ []) ⊎ (fed.0 ≡ [])
    idle (inr e) = inr (ap (λ ps. (feed ps ep.has_tail buf).0) e)
    idle (inl e) = elim (feed-stop ep.parked ep.has_tail buf) [
      | inl none_left ↦ inl (ap (enqueue ep.in_queue) none_left ∙ e)
      | inr no_urb ↦ inr no_urb
    ]

pub serve_in-sent :
    (q : List Dbuf) (ep : Ep) (p : Pending)
    → ep.in_queue ≡ q
    → IsIdle ep
    → (sent (serve_in q ep p).1 ++ contents (serve_in q ep p).0.in_queue ≡ contents q)
      × IsIdle (serve_in q ep p).0
unfolding serve_in
serve_in-sent [] ep p e h = (ap contents e, inl e)
serve_in-sent (d ∷ ds) ep p e (inl none_queued) = absurd (cc)
serve_in-sent (d ∷ ds) ep p e (inr no_urb) = elim (Bool-cases (leb (length d.bytes) (d.off + n))) [
  | inl drained ↦ rw drained (
    ap (λ t. t ++ contents ds)
        (append-nil (take n (drop d.off d.bytes))
          ∙ take-all n (drop d.off d.bytes) (
              omega
                (arith, leb→le (length d.bytes) (d.off + n) drained, length-drop d.off d.bytes))),
    inr no_urb,
  )
  | inr more ↦ rw more (
    ap₂ (λ a b. a ++ (b ++ contents ds)) (append-nil (take n (drop d.off d.bytes)))
          (sym (drop-drop d.off n d.bytes))
        ∙ sym
            (append_assoc (take n (drop d.off d.bytes)) (drop n (drop d.off d.bytes)) (contents ds))
        ∙ ap (λ t. t ++ contents ds) (take-append-drop n (drop d.off d.bytes)),
    inr no_urb,
  )
]
  where
    n : ℕ
    n = clip p.length (length d.bytes - d.off)

-- Stalls carry no data.
sent-stall_all : (ps : List Pending) → sent (stall_all ps) ≡ []
unfolding stall_all
sent-stall_all [] = refl
sent-stall_all (p ∷ ps) = sent-stall_all ps

drop_seq_nil :
    (victim : ℕ) (ps : List Pending) (tail : Bool) → ps ≡ [] → (drop_seq victim ps tail).0 ≡ []
unfolding drop_seq
drop_seq_nil victim [] tail e = refl
drop_seq_nil victim (p ∷ ps) tail e = absurd (cc)

abbrev op_written : Op → List ℕ
op_written op = written (op ∷ [])

-- a result that sends and queues just what was queued
abbrev Keeps : Ep → Ep × List Ret → Type 0
Keeps ep r = (sent r.1 ++ contents r.0.in_queue ≡ contents ep.in_queue ++ []) × IsIdle r.0

stalled-Keeps : (ep : Ep) (seq : ℕ) → IsIdle ep → Keeps ep (ep, stall_ret seq ∷ [])
stalled-Keeps ep seq h = (sym (append-nil (contents ep.in_queue)), h)

-- One event keeps the stream: what was sent, then what is queued, is what was queued, then what was
-- written.
pub step-sent :
    (ep : Ep) (op : Op)
    → IsIdle ep
    → (sent (step ep op).1 ++ contents (step ep op).0.in_queue
        ≡ contents ep.in_queue ++ op_written op)
      × IsIdle (step ep op).0
step-sent ep (write_op buf) h =
    unfold step in
    (let (a, b) = write-sent ep buf h in
      (a ∙ ap (λ t. contents ep.in_queue ++ t) (sym (append-nil buf)), b))
step-sent ep (in_op p) h =
    unfold step dispatch_in in
    (let (a, b) = serve_in-sent ep.in_queue ep p refl h in
      if_both (Keeps ep) ep.halted (ep, stall_ret p.seqnum ∷ []) (serve_in ep.in_queue ep p)
        (stalled-Keeps ep p.seqnum h) (a ∙ sym (append-nil (contents ep.in_queue)), b))
step-sent ep (out_op seq bytes) h =
    unfold step dispatch_out in
    if_both (Keeps ep) ep.halted (ep, stall_ret seq ∷ [])
      (
        record ep { out_queue = ep.out_queue ++ (bytes ∷ []) },
        record { seqnum = seq; status = 0; bytes = [] } ∷ [],
      )
      (stalled-Keeps ep seq h) (sym (append-nil (contents ep.in_queue)), h)
step-sent ep stall_op h =
    unfold step stall in
    (
      ap (λ t. t ++ contents ep.in_queue) (sent-stall_all ep.parked)
          ∙ sym (append-nil (contents ep.in_queue)),
      inr refl,
    )
step-sent ep clear_op h = unfold step clear_halt in (sym (append-nil (contents ep.in_queue)), h)
step-sent ep (unlink_op victim) h =
    unfold step unlink in (sym (append-nil (contents ep.in_queue)), idle h)
  where
    idle : IsIdle ep → (ep.in_queue ≡ []) ⊎ ((drop_seq victim ep.parked ep.has_tail).0 ≡ [])
    idle (inl e) = inl e
    idle (inr e) = inr (drop_seq_nil victim ep.parked ep.has_tail e)

written-cons : (op : Op) (ops : List Op) → written (op ∷ ops) ≡ op_written op ++ written ops
written-cons (write_op buf) ops = ap (λ t. t ++ written ops) (sym (append-nil buf))
written-cons (in_op p) ops = refl
written-cons (out_op seq bytes) ops = refl
written-cons stall_op ops = refl
written-cons clear_op ops = refl
written-cons (unlink_op victim) ops = refl

run-sent :
    (ops : List Op) (ep : Ep)
    → IsIdle ep
    → sent (run ep ops).1 ++ contents (run ep ops).0.in_queue ≡ contents ep.in_queue ++ written ops
unfolding run
run-sent [] ep h = sym (append-nil (contents ep.in_queue))
run-sent (op ∷ ops) ep h =
    let (a, b) = step-sent ep op h in
    ap (λ t. t ++ contents (run (step ep op).0 ops).0.in_queue)
      (sent-append (step ep op).1 (run (step ep op).0 ops).1)
    ∙ append_assoc (sent (step ep op).1) (sent (run (step ep op).0 ops).1)
        (contents (run (step ep op).0 ops).0.in_queue)
    ∙ ap (λ t. sent (step ep op).1 ++ t) (run-sent ops (step ep op).0 b)
    ∙ sym (append_assoc (sent (step ep op).1) (contents (step ep op).0.in_queue) (written ops))
    ∙ ap (λ t. t ++ written ops) a
    ∙ append_assoc (contents ep.in_queue) (op_written op) (written ops)
    ∙ ap (λ t. contents ep.in_queue ++ t) (sym (written-cons op ops))

-- the lengths that an int holds as they are
abbrev pub IsSigned : Op → Type 0
IsSigned (write_op buf) = length buf < 2 ^ 31
IsSigned (in_op p) = p.length < 2 ^ 31
IsSigned (out_op seq bytes) = Unit
IsSigned stall_op = Unit
IsSigned clear_op = Unit
IsSigned (unlink_op victim) = Unit

-- Over any life of an endpoint, with stalls, unlinks and OUT traffic in between, the data of the
-- replies to the host, followed by what is still queued, is what the application wrote: no byte is
-- lost, repeated or reordered, whatever the sizes of the writes and of the URBs, as long as each is
-- below 2^31.
pub run_stream :
    (ops : List Op)
    → All IsSigned ops
    → sent (run fresh ops).1 ++ contents (run fresh ops).0.in_queue ≡ written ops
run_stream ops signed = run-sent ops fresh (inl refl)
