-- ===== src/Device/Ledger.antt =====
-- The replies and the waiting URBs of a connection, counted (src/usbip_device.c).
use usbip_c.Base.{ℕ, ◌+◌, ◌≡◌, refl, ap, List, [], ◌∷◌, ◌++◌, map, arith}
use usbip_c.Base.{Option, none, some}
use usbip_c.Base.{ltb, if_both}
use usbip_c.Endpoint.State.{Ep, Ret, stall_ret, dispatch_out}
use usbip_c.Endpoint.Order.{answered, waiting, IsSound}
use usbip_c.Control.State.{Core}
use usbip_c.Pacing.State.{Paced, pick}
use usbip_c.Device.State.{Dev, Sent, plain, iso_ret, Event, submit, tick, apply, and_then, prepend}
use usbip_c.Device.Account.{count, count-append, parked_all, AllSound, Balanced}

abbrev pub seq_of : Sent → ℕ
seq_of (plain r) = r.seqnum
seq_of (iso_ret seq iso bytes) = seq

abbrev pub seqs : List Sent → List ℕ
seqs [] = []
seqs (x ∷ xs) = seq_of x ∷ seqs xs

abbrev pub paced_seqs : List Paced → List ℕ
paced_seqs [] = []
paced_seqs (e ∷ es) = e.seqnum ∷ paced_seqs es

pub seqs-plain : (rets : List Ret) → seqs (map plain rets) ≡ answered rets
seqs-plain [] = refl
seqs-plain (r ∷ rets) = ap (λ t. r.seqnum ∷ t) (seqs-plain rets)

pub seqs-append : (xs ys : List Sent) → seqs (xs ++ ys) ≡ seqs xs ++ seqs ys
seqs-append [] ys = refl
seqs-append (x ∷ xs) ys = ap (λ t. seq_of x ∷ t) (seqs-append xs ys)

-- the URBs that still wait
abbrev pub outstanding : {World : Type 0} → Dev World → List ℕ
outstanding dev = parked_all dev.core.eps ++ paced_seqs dev.paced

abbrev pub Settled : {World : Type 0} → ℕ → Dev World → List ℕ → Dev World × List Sent → Type 0
Settled s dev new r =
    (count s (seqs r.1) + count s (outstanding r.0) ≡ count s (outstanding dev) + count s new)
    × AllSound r.0.core

-- what holds of the result, if no buffer is overrun
abbrev pub IfSome : {A : Type 0} → (A → Type 0) → Option A → Type 0
IfSome P none = Unit
IfSome P (some a) = P a

-- The core changes, and its replies go out.
pub core-Settled :
    {World : Type 0} (s : ℕ) (dev : Dev World) (core : Core) (w : World) (rets : List Ret)
    (new : List ℕ)
    → Balanced s dev.core core rets new
    → Settled s dev new (record dev { core = core; world = w }, map plain rets)
core-Settled s dev core w rets new (line, sound) = (
  omega (
    arith,
    line,
    ap (count s) (seqs-plain rets),
    count-append s (parked_all core.eps) (paced_seqs dev.paced),
    count-append s (parked_all dev.core.eps) (paced_seqs dev.paced),
  ),
  sound,
)

pub queued-counts :
    (s : ℕ) (ep : Ep) (seq : ℕ) (bytes : List ℕ)
    → count s (answered (dispatch_out ep seq bytes).1)
        + count s (waiting (dispatch_out ep seq bytes).0.parked)
      ≡ count s (waiting ep.parked) + count s (seq ∷ [])
unfolding dispatch_out
queued-counts s ep seq bytes =
    if_both
      (λ (r : Ep × List Ret).
        count s (answered r.1) + count s (waiting r.0.parked)
        ≡ count s (waiting ep.parked) + count s (seq ∷ []))
      ep.halted (ep, stall_ret seq ∷ []) _ (omega arith) (omega arith)

pub queued-IsSound :
    (ep : Ep) (seq : ℕ) (bytes : List ℕ) → IsSound ep → IsSound (dispatch_out ep seq bytes).0
unfolding dispatch_out
queued-IsSound ep seq bytes h =
    if_both (λ (r : Ep × List Ret). IsSound r.0) ep.halted (ep, stall_ret seq ∷ []) _ h h

-- and one more reply behind them
pub answer-Settled :
    {World : Type 0} (s : ℕ) (dev : Dev World) (core : Core) (w : World) (rets : List Ret)
    (last : Sent)
    → Balanced s dev.core core rets []
    → Settled s dev
        (seq_of last ∷ [])
        (record dev { core = core; world = w }, map plain rets ++ (last ∷ []))
answer-Settled s dev core w rets last b =
    let (line, sound) = core-Settled s dev core w rets [] b in
    (
      omega (
        arith,
        line,
        ap (count s) (seqs-append (map plain rets) (last ∷ [])),
        count-append s (seqs (map plain rets)) (seq_of last ∷ []),
      ),
      sound,
    )

pub pick-count :
    (s : ℕ) (e : Paced) (es : List Paced)
    → count s ((pick e es).0.seqnum ∷ paced_seqs (pick e es).1) ≡ count s (e.seqnum ∷ paced_seqs es)
unfolding pick
pick-count s e [] = refl
pick-count s e (x ∷ xs) =
    let r = pick x xs in
    if_both
      (λ (q : Paced × List Paced).
        count s (q.0.seqnum ∷ paced_seqs q.1) ≡ count s (e.seqnum ∷ x.seqnum ∷ paced_seqs xs))
      (ltb r.0.deadline_us e.deadline_us) (r.0, e ∷ r.1) (e, x ∷ xs)
      (omega (arith, pick-count s x xs)) refl

-- two steps, one after the other
pub prepend-Settled :
    {World : Type 0} (s : ℕ) (dev dev1 : Dev World) (xs : List Sent) (new more : List ℕ)
    (o : Option (Dev World × List Sent))
    → Settled s dev new (dev1, xs)
    → IfSome (Settled s dev1 more) o
    → IfSome (Settled s dev (new ++ more)) (prepend xs o)
prepend-Settled s dev dev1 xs new more none a b = tt
prepend-Settled s dev dev1 xs new more (some r) (line, sound) (line1, sound1) = (
  omega (
    arith,
    line,
    line1,
    ap (count s) (seqs-append xs r.1),
    count-append s (seqs xs) (seqs r.1),
    count-append s new more,
  ),
  sound1,
)

pub and_then-Settled :
    {World : Type 0} (s : ℕ) (dev : Dev World) (new more : List ℕ)
    (o : Option (Dev World × List Sent)) (k : Dev World → Option (Dev World × List Sent))
    → IfSome (Settled s dev new) o
    → ((d : Dev World) → AllSound d.core → IfSome (Settled s d more) (k d))
    → IfSome (Settled s dev (new ++ more)) (and_then o (λ r. prepend r.1 (k r.0)))
and_then-Settled s dev new more none k a b = tt
and_then-Settled s dev new more (some r) k a b =
    prepend-Settled s dev r.0 r.1 new more (k r.0) a (b r.0 a.1)

-- the URBs that the host sends
abbrev pub submitted : List Event → List ℕ
submitted [] = []
submitted (submit now u ∷ es) = u.seqnum ∷ submitted es
submitted (tick now ∷ es) = submitted es
submitted (apply e ∷ es) = submitted es

pub submitted-cons :
    (e : Event) (es : List Event) → submitted (e ∷ []) ++ submitted es ≡ submitted (e ∷ es)
submitted-cons (submit now u) es = refl
submitted-cons (tick now) es = refl
submitted-cons (apply e) es = refl
