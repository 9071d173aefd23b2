-- ===== src/Endpoint/State.antt =====
-- `struct usbip_ep` of src/usbip_device_internal.h and what src/usbip_device.c does to it under
-- `ep->lock`. Each function returns the new endpoint and the replies that it sends, in order.
-- A length is that of an int that is not negative: Device/State lets no other IN URB through to
-- these functions, and an application that writes gives no other. malloc() is taken to succeed.
use usbip_c.Base.{
  ℕ, ◌+◌, ◌-◌, List, [], ◌∷◌, ◌++◌, Bool, true, false, not, ◌&&◌, Option, none, some,
}
use usbip_c.Base.{ltb, leb, ◌==◌, if◌then◌else◌, length, take, drop}
use usbip_c.Wire.Reply.{status_stall}

-- `struct dbuf`: a queued chunk, of which `off` bytes are consumed
pub record Dbuf : Type 0 where
  pub bytes : List ℕ
  pub off : ℕ

-- `struct pending`: a parked IN URB, whose length is below 2^31
pub record Pending : Type 0 where
  pub seqnum : ℕ
  pub length : ℕ

-- The chains from `in_head`, `out_head` and `pend_head`. `has_tail` says that `pend_tail` is not
-- NULL; where it is not NULL it points to the last node of its chain, since the code sets it only
-- on appending a node and clears it when that node goes.
pub record Ep : Type 0 where
  pub in_queue : List Dbuf
  pub out_queue : List (List ℕ)
  pub parked : List Pending
  pub has_tail : Bool
  pub halted : Bool

-- one RET_SUBMIT: the URB that it answers, the status, and the data behind the header. The actual
-- length of an OUT reply is left out.
pub record Ret : Type 0 where
  pub seqnum : ℕ
  pub status : ℕ
  pub bytes : List ℕ

abbrev pub stall_ret : ℕ → Ret
stall_ret seq = record { seqnum = seq; status = status_stall; bytes = [] }

-- `chunk = remaining; if (length && chunk > (int)length) chunk = (int)length`, for lengths below 2^31,
-- of which the int is the same number
abbrev pub clip : ℕ → ℕ → ℕ
clip wanted avail = if not (wanted == 0) && ltb wanted avail then wanted else avail

-- The tail is cleared with the last node: `ps` is what follows the node that goes.
abbrev pub tail_after : List Pending → Bool → Bool
tail_after [] tail = false
tail_after (p ∷ ps) tail = tail

-- ---- usbip_device_write ----

-- `remaining > 0`
abbrev pub remains : List ℕ → Bool
remains [] = false
remains (b ∷ src) = true

-- `while (remaining > 0 && ep->pend_head)`: what is left of the chain, of the tail and of the data,
-- and the replies.
unfoldable pub feed : List Pending → Bool → List ℕ → List Pending × Bool × List ℕ × List Ret
feed [] tail src = ([], tail, src, [])
feed (p ∷ ps) tail src =
    let chunk = clip p.length (length src) in
    let (ps', tail', src', rets) = feed ps (tail_after ps tail) (drop chunk src) in
    if remains src
    then (ps', tail', src', record { seqnum = p.seqnum; status = 0; bytes = take chunk src } ∷ rets)
    else (p ∷ ps, tail, src, [])

-- `if (remaining > 0) enq_dbuf(&ep->in_head, &ep->in_tail, src, remaining)`
abbrev pub enqueue : List Dbuf → List ℕ → List Dbuf
enqueue q [] = q
enqueue q (b ∷ src) = q ++ (record { bytes = b ∷ src; off = 0 } ∷ [])

unfoldable pub write : Ep → List ℕ → Ep × List Ret
unfolding feed
write ep buf =
    let (ps, tail, src, rets) = feed ep.parked ep.has_tail buf in
    (record ep { parked = ps; has_tail = tail; in_queue = enqueue ep.in_queue src }, rets)

-- ---- usbip_device_dispatch, the endpoints that are not isochronous ----

-- `if (ep->pend_tail) ep->pend_tail->next = pend; else ep->pend_head = pend; ep->pend_tail = pend`
unfoldable pub park : Ep → Pending → Ep
park ep p = record ep {
  parked = if ep.has_tail then ep.parked ++ (p ∷ []) else p ∷ [];
  has_tail = true;
}

-- An IN URB: a slice of the first chunk, or parked.
unfoldable pub serve_in : List Dbuf → Ep → Pending → Ep × List Ret
unfolding park
serve_in [] ep p = (park ep p, [])
serve_in (d ∷ ds) ep p =
    let chunk = clip p.length (length d.bytes - d.off) in
    let ret : Ret = record {
      seqnum = p.seqnum;
      status = 0;
      bytes = take chunk (drop d.off d.bytes);
    } in
    if leb (length d.bytes) (d.off + chunk)
    then (record ep { in_queue = ds }, ret ∷ [])
    else (record ep { in_queue = record d { off = d.off + chunk } ∷ ds }, ret ∷ [])

unfoldable pub dispatch_in : Ep → Pending → Ep × List Ret
unfolding serve_in
dispatch_in ep p = if ep.halted then (ep, stall_ret p.seqnum ∷ []) else serve_in ep.in_queue ep p

-- An OUT URB on an endpoint with no callback: queued for usbip_device_read, and acknowledged.
unfoldable pub dispatch_out : Ep → ℕ → List ℕ → Ep × List Ret
dispatch_out ep seq bytes = if ep.halted then (ep, stall_ret seq ∷ []) else (
  record ep { out_queue = ep.out_queue ++ (bytes ∷ []) },
  record { seqnum = seq; status = 0; bytes = [] } ∷ [],
)

-- usbip_device_read: `none` where it waits; what does not fit `len` is dropped.
unfoldable pub read : Ep → ℕ → Option (List ℕ × Ep)
read ep len = elim ep.out_queue [
  | [] ↦ none
  | bytes ∷ rest ↦ some (take len bytes, record ep { out_queue = rest })
]

-- ---- halts ----

unfoldable pub stall_all : List Pending → List Ret
stall_all [] = []
stall_all (p ∷ ps) = stall_ret p.seqnum ∷ stall_all ps

-- usbip_ep_stall
unfoldable pub stall : Ep → Ep × List Ret
unfolding stall_all
stall ep = (record ep { halted = true; parked = []; has_tail = false }, stall_all ep.parked)

-- usbip_ep_clear_halt
unfoldable pub clear_halt : Ep → Ep
clear_halt ep = record ep { halted = false }

-- ---- usbip_device_handle_unlink, one endpoint ----

-- The walk over the chain; a node that goes and is the last one takes the tail with it.
unfoldable pub drop_seq : ℕ → List Pending → Bool → List Pending × Bool
drop_seq victim [] tail = ([], tail)
drop_seq victim (p ∷ ps) tail =
    let (rest, rest_tail) =
      drop_seq victim ps (if p.seqnum == victim then tail_after ps tail else tail) in
    (if p.seqnum == victim then rest else p ∷ rest, rest_tail)

unfoldable pub unlink : Ep → ℕ → Ep
unfolding drop_seq
unlink ep victim =
    let (ps, tail) = drop_seq victim ep.parked ep.has_tail in
    record ep { parked = ps; has_tail = tail }

-- ---- a life of the endpoint ----

-- What reaches an endpoint: the application writes, stalls or clears; the host sends URBs, unlinks
-- one, or clears the halt.
pub data Op : Type 0 where
  write_op : List ℕ → Op
  in_op : Pending → Op
  out_op : ℕ → List ℕ → Op
  stall_op : Op
  clear_op : Op
  unlink_op : ℕ → Op

unfoldable pub step : Ep → Op → Ep × List Ret
unfolding write dispatch_in dispatch_out stall clear_halt unlink
step ep (write_op buf) = write ep buf
step ep (in_op p) = dispatch_in ep p
step ep (out_op seq bytes) = dispatch_out ep seq bytes
step ep stall_op = stall ep
step ep clear_op = (clear_halt ep, [])
step ep (unlink_op victim) = (unlink ep victim, [])

unfoldable pub run : Ep → List Op → Ep × List Ret
run ep [] = (ep, [])
run ep (op ∷ ops) =
    let (ep', rets) = step ep op in let (ep'', more) = run ep' ops in (ep'', rets ++ more)

-- a new endpoint (`calloc`)
abbrev pub fresh : Ep
fresh = record { in_queue = []; out_queue = []; parked = []; has_tail = false; halted = false }
