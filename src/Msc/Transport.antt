-- ===== src/Msc/Transport.antt =====
-- A command's answer on the wire: the actions of src/classes/device/msc.c on the bulk IN pipe of
-- src/usbip_device.c, and the host's two reads.
use usbip_c.Base.{ℕ, ◌+◌, ◌-◌, ◌≤◌, ◌<◌, min, ◌≡◌, ap, ◌∙◌}
use usbip_c.Base.{List, [], ◌∷◌, ◌++◌, Bool, true, false, arith}
use usbip_c.Base.{
  ltb, leb, lt→ltb, ◌^◌, ◌==◌, if◌then◌else◌, if_cases, length, take, length-take, take-all,
  length-append,
}
use usbip_c.Base.Bytes.{le32}
use usbip_c.Msc.State.{
  Sense, Msc, Action, write_in, write_int, stall_in, stall_out, csw, msc_csw, msc_stall_data_phase,
  msc_data_in, msc_fail,
}
use usbip_c.Endpoint.State.{
  Dbuf, Ep, Pending, Ret, fresh, write, feed, stall, stall_ret, clear_halt, dispatch_in, serve_in,
  clip,
}

-- an action, on the IN pipe
abbrev pub perform : Ep → Action → Ep
perform ep (write_in bytes) = (write ep bytes).0
perform ep stall_in = (stall ep).0
perform ep stall_out = ep

abbrev pub perform_all : Ep → List Action → Ep
perform_all ep [] = ep
perform_all ep (a ∷ acts) = perform_all (perform ep a) acts

abbrev pub in_urb : ℕ → ℕ → Pending
in_urb seq len = record { seqnum = seq; length = len }

abbrev pub ret_of : ℕ → List ℕ → Ret
ret_of seq bytes = record { seqnum = seq; status = 0; bytes = bytes }

-- The host reads `dlen` bytes, clears the halt (where there is one), and reads the 13 bytes of a
-- CSW.
abbrev pub host_reads : ℕ → ℕ → ℕ → Ep → List Ret
host_reads seq1 seq2 dlen ep =
    let (ep1, first) = dispatch_in ep (in_urb seq1 dlen) in
    let (ep2, second) = dispatch_in (clear_halt ep1) (in_urb seq2 13) in first ++ second

length-csw :
    (tag : List ℕ) (residue status : ℕ) → length tag ≡ 4 → length (csw tag residue status) ≡ 13
unfolding csw
length-csw tag residue status h =
    let outer : length (tag ++ le32 residue ++ (status ∷ [])) ≡ length (tag ++ le32 residue) + 1 =
      length-append (tag ++ le32 residue) (status ∷ []) in
    let inner : length (tag ++ le32 residue) ≡ length tag + 4 = length-append tag (le32 residue) in
    omega (arith, h)

abbrev chunk_of : List ℕ → Dbuf
chunk_of bytes = record { bytes = bytes; off = 0 }

-- A chunk that the URB has room for goes whole.
serve_in-whole :
    (bytes : List ℕ) (ds : List Dbuf) (ep : Ep) (p : Pending)
    → 0 < length bytes
    → length bytes ≤ p.length
    → serve_in (chunk_of bytes ∷ ds) ep p
      ≡ (record ep { in_queue = ds }, ret_of p.seqnum bytes ∷ [])
unfolding serve_in
serve_in-whole bytes ds ep p h k =
    let served : ℕ → Bool → Ep × List Ret = λ n b.
      if b then (record ep { in_queue = ds }, ret_of p.seqnum (take n bytes) ∷ []) else (
        record ep { in_queue = record { bytes = bytes; off = 0 + n } ∷ ds },
        ret_of p.seqnum (take n bytes) ∷ [],
      ) in
    ap (λ n. served n (leb (length bytes) (0 + n))) {x = clip p.length (length bytes - 0)}
      {y = length bytes} (ground arith)
    ∙ ap (served (length bytes)) {y = true} (ground arith)
    ∙ ap (λ t. (record ep { in_queue = ds }, ret_of p.seqnum t ∷ []))
        (take-all (length bytes) bytes (omega arith))

-- the status behind data that was sent
sent_reads :
    (seq1 seq2 dlen : ℕ) (bytes status : List ℕ)
    → 0 < length bytes
    → length bytes ≤ dlen
    → length status ≡ 13
    → host_reads seq1 seq2 dlen (perform_all fresh (write_in bytes ∷ write_in status ∷ []))
      ≡ ret_of seq1 bytes ∷ ret_of seq2 status ∷ []
unfolding write feed dispatch_in clear_halt
sent_reads seq1 seq2 dlen [] status h k l = absurd (omega arith)
sent_reads seq1 seq2 dlen (b ∷ bs) [] h k l = absurd (omega arith)
sent_reads seq1 seq2 dlen (b ∷ bs) (s ∷ ss) h k l =
    ap
      (λ (r : Ep × List Ret).
        r.1 ++ (dispatch_in (record r.0 { halted = false }) (in_urb seq2 13)).1)
      (serve_in-whole (b ∷ bs) (chunk_of (s ∷ ss) ∷ [])
        (record fresh { in_queue = chunk_of (b ∷ bs) ∷ chunk_of (s ∷ ss) ∷ [] }) (in_urb seq1 dlen)
        h k)
    ∙ ap (λ (r : Ep × List Ret). ret_of seq1 (b ∷ bs) ∷ r.1)
        (serve_in-whole (s ∷ ss) [] fresh (in_urb seq2 13) (omega arith) (omega arith))

stalled_reads :
    (seq1 seq2 dlen : ℕ) (status : List ℕ)
    → length status ≡ 13
    → host_reads seq1 seq2 dlen (perform_all fresh (stall_in ∷ write_in status ∷ []))
      ≡ stall_ret seq1 ∷ ret_of seq2 status ∷ []
unfolding write feed stall dispatch_in clear_halt
stalled_reads seq1 seq2 dlen [] l = absurd (omega arith)
stalled_reads seq1 seq2 dlen (s ∷ ss) l =
    ap (λ (r : Ep × List Ret). stall_ret seq1 ∷ r.1)
      (serve_in-whole (s ∷ ss) [] fresh (in_urb seq2 13) (omega arith) (omega arith))

stalls_in :
    (st : Msc) (dlen : ℕ)
    → st.cbw_in ≡ true
    → 0 < dlen
    → msc_stall_data_phase st dlen ≡ stall_in ∷ []
unfolding msc_stall_data_phase
stalls_in st dlen q d =
    ap (λ b. if b then [] else (if st.cbw_in then stall_in else stall_out) ∷ []) {y = false}
      (ground arith)
    ∙ ap (λ b. (if b then stall_in else stall_out) ∷ []) q

-- what the host's first read gets of a reply of `datalen` bytes
abbrev pub first_ret : ℕ → ℕ → List ℕ → ℕ → Ret
first_ret seq dlen bytes datalen =
    if datalen == 0 then stall_ret seq else ret_of seq (take (min datalen dlen) bytes)

-- The answers of a command that promised the host 1 to 2^31 - 1 bytes from the device, on an IN pipe
-- with nothing queued. Where the command answers with msc_data_in, the host's read of the promised
-- length gets the reply, cut to the promise, and its second read gets the status, with the rest of the
-- promise as residue and success. Where that reply is empty, and where the command fails with
-- msc_fail, the first read gets a STALL, and once the host has cleared the halt the second read gets
-- the status, with the whole promise as residue: success for the empty reply, and failure for the
-- command that fails. So no status of these two is ever taken for data.
pub status_read :
    (st : Msc) (i seq1 seq2 dlen datalen : ℕ) (tag bytes : List ℕ) (s : Sense)
    → st.cbw_in ≡ true
    → 0 < dlen
    → dlen < 2 ^ 31
    → length tag ≡ 4
    → datalen ≤ length bytes
    → (host_reads seq1 seq2 dlen (perform_all fresh (msc_data_in st tag dlen bytes datalen))
        ≡ first_ret seq1 dlen bytes datalen
          ∷ ret_of seq2 (csw tag (dlen - min datalen dlen) 0)
          ∷ [])
      × (host_reads seq1 seq2 dlen (perform_all fresh (msc_fail st i tag dlen s).1)
          ≡ stall_ret seq1 ∷ ret_of seq2 (csw tag dlen 1) ∷ [])
unfolding msc_data_in msc_fail
status_read st i seq1 seq2 dlen datalen tag bytes s q d small t h =
    let reads : List Action → List Ret =
      λ acts. host_reads seq1 seq2 dlen (perform_all fresh acts) in
    let n = min datalen dlen in
    let send = if ltb datalen dlen then datalen else dlen in
    let status = csw tag (dlen - n) 0 in
    let phase : ℕ → Bool → List Action = λ m b.
      (if b then msc_stall_data_phase st dlen else write_int m bytes) ++ msc_csw tag (dlen - m) 0 in
    let whole = ap (λ m. reads (phase m (m == 0))) {x = send} {y = n} (ground arith) in
    (
      if_cases (λ r. reads (phase send (send == 0)) ≡ r ∷ ret_of seq2 status ∷ []) (datalen == 0)
          (stall_ret seq1) (ret_of seq1 (take n bytes))
          (λ e.
            whole
            ∙ ap (λ b. reads (phase n b)) {y = true} (ground arith)
            ∙ ap (λ acts. reads (acts ++ msc_csw tag (dlen - n) 0)) (stalls_in st dlen q d)
            ∙ stalled_reads seq1 seq2 dlen status (length-csw tag (dlen - n) 0 t))
          (λ e.
            whole
            ∙ ap (λ b. reads (phase n b)) {y = false} (ground arith)
            ∙ ap
                (λ b.
                  reads
                    ((if b then write_in (take n bytes) ∷ [] else []) ++ msc_csw tag (dlen - n) 0))
                (lt→ltb n (2 ^ 31) (omega arith))
            ∙ sent_reads seq1 seq2 dlen (take n bytes) status (ground (arith, length-take n bytes))
                (omega (arith, length-take n bytes)) (length-csw tag (dlen - n) 0 t)),
      ap (λ acts. reads (acts ++ msc_csw tag dlen 1)) (stalls_in st dlen q d)
          ∙ stalled_reads seq1 seq2 dlen (csw tag dlen 1) (length-csw tag dlen 1 t),
    )
