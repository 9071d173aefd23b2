-- ===== src/Msc/Answers.antt =====
-- How a command of src/classes/device/msc.c ends: its data phase and its status.
use usbip_c.Base.{ℕ, ◌+◌, ◌-◌, ◌*◌, ◌%◌, ◌≤◌, ◌<◌, ◌≡◌, refl, sym, subst, ◌∙◌, List, [], ◌∷◌, ◌++◌}
use usbip_c.Base.{true, false, ◌⊎◌, inl, inr, Bool-cases, Option, none, some, arith}
use usbip_c.Base.{
  ltb, leb, ltb→lt, ltb→le, ◌^◌, ◌==◌, if◌then◌else◌, if_both, if_cases, length, get_or, take,
  length-take,
}
use usbip_c.Base.Bytes.{get_be16, get_be32}
use usbip_c.Msc.State.{
  Backend, Sense, sense_ok, lun_not_supported, cdrom, unrecovered_read, invalid_command, lba_range,
  invalid_field, write_protect, Msc, lun_at, Action, write_in, write_int, stall_in, stall_out,
  set_sense, msc_csw, msc_stall_data_phase, msc_data_in, msc_fail,
}
use usbip_c.Msc.Replies.{
  build_inquiry, build_vpd, request_sense, read_toc, get_configuration, get_event_status,
}
use usbip_c.Msc.Dispatch.{
  Scsi, Cmd, data_in, pass, fail, vpd, cdrom_only, read_done, off_end, byte_count, read_blocks,
  write_begins, write_blocks, handle, dispatch, decode_op, take_data, write_ends, write_data,
  is_cbw, command_of, command, on_out,
}
use usbip_c.Msc.Dispatch.{
  test_unit_ready, rezero_unit, request_sense_op, format_unit, inquiry, mode_sense_6_op,
  start_stop_unit, prevent_allow, read_format_capacities, read_capacity_10_op, read_10, write_10,
  seek_10, verify_10, sync_cache_10, read_toc_op, get_configuration_op, get_event_status_op,
  mode_sense_10_op, service_action_in_16, read_12, write_12, unknown,
}

-- What the host gets for a command that promised `dlen` bytes: data and a residue that make up the
-- promise; a halted pipe and the whole promise as the residue; only the status, where nothing was
-- promised; only the status of a command that has no data phase, with residue 0 whatever was promised;
-- or, for a reply of 2^31 bytes and more, only a status whose residue leaves out those bytes.
pub data Answer (tag : List ℕ) (dlen : ℕ) : List Action → Type 0 where
  sent :
      (bytes : List ℕ) (residue : ℕ)
      → 0 < length bytes
      → length bytes < 2 ^ 31
      → length bytes + residue ≡ dlen
      → Answer tag dlen (write_in bytes ∷ msc_csw tag residue 0)
  cut_in : (status : ℕ) → 0 < dlen → Answer tag dlen (stall_in ∷ msc_csw tag dlen status)
  cut_out : (status : ℕ) → 0 < dlen → Answer tag dlen (stall_out ∷ msc_csw tag dlen status)
  bare : (status : ℕ) → dlen ≡ 0 → Answer tag dlen (msc_csw tag dlen status)
  no_data : Answer tag dlen (msc_csw tag 0 0)
  lost : (n : ℕ) → 2 ^ 31 ≤ n → n ≤ dlen → Answer tag dlen (msc_csw tag (dlen - n) 0)

stalled-Answer :
    (st : Msc) (tag : List ℕ) (dlen status : ℕ)
    → Answer tag dlen (msc_stall_data_phase st dlen ++ msc_csw tag dlen status)
unfolding msc_stall_data_phase
stalled-Answer st tag dlen status = elim (Bool-cases (dlen == 0)) [
  | inl e ↦ rw e (bare status (ground arith))
  | inr e ↦ rw e (
      if_both (λ a. Answer tag dlen (a ∷ msc_csw tag dlen status)) st.cbw_in stall_in stall_out
        (cut_in status (ground arith)) (cut_out status (ground arith)))
]

phase-Answer :
    (st : Msc) (tag : List ℕ) (dlen : ℕ) (bytes : List ℕ) (send : ℕ)
    → send ≤ length bytes
    → send ≤ dlen
    → Answer tag dlen (
        (if send == 0 then msc_stall_data_phase st dlen else write_int send bytes)
        ++ msc_csw tag (dlen - send) 0)
phase-Answer st tag dlen bytes send h k = elim (Bool-cases (send == 0)) [
  | inl e ↦ rw e (
      subst (λ r. Answer tag dlen (msc_stall_data_phase st dlen ++ msc_csw tag r 0)) (ground arith)
        (stalled-Answer st tag dlen 0))
  | inr e ↦ rw e (
      let l : length (take send bytes) ≡ send = omega (arith, length-take send bytes) in
      if_cases (λ (acts : List Action). Answer tag dlen (acts ++ msc_csw tag (dlen - send) 0))
        (ltb send (2 ^ 31)) (write_in (take send bytes) ∷ []) []
        (λ short.
          sent (take send bytes) (dlen - send) (ground arith)
            (omega (arith, ltb→lt send (2 ^ 31) short)) (omega arith))
        (λ long. lost send (ltb→le send (2 ^ 31) long) k))
]

data_in-Answer :
    (st : Msc) (tag : List ℕ) (dlen : ℕ) (bytes : List ℕ) (datalen : ℕ)
    → datalen ≤ length bytes
    → Answer tag dlen (msc_data_in st tag dlen bytes datalen)
unfolding msc_data_in
data_in-Answer st tag dlen bytes datalen h =
    phase-Answer st tag dlen bytes (if ltb datalen dlen then datalen else dlen) (ground arith)
      (ground arith)

fail-Answer :
    (st : Msc) (i : ℕ) (tag : List ℕ) (dlen : ℕ) (s : Sense)
    → Answer tag dlen (msc_fail st i tag dlen s).1
unfolding msc_fail
fail-Answer st i tag dlen s = stalled-Answer st tag dlen 1

-- A command of the switch is answered at once and leaves the write in flight alone, or it begins a
-- write with its own tag, with nothing sent.
abbrev pub Handled : {World : Type 0} → Msc → Cmd → Msc × World × List Action → Type 0
Handled st c r =
    ((r.0.writing ≡ true) × (r.0.wtag ≡ c.tag) × (r.2 ≡ []))
    ⊎ ((r.0.writing ≡ st.writing) × Answer c.tag c.dlen r.2)

module _ {World : Type 0} where
  sends-Handled :
      (st : Msc) (w : World) (c : Cmd) (bytes : List ℕ) → Handled st c (data_in st w c bytes)
  unfolding data_in
  sends-Handled st w c bytes =
      inr (refl, data_in-Answer st c.tag c.dlen bytes (length bytes) (omega arith))

  pass-Handled : (st : Msc) (w : World) (c : Cmd) → Handled st c (pass st w c)
  unfolding pass
  pass-Handled st w c = inr (refl, no_data)

  fail-Handled : (st : Msc) (w : World) (c : Cmd) (s : Sense) → Handled st c (fail st w c s)
  unfolding fail msc_fail set_sense
  fail-Handled st w c s = inr (refl, fail-Answer st c.lun c.tag c.dlen s)

  vpd-Handled :
      (st : Msc) (w : World) (c : Cmd) (page : Option (List ℕ)) → Handled st c (vpd st w c page)
  unfolding vpd
  vpd-Handled st w c none = fail-Handled st w c invalid_field
  vpd-Handled st w c (some page) = sends-Handled st w c page

  cdrom_only-Handled :
      (st : Msc) (w : World) (c : Cmd) (bytes : List ℕ) → Handled st c (cdrom_only st w c bytes)
  unfolding cdrom_only
  cdrom_only-Handled st w c bytes =
      if_both (Handled st c) ((lun_at st c.lun).medium == cdrom) (data_in st w c bytes)
        (fail st w c invalid_command) (sends-Handled st w c bytes)
        (fail-Handled st w c invalid_command)

-- `read` fills its buffer: "destination, count × block_size() bytes".
abbrev pub FillsBuffer : {World : Type 0} → Backend World → Type 0
FillsBuffer {World} backend =
    (w : World) (user lba count : ℕ)
    → length (backend.read w user lba count).1 ≡ count * backend.block_size w user

module _ {World : Type 0} (backend : Backend World) (fills : FillsBuffer backend) where
  read_done-Handled :
      (st : Msc) (c : Cmd) (len : ℕ) (r : ℕ × List ℕ × World)
      → len ≤ length r.1
      → Handled st c (read_done backend st c len r)
  unfolding read_done
  read_done-Handled st c len r h =
      if_both (Handled st c) (r.0 == 0) (st, r.2, msc_data_in st c.tag c.dlen r.1 len)
        (fail st r.2 c unrecovered_read) (inr (refl, data_in-Answer st c.tag c.dlen r.1 len h))
        (fail-Handled st r.2 c unrecovered_read)

  read_blocks-Handled :
      (st : Msc) (w : World) (c : Cmd) (count : ℕ) → Handled st c (read_blocks backend st w c count)
  unfolding read_blocks
  read_blocks-Handled st w c count =
      let user = (lun_at st c.lun).user in
      if_both (Handled st c) (off_end backend st w c count) (fail st w c lba_range)
        (read_done backend st c (byte_count backend st w c count)
          (backend.read w user (get_be32 c.cdb 2) count))
        (fail-Handled st w c lba_range)
        (read_done-Handled st c (byte_count backend st w c count)
          (backend.read w user (get_be32 c.cdb 2) count)
          (omega (arith, fills w user (get_be32 c.cdb 2) count)))

  write_blocks-Handled :
      (st : Msc) (w : World) (c : Cmd) (count : ℕ)
      → Handled st c (write_blocks backend st w c count)
  unfolding write_blocks write_begins
  write_blocks-Handled st w c count =
      if_both (Handled st c) (lun_at st c.lun).read_only (fail st w c write_protect) _
        (fail-Handled st w c write_protect)
        (if_both (Handled st c) (off_end backend st w c count) (fail st w c lba_range)
          (write_begins backend st w c count, w, []) (fail-Handled st w c lba_range)
          (inl (refl, refl, refl)))

  handle-Handled :
      (op : Scsi) (st : Msc) (w : World) (c : Cmd) → Handled st c (handle backend op st w c)
  unfolding handle
  handle-Handled test_unit_ready st w c = pass-Handled st w c
  handle-Handled rezero_unit st w c = pass-Handled st w c
  handle-Handled request_sense_op st w c =
      unfold set_sense in
      sends-Handled (set_sense st c.lun sense_ok) w c (request_sense (lun_at st c.lun))
  handle-Handled format_unit st w c =
      if_both (Handled st c) (lun_at st c.lun).read_only (fail st w c write_protect) (pass st w c)
        (fail-Handled st w c write_protect) (pass-Handled st w c)
  handle-Handled inquiry st w c =
      if_both (Handled st c) (get_or c.cdb 1 0 % 2 == 1) _ _
        (vpd-Handled st w c (build_vpd (lun_at st c.lun) (get_or c.cdb 2 0)))
        (sends-Handled st w c (build_inquiry st (lun_at st c.lun)))
  handle-Handled mode_sense_6_op st w c = sends-Handled st w c _
  handle-Handled start_stop_unit st w c = pass-Handled st w c
  handle-Handled prevent_allow st w c = pass-Handled st w c
  handle-Handled read_format_capacities st w c = sends-Handled st w c _
  handle-Handled read_capacity_10_op st w c = sends-Handled st w c _
  handle-Handled read_10 st w c = read_blocks-Handled st w c (get_be16 c.cdb 7)
  handle-Handled write_10 st w c = write_blocks-Handled st w c (get_be16 c.cdb 7)
  handle-Handled seek_10 st w c = pass-Handled st w c
  handle-Handled verify_10 st w c = pass-Handled st w c
  handle-Handled sync_cache_10 st w c = pass-Handled st w c
  handle-Handled read_toc_op st w c = cdrom_only-Handled st w c read_toc
  handle-Handled get_configuration_op st w c = cdrom_only-Handled st w c get_configuration
  handle-Handled get_event_status_op st w c = sends-Handled st w c get_event_status
  handle-Handled mode_sense_10_op st w c = sends-Handled st w c _
  handle-Handled service_action_in_16 st w c =
      if_both (Handled st c) (get_or c.cdb 1 0 % 32 == 16) _ (fail st w c invalid_command)
        (sends-Handled st w c _) (fail-Handled st w c invalid_command)
  handle-Handled read_12 st w c = read_blocks-Handled st w c (get_be32 c.cdb 6)
  handle-Handled write_12 st w c = write_blocks-Handled st w c (get_be32 c.cdb 6)
  handle-Handled unknown st w c = fail-Handled st w c invalid_command

-- What a packet on the OUT pipe does: more data of a write, its end with the status of its tag, junk
-- that is dropped, or a command that begins a write or is answered at once.
pub data Outcome (st : Msc) (packet : List ℕ) : Msc → List Action → Type 0 where
  more :
      {st' : Msc}
      → st.writing ≡ true
      → st'.writing ≡ true
      → st'.wtag ≡ st.wtag
      → Outcome st packet st' []
  finished :
      {st' : Msc} (status : ℕ)
      → st.writing ≡ true
      → st'.writing ≡ false
      → Outcome st packet st' (msc_csw st.wtag 0 status)
  dropped : st.writing ≡ false → is_cbw packet ≡ false → Outcome st packet st []
  begun :
      {st' : Msc}
      → st.writing ≡ false
      → is_cbw packet ≡ true
      → st'.writing ≡ true
      → st'.wtag ≡ (command_of packet).tag
      → Outcome st packet st' []
  answered :
      {st' : Msc} {acts : List Action}
      → st.writing ≡ false
      → is_cbw packet ≡ true
      → st'.writing ≡ false
      → Answer (command_of packet).tag (command_of packet).dlen acts
      → Outcome st packet st' acts

module _ {World : Type 0} (backend : Backend World) (fills : FillsBuffer backend) where
  write_data-Outcome :
      (st : Msc) (w : World) (packet : List ℕ)
      → st.writing ≡ true
      → Outcome st packet (write_data backend st w packet).0 (write_data backend st w packet).2
  unfolding write_data write_ends take_data
  write_data-Outcome st w packet e =
      if_both (λ (r : Msc × World × List Action). Outcome st packet r.0 r.2) (leb _ _)
        (write_ends backend (take_data backend st packet) w) (take_data backend st packet, w, [])
        (finished _ e refl) (more e e refl)

  outcome_of :
      (st st0 : Msc) (packet : List ℕ) (lun : ℕ) (r : Msc × World × List Action)
      → st.writing ≡ false
      → st0.writing ≡ false
      → is_cbw packet ≡ true
      → Handled st0 (record (command_of packet) { lun = lun }) r
      → Outcome st packet r.0 r.2
  outcome_of st st0 packet lun r e e0 f (inl (on, tag, none_sent)) =
      subst (Outcome st packet r.0) (sym none_sent) (begun e f on tag)
  outcome_of st st0 packet lun r e e0 f (inr (keep, ans)) = answered e f (keep ∙ e0) ans

  command-Outcome :
      (st : Msc) (w : World) (packet : List ℕ)
      → st.writing ≡ false
      → is_cbw packet ≡ true
      → Outcome st packet (command backend st w packet).0 (command backend st w packet).2
  unfolding command dispatch
  command-Outcome st w packet e f =
      let c = command_of packet in
      let st' : Msc = record st { cbw_in = leb 128 (get_or packet 12 0) } in
      if_both (λ (r : Msc × World × List Action). Outcome st packet r.0 r.2) (leb st.n_luns c.lun)
        (fail st' w (record c { lun = 0 }) lun_not_supported) (dispatch backend st' w c)
        (outcome_of st st' packet 0 (fail st' w (record c { lun = 0 }) lun_not_supported) e e f
          (fail-Handled st' w (record c { lun = 0 }) lun_not_supported))
        (outcome_of st st' packet c.lun (dispatch backend st' w c) e e f
          (handle-Handled backend fills (decode_op (get_or c.cdb 0 0)) st' w c))

  -- Where the backend's `read` fills its buffer, every packet on the OUT pipe has one of these
  -- outcomes. In the data phase of a write nothing is sent until the write ends, and then exactly one
  -- status with the tag of its command. Outside of it a packet that is not a CBW changes nothing and
  -- is not answered; a CBW either begins a write with its own tag and nothing sent, or is answered at
  -- once by exactly one status with its own tag. Before the status comes data, at least a byte and not
  -- more than the promised bytes, the residue being the rest of the promise; or a pipe is halted, the
  -- residue being the whole promise; or nothing comes, where nothing was promised, or where the
  -- residue is 0 (whatever was promised), or where the reply is of 2^31 bytes and more, which are lost
  -- and are left out of the residue.
  pub on_out-Outcome :
      (st : Msc) (w : World) (packet : List ℕ)
      → Outcome st packet (on_out backend st w packet).0 (on_out backend st w packet).2
  unfolding on_out
  on_out-Outcome st w packet =
      if_cases (λ (r : Msc × World × List Action). Outcome st packet r.0 r.2) st.writing
        (write_data backend st w packet) _ (write_data-Outcome st w packet)
        (λ e.
          if_cases (λ (r : Msc × World × List Action). Outcome st packet r.0 r.2) (is_cbw packet)
            (command backend st w packet) (st, w, []) (command-Outcome st w packet e) (dropped e))
