-- ===== src/Msc/Dispatch.antt =====
-- The SCSI commands of src/classes/device/msc.c and the callbacks of the class: msc_build without
-- the descriptors, msc_control and msc_on_out.
use usbip_c.Base.{ℕ, ◌+◌, ◌-◌, ◌*◌, ◌%◌, ◌^◌, List, [], ◌∷◌, ◌++◌, map, Bool, true, false}
use usbip_c.Base.{
  Option, none, some, ◌&&◌, ltb, leb, ◌==◌, if◌then◌else◌, length, get_or, take, drop,
}
use usbip_c.Base.Bytes.{get_be16, get_be32, get_le32}
use usbip_c.Base.Buffers.{codes}
use usbip_c.Msc.State.{
  Backend, Sense, sense_ok, unrecovered_read, invalid_command, lba_range, invalid_field,
  lun_not_supported, write_protect, cdrom, Opts, Declared, Lun, Msc, lun_at, Action, lun_init,
  set_sense, msc_csw, msc_data_in, msc_fail,
}
use usbip_c.Msc.Replies.{
  build_inquiry, build_vpd, build_format_capacities, read_capacity_10, read_capacity_16,
  request_sense, mode_sense_6, mode_sense_10, read_toc, get_configuration, get_event_status,
}

-- `SCSI_OP_LIST`, and the default of the switch
pub data Scsi : Type 0 where
  test_unit_ready rezero_unit request_sense_op format_unit inquiry mode_sense_6_op : Scsi
  start_stop_unit prevent_allow read_format_capacities read_capacity_10_op : Scsi
  read_10 write_10 seek_10 verify_10 sync_cache_10 read_toc_op : Scsi
  get_configuration_op get_event_status_op mode_sense_10_op : Scsi
  service_action_in_16 read_12 write_12 unknown : Scsi

abbrev pub opcodes : List (ℕ × Scsi)
opcodes =
    (0, test_unit_ready)
    ∷ (1, rezero_unit)
    ∷ (3, request_sense_op)
    ∷ (4, format_unit)
    ∷ (18, inquiry)
    ∷ (26, mode_sense_6_op)
    ∷ (27, start_stop_unit)
    ∷ (30, prevent_allow)
    ∷ (35, read_format_capacities)
    ∷ (37, read_capacity_10_op)
    ∷ (40, read_10)
    ∷ (42, write_10)
    ∷ (43, seek_10)
    ∷ (47, verify_10)
    ∷ (53, sync_cache_10)
    ∷ (67, read_toc_op)
    ∷ (70, get_configuration_op)
    ∷ (74, get_event_status_op)
    ∷ (90, mode_sense_10_op)
    ∷ (158, service_action_in_16)
    ∷ (168, read_12)
    ∷ (170, write_12)
    ∷ []

unfoldable pub find_op : List (ℕ × Scsi) → ℕ → Scsi
find_op [] op = unknown
find_op ((code, s) ∷ rest) op = if code == op then s else find_op rest op

unfoldable pub decode_op : ℕ → Scsi
unfolding find_op
decode_op op = find_op opcodes op

-- where a command goes: its unit, the tag and `dCBWDataTransferLength` of the CBW, and the CDB
pub record Cmd : Type 0 where
  pub lun : ℕ
  pub tag : List ℕ
  pub dlen : ℕ
  pub cdb : List ℕ

abbrev pub cdb_lba : List ℕ → ℕ
cdb_lba cdb = get_be32 cdb 2

-- `len != BOT_CBW_LEN || memcmp(bytes, BOT_CBW_SIG, BOT_SIG_LEN) != 0` turned round
abbrev pub same_bytes : List ℕ → List ℕ → Bool
same_bytes [] [] = true
same_bytes [] (y ∷ ys) = false
same_bytes (x ∷ xs) [] = false
same_bytes (x ∷ xs) (y ∷ ys) = (x == y) && same_bytes xs ys

abbrev pub is_cbw : List ℕ → Bool
is_cbw packet = (length packet == 31) && same_bytes (take 4 packet) (codes "USBC")

abbrev pub command_of : List ℕ → Cmd
command_of packet = record {
  lun = get_or packet 13 0 % 16;
  tag = take 4 (drop 4 packet);
  dlen = get_le32 packet 8;
  cdb = drop 15 packet;
}

module _ {World : Type 0} where
  -- a command that leaves the state as it is
  unfoldable pub data_in : Msc → World → Cmd → List ℕ → Msc × World × List Action
  unfolding msc_data_in
  data_in st w c bytes = (st, w, msc_data_in st c.tag c.dlen bytes (length bytes))

  unfoldable pub pass : Msc → World → Cmd → Msc × World × List Action
  unfolding msc_csw
  pass st w c = (st, w, msc_csw c.tag 0 0)

  unfoldable pub fail : Msc → World → Cmd → Sense → Msc × World × List Action
  unfolding msc_fail
  fail st w c s = let (st', acts) = msc_fail st c.lun c.tag c.dlen s in (st', w, acts)

  unfoldable pub vpd : Msc → World → Cmd → Option (List ℕ) → Msc × World × List Action
  unfolding data_in fail
  vpd st w c none = fail st w c invalid_field
  vpd st w c (some page) = data_in st w c page

  unfoldable pub cdrom_only : Msc → World → Cmd → List ℕ → Msc × World × List Action
  unfolding data_in fail
  cdrom_only st w c bytes =
      if (lun_at st c.lun).medium == cdrom
      then data_in st w c bytes
      else fail st w c invalid_command

module _ {World : Type 0} (backend : Backend World) where
  -- the result of `read`
  unfoldable pub read_done : Msc → Cmd → ℕ → ℕ × List ℕ × World → Msc × World × List Action
  unfolding fail msc_data_in
  read_done st c len (rc, buf, w) =
      if rc == 0 then (st, w, msc_data_in st c.tag c.dlen buf len) else fail st w c unrecovered_read

  -- `(uint64_t)lba + count > nb`
  abbrev pub off_end : Msc → World → Cmd → ℕ → Bool
  off_end st w c count = ltb (backend.num_blocks w (lun_at st c.lun).user) (cdb_lba c.cdb + count)

  -- `count * bs`, a uint32_t
  abbrev pub byte_count : Msc → World → Cmd → ℕ → ℕ
  byte_count st w c count = count * backend.block_size w (lun_at st c.lun).user % 2 ^ 32

  -- READ(10), READ(12)
  unfoldable pub read_blocks : Msc → World → Cmd → ℕ → Msc × World × List Action
  unfolding fail read_done
  read_blocks st w c count =
      if off_end st w c count
      then fail st w c lba_range
      else read_done st c (byte_count st w c count)
          (backend.read w (lun_at st c.lun).user (cdb_lba c.cdb) count)

  -- WRITE(10), WRITE(12) that are accepted: the data comes in later packets.
  unfoldable pub write_begins : Msc → World → Cmd → ℕ → Msc
  write_begins st w c count = record st {
    writing = true;
    wop = get_or c.cdb 0 0;
    wlun = c.lun % 256;
    wtag = c.tag;
    wlba = cdb_lba c.cdb;
    wcount = count;
    wneed = byte_count st w c count;
    wgot = 0;
    wbuf = [];
  }

  unfoldable pub write_blocks : Msc → World → Cmd → ℕ → Msc × World × List Action
  unfolding fail write_begins
  write_blocks st w c count =
      if (lun_at st c.lun).read_only
      then fail st w c write_protect
      else if off_end st w c count
      then fail st w c lba_range
      else (write_begins st w c count, w, [])

  -- the switch of `dispatch`
  unfoldable pub handle : Scsi → Msc → World → Cmd → Msc × World × List Action
  unfolding data_in pass fail vpd cdrom_only read_blocks write_blocks set_sense
  handle test_unit_ready st w c = pass st w c
  handle inquiry st w c =
      if get_or c.cdb 1 0 % 2 == 1
      then vpd st w c (build_vpd (lun_at st c.lun) (get_or c.cdb 2 0))
      else data_in st w c (build_inquiry st (lun_at st c.lun))
  handle read_format_capacities st w c =
      let lun = lun_at st c.lun in
      data_in st w c (
        build_format_capacities lun (backend.num_blocks w lun.user) (backend.block_size w lun.user))
  handle read_capacity_10_op st w c =
      let user = (lun_at st c.lun).user in
      data_in st w c (read_capacity_10 (backend.num_blocks w user) (backend.block_size w user))
  handle service_action_in_16 st w c =
      let user = (lun_at st c.lun).user in
      if get_or c.cdb 1 0 % 32 == 16
      then data_in st w c (read_capacity_16 (backend.num_blocks w user) (backend.block_size w user))
      else fail st w c invalid_command
  handle read_10 st w c = read_blocks st w c (get_be16 c.cdb 7)
  handle read_12 st w c = read_blocks st w c (get_be32 c.cdb 6)
  handle write_10 st w c = write_blocks st w c (get_be16 c.cdb 7)
  handle write_12 st w c = write_blocks st w c (get_be32 c.cdb 6)
  handle request_sense_op st w c =
      data_in (set_sense st c.lun sense_ok) w c (request_sense (lun_at st c.lun))
  handle mode_sense_6_op st w c =
      let lun = lun_at st c.lun in
      data_in st w c (
        mode_sense_6 lun (get_or c.cdb 2 0 % 64) (backend.num_blocks w lun.user)
          (backend.block_size w lun.user))
  handle mode_sense_10_op st w c =
      let lun = lun_at st c.lun in
      data_in st w c (
        mode_sense_10 lun (get_or c.cdb 2 0 % 64) (backend.num_blocks w lun.user)
          (backend.block_size w lun.user))
  handle format_unit st w c =
      if (lun_at st c.lun).read_only then fail st w c write_protect else pass st w c
  handle prevent_allow st w c = pass st w c
  handle start_stop_unit st w c = pass st w c
  handle sync_cache_10 st w c = pass st w c
  handle rezero_unit st w c = pass st w c
  handle seek_10 st w c = pass st w c
  handle verify_10 st w c = pass st w c
  handle read_toc_op st w c = cdrom_only st w c read_toc
  handle get_configuration_op st w c = cdrom_only st w c get_configuration
  handle get_event_status_op st w c = data_in st w c get_event_status
  handle unknown st w c = fail st w c invalid_command

  unfoldable pub dispatch : Msc → World → Cmd → Msc × World × List Action
  unfolding handle
  dispatch st w c = handle (decode_op (get_or c.cdb 0 0)) st w c

  -- ---- msc_on_out ----

  -- a packet of the data phase of a WRITE, copied to `wbuf`
  unfoldable pub take_data : Msc → List ℕ → Msc
  take_data st packet =
      let taken =
        if ltb st.wneed ((st.wgot + length packet) % 2 ^ 32)
        then (st.wneed + (2 ^ 32 - st.wgot)) % 2 ^ 32
        else length packet in
      record st { wbuf = st.wbuf ++ take taken packet; wgot = (st.wgot + taken) % 2 ^ 32 }

  abbrev pub status_of : ℕ → ℕ
  status_of rc = if rc == 0 then 0 else 1

  -- the whole data has come
  unfoldable pub write_ends : Msc → World → Msc × World × List Action
  unfolding msc_csw
  write_ends st w =
      let (rc, w') = backend.write w (lun_at st st.wlun).user st.wlba st.wcount st.wbuf in
      (record st { writing = false; wbuf = [] }, w', msc_csw st.wtag 0 (status_of rc))

  unfoldable pub write_data : Msc → World → List ℕ → Msc × World × List Action
  unfolding take_data write_ends
  write_data st w packet =
      let st' = take_data st packet in
      if leb st'.wneed st'.wgot then write_ends st' w else (st', w, [])

  -- a valid CBW: a unit that does not exist leaves its sense on unit 0
  unfoldable pub command : Msc → World → List ℕ → Msc × World × List Action
  unfolding dispatch fail
  command st w packet =
      let c = command_of packet in
      let st' : Msc = record st { cbw_in = leb 128 (get_or packet 12 0) } in
      if leb st'.n_luns c.lun
      then fail st' w (record c { lun = 0 }) lun_not_supported
      else dispatch st' w c

  unfoldable pub on_out : Msc → World → List ℕ → Msc × World × List Action
  unfolding write_data command
  on_out st w packet =
      if st.writing
      then write_data st w packet
      else if is_cbw packet
      then command st w packet
      else (st, w, [])

-- ---- msc_build, msc_control ----

-- The units: those declared, or the one that `opts.user` backs.
unfoldable pub resolve : List Declared → Opts → List Lun
unfolding lun_init
resolve [] opts = lun_init none opts ∷ []
resolve (d ∷ ds) opts = map (λ src. lun_init (some src) opts) (d ∷ ds)

-- `st->opts.n_luns > 0 ? st->opts.n_luns : 1`
unfoldable pub unit_count : List Declared → ℕ
unit_count [] = 1
unit_count (d ∷ ds) = length (d ∷ ds)

abbrev pub built : Opts → Msc
built opts = record {
  vendor = opts.vendor;
  revision = opts.revision;
  luns = resolve opts.luns opts;
  n_luns = unit_count opts.luns;
  cbw_in = false;
  writing = false;
  wop = 0;
  wlun = 0;
  wtag = [];
  wlba = 0;
  wcount = 0;
  wneed = 0;
  wgot = 0;
  wbuf = [];
}

-- The state that msc_build leaves; `none`: more units than the transport can address.
unfoldable pub build : Opts → Option Msc
unfolding unit_count
build opts = if ltb 16 (length opts.luns) then none else some (built opts)

-- msc_control: `none` is a STALL.
unfoldable pub control : Msc → ℕ → Option (Msc × List ℕ)
control st request =
    if request == 254
    then some (st, ((st.n_luns - 1) % 256) ∷ [])
    else if request == 255
    then some (record st { writing = false; wbuf = [] }, [])
    else none

-- ---- a life of the function ----

-- What the host sends: a packet on the OUT pipe, or a class request, by its `bRequest`.
pub data Event : Type 0 where
  out_packet : List ℕ → Event
  class_request : ℕ → Event

module _ {World : Type 0} (backend : Backend World) where
  unfoldable pub step : Msc → World → Event → Msc × World × List Action
  unfolding on_out control
  step st w (out_packet packet) = on_out backend st w packet
  step st w (class_request request) = elim (control st request) [
    | none ↦ (st, w, [])
    | some answer ↦ (answer.0, w, [])
  ]

  unfoldable pub run : Msc → World → List Event → Msc × World × List Action
  unfolding step
  run st w [] = (st, w, [])
  run st w (e ∷ es) =
      let (st1, w1, acts) = step st w e in
      let (st2, w2, more) = run st1 w1 es in (st2, w2, acts ++ more)
