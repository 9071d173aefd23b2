-- ===== src/Msc/Safety.antt =====
-- The accesses of src/classes/device/msc.c to the application's backend.
use usbip_c.Base.{ℕ, ◌+◌, ◌-◌, ◌%◌, ◌≤◌, ◌<◌, ◌≡◌, refl, subst, List, [], ◌∷◌}
use usbip_c.Base.{true, false, Option, none, some, arith}
use usbip_c.Base.{ltb, leb, ◌==◌, if_both, if_cases, ltb→le, length, get_or, length-set}
use usbip_c.Base.Bytes.{get_be16, get_be32}
use usbip_c.Msc.State.{
  Backend, Sense, sense_ok, unrecovered_read, invalid_command, lba_range, invalid_field,
  lun_not_supported, write_protect, cdrom, Opts, Msc, lun_at, Action, set_sense, msc_data_in,
  msc_fail,
}
use usbip_c.Msc.Replies.{build_vpd, read_toc, get_configuration}
use usbip_c.Msc.Dispatch.{
  Scsi, Cmd, data_in, pass, fail, vpd, cdrom_only, read_done, off_end, byte_count, read_blocks,
  write_begins, write_blocks, handle, dispatch, decode_op, take_data, write_ends, write_data,
  is_cbw, command_of, command, on_out, built, build, control, Event, out_packet, class_request,
  step, run,
}
use usbip_c.Msc.Dispatch.{
  test_unit_ready, rezero_unit, request_sense_op, format_unit, inquiry, mode_sense_6_op,
  start_stop_unit, prevent_allow, read_format_capacities, read_capacity_10_op, read_10, write_10,
  seek_10, verify_10, sync_cache_10, read_toc_op, get_configuration_op, get_event_status_op,
  mode_sense_10_op, service_action_in_16, read_12, write_12, unknown,
}
use usbip_c.Msc.Invariant.{IsMsc, quiet-IsMsc, built-IsMsc}

-- What is known of a backend: the capacities of its units do not change, and accesses within them
-- keep `P`.
pub record Keeps {World : Type 0} (backend : Backend World) (cap : ℕ → ℕ) (P : World → Type 0)
    : Type 0 where
  pub fixed : (w : World) (user : ℕ) → backend.num_blocks w user ≡ cap user
  pub reads :
      (w : World) (user lba count : ℕ)
      → lba + count ≤ cap user
      → P w
      → P (backend.read w user lba count).2
  pub writes :
      (w : World) (user lba count : ℕ) (bytes : List ℕ)
      → lba + count ≤ cap user
      → P w
      → P (backend.write w user lba count bytes).1

module _ {World : Type 0} (backend : Backend World) (cap : ℕ → ℕ) (P : World → Type 0)
    (keeps : Keeps backend cap P) where
  abbrev Good : Msc × World × List Action → Type 0
  Good r = IsMsc cap r.0 × P r.1

  fail-Good :
      (st : Msc) (w : World) (c : Cmd) (s : Sense)
      → IsMsc cap st
      → st.writing ≡ false
      → P w
      → Good (fail st w c s)
  unfolding fail msc_fail set_sense
  fail-Good st w c s v q p =
      (quiet-IsMsc cap st (set_sense st c.lun s) v refl (length-set st.luns c.lun _) q, p)

  vpd-Good :
      (st : Msc) (w : World) (c : Cmd) (page : Option (List ℕ))
      → IsMsc cap st
      → st.writing ≡ false
      → P w
      → Good (vpd st w c page)
  unfolding vpd data_in
  vpd-Good st w c none v q p = fail-Good st w c invalid_field v q p
  vpd-Good st w c (some page) v q p = (v, p)

  cdrom_only-Good :
      (st : Msc) (w : World) (c : Cmd) (bytes : List ℕ)
      → IsMsc cap st
      → st.writing ≡ false
      → P w
      → Good (cdrom_only st w c bytes)
  unfolding cdrom_only data_in
  cdrom_only-Good st w c bytes v q p =
      if_both Good ((lun_at st c.lun).medium == cdrom) (data_in st w c bytes)
        (fail st w c invalid_command) (v, p) (fail-Good st w c invalid_command v q p)

  read_done-Good :
      (st : Msc) (c : Cmd) (len : ℕ) (r : ℕ × List ℕ × World)
      → IsMsc cap st
      → st.writing ≡ false
      → P r.2
      → Good (read_done backend st c len r)
  unfolding read_done
  read_done-Good st c len r v q p =
      if_both Good (r.0 == 0) (st, r.2, msc_data_in st c.tag c.dlen r.1 len)
        (fail st r.2 c unrecovered_read) (v, p) (fail-Good st r.2 c unrecovered_read v q p)

  in_range :
      (st : Msc) (w : World) (c : Cmd) (count : ℕ)
      → off_end backend st w c count ≡ false
      → get_be32 c.cdb 2 + count ≤ cap (lun_at st c.lun).user
  in_range st w c count e =
      subst (λ n. get_be32 c.cdb 2 + count ≤ n) (keeps.fixed w (lun_at st c.lun).user)
        (ltb→le (backend.num_blocks w (lun_at st c.lun).user) (get_be32 c.cdb 2 + count) e)

  read_blocks-Good :
      (st : Msc) (w : World) (c : Cmd) (count : ℕ)
      → IsMsc cap st
      → st.writing ≡ false
      → P w
      → Good (read_blocks backend st w c count)
  unfolding read_blocks
  read_blocks-Good st w c count v q p =
      let user = (lun_at st c.lun).user in
      let result = backend.read w user (get_be32 c.cdb 2) count in
      if_cases Good (off_end backend st w c count) (fail st w c lba_range)
        (read_done backend st c (byte_count backend st w c count) result)
        (λ e. fail-Good st w c lba_range v q p)
        (λ e.
          read_done-Good st c (byte_count backend st w c count) result v q
            (keeps.reads w user (get_be32 c.cdb 2) count (in_range st w c count e) p))

  begun-IsMsc :
      (st : Msc) (w : World) (c : Cmd) (count : ℕ)
      → IsMsc cap st
      → c.lun < st.n_luns
      → (lun_at st c.lun).read_only ≡ false
      → get_be32 c.cdb 2 + count ≤ cap (lun_at st c.lun).user
      → IsMsc cap (write_begins backend st w c count)
  unfolding write_begins
  begun-IsMsc st w c count v l e r =
      let same : c.lun ≡ c.lun % 256 = omega (arith, v.few_units, l) in
      record {
        some_unit = v.some_unit;
        few_units = v.few_units;
        rows = v.rows;
        in_flight = λ on.
            subst
              (λ i.
                (i < st.n_luns)
                × ((lun_at st i).read_only ≡ false)
                × (get_be32 c.cdb 2 + count ≤ cap (lun_at st i).user))
              same (l, e, r);
      }

  write_blocks-Good :
      (st : Msc) (w : World) (c : Cmd) (count : ℕ)
      → IsMsc cap st
      → st.writing ≡ false
      → c.lun < st.n_luns
      → P w
      → Good (write_blocks backend st w c count)
  unfolding write_blocks write_begins
  write_blocks-Good st w c count v q l p =
      if_cases Good (lun_at st c.lun).read_only (fail st w c write_protect) _
        (λ e. fail-Good st w c write_protect v q p)
        (λ e.
          if_cases Good (off_end backend st w c count) (fail st w c lba_range)
            (write_begins backend st w c count, w, []) (λ f. fail-Good st w c lba_range v q p)
            (λ f. (begun-IsMsc st w c count v l e (in_range st w c count f), p)))

  handle-Good :
      (op : Scsi) (st : Msc) (w : World) (c : Cmd)
      → IsMsc cap st
      → st.writing ≡ false
      → c.lun < st.n_luns
      → P w
      → Good (handle backend op st w c)
  unfolding handle data_in pass
  handle-Good test_unit_ready st w c v q l p = (v, p)
  handle-Good rezero_unit st w c v q l p = (v, p)
  handle-Good request_sense_op st w c v q l p =
      unfold set_sense in
      (quiet-IsMsc cap st (set_sense st c.lun sense_ok) v refl (length-set st.luns c.lun _) q, p)
  handle-Good format_unit st w c v q l p =
      if_both Good (lun_at st c.lun).read_only (fail st w c write_protect) (pass st w c)
        (fail-Good st w c write_protect v q p) (v, p)
  handle-Good inquiry st w c v q l p =
      if_both Good (get_or c.cdb 1 0 % 2 == 1)
        (vpd st w c (build_vpd (lun_at st c.lun) (get_or c.cdb 2 0))) _
        (vpd-Good st w c (build_vpd (lun_at st c.lun) (get_or c.cdb 2 0)) v q p) (v, p)
  handle-Good mode_sense_6_op st w c v q l p = (v, p)
  handle-Good start_stop_unit st w c v q l p = (v, p)
  handle-Good prevent_allow st w c v q l p = (v, p)
  handle-Good read_format_capacities st w c v q l p = (v, p)
  handle-Good read_capacity_10_op st w c v q l p = (v, p)
  handle-Good read_10 st w c v q l p = read_blocks-Good st w c (get_be16 c.cdb 7) v q p
  handle-Good write_10 st w c v q l p = write_blocks-Good st w c (get_be16 c.cdb 7) v q l p
  handle-Good seek_10 st w c v q l p = (v, p)
  handle-Good verify_10 st w c v q l p = (v, p)
  handle-Good sync_cache_10 st w c v q l p = (v, p)
  handle-Good read_toc_op st w c v q l p = cdrom_only-Good st w c read_toc v q p
  handle-Good get_configuration_op st w c v q l p = cdrom_only-Good st w c get_configuration v q p
  handle-Good get_event_status_op st w c v q l p = (v, p)
  handle-Good mode_sense_10_op st w c v q l p = (v, p)
  handle-Good service_action_in_16 st w c v q l p =
      if_both Good (get_or c.cdb 1 0 % 32 == 16) _ (fail st w c invalid_command) (v, p)
        (fail-Good st w c invalid_command v q p)
  handle-Good read_12 st w c v q l p = read_blocks-Good st w c (get_be32 c.cdb 6) v q p
  handle-Good write_12 st w c v q l p = write_blocks-Good st w c (get_be32 c.cdb 6) v q l p
  handle-Good unknown st w c v q l p = fail-Good st w c invalid_command v q p

  write_ends-Good :
      (st : Msc) (w : World)
      → IsMsc cap st
      → st.writing ≡ true
      → P w
      → Good (write_ends backend st w)
  unfolding write_ends
  write_ends-Good st w v q p = (
    quiet-IsMsc cap st _ v refl refl refl,
    keeps.writes w (lun_at st st.wlun).user st.wlba st.wcount st.wbuf (v.in_flight q).2 p,
  )

  write_data-Good :
      (st : Msc) (w : World) (packet : List ℕ)
      → IsMsc cap st
      → st.writing ≡ true
      → P w
      → Good (write_data backend st w packet)
  unfolding write_data take_data
  write_data-Good st w packet v q p =
      let st' = take_data backend st packet in
      let v' : IsMsc cap st' = record {
        some_unit = v.some_unit;
        few_units = v.few_units;
        rows = v.rows;
        in_flight = v.in_flight;
      } in
      if_both Good (leb st'.wneed st'.wgot) (write_ends backend st' w) (st', w, [])
        (write_ends-Good st' w v' q p) (v', p)

  command-Good :
      (st : Msc) (w : World) (packet : List ℕ)
      → IsMsc cap st
      → st.writing ≡ false
      → P w
      → Good (command backend st w packet)
  unfolding command dispatch
  command-Good st w packet v q p =
      let c = command_of packet in
      let st' : Msc = record st { cbw_in = leb 128 (get_or packet 12 0) } in
      let v' : IsMsc cap st' = quiet-IsMsc cap st st' v refl refl q in
      if_cases Good (leb st.n_luns c.lun) (fail st' w (record c { lun = 0 }) lun_not_supported)
        (dispatch backend st' w c)
        (λ e. fail-Good st' w (record c { lun = 0 }) lun_not_supported v' q p)
        (λ e. handle-Good (decode_op (get_or c.cdb 0 0)) st' w c v' q (ground arith) p)

  on_out-Good :
      (st : Msc) (w : World) (packet : List ℕ)
      → IsMsc cap st
      → P w
      → Good (on_out backend st w packet)
  unfolding on_out
  on_out-Good st w packet v p =
      if_cases Good st.writing (write_data backend st w packet) _
        (λ e. write_data-Good st w packet v e p)
        (λ e.
          if_both Good (is_cbw packet) (command backend st w packet) (st, w, [])
            (command-Good st w packet v e p) (v, p))

  step-Good : (st : Msc) (w : World) (e : Event) → IsMsc cap st → P w → Good (step backend st w e)
  unfolding step control
  step-Good st w (out_packet packet) v p = on_out-Good st w packet v p
  step-Good st w (class_request request) v p =
      if_both
        (λ (o : Option (Msc × List ℕ)).
          Good (elim o [ none ↦ (st, w, []) | some answer ↦ (answer.0, w, []) ]))
        (request == 254) (some (st, ((st.n_luns - 1) % 256) ∷ [])) _ (v, p)
        (if_both
          (λ (o : Option (Msc × List ℕ)).
            Good (elim o [ none ↦ (st, w, []) | some answer ↦ (answer.0, w, []) ]))
          (request == 255) (some (record st { writing = false; wbuf = [] }, [])) none
          (quiet-IsMsc cap st _ v refl refl refl, p) (v, p))

  run-Good :
      (es : List Event) (st : Msc) (w : World) → IsMsc cap st → P w → Good (run backend st w es)
  unfolding run
  run-Good [] st w v p = (v, p)
  run-Good (e ∷ es) st w v p =
      let g = step-Good st w e v p in
      run-Good es (step backend st w e).0 (step backend st w e).1 g.0 g.1

  build-IsMsc : (opts : Opts) (st : Msc) → build opts ≡ some st → IsMsc cap st
  unfolding build
  build-IsMsc opts st e =
      if_cases (λ (o : Option Msc). o ≡ some st → IsMsc cap st) (ltb 16 (length opts.luns)) none
        (some (built opts)) (λ f h. absurd (cc h))
        (λ f h. subst (IsMsc cap) (cc h) (built-IsMsc cap opts (ground arith))) e

  -- Whatever packets and class requests the host sends to a mass storage function that was built:
  -- where the backend's capacities do not change, every access that the class makes lies within the
  -- capacity of its unit (so what such accesses keep of the application's memory, stays), the
  -- function has from 1 to 16 units, and a write in flight is one to a unit that exists and is not
  -- write-protected, at blocks that it has.
  pub run-IsMsc :
      (opts : Opts) (st : Msc) (w : World) (es : List Event)
      → build opts ≡ some st
      → P w
      → IsMsc cap (run backend st w es).0 × P (run backend st w es).1
  run-IsMsc opts st w es e p = run-Good es st w (build-IsMsc opts st e) p
