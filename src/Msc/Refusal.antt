-- ===== src/Msc/Refusal.antt =====
-- A command that asks for blocks which the unit does not have, and what the host learns of it
-- (src/classes/device/msc.c).
use usbip_c.Base.{
  ℕ, ◌+◌, ◌^◌, ◌≤◌, ◌<◌, ◌≡◌, refl, ap, ◌∙◌, List, [], ◌∷◌, ◌++◌, map, Bool, true, false, arith,
  ltb, leb, if◌then◌else◌, lt→ltb, length,
}
use usbip_c.Base.Bytes.{bytes16, bytes32, get_be32}
use usbip_c.Msc.State.{
  Backend, Sense, Msc, Action, lun_at, lba_range, sense_ok, set_sense, write_in, msc_csw,
  msc_data_in, msc_fail, msc_stall_data_phase,
}
use usbip_c.Msc.Replies.{request_sense}
use usbip_c.Msc.Dispatch.{
  Cmd, fail, data_in, handle, dispatch, decode_op, off_end, byte_count, read_blocks, read_done,
  on_out, out_packet, run,
}
use usbip_c.Msc.Transfer.{run-packet}
use usbip_c.Msc.Commands.{cbw_10, cdb_10, command-cbw_10, run-out_packet}
use usbip_c.Msc.Sense.{sense_bytes, set_sense-sense, length-set_sense}

-- the unit that a command names, of an idle function
pub record IsUnit (st : Msc) (lun : ℕ) : Type 0 where
  pub idle : st.writing ≡ false
  pub unit : lun < st.n_luns
  pub few : st.n_luns ≤ 16
  pub held : lun < length st.luns

turned-IsUnit :
    (st : Msc) (lun : ℕ) (cbw_in : Bool)
    → IsUnit st lun
    → IsUnit (record st { cbw_in = cbw_in }) lun
turned-IsUnit st lun cbw_in is = record {
  idle = is.idle;
  unit = is.unit;
  few = is.few;
  held = is.held;
}

kept-IsUnit : (st : Msc) (lun : ℕ) (s : Sense) → IsUnit st lun → IsUnit (set_sense st lun s) lun
unfolding set_sense
kept-IsUnit st lun s is = record {
  idle = is.idle;
  unit = is.unit;
  few = is.few;
  held = omega (arith, is.held, length-set_sense st lun s);
}

module _ {World : Type 0} (backend : Backend World) where
  past_end :
      (st : Msc) (w : World) (c : Cmd) (lba count : ℕ)
      → c.cdb ≡ cdb_10 40 lba count
      → lba < 2 ^ 32
      → backend.num_blocks w (lun_at st c.lun).user < lba + count
      → off_end backend st w c count ≡ true
  past_end st w c lba count e k h =
      ap (λ cdb. ltb (backend.num_blocks w (lun_at st c.lun).user) (get_be32 cdb 2 + count)) e
      ∙ ap (λ a. ltb (backend.num_blocks w (lun_at st c.lun).user) (a + count)) (bytes32 lba k)
      ∙ lt→ltb (backend.num_blocks w (lun_at st c.lun).user) (lba + count) h

  refused :
      (st : Msc) (w : World) (c : Cmd) (count : ℕ)
      → off_end backend st w c count ≡ true
      → read_blocks backend st w c count ≡ fail st w c lba_range
  unfolding read_blocks
  refused st w c count h =
      ap
        (λ b.
          if b
          then fail st w c lba_range
          else read_done backend st c (byte_count backend st w c count)
              (backend.read w (lun_at st c.lun).user (get_be32 c.cdb 2) count))
        h

  read_cbw-refused :
      (tag0 tag1 tag2 tag3 dlen flags lun lba count : ℕ) (st : Msc) (w : World)
      → IsUnit st lun
      → dlen < 2 ^ 32
      → lba < 2 ^ 32
      → count < 2 ^ 16
      → backend.num_blocks w (lun_at st lun).user < lba + count
      → on_out backend st w (cbw_10 tag0 tag1 tag2 tag3 dlen flags lun 40 lba count) ≡ (
        set_sense (record st { cbw_in = leb 128 flags }) lun lba_range,
        w,
        msc_stall_data_phase (record st { cbw_in = leb 128 flags }) dlen
            ++ msc_csw (tag0 ∷ tag1 ∷ tag2 ∷ tag3 ∷ []) dlen 1,
      )
  unfolding dispatch handle decode_op fail msc_fail
  read_cbw-refused tag0 tag1 tag2 tag3 dlen flags lun lba count st w is d k n h =
      let tag = tag0 ∷ tag1 ∷ tag2 ∷ tag3 ∷ [] in
      let c : Cmd = record { lun = lun; tag = tag; dlen = dlen; cdb = cdb_10 40 lba count } in
      let st' : Msc = record st { cbw_in = leb 128 flags } in
      command-cbw_10 backend tag0 tag1 tag2 tag3 dlen flags lun 40 lba count st w is.idle is.unit
        is.few d
      ∙ ap (read_blocks backend st' w c) (bytes16 count n)
      ∙ refused st' w c count (past_end st' w c lba count refl k h)

  sense_cbw-reported :
      (tag0 tag1 tag2 tag3 lun : ℕ) (st : Msc) (w : World) (s : Sense)
      → IsUnit st lun
      → (lun_at st lun).sense ≡ s
      → on_out backend st w (cbw_10 tag0 tag1 tag2 tag3 18 128 lun 3 0 0) ≡ (
        set_sense (record st { cbw_in = true }) lun sense_ok,
        w,
        write_in (sense_bytes s) ∷ msc_csw (tag0 ∷ tag1 ∷ tag2 ∷ tag3 ∷ []) 0 0,
      )
  unfolding dispatch handle decode_op data_in msc_data_in request_sense
  sense_cbw-reported tag0 tag1 tag2 tag3 lun st w s is e =
      command-cbw_10 backend tag0 tag1 tag2 tag3 18 128 lun 3 0 0 st w is.idle is.unit is.few
        (omega arith)
      ∙ ap
          (λ (x : Sense). (
            set_sense (record st { cbw_in = true }) lun sense_ok,
            w,
            write_in (sense_bytes x) ∷ msc_csw (tag0 ∷ tag1 ∷ tag2 ∷ tag3 ∷ []) 0 0,
          ))
          e

  refused_run :
      (tag0 tag1 tag2 tag3 tag4 tag5 tag6 tag7 dlen flags lun lba count : ℕ) (st : Msc) (w : World)
      → IsUnit st lun
      → dlen < 2 ^ 32
      → lba < 2 ^ 32
      → count < 2 ^ 16
      → backend.num_blocks w (lun_at st lun).user < lba + count
      → let st' : Msc = record st { cbw_in = leb 128 flags } in
        run backend st w (
          map out_packet (
            cbw_10 tag0 tag1 tag2 tag3 dlen flags lun 40 lba count
            ∷ cbw_10 tag4 tag5 tag6 tag7 18 128 lun 3 0 0
            ∷ []))
        ≡ (
          set_sense (record (set_sense st' lun lba_range) { cbw_in = true }) lun sense_ok,
          w,
          (msc_stall_data_phase st' dlen ++ msc_csw (tag0 ∷ tag1 ∷ tag2 ∷ tag3 ∷ []) dlen 1)
              ++ (write_in (sense_bytes lba_range) ∷ msc_csw (tag4 ∷ tag5 ∷ tag6 ∷ tag7 ∷ []) 0 0),
        )
  refused_run tag0 tag1 tag2 tag3 tag4 tag5 tag6 tag7 dlen flags lun lba count st w is d k n h =
      let st' : Msc = record st { cbw_in = leb 128 flags } in
      let st1 = set_sense st' lun lba_range in
      let is' = turned-IsUnit st lun (leb 128 flags) is in
      let acts = msc_stall_data_phase st' dlen ++ msc_csw (tag0 ∷ tag1 ∷ tag2 ∷ tag3 ∷ []) dlen 1 in
      run-packet backend st w (cbw_10 tag0 tag1 tag2 tag3 dlen flags lun 40 lba count)
        (cbw_10 tag4 tag5 tag6 tag7 18 128 lun 3 0 0 ∷ []) (st1, w, acts)
        (read_cbw-refused tag0 tag1 tag2 tag3 dlen flags lun lba count st w is d k n h)
      ∙ ap (λ (r : Msc × World × List Action). (r.0, r.1, acts ++ r.2))
          (run-out_packet backend st1 w (cbw_10 tag4 tag5 tag6 tag7 18 128 lun 3 0 0) _ (
            sense_cbw-reported tag4 tag5 tag6 tag7 lun st1 w lba_range
              (kept-IsUnit st' lun lba_range is')
              (set_sense-sense st' lun lun lba_range refl is.held)))

  -- The host asks one of the at most 16 units of an idle function for blocks that reach past its end,
  -- with a READ(10) (a block number and a promise of 32 bits, a count of 16 bits), and then for 18
  -- bytes of sense data of that unit: the application's memory stays as it was, whatever its `read`
  -- would do; the READ is answered by a halted pipe, where data was promised, and one status, failed,
  -- with its tag and the whole promise as residue; and the REQUEST SENSE by exactly the sense LOGICAL
  -- BLOCK ADDRESS OUT OF RANGE and a success status with its own tag. The unit has then no sense left.
  pub read_10-refused :
      (tag0 tag1 tag2 tag3 tag4 tag5 tag6 tag7 dlen flags lun lba count : ℕ) (st : Msc) (w : World)
      → IsUnit st lun
      → dlen < 2 ^ 32
      → lba < 2 ^ 32
      → count < 2 ^ 16
      → backend.num_blocks w (lun_at st lun).user < lba + count
      → (let r = run backend st w (
            map out_packet (
              cbw_10 tag0 tag1 tag2 tag3 dlen flags lun 40 lba count
              ∷ cbw_10 tag4 tag5 tag6 tag7 18 128 lun 3 0 0
              ∷ [])) in
          (r.1 ≡ w)
          × (r.2
              ≡ (msc_stall_data_phase (record st { cbw_in = leb 128 flags }) dlen
                  ++ msc_csw (tag0 ∷ tag1 ∷ tag2 ∷ tag3 ∷ []) dlen 1)
                ++ (write_in (sense_bytes lba_range)
                    ∷ msc_csw (tag4 ∷ tag5 ∷ tag6 ∷ tag7 ∷ []) 0 0))
          × ((lun_at r.0 lun).sense ≡ sense_ok))
  read_10-refused tag0 tag1 tag2 tag3 tag4 tag5 tag6 tag7 dlen flags lun lba count st w is d k n h =
      let st1 = set_sense (record st { cbw_in = leb 128 flags }) lun lba_range in
      let e =
        refused_run tag0 tag1 tag2 tag3 tag4 tag5 tag6 tag7 dlen flags lun lba count st w is d k n
          h in
      (
        ap (λ (r : Msc × World × List Action). r.1) e,
        ap (λ (r : Msc × World × List Action). r.2) e,
        ap (λ (r : Msc × World × List Action). (lun_at r.0 lun).sense) e
            ∙ set_sense-sense (record st1 { cbw_in = true }) lun lun sense_ok refl
                (kept-IsUnit (record st { cbw_in = leb 128 flags }) lun lba_range
                  (turned-IsUnit st lun (leb 128 flags) is)).held,
      )
