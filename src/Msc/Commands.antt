-- ===== src/Msc/Commands.antt =====
-- READ(10) and WRITE(10) from the host's side: the CBW, the data phase and the status
-- (src/classes/device/msc.c).
use usbip_c.Base.{ℕ, ◌+◌, ◌-◌, ◌*◌, ◌^◌, ◌≤◌, ◌<◌, ◌≡◌, refl, sym, ap, subst, ◌∙◌}
use usbip_c.Base.{List, [], ◌∷◌, ◌++◌, map, append-nil, append_assoc, Bool, true, false, arith}
use usbip_c.Base.{ltb, leb, ◌==◌, if◌then◌else◌, le→ltb, lt→ltb, length, take, take-all}
use usbip_c.Base.Bytes.{be16, be32, le32, bytes32, bytes16, get_be16, get_be32}
use usbip_c.Base.Buffers.{codes}
use usbip_c.Msc.State.{
  Backend, lun_not_supported, write_protect, lba_range, Msc, lun_at, Action, write_in, write_int,
  msc_csw, msc_data_in, msc_stall_data_phase,
}
use usbip_c.Msc.Dispatch.{
  Event, step, Cmd, fail, handle, dispatch, decode_op, off_end, byte_count, write_begins,
  write_blocks, read_blocks, read_done, status_of, command_of, command, on_out, out_packet, run,
}
use usbip_c.Msc.Transfer.{concat, on_out-idle, run-packet, data_phase-stored}

-- The CBW of a 10-byte command: `flags` has bit 7 set for data from the device.
abbrev pub cbw_10 : (tag0 tag1 tag2 tag3 dlen flags lun op lba count : ℕ) → List ℕ
cbw_10 tag0 tag1 tag2 tag3 dlen flags lun op lba count =
    codes "USBC"
    ++ (tag0 ∷ tag1 ∷ tag2 ∷ tag3 ∷ [])
    ++ le32 dlen
    ++ (flags ∷ lun ∷ 10 ∷ [])
    ++ (op ∷ 0 ∷ [])
    ++ be32 lba
    ++ (0 ∷ [])
    ++ be16 count
    ++ (0 ∷ 0 ∷ 0 ∷ 0 ∷ 0 ∷ 0 ∷ 0 ∷ [])

abbrev pub cdb_10 : ℕ → ℕ → ℕ → List ℕ
cdb_10 op lba count =
    (op ∷ 0 ∷ []) ++ be32 lba ++ (0 ∷ []) ++ be16 count ++ (0 ∷ 0 ∷ 0 ∷ 0 ∷ 0 ∷ 0 ∷ 0 ∷ [])

-- A transfer between the host and the unit `lun`, of which the class is idle.
pub record CanTransfer {World : Type 0} (backend : Backend World) (st : Msc) (w : World)
    (lun lba count : ℕ) : Type 0 where
  pub idle : st.writing ≡ false
  pub unit : lun < st.n_luns
  pub few : st.n_luns ≤ 16
  pub lba_fits : lba < 2 ^ 32
  pub count_fits : count < 2 ^ 16
  pub within : lba + count ≤ backend.num_blocks w (lun_at st lun).user
  pub some_bytes : 0 < count * backend.block_size w (lun_at st lun).user
  pub bytes_fit : count * backend.block_size w (lun_at st lun).user < 2 ^ 32

module _ {World : Type 0} (backend : Backend World) where
  abbrev pub transfer_length : Msc → World → ℕ → ℕ → ℕ
  transfer_length st w lun count = count * backend.block_size w (lun_at st lun).user

  abbrev pub begun_write : List ℕ → ℕ → ℕ → ℕ → ℕ → Msc → World → Msc
  begun_write tag flags lun lba count st w = record st {
    cbw_in = leb 128 flags;
    writing = true;
    wop = 42;
    wlun = lun;
    wtag = tag;
    wlba = lba;
    wcount = count;
    wneed = transfer_length st w lun count;
    wgot = 0;
    wbuf = [];
  }

  abbrev pub after_write : List ℕ → ℕ → ℕ → ℕ → ℕ → Msc → World → Msc
  after_write tag flags lun lba count st w = record (begun_write tag flags lun lba count st w) {
    writing = false;
    wgot = transfer_length st w lun count;
  }

  pub command-cbw_10 :
      (tag0 tag1 tag2 tag3 dlen flags lun op lba count : ℕ) (st : Msc) (w : World)
      → st.writing ≡ false
      → lun < st.n_luns
      → st.n_luns ≤ 16
      → dlen < 2 ^ 32
      → on_out backend st w (cbw_10 tag0 tag1 tag2 tag3 dlen flags lun op lba count)
        ≡ dispatch backend
            (record st { cbw_in = leb 128 flags })
            w
            (record {
              lun = lun;
              tag = tag0 ∷ tag1 ∷ tag2 ∷ tag3 ∷ [];
              dlen = dlen;
              cdb = cdb_10 op lba count;
            })
  unfolding command
  command-cbw_10 tag0 tag1 tag2 tag3 dlen flags lun op lba count st w q l n d =
      let p = cbw_10 tag0 tag1 tag2 tag3 dlen flags lun op lba count in
      let st' : Msc = record st { cbw_in = leb 128 flags } in
      let c = command_of p in
      on_out-idle backend st w p q
      ∙ ap
          (λ b.
            if b
            then fail st' w (record c { lun = 0 }) lun_not_supported
            else dispatch backend st' w c)
          {y = false} (ground arith)
      ∙ ap (λ i. dispatch backend st' w (record c { lun = i })) {y = lun} (omega arith)
      ∙ ap (λ m. dispatch backend st' w (record c { lun = lun; dlen = m })) {y = dlen} (omega arith)

  write_10-accepted :
      (st : Msc) (w : World) (c : Cmd) (count : ℕ)
      → (lun_at st c.lun).read_only ≡ false
      → off_end backend st w c count ≡ false
      → write_blocks backend st w c count ≡ (write_begins backend st w c count, w, [])
  unfolding write_blocks
  write_10-accepted st w c count e f =
      ap
        (λ b.
          if b
          then fail st w c write_protect
          else if off_end backend st w c count
          then fail st w c lba_range
          else (write_begins backend st w c count, w, []))
        e
      ∙ ap (λ b. if b then fail st w c lba_range else (write_begins backend st w c count, w, [])) f

  read_10-accepted :
      (st : Msc) (w : World) (c : Cmd) (count : ℕ)
      → off_end backend st w c count ≡ false
      → read_blocks backend st w c count
        ≡ read_done backend st c
            (byte_count backend st w c count)
            (backend.read w (lun_at st c.lun).user (get_be32 c.cdb 2) count)
  unfolding read_blocks
  read_10-accepted st w c count f =
      ap
        (λ b.
          if b
          then fail st w c lba_range
          else read_done backend st c (byte_count backend st w c count)
              (backend.read w (lun_at st c.lun).user (get_be32 c.cdb 2) count))
        f

  in_range :
      (st : Msc) (w : World) (c : Cmd) (lun op lba count : ℕ)
      → c.lun ≡ lun
      → c.cdb ≡ cdb_10 op lba count
      → lba < 2 ^ 32
      → lba + count ≤ backend.num_blocks w (lun_at st lun).user
      → off_end backend st w c count ≡ false
  in_range st w c lun op lba count l e k h =
      ap (λ cdb. ltb (backend.num_blocks w (lun_at st c.lun).user) (get_be32 cdb 2 + count)) e
      ∙ ap (λ a. ltb (backend.num_blocks w (lun_at st c.lun).user) (a + count)) (bytes32 lba k)
      ∙ ap (λ i. ltb (backend.num_blocks w (lun_at st i).user) (lba + count)) l
      ∙ le→ltb (backend.num_blocks w (lun_at st lun).user) (lba + count) h

  -- WRITE(10) opens its data phase.
  write_cbw-begins :
      (tag0 tag1 tag2 tag3 flags lun lba count : ℕ) (st : Msc) (w : World)
      → CanTransfer backend st w lun lba count
      → (lun_at st lun).read_only ≡ false
      → on_out backend st w
          (cbw_10 tag0 tag1 tag2 tag3 (transfer_length st w lun count) flags lun 42 lba count)
        ≡ (begun_write (tag0 ∷ tag1 ∷ tag2 ∷ tag3 ∷ []) flags lun lba count st w, w, [])
  unfolding dispatch handle write_begins decode_op
  write_cbw-begins tag0 tag1 tag2 tag3 flags lun lba count st w can protected =
      let len = transfer_length st w lun count in
      let c : Cmd = record {
        lun = lun;
        tag = tag0 ∷ tag1 ∷ tag2 ∷ tag3 ∷ [];
        dlen = len;
        cdb = cdb_10 42 lba count;
      } in
      let st' : Msc = record st { cbw_in = leb 128 flags } in
      let n = get_be16 c.cdb 7 in
      command-cbw_10 tag0 tag1 tag2 tag3 len flags lun 42 lba count st w can.idle can.unit can.few
        can.bytes_fit
      ∙ ap (write_blocks backend st' w c) (bytes16 count can.count_fits)
      ∙ write_10-accepted st' w c count protected
          (in_range st' w c lun 42 lba count refl refl can.lba_fits can.within)
      ∙ ap (λ i. (record (write_begins backend st' w c count) { wlun = i }, w, [])) {y = lun}
          (omega (arith, can.unit, can.few))
      ∙ ap (λ a. (record (write_begins backend st' w c count) { wlun = lun; wlba = a }, w, []))
          (bytes32 lba can.lba_fits)
      ∙ ap
          (λ n. (
            record (write_begins backend st' w c count) { wlun = lun; wlba = lba; wneed = n },
            w,
            [],
          ))
          {y = len} (omega (arith, can.bytes_fit))

  -- A WRITE(10) that an idle function gets, for blocks that one of its at most 16 units has (a block
  -- number of 32 bits and
  -- a count of 16 bits), at least one byte and less than 2^32 of them, where the unit is not
  -- write-protected, with its data after it in packets of any sizes that together are as long as it
  -- says: the application's `write` is called once, with the blocks and the whole data in order; the
  -- function is idle again, its units are as before, and all that the host gets is one status with the
  -- command's tag and residue 0, which says whether `write` returned 0.
  pub write_10-stored :
      (tag0 tag1 tag2 tag3 flags lun lba count : ℕ) (ps : List (List ℕ)) (st : Msc) (w : World)
      → CanTransfer backend st w lun lba count
      → (lun_at st lun).read_only ≡ false
      → length (concat ps) ≡ transfer_length st w lun count
      → run backend st w (
          map out_packet (
            cbw_10 tag0 tag1 tag2 tag3 (transfer_length st w lun count) flags lun 42 lba count
            ∷ ps))
        ≡ (
          after_write (tag0 ∷ tag1 ∷ tag2 ∷ tag3 ∷ []) flags lun lba count st w,
          (backend.write w (lun_at st lun).user lba count (concat ps)).1,
          msc_csw
              (tag0 ∷ tag1 ∷ tag2 ∷ tag3 ∷ [])
              0
              (status_of backend (backend.write w (lun_at st lun).user lba count (concat ps)).0),
        )
  write_10-stored tag0 tag1 tag2 tag3 flags lun lba count ps st w can protected h =
      let tag = tag0 ∷ tag1 ∷ tag2 ∷ tag3 ∷ [] in
      let begun = begun_write tag flags lun lba count st w in
      run-packet backend st w _ ps (begun, w, [])
        (write_cbw-begins tag0 tag1 tag2 tag3 flags lun lba count st w can protected)
      ∙ ap (λ (r : Msc × World × List Action). (r.0, r.1, r.2))
          (data_phase-stored backend ps begun w refl can.some_bytes can.bytes_fit
            (omega (arith, h)))

  whole-data_in :
      (st : Msc) (tag bytes : List ℕ) (n : ℕ)
      → length bytes ≡ n
      → 0 < n
      → n < 2 ^ 31
      → msc_data_in st tag n bytes n ≡ write_in bytes ∷ msc_csw tag 0 0
  unfolding msc_data_in
  whole-data_in st tag bytes n h k short =
      let phase : ℕ → Bool → List Action = λ m b.
        (if b then msc_stall_data_phase st n else write_int m bytes) ++ msc_csw tag (n - m) 0 in
      ap (λ m. phase m (m == 0)) {x = if ltb n n then n else n} {y = n} (ground arith)
      ∙ ap (phase n) {y = false} (ground arith)
      ∙ ap (λ b. (if b then write_in (take n bytes) ∷ [] else []) ++ msc_csw tag (n - n) 0)
          (lt→ltb n (2 ^ 31) short)
      ∙ ap (λ t. write_in t ∷ msc_csw tag (n - n) 0) (take-all n bytes (omega (arith, h)))
      ∙ ap (λ m. write_in bytes ∷ msc_csw tag m 0) {x = n - n} {y = 0} (omega arith)

  -- A READ(10) that an idle function gets, for blocks that its unit has and 1 to 2^31 - 1 bytes, where
  -- the application's `read` succeeds and fills the buffer: the host gets exactly those bytes, and one
  -- status with the command's tag, residue 0 and success; no more of the state changes than the
  -- direction of the command.
  pub read_10-sent :
      (tag0 tag1 tag2 tag3 flags lun lba count : ℕ) (st : Msc) (w w' : World) (bytes : List ℕ)
      → CanTransfer backend st w lun lba count
      → backend.read w (lun_at st lun).user lba count ≡ (0, bytes, w')
      → length bytes ≡ transfer_length st w lun count
      → length bytes < 2 ^ 31
      → on_out backend st w
          (cbw_10 tag0 tag1 tag2 tag3 (transfer_length st w lun count) flags lun 40 lba count)
        ≡ (
          record st { cbw_in = leb 128 flags },
          w',
          write_in bytes ∷ msc_csw (tag0 ∷ tag1 ∷ tag2 ∷ tag3 ∷ []) 0 0,
        )
  unfolding dispatch handle decode_op
  read_10-sent tag0 tag1 tag2 tag3 flags lun lba count st w w' bytes can e h short =
      let len = transfer_length st w lun count in
      let tag = tag0 ∷ tag1 ∷ tag2 ∷ tag3 ∷ [] in
      let c : Cmd = record { lun = lun; tag = tag; dlen = len; cdb = cdb_10 40 lba count } in
      let st' : Msc = record st { cbw_in = leb 128 flags } in
      command-cbw_10 tag0 tag1 tag2 tag3 len flags lun 40 lba count st w can.idle can.unit can.few
        can.bytes_fit
      ∙ ap (read_blocks backend st' w c) (bytes16 count can.count_fits)
      ∙ read_10-accepted st' w c count
          (in_range st' w c lun 40 lba count refl refl can.lba_fits can.within)
      ∙ ap
          (λ a.
            read_done backend st' c (byte_count backend st' w c count)
              (backend.read w (lun_at st lun).user a count))
          (bytes32 lba can.lba_fits)
      ∙ ap (read_done backend st' c (byte_count backend st' w c count)) e
      ∙ ap (λ n. read_done backend st' c n (0, bytes, w')) {y = len} (omega (arith, can.bytes_fit))
      ∙ ap (λ acts. (st', w', acts))
          (whole-data_in st' tag bytes len h can.some_bytes (subst (λ n. n < 2 ^ 31) h short))

  pub run-out_packet :
      (st : Msc) (w : World) (p : List ℕ) (r : Msc × World × List Action)
      → on_out backend st w p ≡ r
      → run backend st w (out_packet p ∷ []) ≡ r
  unfolding run step
  run-out_packet st w p r e =
      ap (λ (x : Msc × World × List Action). (x.0, x.1, x.2 ++ [])) e
      ∙ ap (λ acts. (r.0, r.1, acts)) (append-nil r.2)

  run-append :
      (es fs : List Event) (st : Msc) (w : World)
      → run backend st w (es ++ fs) ≡ (
          let (st', w', acts) = run backend st w es in
          let (st'', w'', more) = run backend st' w' fs in (st'', w'', acts ++ more))
  unfolding run
  run-append [] fs st w = refl
  run-append (e ∷ es) fs st w =
      let r = step backend st w e in
      ap (λ (x : Msc × World × List Action). (x.0, x.1, r.2 ++ x.2)) (run-append es fs r.0 r.1)
      ∙ (let a = run backend r.0 r.1 es in
          let b = run backend a.0 a.1 fs in
          ap (λ acts. (b.0, b.1, acts)) (sym (append_assoc r.2 a.2 b.2)))

  -- What a host writes to one of the at most 16 units of an idle function it reads back, for 1 to
  -- 2^31 - 1 bytes in blocks that the unit has (with a block number of 32 bits and a count of 16 bits) and where the unit is not
  -- write-protected: where the application's `write` of the data succeeds, its capacity and block size
  -- stay, and its `read` then gives what was written, a WRITE(10) with the data in packets of any
  -- sizes and then a READ(10) of the same blocks give the host a success status with the first tag and
  -- residue 0, the data, and a success status with the second tag and residue 0, and nothing else.
  pub write-read :
      (tag0 tag1 tag2 tag3 tag4 tag5 tag6 tag7 lun lba count : ℕ) (ps : List (List ℕ)) (st : Msc)
      (w w' w'' : World)
      → CanTransfer backend st w lun lba count
      → (lun_at st lun).read_only ≡ false
      → length (concat ps) ≡ transfer_length st w lun count
      → length (concat ps) < 2 ^ 31
      → backend.write w (lun_at st lun).user lba count (concat ps) ≡ (0, w')
      → backend.num_blocks w' ≡ backend.num_blocks w
      → backend.block_size w' ≡ backend.block_size w
      → backend.read w' (lun_at st lun).user lba count ≡ (0, concat ps, w'')
      → (run backend st w (
          map out_packet
            (cbw_10 tag0 tag1 tag2 tag3 (transfer_length st w lun count) 0 lun 42 lba count ∷ ps)
          ++ (out_packet
                (cbw_10 tag4 tag5 tag6 tag7 (transfer_length st w lun count) 128 lun 40 lba count)
              ∷ []))).2
        ≡ msc_csw (tag0 ∷ tag1 ∷ tag2 ∷ tag3 ∷ []) 0 0
          ++ (write_in (concat ps) ∷ msc_csw (tag4 ∷ tag5 ∷ tag6 ∷ tag7 ∷ []) 0 0)
  write-read tag0 tag1 tag2 tag3 tag4 tag5 tag6 tag7 lun lba count ps st w w' w'' can open_ h short
        wr nb bs rd =
      let tag = tag0 ∷ tag1 ∷ tag2 ∷ tag3 ∷ [] in
      let user = (lun_at st lun).user in
      let n = transfer_length st w lun count in
      let read_cbw = cbw_10 tag4 tag5 tag6 tag7 n 128 lun 40 lba count in
      let writes = map out_packet (cbw_10 tag0 tag1 tag2 tag3 n 0 lun 42 lba count ∷ ps) in
      let after = after_write tag 0 lun lba count st w in
      let same : count * backend.block_size w' user ≡ n = ap (λ f. count * f user) bs in
      let can' : CanTransfer backend after w' lun lba count = record {
        idle = refl;
        unit = can.unit;
        few = can.few;
        lba_fits = can.lba_fits;
        count_fits = can.count_fits;
        within = subst (λ f. lba + count ≤ f user) (sym nb) can.within;
        some_bytes = subst (λ k. 0 < k) (sym same) can.some_bytes;
        bytes_fit = subst (λ k. k < 2 ^ 32) (sym same) can.bytes_fit;
      } in
      let written =
        write_10-stored tag0 tag1 tag2 tag3 0 lun lba count ps st w can open_ h
        ∙ ap (λ (x : ℕ × World). (after, x.1, msc_csw tag 0 (status_of backend x.0))) wr in
      let sent =
        ap (λ k. on_out backend after w' (cbw_10 tag4 tag5 tag6 tag7 k 128 lun 40 lba count))
          (sym same)
        ∙ read_10-sent tag4 tag5 tag6 tag7 128 lun lba count after w' w'' (concat ps) can' rd
            (h ∙ sym same) short in
      ap (λ (x : Msc × World × List Action). x.2)
        (run-append writes (out_packet read_cbw ∷ []) st w)
      ∙ ap
          (λ (x : Msc × World × List Action).
            x.2 ++ (run backend x.0 x.1 (out_packet read_cbw ∷ [])).2)
          written
      ∙ ap (λ (x : Msc × World × List Action). msc_csw tag 0 0 ++ x.2)
          (run-out_packet after w' read_cbw _ sent)
