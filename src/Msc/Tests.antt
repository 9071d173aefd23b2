-- ===== src/Msc/Tests.antt =====
-- A disk of four blocks of two bytes (src/classes/device/msc.c).
use usbip_c.Base.{ℕ, ◌+◌, ◌*◌, ◌≤◌, ◌≡◌, refl, List, [], ◌∷◌, ◌++◌, map, true, false, none}
use usbip_c.Base.{arith}
use usbip_c.Base.Buffers.{zeros, length-zeros}
use usbip_c.Msc.State.{
  msc_stall_data_phase, lun_at, Backend, Opts, Msc, lba_range, sense_ok, lun_init, write_in,
  msc_csw, csw, msc_data_in, msc_fail,
}
use usbip_c.Msc.Dispatch.{built, build, resolve, unit_count, on_out, run, out_packet, class_request}
use usbip_c.Msc.Answers.{Outcome, FillsBuffer, on_out-Outcome}
use usbip_c.Msc.Invariant.{IsMsc}
use usbip_c.Msc.Safety.{Keeps, run-IsMsc}
use usbip_c.Msc.Commands.{CanTransfer, cbw_10, after_write, write_10-stored, write-read}
use usbip_c.Msc.Sense.{sense_bytes}
use usbip_c.Msc.Refusal.{IsUnit, read_10-refused}
use usbip_c.Msc.Transport.{host_reads, perform_all, ret_of, status_read}
use usbip_c.Endpoint.State.{fresh, stall_ret}

-- what the last write left
abbrev mailbox : Backend (List ℕ)
mailbox = record {
  num_blocks = λ w user. 4;
  block_size = λ w user. 2;
  read = λ w user lba count. (0, w, w);
  write = λ w user lba count bytes. (0, bytes);
}

-- a disk of zeros that forgets what is written, and keeps count of its accesses
abbrev zero_disk : Backend ℕ
zero_disk = record {
  num_blocks = λ w user. 4;
  block_size = λ w user. 2;
  read = λ w user lba count. (0, zeros (count * 2), w + 1);
  write = λ w user lba count bytes. (0, w + 1);
}

abbrev opts : Opts
opts = record {
  luns = [];
  read_only = false;
  medium = 0;
  vendor = none;
  product = none;
  revision = none;
  serial = none;
  user = 7;
}

abbrev disk : Msc
disk = built opts

zero_disk-FillsBuffer : FillsBuffer zero_disk
zero_disk-FillsBuffer w user lba count = length-zeros (count * 2)

on_out-Outcome_example :
    Outcome disk
      (cbw_10 1 2 3 4 2 128 0 40 1 1)
      (on_out zero_disk disk 0 (cbw_10 1 2 3 4 2 128 0 40 1 1)).0
      (on_out zero_disk disk 0 (cbw_10 1 2 3 4 2 128 0 40 1 1)).2
on_out-Outcome_example =
    on_out-Outcome zero_disk zero_disk-FillsBuffer disk 0 (cbw_10 1 2 3 4 2 128 0 40 1 1)

zero_disk-Keeps : Keeps zero_disk (λ user. 4) (λ w. 3 ≤ w)
zero_disk-Keeps = record {
  fixed = λ w user. refl;
  reads = λ w user lba count h p. omega arith;
  writes = λ w user lba count bytes h p. omega arith;
}

run-IsMsc_example :
    IsMsc
      (λ user. 4)
      (run zero_disk disk 3 (
        out_packet (cbw_10 1 2 3 4 2 0 0 42 1 1)
        ∷ out_packet (8 ∷ 9 ∷ [])
        ∷ class_request 255
        ∷ [])).0
    × (3
        ≤ (run zero_disk disk 3 (
            out_packet (cbw_10 1 2 3 4 2 0 0 42 1 1)
            ∷ out_packet (8 ∷ 9 ∷ [])
            ∷ class_request 255
            ∷ [])).1)
run-IsMsc_example =
    run-IsMsc zero_disk (λ user. 4) (λ w. 3 ≤ w) zero_disk-Keeps opts disk 3
      (out_packet (cbw_10 1 2 3 4 2 0 0 42 1 1) ∷ out_packet (8 ∷ 9 ∷ []) ∷ class_request 255 ∷ [])
      (unfold build in refl) (omega arith)

disk-CanTransfer : CanTransfer mailbox disk [] 0 1 1
disk-CanTransfer = record {
  idle = refl;
  unit = unfold unit_count in omega arith;
  few = unfold unit_count in omega arith;
  lba_fits = omega arith;
  count_fits = omega arith;
  within = omega arith;
  some_bytes = omega arith;
  bytes_fit = omega arith;
}

write_10-stored_example :
    run mailbox disk [] (map out_packet (cbw_10 1 2 3 4 2 0 0 42 1 1 ∷ (8 ∷ []) ∷ (9 ∷ []) ∷ []))
    ≡ (
      after_write mailbox (1 ∷ 2 ∷ 3 ∷ 4 ∷ []) 0 0 1 1 disk [],
      8 ∷ 9 ∷ [],
      msc_csw (1 ∷ 2 ∷ 3 ∷ 4 ∷ []) 0 0,
    )
write_10-stored_example =
    write_10-stored mailbox 1 2 3 4 0 0 1 1 ((8 ∷ []) ∷ (9 ∷ []) ∷ []) disk [] disk-CanTransfer
      (unfold resolve lun_init in refl) refl

write-read_example :
    (run mailbox disk [] (
      map out_packet (cbw_10 1 2 3 4 2 0 0 42 1 1 ∷ (8 ∷ []) ∷ (9 ∷ []) ∷ [])
      ++ (out_packet (cbw_10 5 6 7 8 2 128 0 40 1 1) ∷ []))).2
    ≡ msc_csw (1 ∷ 2 ∷ 3 ∷ 4 ∷ []) 0 0 ++ (write_in (8 ∷ 9 ∷ []) ∷ msc_csw (5 ∷ 6 ∷ 7 ∷ 8 ∷ []) 0 0)
write-read_example =
    write-read mailbox 1 2 3 4 5 6 7 8 0 1 1 ((8 ∷ []) ∷ (9 ∷ []) ∷ []) disk [] (8 ∷ 9 ∷ [])
      (8 ∷ 9 ∷ []) disk-CanTransfer (unfold resolve lun_init in refl) refl (omega arith) refl refl
      refl refl

abbrev reading : Msc
reading = record disk { cbw_in = true }

status_read_example :
    (host_reads 1 2 4
        (perform_all fresh (msc_data_in reading (1 ∷ 2 ∷ 3 ∷ 4 ∷ []) 4 (8 ∷ 9 ∷ []) 2))
      ≡ ret_of 1 (8 ∷ 9 ∷ []) ∷ ret_of 2 (csw (1 ∷ 2 ∷ 3 ∷ 4 ∷ []) 2 0) ∷ [])
    × (host_reads 1 2 4 (perform_all fresh (msc_fail reading 0 (1 ∷ 2 ∷ 3 ∷ 4 ∷ []) 4 lba_range).1)
        ≡ stall_ret 1 ∷ ret_of 2 (csw (1 ∷ 2 ∷ 3 ∷ 4 ∷ []) 4 1) ∷ [])
status_read_example =
    status_read reading 0 1 2 4 2 (1 ∷ 2 ∷ 3 ∷ 4 ∷ []) (8 ∷ 9 ∷ []) lba_range refl (omega arith)
      (omega arith) refl (omega arith)

disk-IsUnit : IsUnit disk 0
disk-IsUnit = record {
  idle = refl;
  unit = unfold unit_count in omega arith;
  few = unfold unit_count in omega arith;
  held = unfold resolve in omega arith;
}

read_10-refused_example :
    (let r =
        run zero_disk disk 0
          (map out_packet (cbw_10 1 2 3 4 2 128 0 40 9 1 ∷ cbw_10 5 6 7 8 18 128 0 3 0 0 ∷ [])) in
      (r.1 ≡ 0)
      × (r.2
          ≡ (msc_stall_data_phase (record disk { cbw_in = true }) 2
              ++ msc_csw (1 ∷ 2 ∷ 3 ∷ 4 ∷ []) 2 1)
            ++ (write_in (sense_bytes lba_range) ∷ msc_csw (5 ∷ 6 ∷ 7 ∷ 8 ∷ []) 0 0))
      × ((lun_at r.0 0).sense ≡ sense_ok))
read_10-refused_example =
    read_10-refused zero_disk 1 2 3 4 5 6 7 8 2 128 0 9 1 disk 0 disk-IsUnit (omega arith)
      (omega arith) (omega arith) (omega arith)
