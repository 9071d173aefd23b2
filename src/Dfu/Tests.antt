-- ===== src/Dfu/Tests.antt =====
-- A download to a store that keeps a log of its writes (src/classes/device/dfu.c).
use usbip_c.Base.{ℕ, ◌≡◌, refl, List, [], ◌∷◌, ◌++◌, none, some, arith, inl}
use usbip_c.Dfu.State.{Dfu, Target, select, build, run, step, control, handle}
use usbip_c.Dfu.State.{download_block, block_taken, after_status}
use usbip_c.Dfu.Laws.{IsDfu, run-IsDfu}
use usbip_c.Dfu.Download.{End, host_download, dnload_request, get_status_request, download_stores}

abbrev Log : Type 0
Log = List (ℕ × List ℕ)

-- takes every block, and empties the log on `begin`
abbrev flash : ℕ → Target Log
flash n = record {
  write = λ w off bytes. (0, w ++ ((off, bytes) ∷ []));
  read = λ w off want. (some [], w);
  begin = some (λ w. []);
  finish = none;
}

-- refuses every block with errADDRESS
abbrev locked : ℕ → Target Log
locked n = record {
  write = λ w off bytes. (8, w);
  read = λ w off want. (some [], w);
  begin = none;
  finish = none;
}

abbrev one_target : Dfu
one_target = record { transfer_size = 64; n_targets = 1; cur = 0; state = 2; status = 0 }

one_target-IsDfu : IsDfu one_target
one_target-IsDfu = record {
  size_pos = omega arith;
  size_fits = omega arith;
  few_targets = omega arith;
  target_exists = inl (omega arith);
  machine = inl (refl, inl refl);
}

refused :
    (run locked one_target [] (dnload_request 0 (1 ∷ []) ∷ get_status_request ∷ [])).0.state ≡ 10
unfolding run step control handle download_block block_taken after_status
refused = refl

run-IsDfu_example :
    IsDfu
      (run locked
        (build 64 1)
        []
        (dnload_request 0 (1 ∷ []) ∷ get_status_request ∷ select 0 ∷ [])).0
run-IsDfu_example =
    run-IsDfu locked 64 1 [] (dnload_request 0 (1 ∷ []) ∷ get_status_request ∷ select 0 ∷ [])

download_stores_example :
    End (run flash one_target ((7, []) ∷ []) (host_download 0 ((1 ∷ 2 ∷ []) ∷ (3 ∷ []) ∷ [])))
    ≡ (one_target, (0, 1 ∷ 2 ∷ []) ∷ (64, 3 ∷ []) ∷ [])
download_stores_example =
    download_stores flash one_target ((7, []) ∷ []) (1 ∷ 2 ∷ []) ((3 ∷ []) ∷ [])
      (λ w off bytes. refl) one_target-IsDfu refl (omega arith)
      ((omega arith, omega arith), ((omega arith, omega arith), tt))
