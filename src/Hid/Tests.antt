-- ===== src/Hid/Tests.antt =====
-- A keyboard whose reports are polled over the control pipe (src/classes/device/hid.c).
use usbip_c.Base.{ℕ, ◌≡◌, refl, List, [], ◌∷◌, none, some, true}
use usbip_c.Dfu.State.{Setup}
use usbip_c.Hid.State.{
  Opts, build, interval_error, closer, closest, encode_interval, control, Input, request,
  out_report, in_report, run,
}
use usbip_c.Hid.Echo.{report_echoed}

-- the application keeps the reports that the host sends
abbrev keyboard : Opts (List (List ℕ))
keyboard = record {
  report_desc = 5 ∷ 1 ∷ 9 ∷ 6 ∷ [];
  country = 0;
  get_report = none;
  set_report = none;
  on_output = some (λ w report. report ∷ w);
}

abbrev get_input : Setup
get_input = record { request_type = 0xa1; request = 1; value = 256; index = 0; length = 8 }

abbrev set_idle_request : Setup
set_idle_request = record {
  request_type = 0x21;
  request = 10;
  value = 0x7d00;
  index = 0;
  length = 0;
}

abbrev inputs : List Input
inputs =
    in_report (0 ∷ 0 ∷ 4 ∷ [])
    ∷ request set_idle_request [] 0
    ∷ out_report (2 ∷ [])
    ∷ in_report []
    ∷ []

-- 10 ms is nearest to 8 ms, not to 16 ms.
ten_ms : encode_interval true 10 ≡ 7
unfolding encode_interval closest closer interval_error
ten_ms = refl

report_echoed_example :
    (control keyboard (run keyboard build [] inputs).0 [] get_input [] 8).0 ≡ some (0 ∷ 0 ∷ 4 ∷ [])
report_echoed_example = report_echoed keyboard build [] [] inputs get_input [] 8 refl refl refl
