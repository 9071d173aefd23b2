-- ===== src/Hid/Echo.antt =====
-- The echo of the last Input report (src/classes/device/hid.c).
use usbip_c.Base.{
  ℕ, ◌≡◌, refl, ap, ◌∙◌, List, [], ◌∷◌, Option, none, some, Bool, ◌&&◌, ◌==◌, if◌then◌else◌,
  if_both, lt→ltb, arith, length, take,
}
use usbip_c.Dfu.State.{Setup, req_type, usb_class}
use usbip_c.Hid.State.{
  Opts, Hid, Request, get_report, get_idle, get_protocol, set_report, set_idle, set_protocol,
  unknown, decode, report_or_echo, ask, answer, control, send_report, Input, request, out_report,
  in_report, step, run,
}

--- The last report that the application sent, cut to 64 bytes; an empty one does not count.
abbrev pub latest : List Input → List ℕ → List ℕ
latest [] before = before
latest (request setup buf len ∷ is) before = latest is before
latest (out_report bytes ∷ is) before = latest is before
latest (in_report [] ∷ is) before = latest is before
latest (in_report (b ∷ bs) ∷ is) before = latest is (take 64 (b ∷ bs))

kept_whole :
    (st : Hid) (b : ℕ) (bs : List ℕ) → (send_report st (b ∷ bs)).last_input ≡ take 64 (b ∷ bs)
unfolding send_report
kept_whole st b bs =
    ap (λ (t : Bool). (if t then record st { last_input = take 64 (b ∷ bs) } else st).last_input)
      (lt→ltb 0 (length (take 64 (b ∷ bs))) (omega arith))

module _ {World : Type 0} (opts : Opts World) where
  abbrev Kept : Hid → Option (List ℕ) × Hid × World → Type 0
  Kept st r = r.1.last_input ≡ st.last_input

  echo-keeps :
      (st : Hid) (len : ℕ) (got : Option (List ℕ) × World)
      → Kept st (report_or_echo opts st len got)
  echo-keeps st len (none, w) = refl
  echo-keeps st len (some bytes, w) = refl

  answer-keeps :
      (r : Request) (st : Hid) (w : World) (msb lsb : ℕ) (buf : List ℕ) (len : ℕ)
      → Kept st (answer opts r st w msb lsb buf len)
  unfolding answer
  answer-keeps get_report st w msb lsb buf len = echo-keeps st len (ask opts w msb lsb len)
  answer-keeps set_report st w msb lsb buf len = refl
  answer-keeps get_idle st w msb lsb buf len = refl
  answer-keeps set_idle st w msb lsb buf len = refl
  answer-keeps get_protocol st w msb lsb buf len = refl
  answer-keeps set_protocol st w msb lsb buf len = refl
  answer-keeps unknown st w msb lsb buf len = refl

  control-keeps :
      (st : Hid) (w : World) (setup : Setup) (buf : List ℕ) (len : ℕ)
      → Kept st (control opts st w setup buf len)
  unfolding control
  control-keeps st w setup buf len =
      if_both (Kept st) (req_type setup.request_type == 0 && setup.request == 6) _ _ refl (
        if_both (Kept st) (req_type setup.request_type == usb_class) _ _
          (answer-keeps (decode setup.request) st w _ _ buf len) refl)

  run-last_input :
      (st : Hid) (w : World) (is : List Input)
      → (run opts st w is).0.last_input ≡ latest is st.last_input
  unfolding run step send_report
  run-last_input st w [] = refl
  run-last_input st w (request setup buf len ∷ is) =
      run-last_input _ _ is ∙ ap (latest is) (control-keeps st w setup buf len)
  run-last_input st w (out_report bytes ∷ is) = run-last_input st _ is
  run-last_input st w (in_report [] ∷ is) = run-last_input st w is
  run-last_input st w (in_report (b ∷ bs) ∷ is) =
      run-last_input (send_report st (b ∷ bs)) w is ∙ ap (latest is) (kept_whole st b bs)

  control-get_report :
      (st : Hid) (w : World) (setup : Setup) (buf : List ℕ) (len : ℕ)
      → setup.request_type ≡ 0xa1
      → setup.request ≡ 1
      → opts.get_report ≡ none
      → (control opts st w setup buf len).0 ≡ some (take len st.last_input)
  unfolding control answer
  control-get_report st w setup buf len class is_get unset = rw (class, is_get, unset) refl

  -- Where the application has no get_report, GET_REPORT answers the last Input report that was sent,
  -- cut to 64 bytes and to wLength, whatever requests and reports came in between.
  pub report_echoed :
      (st : Hid) (w v : World) (is : List Input) (setup : Setup) (buf : List ℕ) (len : ℕ)
      → setup.request_type ≡ 0xa1
      → setup.request ≡ 1
      → opts.get_report ≡ none
      → (control opts (run opts st w is).0 v setup buf len).0
        ≡ some (take len (latest is st.last_input))
  report_echoed st w v is setup buf len class is_get unset =
      control-get_report (run opts st w is).0 v setup buf len class is_get unset
      ∙ ap (λ (last : List ℕ). some (take len last)) (run-last_input st w is)
