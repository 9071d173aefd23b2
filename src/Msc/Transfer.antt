-- ===== src/Msc/Transfer.antt =====
-- Commands from the host's side: the CBW that it sends, and the data phase of a write
-- (src/classes/device/msc.c).
use usbip_c.Base.{ℕ, ◌+◌, ◌-◌, ◌%◌, ◌^◌, ◌≤◌, ◌<◌, ◌≡◌, refl, sym, ap, ◌∙◌}
use usbip_c.Base.{
  inl, inr, List, [], ◌∷◌, ◌++◌, map, append-nil, append_assoc, true, false, arith, Bool-cases,
}
use usbip_c.Base.{leb, if◌then◌else◌, le→ltb, length, take, take-all, length-append}
use usbip_c.Msc.State.{Backend, Msc, lun_at, Action, msc_csw}
use usbip_c.Msc.Dispatch.{
  take_data, status_of, write_ends, write_data, is_cbw, command, on_out, out_packet, step, run,
}

-- ---- the data phase of a write ----

abbrev pub concat : List (List ℕ) → List ℕ
concat [] = []
concat (p ∷ ps) = p ++ concat ps

-- The write that a data phase ends with: `bytes` are the whole data.
abbrev pub stored :
    {World : Type 0} → Backend World → Msc → World → List ℕ → Msc × World × List Action
stored backend st w bytes =
    let (rc, w') = backend.write w (lun_at st st.wlun).user st.wlba st.wcount bytes in
    (
      record st { writing = false; wgot = st.wneed; wbuf = [] },
      w',
      msc_csw st.wtag 0 (status_of backend rc),
    )

module _ {World : Type 0} (backend : Backend World) where
  take_data-fits :
      (st : Msc) (packet : List ℕ)
      → st.wgot + length packet ≤ st.wneed
      → st.wneed < 2 ^ 32
      → take_data backend st packet
        ≡ record st { wbuf = st.wbuf ++ packet; wgot = st.wgot + length packet }
  unfolding take_data
  take_data-fits st packet h k =
      ap
        (λ b.
          let taken = if b then (st.wneed + (2 ^ 32 - st.wgot)) % 2 ^ 32 else length packet in
          record st { wbuf = st.wbuf ++ take taken packet; wgot = (st.wgot + taken) % 2 ^ 32 })
        (le→ltb st.wneed ((st.wgot + length packet) % 2 ^ 32) (omega arith))
      ∙ ap (λ t. record st { wbuf = st.wbuf ++ t; wgot = (st.wgot + length packet) % 2 ^ 32 })
          (take-all (length packet) packet (omega arith))
      ∙ ap (λ g. record st { wbuf = st.wbuf ++ packet; wgot = g }) (omega arith)

  -- the rest of a run, after a packet
  abbrev pub then_run : Msc × World × List Action → List (List ℕ) → Msc × World × List Action
  then_run r ps =
      let (st', w', more) = run backend r.0 r.1 (map out_packet ps) in (st', w', r.2 ++ more)

  pub run-packet :
      (st : Msc) (w : World) (p : List ℕ) (ps : List (List ℕ)) (r : Msc × World × List Action)
      → on_out backend st w p ≡ r
      → run backend st w (map out_packet (p ∷ ps)) ≡ then_run r ps
  unfolding run step
  run-packet st w p ps r e = ap (λ x. then_run x ps) e

  pub on_out-idle :
      (st : Msc) (w : World) (p : List ℕ)
      → st.writing ≡ false
      → on_out backend st w p ≡ (if is_cbw p then command backend st w p else (st, w, []))
  unfolding on_out
  on_out-idle st w p q =
      ap
        (λ b.
          if b
          then write_data backend st w p
          else if is_cbw p
          then command backend st w p
          else (st, w, []))
        q

  on_out-writing :
      (st : Msc) (w : World) (p : List ℕ)
      → st.writing ≡ true
      → on_out backend st w p ≡ write_data backend st w p
  unfolding on_out
  on_out-writing st w p q =
      ap
        (λ b.
          if b
          then write_data backend st w p
          else if is_cbw p
          then command backend st w p
          else (st, w, []))
        q

  -- Outside a data phase an empty packet is dropped.
  run-empty :
      (st : Msc) (w : World) (ps : List (List ℕ))
      → st.writing ≡ false
      → length (concat ps) ≡ 0
      → run backend st w (map out_packet ps) ≡ (st, w, [])
  run-empty st w [] q h = unfold run in refl
  run-empty st w ([] ∷ ps) q h =
      run-packet st w [] ps (st, w, []) (on_out-idle st w [] q)
      ∙ ap (λ (r : Msc × World × List Action). (r.0, r.1, r.2)) (run-empty st w ps q h)
  run-empty st w ((b ∷ p) ∷ ps) q h = absurd (omega arith)

  -- a packet of the data phase that is not more than what is left of it
  write_data-fits :
      (st : Msc) (w : World) (p : List ℕ)
      → st.wgot + length p ≤ st.wneed
      → st.wneed < 2 ^ 32
      → write_data backend st w p ≡ (
          if leb st.wneed (st.wgot + length p)
          then write_ends backend (record st { wbuf = st.wbuf ++ p; wgot = st.wgot + length p }) w
          else (record st { wbuf = st.wbuf ++ p; wgot = st.wgot + length p }, w, []))
  unfolding write_data
  write_data-fits st w p h k =
      ap (λ (st' : Msc). if leb st'.wneed st'.wgot then write_ends backend st' w else (st', w, []))
        (take_data-fits st p h k)

  no_bytes : (xs : List ℕ) → length xs ≡ 0 → xs ≡ []
  no_bytes [] h = refl
  no_bytes (x ∷ xs) h = absurd (omega arith)

  -- after the packet that completes the data
  last_packet :
      (p : List ℕ) (ps : List (List ℕ)) (st : Msc) (w : World)
      → st.wgot + length p ≡ st.wneed
      → length (concat ps) ≡ 0
      → then_run
          (write_ends backend (record st { wbuf = st.wbuf ++ p; wgot = st.wgot + length p }) w)
          ps
        ≡ stored backend st w (st.wbuf ++ (p ++ concat ps))
  unfolding write_ends
  last_packet p ps st w h z =
      let st' : Msc = record st { wbuf = st.wbuf ++ p; wgot = st.wgot + length p } in
      let r = write_ends backend st' w in
      ap (λ (x : Msc × World × List Action). (x.0, x.1, r.2 ++ x.2)) (run-empty r.0 r.1 ps refl z)
      ∙ ap (λ n. let s = stored backend st w (st.wbuf ++ p) in (record s.0 { wgot = n }, s.1, s.2))
          h
      ∙ ap (λ t. stored backend st w (st.wbuf ++ t))
          (sym (append-nil p) ∙ ap (λ t. p ++ t) (sym (no_bytes (concat ps) z)))

  -- The data phase of a write ends, once its data has come in packets of any sizes, with one
  -- `write` of the whole data and the status of the command.
  pub data_phase-stored :
      (ps : List (List ℕ)) (st : Msc) (w : World)
      → st.writing ≡ true
      → st.wgot < st.wneed
      → st.wneed < 2 ^ 32
      → st.wgot + length (concat ps) ≡ st.wneed
      → run backend st w (map out_packet ps) ≡ stored backend st w (st.wbuf ++ concat ps)
  data_phase-stored [] st w q l k h = absurd (omega arith)
  data_phase-stored (p ∷ ps) st w q l k h =
      let total : length (p ++ concat ps) ≡ length p + length (concat ps) =
        length-append p (concat ps) in
      let st' : Msc = record st { wbuf = st.wbuf ++ p; wgot = st.wgot + length p } in
      let first = on_out-writing st w p q ∙ write_data-fits st w p (omega arith) k in
      elim (Bool-cases (leb st.wneed (st.wgot + length p))) [
        | inl e ↦
            run-packet st w p ps (write_ends backend st' w)
              (first ∙ ap (λ b. if b then write_ends backend st' w else (st', w, [])) e)
            ∙ last_packet p ps st w (ground arith) (ground arith)
        | inr e ↦
            run-packet st w p ps (st', w, [])
              (first ∙ ap (λ b. if b then write_ends backend st' w else (st', w, [])) e)
            ∙ ap (λ (r : Msc × World × List Action). (r.0, r.1, r.2))
                (data_phase-stored ps st' w q (ground arith) k (omega arith))
            ∙ ap (stored backend st w) (append_assoc st.wbuf p (concat ps))
      ]
