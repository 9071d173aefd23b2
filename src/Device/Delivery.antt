-- ===== src/Device/Delivery.antt =====
-- An isochronous OUT transfer, from the importer's buffer to the class (src/usbip.c,
-- src/usbip_device.c).
use usbip_c.Base.{ℕ, zero, suc, ◌⊎◌, inl, inr, if_both, ◌+◌, ◌^◌, ◌≤◌, ◌<◌, ◌≡◌, refl, sym, ap, ◌∙◌}
use usbip_c.Base.{List, [], ◌∷◌, ◌++◌, map, Bool, true, false, Option, none, some, arith}
use usbip_c.Base.{leb, ◌==◌, if◌then◌else◌, length, take, drop, take-append-drop, drop-all}
use usbip_c.Wire.Header.{IsoPkt, usb_in, usb_out}
use usbip_c.Wire.Command.{Urb, gather_out, as_request}
use usbip_c.Endpoint.Stream.{drop-drop}
use usbip_c.Control.Describe.{Ident}
use usbip_c.Control.State.{Classes, Effect}
use usbip_c.Wire.Reply.{total_actual}
use usbip_c.Pacing.State.{iso_deadline}
use usbip_c.Device.State.{
  Dev, Pipe, Sent, iso_ret, or_empty, copied, bytes_of, lengths, sum, join_slots, de_pad, completed,
  call_consume, complete_iso, after_callback, perform_all, plain, iso_in, iso_out, dispatch_iso,
}

-- The packets lie back to back, from `off` on.
abbrev pub IsPacked : ℕ → List IsoPkt → Type 0
IsPacked off [] = Unit
IsPacked off (p ∷ ps) = (p.offset ≡ off) × IsPacked (off + p.length) ps

-- Taking packed slots one after the other gives the data from the first slot on.
gather_out-packed :
    (off : ℕ) (pkts : List IsoPkt) (buf : List ℕ)
    → IsPacked off pkts
    → off + sum (lengths pkts) ≡ length buf
    → gather_out pkts buf ≡ drop off buf
unfolding gather_out sum
gather_out-packed off [] buf h l = sym (drop-all off buf (omega (arith, l)))
gather_out-packed off (p ∷ ps) buf (h, hs) l =
    ap (λ o. take p.length (drop o buf) ++ gather_out ps buf) h
    ∙ ap (λ t. take p.length (drop off buf) ++ t)
        (gather_out-packed (off + p.length) ps buf hs (omega (arith, l))
          ∙ sym (drop-drop off p.length buf))
    ∙ take-append-drop p.length (drop off buf)

de_pad-fits :
    (junk : ℕ → List ℕ) (bytes : List ℕ) (p : IsoPkt) (ps : List IsoPkt)
    → p.offset + p.length ≤ length bytes
    → length bytes < 2 ^ 32
    → de_pad junk bytes (p ∷ ps)
      ≡ join_slots (some (take p.length (drop p.offset bytes))) (de_pad junk bytes ps)
unfolding de_pad
de_pad-fits junk bytes p ps h k =
    let slot = take p.length (drop p.offset bytes) in
    ap
      (λ b.
        join_slots
          (if b
            then if leb (p.offset + p.length) (length bytes) then some slot else none
            else some (junk p.length))
          (de_pad junk bytes ps))
      {y = true} (ground arith)
    ∙ ap (λ b. join_slots (if b then some slot else none) (de_pad junk bytes ps)) {y = true}
        (ground arith)

-- The request's descriptors keep offset and length.
de_pad-packed :
    (junk : ℕ → List ℕ) (bytes : List ℕ) (off : ℕ) (pkts : List IsoPkt)
    → IsPacked off pkts
    → off + sum (lengths pkts) ≡ length bytes
    → length bytes < 2 ^ 32
    → de_pad junk bytes (map as_request pkts) ≡ some (drop off bytes)
unfolding sum
de_pad-packed junk bytes off [] h l k =
    unfold de_pad in ap some (sym (drop-all off bytes (omega (arith, l))))
de_pad-packed junk bytes off (p ∷ ps) (h, hs) l k =
    de_pad-fits junk bytes (as_request p) (map as_request ps) (omega (arith, h, l)) k
    ∙ ap
        (λ o.
          join_slots (some (take p.length (drop o bytes))) (de_pad junk bytes (map as_request ps)))
        h
    ∙ ap (join_slots (some (take p.length (drop off bytes))))
        (de_pad-packed junk bytes (off + p.length) ps hs (omega (arith, l)) k)
    ∙ ap (λ t. some (take p.length (drop off bytes) ++ t)) (sym (drop-drop off p.length bytes))
    ∙ ap some (take-append-drop p.length (drop off bytes))

lengths-as_request : (pkts : List IsoPkt) → lengths (map as_request pkts) ≡ lengths pkts
lengths-as_request [] = refl
lengths-as_request (p ∷ ps) = ap (λ t. p.length ∷ t) (lengths-as_request ps)

-- a packet that was transferred whole
abbrev pub whole : IsoPkt → IsoPkt
whole p = record { offset = p.offset; length = p.length; actual_length = p.length; status = 0 }

completed-whole :
    (pkts : List IsoPkt) → completed (map as_request pkts) (lengths pkts) ≡ map whole pkts
unfolding completed
completed-whole [] = refl
completed-whole (p ∷ ps) = ap (λ t. whole p ∷ t) (completed-whole ps)

take_nil : (n : ℕ) → take {A = ℕ} n [] ≡ []
take_nil zero = refl
take_nil (suc n) = refl

module _ {World : Type 0} (classes : Classes World) (ident : Ident) (pipes : ℕ → Pipe World)
    (paced_on high_speed : Bool) (junk : ℕ → List ℕ) where
  -- How a URB completes with these packets and no data: the reply at once, or a paced completion.
  abbrev pub Completes : Dev World → ℕ → List IsoPkt → Dev World × List Sent → Type 0
  Completes dev seq iso r =
      ((r.1 ≡ iso_ret seq iso [] ∷ []) × (r.0.paced ≡ dev.paced))
      ⊎ ((r.1 ≡ [])
          × (deadline : ℕ) × (r.0.paced
              ≡ record { deadline_us = deadline; seqnum = seq; iso = iso; bytes = [] } ∷ dev.paced))

  complete_iso-Completes :
      (dev : Dev World) (now i : ℕ) (u : Urb) (iso : List IsoPkt)
      → Completes dev u.seqnum iso
          (complete_iso classes ident pipes paced_on high_speed junk dev now i u iso [])
  unfolding complete_iso
  complete_iso-Completes dev now i u iso =
      let none_left = take_nil (total_actual iso) in
      let deadline =
        iso_deadline (dev.deadlines i) now high_speed (pipes i).interval u.number_of_packets in
      if_both (Completes dev u.seqnum iso) paced_on _ _
        (inr (
          refl,
          deadline,
          ap
              (λ (b : List ℕ).
                record { deadline_us = deadline; seqnum = u.seqnum; iso = iso; bytes = b }
                ∷ dev.paced)
              none_left,
        ))
        (inl (ap (λ b. iso_ret u.seqnum iso b ∷ []) none_left, refl))

  complete_iso-world :
      (dev : Dev World) (now i : ℕ) (u : Urb) (iso : List IsoPkt)
      → (complete_iso classes ident pipes paced_on high_speed junk dev now i u iso []).0.world
        ≡ dev.world
  unfolding complete_iso
  complete_iso-world dev now i u iso =
      if_both (λ (r : Dev World × List Sent). r.0.world ≡ dev.world) paced_on _ _ refl refl

  after_callback-alone :
      (dev : Dev World) (now i : ℕ) (u : Urb) (iso : List IsoPkt)
      → classes.outbox dev.world ≡ ([], dev.world)
      → after_callback classes ident pipes paced_on high_speed junk dev now i u iso []
        ≡ complete_iso classes ident pipes paced_on high_speed junk dev now i u iso []
  unfolding after_callback perform_all
  after_callback-alone dev now i u iso alone =
      ap
        (λ (o : List Effect × World).
          let (core, rets) = perform_all dev.core o.0 in
          let (dev1, sent) =
            complete_iso classes ident pipes paced_on high_speed junk
              (record dev { core = core; world = o.1 }) now i u iso [] in
          (dev1, map plain rets ++ sent))
        alone

  packed_dispatch :
      (dev : Dev World) (now i : ℕ) (u : Urb) (pkts : List IsoPkt) (buf : List ℕ)
      → u.direction ≡ usb_out
      → u.iso ≡ map as_request pkts
      → u.data_bytes ≡ some (gather_out pkts buf)
      → IsPacked 0 pkts
      → sum (lengths pkts) ≡ length buf
      → length buf < 2 ^ 32
      → dispatch_iso classes ident pipes paced_on high_speed junk dev now i u
        ≡ some (
            after_callback classes ident pipes paced_on high_speed junk
              (record dev { world = call_consume (pipes i).consume dev.world (lengths pkts) buf })
              now
              i
              u
              (completed (map as_request pkts) (lengths pkts))
              [])
  unfolding dispatch_iso iso_out
  packed_dispatch dev now i u pkts buf d e b h l k =
      let gathered : gather_out pkts buf ≡ buf =
        gather_out-packed 0 pkts buf h (omega (arith, l)) in
      let lens : lengths u.iso ≡ lengths pkts = ap lengths e ∙ lengths-as_request pkts in
      let total : sum (lengths u.iso) ≡ length buf = ap sum lens ∙ l in
      let finish : List ℕ → List IsoPkt → Option (Dev World × List Sent) = λ ls iso. some (
        after_callback classes ident pipes paced_on high_speed junk
          (record dev { world = call_consume (pipes i).consume dev.world ls buf }) now i u
          (completed iso ls) []) in
      ap
        (λ b.
          if b
          then none
          else if u.direction == usb_in
          then some (iso_in classes ident pipes paced_on high_speed junk dev now i u)
          else copied classes ident pipes paced_on high_speed junk dev now i u
              (de_pad junk (bytes_of u) u.iso))
        {y = false} (ground (arith, total))
      ∙ ap
          (λ n.
            if n == usb_in
            then some (iso_in classes ident pipes paced_on high_speed junk dev now i u)
            else copied classes ident pipes paced_on high_speed junk dev now i u
                (de_pad junk (bytes_of u) u.iso))
          d
      ∙ ap (copied classes ident pipes paced_on high_speed junk dev now i u) (
          ap (λ bytes. de_pad junk bytes u.iso) (ap or_empty b ∙ gathered)
          ∙ ap (de_pad junk buf) e
          ∙ de_pad-packed junk buf 0 pkts h (omega (arith, l)) k)
      ∙ ap (λ ls. finish ls u.iso) lens
      ∙ ap (finish (lengths pkts)) e

  -- An isochronous OUT URB as usbip_client_submit_iso sends it (its packets, without results, and the
  -- data gathered from their slots) whose packets lie back to back and fill a buffer of less than 2^32
  -- bytes, where the class's callback does nothing to endpoints: no buffer is overrun, the class's callback gets the packets' lengths and exactly the bytes
  -- of the importer's buffer, whatever malloc() left in the exporter's, and the URB completes, at once
  -- or paced, under its own sequence number with the same packets, each with its whole length as the
  -- actual length and status 0, and with no data.
  pub iso_out_delivered :
      (dev : Dev World) (now i : ℕ) (u : Urb) (pkts : List IsoPkt) (buf : List ℕ)
      → u.direction ≡ usb_out
      → u.iso ≡ map as_request pkts
      → u.data_bytes ≡ some (gather_out pkts buf)
      → IsPacked 0 pkts
      → sum (lengths pkts) ≡ length buf
      → length buf < 2 ^ 32
      → (let w = call_consume (pipes i).consume dev.world (lengths pkts) buf in
          classes.outbox w ≡ ([], w))
      → (r : Dev World × List Sent) × (dispatch_iso classes ident pipes paced_on high_speed junk dev
            now i u
          ≡ some r)
        × (r.0.world ≡ call_consume (pipes i).consume dev.world (lengths pkts) buf)
        × Completes dev u.seqnum (map whole pkts) r
  iso_out_delivered dev now i u pkts buf d e b h l k alone =
      let dev' : Dev World = record dev {
        world = call_consume (pipes i).consume dev.world (lengths pkts) buf;
      } in
      (
        complete_iso classes ident pipes paced_on high_speed junk dev' now i u (map whole pkts) [],
        packed_dispatch dev now i u pkts buf d e b h l k
            ∙ ap
                (λ iso.
                  some (
                    after_callback classes ident pipes paced_on high_speed junk dev' now i u iso
                      []))
                (completed-whole pkts)
            ∙ ap some (after_callback-alone dev' now i u (map whole pkts) alone),
        complete_iso-world dev' now i u (map whole pkts),
        complete_iso-Completes dev' now i u (map whole pkts),
      )
