-- ===== src/Session/BulkIn.antt =====
-- A bulk or interrupt IN transfer from end to end (src/usbip_host.c, src/usbip.c,
-- src/usbip_device.c).
use usbip_c.Base.{ℕ, ◌+◌, ◌-◌, ◌≤◌, ◌<◌, ◌≡◌, refl, ap, ◌∙◌, List, [], ◌∷◌}
use usbip_c.Base.{Bool, true, false, ◌&&◌, Option, none, some, arith, append-nil, map}
use usbip_c.Base.{
  ltb, leb, lt→ltb, get_or, ◌^◌, ◌==◌, if◌then◌else◌, if_both, ==_refl, length, get_elem?,
}
use usbip_c.Base.{take, drop, length-take, length-drop}
use usbip_c.Wire.Header.{cmd_submit, cmd_unlink, usb_in, usb_iso}
use usbip_c.Wire.Stream.{ok}
use usbip_c.Wire.Command.{Urb, positive32, read_cmd}
use usbip_c.Wire.Reply.{send_ret_unlink, send_ret}
use usbip_c.Endpoint.State.{Dbuf, Ep, Pending, Ret, clip, serve_in, stall_ret}
use usbip_c.Control.Describe.{Ident}
use usbip_c.Control.State.{Classes}
use usbip_c.Device.State.{
  handle_unlink, Dev, Pipe, Sent, plain, ret, fetch, deliver, dispatch_iso, dispatch_at,
  dispatch_control, look_up, with_index, at_index, at_endpoint, dispatch,
}
use usbip_c.Session.State.{
  Conn, sends_data, ep_types, dispatched, answer_cmd, encode, encode_all, serve_round,
}

-- the slice of the first queued chunk that a URB of `len` bytes gets
abbrev pub slice : ℕ → Dbuf → List ℕ
slice len d = take (clip len (length d.bytes - d.off)) (drop d.off d.bytes)

serve_in-slice :
    (d : Dbuf) (ds : List Dbuf) (ep : Ep) (p : Pending)
    → (serve_in (d ∷ ds) ep p).1
      ≡ record { seqnum = p.seqnum; status = 0; bytes = slice p.length d } ∷ []
unfolding serve_in
serve_in-slice d ds ep p =
    let chunk = clip p.length (length d.bytes - d.off) in
    if_both
      (λ (r : Ep × List Ret).
        r.1 ≡ record { seqnum = p.seqnum; status = 0; bytes = slice p.length d } ∷ [])
      (leb (length d.bytes) (d.off + chunk)) _ _ refl refl

-- A URB of at least one byte gets one to `len` bytes of a chunk that is not used up.
pub slice-bounds :
    (len : ℕ) (d : Dbuf)
    → 0 < len
    → d.off < length d.bytes
    → (0 < length (slice len d)) × (length (slice len d) ≤ len)
slice-bounds len d h k =
    let n = clip len (length d.bytes - d.off) in
    let small : n ≤ len = ground arith in
    let some_bytes : 0 < n = ground arith in
    let fits : n ≤ length d.bytes - d.off = ground arith in
    (
      omega (arith, length-take n (drop d.off d.bytes), length-drop d.off d.bytes),
      omega (arith, length-take n (drop d.off d.bytes)),
    )

module _ {World : Type 0} (classes : Classes World) (ident : Ident) (pipes : ℕ → Pipe World)
    (paced_on high_speed : Bool) (junk : ℕ → List ℕ) where
  pub dispatch-fetch :
      (dev : Dev World) (now i : ℕ) (ep : Ep) (u : Urb)
      → 0 < u.ep
      → u.ep < 16
      → u.direction ≡ usb_in
      → u.number_of_packets ≡ 0
      → u.length < 2 ^ 31
      → dev.core.slot u.ep u.direction ≡ some i
      → get_elem? dev.core.eps i ≡ some ep
      → ep.halted ≡ false
      → dispatch classes ident pipes paced_on high_speed junk dev now u
        ≡ some (fetch classes ident pipes paced_on high_speed junk dev i ep u)
  unfolding dispatch dispatch_at
  dispatch-fetch dev now i ep u pos small dir none_iso short found there going =
      let stop = plain (stall_ret u.seqnum) ∷ [] in
      let control = dispatch_control classes ident pipes paced_on high_speed junk dev u in
      let moved : Option (ℕ × Ep) → Option (Dev World × List Sent) =
        at_endpoint classes ident pipes paced_on high_speed junk dev now u in
      let iso = dispatch_iso classes ident pipes paced_on high_speed junk dev now i u in
      let got = some (fetch classes ident pipes paced_on high_speed junk dev i ep u) in
      let given = some (deliver classes ident pipes paced_on high_speed junk dev i ep u) in
      let by_type : ℕ → Option (Dev World × List Sent) = λ n.
        if ((pipes i).type == usb_iso) && positive32 n
        then iso
        else if u.direction == usb_in
        then if ltb u.length (2 ^ 31) then got else none
        else given in
      let found_at = moved (look_up dev.core u) in
      ap
        (λ b.
          if b then some control else if ltb u.ep 16 && leb 2 u.direction then none else found_at)
        {y = false} (ground arith)
      ∙ ap (λ n. if ltb u.ep 16 && leb 2 n then none else found_at) dir
      ∙ ap (λ b. if b then none else found_at) {y = false} (ground arith)
      ∙ ap (λ b. moved (if b then at_index dev.core (dev.core.slot u.ep u.direction) else none))
          {y = true} (ground arith)
      ∙ ap (λ o. moved (at_index dev.core o)) found
      ∙ ap (λ o. moved (with_index i o)) there
      ∙ ap (λ b. if b then some (dev, stop) else by_type u.number_of_packets) going
      ∙ ap by_type none_iso
      ∙ ap
          (λ b.
            if b
            then iso
            else if u.direction == usb_in
            then if ltb u.length (2 ^ 31) then got else none
            else given)
          {y = false} (ground arith)
      ∙ ap (λ n. if n == usb_in then if ltb u.length (2 ^ 31) then got else none else given) dir
      ∙ ap (λ b. if b then got else none) (lt→ltb u.length (2 ^ 31) short)

  fetch-slice :
      (dev : Dev World) (i : ℕ) (ep : Ep) (u : Urb) (d : Dbuf) (ds : List Dbuf)
      → ep.in_queue ≡ d ∷ ds
      → (fetch classes ident pipes paced_on high_speed junk dev i ep u).1
        ≡ ret u.seqnum 0 (slice u.length d) ∷ []
  unfolding fetch
  fetch-slice dev i ep u d ds e =
      let pend : Pending = record { seqnum = u.seqnum; length = u.length } in
      ap (λ q. map plain (serve_in q ep pend).1) e ∙ ap (map plain) (serve_in-slice d ds ep pend)

  -- the reply to the URB itself
  encode-own :
      (urbs : ℕ → Urb) (u : Urb) (bytes : List ℕ)
      → u.direction ≡ usb_in
      → 0 < u.ep
      → encode_all (λ seq. if seq == u.seqnum then u else urbs seq) (ret u.seqnum 0 bytes ∷ [])
        ≡ send_ret u.seqnum u.devid usb_in u.ep 0 bytes (length bytes)
  unfolding encode_all encode
  encode-own urbs u bytes dir pos =
      append-nil _
      ∙ ap
          (λ b.
            let v = if b then u else urbs u.seqnum in
            send_ret u.seqnum v.devid v.direction v.ep 0 bytes
              (if sends_data v then length bytes else v.data_len))
          (==_refl u.seqnum)
      ∙ ap
          (λ b. send_ret u.seqnum u.devid u.direction u.ep 0 bytes (
            if if b then leb 128 (get_or u.setup 0 0) else u.direction == usb_in
            then length bytes
            else u.data_len))
          {y = false} (ground arith)
      ∙ ap
          (λ n.
            send_ret u.seqnum u.devid n u.ep 0 bytes
              (if n == usb_in then length bytes else u.data_len))
          dir

  -- where the connection goes on
  abbrev pub after_fetch : Conn World → ℕ → Ep → Urb → Conn World
  after_fetch conn i ep u = record {
    dev = (fetch classes ident pipes paced_on high_speed junk conn.dev i ep u).0;
    urbs = λ seq. if seq == u.seqnum then u else conn.urbs seq;
  }

  pub round-fetch :
      (conn : Conn World) (now i : ℕ) (urb0 u : Urb) (ep : Ep) (d : Dbuf) (ds : List Dbuf)
      (s rest : List ℕ)
      → read_cmd (ep_types classes ident pipes paced_on high_speed junk conn.dev) urb0 s
        ≡ ok (u, rest)
      → u.command ≡ cmd_submit
      → u.direction ≡ usb_in
      → 0 < u.ep
      → dispatch classes ident pipes paced_on high_speed junk conn.dev now u
        ≡ some (fetch classes ident pipes paced_on high_speed junk conn.dev i ep u)
      → ep.in_queue ≡ d ∷ ds
      → serve_round classes ident pipes paced_on high_speed junk conn now urb0 s
        ≡ ok (
          (
            after_fetch conn i ep u,
            send_ret u.seqnum u.devid usb_in u.ep 0 (slice u.length d) (length (slice u.length d)),
          ),
          rest,
        )
  unfolding serve_round
  round-fetch conn now i urb0 u ep d ds s rest e cmd dir pos got q =
      let f = fetch classes ident pipes paced_on high_speed junk conn.dev i ep u in
      let after = after_fetch conn i ep u in
      ap (answer_cmd classes ident pipes paced_on high_speed junk conn now) e
      ∙ ap
          (λ n.
            if n == cmd_unlink
            then ok (
              (
                record conn {
                  dev =
                      handle_unlink classes ident pipes paced_on high_speed junk conn.dev
                        u.unlink_seqnum;
                },
                send_ret_unlink u.seqnum 0,
              ),
              rest,
            )
            else dispatched classes ident pipes paced_on high_speed junk conn u
                (dispatch classes ident pipes paced_on high_speed junk conn.dev now u) rest)
          cmd
      ∙ ap (λ o. dispatched classes ident pipes paced_on high_speed junk conn u o rest) got
      ∙ ap (λ sent. ok ((after, encode_all after.urbs sent), rest))
          (fetch-slice conn.dev i ep u d ds q)
      ∙ ap (λ bytes. ok ((after, bytes), rest)) (encode-own conn.urbs u (slice u.length d) dir pos)
