-- ===== src/Session/EndToEnd.antt =====
-- What the host of src/usbip_host.c gets of what the device's application wrote, through every layer.
use usbip_c.Base.{ℕ, ◌+◌, ◌%◌, ◌^◌, ◌≤◌, ◌<◌, min, ◌≡◌, refl, ap, ◌∙◌, List, ◌∷◌, ◌++◌}
use usbip_c.Base.{Bool, false, none, some, arith, length, get_elem?, take, take-all}
use usbip_c.Wire.Header.{usb_in}
use usbip_c.Wire.HeaderLaws.{IsU32, submitted}
use usbip_c.Wire.Stream.{ok}
use usbip_c.Wire.Command.{Urb, client_submit}
use usbip_c.Wire.RoundTrip.{submit_in}
use usbip_c.Wire.Reply.{success, send_ret, client_code}
use usbip_c.Wire.ReplyLaws.{receive_in}
use usbip_c.Endpoint.State.{Dbuf, Ep}
use usbip_c.Control.Describe.{Ident}
use usbip_c.Control.State.{Classes}
use usbip_c.Device.State.{Pipe}
use usbip_c.Session.State.{Conn, ep_types, serve_round}
use usbip_c.Session.Host.{Handle, Transfer, next_seq, dir_of, exchange, data_transfer}
use usbip_c.Session.BulkIn.{slice, slice-bounds, dispatch-fetch, after_fetch, round-fetch}

-- an IN endpoint number with data queued, at the index `i` of the table
pub record HasData {World : Type 0} (conn : Conn World) (e i : ℕ) (ep : Ep) (d : Dbuf)
    (ds : List Dbuf) : Type 0 where
  pub number_pos : 0 < e
  pub number_fits : e < 16
  pub mapped : conn.dev.core.slot e usb_in ≡ some i
  pub present : get_elem? conn.dev.core.eps i ≡ some ep
  pub going : ep.halted ≡ false
  pub queued : ep.in_queue ≡ d ∷ ds
  pub unread : d.off < length d.bytes

module _ {World : Type 0} (classes : Classes World) (ident : Ident) (pipes : ℕ → Pipe World)
    (paced_on high_speed : Bool) (junk : ℕ → List ℕ) where
  -- The URB that the exporter reads of an IN transfer.
  abbrev pub urb_of : Urb → Handle → ℕ → ℕ → ℕ → Urb
  urb_of urb0 h e interval len =
      submitted urb0 (next_seq h).seq h.devid usb_in e interval 0 len none

  code_zero : client_code 0 ≡ success
  unfolding client_code
  code_zero = refl

  request_of :
      (h : Handle) (e interval len : ℕ) (buf : List ℕ)
      → e < 16
      → data_transfer h (128 + e) buf len interval ≡ exchange h usb_in e none interval buf len
  unfolding data_transfer
  request_of h e interval len buf small =
      ap (λ d. exchange h d ((128 + e) % 16) none interval buf len) {x = dir_of (128 + e)}
        {y = usb_in} (ground arith)
      ∙ ap (λ n. exchange h usb_in n none interval buf len) {y = e} (omega arith)

  -- A bulk or interrupt IN transfer of the host on an endpoint with data queued that is not halted: in
  -- one round of its loop the exporter reads exactly the request and writes one reply, and the host
  -- reads exactly that reply: success, with the next bytes that the device's application wrote, at
  -- least one and as many as the host asked for or as the first queued chunk still has.
  pub in_transfer_completes :
      (h : Handle) (e i interval len now : ℕ) (buf rest more : List ℕ) (urb0 : Urb)
      (conn : Conn World) (ep : Ep) (d : Dbuf) (ds : List Dbuf)
      → HasData conn e i ep d ds
      → IsU32 h.devid
      → IsU32 interval
      → 0 < len
      → len < 2 ^ 31
      → let t = data_transfer h (128 + e) buf len interval in
        let u = urb_of urb0 h e interval len in
        let data_sent = slice len d in
        let reply = send_ret u.seqnum h.devid usb_in e 0 data_sent (length data_sent) in
        (serve_round classes ident pipes paced_on high_speed junk conn now urb0 (t.request ++ rest)
          ≡ ok
              ((after_fetch classes ident pipes paced_on high_speed junk conn i ep u, reply), rest))
        × (t.receive (reply ++ more)
            ≡ ok (record { code = success; actual = length data_sent; bytes = data_sent }, more))
        × (0 < length data_sent)
        × (length data_sent ≤ len)
  in_transfer_completes h e i interval len now buf rest more urb0 conn ep d ds has hv hi pos small =
      let u = urb_of urb0 h e interval len in
      let seq = (next_seq h).seq in
      let bytes = slice len d in
      let n = length bytes in
      let (some_bytes, fits) = slice-bounds len d pos has.unread in
      let t = request_of h e interval len buf has.number_fits in
      (
        ap
              (λ (x : Transfer).
                serve_round classes ident pipes paced_on high_speed junk conn now urb0
                  (x.request ++ rest))
              t
            ∙ round-fetch classes ident pipes paced_on high_speed junk conn now i urb0 u ep d ds
                (client_submit seq h.devid usb_in e none interval buf len ++ rest) rest
                (submit_in (ep_types classes ident pipes paced_on high_speed junk conn.dev) urb0 seq
                  h.devid e interval len none buf rest (omega arith) hv
                  (omega (arith, has.number_fits)) hi small refl)
                refl refl has.number_pos
                (dispatch-fetch classes ident pipes paced_on high_speed junk conn.dev now i ep u
                  has.number_pos has.number_fits refl refl small has.mapped has.present has.going)
                has.queued,
        ap (λ (x : Transfer). x.receive (send_ret seq h.devid usb_in e 0 bytes n ++ more)) t
            ∙ receive_in seq h.devid e 0 n len bytes more (omega arith) some_bytes (omega arith)
                refl
            ∙ ap
                (λ c.
                  ok
                    (record { code = c; actual = min n len; bytes = take (min n len) bytes }, more))
                code_zero
            ∙ ap (λ m. ok (record { code = success; actual = m; bytes = take m bytes }, more))
                {y = n} (omega (arith, fits))
            ∙ ap (λ b. ok (record { code = success; actual = n; bytes = b }, more))
                (take-all n bytes (omega arith)),
        some_bytes,
        fits,
      )
