-- ===== src/Wire/ReplyLaws.antt =====
-- What the importer makes of a reply (src/usbip.c): it stays in step with the stream.
use usbip_c.Base.{ℕ, zero, suc, ◌-◌, ◌^◌, ◌<◌, ◌≤◌, ◌≡◌, refl, ap, sym, ◌∙◌, List, [], ◌∷◌, ◌++◌}
use usbip_c.Base.{length, arith, take, drop, put_at}
use usbip_c.Base.{append_assoc, take-all, ltb, lt→ltb, if◌then◌else◌}
use usbip_c.Base.{take-append-drop, length-take, length-drop, min}
use usbip_c.Base.Bytes.{be32, get_be32, bytes32}
use usbip_c.Wire.Header.{put_basic_hdr}
use usbip_c.Wire.Header.{ret_submit, usb_out, usb_in}
use usbip_c.Wire.Stream.{ok, readn, readn-append, ◌>>=◌}
use usbip_c.Wire.Reply.{send_ret, drain, receive_data, client_receive, client_code}
use usbip_c.Wire.HeaderLaws.{IsU32}

-- the chunk of one round
abbrev chunk_of : ℕ → ℕ
chunk_of rest = if ltb rest 256 then rest else 256

drain_step :
    (fuel : ℕ) (bytes rest : List ℕ)
    → 0 < length bytes
    → drain (suc fuel) (length bytes) (bytes ++ rest)
      ≡ drain fuel
          (length bytes - chunk_of (length bytes))
          (drop (chunk_of (length bytes)) bytes ++ rest)
unfolding drain
drain_step fuel bytes rest pos = rw (lt→ltb 0 (length bytes) pos) (rw (split, drain) refl)
  where
    n : ℕ
    n = chunk_of (length bytes)

    small : n ≤ length bytes
    small = ground arith

    split : readn n (bytes ++ rest) ≡ ok (take n bytes, drop n bytes ++ rest)
    split =
        ap (readn n) (
          ap (λ b. b ++ rest) (sym (take-append-drop n bytes))
          ∙ append_assoc (take n bytes) (drop n bytes) rest)
        ∙ readn-append n (take n bytes) (drop n bytes ++ rest)
            (omega (arith, small, length-take n bytes))

chunk_pos : (n : ℕ) → 0 < n → (0 < chunk_of n) × (chunk_of n ≤ n)
chunk_pos n h = ground arith

drain_nil : (fuel : ℕ) (rest : List ℕ) → drain fuel 0 rest ≡ ok (tt, rest)
unfolding drain
drain_nil zero rest = refl
drain_nil (suc fuel) rest = refl

-- The loop leaves exactly what follows the `rest` bytes.
drain-append :
    (fuel n : ℕ) (bytes rest : List ℕ)
    → length bytes ≡ n
    → n ≤ fuel
    → drain fuel n (bytes ++ rest) ≡ ok (tt, rest)
drain-append fuel n [] rest e h = rw (← e) (drain_nil fuel rest)
drain-append zero n (b ∷ bytes) rest e h = absurd (omega arith)
drain-append (suc fuel) n (b ∷ bytes) rest e h = rw (← e) (
    drain_step fuel (b ∷ bytes) rest (omega arith)
    ∙ drain-append fuel (suc (length bytes) - chunk_of (suc (length bytes)))
        (drop (chunk_of (suc (length bytes))) (b ∷ bytes)) rest
        (length-drop (chunk_of (suc (length bytes))) (b ∷ bytes))
        (omega (arith, chunk_pos (suc (length bytes)) (omega arith))))

-- the header of a RET_SUBMIT
abbrev ret_hdr : ℕ → ℕ → ℕ → ℕ → ℕ → ℕ → List ℕ
ret_hdr seqnum devid direction ep status actual =
    put_at 24 (be32 actual)
      (put_at 20 (be32 status) (put_basic_hdr ret_submit seqnum devid direction ep))

module _ (seqnum devid direction ep status actual : ℕ) (hs : IsU32 status) (ha : IsU32 actual) where
  abbrev hdr : List ℕ
  hdr = ret_hdr seqnum devid direction ep status actual

  ret_hdr_fields : (length hdr ≡ 48) × (get_be32 hdr 20 ≡ status) × (get_be32 hdr 24 ≡ actual)
  unfolding put_basic_hdr
  ret_hdr_fields = (refl, bytes32 status hs, bytes32 actual ha)

  client_receive-hdr :
      (dir len : ℕ) (rest : List ℕ) (act : ℕ) (bytes after : List ℕ)
      → receive_data dir len actual rest ≡ ok ((act, bytes), after)
      → client_receive dir len (hdr ++ rest)
        ≡ ok (record { code = client_code status; actual = act; bytes = bytes }, after)
  unfolding client_receive
  client_receive-hdr dir len rest act bytes after e =
      let (l, s, a) = ret_hdr_fields in
      rw (readn-append 48 hdr rest l, ◌>>=◌) (rw (a, s) (rw (e, ◌>>=◌)))

abbrev fit : ℕ → ℕ → ℕ
fit act len = if ltb act len then act else len

fit-min : (act len : ℕ) → fit act len ≡ min act len
fit-min act len = ground arith

receive_data-append :
    (len act : ℕ) (bytes rest : List ℕ)
    → 0 < act
    → act < 2 ^ 31
    → length bytes ≡ act
    → receive_data usb_in len act (bytes ++ rest)
      ≡ ok ((fit act len, take (fit act len) bytes), rest)
unfolding receive_data
receive_data-append len act bytes rest pos small l =
    rw (lt→ltb 0 act pos, lt→ltb act (2 ^ 31) small)
      (rw (split, ◌>>=◌)
        (rw (
          drain-append (act - k) (act - k) (drop k bytes) rest (omega (arith, length-drop k bytes))
              (omega arith),
          ◌>>=◌,
        )))
  where
    k : ℕ
    k = fit act len

    split : readn k (bytes ++ rest) ≡ ok (take k bytes, drop k bytes ++ rest)
    split =
        ap (readn k) (
          ap (λ b. b ++ rest) (sym (take-append-drop k bytes))
          ∙ append_assoc (take k bytes) (drop k bytes) rest)
        ∙ readn-append k (take k bytes) (drop k bytes ++ rest)
            (omega (arith, fit-min act len, length-take k bytes))

-- An IN reply of the exporter, read with room for `len` bytes: the importer gets the status, the
-- smaller of the two lengths and the data up to it, and is left at the first byte behind the
-- reply, also where the reply is longer than asked for.
pub receive_in :
    (seqnum devid ep status actual len : ℕ) (bytes rest : List ℕ)
    → IsU32 status
    → 0 < actual
    → actual < 2 ^ 31
    → length bytes ≡ actual
    → client_receive usb_in len (send_ret seqnum devid usb_in ep status bytes actual ++ rest)
      ≡ ok (
        record {
          code = client_code status;
          actual = min actual len;
          bytes = take (min actual len) bytes;
        },
        rest,
      )
receive_in seqnum devid ep status actual len bytes rest hs pos small l =
    rw (written, append_assoc)
      (client_receive-hdr seqnum devid usb_in ep status actual hs (omega arith) usb_in len
        (bytes ++ rest) (min actual len) (take (min actual len) bytes) rest
        (rw (← fit-min actual len) (receive_data-append len actual bytes rest pos small l)))
  where
    written :
        send_ret seqnum devid usb_in ep status bytes actual
        ≡ ret_hdr seqnum devid usb_in ep status actual ++ bytes
    written =
        unfold send_ret in
        rw (lt→ltb 0 actual pos, lt→ltb actual (2 ^ 31) small)
          (rw (take-all actual bytes (omega arith)))

-- A reply to an OUT transfer carries no data: the importer gets the status and the
-- count, and is left behind the header.
pub receive_out :
    (seqnum devid ep status actual len : ℕ) (bytes rest : List ℕ)
    → IsU32 status
    → IsU32 actual
    → client_receive usb_out len (send_ret seqnum devid usb_out ep status bytes actual ++ rest)
      ≡ ok (record { code = client_code status; actual = actual; bytes = [] }, rest)
receive_out seqnum devid ep status actual len bytes rest hs ha =
    rw (written, append_assoc)
      (client_receive-hdr seqnum devid usb_out ep status actual hs ha usb_out len rest actual []
        rest (unfold receive_data in refl))
  where
    written :
        send_ret seqnum devid usb_out ep status bytes actual
        ≡ ret_hdr seqnum devid usb_out ep status actual ++ []
    written = unfold send_ret in refl
