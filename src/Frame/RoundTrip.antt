-- ===== src/Frame/RoundTrip.antt =====
-- The two directions of the binary framing of http_network_relay/pydantic_models.py.
use http_network_relay.Prelude.{
  ◌+◌, ◌≤◌, ◌<◌, ◌≡◌, ◌⊎◌, inl, inr, Bool-cases, ltb, sym, ap, ◌∙◌, ◌++◌, Text, length, take, drop,
  slice, All, All-take, All-drop, take-append, drop-append, drop-drop, take_all, take-append-drop,
  length-take, length-drop, length-append, arith,
}
use http_network_relay.Exception.{Exception, ok, raise}
use http_network_relay.Frame.Hex.{
  Bytes, IsBytes, to_hex, fromhex, IsLowerHex, to_hex-IsLowerHex, length-to_hex, fromhex-to_hex,
  fromhex_lower,
}
use http_network_relay.Frame.{
  too_short, remove_dashes, uuid_text, encode_tcp_binary_frame, decode_tcp_binary_frame,
}
use http_network_relay.Frame.Uuid.{
  IsUuid, joined, Groups, uuid_split, remove_dashes-dashed, uuid_text-joined, joined-IsLowerHex,
  length-joined,
}

-- A canonical connection id stands for 16 bytes, of which it is the text.
uuid_bytes :
    (id : Text)
    → IsUuid id
    → (bs : Bytes) × (fromhex (remove_dashes id) ≡ ok bs)
      × (uuid_text (to_hex bs) ≡ id)
      × (length bs ≡ 16)
uuid_bytes id h =
    let (a, b, c, d, e, split, g) = uuid_split id h in
    let (bs, read, back, len) =
      fromhex_lower 16 (joined a b c d e) (length-joined a b c d e g)
        (joined-IsLowerHex a b c d e g) in
    (
      bs,
      ap (λ s. fromhex (remove_dashes s)) split
          ∙ (ap fromhex (remove_dashes-dashed a b c d e g) ∙ read),
      ap uuid_text back ∙ (uuid_text-joined a b c d e g ∙ sym split),
      len,
    )

decode-append :
    (bs payload : Bytes)
    → length bs ≡ 16
    → decode_tcp_binary_frame (bs ++ payload) ≡ ok (uuid_text (to_hex bs), payload)
unfolding decode_tcp_binary_frame
decode-append bs payload l =
    rw (take-append bs payload 16 l, drop-append bs payload 16 l)
      (ground (arith, length-append bs payload))

encode-ok :
    (id : Text) (payload bs : Bytes)
    → fromhex (remove_dashes id) ≡ ok bs
    → encode_tcp_binary_frame id payload ≡ ok (bs ++ payload)
unfolding encode_tcp_binary_frame
encode-ok id payload bs e = rw e

-- For a canonical connection id and any payload, framing succeeds with a frame that is 16 bytes
-- longer than the payload, and decoding that frame returns the same id and the same payload.
pub decode-encode :
    (id : Text) (payload : Bytes)
    → IsUuid id
    → (frame : Bytes) × (encode_tcp_binary_frame id payload ≡ ok frame)
      × (length frame ≡ 16 + length payload)
      × (decode_tcp_binary_frame frame ≡ ok (id, payload))
decode-encode id payload h =
    let (bs, read, back, len) = uuid_bytes id h in
    (
      bs ++ payload,
      encode-ok id payload bs read,
      omega (arith, length-append bs payload),
      decode-append bs payload len ∙ ap (λ t. ok (t, payload)) back,
    )

module _ (h : Text) (l : length h ≡ 32) (x : All IsLowerHex h) where
  slices-Groups :
      Groups (slice 0 8 h) (slice 8 12 h) (slice 12 16 h) (slice 16 20 h) (slice 20 32 h)
  slices-Groups = record {
    la = omega (arith, length-take 8 h);
    lb = omega (arith, length-take 4 (drop 8 h), length-drop 8 h);
    lc = omega (arith, length-take 4 (drop 12 h), length-drop 12 h);
    ld = omega (arith, length-take 4 (drop 16 h), length-drop 16 h);
    le = omega (arith, length-take 12 (drop 20 h), length-drop 20 h);
    ha = All-take _ 8 h x;
    hb = All-take _ 4 _ (All-drop _ 8 h x);
    hc = All-take _ 4 _ (All-drop _ 12 h x);
    hd = All-take _ 4 _ (All-drop _ 16 h x);
    he = All-take _ 12 _ (All-drop _ 20 h x);
  }

  joined-slices :
      joined (slice 0 8 h) (slice 8 12 h) (slice 12 16 h) (slice 16 20 h) (slice 20 32 h) ≡ h
  joined-slices = cc (
    take-append-drop 8 h,
    take-append-drop 4 (drop 8 h),
    drop-drop 4 8 h,
    take-append-drop 4 (drop 12 h),
    drop-drop 4 12 h,
    take-append-drop 4 (drop 16 h),
    drop-drop 4 16 h,
    take_all 12 (drop 20 h) (omega (arith, length-drop 20 h)),
  )

  remove_dashes-uuid_text : remove_dashes (uuid_text h) ≡ h
  unfolding uuid_text
  remove_dashes-uuid_text = remove_dashes-dashed _ _ _ _ _ slices-Groups ∙ joined-slices

-- A frame of bytes with at least 16 of them decodes, and encoding what it decodes to gives back
-- the same frame.
encode-decode :
    (frame : Bytes)
    → IsBytes frame
    → 16 ≤ length frame
    → (id : Text) × (payload : Bytes) × (decode_tcp_binary_frame frame ≡ ok (id, payload))
      × (encode_tcp_binary_frame id payload ≡ ok frame)
encode-decode frame bytes long =
    let head = take 16 frame in
    let l : length head ≡ 16 = omega (arith, length-take 16 frame) in
    let hex = to_hex head in
    (
      uuid_text hex,
      drop 16 frame,
      ap decode_tcp_binary_frame (sym (take-append-drop 16 frame))
          ∙ decode-append head (drop 16 frame) l,
      encode-ok (uuid_text hex) (drop 16 frame) head (
            ap fromhex (
              remove_dashes-uuid_text hex (omega (arith, length-to_hex head))
                (to_hex-IsLowerHex head (All-take _ 16 frame bytes)))
            ∙ fromhex-to_hex head (All-take _ 16 frame bytes))
          ∙ ap ok (take-append-drop 16 frame),
    )

-- Decoding raises on exactly the frames with fewer than 16 bytes, a `ValueError` with their length.
pub decode_raises_iff :
    (frame : Bytes)
    → ((x : Exception)
        → decode_tcp_binary_frame frame ≡ raise x
        → (length frame < 16) × (x ≡ too_short (length frame)))
      × (length frame < 16 → decode_tcp_binary_frame frame ≡ raise (too_short (length frame)))
unfolding decode_tcp_binary_frame
decode_raises_iff frame = (λ x h. ground arith, λ h. ground arith)

-- Decoding is total, and loses nothing: a frame of bytes either has fewer than 16 of them, and
-- decoding raises a `ValueError` with their length, or it decodes to an id and a payload, and
-- encoding these gives back the same frame.
pub decode_either :
    (frame : Bytes)
    → IsBytes frame
    → ((length frame < 16) × (decode_tcp_binary_frame frame ≡ raise (too_short (length frame))))
      ⊎ ((id : Text) × (payload : Bytes) × (decode_tcp_binary_frame frame ≡ ok (id, payload))
          × (encode_tcp_binary_frame id payload ≡ ok frame))
decode_either frame bytes = elim (Bool-cases (ltb (length frame) 16)) [
  | inl short ↦ inl (ground (arith, short), (decode_raises_iff frame).1 (ground (arith, short)))
  | inr long ↦ inr (encode-decode frame bytes (ground (arith, long)))
]
