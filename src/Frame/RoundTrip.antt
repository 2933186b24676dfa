-- ===== src/Frame/RoundTrip.antt =====
-- internal/frame/frame.go: Encode against DecodeHeader and Decode.
use flexbraid.Prelude.{
  ℕ, ◌≤◌, ◌≡◌, ◌↔◌, List, [], ◌++◌, length, ◌<◌, ◌+◌, length-drop, arith, uint16-put16,
  uint32-put32, uint64-put64,
}
use flexbraid.Frame.{
  Frame, IsFrame, ok, err, payload_too_large, header_size, max_payload, version, header, encode,
  decode_header, decode,
}

-- The header of any frame parses, whatever follows it.
decode_header-header :
    (f : Frame) (rest : List ℕ)
    → IsFrame f
    → decode_header (header f ++ rest) ≡ ok (record f { version = version; payload = [] })
unfolding decode_header header
decode_header-header f rest v = ground (
  arith,
  uint64-put64 f.session_id v.session_in,
  uint32-put32 f.seq v.seq_in,
  uint32-put32 f.block_seq v.block_in,
)

decode-header :
    (f : Frame)
    → IsFrame f
    → length f.payload ≤ max_payload
    → decode (header f ++ f.payload) ≡ ok (record f { version = version })
unfolding decode header
decode-header f v fits =
    ground
      (arith, decode_header-header f f.payload v, uint16-put16 (length f.payload) (omega arith))

-- Encode accepts a payload that fits the length field, and Decode reads the frame back: every field
-- survives but the version, which Encode sets.
pub decode-encode :
    (f : Frame)
    → IsFrame f
    → length f.payload ≤ max_payload
    → (b : List ℕ) × (encode f ≡ ok b)
      × (length b ≡ header_size + length f.payload)
      × (decode b ≡ ok (record f { version = version }))
unfolding encode
decode-encode f v fits =
    (header f ++ f.payload, ground arith, unfold header in omega arith, decode-header f v fits)

-- Encode fails exactly on payloads of more than 65535 bytes.
pub encode_fails_iff :
    (f : Frame) → (encode f ≡ err payload_too_large) ↔ (max_payload < length f.payload)
unfolding encode
encode_fails_iff f = ground arith

-- A decoded payload fills the buffer behind the header exactly.
pub length-decode :
    (b : List ℕ) {f : Frame} → decode b ≡ ok f → length b ≡ header_size + length f.payload
unfolding decode decode_header
length-decode b e = ground (arith, length-drop header_size b)
