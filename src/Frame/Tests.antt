-- ===== src/Frame/Tests.antt =====
-- Runs of the frame codec, and its theorems at concrete frames.
use flexbraid.Prelude.{ℕ, ◌≡◌, refl, List, [], ◌∷◌, arith}
use flexbraid.Frame.{
  Frame, IsFrame, ok, err, bad_magic, too_short, encode, decode, decode_header, header,
}

abbrev ping : Frame
ping = record {
  version = 0;
  flags = 2;
  session_id = 0x0102030405060708;
  seq = 258;
  block_seq = 0;
  payload = 7 ∷ 9 ∷ [];
}

abbrev ping_bytes : List ℕ
ping_bytes =
    70 ∷ 76 ∷ 88 ∷ 66 ∷ 2 ∷ 2 ∷ 0 ∷ 0 ∷ 1 ∷ 2 ∷ 3 ∷ 4 ∷ 5 ∷ 6 ∷ 7 ∷ 8 ∷ 0 ∷ 0 ∷ 1 ∷ 2 ∷ 0 ∷ 0 ∷ 0
    ∷ 0 ∷ 0 ∷ 2 ∷ 0 ∷ 0 ∷ 7 ∷ 9 ∷ []

ping-IsFrame : IsFrame ping
ping-IsFrame = omega arith

encode-ping : encode ping ≡ ok ping_bytes
unfolding encode header
encode-ping = refl

decode-ping : decode ping_bytes ≡ ok (record ping { version = 2 })
unfolding decode decode_header
decode-ping = refl

decode_errors : (decode [] ≡ err too_short) × (decode (0 ∷ ping_bytes) ≡ err bad_magic)
unfolding decode decode_header
decode_errors = (refl, refl)
