-- ===== src/Frame.antt =====
-- internal/frame/frame.go: the wire frame, its header codec and its errors.
pub mod Flag
pub mod RoundTrip
mod Tests
use Prim.Native.Nat.{bit_and, bit_or}
use flexbraid.Prelude.{
  ℕ, ◌+◌, ◌-◌, ◌^◌, ◌≤◌, ◌<◌, Bool, not, List, [], ◌∷◌, ◌++◌, length, get_or, drop, put16, put32,
  put64, uint16, uint32, uint64, ltb, ◌==◌, if◌then◌else◌,
}

abbrev pub magic : ℕ
magic = 0x464C5842

abbrev pub version : ℕ
version = 2

abbrev pub header_size : ℕ
header_size = 28

abbrev pub tag_size : ℕ
tag_size = 16

abbrev pub max_payload : ℕ
max_payload = 2 ^ 16 - 1

-- A byte is a number; `IsFrame` states the ranges that Go's field types give.
pub record Frame : Type 0 where
  pub version : ℕ
  pub flags : ℕ
  pub session_id : ℕ
  pub seq : ℕ
  pub block_seq : ℕ
  pub payload : List ℕ

pub record IsFrame (f : Frame) : Type 0 where
  pub flags_in : f.flags < 256
  pub session_in : f.session_id < 2 ^ 64
  pub seq_in : f.seq < 2 ^ 32
  pub block_in : f.block_seq < 2 ^ 32

pub data Error : Type 0 where
  payload_too_large too_short bad_magic bad_version length_mismatch : Error

pub data Result {ℓ} (A : Type ℓ) : Type ℓ where
  ok : A → Result A
  err : Error → Result A

infixl 5 ◌>>=◌
abbrev pub ◌>>=◌ {ℓ κ} : {A : Type ℓ} {B : Type κ} → Result A → (A → Result B) → Result B
ok a >>= f = f a
err e >>= f = err e

unfoldable pub has_flag : Frame → ℕ → Bool
has_flag f flag = not (bit_and f.flags flag == 0)

-- The header as the writes into the zeroed buffer leave it; the two gaps are the reserved bytes.
unfoldable pub header : Frame → List ℕ
header f =
    put32 magic
    ++ (version ∷ f.flags ∷ 0 ∷ 0 ∷ [])
    ++ put64 f.session_id
    ++ put32 f.seq
    ++ put32 f.block_seq
    ++ put16 (length f.payload)
    ++ (0 ∷ 0 ∷ [])

unfoldable pub encode : Frame → Result (List ℕ)
encode f =
    if ltb max_payload (length f.payload) then err payload_too_large else ok (header f ++ f.payload)

unfoldable pub decode_header : List ℕ → Result Frame
decode_header b =
    if ltb (length b) header_size
    then err too_short
    else if not (uint32 b 0 == magic)
    then err bad_magic
    else if not (get_or b 4 0 == version)
    then err bad_version
    else ok (record {
      version = get_or b 4 0;
      flags = get_or b 5 0;
      session_id = uint64 b 8;
      seq = uint32 b 16;
      block_seq = uint32 b 20;
      payload = [];
    })

unfoldable pub decode : List ℕ → Result Frame
decode b = decode_header b >>= λ f.
    if not (length b == header_size + uint16 b 24)
    then err length_mismatch
    else ok (record f { payload = drop header_size b })
