-- ===== src/Prelude/Bytes.antt =====
-- Go's `encoding/binary` big-endian accessors on byte lists.
use Prim.Native.Nat.{ℕ, ◌+◌, ◌*◌, ◌/◌, ◌%◌, ◌^◌, ◌<◌}
use mathlib.Core.Path.{◌≡◌}
use mathlib.Core.List.{List, [], ◌∷◌}
use native.Mathlib.Omega.{arith}
use flexbraid.Prelude.Lists.{get_or}

-- PutUint16, PutUint32 and PutUint64 as the bytes that they write.
abbrev pub put16 : ℕ → List ℕ
put16 n = (n / 256 % 256) ∷ (n % 256) ∷ []

abbrev pub put32 : ℕ → List ℕ
put32 n = (n / 2 ^ 24 % 256) ∷ (n / 2 ^ 16 % 256) ∷ (n / 256 % 256) ∷ (n % 256) ∷ []

abbrev pub put64 : ℕ → List ℕ
put64 n =
    (n / 2 ^ 56 % 256)
    ∷ (n / 2 ^ 48 % 256)
    ∷ (n / 2 ^ 40 % 256)
    ∷ (n / 2 ^ 32 % 256)
    ∷ (n / 2 ^ 24 % 256)
    ∷ (n / 2 ^ 16 % 256)
    ∷ (n / 256 % 256)
    ∷ (n % 256)
    ∷ []

-- Uint16, Uint32 and Uint64 of the slice that starts at an offset.
abbrev pub uint16 : List ℕ → ℕ → ℕ
uint16 b o = get_or b o 0 * 256 + get_or b (o + 1) 0

abbrev pub uint32 : List ℕ → ℕ → ℕ
uint32 b o =
    get_or b o 0 * 2 ^ 24
    + get_or b (o + 1) 0 * 2 ^ 16
    + get_or b (o + 2) 0 * 256
    + get_or b (o + 3) 0

abbrev pub uint64 : List ℕ → ℕ → ℕ
uint64 b o = uint32 b o * 2 ^ 32 + uint32 b (o + 4)

pub uint16-put16 : (n : ℕ) → n < 2 ^ 16 → n / 256 % 256 * 256 + n % 256 ≡ n
uint16-put16 n h = omega arith

pub uint32-put32 :
    (n : ℕ)
    → n < 2 ^ 32
    → n / 2 ^ 24 % 256 * 2 ^ 24 + n / 2 ^ 16 % 256 * 2 ^ 16 + n / 256 % 256 * 256 + n % 256 ≡ n
uint32-put32 n h = omega arith

pub uint64-put64 :
    (n : ℕ)
    → n < 2 ^ 64
    → (n / 2 ^ 56 % 256 * 2 ^ 24
            + n / 2 ^ 48 % 256 * 2 ^ 16
            + n / 2 ^ 40 % 256 * 256
            + n / 2 ^ 32 % 256)
          * 2 ^ 32
        + (n / 2 ^ 24 % 256 * 2 ^ 24 + n / 2 ^ 16 % 256 * 2 ^ 16 + n / 256 % 256 * 256 + n % 256)
      ≡ n
uint64-put64 n h = omega arith
