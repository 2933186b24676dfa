-- ===== src/Crypto/Replay.antt =====
-- internal/crypto/crypto.go: the sliding window of ReplayWindow. A uint64 is the list of its 64 bits,
-- the lowest first.
pub mod Bits
pub mod Shift
pub mod Window
pub mod Refines
use flexbraid.Prelude.{
  ℕ, zero, suc, ◌+◌, ◌-◌, ◌*◌, ◌/◌, ◌%◌, ◌^◌, Bool, true, false, ◌&&◌, ◌||◌, not, List, [], ◌∷◌,
  ◌++◌, length, take, drop, replicate, get_or, ltb, leb, ◌==◌, if◌then◌else◌,
}

abbrev pub zero_word : List Bool
zero_word = replicate 64 false

-- w >> n and w << n
abbrev pub shr : ℕ → List Bool → List Bool
shr n w = drop n w ++ replicate n false

abbrev pub shl : ℕ → List Bool → List Bool
shl n w = replicate n false ++ take (64 - n) w

abbrev pub bit_or : List Bool → List Bool → List Bool
bit_or [] w = []
bit_or (a ∷ v) [] = a ∷ v
bit_or (a ∷ v) (b ∷ w) = (a || b) ∷ bit_or v w

-- A word of the shifted bitmap, from the word at `src` and those behind it.
unfoldable pub shift_word : ℕ → List Bool → List (List Bool) → List Bool
shift_word s w [] = shr s w
shift_word s w (next ∷ ws) = if s == 0 then shr s w else bit_or (shr s w) (shl (64 - s) next)

unfoldable pub shift_words : ℕ → List (List Bool) → List (List Bool)
unfolding shift_word
shift_words s [] = []
shift_words s (w ∷ ws) = shift_word s w ws ∷ shift_words s ws

-- The loop of `shiftRight` reads each word before it writes it, so that it works on the old words.
unfoldable pub shift_right : ℕ → List (List Bool) → List (List Bool)
unfolding shift_words
shift_right n bits =
    let word_shift = n / 64 in
    if leb (length bits) word_shift
    then replicate (length bits) zero_word
    else shift_words (n % 64) (drop word_shift bits) ++ replicate word_shift zero_word

-- The bit `i` of the bitmap, and the bitmap with it set.
abbrev pub bit_at : ℕ → List (List Bool) → Bool
bit_at i bits = get_or (get_or bits (i / 64) zero_word) (i % 64) false

abbrev pub set_at {ℓ} : {A : Type ℓ} → ℕ → A → List A → List A
set_at i a [] = []
set_at zero a (x ∷ xs) = a ∷ xs
set_at (suc i) a (x ∷ xs) = x ∷ set_at i a xs

unfoldable pub set_bit : ℕ → List (List Bool) → List (List Bool)
set_bit i bits = set_at (i / 64) (set_at (i % 64) true (get_or bits (i / 64) zero_word)) bits

pub record ReplayWindow : Type 0 where
  pub window : ℕ
  pub base : ℕ
  pub bits : List (List Bool)

unfoldable pub new_replay_window : ℕ → ReplayWindow
new_replay_window size =
    let n = if size == 0 then 4096 else size in
    record { window = n; base = 0; bits = replicate ((n + 63) / 64) zero_word }

-- The window slid forward, where the seq lies ahead of it.
unfoldable pub slide : ℕ → ReplayWindow → ReplayWindow
unfolding shift_right
slide seq w =
    if leb w.window (seq - w.base)
    then record w {
      bits = shift_right (seq - w.base - w.window + 1) w.bits;
      base = (seq + 2 ^ 32 - w.window + 1) % 2 ^ 32;
    }
    else w

unfoldable pub mark : ℕ → ReplayWindow → Bool × ReplayWindow
unfolding set_bit
mark seq w =
    let bit = seq - w.base in
    if bit_at bit w.bits then (false, w) else (true, record w { bits = set_bit bit w.bits })

-- Whether the seq is new; it is marked as seen.
unfoldable pub check_and_mark : ℕ → ReplayWindow → Bool × ReplayWindow
unfolding slide mark
check_and_mark seq w = if ltb seq w.base then (false, w) else mark seq (slide seq w)
