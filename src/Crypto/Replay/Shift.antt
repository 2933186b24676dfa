-- ===== src/Crypto/Replay/Shift.antt =====
-- internal/crypto/crypto.go: what shiftRight, the test of a bit and its setting do to the bitmap as one
-- list of bits.
use flexbraid.Prelude.{
  ℕ, zero, suc, ◌+◌, ◌-◌, ◌*◌, ◌/◌, ◌%◌, ◌<◌, ◌≡◌, refl, ap, ◌∙◌, sym, Bool, true, false, List, [],
  ◌∷◌, ◌++◌, length, drop, replicate, get_or, ltb, leb, ◌==◌, if◌then◌else◌, arith, All, All-append,
  Bool-cases, inl, inr, if-true, length-append, length-replicate, length-drop,
}
use flexbraid.Crypto.Replay.{zero_word, shift_words, shift_right, bit_at, set_at, set_bit}
use flexbraid.Crypto.Replay.Bits.{
  flat, IsWord, get, get-append, get_beyond, get-replicate, get-shift_words, length-shift_word,
}

flat-append : (a b : List (List Bool)) (i : ℕ) → get (flat (a ++ b)) i ≡ get (flat a ++ flat b) i
flat-append [] b i = refl
flat-append (w ∷ a) b i =
    get-append w (flat (a ++ b)) i
    ∙ ground (
      arith,
      flat-append a b (i - length w),
      get-append (w ++ flat a) (flat b) i,
      get-append w (flat a) i,
      get-append (flat a) (flat b) (i - length w),
      length-append w (flat a),
    )

pub get-zeros : (m i : ℕ) → get (flat (replicate m zero_word)) i ≡ false
get-zeros zero i = refl
get-zeros (suc m) i = elim (Bool-cases (ltb i 64)) [
  | inl low ↦
      get-append zero_word (flat (replicate m zero_word)) i ∙ if-true _ _ low ∙ get-replicate 64 i
  | inr high ↦
      get-append zero_word (flat (replicate m zero_word)) i ∙ ground (arith, get-zeros m (i - 64))
]

length-flat : (ws : List (List Bool)) → All IsWord ws → length (flat ws) ≡ 64 * length ws
length-flat [] h = refl
length-flat (w ∷ ws) h = omega (arith, length-append w (flat ws), length-flat ws h.1, h.0)

IsWord-drop : (k : ℕ) (ws : List (List Bool)) → All IsWord ws → All IsWord (drop k ws)
IsWord-drop zero ws h = h
IsWord-drop (suc k) [] h = tt
IsWord-drop (suc k) (w ∷ ws) h = IsWord-drop k ws h.1

get-flat-drop :
    (k : ℕ) (ws : List (List Bool)) (i : ℕ)
    → All IsWord ws
    → get (flat (drop k ws)) i ≡ get (flat ws) (i + 64 * k)
get-flat-drop zero ws i h = ap (get (flat ws)) (omega arith)
get-flat-drop (suc k) [] i h = refl
get-flat-drop (suc k) (w ∷ ws) i h =
    ground (arith, get-flat-drop k ws i h.1, get-append w (flat ws) (i + 64 * (k + 1)), h.0)

pub IsWord-zeros : (m : ℕ) → All IsWord (replicate m zero_word)
IsWord-zeros zero = tt
IsWord-zeros (suc m) = (refl, IsWord-zeros m)

IsWord-shift_words :
    (s : ℕ) (ws : List (List Bool)) → s < 64 → All IsWord ws → All IsWord (shift_words s ws)
unfolding shift_words
IsWord-shift_words s [] hs h = tt
IsWord-shift_words s (w ∷ ws) hs h =
    (length-shift_word s w ws hs h.0 h.1, IsWord-shift_words s ws hs h.1)

length-shift_words : (s : ℕ) (ws : List (List Bool)) → length (shift_words s ws) ≡ length ws
unfolding shift_words
length-shift_words s [] = refl
length-shift_words s (w ∷ ws) = ap suc (length-shift_words s ws)

get_then_zeros :
    (a : List (List Bool)) (m i : ℕ)
    → get (flat a ++ flat (replicate m zero_word)) i ≡ get (flat a) i
get_then_zeros a m i =
    get-append (flat a) (flat (replicate m zero_word)) i
    ∙ ground (arith, get-zeros m (i - length (flat a)), get_beyond (flat a) i)

-- The words are shifted as one list of bits, and stay words.
pub shift_right-get :
    (n : ℕ) (ws : List (List Bool)) (i : ℕ)
    → All IsWord ws
    → get (flat (shift_right n ws)) i ≡ get (flat ws) (i + n)
unfolding shift_right
shift_right-get n ws i h = elim (Bool-cases (leb (length ws) (n / 64))) [
  | inl all ↦
      rw (all, shift_right)
        (get-zeros (length ws) i
          ∙ sym (get_beyond (flat ws) (i + n) (ground (arith, length-flat ws h))))
  | inr part ↦
      rw (part, shift_right)
        (flat-append (shift_words (n % 64) (drop (n / 64) ws)) (replicate (n / 64) zero_word) i
          ∙ get_then_zeros (shift_words (n % 64) (drop (n / 64) ws)) (n / 64) i
          ∙ get-shift_words (n % 64) (drop (n / 64) ws) i (omega arith) (IsWord-drop (n / 64) ws h)
          ∙ get-flat-drop (n / 64) ws (i + n % 64) h
          ∙ ap (get (flat ws)) (omega arith))
]

pub shift_right-IsWord :
    (n : ℕ) (ws : List (List Bool))
    → All IsWord ws
    → All IsWord (shift_right n ws) × (length (shift_right n ws) ≡ length ws)
unfolding shift_right
shift_right-IsWord n ws h = elim (Bool-cases (leb (length ws) (n / 64))) [
  | inl all ↦
      rw (all, shift_right) (IsWord-zeros (length ws), length-replicate (length ws) zero_word)
  | inr part ↦
      rw (part, shift_right)
        (
          All-append IsWord _ _
              (IsWord-shift_words (n % 64) (drop (n / 64) ws) (omega arith)
                (IsWord-drop (n / 64) ws h))
              (IsWord-zeros (n / 64)),
          ground (
            arith,
            length-append (shift_words (n % 64) (drop (n / 64) ws)) (replicate (n / 64) zero_word),
            length-shift_words (n % 64) (drop (n / 64) ws),
            length-drop (n / 64) ws,
            length-replicate (n / 64) zero_word,
          ),
        )
]

pub bit_at-get : (ws : List (List Bool)) (i : ℕ) → All IsWord ws → bit_at i ws ≡ get (flat ws) i
bit_at-get [] i h = get-replicate 64 (i % 64)
bit_at-get (w ∷ ws) i h = elim (Bool-cases (ltb i 64)) [
  | inl low ↦
      (let first : i / 64 ≡ 0 = ground arith in
        let own : i % 64 ≡ i = ground arith in
        rw (first, own) (sym (get-append w (flat ws) i ∙ ground (arith, h.0))))
  | inr high ↦
      (let later : i / 64 ≡ suc ((i - 64) / 64) = ground arith in
        let own : i % 64 ≡ (i - 64) % 64 = ground arith in
        rw (later, own)
          (bit_at-get ws (i - 64) h.1 ∙ sym (get-append w (flat ws) i ∙ ground (arith, h.0))))
]

get-set_at :
    (i : ℕ) (a : List Bool) (j : ℕ)
    → i < length a
    → get (set_at i true a) j ≡ (if i == j then true else get a j)
get-set_at i [] j h = absurd (omega arith)
get-set_at zero (x ∷ a) zero h = refl
get-set_at zero (x ∷ a) (suc j) h = ground arith
get-set_at (suc i) (x ∷ a) zero h = ground arith
get-set_at (suc i) (x ∷ a) (suc j) h = get-set_at i a j (omega arith) ∙ ground arith

pub length-set_at {ℓ} : {A : Type ℓ} (i : ℕ) (x : A) (a : List A) → length (set_at i x a) ≡ length a
length-set_at i x [] = refl
length-set_at zero x (y ∷ a) = refl
length-set_at (suc i) x (y ∷ a) = ap suc (length-set_at i x a)

-- Setting a bit sets that one alone.
pub set_bit-get :
    (ws : List (List Bool)) (i j : ℕ)
    → All IsWord ws
    → i < 64 * length ws
    → get (flat (set_bit i ws)) j ≡ (if i == j then true else get (flat ws) j)
unfolding set_bit
set_bit-get [] i j h lt = absurd (omega arith)
set_bit-get (w ∷ ws) i j h lt = elim (Bool-cases (ltb i 64)) [
  | inl low ↦
      (let first : i / 64 ≡ 0 = ground arith in
        let own : i % 64 ≡ i = ground arith in
        rw (set_bit, first, own)
          (get-append (set_at i true w) (flat ws) j
            ∙ ground
                (arith, h.0, length-set_at i true w, get-set_at i w j, get-append w (flat ws) j)))
  | inr high ↦
      (let later : i / 64 ≡ suc ((i - 64) / 64) = ground arith in
        let own : i % 64 ≡ (i - 64) % 64 = ground arith in
        rw (set_bit, later, own)
          (get-append w (flat (set_bit (i - 64) ws)) j
            ∙ ground (arith, h.0, set_bit-get ws (i - 64) (j - 64) h.1, get-append w (flat ws) j)))
]

IsWord-set_at :
    (k i : ℕ) (ws : List (List Bool))
    → All IsWord ws
    → All IsWord (set_at k (set_at i true (get_or ws k zero_word)) ws)
IsWord-set_at k i [] h = tt
IsWord-set_at zero i (w ∷ ws) h = (length-set_at i true w ∙ h.0, h.1)
IsWord-set_at (suc k) i (w ∷ ws) h = (h.0, IsWord-set_at k i ws h.1)

pub set_bit-IsWord :
    (i : ℕ) (ws : List (List Bool))
    → All IsWord ws
    → All IsWord (set_bit i ws) × (length (set_bit i ws) ≡ length ws)
unfolding set_bit
set_bit-IsWord i ws h = (IsWord-set_at (i / 64) (i % 64) ws h, length-set_at (i / 64) _ ws)
