-- ===== src/Crypto/Replay/Bits.antt =====
-- internal/crypto/crypto.go: the bitmap as one list of bits, and the shift of its words.
use flexbraid.Prelude.{
  ℕ, zero, suc, ◌+◌, ◌-◌, ◌≤◌, ◌<◌, ◌≡◌, refl, ap, ◌∙◌, Bool, true, false, ◌||◌, List, [], ◌∷◌,
  ◌++◌, length, take, drop, replicate, get_or, ltb, ◌==◌, if◌then◌else◌, arith, All, Bool-cases,
  inl, inr, length-append, length-replicate, length-drop, length-take,
}
use flexbraid.Crypto.Replay.{shr, shl, bit_or, shift_word, shift_words}

abbrev pub flat : List (List Bool) → List Bool
flat [] = []
flat (w ∷ ws) = w ++ flat ws

abbrev pub IsWord : List Bool → Type 0
IsWord w = length w ≡ 64

abbrev pub get : List Bool → ℕ → Bool
get b i = get_or b i false

pub get-append :
    (a b : List Bool) (i : ℕ)
    → get (a ++ b) i ≡ (if ltb i (length a) then get a i else get b (i - length a))
get-append [] b i = ground arith
get-append (x ∷ a) b zero = ground arith
get-append (x ∷ a) b (suc i) = ground (arith, get-append a b i)

pub get-replicate : (n i : ℕ) → get (replicate n false) i ≡ false
get-replicate zero i = refl
get-replicate (suc n) zero = refl
get-replicate (suc n) (suc i) = get-replicate n i

get-drop : (n : ℕ) (a : List Bool) (i : ℕ) → get (drop n a) i ≡ get a (i + n)
get-drop zero a i = ap (get a) (omega arith)
get-drop (suc n) [] i = refl
get-drop (suc n) (x ∷ a) i = get-drop n a i ∙ ground arith

get-take : (n : ℕ) (a : List Bool) (i : ℕ) → i < n → get (take n a) i ≡ get a i
get-take zero a i h = absurd (omega arith)
get-take (suc n) [] i h = refl
get-take (suc n) (x ∷ a) zero h = refl
get-take (suc n) (x ∷ a) (suc i) h = get-take n a i (omega arith)

pub get_beyond : (a : List Bool) (i : ℕ) → length a ≤ i → get a i ≡ false
get_beyond [] i h = refl
get_beyond (x ∷ a) zero h = absurd (omega arith)
get_beyond (x ∷ a) (suc i) h = get_beyond a i (omega arith)

get-bit_or :
    (a b : List Bool) (i : ℕ) → length a ≡ length b → get (bit_or a b) i ≡ (get a i || get b i)
get-bit_or [] [] i h = refl
get-bit_or [] (y ∷ b) i h = absurd (omega arith)
get-bit_or (x ∷ a) [] i h = absurd (omega arith)
get-bit_or (x ∷ a) (y ∷ b) zero h = refl
get-bit_or (x ∷ a) (y ∷ b) (suc i) h = get-bit_or a b i (omega arith)

get-shr : (n : ℕ) (w : List Bool) (i : ℕ) → get (shr n w) i ≡ get w (i + n)
get-shr n w i = ground (
  arith,
  get-append (drop n w) (replicate n false) i,
  get-drop n w i,
  get-replicate n (i - length (drop n w)),
  length-drop n w,
  get_beyond w (i + n),
)

length-shr : (n : ℕ) (w : List Bool) → n ≤ 64 → IsWord w → IsWord (shr n w)
length-shr n w le h =
    omega (
      arith,
      length-append (drop n w) (replicate n false),
      length-drop n w,
      length-replicate n false,
    )

length-shl : (n : ℕ) (w : List Bool) → n ≤ 64 → IsWord w → IsWord (shl n w)
length-shl n w le h = omega (
  arith,
  length-append (replicate n false) (take (64 - n) w),
  length-take (64 - n) w,
  length-replicate n false,
)

get-shl :
    (n : ℕ) (w : List Bool) (i : ℕ)
    → n ≤ 64
    → i < 64
    → get (shl n w) i ≡ (if ltb i n then false else get w (i - n))
get-shl n w i le h = ground (
  arith,
  get-append (replicate n false) (take (64 - n) w) i,
  length-replicate n false,
  get-replicate n i,
  get-take (64 - n) w (i - n),
)

or_false : (b : Bool) → (b || false) ≡ b
or_false true = refl
or_false false = refl

-- The low bits of the next word follow the high bits of a word.
joined :
    (s : ℕ) (w v rest : List Bool) (i : ℕ)
    → s < 64
    → i < 64
    → IsWord w
    → IsWord v
    → (get (shr s w) i || get (shl (64 - s) v) i) ≡ get (w ++ (v ++ rest)) (i + s)
joined s w v rest i hs hi hw hv = elim (Bool-cases (ltb (i + s) 64)) [
  | inl low ↦
      (let off : get (shl (64 - s) v) i ≡ false =
          ground (arith, get-shl (64 - s) v i (omega arith) hi) in
        rw (get-shr s w i, off)
          (or_false (get w (i + s)) ∙ ground (arith, get-append w (v ++ rest) (i + s))))
  | inr high ↦
      (let off : get w (i + s) ≡ false = get_beyond w (i + s) (ground arith) in
        let far : i + s - length w ≡ i - (64 - s) = ground arith in
        rw (get-shr s w i, off)
          (ground (
            arith,
            get-shl (64 - s) v i (omega arith) hi,
            get-append w (v ++ rest) (i + s),
            get-append v rest (i - (64 - s)),
            far,
          )))
]

-- A shifted word continues in the word behind it.
length-bit_or : (a b : List Bool) → length a ≡ length b → length (bit_or a b) ≡ length a
length-bit_or [] b h = refl
length-bit_or (x ∷ a) [] h = absurd (omega arith)
length-bit_or (x ∷ a) (y ∷ b) h = ap suc (length-bit_or a b (omega arith))

get-shift_word :
    (s : ℕ) (w : List Bool) (ws : List (List Bool)) (i : ℕ)
    → s < 64
    → i < 64
    → IsWord w
    → All IsWord ws
    → get (shift_word s w ws) i ≡ get (w ++ flat ws) (i + s)
unfolding shift_word
get-shift_word s w [] i hs hi hw h =
    ground (arith, get-shr s w i, get-append w [] (i + s), get_beyond w (i + s))
get-shift_word s w (v ∷ ws) i hs hi hw h = elim (Bool-cases (s == 0)) [
  | inl whole ↦
      rw (whole, shift_word) (ground (arith, get-shr s w i, get-append w (v ++ flat ws) (i + s)))
  | inr split ↦
      (let same : length (shr s w) ≡ length (shl (64 - s) v) =
          omega (arith, length-shr s w (omega arith) hw, length-shl (64 - s) v (omega arith) h.0) in
        rw (split, shift_word)
          (get-bit_or (shr s w) (shl (64 - s) v) i same ∙ joined s w v (flat ws) i hs hi hw h.0))
]

pub length-shift_word :
    (s : ℕ) (w : List Bool) (ws : List (List Bool))
    → s < 64
    → IsWord w
    → All IsWord ws
    → IsWord (shift_word s w ws)
unfolding shift_word
length-shift_word s w [] hs hw h = length-shr s w (omega arith) hw
length-shift_word s w (v ∷ ws) hs hw h = elim (Bool-cases (s == 0)) [
  | inl e ↦ rw (e, shift_word) (length-shr s w (omega arith) hw)
  | inr e ↦
      rw (e, shift_word)
        (length-bit_or (shr s w) (shl (64 - s) v) (
            omega (arith, length-shr s w (omega arith) hw, length-shl (64 - s) v (omega arith) h.0))
          ∙ length-shr s w (omega arith) hw)
]

pub get-shift_words :
    (s : ℕ) (ws : List (List Bool)) (i : ℕ)
    → s < 64
    → All IsWord ws
    → get (flat (shift_words s ws)) i ≡ get (flat ws) (i + s)
unfolding shift_words
get-shift_words s [] i hs h = refl
get-shift_words s (w ∷ ws) i hs h =
    let len = length-shift_word s w ws hs h.0 h.1 in
    elim (Bool-cases (ltb i 64)) [
      | inl low ↦
          get-append (shift_word s w ws) (flat (shift_words s ws)) i
          ∙ ground (arith, len, get-shift_word s w ws i hs (ground arith) h.0 h.1)
      | inr high ↦
          get-append (shift_word s w ws) (flat (shift_words s ws)) i
          ∙ ground
              (arith, len, get-shift_words s ws (i - 64) hs h.1, get-append w (flat ws) (i + s))
    ]
