-- ===== src/Crypto/Replay/Window.antt =====
-- internal/crypto/crypto.go: the replay window against the set of the seqs that it has accepted.
use flexbraid.Prelude.{
  ℕ, ◌+◌, ◌-◌, ◌*◌, ◌%◌, ◌^◌, ◌≤◌, ◌<◌, ◌≡◌, ap, ◌∙◌, sym, Bool, true, false, ◌&&◌, not, List, [],
  ◌∷◌, length, max, leb, ◌==◌, if◌then◌else◌, arith, All, Bool-cases, inl, inr,
}
use flexbraid.Crypto.Replay.{shift_right, ReplayWindow, slide}
use flexbraid.Crypto.Replay.Bits.{flat, IsWord, get}
use flexbraid.Crypto.Replay.Shift.{shift_right-get, shift_right-IsWord}

abbrev pub has : ℕ → List ℕ → Bool
has s [] = false
has s (t ∷ ts) = if t == s then true else has s ts

abbrev pub highest : List ℕ → ℕ
highest [] = 0
highest (s ∷ ss) = max s (highest ss)

-- What is promised: a seq is accepted if it was not accepted before and is not older than the
-- window that ends at the highest accepted one.
abbrev pub is_fresh : ℕ → ℕ → List ℕ → Bool
is_fresh window seq seen = leb (highest seen + 1 - window) seq && not (has seq seen)

abbrev pub remember : Bool → ℕ → List ℕ → List ℕ
remember fresh seq seen = if fresh then seq ∷ seen else seen

-- The bitmap marks exactly the seqs of `seen` from the base on, and the base follows the highest.
pub record Tracks (window : ℕ) (seen : List ℕ) (w : ReplayWindow) : Type 0 where
  pub same_window : w.window ≡ window
  pub positive : 0 < window
  pub small : highest seen < 2 ^ 32
  pub words : All IsWord w.bits
  pub room : window ≤ 64 * length w.bits
  pub base_is : w.base ≡ highest seen + 1 - window
  pub marks : (i : ℕ) → get (flat w.bits) i ≡ has (w.base + i) seen

slide-Tracks :
    (seq window : ℕ) (seen : List ℕ) (w : ReplayWindow)
    → Tracks window seen w
    → seq < 2 ^ 32
    → w.window ≤ seq - w.base
    → (i : ℕ)
    → get (flat (shift_right (seq - w.base - w.window + 1) w.bits)) i
      ≡ has (seq + 1 - window + i) seen
slide-Tracks seq window seen w t hs ahead i =
    shift_right-get (seq - w.base - w.window + 1) w.bits i t.words
    ∙ t.marks (i + (seq - w.base - w.window + 1))
    ∙ ap (λ j. has j seen) (omega (arith, t.same_window, t.positive))

-- The window after sliding: it covers the seq, and marks what it marked.
pub record Covers (seq window : ℕ) (seen : List ℕ) (w : ReplayWindow) : Type 0 where
  pub same_window : w.window ≡ window
  pub from : w.base ≤ seq
  pub below : seq - w.base < window
  pub words : All IsWord w.bits
  pub room : window ≤ 64 * length w.bits
  pub base_is : w.base ≡ max seq (highest seen) + 1 - window
  pub marks : (i : ℕ) → get (flat w.bits) i ≡ has (w.base + i) seen

pub slide-Covers :
    (seq window : ℕ) (seen : List ℕ) (w : ReplayWindow)
    → Tracks window seen w
    → seq < 2 ^ 32
    → w.base ≤ seq
    → Covers seq window seen (slide seq w)
unfolding slide
slide-Covers seq window seen w t hs from = elim (Bool-cases (leb w.window (seq - w.base))) [
  | inl ahead ↦
      (let n = seq - w.base - w.window + 1 in
        let (words, len) = shift_right-IsWord n w.bits t.words in
        let base' : (seq + 2 ^ 32 - w.window + 1) % 2 ^ 32 ≡ seq + 1 - window =
          ground (arith, t.same_window, t.positive) in
        rw (ahead, slide)
          (record {
            same_window = t.same_window;
            from = omega (arith, base', t.positive);
            below = ground (arith, base', t.positive, t.same_window);
            words = words;
            room = omega (arith, len, t.room);
            base_is = ground (arith, base', t.base_is, t.same_window);
            marks = λ i.
                slide-Tracks seq window seen w t hs (ground arith) i
                ∙ ap (λ b. has (b + i) seen) (sym base');
          }))
  | inr inside ↦
      rw (inside, slide)
        (record {
          same_window = t.same_window;
          from = from;
          below = ground (arith, t.same_window);
          words = t.words;
          room = t.room;
          base_is = ground (arith, t.base_is, t.same_window, t.positive);
          marks = t.marks;
        })
]
