-- ===== src/Crypto/Replay/Refines.antt =====
-- internal/crypto/crypto.go: CheckAndMark answers as the promise of the replay window says.
use mathlib.Core.Path.{subst}
use flexbraid.Prelude.{
  ==_refl, ℕ, ◌+◌, ◌-◌, ◌/◌, ◌^◌, ◌≤◌, ◌<◌, ◌≡◌, refl, ap, ◌∙◌, sym, Bool, true, false, ◌&&◌, not,
  List, [], ◌∷◌, ltb, leb, ◌==◌, if◌then◌else◌, arith, All, Bool-cases, inl, inr, length-replicate,
}
use flexbraid.Crypto.Replay.{
  zero_word, bit_at, ReplayWindow, new_replay_window, slide, mark, check_and_mark,
}
use flexbraid.Crypto.Replay.Shift.{bit_at-get, set_bit-get, set_bit-IsWord, get-zeros, IsWord-zeros}
use flexbraid.Crypto.Replay.Window.{has, highest, is_fresh, remember, Tracks, Covers, slide-Covers}

and_false : (b : Bool) → (b && false) ≡ false
and_false true = refl
and_false false = refl

stale : (seq : ℕ) (b : Bool) (seen : List ℕ) → (b && not (has seq (seq ∷ seen))) ≡ false
stale seq b seen = rw (==_refl seq) (and_false b)

-- The answer and the state behind a call.
record Answers (seq window : ℕ) (seen : List ℕ) (r : Bool × ReplayWindow) : Type 0 where
  answer : r.0 ≡ is_fresh window seq seen
  tracks : Tracks window (remember r.0 seq seen) r.1

highest-has : (seq : ℕ) (seen : List ℕ) → has seq seen ≡ true → seq ≤ highest seen
highest-has seq [] h = absurd (ground arith)
highest-has seq (s ∷ ss) h = ground (arith, highest-has seq ss)

mark-Answers :
    (seq window : ℕ) (seen : List ℕ) (w : ReplayWindow)
    → 0 < window
    → highest seen < 2 ^ 32
    → seq < 2 ^ 32
    → leb (highest seen + 1 - window) seq ≡ true
    → Covers seq window seen w
    → Answers seq window seen (mark seq w)
unfolding mark
mark-Answers seq window seen w pos small hs late c =
    let i = seq - w.base in
    let here : w.base + i ≡ seq = omega (arith, c.from) in
    let bit : bit_at i w.bits ≡ has seq seen =
      bit_at-get w.bits i c.words ∙ c.marks i ∙ ap (λ j. has j seen) here in
    elim (Bool-cases (bit_at i w.bits)) [
      | inl old ↦
          (let known : has seq seen ≡ true = sym bit ∙ old in
            let low = highest-has seq seen known in
            rw (old, mark)
              (record {
                answer = rw (known, late) refl;
                tracks = record {
                  same_window = c.same_window;
                  positive = pos;
                  small = small;
                  words = c.words;
                  room = c.room;
                  base_is = omega (arith, c.base_is);
                  marks = c.marks;
                };
              }))
      | inr new ↦
          (let unknown : has seq seen ≡ false = sym bit ∙ new in
            let (words, len) = set_bit-IsWord i w.bits c.words in
            rw (new, mark)
              (record {
                answer = rw (unknown, late) refl;
                tracks = record {
                  same_window = c.same_window;
                  positive = pos;
                  small = omega (arith, small, hs);
                  words = words;
                  room = omega (arith, c.room, len);
                  base_is = c.base_is;
                  marks = λ j.
                      set_bit-get w.bits i j c.words (omega (arith, c.below, c.room))
                      ∙ ground (arith, c.marks j, here);
                };
              }))
    ]

check_and_mark-Answers :
    (seq window : ℕ) (seen : List ℕ) (w : ReplayWindow)
    → Tracks window seen w
    → seq < 2 ^ 32
    → Answers seq window seen (check_and_mark seq w)
unfolding check_and_mark
check_and_mark-Answers seq window seen w t hs = elim (Bool-cases (ltb seq w.base)) [
  | inl old ↦
      (let stale : leb (highest seen + 1 - window) seq ≡ false = ground (arith, t.base_is) in
        rw (old, check_and_mark) (record { answer = rw stale refl; tracks = t }))
  | inr in_reach ↦
      rw (in_reach, check_and_mark)
        (mark-Answers seq window seen (slide seq w) t.positive t.small hs
          (ground (arith, t.base_is)) (slide-Covers seq window seen w t hs (ground arith)))
]

-- A seq that is let through was not let through before.
pub check_and_mark_new :
    (seq window : ℕ) (seen : List ℕ) (w : ReplayWindow)
    → Tracks window seen w
    → seq < 2 ^ 32
    → (check_and_mark seq w).0 ≡ true
    → has seq seen ≡ false
check_and_mark_new seq window seen w t hs ok =
    let fresh : is_fresh window seq seen ≡ true =
      sym (check_and_mark-Answers seq window seen w t hs).answer ∙ ok in
    ground arith

pub check_and_mark-Tracks :
    (seq window : ℕ) (seen : List ℕ) (w : ReplayWindow)
    → Tracks window seen w
    → seq < 2 ^ 32
    → Tracks window (remember (check_and_mark seq w).0 seq seen) (check_and_mark seq w).1
check_and_mark-Tracks seq window seen w t hs =
    (check_and_mark-Answers seq window seen w t hs).tracks

-- A seq that was let through is refused the next time.
pub check_and_mark_twice :
    (seq window : ℕ) (seen : List ℕ) (w : ReplayWindow)
    → Tracks window seen w
    → seq < 2 ^ 32
    → (check_and_mark seq w).0 ≡ true
    → (check_and_mark seq (check_and_mark seq w).1).0 ≡ false
check_and_mark_twice seq window seen w t hs ok =
    let t' = check_and_mark-Tracks seq window seen w t hs in
    let t'' = subst (λ b. Tracks window (remember b seq seen) (check_and_mark seq w).1) ok t' in
    (check_and_mark-Answers seq window (seq ∷ seen) (check_and_mark seq w).1 t'' hs).answer
    ∙ stale seq (leb (highest (seq ∷ seen) + 1 - window) seq) seen

-- The answers to a sequence of frames, and those that the promise gives.
pub new-Tracks : (size : ℕ) → 0 < size → Tracks size [] (new_replay_window size)
unfolding new_replay_window
new-Tracks size pos =
    let given : (size == 0) ≡ false = ground arith in
    rw given (record {
      same_window = refl;
      positive = pos;
      small = omega arith;
      words = IsWord-zeros ((size + 63) / 64);
      room = omega (arith, length-replicate ((size + 63) / 64) zero_word);
      base_is = omega arith;
      marks = λ i. get-zeros ((size + 63) / 64) i;
    })

-- A new window lets every seq through.
pub new_is_fresh : (seq : ℕ) → seq < 2 ^ 32 → (check_and_mark seq (new_replay_window 4096)).0 ≡ true
new_is_fresh seq h =
    (check_and_mark-Answers seq 4096 [] (new_replay_window 4096) (new-Tracks 4096 (omega arith))
      h).answer
    ∙ ground arith

unfoldable pub answers : List ℕ → ReplayWindow → List Bool
answers [] w = []
answers (seq ∷ seqs) w = let (ok, w') = check_and_mark seq w in ok ∷ answers seqs w'

abbrev pub promised : ℕ → List ℕ → List ℕ → List Bool
promised window [] seen = []
promised window (seq ∷ seqs) seen =
    is_fresh window seq seen ∷ promised window seqs (remember (is_fresh window seq seen) seq seen)

abbrev pub IsUint32 : ℕ → Type 0
IsUint32 n = n < 2 ^ 32

answers-Tracks :
    (seqs : List ℕ) (window : ℕ) (seen : List ℕ) (w : ReplayWindow)
    → All IsUint32 seqs
    → Tracks window seen w
    → answers seqs w ≡ promised window seqs seen
unfolding answers
answers-Tracks [] window seen w h t = refl
answers-Tracks (seq ∷ seqs) window seen w h t =
    let a = check_and_mark-Answers seq window seen w t h.0 in
    ap (λ b. b ∷ answers seqs (check_and_mark seq w).1) a.answer
    ∙ ap (λ l. is_fresh window seq seen ∷ l)
        (answers-Tracks seqs window _ (check_and_mark seq w).1 h.1 a.tracks
          ∙ ap (λ b. promised window seqs (remember b seq seen)) a.answer)

-- A new window of any positive size answers every sequence of frames, in whatever order and with
-- whatever repetitions, as promised: a frame is let through exactly if its seq was not let through
-- before and is not older than the window that ends at the highest seq let through.
pub answers_refine :
    (size : ℕ) (seqs : List ℕ)
    → 0 < size
    → All IsUint32 seqs
    → answers seqs (new_replay_window size) ≡ promised size seqs []
answers_refine size seqs pos h =
    answers-Tracks seqs size [] (new_replay_window size) h (new-Tracks size pos)

-- The seqs let through.
abbrev pub let_through : List ℕ → List Bool → List ℕ
let_through [] bs = []
let_through (s ∷ ss) [] = []
let_through (s ∷ ss) (b ∷ bs) = let rest = let_through ss bs in if b then s ∷ rest else rest

abbrev pub NoRepeat : List ℕ → Type 0
NoRepeat [] = Unit
NoRepeat (s ∷ ss) = (has s ss ≡ false) × NoRepeat ss

promised-has :
    (s window : ℕ) (seqs seen : List ℕ)
    → has s seen ≡ true
    → has s (let_through seqs (promised window seqs seen)) ≡ false
promised-has s window [] seen h = refl
promised-has s window (q ∷ qs) seen h = elim (Bool-cases (is_fresh window q seen)) [
  | inl f ↦ rw f (ground (arith, promised-has s window qs (q ∷ seen)))
  | inr n ↦ rw n (promised-has s window qs seen h)
]

promised-NoRepeat :
    (window : ℕ) (seqs seen : List ℕ) → NoRepeat (let_through seqs (promised window seqs seen))
promised-NoRepeat window [] seen = tt
promised-NoRepeat window (q ∷ qs) seen = elim (Bool-cases (is_fresh window q seen)) [
  | inl f ↦
      rw f
        (promised-has q window qs (q ∷ seen) (ground arith), promised-NoRepeat window qs (q ∷ seen))
  | inr n ↦ rw n (promised-NoRepeat window qs seen)
]

-- No seq is let through twice.
pub answers-NoRepeat :
    (size : ℕ) (seqs : List ℕ)
    → 0 < size
    → All IsUint32 seqs
    → NoRepeat (let_through seqs (answers seqs (new_replay_window size)))
answers-NoRepeat size seqs pos h =
    rw (answers_refine size seqs pos h) (promised-NoRepeat size seqs [])
