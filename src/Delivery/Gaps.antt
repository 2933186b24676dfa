-- ===== src/Delivery/Gaps.antt =====
-- internal/tunnel/delivery.go: Tick, which skips a hole that has stayed open too long.
use mathlib.Core.Path.{subst}
use flexbraid.Prelude.{
  ◌+◌, ◌%◌, ◌∙◌, if-true, if-false, if◌then◌else◌, ℕ, ◌^◌, ◌≤◌, ◌<◌, ◌≡◌, refl, ◌≢◌, true, false,
  ◌⊎◌, inl, inr, none, some, [], ◌∷◌, arith, length, All, ◌==◌, Bool-cases, ◌||◌,
}
use flexbraid.Assoc.{Assoc, lookup, lookup-cons_here, lookup-cons_there}
use flexbraid.Frame.{Frame}
use flexbraid.Delivery.{Buffer, before, drain, drain_contiguous, lowest_pending, overdue, tick}
use flexbraid.Delivery.Invariant.{ahead, Fits, IsValid, drain_contiguous-IsValid}
use flexbraid.Delivery.Order.{Run, drain_contiguous-Run, IsKeyed-of_Fits}

-- `lo` is the entry of `m` that is nearest behind `n`.
pub record IsNearest (n lo : ℕ) (m : Assoc Frame) : Type 0 where
  pub here : (f : Frame) × (lookup lo m ≡ some f)
  pub first : All (λ e. ahead lo n ≤ ahead e.0 n) m

record Candidate (n lo : ℕ) : Type 0 where
  pos : 0 < lo
  small : lo < 2 ^ 32
  near : ahead lo n < 2 ^ 31

-- What the loop of `Tick` has found behind the entries that it has visited.
record Found (n lo r : ℕ) (m : Assoc Frame) : Type 0 where
  cand : Candidate n r
  le : ahead r n ≤ ahead lo n
  first : All (λ e. ahead r n ≤ ahead e.0 n) m
  from : (r ≡ lo) ⊎ ((f : Frame) × (lookup r m ≡ some f))

lowest_pending-Found :
    (n lo : ℕ) (m : Assoc Frame)
    → n < 2 ^ 32
    → Candidate n lo
    → All (Fits n) m
    → lookup 0 m ≡ none
    → Found n lo (lowest_pending lo m) m
unfolding lowest_pending
lowest_pending-Found n lo [] h c a z = record {
  cand = c;
  le = omega arith;
  first = tt;
  from = inl refl;
}
lowest_pending-Found n lo ((k, f) ∷ m) h c a z = elim (Bool-cases (lo == 0 || before k lo)) [
  | inl lower ↦
      (let r = lowest_pending-Found n k m h (ground arith) a.1 (ground arith) in
        rw (lower, lowest_pending)
          (record {
            cand = r.cand;
            le = ground arith;
            first = (r.le, r.first);
            from = elim r.from [
              | inl e ↦ inr (lookup-cons_here k _ f m e)
              | inr (g, e) ↦ inr (lookup-cons_there k _ f g m e)
            ];
          }))
  | inr higher ↦
      (let r = lowest_pending-Found n lo m h c a.1 (ground arith) in
        rw (higher, lowest_pending)
          (record {
            cand = r.cand;
            le = r.le;
            first = (ground arith, r.first);
            from = elim r.from [ inl e ↦ inl e | inr (g, e) ↦ inr (lookup-cons_there k _ f g m e) ];
          }))
]

-- The loop of `Tick` starts from the sentinel 0 and takes the first key.
lowest_pending-IsNearest :
    (n : ℕ) (m : Assoc Frame)
    → n < 2 ^ 32
    → All (Fits n) m
    → lookup 0 m ≡ none
    → m ≢ []
    → Candidate n (lowest_pending 0 m) × IsNearest n (lowest_pending 0 m) m
unfolding lowest_pending
lowest_pending-IsNearest n [] h a z ne = absurd (ne refl)
lowest_pending-IsNearest n ((k, f) ∷ m) h a z ne =
    let r = lowest_pending-Found n k m h (ground arith) a.1 (ground arith) in
    (
      r.cand,
      record {
        here = elim r.from [
          | inl e ↦ lookup-cons_here k _ f m e
          | inr (g, e) ↦ lookup-cons_there k _ f g m e
        ];
        first = (r.le, r.first);
      },
    )

Fits-skip :
    (n lo : ℕ) (m : Assoc Frame)
    → n < 2 ^ 32
    → Candidate n lo
    → All (λ e. ahead lo n ≤ ahead e.0 n) m
    → All (Fits n) m
    → All (Fits lo) m
Fits-skip n lo [] h c l a = tt
Fits-skip n lo ((k, f) ∷ m) h c l a = (ground arith, Fits-skip n lo m h c l.1 a.1)

drain-ne_nil :
    (next : ℕ) (m : Assoc Frame) (f : Frame)
    → lookup next m ≡ some f
    → (drain (length m) next m).0 ≢ []
unfolding drain
drain-ne_nil next [] f e = absurd (ground arith)
drain-ne_nil next ((k, g) ∷ m) f e = rw (e, drain) (λ p. ground arith)

waiting_of_overdue : (now : ℕ) {d : Buffer} → IsValid d → overdue now d ≡ true → d.pending ≢ []
waiting_of_overdue now {d} v due = λ e. ground (arith, v.timed.1 e)

-- When the timer has run out, Tick delivers: it starts at the waiting frame that is nearest behind
-- `next`, delivers at least that one, in order and without a hole, and leaves the buffer valid.
-- The condition is that no frame with seq 0 waits.
pub tick_skips :
    (now : ℕ) {d : Buffer}
    → IsValid d
    → lookup 0 d.pending ≡ none
    → overdue now d ≡ true
    → (lo : ℕ) × IsNearest d.next lo d.pending
      × Run lo (tick now d).0 (tick now d).1.next
      × ((tick now d).0 ≢ [])
      × IsValid (tick now d).1
unfolding tick
tick_skips now {d} v z due =
    let ne = waiting_of_overdue now v due in
    let (c, near) = lowest_pending-IsNearest d.next d.pending v.next_in v.fits z ne in
    let lo = lowest_pending 0 d.pending in
    let found : (lo == 0) ≡ false = ground (arith, c.pos) in
    let fits = Fits-skip d.next lo d.pending v.next_in c near.first v.fits in
    let d' = record d { next = lo } in
    (
      lo,
      near,
      rw (due, found, tick) (drain_contiguous-Run d' (IsKeyed-of_Fits lo d.pending fits)),
      rw (due, found, tick)
          (unfold drain_contiguous in drain-ne_nil lo d.pending near.here.0 near.here.1),
      rw (due, found, tick)
          (drain_contiguous-IsValid d' c.small v.distinct fits (λ w e. w (v.timed.0 e))),
    )

-- Before the timeout, or with no gap, Tick changes nothing.
tick_early : (now : ℕ) (d : Buffer) → overdue now d ≡ false → tick now d ≡ ([], d)
unfolding tick
tick_early now d early = rw early

pub tick-IsValid :
    (now : ℕ) {d : Buffer} → IsValid d → lookup 0 d.pending ≡ none → IsValid (tick now d).1
tick-IsValid now {d} v z = elim (Bool-cases (overdue now d)) [
  | inl due ↦ (tick_skips now v z due).4
  | inr early ↦ rw (tick_early now d early) v
]

lowest_pending-from :
    (lo : ℕ) (m : Assoc Frame)
    → (lowest_pending lo m ≡ lo) ⊎ ((f : Frame) × (lookup (lowest_pending lo m) m ≡ some f))
unfolding lowest_pending
lowest_pending-from lo [] = inl refl
lowest_pending-from lo ((k, f) ∷ m) =
    elim (lowest_pending-from (if lo == 0 || before k lo then k else lo) m) [
      | inr (g, e) ↦ inr (lookup-cons_there k _ f g m e)
      | inl e ↦ elim (Bool-cases (lo == 0 || before k lo)) [
        | inl lower ↦ inr (lookup-cons_here k _ f m (e ∙ if-true _ _ lower))
        | inr higher ↦ inl (e ∙ if-false _ _ higher)
      ]
    ]

-- What the loop of `Tick` ends at waits, if anything does.
lowest_pending-waits :
    (m : Assoc Frame) → m ≢ [] → (f : Frame) × (lookup (lowest_pending 0 m) m ≡ some f)
unfolding lowest_pending
lowest_pending-waits [] ne = absurd (ne refl)
lowest_pending-waits ((k, f) ∷ m) ne = elim (lowest_pending-from k m) [
  | inl e ↦ lookup-cons_here k _ f m e
  | inr (g, e) ↦ lookup-cons_there k _ f g m e
]

-- An overdue Tick never starts at a frame with seq 0, even where that one is the nearest. In a valid
-- buffer, either a frame with seq 0 waits, nothing is delivered, all that waits stays, the timer
-- is stopped and `next` gives up a single seq; or Tick starts at a waiting frame with another seq and delivers at least that
-- one, in order and without a hole.
pub tick_zero_waits :
    (now : ℕ) {d : Buffer}
    → IsValid d
    → overdue now d ≡ true
    → (((f : Frame) × (lookup 0 d.pending ≡ some f))
        × ((tick now d).0 ≡ [])
        × ((tick now d).1 ≡ record d { next = (d.next + 1) % 2 ^ 32; gap_since = none }))
      ⊎ ((lo : ℕ) × (0 < lo)
          × ((f : Frame) × (lookup lo d.pending ≡ some f))
          × Run lo (tick now d).0 (tick now d).1.next
          × ((tick now d).0 ≢ []))
unfolding tick
tick_zero_waits now {d} v due =
    let lo = lowest_pending 0 d.pending in
    let waits = lowest_pending-waits d.pending (waiting_of_overdue now v due) in
    elim (Bool-cases (lo == 0)) [
      | inl zero_ ↦
          (let at : lo ≡ 0 = ground arith in
            inl (
              (waits.0, subst (λ n. lookup n d.pending ≡ some waits.0) at waits.1),
              rw (due, zero_, tick) refl,
              rw (due, zero_, tick) refl,
            ))
      | inr other ↦ inr (
        lo,
        ground arith,
        waits,
        rw (due, other, tick)
            (drain_contiguous-Run (record d { next = lo })
              (IsKeyed-of_Fits d.next d.pending v.fits)),
        rw (due, other, tick)
            (unfold drain_contiguous in drain-ne_nil lo d.pending waits.0 waits.1),
      )
    ]
