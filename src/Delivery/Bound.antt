-- ===== src/Delivery/Bound.antt =====
-- internal/tunnel/delivery.go: the guard that is to keep `pending` within `maxPending`.
use mathlib.Core.Path.{subst}
use flexbraid.Prelude.{
  sym, ℕ, zero, suc, ◌+◌, ◌%◌, ◌^◌, ◌≤◌, ◌<◌, ◌≡◌, refl, ◌≢◌, false, ◌⊎◌, inl, inr, none, some, [],
  ◌∷◌, arith, length, All, leb, Bool-cases, Option-cases,
}
use flexbraid.Assoc.{
  Assoc, lookup, lookup-cons_here, lookup-cons_there, erase, erase_of_missing, length-erase-le,
  length-erase_of_some,
}
use flexbraid.Frame.{Frame}
use flexbraid.Delivery.{
  Buffer, next_seq, before, drain, drain_contiguous, lowest, make_room, store, accept,
}

-- The loop of Push finds the seq of the new frame or one that waits.
lowest_from :
    (lo : ℕ) (m : Assoc Frame)
    → (lowest lo m ≡ lo) ⊎ ((f : Frame) × (lookup (lowest lo m) m ≡ some f))
unfolding lowest
lowest_from lo [] = inl refl
lowest_from lo ((k, f) ∷ m) = elim (Bool-cases (before k lo)) [
  | inl lower ↦
      (let step : lowest lo ((k, f) ∷ m) ≡ lowest k m = rw lower refl in
        subst (λ r. (r ≡ lo) ⊎ ((x : Frame) × (lookup r ((k, f) ∷ m) ≡ some x))) (sym step)
          (inr (elim (lowest_from k m) [
            | inl e ↦ lookup-cons_here k _ f m e
            | inr (g, e) ↦ lookup-cons_there k _ f g m e
          ])))
  | inr higher ↦
      (let step : lowest lo ((k, f) ∷ m) ≡ lowest lo m = rw higher refl in
        subst (λ r. (r ≡ lo) ⊎ ((x : Frame) × (lookup r ((k, f) ∷ m) ≡ some x))) (sym step)
          (elim (lowest_from lo m) [
            | inl e ↦ inl e
            | inr (g, e) ↦ inr (lookup-cons_there k _ f g m e)
          ]))
]

length-drain-le : (fuel next : ℕ) (m : Assoc Frame) → length (drain fuel next m).2 ≤ length m
unfolding drain
length-drain-le zero next m = omega arith
length-drain-le (suc fuel) next m = elim (Option-cases (lookup next m)) [
  | inl e ↦ rw (e, drain) (omega arith)
  | inr (f, e) ↦
      rw (e, drain)
        (omega (arith, length-drain-le fuel (next_seq next) (erase next m), length-erase-le next m))
]

-- The guard leaves room for one more entry.
length-make_room :
    (f : Frame) (d : Buffer)
    → length d.pending ≤ d.max_pending
    → (length d.pending ≡ d.max_pending → lowest f.seq d.pending ≢ f.seq)
    → length (make_room f d).pending < d.max_pending
unfolding make_room
length-make_room f d h older = elim (Bool-cases (leb d.max_pending (length d.pending))) [
  | inl full ↦ elim (lowest_from f.seq d.pending) [
    | inl e ↦ absurd (older (ground arith) e)
    | inr (g, e) ↦
        rw full (omega (arith, length-erase_of_some (lowest f.seq d.pending) d.pending g e))
  ]
  | inr room ↦ rw room (ground arith)
]

-- A round of Push keeps the buffer within its bound, if some waiting frame is older than the new
-- one when the buffer is full: then the guard evicts one.
pub accept_within_bound :
    (now : ℕ) (f : Frame) (d : Buffer)
    → length d.pending ≤ d.max_pending
    → (length d.pending ≡ d.max_pending → lowest f.seq d.pending ≢ f.seq)
    → length (accept now f d).1.pending ≤ d.max_pending
unfolding accept store drain_contiguous
accept_within_bound now f d h older = ground (
  arith,
  length-make_room f d h older,
  length-drain-le (length d.pending) (next_seq d.next) d.pending,
)

lowest_self : (lo : ℕ) (m : Assoc Frame) → All (λ e. before e.0 lo ≡ false) m → lowest lo m ≡ lo
unfolding lowest
lowest_self lo [] a = refl
lowest_self lo ((k, f) ∷ m) a = rw (a.0, lowest) (lowest_self lo m a.1)

-- A new frame older than all that wait in a full buffer: nothing is evicted, `drops` counts a frame
-- that was not dropped, and the buffer outgrows `maxPending` by one.
pub accept_over_bound :
    (now : ℕ) (f : Frame) (d : Buffer)
    → before f.seq d.next ≡ false
    → f.seq ≢ d.next
    → lookup f.seq d.pending ≡ none
    → All (λ e. before e.0 f.seq ≡ false) d.pending
    → length d.pending ≡ d.max_pending
    → (length (accept now f d).1.pending ≡ d.max_pending + 1)
      × ((accept now f d).1.drops ≡ (d.drops + 1) % 2 ^ 64)
unfolding accept store make_room
accept_over_bound now f d fresh ne new oldest full =
    ground (arith, lowest_self f.seq d.pending oldest, erase_of_missing f.seq d.pending new)
