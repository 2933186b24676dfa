-- ===== src/Delivery/Invariant.antt =====
-- internal/tunnel/delivery.go: the invariant of the reorder buffer, kept by every operation.
use flexbraid.Prelude.{
  ℕ, zero, suc, ◌+◌, ◌-◌, ◌%◌, ◌^◌, ◌≤◌, ◌<◌, ◌≡◌, refl, ◌≢◌, inl, inr, ◌↔◌, Option, none, some,
  List, [], ◌∷◌, arith, length, All, leb, ◌==◌, Bool-cases, Option-cases,
}
use flexbraid.Assoc.{
  Assoc, lookup, erase, Distinct, lookup-erase, Distinct-erase, All-erase, length-erase_of_some,
}
use flexbraid.Frame.{Frame}
use flexbraid.Delivery.{
  Buffer, next_seq, before, drain, gap_after, drain_contiguous, lowest, make_room, store,
  start_timer, mark_gap, accept, push,
}

-- How far `k` lies ahead of `n` in the circle of 2 ^ 32 seqs.
abbrev pub ahead : ℕ → ℕ → ℕ
ahead k n = (k + 2 ^ 32 - n) % 2 ^ 32

-- An entry is stored under its own seq, and lies at most 2 ^ 31 - 1 ahead of `next`.
pub record Fits (next : ℕ) (e : ℕ × Frame) : Type 0 where
  pub keyed : e.0 ≡ e.1.seq
  pub small : e.0 < 2 ^ 32
  pub near : ahead e.0 next < 2 ^ 31

pub record IsValid (d : Buffer) : Type 0 where
  pub next_in : d.next < 2 ^ 32
  pub distinct : Distinct d.pending
  pub fits : All (Fits d.next) d.pending
  -- `next` itself never waits.
  pub missing : lookup d.next d.pending ≡ none
  -- The gap timer runs exactly while something waits.
  pub timed : (d.gap_since ≡ none) ↔ (d.pending ≡ [])

-- What the loop of `drainContiguous` returns.
pub record Drained (next : ℕ) (m : Assoc Frame) (r : List Frame × ℕ × Assoc Frame) : Type 0 where
  pub next_in : r.1 < 2 ^ 32
  pub distinct : Distinct r.2
  pub fits : All (Fits r.1) r.2
  pub missing : lookup r.1 r.2 ≡ none

Fits-next :
    (n : ℕ) (m : Assoc Frame)
    → n < 2 ^ 32
    → lookup n m ≡ none
    → All (Fits n) m
    → All (Fits (next_seq n)) m
Fits-next n [] h e a = tt
Fits-next n ((k, f) ∷ m) h e a = (ground arith, Fits-next n m h (ground arith) a.1)

drain-Drained :
    (fuel next : ℕ) (m : Assoc Frame)
    → length m ≤ fuel
    → next < 2 ^ 32
    → Distinct m
    → All (Fits next) m
    → Drained next m (drain fuel next m)
unfolding drain
drain-Drained zero next [] l h d a = record {
  next_in = h;
  distinct = tt;
  fits = tt;
  missing = refl;
}
drain-Drained zero next (e ∷ m) l h d a = absurd (omega arith)
drain-Drained (suc fuel) next m l h d a = elim (Option-cases (lookup next m)) [
  | inl e ↦ rw (e, drain) (record { next_in = h; distinct = d; fits = a; missing = e })
  | inr (f, e) ↦
      (let gone : lookup next (erase next m) ≡ none = ground (arith, lookup-erase next next m) in
        let r =
          drain-Drained fuel (next_seq next) (erase next m)
            (omega (arith, length-erase_of_some next m f e)) (omega arith) (Distinct-erase next m d)
            (Fits-next next (erase next m) h gone (All-erase (Fits next) next m a)) in
        rw (e, drain)
          (record {
            next_in = r.next_in;
            distinct = r.distinct;
            fits = r.fits;
            missing = r.missing;
          }))
]

gap_after_iff :
    (m : Assoc Frame) (since : Option ℕ)
    → (m ≢ [] → since ≢ none)
    → (gap_after m since ≡ none) ↔ (m ≡ [])
gap_after_iff [] since h = ((λ e. refl), (λ e. refl))
gap_after_iff (e ∷ m) since h =
    ((λ p. absurd (h (λ q. ground arith) p)), (λ q. absurd (ground arith)))

drain_of_nil : (fuel next : ℕ) (m : Assoc Frame) → m ≡ [] → (drain fuel next m).2 ≡ []
unfolding drain
drain_of_nil zero next m e = e
drain_of_nil (suc fuel) next [] e = refl
drain_of_nil (suc fuel) next (x ∷ m) e = absurd (ground arith)

-- `drainContiguous` from any reachable middle of an operation leaves the buffer valid.
pub drain_contiguous-IsValid :
    (d : Buffer)
    → d.next < 2 ^ 32
    → Distinct d.pending
    → All (Fits d.next) d.pending
    → (d.pending ≢ [] → d.gap_since ≢ none)
    → IsValid (drain_contiguous d).1
unfolding drain_contiguous
drain_contiguous-IsValid d h q a g =
    let r = drain-Drained (length d.pending) d.next d.pending (omega arith) h q a in
    record {
      next_in = r.next_in;
      distinct = r.distinct;
      fits = r.fits;
      missing = r.missing;
      timed =
          gap_after_iff _ d.gap_since
            (λ ne. g (λ e. ne (drain_of_nil (length d.pending) d.next d.pending e)));
    }

-- What `Push` may do to the entries of a valid buffer before it stores a frame.
make_room-Fits :
    (f : Frame) (d : Buffer)
    → IsValid d
    → Distinct (make_room f d).pending
      × All (Fits d.next) (make_room f d).pending
      × (lookup d.next (make_room f d).pending ≡ none)
unfolding make_room
make_room-Fits f d v = elim (Bool-cases (leb d.max_pending (length d.pending))) [
  | inl full ↦
      (let lo = lowest f.seq d.pending in
        rw full (
          Distinct-erase lo d.pending v.distinct,
          All-erase (Fits d.next) lo d.pending v.fits,
          ground (arith, lookup-erase lo d.next d.pending, v.missing),
        ))
  | inr room ↦ rw room (v.distinct, v.fits, v.missing)
]

lookup-make_room :
    (f : Frame) (d : Buffer)
    → lookup f.seq d.pending ≡ none
    → lookup f.seq (make_room f d).pending ≡ none
unfolding make_room
lookup-make_room f d e = ground (arith, lookup-erase (lowest f.seq d.pending) f.seq d.pending)

start_timer_iff :
    (now : ℕ) (since : Option ℕ) (m : Assoc Frame)
    → m ≢ []
    → (start_timer now since ≡ none) ↔ (m ≡ [])
start_timer_iff now none m h = ((λ e. absurd (ground arith)), (λ e. absurd (h e)))
start_timer_iff now (some t) m h = ((λ e. absurd (ground arith)), (λ e. absurd (h e)))

ne_nil_of_lookup : (k : ℕ) (f : Frame) (m : Assoc Frame) → lookup k m ≡ some f → m ≢ []
ne_nil_of_lookup k f [] e = absurd (ground arith)
ne_nil_of_lookup k f (x ∷ m) e = λ p. ground arith

store-IsValid :
    (now : ℕ) (f : Frame) (d : Buffer)
    → IsValid d
    → f.seq < 2 ^ 32
    → ahead f.seq d.next < 2 ^ 31
    → f.seq ≢ d.next
    → IsValid (mark_gap now (store f d))
unfolding store
store-IsValid now f d v small near ne = elim (Option-cases (lookup f.seq d.pending)) [
  | inl e ↦
      (let room = make_room-Fits f d v in
        rw (e, store)
          (record {
            next_in = v.next_in;
            distinct = (lookup-make_room f d e, room.0);
            fits = (record { keyed = refl; small = small; near = near }, room.1);
            missing = ground arith;
            timed = start_timer_iff now d.gap_since _ (λ p. ground arith);
          }))
  | inr (old, e) ↦
      rw (e, store)
        (record {
          next_in = v.next_in;
          distinct = v.distinct;
          fits = v.fits;
          missing = v.missing;
          timed =
              start_timer_iff now d.gap_since d.pending (ne_nil_of_lookup f.seq old d.pending e);
        })
]

-- One round of Push, on every branch, keeps the buffer valid.
pub accept-IsValid :
    (now : ℕ) (f : Frame) {d : Buffer} → f.seq < 2 ^ 32 → IsValid d → IsValid (accept now f d).1
unfolding accept
accept-IsValid now f {d} small v = elim (Bool-cases (before f.seq d.next)) [
  | inl late ↦ rw (late, accept) v
  | inr fresh ↦ elim (Bool-cases (f.seq == d.next)) [
    | inl hit ↦
        rw (fresh, hit, accept)
          (drain_contiguous-IsValid (record d { next = next_seq d.next }) (omega arith) v.distinct
            (Fits-next d.next d.pending v.next_in v.missing v.fits) (λ ne e. ne (v.timed.0 e)))
    | inr other ↦
        rw (fresh, other, accept) (store-IsValid now f d v small (ground arith) (ground arith))
  ]
]

abbrev pub IsTimedFrame : ℕ × Frame → Type 0
IsTimedFrame e = e.1.seq < 2 ^ 32

pub push-IsValid :
    (fs : List (ℕ × Frame)) {d : Buffer} → All IsTimedFrame fs → IsValid d → IsValid (push fs d).1
unfolding push
push-IsValid [] h v = v
push-IsValid ((now, f) ∷ fs) h v = push-IsValid fs h.1 (accept-IsValid now f h.0 v)
