-- ===== src/Fec/PathStats/Ledger.antt =====
-- internal/fec/fec.go: every pass-through counter of a stream is booked once, as received or lost.
use mathlib.Core.Path.{subst}
use flexbraid.Prelude.{
  ℕ, zero, suc, ◌+◌, ◌^◌, ◌≤◌, ◌<◌, ◌≡◌, refl, ◌≢◌, ◌↔◌, inl, inr, Option, none, some, [], ◌∷◌,
  arith, length, All, ltb, if◌then◌else◌, Option-cases,
}
use flexbraid.Assoc.{
  lookup, erase, Distinct, lookup-erase, Distinct-erase, All-erase, length-erase_of_some,
  All-lookup,
}
use flexbraid.Fec.PathStats.{
  Counters, RawPathStat, wrap64, drain_path_pending, drain_all, since_of, lowest,
}

-- A counter that waits: at `lo` or behind it, and of 32 bits.
abbrev pub IsWaiting : ℕ → ℕ × Unit {0} → Type 0
IsWaiting lo e = (lo ≤ e.0) × (e.0 < 2 ^ 32)

-- The part that holds in the middle of an operation too: `total` counts what was booked.
pub record Books (base : ℕ) (ps : RawPathStat) : Type 0 where
  pub small : ps.next ≤ 2 ^ 32
  pub balance : base + ps.received + ps.lost ≡ ps.next
  pub waiting : All (IsWaiting ps.next) ps.pending
  pub distinct : Distinct ps.pending

pub record Ledger (base : ℕ) (ps : RawPathStat) : Type 0 where
  pub books : Books base ps
  pub started : 0 < ps.next
  pub missing : lookup ps.next ps.pending ≡ none
  pub timed : (ps.gap_since ≡ none) ↔ (ps.pending ≡ [])

pub IsWaiting-next :
    (n : ℕ) (m : Counters) → lookup n m ≡ none → All (IsWaiting n) m → All (IsWaiting (n + 1)) m
IsWaiting-next n [] e a = tt
IsWaiting-next n ((k, u) ∷ m) e a = ((ground arith, a.0.1), IsWaiting-next n m (ground arith) a.1)

lookup_of_short : (k : ℕ) (m : Counters) → length m ≤ 0 → lookup k m ≡ none
lookup_of_short k [] l = refl
lookup_of_short k (e ∷ m) l = absurd (omega arith)

lookup_of_nil : (k : ℕ) (m : Counters) (u : Unit {0}) → m ≡ [] → lookup k m ≡ some u → ⊥
lookup_of_nil k m u q e = ground arith

record Drained (base : ℕ) (ps r : RawPathStat) : Type 0 where
  books : Books base r
  missing : lookup r.next r.pending ≡ none
  forward : ps.next ≤ r.next
  empty : ps.pending ≡ [] → r.pending ≡ []

drain-Drained :
    (fuel base : ℕ) (ps : RawPathStat)
    → length ps.pending ≤ fuel
    → Books base ps
    → Drained base ps (drain_path_pending fuel ps)
unfolding drain_path_pending
drain-Drained zero base ps l b = record {
  books = b;
  missing = lookup_of_short ps.next ps.pending l;
  forward = omega arith;
  empty = λ e. e;
}
drain-Drained (suc fuel) base ps l b = elim (Option-cases (lookup ps.next ps.pending)) [
  | inl e ↦
      rw (e, drain_path_pending)
        (record { books = b; missing = e; forward = omega arith; empty = λ q. q })
  | inr (u, e) ↦
      (let (_, small) = All-lookup (IsWaiting ps.next) ps.next ps.pending u b.waiting e in
        let gone : lookup ps.next (erase ps.next ps.pending) ≡ none =
          ground (arith, lookup-erase ps.next ps.next ps.pending) in
        let waiting =
          IsWaiting-next ps.next _ gone
            (All-erase (IsWaiting ps.next) ps.next ps.pending b.waiting) in
        let ps' : RawPathStat = record ps {
          pending = erase ps.next ps.pending;
          received = wrap64 (ps.received + 1);
          next = wrap64 (ps.next + 1);
        } in
        let next_is : ps.next + 1 ≡ wrap64 (ps.next + 1) = omega arith in
        let r =
          drain-Drained fuel base ps' (omega (arith, length-erase_of_some ps.next ps.pending u e))
            (record {
              small = omega arith;
              balance = omega (arith, b.balance, b.small);
              waiting = subst (λ n. All (IsWaiting n) (erase ps.next ps.pending)) next_is waiting;
              distinct = Distinct-erase ps.next ps.pending b.distinct;
            }) in
        rw (e, drain_path_pending)
          (record {
            books = r.books;
            missing = r.missing;
            forward = omega (arith, r.forward, next_is);
            empty = λ q. absurd (lookup_of_nil ps.next ps.pending u q e);
          }))
]

drain_path_pending-since :
    (fuel : ℕ) (ps : RawPathStat) → (drain_path_pending fuel ps).gap_since ≡ ps.gap_since
unfolding drain_path_pending
drain_path_pending-since zero ps = refl
drain_path_pending-since (suc fuel) ps = elim (Option-cases (lookup ps.next ps.pending)) [
  | inl e ↦ rw (e, drain_path_pending) refl
  | inr (u, e) ↦ rw (e, drain_path_pending) (drain_path_pending-since fuel _)
]

pub drain_all-since : (ps : RawPathStat) → (drain_all ps).gap_since ≡ ps.gap_since
unfolding drain_all
drain_all-since ps = drain_path_pending-since (length ps.pending) ps

drain_path_pending-lost :
    (fuel : ℕ) (ps : RawPathStat) → (drain_path_pending fuel ps).lost ≡ ps.lost
unfolding drain_path_pending
drain_path_pending-lost zero ps = refl
drain_path_pending-lost (suc fuel) ps = elim (Option-cases (lookup ps.next ps.pending)) [
  | inl e ↦ rw (e, drain_path_pending) refl
  | inr (u, e) ↦ rw (e, drain_path_pending) (drain_path_pending-lost fuel _)
]

pub drain_all-lost : (ps : RawPathStat) → (drain_all ps).lost ≡ ps.lost
unfolding drain_all
drain_all-lost ps = drain_path_pending-lost (length ps.pending) ps

since_of_iff :
    (m : Counters) (t : Option ℕ) → (m ≢ [] → t ≢ none) → (since_of m t ≡ none) ↔ (m ≡ [])
since_of_iff [] t h = ((λ e. refl), (λ e. refl))
since_of_iff (e ∷ m) t h = ((λ p. absurd (h (λ q. ground arith) p)), (λ q. absurd (ground arith)))

-- The order of the stream resumes: what was drained is followed by a counter that is missing.
pub resume-Ledger :
    (base : ℕ) (ps : RawPathStat) (t : Option ℕ)
    → Books base ps
    → 0 < ps.next
    → (ps.pending ≢ [] → t ≢ none)
    → Ledger base (record (drain_all ps) { gap_since = since_of (drain_all ps).pending t })
unfolding drain_all
resume-Ledger base ps t b pos h =
    let r = drain-Drained (length ps.pending) base ps (omega arith) b in
    record {
      books = record {
        small = r.books.small;
        balance = r.books.balance;
        waiting = r.books.waiting;
        distinct = r.books.distinct;
      };
      started = omega (arith, r.forward);
      missing = r.missing;
      timed = since_of_iff _ t (λ ne. h (λ e. ne (r.empty e)));
    }

pub IsWaiting-le :
    (lo n : ℕ) (m : Counters)
    → All (λ (e : ℕ × Unit {0}). n ≤ e.0) m
    → All (IsWaiting lo) m
    → All (IsWaiting n) m
IsWaiting-le lo n [] h a = tt
IsWaiting-le lo n (e ∷ m) h a = ((h.0, a.0.1), IsWaiting-le lo n m h.1 a.1)

-- What the loop over `pending` finds.
pub record Lowest (lo r : ℕ) (m : Counters) : Type 0 where
  pub le : r ≤ lo
  pub first : All (λ (e : ℕ × Unit {0}). r ≤ e.0) m
  pub above : (n : ℕ) → All (λ (e : ℕ × Unit {0}). n ≤ e.0) m → n ≤ lo → n ≤ r
  pub small : All (λ (e : ℕ × Unit {0}). e.0 < 2 ^ 32) m → m ≢ [] → 2 ^ 32 ≤ lo → r < 2 ^ 32

pub lowest-Lowest : (lo : ℕ) (m : Counters) → Lowest lo (lowest lo m) m
unfolding lowest
lowest-Lowest lo [] = record {
  le = omega arith;
  first = tt;
  above = λ n a h. h;
  small = λ a ne. absurd (ne refl);
}
lowest-Lowest lo ((c, u) ∷ m) =
    let r = lowest-Lowest (if ltb c lo then c else lo) m in
    record {
      le = ground (arith, r.le);
      first = (ground (arith, r.le), r.first);
      above = λ n a h. r.above n a.1 (ground (arith, a.0));
      small = λ a ne h. ground (arith, r.le, a.0);
    }
