-- ===== src/Fec/PathStats/Accounting.antt =====
-- internal/fec/fec.go: every pass-through counter is booked once, by each call.
use mathlib.Core.Path.{subst}
use flexbraid.Prelude.{
  ℕ, ◌+◌, ◌-◌, ◌^◌, ◌≤◌, ◌<◌, ◌≡◌, refl, ◌≢◌, ◌↔◌, inl, inr, true, false, Option, none, some, [],
  ◌∷◌, arith, length, All, ltb, ◌==◌, Bool-cases, Option-cases, ◌∙◌, sym,
}
use flexbraid.Assoc.{lookup, Distinct}
use flexbraid.Fec.PathStats.{
  Counters, RawPathStat, no_stat, wrap64, drain_all, since_of, hold_back, start_gap,
  observe_path_seq, lowest, gap_over, skip_gap, flush_path_gap, take_path_stats, path_gap_window,
}
use flexbraid.Fec.PathStats.Ledger.{
  IsWaiting, IsWaiting-next, Ledger, drain_all-since, drain_all-lost, resume-Ledger, IsWaiting-le,
  lowest-Lowest,
}

pub seeded-Ledger : (now seq : ℕ) → seq < 2 ^ 32 → Ledger seq (observe_path_seq now seq no_stat)
unfolding observe_path_seq
seeded-Ledger now seq small = record {
  books = record { small = omega arith; balance = omega arith; waiting = tt; distinct = tt };
  started = omega arith;
  missing = refl;
  timed = ((λ e. refl), (λ e. refl));
}

hold_back-ne_nil : (k : ℕ) (m : Counters) → hold_back k m ≢ []
hold_back-ne_nil k [] = λ e. ground arith
hold_back-ne_nil k (x ∷ m) = λ e. ground arith

hold_back-waits :
    (base k : ℕ) {ps : RawPathStat}
    → Ledger base ps
    → ps.next < k
    → k < 2 ^ 32
    → All (IsWaiting ps.next) (hold_back k ps.pending)
      × Distinct (hold_back k ps.pending)
      × (lookup ps.next (hold_back k ps.pending) ≡ none)
hold_back-waits base k {ps} l ahead small = elim (Option-cases (lookup k ps.pending)) [
  | inl e ↦
      rw (e, hold_back)
        (
          (((omega arith), small), l.books.waiting),
          (e, l.books.distinct),
          ground (arith, l.missing),
        )
  | inr (u, e) ↦ rw (e, hold_back) (l.books.waiting, l.books.distinct, l.missing)
]

start_gap_iff :
    (now : ℕ) (t : Option ℕ) (m : Counters) → m ≢ [] → (start_gap now t ≡ none) ↔ (m ≡ [])
start_gap_iff now none m h = ((λ e. absurd (ground arith)), (λ e. absurd (h e)))
start_gap_iff now (some t) m h = ((λ e. absurd (ground arith)), (λ e. absurd (h e)))

-- The awaited counter arrives.
resume-hit :
    (seq base : ℕ) (ps : RawPathStat)
    → seq < 2 ^ 32
    → seq ≡ ps.next
    → Ledger base ps
    → (let d =
          drain_all (record ps { received = wrap64 (ps.received + 1); next = wrap64 (seq + 1) }) in
        Ledger base (record d { gap_since = since_of d.pending d.gap_since }))
resume-hit seq base ps small hit l =
    let ps' : RawPathStat = record ps {
      received = wrap64 (ps.received + 1);
      next = wrap64 (seq + 1);
    } in
    let next_is : ps.next + 1 ≡ wrap64 (seq + 1) = omega arith in
    resume-Ledger base ps' (drain_all ps').gap_since
      (record {
        small = omega arith;
        balance = omega (arith, l.books.balance, l.books.small);
        waiting =
            subst (λ n. All (IsWaiting n) ps.pending) next_is
              (IsWaiting-next ps.next ps.pending l.missing l.books.waiting);
        distinct = l.books.distinct;
      })
      (omega arith) (λ ne e. ne (l.timed.0 (sym (drain_all-since ps') ∙ e)))

pub observe-Ledger :
    (now seq base : ℕ) (ps : RawPathStat)
    → seq < 2 ^ 32
    → Ledger base ps
    → Ledger base (observe_path_seq now seq ps)
unfolding observe_path_seq
observe-Ledger now seq base ps small l =
    let ran : (ps.next == 0) ≡ false = ground (arith, l.started) in
    elim (Bool-cases (ltb seq ps.next)) [
      | inl old ↦ rw (ran, old) l
      | inr fresh ↦ elim (Bool-cases (seq == ps.next)) [
        | inl hit ↦ rw (ran, fresh, hit) (resume-hit seq base ps small (ground arith) l)
        | inr beyond ↦
            (let (w, d, m) = hold_back-waits base seq l (ground arith) small in
              rw (ran, fresh, beyond)
                (record {
                  books = record {
                    small = l.books.small;
                    balance = l.books.balance;
                    waiting = w;
                    distinct = d;
                  };
                  started = l.started;
                  missing = m;
                  timed = start_gap_iff now ps.gap_since _ (hold_back-ne_nil seq ps.pending);
                }))
      ]
    ]

waiting-bounds :
    (n : ℕ) (m : Counters)
    → All (IsWaiting n) m
    → All (λ (e : ℕ × Unit {0}). e.0 < 2 ^ 32) m × All (λ (e : ℕ × Unit {0}). n ≤ e.0) m
waiting-bounds n [] a = (tt, tt)
waiting-bounds n (e ∷ m) a =
    let (small, above) = waiting-bounds n m a.1 in ((a.0.1, small), (a.0.0, above))

length-ne_nil : (m : Counters) → m ≢ [] → (length m == 0) ≡ false
length-ne_nil [] ne = absurd (ne refl)
length-ne_nil (x ∷ m) ne = ground arith

-- The gap up to the lowest counter that waits.
pub record Gap (now : ℕ) (ps r : RawPathStat) : Type 0 where
  pub since : ℕ
  pub since_is : ps.gap_since ≡ some since
  pub waited : since + path_gap_window ≤ now
  pub upto : ℕ
  pub lowest_is : All (λ (e : ℕ × Unit {0}). upto ≤ e.0) ps.pending
  pub beyond : ps.next ≤ upto
  pub books_lost : r.lost ≡ ps.lost + (upto - ps.next)

skip_gap-Ledger :
    (now base : ℕ) (ps : RawPathStat)
    → Ledger base ps
    → ps.pending ≢ []
    → Ledger base (skip_gap now ps)
      × ((skip_gap now ps).lost ≡ ps.lost + (lowest (2 ^ 64 - 1) ps.pending - ps.next))
      × (ps.next ≤ lowest (2 ^ 64 - 1) ps.pending)
unfolding skip_gap
skip_gap-Ledger now base ps l ne =
    let b = l.books in
    let lo = lowest (2 ^ 64 - 1) ps.pending in
    let w = lowest-Lowest (2 ^ 64 - 1) ps.pending in
    let (small, above) = waiting-bounds ps.next ps.pending b.waiting in
    let lo_small = w.small small ne (omega arith) in
    let lo_above = w.above ps.next above (omega (arith, b.small)) in
    let ps' : RawPathStat = record ps { lost = wrap64 (ps.lost + (lo - ps.next)); next = lo } in
    (
      resume-Ledger base ps' (some now)
          (record {
            small = omega arith;
            balance = omega (arith, b.balance, b.small);
            waiting = IsWaiting-le ps.next lo ps.pending w.first b.waiting;
            distinct = b.distinct;
          })
          (omega (arith, l.started)) (λ q e. ground arith),
      drain_all-lost ps' ∙ (omega (arith, b.balance, b.small)),
      lo_above,
    )

waits_of_over :
    (now base : ℕ) (ps : RawPathStat)
    → Ledger base ps
    → gap_over now ps.gap_since ≡ true
    → ps.pending ≢ []
waits_of_over now base ps l over = λ e. ground (arith, l.timed.1 e)

pub flush-Ledger :
    (now base : ℕ) (ps : RawPathStat) → Ledger base ps → Ledger base (flush_path_gap now ps)
unfolding flush_path_gap
flush-Ledger now base ps l =
    let ran : (ps.next == 0) ≡ false = ground (arith, l.started) in
    elim (Bool-cases (gap_over now ps.gap_since)) [
      | inl over ↦
          (let ne = waits_of_over now base ps l over in
            let some_wait : (length ps.pending == 0) ≡ false = length-ne_nil ps.pending ne in
            rw (ran, over, some_wait) (skip_gap-Ledger now base ps l ne).0)
      | inr early ↦ rw (ran, early) l
    ]

since_of_over :
    (now : ℕ) (o : Option ℕ)
    → gap_over now o ≡ true
    → (t : ℕ) × (o ≡ some t) × (t + path_gap_window ≤ now)
since_of_over now none over = absurd (ground arith)
since_of_over now (some t) over = (t, refl, ground arith)

-- Loss is booked only for a gap that has been open for the window, and it is exactly the counters
-- from the awaited one up to the lowest that waits.
pub flush_path_gap-Gap :
    (now base : ℕ) (ps : RawPathStat)
    → Ledger base ps
    → (flush_path_gap now ps).lost ≢ ps.lost
    → Gap now ps (flush_path_gap now ps)
unfolding flush_path_gap
flush_path_gap-Gap now base ps l changed =
    let ran : (ps.next == 0) ≡ false = ground (arith, l.started) in
    elim (Bool-cases (gap_over now ps.gap_since)) [
      | inl over ↦
          (let ne = waits_of_over now base ps l over in
            let some_wait : (length ps.pending == 0) ≡ false = length-ne_nil ps.pending ne in
            let (_, books, beyond) = skip_gap-Ledger now base ps l ne in
            let (t, since, waited) = since_of_over now ps.gap_since over in
            record {
              since = t;
              since_is = since;
              waited = waited;
              upto = lowest (2 ^ 64 - 1) ps.pending;
              lowest_is = (lowest-Lowest (2 ^ 64 - 1) ps.pending).first;
              beyond = beyond;
              books_lost = rw (ran, over, some_wait) books;
            })
      | inr early ↦ absurd (changed (rw (ran, early) refl))
    ]

pub take-Ledger :
    (base : ℕ) (ps : RawPathStat)
    → Ledger base ps
    → Ledger (base + ps.received + ps.lost) (take_path_stats ps).1
unfolding take_path_stats
take-Ledger base ps l = record {
  books = record {
    small = l.books.small;
    balance = omega (arith, l.books.balance);
    waiting = l.books.waiting;
    distinct = l.books.distinct;
  };
  started = l.started;
  missing = l.missing;
  timed = l.timed;
}
