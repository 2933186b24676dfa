-- ===== src/Fec/PathStats.antt =====
-- internal/fec/fec.go: the raw loss counters of one stream of the decoder, from the counters of
-- pass-through frames.
pub mod Ledger
pub mod Accounting
pub mod Runs
use flexbraid.Prelude.{
  ℕ, zero, suc, ◌+◌, ◌-◌, ◌*◌, ◌%◌, ◌^◌, Bool, false, Option, none, some, List, [], ◌∷◌, length,
  ltb, leb, ◌==◌, if◌then◌else◌,
}
use flexbraid.Assoc.{Assoc, lookup, erase}

-- The keys of a map to `struct{}`.
abbrev pub Counters : Type 0
Counters = Assoc (Unit {0})

-- The zero `time.Time` is `none`.
pub record RawPathStat : Type 0 where
  pub next : ℕ
  pub received : ℕ
  pub lost : ℕ
  pub pending : Counters
  pub gap_since : Option ℕ

abbrev pub no_stat : RawPathStat
no_stat = record { next = 0; received = 0; lost = 0; pending = []; gap_since = none }

abbrev pub path_gap_window : ℕ
path_gap_window = 40_000_000

abbrev pub wrap64 : ℕ → ℕ
wrap64 n = n % 2 ^ 64

-- Each round removes a counter, so that as many rounds as there are counters are enough.
unfoldable pub drain_path_pending : ℕ → RawPathStat → RawPathStat
drain_path_pending zero ps = ps
drain_path_pending (suc fuel) ps = elim (lookup ps.next ps.pending) [
  | none ↦ ps
  | some u ↦ drain_path_pending fuel (record ps {
    pending = erase ps.next ps.pending;
    received = wrap64 (ps.received + 1);
    next = wrap64 (ps.next + 1);
  })
]

unfoldable pub drain_all : RawPathStat → RawPathStat
drain_all ps = drain_path_pending (length ps.pending) ps

abbrev pub since_of : Counters → Option ℕ → Option ℕ
since_of [] t = none
since_of (e ∷ m) t = t

abbrev pub hold_back : ℕ → Counters → Counters
hold_back k m = elim (lookup k m) [ none ↦ (k, tt) ∷ m | some u ↦ m ]

abbrev pub start_gap : ℕ → Option ℕ → Option ℕ
start_gap now none = some now
start_gap now (some t) = some t

-- The clock is read where a gap opens.
unfoldable pub observe_path_seq : ℕ → ℕ → RawPathStat → RawPathStat
observe_path_seq now seq ps =
    if ps.next == 0
    then record ps { next = wrap64 (seq + 1); received = wrap64 (ps.received + 1) }
    else if ltb seq ps.next
    then ps
    else if seq == ps.next
    then (let d =
          drain_all (record ps { received = wrap64 (ps.received + 1); next = wrap64 (seq + 1) }) in
        record d { gap_since = since_of d.pending d.gap_since })
    else record ps { pending = hold_back seq ps.pending; gap_since = start_gap now ps.gap_since }

unfoldable pub lowest : ℕ → Counters → ℕ
lowest lo [] = lo
lowest lo ((c, u) ∷ m) = lowest (if ltb c lo then c else lo) m

abbrev pub gap_over : ℕ → Option ℕ → Bool
gap_over now none = false
gap_over now (some t) = leb (t + path_gap_window) now

-- The gap up to the lowest counter that waits is booked as lost.
unfoldable pub skip_gap : ℕ → RawPathStat → RawPathStat
skip_gap now ps =
    let lo = lowest (2 ^ 64 - 1) ps.pending in
    let d = drain_all (record ps { lost = wrap64 (ps.lost + (lo - ps.next)); next = lo }) in
    record d { gap_since = since_of d.pending (some now) }

unfoldable pub book_gap : ℕ → RawPathStat → RawPathStat
unfolding skip_gap
book_gap now ps =
    if length ps.pending == 0
    then record ps { lost = wrap64 (ps.lost + 1); next = wrap64 (ps.next + 1); gap_since = none }
    else skip_gap now ps

-- The body of the loop of `flushPathGaps`.
unfoldable pub flush_path_gap : ℕ → RawPathStat → RawPathStat
unfolding book_gap
flush_path_gap now ps =
    if ps.next == 0 then ps else if gap_over now ps.gap_since then book_gap now ps else ps

-- The counters handed out, lost and received, and the state behind the call.
unfoldable pub take_path_stats : RawPathStat → (ℕ × ℕ) × RawPathStat
take_path_stats ps = ((ps.lost, ps.received), record ps { lost = 0; received = 0 })
