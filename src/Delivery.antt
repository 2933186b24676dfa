-- ===== src/Delivery.antt =====
-- internal/tunnel/delivery.go: the reorder buffer of the server to client stream.
pub mod Invariant
pub mod Order
pub mod Gaps
pub mod Bound
mod Tests
use flexbraid.Prelude.{
  ℕ, zero, suc, ◌+◌, ◌-◌, ◌%◌, ◌^◌, Bool, ◌||◌, Option, none, some, List, [], ◌∷◌, ◌++◌, length,
  ltb, leb, ◌==◌, if◌then◌else◌,
}
use flexbraid.Assoc.{Assoc, lookup, erase}
use flexbraid.Frame.{Frame}

-- Times and durations are numbers of nanoseconds; the zero `time.Time` is `none`.
pub record Buffer : Type 0 where
  pub next : ℕ
  pub pending : Assoc Frame
  pub gap_since : Option ℕ
  pub gap_timeout : ℕ
  pub max_pending : ℕ
  pub drops : ℕ

-- `newDeliveryBuffer`; a negative argument takes the branch of zero.
unfoldable pub new_delivery_buffer : ℕ → ℕ → Buffer
new_delivery_buffer timeout bound = record {
  next = 1;
  pending = [];
  gap_since = none;
  gap_timeout = if timeout == 0 then 100_000_000 else timeout;
  max_pending = if bound == 0 then 4096 else bound;
  drops = 0;
}

unfoldable pub reload : ℕ → ℕ → Buffer → Buffer
reload timeout bound d = record d {
  gap_timeout = if timeout == 0 then d.gap_timeout else timeout;
  max_pending = if bound == 0 then d.max_pending else bound;
}

-- uint32 increment, and `int32(a - b) < 0`
abbrev pub next_seq : ℕ → ℕ
next_seq n = (n + 1) % 2 ^ 32

abbrev pub before : ℕ → ℕ → Bool
before a b = leb (2 ^ 31) ((a + 2 ^ 32 - b) % 2 ^ 32)

-- The loop of `drainContiguous` over `next` and `pending`. Each round removes an entry, so that as
-- many rounds as there are entries are enough.
unfoldable pub drain : ℕ → ℕ → Assoc Frame → List Frame × ℕ × Assoc Frame
drain zero next pending = ([], next, pending)
drain (suc fuel) next pending = elim (lookup next pending) [
  | none ↦ ([], next, pending)
  | some f ↦
      (let (out, n, rest) = drain fuel (next_seq next) (erase next pending) in (f ∷ out, n, rest))
]

abbrev pub gap_after : Assoc Frame → Option ℕ → Option ℕ
gap_after [] since = none
gap_after (e ∷ m) since = since

unfoldable pub drain_contiguous : Buffer → List Frame × Buffer
drain_contiguous d =
    let (out, n, rest) = drain (length d.pending) d.next d.pending in
    (out, record d { next = n; pending = rest; gap_since = gap_after rest d.gap_since })

-- The lowest seq among `lo` and the keys, as the loop of `Push` finds it.
unfoldable pub lowest : ℕ → Assoc Frame → ℕ
lowest lo [] = lo
lowest lo ((k, f) ∷ m) = lowest (if before k lo then k else lo) m

-- The guard at the bound of `pending`.
unfoldable pub make_room : Frame → Buffer → Buffer
unfolding lowest
make_room f d =
    if leb d.max_pending (length d.pending)
    then record d {
      pending = erase (lowest f.seq d.pending) d.pending;
      drops = (d.drops + 1) % 2 ^ 64;
    }
    else d

unfoldable pub store : Frame → Buffer → Buffer
store f d = elim (lookup f.seq d.pending) [
  | some old ↦ d
  | none ↦
      (let d' = make_room f d in record d { pending = (f.seq, f) ∷ d'.pending; drops = d'.drops })
]

abbrev pub start_timer : ℕ → Option ℕ → Option ℕ
start_timer now none = some now
start_timer now (some t) = some t

abbrev pub mark_gap : ℕ → Buffer → Buffer
mark_gap now d = record d { gap_since = start_timer now d.gap_since }

-- One round of the loop of `Push`, at the clock reading `now`.
unfoldable pub accept : ℕ → Frame → Buffer → List Frame × Buffer
accept now f d =
    if before f.seq d.next
    then ([], d)
    else if f.seq == d.next
    then (let (out, d') = drain_contiguous (record d { next = next_seq d.next }) in (f ∷ out, d'))
    else ([], mark_gap now (store f d))

-- The frames of a call, each with the clock reading at which its round runs.
unfoldable pub push : List (ℕ × Frame) → Buffer → List Frame × Buffer
push [] d = ([], d)
push ((now, f) ∷ fs) d =
    let (out, d') = accept now f d in let (rest, d'') = push fs d' in (out ++ rest, d'')

-- The lowest pending seq as the loop of `Tick` finds it, where 0 stands for none.
unfoldable pub lowest_pending : ℕ → Assoc Frame → ℕ
lowest_pending lo [] = lo
lowest_pending lo ((k, f) ∷ m) = lowest_pending (if lo == 0 || before k lo then k else lo) m

abbrev pub overdue : ℕ → Buffer → Bool
overdue now d = elim d.gap_since [ none ↦ ltb 1 0 | some t ↦ leb (t + d.gap_timeout) now ]

unfoldable pub tick : ℕ → Buffer → List Frame × Buffer
tick now d =
    let lo = lowest_pending 0 d.pending in
    if overdue now d
    then (if lo == 0
        then ([], record d { next = next_seq d.next; gap_since = none })
        else drain_contiguous (record d { next = lo }))
    else ([], d)
