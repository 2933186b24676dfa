-- ===== src/SendQueue.antt =====
-- internal/tunnel/wanqueue.go: the bounded send queue of one WAN.
pub mod Bucket
pub mod Invariant
pub mod Policy
pub mod Fifo
mod Tests
use Prim.Native.String.{String}
use text.Mathlib.Text.{◌==◌ as str_eq}
use flexbraid.Prelude.{
  ℕ, zero, suc, ◌+◌, ◌-◌, ◌%◌, ◌^◌, Bool, true, false, Option, none, some, List, [], ◌∷◌, ◌++◌,
  length, ltb, ◌==◌, if◌then◌else◌,
}

pub data QueueDrop : Type 0 where
  drop_oldest drop_newest : QueueDrop

-- `none` is the error.
unfoldable pub parse_queue_drop : String → Option QueueDrop
parse_queue_drop s =
    if str_eq s "oldest"
    then some drop_oldest
    else if str_eq s "newest"
    then some drop_newest
    else none

-- The token bucket of the same struct is `Bucket`. `wake` is the channel of one slot: whether the
-- slot is taken.
pub record SendQueue : Type 0 where
  pub closed : Bool
  pub max_bytes : ℕ
  pub drop : QueueDrop
  pub q : List (List ℕ)
  pub bytes : ℕ
  pub wake : Bool
  pub frames_sent : ℕ
  pub bytes_sent : ℕ
  pub dropped : ℕ

unfoldable pub new_send_queue : ℕ → QueueDrop → SendQueue
new_send_queue max_bytes drop = record {
  closed = false;
  max_bytes = if max_bytes == 0 then 262144 else max_bytes;
  drop = drop;
  q = [];
  bytes = 0;
  wake = false;
  frames_sent = 0;
  bytes_sent = 0;
  dropped = 0;
}

-- A uint64 counter after `++`.
abbrev pub count_up : ℕ → ℕ
count_up n = (n + 1) % 2 ^ 64

abbrev pub refuse : SendQueue → Bool × SendQueue
refuse s = (false, record s { dropped = count_up s.dropped })

-- The loop that evicts the oldest frames until `n` bytes fit; the list is `q.q`.
unfoldable pub evict : ℕ → List (List ℕ) → SendQueue → Bool × SendQueue
evict n [] s =
    if ltb s.max_bytes (s.bytes + n)
    then refuse (record s { q = [] })
    else (true, record s { q = [] })
evict n (head ∷ rest) s =
    let more =
      evict n rest (record s { bytes = s.bytes - length head; dropped = count_up s.dropped }) in
    if ltb s.max_bytes (s.bytes + n) then more else (true, record s { q = head ∷ rest })

unfoldable pub signal : SendQueue → SendQueue
signal s = record s { wake = true }

unfoldable pub append : List ℕ → Bool × SendQueue → Bool × SendQueue
unfolding signal
append b (false, s) = (false, s)
append b (true, s) = (true, signal (record s { q = s.q ++ (b ∷ []); bytes = s.bytes + length b }))

abbrev pub make_room : List ℕ → QueueDrop → SendQueue → Bool × SendQueue
make_room b drop_newest s = refuse s
make_room b drop_oldest s = evict (length b) s.q s

unfoldable pub enqueue : List ℕ → SendQueue → Bool × SendQueue
enqueue b s =
    if s.closed
    then (false, s)
    else if ltb s.max_bytes (length b)
    then refuse s
    else if ltb s.max_bytes (s.bytes + length b)
    then append b (make_room b s.drop s)
    else append b (true, s)

-- One round of the loop of `popNext`: a frame, the end because the queue is closed, or a wait.
pub data Popped : Type 0 where
  frame : List ℕ → Popped
  ended waits : Popped

pop_from : List (List ℕ) → SendQueue → Popped × SendQueue
pop_from [] s = (if s.closed then ended else waits, s)
pop_from (b ∷ rest) s = (
  frame b,
  record s {
    q = rest;
    bytes = s.bytes - length b;
    frames_sent = count_up s.frames_sent;
    bytes_sent = (s.bytes_sent + length b) % 2 ^ 64;
  },
)

unfoldable pub pop_next : SendQueue → Popped × SendQueue
unfolding pop_from
pop_next s = pop_from s.q s

-- The consumer that waits takes the wake-up out of the channel.
unfoldable pub woken : SendQueue → SendQueue
woken s = record s { wake = false }

unfoldable pub close : SendQueue → SendQueue
unfolding signal
close s = signal (record s { closed = true })
