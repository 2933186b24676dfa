-- ===== src/SendQueue/Invariant.antt =====
-- internal/tunnel/wanqueue.go: `bytes` is the size of the queue and stays within the bound.
use flexbraid.Prelude.{ap, ℕ, ◌+◌, ◌-◌, ◌≤◌, ◌≡◌, refl, true, List, [], ◌∷◌, ◌++◌, arith, length}
use flexbraid.SendQueue.{
  SendQueue, QueueDrop, count_up, evict, append, enqueue, pop_from, pop_next, close, new_send_queue,
}

abbrev pub total : List (List ℕ) → ℕ
total [] = 0
total (b ∷ q) = length b + total q

pub total-append : (xs ys : List (List ℕ)) → total (xs ++ ys) ≡ total xs + total ys
total-append [] ys = omega arith
total-append (x ∷ xs) ys = omega (arith, total-append xs ys)

pub record IsValid (s : SendQueue) : Type 0 where
  pub counted : s.bytes ≡ total s.q
  pub bounded : s.bytes ≤ s.max_bytes

-- The loop ends with room for `n` bytes, whatever was queued.
evict-fits :
    (n : ℕ) (q : List (List ℕ)) (s : SendQueue)
    → n ≤ s.max_bytes
    → s.bytes ≡ total q
    → ((evict n q s).0 ≡ true)
      × ((evict n q s).1.bytes ≡ total (evict n q s).1.q)
      × ((evict n q s).1.bytes + n ≤ (evict n q s).1.max_bytes)
unfolding evict
evict-fits n [] s h e = ground arith
evict-fits n (b ∷ q) s h e =
    ground (
      arith,
      evict-fits n q (record s { bytes = s.bytes - length b; dropped = count_up s.dropped }),
    )

-- Enqueue keeps the invariant on every branch.
pub enqueue-IsValid : (b : List ℕ) {s : SendQueue} → IsValid s → IsValid (enqueue b s).1
unfolding enqueue append
enqueue-IsValid b {s} v = ground (
  arith,
  evict-fits (length b) s.q s,
  total-append (evict (length b) s.q s).1.q (b ∷ []),
  total-append s.q (b ∷ []),
)

pop_from-IsValid :
    (q : List (List ℕ)) {s : SendQueue} → s.q ≡ q → IsValid s → IsValid (pop_from q s).1
unfolding pop_next
pop_from-IsValid [] e v = v
pop_from-IsValid (b ∷ q) {s} e v = ground (arith, ap total e)

pub pop_next-IsValid : {s : SendQueue} → IsValid s → IsValid (pop_next s).1
unfolding pop_next
pop_next-IsValid {s} v = pop_from-IsValid s.q refl v

pub close-IsValid : {s : SendQueue} → IsValid s → IsValid (close s)
unfolding close
close-IsValid v = record { counted = v.counted; bounded = v.bounded }

pub new_send_queue-IsValid : (n : ℕ) (d : QueueDrop) → IsValid (new_send_queue n d)
unfolding new_send_queue
new_send_queue-IsValid n d = omega arith
