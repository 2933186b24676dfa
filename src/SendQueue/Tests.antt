-- ===== src/SendQueue/Tests.antt =====
-- Runs of the send queue and the token bucket, and their theorems at concrete states.
use flexbraid.Prelude.{ℕ, All, ◌≡◌, refl, true, false, List, [], ◌∷◌, ◌++◌, arith}
use flexbraid.SendQueue.{SendQueue, drop_oldest, enqueue, evict, append, pop_next}
use flexbraid.SendQueue.Invariant.{IsValid}
use flexbraid.SendQueue.Policy.{enqueue_spec, enqueue_refines}
use flexbraid.SendQueue.Fifo.{Op, put, take, offered, run, Sub, run_fifo}
use flexbraid.Prelude.Int.{pos}
use flexbraid.Float.{thousandths}
use flexbraid.SendQueue.Bucket.{
  IsBounding, capacity, wait_time, new_bucket, refill, take_round, granted, granted_bound,
}

-- 5 of 6 bytes are taken, so that a frame of 3 bytes evicts the oldest frame.
abbrev queue : SendQueue
queue = record {
  closed = false;
  max_bytes = 6;
  drop = drop_oldest;
  q = (1 ∷ 2 ∷ []) ∷ (3 ∷ 4 ∷ 5 ∷ []) ∷ [];
  bytes = 5;
  wake = false;
  frames_sent = 0;
  bytes_sent = 0;
  dropped = 0;
}

abbrev late : List ℕ
late = 6 ∷ 7 ∷ 8 ∷ []

queue-IsValid : IsValid queue
queue-IsValid = omega arith

enqueue-late : (enqueue late queue).1.q ≡ (3 ∷ 4 ∷ 5 ∷ []) ∷ late ∷ []
unfolding enqueue evict append
enqueue-late = refl

enqueue_refines_example :
    let (ok, s) = enqueue late queue in (ok, s.q) ≡ enqueue_spec 6 drop_oldest late queue.q
enqueue_refines_example = enqueue_refines late {s = queue} queue-IsValid refl (omega arith)

abbrev script : List Op
script = put late ∷ take ∷ put (9 ∷ []) ∷ []

run-script : (run script queue).0 ≡ (3 ∷ 4 ∷ 5 ∷ []) ∷ []
unfolding run enqueue evict append pop_next
run-script = refl

run_fifo_example : Sub ((run script queue).0 ++ (run script queue).1.q) (queue.q ++ offered script)
run_fifo_example = run_fifo script queue

thousandths-IsBounding : IsBounding thousandths
thousandths-IsBounding n x m h k = ground arith

-- 1000 bytes per second, and 500 bytes at most: 600 are never granted.
abbrev takes : List (ℕ × ℕ)
takes = (100, 400) ∷ (100, 400) ∷ (400_000_100, 400) ∷ (90_000_000_100, 600) ∷ []

granted-takes :
    granted thousandths takes (new_bucket thousandths 500 (pos 1_000_000) 100) ≡ 400 ∷ 400 ∷ []
unfolding granted take_round refill new_bucket
granted-takes = refl

-- The bucket has 100 bytes; 300 more take 0.3 s.
waits :
    wait_time thousandths 400
      (record { rate = pos 1_000_000; burst = pos 500_000; tokens = pos 100_000; last_ref = 100 })
    ≡ pos 300_000_000
unfolding wait_time
waits = refl

granted_bound_example :
    All
      (λ n.
        thousandths.le (thousandths.of_int (pos n)) (thousandths.of_int (pos (capacity 500)))
        ≡ true)
      (granted thousandths takes (new_bucket thousandths 500 (pos 1_000_000) 100))
granted_bound_example =
    granted_bound thousandths 500 100 (pos 1_000_000) takes thousandths-IsBounding refl
