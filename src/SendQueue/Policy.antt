-- ===== src/SendQueue/Policy.antt =====
-- internal/tunnel/wanqueue.go: what an enqueue does, as a function of the frames that wait.
use flexbraid.Prelude.{
  ℕ, zero, suc, ◌+◌, ◌-◌, ◌%◌, ◌^◌, ◌≤◌, ◌<◌, ◌≡◌, refl, Bool, true, false, List, [], ◌∷◌, ◌++◌,
  length-append, length-drop, arith, length, ltb, drop, if◌then◌else◌, leb,
}
use flexbraid.SendQueue.{
  SendQueue, QueueDrop, drop_oldest, drop_newest, count_up, evict, append, enqueue,
}
use flexbraid.SendQueue.Invariant.{IsValid, total}

-- How many of the oldest frames have to go before `n` bytes fit into `bound`.
abbrev pub excess : ℕ → ℕ → List (List ℕ) → ℕ
excess bound n [] = 0
excess bound n (b ∷ q) =
    let more = excess bound n q in if ltb bound (total (b ∷ q) + n) then suc more else 0

-- It is the least such number.
pub excess_least :
    (bound n k : ℕ) (q : List (List ℕ))
    → n ≤ bound
    → (total (drop (excess bound n q) q) + n ≤ bound)
      × (total (drop k q) + n ≤ bound → excess bound n q ≤ k)
excess_least bound n k [] h = (omega arith, λ fit. omega arith)
excess_least bound n zero (b ∷ q) h = ground (arith, excess_least bound n zero q)
excess_least bound n (suc k) (b ∷ q) h = ground (arith, excess_least bound n k q)

excess_zero : (bound n : ℕ) (q : List (List ℕ)) → total q + n ≤ bound → excess bound n q ≡ 0
excess_zero bound n [] h = refl
excess_zero bound n (b ∷ q) h = ground arith

excess-le-length : (bound n : ℕ) (q : List (List ℕ)) → excess bound n q ≤ length q
excess-le-length bound n [] = omega arith
excess-le-length bound n (b ∷ q) = ground (arith, excess-le-length bound n q)

-- The frames that an enqueue leaves, and whether it accepts: the policy as a function of lists.
unfoldable pub enqueue_spec : ℕ → QueueDrop → List ℕ → List (List ℕ) → Bool × List (List ℕ)
enqueue_spec bound drop_newest b q =
    if leb (total q + length b) bound then (true, q ++ (b ∷ [])) else (false, q)
enqueue_spec bound drop_oldest b q =
    if leb (length b) bound
    then (true, drop (excess bound (length b) q) q ++ (b ∷ []))
    else (false, q)

-- The loop of the code drops the excess and counts it.
evict_lem :
    (n : ℕ) (q : List (List ℕ)) (s : SendQueue)
    → n ≤ s.max_bytes
    → s.bytes ≡ total q
    → s.dropped < 2 ^ 64
    → ((evict n q s).0 ≡ true)
      × ((evict n q s).1.q ≡ drop (excess s.max_bytes n q) q)
      × ((evict n q s).1.dropped ≡ (s.dropped + excess s.max_bytes n q) % 2 ^ 64)
unfolding evict
evict_lem n [] s h e c = ground arith
evict_lem n (b ∷ q) s h e c =
    ground
      (arith, evict_lem n q (record s { bytes = s.bytes - length b; dropped = count_up s.dropped }))

-- On an open queue the code does what the policy says: it answers and leaves the same frames.
pub enqueue_refines :
    (b : List ℕ) {s : SendQueue}
    → IsValid s
    → s.closed ≡ false
    → s.dropped < 2 ^ 64
    → let (ok, s') = enqueue b s in (ok, s'.q) ≡ enqueue_spec s.max_bytes s.drop b s.q
unfolding enqueue enqueue_spec append
enqueue_refines b {s} v open_ c = split s.drop refl
  where
    split :
        (d : QueueDrop)
        → s.drop ≡ d
        → let (ok, s') = enqueue b s in (ok, s'.q) ≡ enqueue_spec s.max_bytes d b s.q
    split drop_newest e = ground arith
    split drop_oldest e =
        ground (arith, evict_lem (length b) s.q s, excess_zero s.max_bytes (length b) s.q)

-- Nothing vanishes uncounted: of the frames that waited and the new one, those that no longer wait
-- are the ones that `dropped` has counted.
pub enqueue_accounts :
    (b : List ℕ) {s : SendQueue}
    → IsValid s
    → s.closed ≡ false
    → s.dropped < 2 ^ 64
    → let s' = (enqueue b s).1 in
      (length s'.q ≤ length s.q + 1)
      × (s'.dropped ≡ (s.dropped + (length s.q + 1 - length s'.q)) % 2 ^ 64)
unfolding enqueue append
enqueue_accounts b {s} v open_ c = split s.drop refl
  where
    n : ℕ
    n = length b

    kept : List (List ℕ)
    kept = drop (excess s.max_bytes n s.q) s.q

    split :
        (d : QueueDrop)
        → s.drop ≡ d
        → let s' = (enqueue b s).1 in
          (length s'.q ≤ length s.q + 1)
          × (s'.dropped ≡ (s.dropped + (length s.q + 1 - length s'.q)) % 2 ^ 64)
    split drop_newest e = ground (arith, length-append s.q (b ∷ []))
    split drop_oldest e = ground (
      arith,
      evict_lem n s.q s,
      excess-le-length s.max_bytes n s.q,
      length-append s.q (b ∷ []),
      length-append kept (b ∷ []),
      length-drop (excess s.max_bytes n s.q) s.q,
    )
