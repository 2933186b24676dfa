-- ===== src/SendQueue/Fifo.antt =====
-- internal/tunnel/wanqueue.go: the order in which frames leave the queue.
use mathlib.Core.Path.{subst}
use mathlib.Core.List.{append-nil, append_assoc}
use flexbraid.Prelude.{
  ℕ, ◌+◌, ◌-◌, ◌≡◌, refl, Bool, true, false, inl, inr, List, [], ◌∷◌, ◌++◌, length, ltb, Bool-cases,
  if◌then◌else◌,
}
use flexbraid.SendQueue.{
  SendQueue, QueueDrop, drop_oldest, drop_newest, count_up, evict, append, make_room, enqueue,
  Popped, frame, ended, waits, pop_from, pop_next, close,
}

-- What producers and the consumer do to a queue, in the order of the lock.
pub data Op : Type 0 where
  put : List ℕ → Op
  take shut : Op

abbrev pub collect : Popped → List (List ℕ) × SendQueue → List (List ℕ) × SendQueue
collect (frame b) (out, s) = (b ∷ out, s)
collect ended r = r
collect waits r = r

-- The frames that the consumer gets, in order, and the queue at the end.
unfoldable pub run : List Op → SendQueue → List (List ℕ) × SendQueue
run [] s = ([], s)
run (put b ∷ ops) s = run ops (enqueue b s).1
run (shut ∷ ops) s = run ops (close s)
run (take ∷ ops) s = collect (pop_next s).0 (run ops (pop_next s).1)

abbrev pub offered : List Op → List (List ℕ)
offered [] = []
offered (put b ∷ ops) = b ∷ offered ops
offered (take ∷ ops) = offered ops
offered (shut ∷ ops) = offered ops

-- The first list is the second with some elements left out.
pub data Sub : List (List ℕ) → List (List ℕ) → Type 0 where
  done : Sub [] []
  keep : (b : List ℕ) {xs ys : List (List ℕ)} → Sub xs ys → Sub (b ∷ xs) (b ∷ ys)
  skip : (b : List ℕ) {xs ys : List (List ℕ)} → Sub xs ys → Sub xs (b ∷ ys)

Sub-refl : (xs : List (List ℕ)) → Sub xs xs
Sub-refl [] = done
Sub-refl (x ∷ xs) = keep x (Sub-refl xs)

Sub-trans : {xs ys zs : List (List ℕ)} → Sub xs ys → Sub ys zs → Sub xs zs
Sub-trans h done = h
Sub-trans h (skip b k) = skip b (Sub-trans h k)
Sub-trans (keep b h) (keep c k) = keep b (Sub-trans h k)
Sub-trans (skip b h) (keep c k) = skip c (Sub-trans h k)

Sub-append : {xs ys : List (List ℕ)} (zs : List (List ℕ)) → Sub xs ys → Sub (xs ++ zs) (ys ++ zs)
Sub-append zs done = Sub-refl zs
Sub-append zs (keep b h) = keep b (Sub-append zs h)
Sub-append zs (skip b h) = skip b (Sub-append zs h)

Sub-prefix : (xs ys : List (List ℕ)) → Sub xs (ys ++ xs)
Sub-prefix xs [] = Sub-refl xs
Sub-prefix xs (y ∷ ys) = skip y (Sub-prefix xs ys)

evict-Sub : (n : ℕ) (q : List (List ℕ)) (s : SendQueue) → Sub (evict n q s).1.q q
unfolding evict
evict-Sub n [] s = elim (Bool-cases (ltb s.max_bytes (s.bytes + n))) [
  | inl e ↦ rw e done
  | inr e ↦ rw e done
]
evict-Sub n (b ∷ q) s = elim (Bool-cases (ltb s.max_bytes (s.bytes + n))) [
  | inl e ↦ rw e (
      skip b
        (evict-Sub n q (record s { bytes = s.bytes - length b; dropped = count_up s.dropped })))
  | inr e ↦ rw e (Sub-refl (b ∷ q))
]

Sub-suffix : (xs ys : List (List ℕ)) → Sub xs (xs ++ ys)
Sub-suffix [] [] = done
Sub-suffix [] (y ∷ ys) = skip y (Sub-suffix [] ys)
Sub-suffix (x ∷ xs) ys = keep x (Sub-suffix xs ys)

append-Sub :
    (b : List ℕ) (q : List (List ℕ)) (r : Bool × SendQueue)
    → Sub r.1.q q
    → Sub (append b r).1.q (q ++ (b ∷ []))
unfolding append
append-Sub b q (true, s) h = Sub-append (b ∷ []) h
append-Sub b q (false, s) h = Sub-trans h (Sub-suffix q (b ∷ []))

make_room-Sub : (b : List ℕ) (d : QueueDrop) (s : SendQueue) → Sub (make_room b d s).1.q s.q
make_room-Sub b drop_newest s = Sub-refl s.q
make_room-Sub b drop_oldest s = evict-Sub (length b) s.q s

Sub-if :
    (c : Bool) (x y : Bool × SendQueue) (q : List (List ℕ))
    → Sub x.1.q q
    → Sub y.1.q q
    → Sub (if c then x else y).1.q q
Sub-if true x y q h k = h
Sub-if false x y q h k = k

enqueue-Sub : (b : List ℕ) (s : SendQueue) → Sub (enqueue b s).1.q (s.q ++ (b ∷ []))
unfolding enqueue
enqueue-Sub b s =
    let kept = Sub-suffix s.q (b ∷ []) in
    Sub-if s.closed _ _ _ kept (
      Sub-if (ltb s.max_bytes (length b)) _ _ _ kept (
        Sub-if (ltb s.max_bytes (s.bytes + length b)) _ _ _
          (append-Sub b s.q (make_room b s.drop s) (make_room-Sub b s.drop s))
          (append-Sub b s.q (true, s) (Sub-refl s.q))))

collect_end-Sub :
    (c : Bool) (r : List (List ℕ) × SendQueue) (ys : List (List ℕ))
    → Sub (r.0 ++ r.1.q) ys
    → let r' = collect (if c then ended else waits) r in Sub (r'.0 ++ r'.1.q) ys
collect_end-Sub true r ys h = h
collect_end-Sub false r ys h = h

collect-Sub :
    (q : List (List ℕ)) (ops : List Op) (s : SendQueue)
    → s.q ≡ q
    → ((t : SendQueue) → Sub ((run ops t).0 ++ (run ops t).1.q) (t.q ++ offered ops))
    → let r = collect (pop_from q s).0 (run ops (pop_from q s).1) in
      Sub (r.0 ++ r.1.q) (q ++ offered ops)
unfolding pop_next
collect-Sub [] ops s e ih =
    collect_end-Sub s.closed (run ops s) (offered ops)
      (subst (λ q. Sub ((run ops s).0 ++ (run ops s).1.q) (q ++ offered ops)) e (ih s))
collect-Sub (b ∷ q) ops s e ih = keep b (ih _)

-- Whatever is enqueued, popped and dropped, and in whatever order: the frames that the consumer
-- gets, followed by those that still wait, are the offered ones in the order of their arrival, with
-- some left out. None is repeated, overtaken or made up.
pub run_fifo :
    (ops : List Op) (s : SendQueue) → Sub ((run ops s).0 ++ (run ops s).1.q) (s.q ++ offered ops)
unfolding run close pop_next
run_fifo [] s = rw append-nil (Sub-refl s.q)
run_fifo (put b ∷ ops) s =
    Sub-trans (run_fifo ops (enqueue b s).1)
      (rw append_assoc at (Sub-append (offered ops) (enqueue-Sub b s)))
run_fifo (shut ∷ ops) s = run_fifo ops (close s)
run_fifo (take ∷ ops) s = collect-Sub s.q ops s refl (run_fifo ops)
