-- ===== src/Delivery/Order.antt =====
-- internal/tunnel/delivery.go: what Push and Tick deliver, and in which order.
use flexbraid.Prelude.{
  ℕ, zero, suc, ◌≡◌, refl, inl, inr, List, [], ◌∷◌, ◌++◌, arith, length, All, ◌==◌, Bool-cases,
  Option-cases,
}
use flexbraid.Assoc.{Assoc, lookup, erase, All-erase, All-lookup}
use flexbraid.Frame.{Frame}
use flexbraid.Delivery.{Buffer, next_seq, before, drain, drain_contiguous, store, accept, push}
use flexbraid.Delivery.Invariant.{Fits, IsValid, accept-IsValid, IsTimedFrame}

-- The frames carry the seqs `n`, `n + 1`, ... in the circle of 2 ^ 32, and `m` is the one after.
abbrev pub Run : ℕ → List Frame → ℕ → Type 0
Run n [] m = n ≡ m
Run n (f ∷ fs) m = (f.seq ≡ n) × Run (next_seq n) fs m

Run-append : (n k m : ℕ) (xs ys : List Frame) → Run n xs k → Run k ys m → Run n (xs ++ ys) m
Run-append n k m [] ys h r = rw h r
Run-append n k m (x ∷ xs) ys h r = (h.0, Run-append (next_seq n) k m xs ys h.1 r)

abbrev pub IsKeyed : ℕ × Frame → Type 0
IsKeyed e = e.0 ≡ e.1.seq

pub IsKeyed-of_Fits : (n : ℕ) (m : Assoc Frame) → All (Fits n) m → All IsKeyed m
IsKeyed-of_Fits n [] a = tt
IsKeyed-of_Fits n (e ∷ m) a = (a.0.keyed, IsKeyed-of_Fits n m a.1)

drain-Run :
    (fuel next : ℕ) (m : Assoc Frame)
    → All IsKeyed m
    → Run next (drain fuel next m).0 (drain fuel next m).1
unfolding drain
drain-Run zero next m a = refl
drain-Run (suc fuel) next m a = elim (Option-cases (lookup next m)) [
  | inl e ↦ rw (e, drain)
  | inr (f, e) ↦
      rw (e, drain)
        (
          ground (arith, All-lookup IsKeyed next m f a e),
          drain-Run fuel (next_seq next) (erase next m) (All-erase IsKeyed next m a),
        )
]

pub drain_contiguous-Run :
    (d : Buffer)
    → All IsKeyed d.pending
    → Run d.next (drain_contiguous d).0 (drain_contiguous d).1.next
unfolding drain_contiguous
drain_contiguous-Run d a = drain-Run (length d.pending) d.next d.pending a

accept-Run :
    (now : ℕ) (f : Frame) {d : Buffer}
    → IsValid d
    → Run d.next (accept now f d).0 (accept now f d).1.next
unfolding accept
accept-Run now f {d} v = elim (Bool-cases (before f.seq d.next)) [
  | inl late ↦ rw (late, accept)
  | inr fresh ↦ elim (Bool-cases (f.seq == d.next)) [
    | inl hit ↦
        rw (fresh, hit, accept)
          (
            ground arith,
            drain_contiguous-Run (record d { next = next_seq d.next })
                (IsKeyed-of_Fits d.next d.pending v.fits),
          )
    | inr other ↦ rw (fresh, other, accept) (unfold store in ground arith)
  ]
]

-- Whatever frames arrive in whatever order, what a Push delivers carries consecutive seqs from
-- `next` on, and `next` ends behind the last of them. Nothing is delivered twice or out of order.
pub push-Run :
    (fs : List (ℕ × Frame)) {d : Buffer}
    → All IsTimedFrame fs
    → IsValid d
    → Run d.next (push fs d).0 (push fs d).1.next
unfolding push
push-Run [] h v = refl
push-Run ((now, f) ∷ fs) {d} h v =
    Run-append d.next _ _ (accept now f d).0 _ (accept-Run now f v)
      (push-Run fs h.1 (accept-IsValid now f h.0 v))
