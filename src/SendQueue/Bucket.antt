-- ===== src/SendQueue/Bucket.antt =====
-- internal/tunnel/wanqueue.go: the token bucket that paces the consumer. Tokens and rate are floats;
-- the clock is monotonic, in nanoseconds.
use flexbraid.Prelude.{
  ℕ, ◌-◌, ◌/◌, ◌%◌, ◌≡◌, refl, ◌∙◌, sym, Bool, true, false, List, [], ◌∷◌, All, ◌==◌, if◌then◌else◌,
  Bool-cases, inl, inr, ap, by_test, Bool-absurd, if-true, if-false,
}
use flexbraid.Prelude.Int.{ℤ, pos}
use flexbraid.Float.{Float}

-- The bytes that the queue and the bucket hold.
abbrev pub capacity : ℕ → ℕ
capacity max_bytes = if max_bytes == 0 then 262144 else max_bytes

module _ (fl : Float) where
  open fl use {Carrier, milli, add, sub, mul, div, lt, le, of_int, to_int}

  pub record Bucket : Type 0 where
    pub rate : Carrier
    pub burst : Carrier
    pub tokens : Carrier
    pub last_ref : ℕ

  -- The bucket of `newSendQueue`, full.
  unfoldable pub new_bucket : ℕ → Carrier → ℕ → Bucket
  new_bucket max_bytes rate now =
      let size = of_int (pos (capacity max_bytes)) in
      record { rate = rate; burst = size; tokens = size; last_ref = now }

  -- `Duration.Seconds`: whole seconds and the rest are converted on their own.
  abbrev pub seconds : ℕ → Carrier
  seconds d =
      add (of_int (pos (d / 1_000_000_000)))
        (div (of_int (pos (d % 1_000_000_000))) (of_int (pos 1_000_000_000)))

  -- `math.Min`, whose first argument here is a positive number.
  abbrev pub at_most : Carrier → Carrier → Carrier
  at_most x y = if lt x y then x else y

  unfoldable pub refill : ℕ → Bucket → Bucket
  refill now k = record k {
    tokens = at_most k.burst (add k.tokens (mul (seconds (now - k.last_ref)) k.rate));
    last_ref = now;
  }

  -- One round of the loop of `takeTokens` at the clock reading `now`: whether the bytes were taken.
  unfoldable pub take_round : ℕ → ℕ → Bucket → Bool × Bucket
  unfolding refill
  take_round now n k =
      let need = of_int (pos n) in
      let k' = refill now k in
      if le k.rate (milli 0)
      then (true, k)
      else if le need k'.tokens
      then (true, record k' { tokens = sub k'.tokens need })
      else (false, k')

  -- The timer that a failed round sets, in nanoseconds, negative or zero if it fires at once.
  unfoldable pub wait_time : ℕ → Bucket → ℤ
  wait_time n k =
      to_int (mul (div (sub (of_int (pos n)) k.tokens) k.rate) (of_int (pos 1_000_000_000)))

  -- The sizes that are granted in rounds of any sizes at any times.
  unfoldable pub granted : List (ℕ × ℕ) → Bucket → List ℕ
  granted [] k = []
  granted ((now, n) ∷ rs) k =
      let (got, k') = take_round now n k in
      let more = granted rs k' in if got then n ∷ more else more

  -- What comparisons of float64 promise, infinities and NaN included: what is at most `x` is at most
  -- an integer that is not below `x`.
  abbrev pub IsBounding : Type 0
  IsBounding =
      (n x : Carrier) (m : ℤ) → le n x ≡ true → lt (of_int m) x ≡ false → le n (of_int m) ≡ true

  -- A bucket of `size` bytes that paces.
  record IsPaced (size : ℕ) (k : Bucket) : Type 0 where
    paced : le k.rate (milli 0) ≡ false
    holds : k.burst ≡ of_int (pos size)

  abbrev FitsIn : ℕ → ℕ → Type 0
  FitsIn size n = le (of_int (pos n)) (of_int (pos size)) ≡ true

  take_round-IsPaced :
      (now n size : ℕ) (k : Bucket) → IsPaced size k → IsPaced size (take_round now n k).1
  unfolding take_round
  take_round-IsPaced now n size k p =
      by_test (λ (r : Bool × Bucket). IsPaced size r.1) (le k.rate (milli 0)) _ _ (λ _. p)
        (λ _.
          by_test (λ (r : Bool × Bucket). IsPaced size r.1)
            (le (of_int (pos n)) (refill now k).tokens) _ _
            (λ _. record { paced = p.paced; holds = p.holds })
            (λ _. record { paced = p.paced; holds = p.holds }))

  take_round-FitsIn :
      (now n size : ℕ) (k : Bucket)
      → IsBounding
      → IsPaced size k
      → (take_round now n k).0 ≡ true
      → FitsIn size n
  unfolding take_round
  take_round-FitsIn now n size k law p =
      let Kept : Bool × Bucket → Type 0 = λ r. r.0 ≡ true → FitsIn size n in
      let earned = add k.tokens (mul (seconds (now - k.last_ref)) k.rate) in
      let within : (b x : Carrier)
          → b ≡ of_int (pos size)
          → le (of_int (pos n)) (at_most b x) ≡ true
          → FitsIn size n =
        λ b x same h. elim (Bool-cases (lt b x)) [
          | inl full ↦
              ap (le (of_int (pos n))) (sym same)
              ∙ ap (le (of_int (pos n))) (sym (if-true _ _ full))
              ∙ h
          | inr low ↦
              law (of_int (pos n)) x (pos size)
                (ap (le (of_int (pos n))) (sym (if-false _ _ low)) ∙ h)
                (ap (λ c. lt c x) (sym same) ∙ low)
        ] in
      by_test Kept (le k.rate (milli 0)) _ _ (λ free got. absurd (Bool-absurd free p.paced))
        (λ _.
          by_test Kept (le (of_int (pos n)) (refill now k).tokens) _ _
            (λ enough got. within k.burst earned p.holds enough)
            (λ short got. absurd (Bool-absurd got refl)))

  granted-FitsIn :
      (size : ℕ) (rs : List (ℕ × ℕ)) (k : Bucket)
      → IsBounding
      → IsPaced size k
      → All (FitsIn size) (granted rs k)
  unfolding granted
  granted-FitsIn size [] k law p = tt
  granted-FitsIn size ((now, n) ∷ rs) k law p =
      let rest =
        granted-FitsIn size rs (take_round now n k).1 law (take_round-IsPaced now n size k p) in
      by_test (All (FitsIn size)) (take_round now n k).0 _ _
        (λ got. (take_round-FitsIn now n size k law p got, rest)) (λ _. rest)

  -- A bucket that paces never grants more at once than it holds when it is full, in any rounds, of any
  -- sizes and at any times: for a larger frame, the loop of takeTokens never ends on its own. The
  -- comparisons are those of float64.
  pub granted_bound :
      (max_bytes now : ℕ) (rate : Carrier) (rs : List (ℕ × ℕ))
      → IsBounding
      → le rate (milli 0) ≡ false
      → All
          (λ n. le (of_int (pos n)) (of_int (pos (capacity max_bytes))) ≡ true)
          (granted rs (new_bucket max_bytes rate now))
  unfolding new_bucket
  granted_bound max_bytes now rate rs law paced =
      granted-FitsIn (capacity max_bytes) rs (new_bucket max_bytes rate now) law
        (record { paced = paced; holds = refl })
