-- ===== src/Transport/Checksum.antt =====
-- internal/transport/icmp.go, internal/transport/faketcp.go: the internet checksum (icmpChecksum,
-- ipChecksum, checksumWithPseudo).
use flexbraid.Prelude.{
  ℕ, zero, suc, ◌+◌, ◌-◌, ◌*◌, ◌/◌, ◌%◌, ◌^◌, ◌≤◌, ◌<◌, ◌≡◌, ap, ◌∙◌, List, [], ◌∷◌, ◌↔◌, All,
  arith, length, ltb, ◌==◌, if◌then◌else◌, ◌⊎◌,
}

abbrev pub IsByte : ℕ → Type 0
IsByte b = b < 256

-- The loop over the pairs of bytes in uint32; an odd last byte is a high byte.
unfoldable pub word_sum : List ℕ → ℕ → ℕ
word_sum [] acc = acc
word_sum (a ∷ []) acc = (acc + a * 256) % 2 ^ 32
word_sum (a ∷ b ∷ bs) acc = word_sum bs ((acc + (a * 256 + b)) % 2 ^ 32)

-- `for sum>>16 != 0 { sum = (sum & 0xffff) + (sum >> 16) }`, on fuel.
unfoldable pub fold_loop : ℕ → ℕ → ℕ
fold_loop zero n = n
fold_loop (suc fuel) n =
    let next = fold_loop fuel (n % 2 ^ 16 + n / 2 ^ 16) in if ltb n (2 ^ 16) then n else next

-- Two rounds are enough for a uint32.
abbrev pub fold : ℕ → ℕ
fold n = fold_loop 2 n

-- `^uint16(sum)`
abbrev pub complement : ℕ → ℕ
complement n = 65_535 - n

abbrev pub checksum : List ℕ → ℕ
checksum b = complement (fold (word_sum b 0))

-- The sum with no wrap-around.
unfoldable pub total : List ℕ → ℕ
total [] = 0
total (a ∷ []) = a * 256
total (a ∷ b ∷ bs) = a * 256 + b + total bs

pub total-le : (bs : List ℕ) → All IsByte bs → 2 * total bs ≤ 65_535 * (length bs + 1)
unfolding total
total-le [] h = omega arith
total-le (a ∷ []) h = omega arith
total-le (a ∷ b ∷ bs) h = omega (arith, total-le bs h.1.1)

-- No datagram is long enough to wrap the sum around.
pub word_sum-total :
    (bs : List ℕ) (acc : ℕ)
    → All IsByte bs
    → acc + 65_535 * length bs < 2 ^ 32
    → word_sum bs acc ≡ acc + total bs
unfolding word_sum total
word_sum-total [] acc h small = omega arith
word_sum-total (a ∷ []) acc h small = omega arith
word_sum-total (a ∷ b ∷ bs) acc h small =
    let e : (acc + (a * 256 + b)) % 2 ^ 32 ≡ acc + (a * 256 + b) = omega arith in
    rw e (word_sum-total bs (acc + (a * 256 + b)) h.1.1 (omega arith) ∙ omega arith)

-- The loop ends within two rounds, with a number of 16 bits that is congruent to the sum modulo
-- 65535 and is 0 only for 0.
pub fold_lem :
    (n : ℕ)
    → n < 2 ^ 32
    → (fold n < 2 ^ 16) × (fold n % 65_535 ≡ n % 65_535) × ((n ≡ 0) ⊎ (0 < fold n))
unfolding fold_loop
fold_lem n h = ground arith

-- What a packet whose words sum to `t` sums to once its checksum `c` is filled in.
pub summed_is_valid : (t : ℕ) → t < 2 ^ 31 → complement (fold (t + complement (fold t))) ≡ 0
unfolding fold_loop
summed_is_valid t h =
    let c = complement (fold t) in
    let (small, same, pos) = fold_lem t (omega arith) in
    let (small', same', pos') = fold_lem (t + c) (omega arith) in ground arith

-- And what it sums to with the complement of the checksum.
pub mangled_is_valid :
    (t : ℕ) → t < 2 ^ 31 → (complement (fold (t + fold t)) ≡ 0) ↔ (complement (fold t) ≡ 0)
unfolding fold_loop
mangled_is_valid t h =
    let (small, same, pos) = fold_lem t (omega arith) in
    let (small', same', pos') = fold_lem (t + fold t) (omega arith) in ground arith

pub checksum-total :
    (bs : List ℕ)
    → All IsByte bs
    → length bs ≤ 65_535
    → (checksum bs ≡ complement (fold (total bs))) × (total bs < 2 ^ 32)
checksum-total bs h small = (
  ap (λ n. complement (fold n)) (word_sum-total bs 0 h (omega arith) ∙ omega arith),
  omega (arith, total-le bs h),
)

-- The internet checksum by its definition: the complement of the sum of the words in ones' complement,
-- which is 0 only for no words but zeros.
pub reference : List ℕ → ℕ
reference bs = complement (if total bs == 0 then 0 else (total bs - 1) % 65_535 + 1)

fold-representative : (n : ℕ) → n < 2 ^ 32 → fold n ≡ (if n == 0 then 0 else (n - 1) % 65_535 + 1)
unfolding fold_loop
fold-representative n below = let (bound, same, positive) = fold_lem n below in ground arith

-- The loop in uint32 with its folding computes the checksum of the definition.
pub checksum-reference :
    (bs : List ℕ) → All IsByte bs → length bs ≤ 65_535 → checksum bs ≡ reference bs
unfolding reference
checksum-reference bs h small =
    let (e, below) = checksum-total bs h small in
    e ∙ ap complement (fold-representative (total bs) below)
