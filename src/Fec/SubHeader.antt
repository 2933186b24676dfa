-- ===== src/Fec/SubHeader.antt =====
-- internal/fec/fec.go: the self-describing sub-header of a parity frame, as emitBlock writes it and
-- addParity reads it.
use flexbraid.Prelude.{
  ℕ, zero, suc, ◌+◌, ◌*◌, ◌^◌, ◌<◌, ◌≡◌, refl, Option, none, some, List, [], ◌∷◌, ◌++◌, arith,
  length, length-append, take, drop, take_all, All, put16, put32, uint16, uint32, uint16-put16,
  uint32-put32, ltb, if◌then◌else◌,
}
use flexbraid.Fec.{parity_hdr_fixed}

pub record SubHeader : Type 0 where
  pub k : ℕ
  pub index : ℕ
  pub max_len : ℕ
  pub p : ℕ
  pub seqs : List ℕ
  pub lens : List ℕ

abbrev pub put32s : List ℕ → List ℕ
put32s [] = []
put32s (n ∷ ns) = put32 n ++ put32s ns

abbrev pub put16s : List ℕ → List ℕ
put16s [] = []
put16s (n ∷ ns) = put16 n ++ put16s ns

-- The payload of a parity frame.
unfoldable pub write : SubHeader → List ℕ → List ℕ
write h shard =
    put16 h.k
    ++ put16 h.index
    ++ put16 h.max_len
    ++ put16 h.p
    ++ (put32s h.seqs ++ (put16s h.lens ++ shard))

-- `n` numbers of four or two bytes from the start of a slice.
unfoldable pub read32s : ℕ → List ℕ → List ℕ
read32s zero b = []
read32s (suc n) b = uint32 b 0 ∷ read32s n (drop 4 b)

unfoldable pub read16s : ℕ → List ℕ → List ℕ
read16s zero b = []
read16s (suc n) b = uint16 b 0 ∷ read16s n (drop 2 b)

-- The fields and the shard, or `none` for a payload that is too short.
unfoldable pub read : List ℕ → Option (SubHeader × List ℕ)
unfolding read32s read16s
read b =
    let k = uint16 b 0 in
    let max_len = uint16 b 4 in
    if ltb (length b) parity_hdr_fixed
    then none
    else if ltb (length b) (parity_hdr_fixed + 4 * k + 2 * k + max_len)
    then none
    else some (
      record {
        k = k;
        index = uint16 b 2;
        max_len = max_len;
        p = uint16 b 6;
        seqs = read32s k (drop parity_hdr_fixed b);
        lens = read16s k (drop (4 * k) (drop parity_hdr_fixed b));
      },
      take max_len (drop (2 * k) (drop (4 * k) (drop parity_hdr_fixed b))),
    )

abbrev pub IsUint32 : ℕ → Type 0
IsUint32 n = n < 2 ^ 32

abbrev pub IsUint16 : ℕ → Type 0
IsUint16 n = n < 2 ^ 16

-- What emitBlock writes for a block of `k` frames.
pub record Describes (h : SubHeader) (shard : List ℕ) : Type 0 where
  pub k_in : h.k < 2 ^ 16
  pub index_in : h.index < 2 ^ 16
  pub max_len_in : h.max_len < 2 ^ 16
  pub p_in : h.p < 2 ^ 16
  pub seqs_len : length h.seqs ≡ h.k
  pub lens_len : length h.lens ≡ h.k
  pub seqs_in : All IsUint32 h.seqs
  pub lens_in : All IsUint16 h.lens
  pub shard_len : length shard ≡ h.max_len

length-put32s : (ns : List ℕ) → length (put32s ns) ≡ 4 * length ns
length-put32s [] = refl
length-put32s (n ∷ ns) = omega (arith, length-put32s ns)

length-put16s : (ns : List ℕ) → length (put16s ns) ≡ 2 * length ns
length-put16s [] = refl
length-put16s (n ∷ ns) = omega (arith, length-put16s ns)

read32s-put32s : (ns rest : List ℕ) → All IsUint32 ns → read32s (length ns) (put32s ns ++ rest) ≡ ns
unfolding read32s
read32s-put32s [] rest h = refl
read32s-put32s (n ∷ ns) rest h = ground (arith, uint32-put32 n h.0, read32s-put32s ns rest h.1)

read16s-put16s : (ns rest : List ℕ) → All IsUint16 ns → read16s (length ns) (put16s ns ++ rest) ≡ ns
unfolding read16s
read16s-put16s [] rest h = refl
read16s-put16s (n ∷ ns) rest h = ground (arith, uint16-put16 n h.0, read16s-put16s ns rest h.1)

drop-append : (xs ys : List ℕ) → drop (length xs) (xs ++ ys) ≡ ys
drop-append [] ys = refl
drop-append (x ∷ xs) ys = drop-append xs ys

-- The two lists at the lengths that the sub-header states.
module _ (h : SubHeader) (shard : List ℕ) (d : Describes h shard) where
  seqs_back : read32s h.k (put32s h.seqs ++ (put16s h.lens ++ shard)) ≡ h.seqs
  seqs_back = rw (← d.seqs_len) (read32s-put32s h.seqs (put16s h.lens ++ shard) d.seqs_in)

  seqs_skipped : drop (4 * h.k) (put32s h.seqs ++ (put16s h.lens ++ shard)) ≡ put16s h.lens ++ shard
  seqs_skipped = rw (← d.seqs_len, ← length-put32s h.seqs) (drop-append (put32s h.seqs) _)

  lens_back : read16s h.k (put16s h.lens ++ shard) ≡ h.lens
  lens_back = rw (← d.lens_len) (read16s-put16s h.lens shard d.lens_in)

  lens_skipped : drop (2 * h.k) (put16s h.lens ++ shard) ≡ shard
  lens_skipped = rw (← d.lens_len, ← length-put16s h.lens) (drop-append (put16s h.lens) shard)

  shard_back : take h.max_len shard ≡ shard
  shard_back = rw (← d.shard_len) (take_all shard)

  lists_len : length (put32s h.seqs ++ (put16s h.lens ++ shard)) ≡ 4 * h.k + 2 * h.k + h.max_len
  lists_len = omega (
    arith,
    length-append (put32s h.seqs) (put16s h.lens ++ shard),
    length-append (put16s h.lens) shard,
    length-put32s h.seqs,
    length-put16s h.lens,
    d.shard_len,
    d.seqs_len,
    d.lens_len,
  )

  -- addParity reads back what emitBlock wrote: every field of the sub-header and the shard.
  pub read-write : read (write h shard) ≡ some (h, shard)
  unfolding read write
  read-write = ground (
    arith,
    uint16-put16 h.k d.k_in,
    uint16-put16 h.index d.index_in,
    uint16-put16 h.max_len d.max_len_in,
    uint16-put16 h.p d.p_in,
    seqs_back,
    seqs_skipped,
    lens_back,
    lens_skipped,
    shard_back,
    lists_len,
  )
