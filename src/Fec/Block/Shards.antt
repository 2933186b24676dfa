-- ===== src/Fec/Block/Shards.antt =====
-- internal/fec/fec.go: which shards of an emitted block a receiver holds.
use flexbraid.Prelude.{
  ℕ, zero, suc, ◌+◌, ◌-◌, ◌≤◌, ◌≡◌, refl, ap, ◌≢◌, ◌⊎◌, inl, inr, Option, none, some, List, [], ◌∷◌,
  ◌++◌, map, arith, length, length-append, length-replicate, take, All, replicate, Option-cases,
}
use flexbraid.Assoc.{Assoc, lookup}
use flexbraid.Frame.{Frame}
use flexbraid.Fec.{ReedSolomon}
use flexbraid.Fec.Encoder.{pad, max_len_of}
use flexbraid.Fec.Block.{BlockState, data_shard, parity_slots, shards_of}

-- The known slots are right.
abbrev pub Agrees : List (Option (List ℕ)) → List (List ℕ) → Type 0
Agrees [] [] = Unit
Agrees [] (s ∷ ss) = ⊥
Agrees (o ∷ os) [] = ⊥
Agrees (o ∷ os) (s ∷ ss) = ((o ≡ none) ⊎ (o ≡ some s)) × Agrees os ss

abbrev pub one_if : Option (List ℕ) → ℕ
one_if none = 0
one_if (some b) = 1

abbrev pub known : List (Option (List ℕ)) → ℕ
known [] = 0
known (o ∷ os) = one_if o + known os

-- The documented behaviour of the library: from any `k` of the shards of a code word, the data shards
-- and the parity that `Encode` made of them, `Reconstruct` brings all of them back.
abbrev pub IsMds : ReedSolomon → Type 0
IsMds rs =
    (k p n : ℕ) (shards ps : List (List ℕ)) (slots : List (Option (List ℕ)))
    → length shards ≡ k
    → All (λ (s : List ℕ). length s ≡ n) shards
    → rs.parity_of k p shards ≡ some ps
    → Agrees slots (shards ++ ps)
    → k ≤ known slots
    → rs.reconstruct k p slots ≡ some (shards ++ ps)

-- The payloads held under the seqs of the frames are those of the frames.
abbrev pub IsHeld : Assoc (List ℕ) → Frame → Type 0
IsHeld m f = (lookup f.seq m ≡ none) ⊎ (lookup f.seq m ≡ some f.payload)

abbrev pub count_data : List Frame → Assoc (List ℕ) → ℕ
count_data [] m = 0
count_data (f ∷ fs) m = one_if (lookup f.seq m) + count_data fs m

-- The parity held from the index `i` on is that of the block.
abbrev pub ParityHeld : ℕ → List (List ℕ) → Assoc (List ℕ) → Type 0
ParityHeld i [] m = Unit
ParityHeld i (s ∷ ss) m = ((lookup i m ≡ none) ⊎ (lookup i m ≡ some s)) × ParityHeld (i + 1) ss m

abbrev pub count_parity : ℕ → List (List ℕ) → Assoc (List ℕ) → ℕ
count_parity i [] m = 0
count_parity i (s ∷ ss) m = one_if (lookup i m) + count_parity (i + 1) ss m

-- The state of a receiver that knows the sub-header of the block `ds` with parity `ps` and holds
-- shards of that block only.
pub record PartOf (ds : List Frame) (ps : List (List ℕ)) (st : BlockState) : Type 0 where
  pub k_is : st.k ≡ length ds
  pub p_is : st.p ≡ length ps
  pub max_len_is : st.max_len ≡ max_len_of ds
  pub seqs_are : st.seqs ≡ map (λ (f : Frame). f.seq) ds
  pub lens_are : st.lens ≡ map (λ (f : Frame). length f.payload) ds
  pub data_right : All (IsHeld st.data_shards) ds
  pub data_count : length st.data_shards ≡ count_data ds st.data_shards
  pub parity_right : ParityHeld 0 ps st.parity_shards
  pub parity_count : length st.parity_shards ≡ count_parity 0 ps st.parity_shards

-- No seq twice, as the session numbers frames.
abbrev pub DistinctSeqs : List Frame → Type 0
DistinctSeqs [] = Unit
DistinctSeqs (f ∷ fs) = All (λ (g : Frame). g.seq ≢ f.seq) fs × DistinctSeqs fs

pub length-pad : (n : ℕ) (b : List ℕ) → length b ≤ n → length (pad n b) ≡ n
length-pad n b h =
    omega (
      arith,
      length-append b (replicate (n - length b) 0),
      length-replicate {A = ℕ} (n - length b) 0,
    )

pub take-append : (b c : List ℕ) → take (length b) (b ++ c) ≡ b
take-append [] c = refl
take-append (x ∷ b) c = ap (λ l. x ∷ l) (take-append b c)

take_long : (n : ℕ) (b : List ℕ) → length b ≤ n → take n b ≡ b
take_long zero [] h = refl
take_long zero (x ∷ b) h = absurd (omega arith)
take_long (suc n) [] h = refl
take_long (suc n) (x ∷ b) h = ap (λ l. x ∷ l) (take_long n b (omega arith))

-- Every payload fits in a shard.
pub max_len_of-fits : (ds : List Frame) → All (λ (f : Frame). length f.payload ≤ max_len_of ds) ds
unfolding max_len_of
max_len_of-fits ds = go ds (max_len_of ds) (omega arith)
  where
    go :
        (fs : List Frame) (n : ℕ) → max_len_of fs ≤ n → All (λ (f : Frame). length f.payload ≤ n) fs
    go [] n h = tt
    go (f ∷ fs) n h = (omega arith, go fs n (omega arith))

abbrev pub padded : ℕ → List Frame → List (List ℕ)
padded n = map (λ (f : Frame). pad n f.payload)

Agrees-data :
    (n : ℕ) (m : Assoc (List ℕ)) (ds : List Frame) (ps : List (List ℕ))
    (os : List (Option (List ℕ)))
    → All (λ (f : Frame). length f.payload ≤ n) ds
    → All (IsHeld m) ds
    → Agrees os ps
    → Agrees (map (data_shard n m) (map (λ (f : Frame). f.seq) ds) ++ os) (padded n ds ++ ps)
Agrees-data n m [] ps os fits right a = a
Agrees-data n m (f ∷ ds) ps os fits right a = (
  elim right.0 [
    | inl e ↦ inl (rw (e, data_shard) refl)
    | inr e ↦ inr (rw (e, data_shard) (ap (λ b. some (pad n b)) (take_long n f.payload fits.0)))
  ],
  Agrees-data n m ds ps os fits.1 right.1 a,
)

Agrees-parity :
    (i : ℕ) (ps : List (List ℕ)) (m : Assoc (List ℕ))
    → ParityHeld i ps m
    → Agrees (parity_slots i (length ps) m) ps
unfolding parity_slots
Agrees-parity i [] m h = tt
Agrees-parity i (s ∷ ps) m h = (h.0, Agrees-parity (i + 1) ps m h.1)

known-append : (os qs : List (Option (List ℕ))) → known (os ++ qs) ≡ known os + known qs
known-append [] qs = omega arith
known-append (o ∷ os) qs = omega (arith, known-append os qs)

known-data :
    (n : ℕ) (m : Assoc (List ℕ)) (ds : List Frame)
    → known (map (data_shard n m) (map (λ (f : Frame). f.seq) ds)) ≡ count_data ds m
known-data n m [] = refl
known-data n m (f ∷ ds) = elim (Option-cases (lookup f.seq m)) [
  | inl e ↦ rw (e, data_shard) (omega (arith, known-data n m ds))
  | inr (b, e) ↦ rw (e, data_shard) (omega (arith, known-data n m ds))
]

known-parity :
    (i : ℕ) (ps : List (List ℕ)) (m : Assoc (List ℕ))
    → known (parity_slots i (length ps) m) ≡ count_parity i ps m
unfolding parity_slots
known-parity i [] m = refl
known-parity i (s ∷ ps) m = omega (arith, known-parity (i + 1) ps m)

module _ (ds : List Frame) (ps : List (List ℕ)) (st : BlockState) (part : PartOf ds ps st) where
  abbrev own_slots : List (Option (List ℕ))
  own_slots =
      map (data_shard (max_len_of ds) st.data_shards) (map (λ (f : Frame). f.seq) ds)
      ++ parity_slots 0 (length ps) st.parity_shards

  shards_of-own : shards_of st ≡ own_slots
  unfolding shards_of
  shards_of-own = rw (part.max_len_is, part.seqs_are, part.p_is) refl

  -- What is passed to `Reconstruct` agrees with the code word of the block,
  pub shards_of-Agrees : Agrees (shards_of st) (padded (max_len_of ds) ds ++ ps)
  shards_of-Agrees = rw shards_of-own (
      Agrees-data (max_len_of ds) st.data_shards ds ps _ (max_len_of-fits ds) part.data_right
        (Agrees-parity 0 ps st.parity_shards part.parity_right))

  -- and has as many known shards as the block holds.
  pub known-shards_of : known (shards_of st) ≡ length st.data_shards + length st.parity_shards
  known-shards_of = rw shards_of-own (
      omega (
        arith,
        known-append
            (map (data_shard (max_len_of ds) st.data_shards) (map (λ (f : Frame). f.seq) ds))
            (parity_slots 0 (length ps) st.parity_shards),
        known-data (max_len_of ds) st.data_shards ds,
        known-parity 0 ps st.parity_shards,
        part.data_count,
        part.parity_count,
      ))
