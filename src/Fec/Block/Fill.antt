-- ===== src/Fec/Block/Fill.antt =====
-- internal/fec/fec.go: the missing payloads put in from the rebuilt shards, and the frames emitted.
use flexbraid.Prelude.{
  ℕ, suc, ◌+◌, ◌-◌, ◌≤◌, ◌≡◌, refl, ap, ◌∙◌, ◌≢◌, inl, inr, false, none, some, List, [], ◌∷◌, ◌++◌,
  map, arith, length, take, All, replicate, Option-cases, ltb,
}
use flexbraid.Assoc.{Assoc, lookup, put, lookup-put}
use flexbraid.Frame.{Frame}
use flexbraid.Fec.Encoder.{pad}
use flexbraid.Fec.Block.{fill, emit, plain}
use flexbraid.Fec.Block.Shards.{IsHeld, count_data, DistinctSeqs, padded, length-pad, take-append}

-- The payload of the frame is held.
abbrev pub IsStored : Assoc (List ℕ) → Frame → Type 0
IsStored m f = lookup f.seq m ≡ some f.payload

length-put_of_none :
    (k : ℕ) (b : List ℕ) (m : Assoc (List ℕ))
    → lookup k m ≡ none
    → length (put k b m) ≡ suc (length m)
length-put_of_none k b [] e = refl
length-put_of_none k b ((j, c) ∷ m) e = ground (arith, length-put_of_none k b m)

IsHeld-put :
    (f : Frame) (m : Assoc (List ℕ)) (ds : List Frame)
    → All (λ (g : Frame). g.seq ≢ f.seq) ds
    → All (IsHeld m) ds
    → All (IsHeld (put f.seq f.payload m)) ds
IsHeld-put f m [] ne h = tt
IsHeld-put f m (g ∷ ds) ne h = (
  elim h.0 [
    | inl e ↦ inl (ground (arith, lookup-put f.seq g.seq f.payload m))
    | inr e ↦ inr (ground (arith, lookup-put f.seq g.seq f.payload m))
  ],
  IsHeld-put f m ds ne.1 h.1,
)

count_data-put :
    (f : Frame) (m : Assoc (List ℕ)) (ds : List Frame)
    → All (λ (g : Frame). g.seq ≢ f.seq) ds
    → count_data ds (put f.seq f.payload m) ≡ count_data ds m
count_data-put f m [] ne = refl
count_data-put f m (g ∷ ds) ne =
    let same : lookup g.seq (put f.seq f.payload m) ≡ lookup g.seq m =
      ground (arith, lookup-put f.seq g.seq f.payload m) in
    rw same (omega (arith, count_data-put f m ds ne.1))

-- All frames `ds` are stored in `m'`, no other key has changed, and `n` is how many were missing.
pub record Filled (ds : List Frame) (m : Assoc (List ℕ)) (n : ℕ) (m' : Assoc (List ℕ))
    : Type 0 where
  pub stored : All (IsStored m') ds
  pub kept : (j : ℕ) → All (λ (g : Frame). g.seq ≢ j) ds → lookup j m' ≡ lookup j m
  pub grown : length m' ≡ length m + n
  pub missing_count : n + count_data ds m ≡ length ds

take-pad : (n : ℕ) (b : List ℕ) → take (length b) (pad n b) ≡ b
take-pad n b = take-append b (replicate (n - length b) 0)

pub fill-Filled :
    (n : ℕ) (ds : List Frame) (rest : List (List ℕ)) (m : Assoc (List ℕ))
    → All (λ (f : Frame). length f.payload ≤ n) ds
    → DistinctSeqs ds
    → All (IsHeld m) ds
    → (r : ℕ) × (m' : Assoc (List ℕ)) × (fill
          (map (λ (f : Frame). f.seq) ds)
          (map (λ (f : Frame). length f.payload) ds)
          (padded n ds ++ rest)
          m
        ≡ some (r, m'))
      × Filled ds m r m'
unfolding fill
fill-Filled n [] rest m fits distinct h = (
  0,
  m,
  refl,
  record { stored = tt; kept = λ j a. refl; grown = omega arith; missing_count = refl },
)
fill-Filled n (f ∷ ds) rest m fits distinct h = elim h.0 [
  | inr e ↦
      (let (r, m', eq, ih) = fill-Filled n ds rest m fits.1 distinct.1 h.1 in
        (
          r,
          m',
          rw (e, fill) eq,
          record {
            stored = (ih.kept f.seq distinct.0 ∙ e, ih.stored);
            kept = λ j a. ih.kept j a.1;
            grown = ih.grown;
            missing_count = rw e (omega (arith, ih.missing_count));
          },
        ))
  | inl e ↦
      (let m1 = put f.seq f.payload m in
        let (r, m', eq, ih) =
          fill-Filled n ds rest m1 fits.1 distinct.1 (IsHeld-put f m ds distinct.0 h.1) in
        let long : ltb (length (pad n f.payload)) (length f.payload) ≡ false =
          ground (arith, length-pad n f.payload fits.0) in
        (
          suc r,
          m',
          rw (e, fill) (rw long (rw (take-pad n f.payload) (rw eq refl))),
          record {
            stored = (
              ih.kept f.seq distinct.0 ∙ ground (arith, lookup-put f.seq f.seq f.payload m),
              ih.stored,
            );
            kept = λ j a. ih.kept j a.1 ∙ ground (arith, lookup-put f.seq j f.payload m);
            grown = omega (arith, ih.grown, length-put_of_none f.seq f.payload m e);
            missing_count =
                rw e (omega (arith, ih.missing_count, count_data-put f m ds distinct.0));
          },
        ))
]

-- What is stored is emitted, in the order of the sub-header.
pub emit_stored :
    (session : ℕ) (ds : List Frame) (m : Assoc (List ℕ))
    → All (IsStored m) ds
    → emit session (map (λ (f : Frame). f.seq) ds) m
      ≡ map (λ (f : Frame). plain session f.seq f.payload) ds
unfolding emit
emit_stored session [] m h = refl
emit_stored session (f ∷ ds) m h =
    rw (h.0, emit) (ap (λ l. plain session f.seq f.payload ∷ l) (emit_stored session ds m h.1))

count_data-le : (ds : List Frame) (m : Assoc (List ℕ)) → count_data ds m ≤ length ds
count_data-le [] m = omega arith
count_data-le (f ∷ ds) m = elim (Option-cases (lookup f.seq m)) [
  | inl e ↦ rw e (omega (arith, count_data-le ds m))
  | inr (b, e) ↦ rw e (omega (arith, count_data-le ds m))
]

-- Where as many payloads are held as there are frames, all of them are.
pub IsStored-of_count :
    (ds : List Frame) (m : Assoc (List ℕ))
    → All (IsHeld m) ds
    → count_data ds m ≡ length ds
    → All (IsStored m) ds
IsStored-of_count [] m h c = tt
IsStored-of_count (f ∷ ds) m h c = elim h.0 [
  | inl e ↦ absurd (ground (arith, count_data-le ds m))
  | inr e ↦ (e, IsStored-of_count ds m h.1 (ground arith))
]
