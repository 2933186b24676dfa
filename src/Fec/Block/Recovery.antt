-- ===== src/Fec/Block/Recovery.antt =====
-- internal/fec/fec.go: any `k` shards of an emitted block give back the whole block.
use mathlib.Core.Path.{subst}
use flexbraid.Prelude.{
  ℕ, ◌+◌, ◌≤◌, ◌<◌, ◌≡◌, refl, ap, ◌∙◌, sym, inl, inr, false, some, List, [], ◌∷◌, ◌++◌, map, arith,
  length, length-map, All, Bool-cases, ltb, ◌==◌,
}
use flexbraid.Assoc.{Assoc}
use flexbraid.Frame.{Frame}
use flexbraid.Fec.{ReedSolomon}
use flexbraid.Fec.Encoder.{pad, max_len_of}
use flexbraid.Fec.Block.{
  BlockState, Codecs, Outcome, complete, fill, plain, flushed_frames, missing, rs_for, reconstruct,
  decoded, rebuilt, filled, maybe_deliver, shards_of,
}
use flexbraid.Fec.Block.Shards.{
  IsMds, PartOf, DistinctSeqs, padded, length-pad, max_len_of-fits, shards_of-Agrees,
  known-shards_of,
}
use flexbraid.Fec.Block.Fill.{fill-Filled, emit_stored, IsStored-of_count, IsStored}

-- A frame as the receiver delivers it.
abbrev pub delivered : ℕ → List Frame → List Frame
delivered session = map (λ (f : Frame). plain session f.seq f.payload)

-- The block is complete: all its frames come out in order, none counts as lost.
pub record Recovers (session : ℕ) (ds : List Frame) (st : BlockState) (o : Outcome) : Type 0 where
  pub rebuilt_count : ℕ
  pub held : Assoc (List ℕ)
  pub outcome : o ≡ complete rebuilt_count held
  pub frames : flushed_frames session st.seqs held ≡ delivered session ds
  pub none_lost : missing st.seqs held ≡ 0
  pub rebuilt_is : rebuilt_count + length st.data_shards ≡ length ds

padded-length :
    (n : ℕ) (ds : List Frame)
    → All (λ (f : Frame). length f.payload ≤ n) ds
    → All (λ (s : List ℕ). length s ≡ n) (padded n ds)
padded-length n [] h = tt
padded-length n (f ∷ ds) h = (length-pad n f.payload h.0, padded-length n ds h.1)

flushed-seqs :
    (session : ℕ) (ds : List Frame) (m : Assoc (List ℕ))
    → 0 < length ds
    → All (IsStored m) ds
    → flushed_frames session (map (λ (f : Frame). f.seq) ds) m ≡ delivered session ds
unfolding flushed_frames
flushed-seqs session [] m pos h = absurd (omega arith)
flushed-seqs session (f ∷ ds) m pos h = emit_stored session (f ∷ ds) m h

module _ (rs : ReedSolomon) (session : ℕ) (ds : List Frame) (ps : List (List ℕ)) where
  -- The payloads `m` hold all of the block.
  Recovers-of_stored :
      (st : BlockState) (r : ℕ) (m : Assoc (List ℕ))
      → PartOf ds ps st
      → 0 < length ds
      → All (IsStored m) ds
      → length m ≡ length ds
      → r + length st.data_shards ≡ length ds
      → Recovers session ds st (complete r m)
  unfolding missing
  Recovers-of_stored st r m part pos stored whole count = record {
    rebuilt_count = r;
    held = m;
    outcome = refl;
    frames = rw part.seqs_are (flushed-seqs session ds m pos stored);
    none_lost = rw part.seqs_are (omega (arith, whole, length-map (λ (f : Frame). f.seq) ds));
    rebuilt_is = count;
  }

  module _ (mds : IsMds rs) (distinct : DistinctSeqs ds)
      (coded : rs.parity_of (length ds) (length ps) (padded (max_len_of ds) ds) ≡ some ps) where
    reconstruct-Recovers :
        (st : BlockState) (cs : Codecs)
        → PartOf ds ps st
        → (rs_for rs (length ds) (length ps) cs).0 ≡ some (length ds)
        → 0 < length ds
        → length ds ≤ length st.data_shards + length st.parity_shards
        → Recovers session ds st (reconstruct rs st cs).0
    unfolding reconstruct
    reconstruct-Recovers st cs part codec pos enough =
        let n = max_len_of ds in
        let fits = max_len_of-fits ds in
        let whole : rs.reconstruct (length ds) (length ps) (shards_of st)
            ≡ some (padded n ds ++ ps) =
          mds (length ds) (length ps) n (padded n ds) ps (shards_of st)
            (length-map (λ (f : Frame). pad n f.payload) ds) (padded-length n ds fits) coded
            (shards_of-Agrees ds ps st part) (omega (arith, known-shards_of ds ps st part)) in
        let (r, m, eq, done) = fill-Filled n ds ps st.data_shards fits distinct part.data_right in
        let codec' : (rs_for rs st.k st.p cs).0 ≡ some (length ds) =
          ap (λ k. (rs_for rs k st.p cs).0) part.k_is
          ∙ ap (λ p. (rs_for rs (length ds) p cs).0) part.p_is
          ∙ codec in
        let whole' : rs.reconstruct (length ds) st.p (shards_of st) ≡ some (padded n ds ++ ps) =
          ap (λ p. rs.reconstruct (length ds) p (shards_of st)) part.p_is ∙ whole in
        let eq' : fill st.seqs st.lens (padded n ds ++ ps) st.data_shards ≡ some (r, m) =
          ap (λ q. fill q st.lens (padded n ds ++ ps) st.data_shards) part.seqs_are
          ∙ ap (λ q. fill (map (λ (f : Frame). f.seq) ds) q (padded n ds ++ ps) st.data_shards)
              part.lens_are
          ∙ eq in
        let path : (reconstruct rs st cs).0 ≡ complete r m =
          ap (λ c. rebuilt rs st c) codec'
          ∙ ap (λ o. decoded rs st o) whole'
          ∙ ap (λ o. filled o) eq' in
        subst (λ o. Recovers session ds st o) (sym path)
          (Recovers-of_stored st r m part pos done.stored
            (omega (arith, done.grown, done.missing_count, part.data_count))
            (omega (arith, done.missing_count, part.data_count)))

    -- Any `k` or more distinct shards of an emitted block, data and parity in any mix, are enough: the
    -- block is complete and all its frames come out, with their payloads and in order.
    pub block-Recovers :
        (st : BlockState) (cs : Codecs)
        → PartOf ds ps st
        → (rs_for rs (length ds) (length ps) cs).0 ≡ some (length ds)
        → 0 < length ds
        → length ds ≤ length st.data_shards + length st.parity_shards
        → Recovers session ds st (maybe_deliver rs st cs).0
    unfolding maybe_deliver
    block-Recovers st cs part codec pos enough =
        let some_k : (st.k == 0) ≡ false = ground (arith, part.k_is) in
        let go_on : ltb (length st.data_shards + length st.parity_shards) st.k ≡ false =
          ground (arith, part.k_is) in
        elim (Bool-cases (length st.data_shards == st.k)) [
          | inl all ↦
              rw (some_k, go_on, all)
                (Recovers-of_stored st 0 st.data_shards part pos
                  (IsStored-of_count ds st.data_shards part.data_right
                    (ground (arith, part.k_is, part.data_count)))
                  (ground (arith, part.k_is)) (ground (arith, part.k_is)))
          | inr some_lack ↦
              rw (some_k, go_on, some_lack) (reconstruct-Recovers st cs part codec pos enough)
        ]
