-- ===== src/Fec/Encoder/Emitted.antt =====
-- internal/fec/fec.go: what a coded block puts on the wire.
use flexbraid.Prelude.{
  ℕ, ◌+◌, ◌%◌, ◌^◌, ◌≤◌, ◌<◌, ◌≡◌, refl, ◌∙◌, some, List, [], ◌∷◌, map, arith, length, length-map,
  All,
}
use flexbraid.Float.{Float}
use flexbraid.Frame.{Frame, max_payload}
use flexbraid.Frame.Flag
use flexbraid.Fec.{ReedSolomon}
use flexbraid.Fec.SubHeader.{read, IsUint32, IsUint16, read-write}
use flexbraid.Fec.Encoder.{
  stamp, max_len_of, pad, sub_header, parity_from, session_of, Encoder, emit_block,
}

-- A data frame that the wire format can carry.
abbrev pub IsSmall : Frame → Type 0
IsSmall f = (f.seq < 2 ^ 32) × (length f.payload ≤ max_payload)

-- The frames are the parity frames of the shards from index `i` on: each carries the numbers of the
-- block, its own index, the seqs and lengths of all data frames, and its shard.
abbrev pub Carry : (bs k parity n : ℕ) → List Frame → ℕ → List (List ℕ) → List Frame → Type 0
Carry bs k parity n ds i [] [] = Unit
Carry bs k parity n ds i [] (f ∷ fs) = ⊥
Carry bs k parity n ds i (s ∷ ss) [] = ⊥
Carry bs k parity n ds i (s ∷ ss) (f ∷ fs) =
    (f.block_seq ≡ bs)
    × (f.flags ≡ Flag.fec_parity)
    × (f.session_id ≡ session_of ds)
    × (read f.payload ≡ some (sub_header k parity n i ds, s))
    × Carry bs k parity n ds (i + 1) ss fs

max_len_of-le : (ds : List Frame) → All IsSmall ds → max_len_of ds ≤ max_payload
unfolding max_len_of
max_len_of-le [] h = omega arith
max_len_of-le (f ∷ ds) h = omega (arith, max_len_of-le ds h.1, h.0.1)

seqs-in : (ds : List Frame) → All IsSmall ds → All IsUint32 (map (λ (f : Frame). f.seq) ds)
seqs-in [] h = tt
seqs-in (f ∷ ds) h = (h.0.0, seqs-in ds h.1)

lens-in :
    (ds : List Frame) → All IsSmall ds → All IsUint16 (map (λ (f : Frame). length f.payload) ds)
lens-in [] h = tt
lens-in (f ∷ ds) h = (omega (arith, h.0.1), lens-in ds h.1)

parity_from-Carry :
    (bs k parity n : ℕ) (ds : List Frame) (i : ℕ) (shards : List (List ℕ))
    → All IsSmall ds
    → length ds ≡ k
    → k + parity ≤ 256
    → i + length shards ≤ parity
    → n ≤ max_payload
    → All (λ (s : List ℕ). length s ≡ n) shards
    → Carry bs k parity n ds i shards (parity_from bs (session_of ds) k parity n ds i shards)
unfolding parity_from
parity_from-Carry bs k parity n ds i [] small e fits within bound sizes = tt
parity_from-Carry bs k parity n ds i (s ∷ ss) small e fits within bound sizes = (
  refl,
  refl,
  refl,
  read-write (sub_header k parity n i ds) s (record {
    k_in = omega arith;
    index_in = omega arith;
    max_len_in = omega arith;
    p_in = omega arith;
    seqs_len = length-map (λ (f : Frame). f.seq) ds ∙ e;
    lens_len = length-map (λ (f : Frame). length f.payload) ds ∙ e;
    seqs_in = seqs-in ds small;
    lens_in = lens-in ds small;
    shard_len = sizes.0;
  }),
  parity_from-Carry bs k parity n ds (i + 1) ss small e fits (omega arith) bound sizes.1,
)

module _ (fl : Float) (rs : ReedSolomon) where
  -- A full block goes out as its data frames, in order and stamped with the next block number, and
  -- behind them one parity frame for each shard of the code over the padded payloads, from which a
  -- receiver reads the whole geometry of the block back. The code returns shards of the size that
  -- it was given.
  pub emit_block-Carry :
      (e : Encoder fl rs) (ps : List (List ℕ))
      → All IsSmall e.pending
      → length e.pending ≡ e.params.data_shards
      → e.params.data_shards + e.rs_parity ≤ 256
      → rs.parity_of e.params.data_shards e.rs_parity
          (map (λ (f : Frame). pad (max_len_of e.pending) f.payload) e.pending)
        ≡ some ps
      → length ps ≡ e.rs_parity
      → All (λ (s : List ℕ). length s ≡ max_len_of e.pending) ps
      → let (o, e') = emit_block fl rs e in
        (o.data_frames ≡ map (stamp e'.block) e.pending)
        × (e'.block ≡ (e.block + 1) % 2 ^ 32)
        × (e'.pending ≡ [])
        × Carry e'.block e.params.data_shards e.rs_parity
            (max_len_of e.pending)
            e.pending
            0
            ps
            o.parity_frames
  unfolding emit_block
  emit_block-Carry e ps small full fits coded count sizes = rw coded (
    refl,
    refl,
    refl,
    parity_from-Carry _ _ _ _ e.pending 0 ps small full fits (omega arith)
        (max_len_of-le e.pending small) sizes,
  )
