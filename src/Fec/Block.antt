-- ===== src/Fec/Block.antt =====
-- internal/fec/fec.go: one block on the receiving side: its shards, its reconstruction, and the frames
-- that it delivers.
pub mod Shards
pub mod Fill
pub mod Recovery
use flexbraid.Prelude.{
  ℕ, zero, suc, ◌+◌, ◌-◌, ◌%◌, ◌^◌, Bool, true, false, ◌&&◌, ◌||◌, not, Option, none, some, List,
  [], ◌∷◌, ◌++◌, map, length, take, max, ltb, leb, ◌==◌, if◌then◌else◌,
}
use flexbraid.Assoc.{Assoc, lookup, put}
use flexbraid.Frame.{Frame}
use flexbraid.Fec.{ReedSolomon}
use flexbraid.Fec.SubHeader.{SubHeader, read}
use flexbraid.Fec.Encoder.{pad, is_empty}

-- `data` is keyed by seq, `parity` by shard index. The deadline 0 is the zero `time.Time`. A block
-- whose `flushed` is set is taken out of the map of blocks at once, so the field is left out.
pub record BlockState : Type 0 where
  pub deadline : ℕ
  pub data_shards : Assoc (List ℕ)
  pub parity_shards : Assoc (List ℕ)
  pub k : ℕ
  pub p : ℕ
  pub max_len : ℕ
  pub seqs : List ℕ
  pub lens : List ℕ

abbrev pub new_block : BlockState
new_block = record {
  deadline = 0;
  data_shards = [];
  parity_shards = [];
  k = 0;
  p = 0;
  max_len = 0;
  seqs = [];
  lens = [];
}

abbrev pub holds_none : BlockState → Bool
holds_none st = is_empty st.data_shards && is_empty st.parity_shards

-- The deadline, which the first shard of a block sets.
abbrev pub deadline_at : ℕ → BlockState → ℕ
deadline_at due st = if holds_none st then due else st.deadline

-- Whether the frame is new, and the block with it. `due` is the deadline of a block that starts.
unfoldable pub add_data : ℕ → Frame → BlockState → Bool × BlockState
add_data due f st =
    let st' = record st { deadline = deadline_at due st } in
    elim (lookup f.seq st.data_shards) [
      | none ↦ (true, record st' { data_shards = put f.seq f.payload st.data_shards })
      | some old ↦ (false, st')
    ]

unfoldable pub adopt : ℕ → SubHeader → BlockState → BlockState
adopt due h st = record st {
  k = h.k;
  p = h.p;
  max_len = h.max_len;
  seqs = h.seqs;
  lens = h.lens;
  deadline = deadline_at due st;
}

-- `none` is the error, which leaves the block as it was.
unfoldable pub store_parity : ℕ → SubHeader → List ℕ → BlockState → Option BlockState
unfolding adopt
store_parity due h shard st =
    let st' = if st.k == 0 then adopt due h st else st in
    if not (st'.k == h.k) || not (st'.max_len == h.max_len)
    then none
    else some (record st' { parity_shards = put h.index shard st'.parity_shards })

unfoldable pub add_parity : ℕ → Frame → BlockState → Option BlockState
unfolding store_parity
add_parity due f st = elim (read f.payload) [
  | none ↦ none
  | some (h, shard) ↦ store_parity due h shard st
]

-- A payload copied into a shard of `n` zeroed bytes.
abbrev pub copy_into : ℕ → List ℕ → List ℕ
copy_into n b = pad n (take n b)

abbrev pub data_shard : ℕ → Assoc (List ℕ) → ℕ → Option (List ℕ)
data_shard n held seq = elim (lookup seq held) [ none ↦ none | some b ↦ some (copy_into n b) ]

-- The parity shards `i`, `i + 1`, ..., `n` of them.
unfoldable pub parity_slots : ℕ → ℕ → Assoc (List ℕ) → List (Option (List ℕ))
parity_slots i zero parity = []
parity_slots i (suc n) parity = lookup i parity ∷ parity_slots (i + 1) n parity

unfoldable pub shards_of : BlockState → List (Option (List ℕ))
unfolding parity_slots
shards_of st =
    map (data_shard st.max_len st.data_shards) st.seqs ++ parity_slots 0 st.p st.parity_shards

-- The missing payloads put in, with how many there are. `none` is a panic: the slice expression
-- `shards[i][:st.lens[i]]` is out of range.
-- A slice beyond its shard's length is `none`, though Go lets it reach to the shard's capacity.
unfoldable pub fill : List ℕ → List ℕ → List (List ℕ) → Assoc (List ℕ) → Option (ℕ × Assoc (List ℕ))
fill [] lens shards held = some (0, held)
fill (seq ∷ seqs) (len ∷ lens) (shard ∷ shards) held =
    let kept = fill seqs lens shards held in
    let filled = fill seqs lens shards (put seq (take len shard) held) in
    elim (lookup seq held) [
      | some b ↦ kept
      | none ↦
          (if ltb (length shard) len
            then none
            else elim filled [ none ↦ none | some (n, held') ↦ some (suc n, held') ])
    ]
fill (seq ∷ seqs) lens shards held = none

-- The codecs by parity count, each with the number of data shards that it was made for.
abbrev pub Codecs : Type 0
Codecs = Assoc ℕ

-- What a block with enough shards comes to.
pub data Outcome : Type 0 where
  waits : Outcome
  -- The held payloads are complete; the number is how many were rebuilt.
  complete : ℕ → Assoc (List ℕ) → Outcome
  panics : Outcome

abbrev pub filled : Option (ℕ × Assoc (List ℕ)) → Outcome
filled none = panics
filled (some (n, held)) = complete n held

-- A payload frame as `flush` makes it.
abbrev pub plain : ℕ → ℕ → List ℕ → Frame
plain session seq payload = record {
  version = 0;
  flags = 0;
  session_id = session;
  seq = seq;
  block_seq = 0;
  payload = payload;
}

-- The frames of the seqs that are held.
unfoldable pub emit : ℕ → List ℕ → Assoc (List ℕ) → List Frame
emit session [] held = []
emit session (seq ∷ seqs) held =
    let rest = emit session seqs held in
    elim (lookup seq held) [ none ↦ rest | some b ↦ plain session seq b ∷ rest ]

abbrev pub keys : Assoc (List ℕ) → List ℕ
keys [] = []
keys ((k, b) ∷ m) = k ∷ keys m

-- A round of the insertion sort `sortUint32`, on the sorted part.
unfoldable pub insert : ℕ → List ℕ → List ℕ
insert x [] = x ∷ []
insert x (y ∷ ys) = let rest = insert x ys in if ltb x y then x ∷ y ∷ ys else y ∷ rest

-- The sorted part and the rest.
unfoldable pub sort_uint32 : List ℕ → List ℕ → List ℕ
unfolding insert
sort_uint32 sorted [] = sorted
sort_uint32 sorted (x ∷ xs) = sort_uint32 (insert x sorted) xs

-- The frames of `flush`.
unfoldable pub flushed_frames : ℕ → List ℕ → Assoc (List ℕ) → List Frame
unfolding emit sort_uint32
flushed_frames session seqs held =
    if is_empty seqs then emit session (sort_uint32 [] (keys held)) held else emit session seqs held

-- The frames of the block that count as lost.
unfoldable pub missing : List ℕ → Assoc (List ℕ) → ℕ
missing seqs held = length seqs - length held

module _ (rs : ReedSolomon) where
  unfoldable pub rs_for : ℕ → ℕ → Codecs → Option ℕ × Codecs
  rs_for k p cs = elim (lookup p cs) [
    | some k' ↦ (some k', cs)
    | none ↦ (if rs.accepts k p then (some k, put p k cs) else (none, cs))
  ]

  abbrev pub decoded : BlockState → Option (List (List ℕ)) → Outcome
  decoded st none = waits
  decoded st (some shards) = filled (fill st.seqs st.lens shards st.data_shards)

  abbrev pub rebuilt : BlockState → Option ℕ → Outcome
  rebuilt st none = waits
  rebuilt st (some k) = decoded st (rs.reconstruct k st.p (shards_of st))

  unfoldable pub reconstruct : BlockState → Codecs → Outcome × Codecs
  unfolding rs_for
  reconstruct st cs = let (codec, cs') = rs_for st.k st.p cs in (rebuilt st codec, cs')

  unfoldable pub maybe_deliver : BlockState → Codecs → Outcome × Codecs
  maybe_deliver st cs =
      if st.k == 0
      then (waits, cs)
      else if ltb (length st.data_shards + length st.parity_shards) st.k
      then (waits, cs)
      else if length st.data_shards == st.k
      then (complete 0 st.data_shards, cs)
      else reconstruct st cs
