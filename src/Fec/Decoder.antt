-- ===== src/Fec/Decoder.antt =====
-- internal/fec/fec.go: the decoder of one session. The keys of Go's maps pair a session with a path;
-- here a path is a number, 0 for the empty name, and the maps are those of one session. A call
-- reads the clock once, and a result `none` is a panic.
pub mod Once
use flexbraid.Prelude.{
  ℕ, zero, suc, ◌+◌, ◌-◌, ◌%◌, ◌^◌, Bool, true, false, ◌&&◌, ◌||◌, not, Option, none, some, List,
  [], ◌∷◌, ◌++◌, map, length, max, ltb, leb, ◌==◌, if◌then◌else◌,
}
use flexbraid.Float.{Float}
use flexbraid.Assoc.{lookup_or, Assoc, lookup, put, erase}
use flexbraid.Frame.{Frame, has_flag}
use flexbraid.Frame.Flag
use flexbraid.Fec.{Params, enabled, ReedSolomon}
use flexbraid.Fec.PathStats.{
  RawPathStat, no_stat, observe_path_seq, flush_path_gap, take_path_stats, wrap64,
}
use flexbraid.Fec.Block.{
  BlockState, new_block, add_data, add_parity, Codecs, Outcome, waits, complete, panics,
  flushed_frames, missing, maybe_deliver,
}

-- The entries of `blocks`, `lastFlushed` and `stats` for one stream. A missing entry is zero.
pub record Lane : Type 0 where
  pub blocks : Assoc BlockState
  pub last_flushed : ℕ
  pub received : ℕ
  pub lost : ℕ

abbrev pub no_lane : Lane
no_lane = record { blocks = []; last_flushed = 0; received = 0; lost = 0 }

-- What the streams share.
pub record Shared : Type 0 where
  pub codecs : Codecs
  pub recovered : ℕ

-- What a call on a stream comes to.
pub record Step : Type 0 where
  pub out : List Frame
  pub lane : Lane
  pub shared : Shared

abbrev pub is_parity : Frame → Bool
is_parity f = has_flag f Flag.fec_parity

-- The block `bs` with payloads `held` is delivered and removed.
unfoldable pub flush : ℕ → ℕ → BlockState → Assoc (List ℕ) → Lane → List Frame × Lane
flush session bs st held l = (
  flushed_frames session st.seqs held,
  record l {
    blocks = erase bs l.blocks;
    last_flushed = max bs l.last_flushed;
    lost = wrap64 (l.lost + missing st.seqs held);
  },
)

abbrev pub keep : ℕ → BlockState → Lane → Lane
keep bs st l = record l { blocks = put bs st l.blocks }

-- The blocks whose deadline has come, flushed in the order of the map.
unfoldable pub flush_due : ℕ → ℕ → Assoc BlockState → Lane → List Frame × Lane
unfolding flush
flush_due session now [] l = ([], l)
flush_due session now ((bs, st) ∷ rest) l =
    let (out, l') = flush session bs st st.data_shards l in
    let (more, l'') = flush_due session now rest l' in
    let later = flush_due session now rest l in
    if ltb now st.deadline then later else (out ++ more, l'')

module _ (fl : Float) (rs : ReedSolomon) where
  -- The end of Push on a block that it has put a shard into.
  unfoldable pub deliver : ℕ → ℕ → BlockState → Lane → Shared → Outcome × Codecs → Option Step
  unfolding flush
  deliver session bs st l sh (waits, cs) =
      some (record { out = []; lane = keep bs st l; shared = record sh { codecs = cs } })
  deliver session bs st l sh (panics, cs) = none
  deliver session bs st l sh (complete n held, cs) =
      let (out, l') = flush session bs st held l in
      some (record {
        out = out;
        lane = l';
        shared = record { codecs = cs; recovered = wrap64 (sh.recovered + n) };
      })

  unfoldable pub push_data : ℕ → Frame → BlockState → Lane → Shared → Option Step
  unfolding deliver
  push_data due f st l sh =
      let (fresh, st') = add_data due f st in
      let l' = if fresh then record l { received = wrap64 (l.received + 1) } else l in
      deliver f.session_id f.block_seq st' l' sh (maybe_deliver rs st' sh.codecs)

  unfoldable pub push_parity : ℕ → Frame → BlockState → Lane → Shared → Option Step
  unfolding deliver
  push_parity due f st l sh = elim (add_parity due f st) [
    | none ↦ some (record { out = []; lane = keep f.block_seq st l; shared = sh })
    | some st' ↦ deliver f.session_id f.block_seq st' l sh (maybe_deliver rs st' sh.codecs)
  ]

  unfoldable pub push_shard : ℕ → Frame → BlockState → Lane → Shared → Option Step
  unfolding push_data push_parity
  push_shard due f st l sh =
      if is_parity f then push_parity due f st l sh else push_data due f st l sh

  -- Push from the lookup of the block on.
  unfoldable pub push_block : ℕ → Frame → Lane → Shared → Option Step
  unfolding push_shard
  push_block due f l sh = elim (lookup f.block_seq l.blocks) [
    | some st ↦ push_shard due f st l sh
    | none ↦
        (if leb f.block_seq l.last_flushed
          then some (record { out = []; lane = l; shared = sh })
          else push_shard due f new_block l sh)
  ]

  pub record Decoder : Type 0 where
    pub params : Params fl
    pub lanes : Assoc Lane
    pub path_seq : Assoc RawPathStat
    pub shared : Shared

  unfoldable pub new_decoder : Params fl → Decoder
  new_decoder p = record {
    params = record p {
      data_shards = if p.data_shards == 0 then 10 else p.data_shards;
      block_timeout = if p.block_timeout == 0 then 8_000_000 else p.block_timeout;
    };
    lanes = [];
    path_seq = [];
    shared = record { codecs = []; recovered = 0 };
  }

  -- The stream that the blocks of a path belong to.
  abbrev pub lane_key : Params fl → ℕ → ℕ
  lane_key p path = if p.cross_path then 0 else path

  abbrev stepped : ℕ → Decoder → Option Step → Option (List Frame × Decoder)
  stepped key d none = none
  stepped key d (some s) =
      some (s.out, record d { lanes = put key s.lane d.lanes; shared = s.shared })

  unfoldable pub push : ℕ → ℕ → Frame → Decoder → Option (List Frame × Decoder)
  push now path f d =
      let key = lane_key d.params path in
      let stat = observe_path_seq now f.block_seq (lookup_or no_stat path d.path_seq) in
      if has_flag f Flag.pass_seq && not (is_parity f)
      then some (f ∷ [], record d { path_seq = put path stat d.path_seq })
      else if not (enabled fl d.params)
      then some (if is_parity f then [] else f ∷ [], d)
      else if not (is_parity f) && f.block_seq == 0
      then some (f ∷ [], d)
      else stepped key d
          (push_block (now + d.params.block_timeout) f (lookup_or no_lane key d.lanes) d.shared)

  abbrev pub flush_gaps : ℕ → Assoc RawPathStat → Assoc RawPathStat
  flush_gaps now [] = []
  flush_gaps now ((p, ps) ∷ m) = (p, flush_path_gap now ps) ∷ flush_gaps now m

  unfoldable pub tick_lanes : ℕ → ℕ → Assoc Lane → List Frame × Assoc Lane
  tick_lanes session now [] = ([], [])
  tick_lanes session now ((key, l) ∷ m) =
      let (out, l') = flush_due session now l.blocks l in
      let (more, m') = tick_lanes session now m in (out ++ more, (key, l') ∷ m')

  unfoldable pub tick : ℕ → ℕ → Decoder → List Frame × Decoder
  unfolding tick_lanes
  tick session now d =
      let d' = record d { path_seq = flush_gaps now d.path_seq } in
      let (out, ls) = tick_lanes session now d.lanes in
      if enabled fl d.params then (out, record d' { lanes = ls }) else ([], d')

  unfoldable pub take_stream_stats : ℕ → Decoder → (ℕ × ℕ) × Decoder
  take_stream_stats path d =
      let l = lookup_or no_lane path d.lanes in
      (
        (l.lost, l.received),
        record d { lanes = put path (record l { lost = 0; received = 0 }) d.lanes },
      )
