-- ===== src/Fec/Encoder.antt =====
-- internal/fec/fec.go: the encoder. A call reads the clock once; the source's two readings within
-- one Push are taken to coincide.
pub mod Conservation
pub mod Emitted
pub mod Adaptive
mod Tests
use Prim.Native.Nat.{bit_or}
use flexbraid.Prelude.{
  ℕ, zero, suc, ◌+◌, ◌-◌, ◌*◌, ◌%◌, ◌^◌, Bool, true, false, ◌&&◌, ◌||◌, Option, none, some, List,
  [], ◌∷◌, ◌++◌, map, length, max, replicate, ltb, leb, ◌==◌, if◌then◌else◌,
}
use flexbraid.Float.{Float}
use flexbraid.Frame.{Frame}
use flexbraid.Frame.Flag
use flexbraid.Fec.{AdaptiveParams, Params, enabled, ReedSolomon, parity_header_size}
use flexbraid.Fec.Redundancy.{parity_for_loss}
use flexbraid.Fec.SubHeader.{SubHeader, write}

-- What a call returns to be sent: data frames and, behind them, parity frames.
pub record Out : Type 0 where
  pub data_frames : List Frame
  pub parity_frames : List Frame

abbrev pub nothing : Out
nothing = record { data_frames = []; parity_frames = [] }

abbrev pub stamp : ℕ → Frame → Frame
stamp bs f = record f { block_seq = bs }

abbrev pub mark_pass_seq : Frame → Frame
mark_pass_seq f = record f { flags = bit_or f.flags Flag.pass_seq }

unfoldable pub max_len_of : List Frame → ℕ
max_len_of [] = 0
max_len_of (f ∷ fs) = max (length f.payload) (max_len_of fs)

-- A payload copied into a zeroed shard of `n` bytes.
abbrev pub pad : ℕ → List ℕ → List ℕ
pad n b = b ++ replicate (n - length b) 0

abbrev pub sub_header : ℕ → ℕ → ℕ → ℕ → List Frame → SubHeader
sub_header k parity max_len i data_frames = record {
  k = k;
  index = i;
  max_len = max_len;
  p = parity;
  seqs = map (λ (f : Frame). f.seq) data_frames;
  lens = map (λ (f : Frame). length f.payload) data_frames;
}

-- The parity frames from shard `i` on.
unfoldable pub parity_from :
    (bs session k parity max_len : ℕ) → List Frame → ℕ → List (List ℕ) → List Frame
parity_from bs session k parity max_len ds i [] = []
parity_from bs session k parity max_len ds i (shard ∷ shards) =
    record {
      version = 0;
      flags = Flag.fec_parity;
      session_id = session;
      seq = 0;
      block_seq = bs;
      payload = write (sub_header k parity max_len i ds) shard;
    }
    ∷ parity_from bs session k parity max_len ds (i + 1) shards

abbrev pub session_of : List Frame → ℕ
session_of [] = 0
session_of (f ∷ fs) = f.session_id

abbrev pub is_empty {ℓ} : {A : Type ℓ} → List A → Bool
is_empty [] = true
is_empty (x ∷ xs) = false

module _ (fl : Float) (rs : ReedSolomon) where
  open fl use {Carrier, milli, mul, lt, le}

  pub record Encoder : Type 0 where
    pub params : Params fl
    pub block : ℕ
    pub pending : List Frame
    pub block_start : ℕ
    pub loss_rate : Carrier
    pub coding_on : Bool
    pub coding_since : ℕ
    pub rs_parity : ℕ
    pub blocks_coded : ℕ

  abbrev always_codes : Params fl → Bool
  always_codes p = p.cross_path || elim p.adaptive [ none ↦ true | some a ↦ false ]

  unfoldable pub new_encoder : Params fl → Option Encoder
  new_encoder p =
      let k = if p.data_shards == 0 then 10 else p.data_shards in
      let timeout = if p.block_timeout == 0 then 8_000_000 else p.block_timeout in
      let e : Encoder = record {
        params = record p { data_shards = k; block_timeout = timeout };
        block = 0;
        pending = [];
        block_start = 0;
        loss_rate = milli 0;
        coding_on = always_codes p;
        coding_since = 0;
        rs_parity = p.parity_shards;
        blocks_coded = 0;
      } in
      if enabled fl p then (if rs.accepts k p.parity_shards then some e else none) else some e

  unfoldable pub rebuild : Encoder → Encoder
  rebuild e =
      let parity = parity_for_loss fl e.loss_rate e.params in
      if parity == e.rs_parity
      then e
      else if rs.accepts e.params.data_shards parity
      then record e { rs_parity = parity }
      else e

  -- The decision of an adaptive codec at the time `now`.
  unfoldable pub decide : ℕ → AdaptiveParams fl → Encoder → Encoder
  decide now a e =
      let loss_pct = mul e.loss_rate (milli 100_000) in
      if e.coding_on
      then (if lt loss_pct a.off_loss_pct && leb (e.coding_since + a.hold) now
          then record e { coding_on = false }
          else e)
      else if le a.on_loss_pct loss_pct
      then record e { coding_on = true; coding_since = now }
      else e

  unfoldable pub refresh_fixed : Encoder → Encoder
  unfolding rebuild
  refresh_fixed e =
      let on = record e { coding_on = true } in if e.params.cross_path then rebuild on else on

  unfoldable pub refresh_adaptive : ℕ → AdaptiveParams fl → Encoder → Encoder
  unfolding decide rebuild
  refresh_adaptive now a e = let d = decide now a e in if d.coding_on then rebuild d else d

  unfoldable pub refresh : ℕ → Encoder → Encoder
  unfolding refresh_fixed refresh_adaptive
  refresh now e = elim e.params.adaptive [
    | none ↦ refresh_fixed e
    | some a ↦ (if e.params.cross_path then refresh_fixed e else refresh_adaptive now a e)
  ]

  unfoldable pub set_loss_rate : ℕ → Carrier → Encoder → Encoder
  unfolding refresh
  set_loss_rate now rate e =
      let low = if lt rate (milli 0) then milli 0 else rate in
      let rate' = if lt (milli 1000) low then milli 1000 else low in
      refresh now (record e { loss_rate = rate' })

  -- The block that `pending` holds, coded.
  unfoldable pub emit_block : Encoder → Out × Encoder
  emit_block e =
      let bs = (e.block + 1) % 2 ^ 32 in
      let ds = e.pending in
      let k = e.params.data_shards in
      let n = max_len_of ds in
      let shards = map (λ (f : Frame). pad n f.payload) ds in
      let parity : List (List ℕ) = elim (rs.parity_of k e.rs_parity shards) [
        | none ↦ []
        | some ps ↦ ps
      ] in
      (
        record {
          data_frames = map (stamp bs) ds;
          parity_frames = parity_from bs (session_of ds) k e.rs_parity n ds 0 parity;
        },
        record e { block = bs; pending = []; blocks_coded = (e.blocks_coded + 1) % 2 ^ 64 },
      )

  -- Push once the decision of `refreshLocked` is made.
  unfoldable pub push_refreshed : ℕ → Frame → Encoder → Out × Encoder
  unfolding emit_block
  push_refreshed now f e =
      let start = if is_empty e.pending then now else e.block_start in
      let e' = record e { pending = e.pending ++ (f ∷ []); block_start = start } in
      if e.coding_on
      then (if ltb (length e'.pending) e.params.data_shards then (nothing, e') else emit_block e')
      else (
        record { data_frames = map mark_pass_seq (e.pending ++ (f ∷ [])); parity_frames = [] },
        record e { pending = [] },
      )

  unfoldable pub push : ℕ → Frame → Encoder → Out × Encoder
  push now f e =
      if enabled fl e.params
      then push_refreshed now f (refresh now e)
      else (record { data_frames = mark_pass_seq f ∷ []; parity_frames = [] }, e)

  -- Tick once the decision is made: a short block goes out with no parity.
  unfoldable pub tick_refreshed : ℕ → Encoder → Out × Encoder
  tick_refreshed now e =
      let bs = (e.block + 1) % 2 ^ 32 in
      if e.coding_on
      then (if is_empty e.pending || ltb now (e.block_start + e.params.block_timeout)
          then (nothing, e)
          else (
            record { data_frames = map (stamp bs) e.pending; parity_frames = [] },
            record e { block = bs; pending = []; blocks_coded = (e.blocks_coded + 1) % 2 ^ 64 },
          ))
      else (record { data_frames = e.pending; parity_frames = [] }, record e { pending = [] })

  unfoldable pub tick : ℕ → Encoder → Out × Encoder
  tick now e = if enabled fl e.params then tick_refreshed now (refresh now e) else (nothing, e)
