-- ===== src/Fec/Encoder/Tests.antt =====
-- The theorems of the FEC encoder at a concrete codec.
use flexbraid.Prelude.{
  ℕ, ◌+◌, ◌%◌, ◌≤◌, ◌<◌, ◌≡◌, refl, true, false, ◌&&◌, Option, none, some, List, [], ◌∷◌, ◌++◌, ltb,
  leb, arith,
}
use flexbraid.Prelude.Int.{pos}
use flexbraid.Float.{thousandths}
use flexbraid.Frame.{Frame}
use flexbraid.Fec.{AdaptiveParams, Params, enabled, ReedSolomon}
use flexbraid.Fec.Encoder.{Encoder}
use flexbraid.Fec.Encoder.Conservation.{
  Call, pushed, ticked, measured, given, contents, run, run-contents,
}

abbrev frame_of : ℕ → ℕ → List ℕ → Frame
frame_of seq bs payload = record {
  version = 2;
  flags = 0;
  session_id = 9;
  seq = seq;
  block_seq = bs;
  payload = payload;
}

-- Two data shards and one parity shard, which adds their bytes. It stands in for the library where
-- no law of it is used.
abbrev add_bytes : List ℕ → List ℕ → List ℕ
add_bytes [] ys = []
add_bytes (x ∷ xs) [] = []
add_bytes (x ∷ xs) (y ∷ ys) = ((x + y) % 256) ∷ add_bytes xs ys

abbrev summed : List (List ℕ) → Option (List (List ℕ))
summed (a ∷ b ∷ []) = some (add_bytes a b ∷ [])
summed shards = none

abbrev sums : ReedSolomon
sums = record {
  accepts = λ k p. ltb 0 p && leb (k + p) 256;
  parity_of = λ k p shards. summed shards;
  reconstruct = λ k p slots. none;
}

exists_sums : (k p : ℕ) → 0 < p → k + p ≤ 256 → sums.accepts k p ≡ true
exists_sums k p h fits = ground arith

-- On from a loss of 1 %, off below 0.5 %, up to 30 %, with a margin of 1.5.
abbrev adaptive : AdaptiveParams thousandths
adaptive = record {
  on_loss_pct = pos 1000;
  off_loss_pct = pos 500;
  hold = 1000;
  max_loss_pct = pos 30_000;
  safety = pos 1500;
}

abbrev params : Params thousandths
params = record {
  data_shards = 2;
  parity_shards = 1;
  block_timeout = 8;
  adaptive = some adaptive;
  cross_path = false;
  cross_path_min_parity = 0;
}

abbrev coding : Encoder thousandths sums
coding = record {
  params = params;
  block = 3;
  pending = frame_of 5 0 (10 ∷ 20 ∷ []) ∷ frame_of 6 0 (1 ∷ []) ∷ [];
  block_start = 0;
  loss_rate = pos 100;
  coding_on = true;
  coding_since = 50;
  rs_parity = 1;
  blocks_coded = 3;
}

abbrev calls : List (Call thousandths sums)
calls =
    pushed 60 (frame_of 7 0 (4 ∷ []))
    ∷ measured 2000 (pos 0)
    ∷ pushed 2001 (frame_of 8 0 [])
    ∷ ticked 2002
    ∷ []

run-contents_example :
    contents (run thousandths sums calls coding).0
      ++ contents (run thousandths sums calls coding).1.pending
    ≡ contents coding.pending ++ contents (given thousandths sums calls)
unfolding enabled
run-contents_example = run-contents thousandths sums calls coding refl

abbrev clean : Encoder thousandths sums
clean = record coding { loss_rate = pos 0 }
