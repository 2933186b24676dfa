-- ===== src/Fec/PathStats/Runs.antt =====
-- internal/fec/fec.go: runs of the calls on the counters of one stream.
use flexbraid.Prelude.{ℕ, ◌+◌, ◌^◌, ◌<◌, List, [], ◌∷◌}
use flexbraid.Fec.PathStats.{RawPathStat, observe_path_seq, flush_path_gap, take_path_stats}
use flexbraid.Fec.PathStats.Ledger.{Ledger}

-- The calls on one stream.
pub data Call : Type 0 where
  observed : (now seq : ℕ) → Call
  flushed : (now : ℕ) → Call
  taken : Call

unfoldable pub apply : Call → RawPathStat → (ℕ × ℕ) × RawPathStat
apply (observed now seq) ps = ((0, 0), observe_path_seq now seq ps)
apply (flushed now) ps = ((0, 0), flush_path_gap now ps)
apply taken ps = take_path_stats ps

-- What TakePathStats has handed out over a run, lost and received, and the last state.
unfoldable pub run : List Call → RawPathStat → (ℕ × ℕ) × RawPathStat
run [] ps = ((0, 0), ps)
run (c ∷ cs) ps =
    let ((lost, received), ps') = apply c ps in
    let ((lost', received'), ps'') = run cs ps' in ((lost + lost', received + received'), ps'')

abbrev pub IsSmallCall : Call → Type 0
IsSmallCall (observed now seq) = seq < 2 ^ 32
IsSmallCall (flushed now) = Unit
IsSmallCall taken = Unit
