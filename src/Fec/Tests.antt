-- ===== src/Fec/Tests.antt =====
-- The theorems of the FEC decoder and of the wire form at concrete blocks.
use mathlib.Core.Path.{subst}
use flexbraid.Prelude.{
  ℕ, zero, suc, ◌+◌, ◌≤◌, ◌≡◌, refl, sym, inl, inr, ◌&&◌, Option, none, some, List, [], ◌∷◌, ltb,
  leb, arith, All, replicate,
}
use flexbraid.Float.{thousandths}
use flexbraid.Frame.{Frame}
use flexbraid.Fec.{ReedSolomon}
use flexbraid.Fec.SubHeader.{SubHeader, read, write, read-write}
use flexbraid.Fec.Encoder.{max_len_of}
use flexbraid.Fec.PathStats.{RawPathStat}
use flexbraid.Fec.PathStats.Ledger.{Ledger}
use flexbraid.Fec.PathStats.Runs.{run as run_stats}
use flexbraid.Fec.Block.{BlockState, maybe_deliver, rs_for}
use flexbraid.Fec.Block.Shards.{Agrees, known, IsMds, PartOf}
use flexbraid.Fec.Block.Recovery.{Recovers, block-Recovers}
use flexbraid.Fec.Decoder.{Lane, Shared, push_block}
use flexbraid.Fec.Decoder.Once.{Settled, done, push, Settled-run, IsSilent, arrived}

-- The code for one data shard: every parity shard is a copy of it.
abbrev mirrored : ℕ → List (List ℕ) → Option (List (List ℕ))
mirrored p (s ∷ []) = some (replicate p s)
mirrored p shards = none

abbrev first_known : ℕ → List (Option (List ℕ)) → Option (List (List ℕ))
first_known n [] = none
first_known n (none ∷ os) = first_known n os
first_known n (some s ∷ os) = some (replicate n s)

abbrev mirror : ReedSolomon
mirror = record {
  accepts = λ k p. ltb 0 p && leb (k + p) 256;
  parity_of = λ k p shards. mirrored p shards;
  reconstruct = λ k p slots. first_known (suc p) slots;
}

first_known-Agrees :
    (n m : ℕ) (s : List ℕ) (slots : List (Option (List ℕ)))
    → Agrees slots (replicate m s)
    → 1 ≤ known slots
    → first_known n slots ≡ some (replicate n s)
first_known-Agrees n m s [] a h = absurd (omega arith)
first_known-Agrees n zero s (o ∷ os) a h = absurd a
first_known-Agrees n (suc m) s (none ∷ os) a h = first_known-Agrees n m s os a.1 (omega arith)
first_known-Agrees n (suc m) s (some t ∷ os) a h = elim a.0 [
  | inl e ↦ absurd (ground arith)
  | inr e ↦ (let same : t ≡ s = ground arith in rw same refl)
]

mirror-IsMds : IsMds mirror
mirror-IsMds k p n [] ps slots l sizes e a h = absurd (ground arith)
mirror-IsMds k p n (s ∷ t ∷ shards) ps slots l sizes e a h = absurd (ground arith)
mirror-IsMds k p n (s ∷ []) ps slots l sizes e a h =
    let same : replicate p s ≡ ps = ground arith in
    subst (λ q. first_known (suc p) slots ≡ some (s ∷ q)) same
      (first_known-Agrees (suc p) (suc p) s slots (subst (λ q. Agrees slots (s ∷ q)) (sym same) a)
        (omega arith))

abbrev frame_of : ℕ → ℕ → List ℕ → Frame
frame_of seq bs payload = record {
  version = 2;
  flags = 0;
  session_id = 9;
  seq = seq;
  block_seq = bs;
  payload = payload;
}

-- A block of one frame whose data was lost: only the parity arrived.
abbrev lone : List Frame
lone = frame_of 5 1 (10 ∷ 20 ∷ 30 ∷ []) ∷ []

abbrev lone_parity : List (List ℕ)
lone_parity = (10 ∷ 20 ∷ 30 ∷ []) ∷ []

abbrev parity_only : BlockState
parity_only = record {
  deadline = 8;
  data_shards = [];
  parity_shards = (0, 10 ∷ 20 ∷ 30 ∷ []) ∷ [];
  k = 1;
  p = 1;
  max_len = 3;
  seqs = 5 ∷ [];
  lens = 3 ∷ [];
}

parity_only-PartOf : PartOf lone lone_parity parity_only
unfolding max_len_of
parity_only-PartOf = record {
  k_is = refl;
  p_is = refl;
  max_len_is = refl;
  seqs_are = refl;
  lens_are = refl;
  data_right = (inl refl, tt);
  data_count = refl;
  parity_right = (inr refl, tt);
  parity_count = refl;
}

block-Recovers_example : Recovers 9 lone parity_only (maybe_deliver mirror parity_only []).0
unfolding max_len_of rs_for
block-Recovers_example =
    block-Recovers mirror 9 lone lone_parity mirror-IsMds (tt, tt) refl parity_only []
      parity_only-PartOf refl (omega arith) (omega arith)

abbrev header : SubHeader
header = record { k = 2; index = 0; max_len = 2; p = 1; seqs = 5 ∷ 6 ∷ []; lens = 2 ∷ 1 ∷ [] }

read-write_example : read (write header (11 ∷ 20 ∷ [])) ≡ some (header, 11 ∷ 20 ∷ [])
read-write_example = read-write header (11 ∷ 20 ∷ []) (record {
  k_in = omega arith;
  index_in = omega arith;
  max_len_in = omega arith;
  p_in = omega arith;
  seqs_len = refl;
  lens_len = refl;
  seqs_in = (omega arith, (omega arith, tt));
  lens_in = (omega arith, (omega arith, tt));
  shard_len = refl;
})

-- The counter 9 is awaited since 1 and 10 waits.
abbrev gapped : RawPathStat
gapped = record { next = 9; received = 1; lost = 0; pending = (10, tt) ∷ []; gap_since = some 1 }

gapped-Ledger : Ledger 8 gapped
gapped-Ledger = record {
  books = record {
    small = omega arith;
    balance = omega arith;
    waiting = ((omega arith, omega arith), tt);
    distinct = (refl, tt);
  };
  started = omega arith;
  missing = refl;
  timed = ((λ e. absurd (ground arith)), (λ e. absurd (ground arith)));
}

-- Block 1 was delivered, and a late frame of it comes.
abbrev behind : Lane
behind = record { blocks = []; last_flushed = 1; received = 1; lost = 0 }

abbrev shared : Shared
shared = record { codecs = []; recovered = 0 }

late_frame :
    push_block thousandths mirror 8 (frame_of 5 1 []) behind shared
    ≡ some (record { out = []; lane = behind; shared = shared })
unfolding push_block
late_frame = refl

Settled-run_example :
    All (IsSilent thousandths mirror 1) ((arrived 8 (frame_of 5 1 []), []) ∷ []) × Settled 1 behind
Settled-run_example =
    Settled-run thousandths mirror 1
      (push 8 (frame_of 5 1 []) (record { out = []; lane = behind; shared = shared }) late_frame
        done)
      (record { gone = refl; known = omega arith })
