-- ===== src/Delivery/Tests.antt =====
-- Runs of the reorder buffer, and its theorems at concrete buffers.
use flexbraid.Prelude.{
  ℕ, ◌<◌, ◌⊎◌, ◌+◌, ◌-◌, ◌%◌, ◌^◌, ◌≡◌, ◌≢◌, refl, none, some, List, [], ◌∷◌, length, arith,
}
use flexbraid.Assoc.{lookup}
use flexbraid.Frame.{Frame}
use flexbraid.Delivery.{
  Buffer, accept, push, tick, drain, drain_contiguous, store, make_room, lowest, lowest_pending,
}
use flexbraid.Delivery.Invariant.{IsValid, push-IsValid}
use flexbraid.Delivery.Order.{Run, push-Run}
use flexbraid.Delivery.Gaps.{IsNearest, tick_skips, tick_zero_waits}
use flexbraid.Delivery.Bound.{accept_over_bound}

abbrev data_frame : ℕ → Frame
data_frame n = record {
  version = 2;
  flags = 0;
  session_id = 5;
  seq = n;
  block_seq = 0;
  payload = [];
}

abbrev start : Buffer
start = record {
  next = 1;
  pending = [];
  gap_since = none;
  gap_timeout = 100;
  max_pending = 2;
  drops = 0;
}

start-IsValid : IsValid start
start-IsValid = record {
  next_in = omega arith;
  distinct = tt;
  fits = tt;
  missing = refl;
  timed = ((λ e. refl), (λ e. refl));
}

-- 3 and 2 wait for 1; 5 waits for 4.
abbrev arrivals : List (ℕ × Frame)
arrivals = (10, data_frame 3) ∷ (11, data_frame 2) ∷ (12, data_frame 1) ∷ (13, data_frame 5) ∷ []

push-arrivals : push arrivals start ≡ (
  data_frame 1 ∷ data_frame 2 ∷ data_frame 3 ∷ [],
  record start { next = 4; pending = (5, data_frame 5) ∷ []; gap_since = some 13 },
)
unfolding push accept drain_contiguous drain store make_room lowest
push-arrivals = refl

push-Run_example : Run 1 (push arrivals start).0 (push arrivals start).1.next
push-Run_example = push-Run arrivals {d = start} (omega arith) start-IsValid

push-IsValid_example : IsValid (push arrivals start).1
push-IsValid_example = push-IsValid arrivals {d = start} (omega arith) start-IsValid

-- 5 has waited for 4 since time 13.
abbrev gapped : Buffer
gapped = record start { next = 4; pending = (5, data_frame 5) ∷ []; gap_since = some 13 }

gapped-IsValid : IsValid gapped
gapped-IsValid = record {
  next_in = omega arith;
  distinct = (refl, tt);
  fits = (record { keyed = refl; small = omega arith; near = omega arith }, tt);
  missing = refl;
  timed = ((λ e. absurd (ground arith)), (λ e. absurd (ground arith)));
}

tick_skips_example :
    (lo : ℕ) × IsNearest 4 lo gapped.pending
    × Run lo (tick 113 gapped).0 (tick 113 gapped).1.next
    × ((tick 113 gapped).0 ≢ [])
    × IsValid (tick 113 gapped).1
tick_skips_example = tick_skips 113 {d = gapped} gapped-IsValid refl refl

tick-gapped : (tick 113 gapped).0 ≡ data_frame 5 ∷ []
unfolding tick lowest_pending drain_contiguous drain
tick-gapped = refl

-- The seq space has wrapped: 0 waits for 2 ^ 32 - 1.
abbrev wrapped : Buffer
wrapped = record start { next = 2 ^ 32 - 1; pending = (0, data_frame 0) ∷ []; gap_since = some 13 }

wrapped-IsValid : IsValid wrapped
wrapped-IsValid = record {
  next_in = omega arith;
  distinct = (refl, tt);
  fits = omega arith;
  missing = refl;
  timed = (λ e. absurd (ground arith), λ e. absurd (ground arith));
}

tick_zero_waits_example :
    (((f : Frame) × (lookup 0 wrapped.pending ≡ some f))
      × ((tick 113 wrapped).0 ≡ [])
      × ((tick 113 wrapped).1 ≡ record wrapped { next = 0; gap_since = none }))
    ⊎ ((lo : ℕ) × (0 < lo)
        × ((f : Frame) × (lookup lo wrapped.pending ≡ some f))
        × Run lo (tick 113 wrapped).0 (tick 113 wrapped).1.next
        × ((tick 113 wrapped).0 ≢ []))
tick_zero_waits_example = tick_zero_waits 113 {d = wrapped} wrapped-IsValid refl

abbrev full : Buffer
full = record start { pending = (5, data_frame 5) ∷ (7, data_frame 7) ∷ []; gap_since = some 13 }

lowest-full : lowest 9 full.pending ≡ 5
unfolding lowest
lowest-full = refl

accept_over_bound_example :
    (length (accept 20 (data_frame 3) full).1.pending ≡ 2 + 1)
    × ((accept 20 (data_frame 3) full).1.drops ≡ (0 + 1) % 2 ^ 64)
accept_over_bound_example =
    accept_over_bound 20 (data_frame 3) full refl (omega arith) refl (refl, (refl, tt)) refl
