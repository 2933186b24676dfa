-- ===== src/Scheduler/Tests.antt =====
-- Picks at a concrete scheduler.
use flexbraid.Prelude.{◌≡◌, refl, inl, some, List, [], ◌∷◌, arith}
use flexbraid.Prelude.Int.{pos}
use flexbraid.Float.{thousandths}
use flexbraid.Health.{healthy, degraded, down}
use flexbraid.Scheduler.{
  Scheduler, WanPath, lb, flow, by_capacity, no_ring, usable, pick, pick_wrr, total_weight, weight,
}
use flexbraid.Scheduler.Usable.{IsCurrent, IsAnswer, pick-IsAnswer}

-- Two paths "a" and "b"; the first is down.
abbrev paths : List (WanPath thousandths)
paths =
    record { id = 97 ∷ []; capacity = pos 1000; state = down; loss = pos 0; rr = pos 0 }
    ∷ record { id = 98 ∷ []; capacity = pos 5000; state = degraded; loss = pos 0; rr = pos 0 }
    ∷ []

abbrev scheduler : Scheduler thousandths
scheduler = record {
  opts = record { mode = lb; affinity = flow; balance_by = by_capacity };
  paths = paths;
  ring = no_ring thousandths;
  last_ring_ver = 0;
  ring_ver = 3;
}

scheduler-IsCurrent : IsCurrent thousandths scheduler
scheduler-IsCurrent = record { behind = omega arith; ring_of = inl refl }

pick-IsAnswer_example :
    IsAnswer thousandths paths (pick thousandths [] (pos 300) scheduler).0
    × IsCurrent thousandths (pick thousandths [] (pos 300) scheduler).1
pick-IsAnswer_example = pick-IsAnswer thousandths [] (pos 300) scheduler scheduler-IsCurrent

-- Weights 3 and 1: the heavier path is chosen twice in a row.
abbrev uneven : Scheduler thousandths
uneven = record scheduler {
  paths =
      record { id = 97 ∷ []; capacity = pos 3000; state = healthy; loss = pos 0; rr = pos 0 }
      ∷ record { id = 98 ∷ []; capacity = pos 1000; state = healthy; loss = pos 0; rr = pos 0 }
      ∷ [];
}

wrr_repeats :
    ((pick_wrr thousandths uneven).0 ≡ some (97 ∷ []))
    × ((pick_wrr thousandths (pick_wrr thousandths uneven).1).0 ≡ some (97 ∷ []))
unfolding pick_wrr usable total_weight weight
wrr_repeats = (refl, refl)
