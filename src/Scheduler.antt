-- ===== src/Scheduler.antt =====
-- internal/scheduler/scheduler.go: the choice of a WAN. The struct's map from ids to paths holds the same
-- pointers as its list, so that the list stands for both. An id is its bytes.
pub mod Hash
pub mod Nodes
pub mod Usable
pub mod Current
mod Tests
use flexbraid.Prelude.{
  ℕ, zero, suc, ◌+◌, ◌-◌, ◌*◌, ◌/◌, ◌%◌, ◌^◌, Bool, true, false, ◌&&◌, ◌||◌, not, Option, none,
  some, List, [], ◌∷◌, ◌++◌, length, get_or, uint16, uint32, ltb, leb, ◌==◌, if◌then◌else◌,
}
use flexbraid.Float.{Float}
use flexbraid.Assoc.{Assoc, lookup, put}
use flexbraid.Scheduler.Hash.{fnv1a, parse_inner_hash, sort, node_from}
use flexbraid.Health.{State, healthy, degraded, down, is_down, is_healthy}

pub data Mode : Type 0 where
  lb standby : Mode

pub data Affinity : Type 0 where
  packet flow : Affinity

pub data BalanceBy : Type 0 where
  by_capacity by_fec by_round : BalanceBy

pub record Options : Type 0 where
  pub mode : Mode
  pub affinity : Affinity
  pub balance_by : BalanceBy

abbrev pub same_id : List ℕ → List ℕ → Bool
same_id [] [] = true
same_id [] (y ∷ b) = false
same_id (x ∷ a) [] = false
same_id (x ∷ a) (y ∷ b) = x == y && same_id a b

module _ (fl : Float) where
  open fl use {Carrier, milli, add, sub, mul, lt, le}

  pub record WanPath : Type 0 where
    pub id : List ℕ
    pub capacity : Carrier
    pub state : State
    pub loss : Carrier
    pub rr : Carrier

  pub record Ring : Type 0 where
    pub nodes : List ℕ
    pub node_ids : Assoc (List ℕ)

  abbrev pub no_ring : Ring
  no_ring = record { nodes = []; node_ids = [] }

  pub record Scheduler : Type 0 where
    pub opts : Options
    pub paths : List WanPath
    pub ring : Ring
    pub last_ring_ver : ℕ
    pub ring_ver : ℕ

  unfoldable pub new : Options → Scheduler
  new o = record { opts = o; paths = []; ring = no_ring; last_ring_ver = 0; ring_ver = 0 }

  abbrev pub bump : ℕ → ℕ
  bump v = (v + 1) % 2 ^ 64

  abbrev pub knows : List ℕ → List WanPath → Bool
  knows id [] = false
  knows id (p ∷ ps) = if same_id p.id id then true else knows id ps

  -- A field of the path with an id set.
  abbrev pub update : List ℕ → (WanPath → WanPath) → List WanPath → List WanPath
  update id f [] = []
  update id f (p ∷ ps) = let rest = update id f ps in if same_id p.id id then f p ∷ ps else p ∷ rest

  abbrev pub remove : List ℕ → List WanPath → List WanPath
  remove id [] = []
  remove id (p ∷ ps) = let rest = remove id ps in if same_id p.id id then ps else p ∷ rest

  unfoldable pub add_path : List ℕ → Carrier → Scheduler → Scheduler
  add_path id capacity s =
      let p : WanPath = record {
        id = id;
        capacity = capacity;
        state = healthy;
        loss = milli 0;
        rr = milli 0;
      } in
      if knows id s.paths
      then record s { paths = update id (λ q. record q { capacity = capacity }) s.paths }
      else record s { paths = s.paths ++ (p ∷ []); ring_ver = bump s.ring_ver }

  unfoldable pub remove_path : List ℕ → Scheduler → Scheduler
  remove_path id s =
      if knows id s.paths
      then record s { paths = remove id s.paths; ring_ver = bump s.ring_ver }
      else s

  unfoldable pub on_state : List ℕ → State → Carrier → Scheduler → Scheduler
  on_state id st loss s =
      if knows id s.paths
      then record s {
        paths = update id (λ q. record q { state = st; loss = loss }) s.paths;
        ring_ver = bump s.ring_ver;
      }
      else s

  unfoldable pub usable : List WanPath → List WanPath
  usable [] = []
  usable (p ∷ ps) = let rest = usable ps in if is_down p.state then rest else p ∷ rest

  unfoldable pub weight : BalanceBy → WanPath → Carrier
  weight by p = elim p.state [
    | down ↦ milli 0
    | degraded ↦ milli 200
    | healthy ↦
        (if le p.capacity (milli 0)
          then milli 1000
          else elim by [ by_round ↦ milli 1000 | _ ↦ p.capacity ])
  ]

  unfoldable pub total_weight : BalanceBy → Carrier → List WanPath → Carrier
  unfolding weight
  total_weight by t [] = t
  total_weight by t (p ∷ ps) = total_weight by (add t (weight by p)) ps

  -- The loop that uses up the random number; the id is that of the last path so far.
  unfoldable pub use_up : BalanceBy → List ℕ → Carrier → List WanPath → List ℕ
  unfolding weight
  use_up by last r [] = last
  use_up by last r (p ∷ ps) =
      let r' = sub r (weight by p) in
      let later = use_up by p.id r' ps in if le r' (milli 0) then p.id else later

  -- `u` is the list head `p` with `ps`; `random` is the result of rng.Float64.
  unfoldable pub pick_weighted : BalanceBy → Carrier → WanPath → List WanPath → List ℕ
  unfolding use_up total_weight
  pick_weighted by random p ps =
      let total = total_weight by (milli 0) (p ∷ ps) in
      if le total (milli 0) then p.id else use_up by p.id (mul random total) (p ∷ ps)

  unfoldable pub place : List ℕ → ℕ → ℕ → Ring → Ring
  place id v zero r = r
  place id v (suc n) r =
      place id (v + 1) n
        (record { nodes = fnv1a id v ∷ r.nodes; node_ids = put (fnv1a id v) id r.node_ids })

  unfoldable pub place_all : List WanPath → Ring → Ring
  place_all [] r = r
  place_all (p ∷ ps) r = place_all ps (place p.id 0 64 r)

  unfoldable pub build_ring : List WanPath → Ring
  build_ring us = let r = place_all us no_ring in record r { nodes = sort r.nodes }

  abbrev pub is_nil : List ℕ → Bool
  is_nil [] = true
  is_nil (n ∷ ns) = false

  -- The ring, rebuilt where it is missing or out of date.
  unfoldable pub fresh_ring : List WanPath → Scheduler → Scheduler
  fresh_ring us s =
      if is_nil s.ring.nodes || not (s.last_ring_ver == s.ring_ver)
      then record s { ring = build_ring us; last_ring_ver = s.ring_ver }
      else s

  abbrev pub id_at : ℕ → Assoc (List ℕ) → List ℕ
  id_at n m = elim (lookup n m) [ none ↦ [] | some id ↦ id ]

  unfoldable pub ring_id : ℕ → Ring → List ℕ
  unfolding node_from
  ring_id h r = id_at (node_from (h % 2 ^ 32) (get_or r.nodes 0 0) r.nodes) r.node_ids

  abbrev pub first_healthy : List ℕ → List WanPath → List ℕ
  first_healthy d [] = d
  first_healthy d (p ∷ ps) = if is_healthy p.state then p.id else first_healthy d ps

  abbrev pub pick_lb :
      Affinity → Option ℕ → Carrier → WanPath → List WanPath → Scheduler → List ℕ × Scheduler
  pick_lb flow (some h) random p ps s =
      (ring_id h (fresh_ring (p ∷ ps) s).ring, fresh_ring (p ∷ ps) s)
  pick_lb flow none random p ps s = (pick_weighted s.opts.balance_by random p ps, s)
  pick_lb packet o random p ps s = (pick_weighted s.opts.balance_by random p ps, s)

  abbrev pub pick_mode :
      Mode → List ℕ → Carrier → WanPath → List WanPath → Scheduler → List ℕ × Scheduler
  pick_mode standby payload random p ps s = (first_healthy p.id (p ∷ ps), s)
  pick_mode lb payload random p ps s =
      pick_lb s.opts.affinity (parse_inner_hash payload) random p ps s

  abbrev pub pick_of : List ℕ → Carrier → List WanPath → Scheduler → Option (List ℕ) × Scheduler
  pick_of payload random [] s = (none, s)
  pick_of payload random (p ∷ ps) s =
      let (id, s') = pick_mode s.opts.mode payload random p ps s in (some id, s')

  -- `none` where no WAN is usable.
  unfoldable pub pick : List ℕ → Carrier → Scheduler → Option (List ℕ) × Scheduler
  unfolding usable
  pick payload random s = pick_of payload random (usable s.paths) s

  -- A path that can carry traffic gains its weight.
  abbrev pub raise : BalanceBy → WanPath → WanPath
  raise by p = if is_down p.state then p else record p { rr = add p.rr (weight by p) }

  abbrev pub raise_all : BalanceBy → List WanPath → List WanPath
  raise_all by [] = []
  raise_all by (p ∷ ps) = raise by p ∷ raise_all by ps

  abbrev pub best_of : WanPath → List WanPath → WanPath
  best_of b [] = b
  best_of b (p ∷ ps) = if lt b.rr p.rr then best_of p ps else best_of b ps

  -- The choice among the raised paths `us`, with the list of all raised paths.
  abbrev pub wrr_of : List WanPath → List WanPath → Scheduler → Option (List ℕ) × Scheduler
  wrr_of [] raised s = (none, s)
  wrr_of (p ∷ ps) raised s =
      let total = total_weight s.opts.balance_by (milli 0) (p ∷ ps) in
      let best = best_of p ps in
      (
        some best.id,
        record s {
          paths =
              if le total (milli 0)
              then raised
              else update best.id (λ q. record q { rr = sub q.rr total }) raised;
        },
      )

  unfoldable pub pick_wrr : Scheduler → Option (List ℕ) × Scheduler
  pick_wrr s = let raised = raise_all s.opts.balance_by s.paths in wrr_of (usable raised) raised s

  unfoldable pub is_usable : Scheduler → Bool
  is_usable s = elim (usable s.paths) [ [] ↦ false | p ∷ ps ↦ true ]
