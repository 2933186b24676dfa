-- ===== src/Tunnel/Paths.antt =====
-- internal/tunnel/server.go: the paths of a session on the server (registerPath, observeKeepalive). An
-- address is a number, which is also the key of its path; in the scheduler it is the text of that
-- one number. Times are Unix nanoseconds.
use Prim.Native.String.{String}
use flexbraid.Prelude.{
  ℕ, zero, suc, ◌-◌, ◌*◌, ◌/◌, Bool, true, false, ◌&&◌, Option, none, some, List, [], ◌∷◌, length,
  uint32, ltb, leb, ◌==◌, if◌then◌else◌, min,
}
use flexbraid.Prelude.Int.{pos, pos_part}
use flexbraid.Assoc.{Assoc, lookup, put}
use flexbraid.Float.{Float}
use flexbraid.Fec.{Params}
use flexbraid.Health.{Monitor, note_alive, note_missed_probe, observe_sample}
use flexbraid.Health as health
use flexbraid.Scheduler.{Options, Scheduler, add_path}
use flexbraid.Scheduler as scheduler
use flexbraid.Config.{Health}
use flexbraid.Tunnel.Params.{monitor_max_loss, effective_capacity, health_options}

abbrev pub max_paths_per_session : ℕ
max_paths_per_session = 16

abbrev pub default_probe_interval : ℕ
default_probe_interval = 1_000_000_000

module _ (fl : Float) where
  open fl use {Carrier, milli, lt, equal, of_int, to_int}

  pub record PathState : Type 0 where
    pub addr : ℕ
    pub capacity : Carrier
    pub monitor : Monitor fl
    pub last_arrive : ℕ
    pub last_keepalive : ℕ
    pub path_seq : ℕ

  pub record SessState : Type 0 where
    pub sched : Scheduler fl
    pub paths : Assoc PathState
    pub last_seen : Option ℕ

  -- What the server reads of its configuration here.
  pub record Settings : Type 0 where
    pub health : Health fl
    pub sched_opts : Options
    pub balance_by : String
    pub capacity_cap_mbps : Carrier
    pub fec_params : Params fl

  module _ (g : Settings) where
    abbrev pub new_state : SessState
    new_state = record { sched = scheduler.new fl g.sched_opts; paths = []; last_seen = none }

    unfoldable pub new_path : ℕ → ℕ → PathState
    new_path now addr = record {
      addr = addr;
      capacity = milli 1000;
      monitor = health.new fl (health_options fl g.health (monitor_max_loss fl g.fec_params));
      last_arrive = now;
      last_keepalive = 0;
      path_seq = 0;
    }

    -- A declared capacity, within the cap of the server.
    abbrev pub clamped : ℕ → Carrier
    clamped mbps =
        let declared = of_int (pos mbps) in
        let cap = g.capacity_cap_mbps in
        if lt (milli 0) cap && lt cap declared then cap else declared

    unfoldable pub effective_capacity_for : Carrier → Carrier
    effective_capacity_for mbps =
        effective_capacity fl (to_int mbps) (milli 0) g.fec_params g.balance_by

    -- The payload of a FIRST frame starts with the capacity.
    unfoldable pub declare : ℕ → Option (List ℕ) → PathState → SessState → SessState
    declare addr payload ps st =
        let kept = record st { paths = put addr ps st.paths } in
        elim payload [
          | none ↦ kept
          | some b ↦
              (let mbps = clamped (uint32 b 0) in
                if ltb (length b) 4
                then kept
                else if equal mbps ps.capacity
                then kept
                else record st {
                  paths = put addr (record ps { capacity = mbps }) st.paths;
                  sched = add_path fl (addr ∷ []) (effective_capacity_for mbps) st.sched;
                })
        ]

    -- The state of the paths, and whether the session's endpoint is set.
    unfoldable pub register : ℕ → ℕ → Option (List ℕ) → SessState → Bool × SessState
    register now addr payload given =
        let st = record given { last_seen = some addr } in
        elim (lookup addr st.paths) [
          | some ps ↦ (true, declare addr payload (record ps { last_arrive = now }) st)
          | none ↦ if leb max_paths_per_session (length st.paths) then (false, st) else (
            true,
            declare addr payload (new_path now addr)
                (record st { sched = add_path fl (addr ∷ []) (milli 1000) st.sched }),
          )
        ]

    -- The probe interval in whole seconds; a fraction is cut off.
    unfoldable pub probe_interval : ℕ
    probe_interval =
        let n = pos_part (to_int g.health.probe_interval) in
        if n == 0 then default_probe_interval else n * 1_000_000_000

  unfoldable pub miss_times : ℕ → ℕ → Monitor fl → Monitor fl
  miss_times now zero m = m
  miss_times now (suc n) m = miss_times now n (note_missed_probe fl now m)

  -- A keepalive on a path. `time.Unix(0, 0)` is not the zero time, so that the branch for a first
  -- keepalive is never taken.
  unfoldable pub observe_keepalive : ℕ → ℕ → PathState → PathState
  observe_keepalive now interval ps =
      let gap = now - ps.last_keepalive in
      let alive = note_alive fl ps.monitor in
      let missed = min (gap / interval - 1) 8 in
      let silent = ltb (2 * interval) gap && ltb (2 * interval) (now - ps.last_arrive) in
      record ps {
        last_keepalive = now;
        monitor =
            if silent
            then observe_sample fl (milli 1000) (pos 0) (miss_times now missed alive)
            else observe_sample fl (milli 0) (pos 0) alive;
      }
