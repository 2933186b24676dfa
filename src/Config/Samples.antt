-- ===== src/Config/Samples.antt =====
-- internal/config/config.go: a sparse document and what Validate makes of it.
use Prim.Native.String.{String}
use flexbraid.Prelude.{◌≡◌, refl, true, false, none, some, [], ◌∷◌, not}
use flexbraid.Prelude.Int.{pos}
use flexbraid.Float.{thousandths}
use flexbraid.Config.{Config, Wan, Fec}
use flexbraid.Config.Checks.{accepted}
use flexbraid.Config.Coding.{check_fec, tests, with_defaults}
use flexbraid.Config.Uplinks.{check_wans, wan_tests, with_wan_defaults, digits}
use flexbraid.Config.Validate.{
  Net, validate, check_endpoints, check_transport, delivery_defaults, delivery_tests,
  queue_defaults, sched_defaults, sched_tests, health_defaults, health_tests, telemetry_tests,
}
use text.Mathlib.Text.{◌==◌ as str_eq}

abbrev pub open_net : Net
open_net = record {
  resolves = λ s. not (str_eq s "nowhere");
  is_host_port = λ s. not (str_eq s "nowhere");
}

abbrev pub no_fec : Fec thousandths
no_fec = record {
  enabled = true;
  mode = "";
  data_shards = pos 0;
  max_loss_pct = pos 0;
  block_timeout_ms = pos 0;
  fixed_overhead_pct = pos 0;
  adapt_min_loss_pct = pos 0;
  adapt_resume_pct = pos 0;
  adapt_hold_sec = pos 0;
  protection_level = pos 0;
}

abbrev pub uplink : String → Wan thousandths
uplink id = record {
  id = id;
  transport = "";
  iface = "";
  local_ip = "";
  fib = pos 0;
  capacity_mbps = pos 50;
  weight = pos 0;
  fec_max_loss_pct = none;
}

-- A client's document with two WANs that leaves out all it can.
abbrev pub sparse : Config thousandths
sparse = record {
  mode = "";
  listen = ":51820";
  server = "vps:4500";
  wg_peer = "";
  session_id = "";
  scheduler = record { mode = ""; affinity = ""; balance_by = ""; capacity_cap_mbps = pos 0 };
  fec = no_fec;
  mtu = pos 1388;
  wans = uplink "" ∷ uplink "lte" ∷ [];
  delivery = record { gap_timeout_ms = pos 0; max_pending = pos 0 };
  health = record {
    loss_alpha_fast = pos 0;
    loss_alpha_slow = pos 0;
    jitter_alpha = pos 0;
    degrade_sec = pos 0;
    recover_min = pos 0;
    probe_interval = pos 0;
    down_after_misses = pos 0;
    down_grace_sec = pos 0;
  };
  crypto = record { key = "secret"; cipher = "" };
  log = record { level = ""; file = "" };
  telemetry = record { listen = ""; path = ""; interval_sec = pos 0 };
  queue = record { enabled = none; max_bytes = pos 0; drop = ""; rate_limit = false };
  transport = "";
}

abbrev pub filled : Config thousandths
filled = record sparse {
  mode = "client";
  session_id = "auto";
  scheduler = record {
    mode = "lb";
    affinity = "packet";
    balance_by = "capacity";
    capacity_cap_mbps = pos 0;
  };
  fec = record {
    enabled = true;
    mode = "adaptive";
    data_shards = pos 10;
    max_loss_pct = pos 20_000;
    block_timeout_ms = pos 8;
    fixed_overhead_pct = pos 0;
    adapt_min_loss_pct = pos 2000;
    adapt_resume_pct = pos 500;
    adapt_hold_sec = pos 10_000;
    protection_level = pos 0;
  };
  mtu = pos 1388;
  wans =
      record (uplink "wan1") { transport = "udp"; weight = pos 1000 }
      ∷ record (uplink "lte") { transport = "udp"; weight = pos 1000 }
      ∷ [];
  delivery = record { gap_timeout_ms = pos 100; max_pending = pos 4096 };
  health = record {
    loss_alpha_fast = pos 400;
    loss_alpha_slow = pos 30;
    jitter_alpha = pos 100;
    degrade_sec = pos 3000;
    recover_min = pos 2000;
    probe_interval = pos 1000;
    down_after_misses = pos 3;
    down_grace_sec = pos 0;
  };
  crypto = record { key = "secret"; cipher = "chacha20poly1305" };
  log = record { level = "info"; file = "" };
  telemetry = record { listen = ""; path = "/stats"; interval_sec = pos 0 };
  queue = record {
    enabled = some true;
    max_bytes = pos 262_144;
    drop = "oldest";
    rate_limit = false;
  };
}

pub fills_in : validate thousandths open_net sparse ≡ accepted filled
unfolding validate check_endpoints check_fec tests with_defaults check_wans wan_tests
    with_wan_defaults digits delivery_defaults delivery_tests check_transport queue_defaults
    sched_defaults sched_tests health_defaults health_tests telemetry_tests
fills_in = refl
