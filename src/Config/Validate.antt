-- ===== src/Config/Validate.antt =====
-- internal/config/config.go: Validate, section by section in its order. Whether an address resolves
-- and whether it is host:port are parameters.
use Prim.Native.String.{String}
use text.Mathlib.Text.{◌==◌ as str_eq}
use flexbraid.Prelude.{Bool, true, not, ◌&&◌, none, some, [], length, ◌==◌, if◌then◌else◌}
use flexbraid.Prelude.Int.{ℤ, pos, le_ℤ}
use flexbraid.Float.{Float}
use flexbraid.Config.{
  Config, Sched, Delivery, Health, Crypto, Telemetry, Queue, delivery_max_pending,
}
use flexbraid.Config.Checks.{
  Outcome, accepted, ◌>>=◌, ◌>>◌, raise_if, checked, text_or, int_or, outside, float_or,
  float_outside, invalid_mode, no_listen, no_server, no_wg_peer, bad_listen, bad_server,
  bad_wg_peer, invalid_scheduler_mode, invalid_affinity, negative_capacity_cap, bad_gap_timeout,
  bad_max_pending, bad_mtu, no_wans, bad_server_transport, bad_down_after_misses, bad_down_grace,
  no_key, bad_interval, bad_telemetry_listen, bad_queue_drop,
}
use flexbraid.Config.Coding.{check_fec}
use flexbraid.Config.Uplinks.{check_wans, is_transport}

-- Package net: whether ResolveUDPAddr and SplitHostPort succeed.
pub record Net : Type 0 where
  pub resolves : String → Bool
  pub is_host_port : String → Bool

abbrev pub mode_tests : String → Outcome (Unit {0})
mode_tests mode = raise_if (not (str_eq mode "client") && not (str_eq mode "server")) invalid_mode

abbrev pub check_mode : String → Outcome String
check_mode = checked (λ mode. text_or mode "client") mode_tests

unfoldable pub check_endpoints : Net → String → String → String → String → Outcome (Unit {0})
check_endpoints net mode listen server wg_peer = do
  let client = str_eq mode "client"
  let serves = str_eq mode "server"
  raise_if (str_eq listen "") no_listen
  raise_if (client && str_eq server "") no_server
  raise_if (serves && str_eq wg_peer "") no_wg_peer
  raise_if (not (net.resolves listen)) bad_listen
  raise_if (client && not (net.resolves server)) bad_server
  raise_if (serves && not (net.resolves wg_peer)) bad_wg_peer
  accepted tt

unfoldable pub delivery_defaults : Delivery → Delivery
delivery_defaults d = record {
  gap_timeout_ms = int_or d.gap_timeout_ms (pos 100);
  max_pending = int_or d.max_pending (pos 4096);
}

unfoldable pub delivery_tests : Delivery → Outcome (Unit {0})
delivery_tests d = do
  raise_if (outside 10 5000 d.gap_timeout_ms) bad_gap_timeout
  raise_if (outside 64 delivery_max_pending d.max_pending) bad_max_pending

abbrev pub mtu_tests : ℤ → Outcome (Unit {0})
mtu_tests mtu = raise_if (outside 576 9000 mtu) bad_mtu

abbrev pub check_mtu : ℤ → Outcome ℤ
check_mtu = checked (λ mtu. int_or mtu (pos 1420)) mtu_tests

unfoldable pub check_transport : String → String → Outcome String
check_transport mode given =
    let test = λ (t : String). raise_if (not (is_transport t)) bad_server_transport in
    let served = checked (λ t. text_or t "udp") test given in
    if str_eq mode "server" then served else accepted given

abbrev pub crypto_defaults : Crypto → Crypto
crypto_defaults c = record c { cipher = text_or c.cipher "chacha20poly1305" }

abbrev pub crypto_tests : Crypto → Outcome (Unit {0})
crypto_tests c = raise_if (str_eq c.key "") no_key

unfoldable pub queue_defaults : Queue → Queue
queue_defaults q = record {
  enabled = elim q.enabled [ none ↦ some true | some b ↦ some b ];
  max_bytes = if le_ℤ q.max_bytes (pos 0) then pos 262_144 else q.max_bytes;
  drop = text_or q.drop "oldest";
  rate_limit = q.rate_limit;
}

abbrev pub queue_tests : Queue → Outcome (Unit {0})
queue_tests q =
    raise_if (not (str_eq q.drop "oldest") && not (str_eq q.drop "newest")) bad_queue_drop

module _ (fl : Float) where
  open fl use {Carrier, milli, lt}

  unfoldable pub sched_defaults : Sched fl → Sched fl
  sched_defaults s = record {
    mode = text_or s.mode "lb";
    affinity = text_or s.affinity "packet";
    balance_by = text_or s.balance_by "capacity";
    capacity_cap_mbps = s.capacity_cap_mbps;
  }

  unfoldable pub sched_tests : Sched fl → Outcome (Unit {0})
  sched_tests s = do
    raise_if (not (str_eq s.mode "lb") && not (str_eq s.mode "standby")) invalid_scheduler_mode
    raise_if (not (str_eq s.affinity "flow") && not (str_eq s.affinity "packet")) invalid_affinity
    raise_if (lt s.capacity_cap_mbps (milli 0)) negative_capacity_cap

  unfoldable pub health_defaults : Health fl → Health fl
  health_defaults h = record {
    loss_alpha_fast = float_or fl h.loss_alpha_fast (milli 400);
    loss_alpha_slow = float_or fl h.loss_alpha_slow (milli 30);
    jitter_alpha = float_or fl h.jitter_alpha (milli 100);
    degrade_sec = float_or fl h.degrade_sec (milli 3000);
    recover_min = float_or fl h.recover_min (milli 2000);
    probe_interval = float_or fl h.probe_interval (milli 1000);
    down_after_misses = int_or h.down_after_misses (pos 3);
    down_grace_sec = h.down_grace_sec;
  }

  unfoldable pub health_tests : Health fl → Outcome (Unit {0})
  health_tests h = do
    raise_if (outside 1 32 h.down_after_misses) bad_down_after_misses
    raise_if (float_outside fl (milli 0) (milli 60_000) h.down_grace_sec) bad_down_grace

  abbrev pub telemetry_defaults : Telemetry fl → Telemetry fl
  telemetry_defaults t = record t { path = text_or t.path "/stats" }

  unfoldable pub telemetry_tests : Net → Telemetry fl → Outcome (Unit {0})
  telemetry_tests net t = do
    raise_if (lt t.interval_sec (milli 0)) bad_interval
    raise_if (not (str_eq t.listen "") && not (net.is_host_port t.listen)) bad_telemetry_listen

  unfoldable pub validate : Net → Config fl → Outcome (Config fl)
  validate net c = do
    mode ← check_mode c.mode
    check_endpoints net mode c.listen c.server c.wg_peer
    scheduler ← checked sched_defaults sched_tests c.scheduler
    delivery ← checked delivery_defaults delivery_tests c.delivery
    mtu ← check_mtu c.mtu
    fec ← check_fec fl scheduler.affinity c.fec
    raise_if (length c.wans == 0 && str_eq mode "client") no_wans
    transport ← check_transport mode c.transport
    wans ← check_wans fl 0 [] c.wans
    health ← checked health_defaults health_tests c.health
    crypto ← checked crypto_defaults crypto_tests c.crypto
    telemetry ← checked telemetry_defaults (telemetry_tests net) c.telemetry
    queue ← checked queue_defaults queue_tests c.queue
    accepted (record {
      mode = mode;
      listen = c.listen;
      server = c.server;
      wg_peer = c.wg_peer;
      session_id = text_or c.session_id "auto";
      scheduler = scheduler;
      fec = fec;
      mtu = mtu;
      wans = wans;
      delivery = delivery;
      health = health;
      crypto = crypto;
      log = record c.log { level = text_or c.log.level "info" };
      telemetry = telemetry;
      queue = queue;
      transport = transport;
    })
