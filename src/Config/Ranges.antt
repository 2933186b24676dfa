-- ===== src/Config/Ranges.antt =====
-- internal/config/config.go: what every document that passed Validate satisfies.
use Prim.Native.String.{String}
use text.Mathlib.TextEquality.{eq_iff}
use flexbraid.Prelude.{
  ℕ, ◌+◌, ◌≡◌, ◌≢◌, refl, ◌⊎◌, inl, inr, true, false, List, [], ◌∷◌, All, arith, ◌<◌, length, ap,
  Bool-cases, sym, ◌∙◌, if-true, if-false,
}
use flexbraid.Prelude.Int.{ℤ, pos, negsuc, is_negative}
use flexbraid.Float.{Float}
use flexbraid.Config.{Config, Fec, Health, Sched, Telemetry, Wan}
use flexbraid.Config.Checks.{
  accepted, checked-eq-accepted, on_accepted, accepted_inj, Within, not_outside-Within, int_or,
  text_or,
}
use flexbraid.Config.Coding.{check_fec, with_defaults, tests, coding_on, is_coding_mode}
use flexbraid.Config.Uplinks.{
  check_wan, check_wans, with_wan_defaults, wan_tests, is_transport, mem,
}
use flexbraid.Config.Sections.{validate-Sections}
use flexbraid.Config.Settled.{check_wans-settles}
use flexbraid.Config.Validate.{
  Net, validate, check_endpoints, mode_tests, delivery_defaults, delivery_tests, mtu_tests,
  health_defaults, health_tests, sched_defaults, sched_tests, crypto_defaults, crypto_tests,
  telemetry_defaults, telemetry_tests, queue_defaults, queue_tests,
}
use flexbraid.Config.Plain.{
  delivery_tests-Within, mode_tests-cases, needs_wan, HasPeer, check_endpoints-HasPeer,
  crypto_tests-key, queue_tests-cases, check_transport-cases,
}

module _ (fl : Float) where
  open fl use {Carrier, milli, lt, le}

  -- Neither below `lo` nor above `hi`.
  abbrev pub Between : Carrier → Carrier → Carrier → Type 0
  Between lo hi x = (lt x lo ≡ false) × (lt hi x ≡ false)

  -- The section of an enabled codec.
  pub record IsCoding (affinity : String) (f : Fec fl) : Type 0 where
    pub mode : is_coding_mode f.mode ≡ true
    pub data_shards : Within 2 64 f.data_shards
    pub across_packets : (f.mode ≢ "crosspath") ⊎ (affinity ≡ "packet")
    pub max_loss : Between (milli 0) (milli 90_000) f.max_loss_pct
    pub min_loss :
        (le f.adapt_min_loss_pct (milli 0) ≡ false)
        × (lt (milli 90_000) f.adapt_min_loss_pct ≡ false)
    pub resume :
        (lt f.adapt_resume_pct (milli 0) ≡ false)
        × (le f.adapt_min_loss_pct f.adapt_resume_pct ≡ false)
    pub hold : Between (milli 0) (milli 3_600_000) f.adapt_hold_sec
    pub overhead :
        (f.mode ≢ "fixed")
        ⊎ ((le f.fixed_overhead_pct (milli 0) ≡ false)
            × (lt (milli 200_000) f.fixed_overhead_pct ≡ false))
    pub protection : (f.mode ≢ "crosspath") ⊎ Between (milli 0) (milli 1000) f.protection_level

  tests-IsCoding :
      (affinity : String) (f : Fec fl) → tests fl affinity f ≡ accepted tt → IsCoding affinity f
  unfolding tests
  tests-IsCoding affinity f h = record {
    mode = ground arith;
    data_shards = not_outside-Within 2 64 f.data_shards (ground arith);
    across_packets = ground (arith, eq_iff affinity "packet", eq_iff f.mode "crosspath");
    max_loss = ground arith;
    min_loss = ground arith;
    resume = ground arith;
    hold = ground arith;
    overhead = ground (arith, eq_iff f.mode "fixed");
    protection = ground (arith, eq_iff f.mode "crosspath");
  }

  -- Off, or within its ranges.
  abbrev pub IsFec : String → Fec fl → Type 0
  IsFec affinity f = (f.enabled ≡ false) ⊎ IsCoding affinity f

  check_fec-IsFec :
      (affinity : String) (a b : Fec fl) → check_fec fl affinity a ≡ accepted b → IsFec affinity b
  unfolding check_fec
  check_fec-IsFec affinity a b h = elim (Bool-cases (coding_on fl a)) [
    | inl on ↦ inr (
        tests-IsCoding affinity b
          (checked-eq-accepted (with_defaults fl) (tests fl affinity) a b
            (sym (if-true _ _ on) ∙ h)).1)
    | inr off ↦
        (let same = accepted_inj (sym (if-false _ _ off) ∙ h) in
          inl (sym (ap (λ f. f.enabled) same)))
  ]

  -- The wire formats are known, the capacities are not negative and no id stands twice.
  abbrev pub IsWan : Wan fl → Type 0
  IsWan w = (is_transport w.transport ≡ true) × ((n : ℕ) × (w.capacity_mbps ≡ pos n))

  abbrev pub DistinctIds : List (Wan fl) → Type 0
  DistinctIds [] = Unit
  DistinctIds (w ∷ ws) = All (λ v. w.id ≢ v.id) ws × DistinctIds ws

  natural : (x : ℤ) → is_negative x ≡ false → (n : ℕ) × (x ≡ pos n)
  natural (pos n) h = (n, refl)
  natural (negsuc n) h = absurd (ground arith)

  wan_tests-IsWan :
      (seen : List String) (w : Wan fl)
      → wan_tests fl seen w ≡ accepted tt
      → (mem w.id seen ≡ false) × IsWan w
  unfolding wan_tests
  wan_tests-IsWan seen w h = (ground arith, (ground arith, natural w.capacity_mbps (ground arith)))

  -- An id that is not among the seen ones and the id of `w` is new and differs from that of `w`.
  unseen :
      (i : String) (seen : List String) (ws : List (Wan fl))
      → All (λ v. mem v.id (i ∷ seen) ≡ false) ws
      → All (λ v. mem v.id seen ≡ false) ws × All (λ v. i ≢ v.id) ws
  unseen i seen [] h = (tt, tt)
  unseen i seen (w ∷ ws) h =
      let (old, other) = unseen i seen ws h.1 in
      ((ground (arith, h.0), old), (ground (arith, h.0, eq_iff i w.id), other))

  check_wans-DistinctIds :
      (i : ℕ) (seen : List String) (ws vs : List (Wan fl))
      → check_wans fl i seen ws ≡ accepted vs
      → All (λ v. mem v.id seen ≡ false) vs × All IsWan vs × DistinctIds vs
  unfolding check_wans
  check_wans-DistinctIds i seen [] vs h = rw (sym (accepted_inj h)) (tt, tt, tt)
  check_wans-DistinctIds i seen (w ∷ ws) vs h = on_accepted (check_wan fl i seen w) _ h λ v e1 h1.
      on_accepted (check_wans fl (i + 1) (v.id ∷ seen) ws) _ h1 λ rest e2 h2.
        let (_, passed) = checked-eq-accepted (with_wan_defaults fl i) (wan_tests fl seen) w v e1 in
        let (new, fits) = wan_tests-IsWan seen v passed in
        let (fresh, fit, distinct) = check_wans-DistinctIds (i + 1) (v.id ∷ seen) ws rest e2 in
        let (old, other) = unseen v.id seen rest fresh in
        rw (sym (accepted_inj h2)) ((new, old), (fits, fit), (other, distinct))

  pub record IsSched (s : Sched fl) : Type 0 where
    pub mode : (s.mode ≡ "lb") ⊎ (s.mode ≡ "standby")
    pub affinity : (s.affinity ≡ "flow") ⊎ (s.affinity ≡ "packet")
    pub cap : lt s.capacity_cap_mbps (milli 0) ≡ false

  sched_tests-IsSched : (s : Sched fl) → sched_tests fl s ≡ accepted tt → IsSched s
  unfolding sched_tests
  sched_tests-IsSched s e = record {
    mode = ground (arith, eq_iff s.mode "lb", eq_iff s.mode "standby");
    affinity = ground (arith, eq_iff s.affinity "flow", eq_iff s.affinity "packet");
    cap = ground arith;
  }

  pub record IsHealth (h : Health fl) : Type 0 where
    pub misses : Within 1 32 h.down_after_misses
    pub grace : Between (milli 0) (milli 60_000) h.down_grace_sec

  health_tests-IsHealth : (h : Health fl) → health_tests fl h ≡ accepted tt → IsHealth h
  unfolding health_tests
  health_tests-IsHealth h e = record {
    misses = not_outside-Within 1 32 h.down_after_misses (ground arith);
    grace = ground arith;
  }

  pub record IsTelemetry (net : Net) (t : Telemetry fl) : Type 0 where
    pub interval : lt t.interval_sec (milli 0) ≡ false
    pub listen : (t.listen ≡ "") ⊎ (net.is_host_port t.listen ≡ true)

  telemetry_tests-IsTelemetry :
      (net : Net) (t : Telemetry fl) → telemetry_tests fl net t ≡ accepted tt → IsTelemetry net t
  unfolding telemetry_tests
  telemetry_tests-IsTelemetry net t e = record {
    interval = ground arith;
    listen = ground (arith, eq_iff t.listen "");
  }

  -- What Start and the codecs rely on.
  pub record IsValid (net : Net) (c : Config fl) : Type 0 where
    pub mode : (c.mode ≡ "client") ⊎ (c.mode ≡ "server")
    pub listen : (c.listen ≢ "") × (net.resolves c.listen ≡ true)
    pub peer : HasPeer net c.mode c.server c.wg_peer
    pub gap_timeout : Within 10 5000 c.delivery.gap_timeout_ms
    pub max_pending : Within 64 4096 c.delivery.max_pending
    pub mtu : Within 576 9000 c.mtu
    pub fec : IsFec c.scheduler.affinity c.fec
    pub wans : All IsWan c.wans × DistinctIds c.wans
    pub some_wan : (c.mode ≢ "client") ⊎ (0 < length c.wans)
    pub scheduler : IsSched c.scheduler
    pub transport : (c.mode ≢ "server") ⊎ (is_transport c.transport ≡ true)
    pub health : IsHealth c.health
    pub key : c.crypto.key ≢ ""
    pub telemetry : IsTelemetry net c.telemetry
    pub drop : (c.queue.drop ≡ "oldest") ⊎ (c.queue.drop ≡ "newest")

  -- What Validate accepts has a mode, and the addresses that it needs are given and resolve; the gap
  -- timeout, the buffer bound, the MTU, the number of misses and the grace time are in range; the
  -- scheduler has a known mode and affinity and no negative cap; the FEC section is off or has a
  -- known mode and all its numbers in range; the WANs have known transports, capacities that are not
  -- negative and distinct ids, and a client has one; a server has a known transport; there is a key;
  -- the telemetry's interval is not negative and its address, if any, is well-formed; the queue has
  -- a known drop policy.
  pub validate-IsValid :
      (net : Net) (c c' : Config fl) → validate fl net c ≡ accepted c' → IsValid net c'
  validate-IsValid net c c' h =
      let s = validate-Sections fl net c c' h in
      let mode =
        mode_tests-cases c'.mode
          (checked-eq-accepted (λ m. text_or m "client") mode_tests c.mode c'.mode s.mode).1 in
      let same : check_endpoints net c'.mode c'.listen c'.server c'.wg_peer
          ≡ accepted s.endpoints.0 =
        rw (s.addresses.0, s.addresses.1, s.addresses.2) s.endpoints.1 in
      let (listen, peer) =
        check_endpoints-HasPeer net c'.mode c'.listen c'.server c'.wg_peer mode same in
      let (gap, most) =
        delivery_tests-Within c'.delivery
          (checked-eq-accepted delivery_defaults delivery_tests c.delivery c'.delivery
            s.delivery).1 in
      let in_mtu =
        (checked-eq-accepted (λ m. int_or m (pos 1420)) mtu_tests c.mtu c'.mtu s.mtu).1 in
      let (_, fits, distinct) = check_wans-DistinctIds 0 [] c.wans c'.wans s.wans in
      let alive =
        (checked-eq-accepted (health_defaults fl) (health_tests fl) c.health c'.health
          s.health).1 in
      let sched =
        (checked-eq-accepted (sched_defaults fl) (sched_tests fl) c.scheduler c'.scheduler
          s.scheduler).1 in
      let keyed =
        (checked-eq-accepted crypto_defaults crypto_tests c.crypto c'.crypto s.crypto).1 in
      let told =
        (checked-eq-accepted (telemetry_defaults fl) (telemetry_tests fl net) c.telemetry
          c'.telemetry s.telemetry).1 in
      let queued = (checked-eq-accepted queue_defaults queue_tests c.queue c'.queue s.queue).1 in
      let count = (check_wans-settles fl 0 [] c.wans c'.wans s.wans).1 in
      record {
        mode = mode;
        listen = listen;
        peer = peer;
        gap_timeout = gap;
        max_pending = most;
        mtu = not_outside-Within 576 9000 c'.mtu (ground arith);
        fec = check_fec-IsFec c'.scheduler.affinity c.fec c'.fec s.fec;
        wans = (fits, distinct);
        some_wan = needs_wan c'.mode (length c'.wans) (rw count s.some_wan.1);
        scheduler = sched_tests-IsSched c'.scheduler sched;
        transport = check_transport-cases c'.mode c.transport c'.transport s.transport;
        health = health_tests-IsHealth c'.health alive;
        key = crypto_tests-key c'.crypto keyed;
        telemetry = telemetry_tests-IsTelemetry net c'.telemetry told;
        drop = queue_tests-cases c'.queue queued;
      }
