-- ===== src/Config/Settled.antt =====
-- internal/config/config.go: a validated document validates to itself.
use Prim.Native.String.{String}
use text.Mathlib.Text.{◌==◌ as str_eq}
use mathlib.Core.Path.{subst}
use flexbraid.Prelude.{
  ℕ, ◌+◌, suc, ◌≡◌, Bool, true, false, not, ◌&&◌, if◌then◌else◌, if-true, if-false, refl, ap, sym,
  ◌==◌, ◌∙◌, List, [], ◌∷◌, length, arith, inl, inr, Bool-cases,
}
use flexbraid.Prelude.Int.{ℤ, pos, le_ℤ}
use flexbraid.Float.{Float}
use flexbraid.Config.{Config, Delivery, Queue, Sched, Health, Fec, Wan}
use flexbraid.Config.Checks.{
  accepted, accepted_inj, no_wans, bad_server_transport, >>=-eq-accepted, checked, checked-settles,
  checked-eq-accepted, if_idem, text_or, int_or, is_zero, float_or, raise_if,
}
use flexbraid.Config.Coding.{check_fec, with_defaults, tests, coding_on}
use flexbraid.Config.Uplinks.{check_wan, check_wans, with_wan_defaults, wan_tests, is_transport}
use flexbraid.Config.Sections.{validate-Sections}
use flexbraid.Config.Validate.{
  Net, validate, mode_tests, check_endpoints, delivery_defaults, delivery_tests, queue_defaults,
  check_transport, sched_defaults, health_defaults, queue_tests, crypto_defaults, crypto_tests,
  telemetry_defaults, telemetry_tests, mtu_tests, sched_tests, health_tests,
}

text_or_idem : (x d : String) → text_or (text_or x d) d ≡ text_or x d
text_or_idem x d = if_idem (λ y. str_eq y "") x d

int_or_idem : (x d : ℤ) → int_or (int_or x d) d ≡ int_or x d
int_or_idem x d = if_idem is_zero x d

delivery_defaults_idem :
    (d : Delivery) → delivery_defaults (delivery_defaults d) ≡ delivery_defaults d
unfolding delivery_defaults
delivery_defaults_idem d = rw (int_or_idem d.gap_timeout_ms, int_or_idem d.max_pending) refl

queue_defaults_idem : (q : Queue) → queue_defaults (queue_defaults q) ≡ queue_defaults q
unfolding queue_defaults
queue_defaults_idem q =
    rw (if_idem (λ b. le_ℤ b (pos 0)) q.max_bytes, text_or_idem q.drop) (ground arith)

module _ (fl : Float) where
  open fl use {Carrier, milli, equal}

  pub float_or_idem : (x d : Carrier) → float_or fl (float_or fl x d) d ≡ float_or fl x d
  float_or_idem x d = if_idem (λ y. equal y (milli 0)) x d

  sched_defaults_idem :
      (s : Sched fl) → sched_defaults fl (sched_defaults fl s) ≡ sched_defaults fl s
  unfolding sched_defaults
  sched_defaults_idem s =
      rw (text_or_idem s.mode, text_or_idem s.affinity, text_or_idem s.balance_by) refl

  health_defaults_idem :
      (h : Health fl) → health_defaults fl (health_defaults fl h) ≡ health_defaults fl h
  unfolding health_defaults
  health_defaults_idem h =
      rw
        (
          float_or_idem h.loss_alpha_fast,
          float_or_idem h.loss_alpha_slow,
          float_or_idem h.jitter_alpha,
          float_or_idem h.degrade_sec,
          float_or_idem h.recover_min,
          float_or_idem h.probe_interval,
          int_or_idem h.down_after_misses,
        )
        refl

  level_idem :
      (b : Bool) (x : Carrier)
      → let y = if b then float_or fl x (milli 500) else x in
        (if b then float_or fl y (milli 500) else y) ≡ y
  level_idem true x = float_or_idem x (milli 500)
  level_idem false x = refl

  with_defaults_idem : (f : Fec fl) → with_defaults fl (with_defaults fl f) ≡ with_defaults fl f
  unfolding with_defaults
  with_defaults_idem f =
      rw
        (
          text_or_idem f.mode,
          int_or_idem f.data_shards,
          float_or_idem f.max_loss_pct,
          if_idem (λ b. le_ℤ b (pos 0)) f.block_timeout_ms,
          float_or_idem f.adapt_min_loss_pct,
          float_or_idem f.adapt_resume_pct,
          float_or_idem f.adapt_hold_sec,
          level_idem (str_eq (text_or f.mode "adaptive") "crosspath") f.protection_level,
        )
        refl

  with_wan_defaults_idem :
      (i : ℕ) (w : Wan fl)
      → with_wan_defaults fl i (with_wan_defaults fl i w) ≡ with_wan_defaults fl i w
  unfolding with_wan_defaults
  with_wan_defaults_idem i w =
      rw (text_or_idem w.id, text_or_idem w.transport, float_or_idem w.weight) refl

  coding_on-with_defaults :
      (f : Fec fl) → coding_on fl f ≡ true → coding_on fl (with_defaults fl f) ≡ true
  unfolding with_defaults
  coding_on-with_defaults f on = elim (Bool-cases (str_eq f.mode "")) [
    | inl e ↦ rw e (ground arith)
    | inr e ↦ rw e on
  ]

  check_fec-settles :
      (affinity : String) (a b : Fec fl)
      → check_fec fl affinity a ≡ accepted b
      → check_fec fl affinity b ≡ accepted b
  unfolding check_fec
  check_fec-settles affinity a b h = elim (Bool-cases (coding_on fl a)) [
    | inl on ↦
        (let h' : checked (with_defaults fl) (tests fl affinity) a ≡ accepted b =
            sym (if-true _ _ on) ∙ h in
          let (same, _) = checked-eq-accepted (with_defaults fl) (tests fl affinity) a b h' in
          let still : coding_on fl b ≡ true = rw same (coding_on-with_defaults a on) in
          if-true _ _ still
          ∙ checked-settles (with_defaults fl) (tests fl affinity) with_defaults_idem a b h')
    | inr off ↦
        (let h' : accepted (record a { enabled = false }) ≡ accepted b =
            sym (if-false _ _ off) ∙ h in
          let still : coding_on fl (record a { enabled = false }) ≡ false = ground arith in
          subst (λ x. check_fec fl affinity x ≡ accepted x) (accepted_inj h') (if-false _ _ still))
  ]

  pub check_wans-settles :
      (i : ℕ) (seen : List String) (ws vs : List (Wan fl))
      → check_wans fl i seen ws ≡ accepted vs
      → (check_wans fl i seen vs ≡ accepted vs) × (length vs ≡ length ws)
  unfolding check_wans
  check_wans-settles i seen [] vs h =
      subst (λ l. (check_wans fl i seen l ≡ accepted l) × (length l ≡ 0)) (accepted_inj h)
        (refl, refl)
  check_wans-settles i seen (w ∷ ws) vs h =
      let (v, e1, h1) = >>=-eq-accepted (check_wan fl i seen w) _ h in
      let (rest, e2, h2) = >>=-eq-accepted (check_wans fl (i + 1) (v.id ∷ seen) ws) _ h1 in
      let (again, same) = check_wans-settles (i + 1) (v.id ∷ seen) ws rest e2 in
      let first =
        checked-settles (with_wan_defaults fl i) (wan_tests fl seen) (with_wan_defaults_idem i) w v
          e1 in
      subst (λ l. (check_wans fl i seen l ≡ accepted l) × (length l ≡ suc (length ws)))
        (accepted_inj h2) (rw (first, again) refl, ap suc same)

  check_transport-settles :
      (mode a b : String)
      → check_transport mode a ≡ accepted b
      → check_transport mode b ≡ accepted b
  unfolding check_transport
  check_transport-settles mode a b h = elim (Bool-cases (str_eq mode "server")) [
    | inl e ↦
        (let h' = sym (if-true _ _ e) ∙ h in
          if-true _ _ e
          ∙ checked-settles (λ t. text_or t "udp")
              (λ t. raise_if (not (is_transport t)) bad_server_transport)
              (λ t. text_or_idem t "udp") a b h')
    | inr e ↦
        subst (λ x. check_transport mode x ≡ accepted x) (accepted_inj (sym (if-false _ _ e) ∙ h))
          (if-false _ _ e)
  ]

  -- A document that passed Validate passes it again, and no field changes any more.
  pub validate-settles :
      (net : Net) (c c' : Config fl)
      → validate fl net c ≡ accepted c'
      → validate fl net c' ≡ accepted c'
  unfolding validate
  validate-settles net c c' h =
      let s = validate-Sections fl net c c' h in
      let mode =
        checked-settles (λ m. text_or m "client") mode_tests (λ m. text_or_idem m "client") c.mode
          c'.mode s.mode in
      let scheduler =
        checked-settles (sched_defaults fl) (sched_tests fl) sched_defaults_idem c.scheduler
          c'.scheduler s.scheduler in
      let delivery =
        checked-settles delivery_defaults delivery_tests delivery_defaults_idem c.delivery
          c'.delivery s.delivery in
      let mtu =
        checked-settles (λ m. int_or m (pos 1420)) mtu_tests (λ m. int_or_idem m (pos 1420)) c.mtu
          c'.mtu s.mtu in
      let fec = check_fec-settles c'.scheduler.affinity c.fec c'.fec s.fec in
      let transport = check_transport-settles c'.mode c.transport c'.transport s.transport in
      let wans = (check_wans-settles 0 [] c.wans c'.wans s.wans).0 in
      let count = (check_wans-settles 0 [] c.wans c'.wans s.wans).1 in
      let some_wan : raise_if (length c'.wans == 0 && str_eq c'.mode "client") no_wans
          ≡ accepted s.some_wan.0 =
        rw count s.some_wan.1 in
      let health =
        checked-settles (health_defaults fl) (health_tests fl) health_defaults_idem c.health
          c'.health s.health in
      let crypto =
        checked-settles crypto_defaults crypto_tests
          (λ k. ap (λ t. record k { cipher = t }) (text_or_idem k.cipher "chacha20poly1305"))
          c.crypto c'.crypto s.crypto in
      let telemetry =
        checked-settles (telemetry_defaults fl) (telemetry_tests fl net)
          (λ t. ap (λ p. record t { path = p }) (text_or_idem t.path "/stats")) c.telemetry
          c'.telemetry s.telemetry in
      let queue =
        checked-settles queue_defaults queue_tests queue_defaults_idem c.queue c'.queue s.queue in
      let session_id : text_or c'.session_id "auto" ≡ c'.session_id =
        rw s.session_id (text_or_idem c.session_id "auto") in
      let level : text_or c'.log.level "info" ≡ c'.log.level =
        rw s.level (text_or_idem c.log.level "info") in
      let endpoints : check_endpoints net c'.mode c'.listen c'.server c'.wg_peer
          ≡ accepted s.endpoints.0 =
        rw (s.addresses.0, s.addresses.1, s.addresses.2) s.endpoints.1 in
      rw
        (
          mode, endpoints, scheduler, delivery, mtu, fec, some_wan, transport, wans, health, crypto,
          telemetry, queue, session_id, level,
        )
        refl
