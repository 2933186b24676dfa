-- ===== src/Config/Sections.antt =====
-- internal/config/config.go: what a successful Validate has done, section by section.
use mathlib.Core.Path.{subst}
use text.Mathlib.Text.{◌==◌ as str_eq}
use flexbraid.Prelude.{◌≡◌, refl, ◌&&◌, [], length, ◌==◌}
use flexbraid.Float.{Float}
use flexbraid.Config.{Config}
use flexbraid.Config.Checks.{
  accepted, checked, text_or, on_accepted, accepted_inj, raise_if, no_wans,
}
use flexbraid.Config.Coding.{check_fec}
use flexbraid.Config.Uplinks.{check_wans}
use flexbraid.Config.Validate.{
  Net, validate, check_mode, check_endpoints, delivery_defaults, delivery_tests, queue_defaults,
  check_mtu, check_transport, sched_defaults, health_defaults, queue_tests, crypto_defaults,
  crypto_tests, telemetry_defaults, telemetry_tests, sched_tests, health_tests,
}

module _ (fl : Float) (net : Net) (c : Config fl) where
  pub record Sections (v : Config fl) : Type 0 where
    pub mode : check_mode c.mode ≡ accepted v.mode
    pub endpoints :
        (u : Unit {0}) × (check_endpoints net v.mode c.listen c.server c.wg_peer ≡ accepted u)
    pub scheduler : checked (sched_defaults fl) (sched_tests fl) c.scheduler ≡ accepted v.scheduler
    pub delivery : checked delivery_defaults delivery_tests c.delivery ≡ accepted v.delivery
    pub mtu : check_mtu c.mtu ≡ accepted v.mtu
    pub fec : check_fec fl v.scheduler.affinity c.fec ≡ accepted v.fec
    pub some_wan :
        (u : Unit {0}) × (raise_if (length c.wans == 0 && str_eq v.mode "client") no_wans
          ≡ accepted u)
    pub transport : check_transport v.mode c.transport ≡ accepted v.transport
    pub wans : check_wans fl 0 [] c.wans ≡ accepted v.wans
    pub health : checked (health_defaults fl) (health_tests fl) c.health ≡ accepted v.health
    pub crypto : checked crypto_defaults crypto_tests c.crypto ≡ accepted v.crypto
    pub telemetry :
        checked (telemetry_defaults fl) (telemetry_tests fl net) c.telemetry ≡ accepted v.telemetry
    pub queue : checked queue_defaults queue_tests c.queue ≡ accepted v.queue
    pub addresses : (v.listen ≡ c.listen) × (v.server ≡ c.server) × (v.wg_peer ≡ c.wg_peer)
    pub session_id : v.session_id ≡ text_or c.session_id "auto"
    pub level : v.log.level ≡ text_or c.log.level "info"

  pub validate-Sections : (v : Config fl) → validate fl net c ≡ accepted v → Sections v
  unfolding validate
  validate-Sections v h = on_accepted (check_mode c.mode) _ h λ mode e1 h1.
      on_accepted (check_endpoints net mode c.listen c.server c.wg_peer) _ h1 λ u2 e2 h2.
        on_accepted (checked (sched_defaults fl) (sched_tests fl) c.scheduler) _ h2 λ sched e3 h3.
          on_accepted (checked delivery_defaults delivery_tests c.delivery) _ h3 λ delivery e4 h4.
            on_accepted (check_mtu c.mtu) _ h4 λ mtu e5 h5.
              on_accepted (check_fec fl sched.affinity c.fec) _ h5 λ fec e6 h6.
                on_accepted (raise_if (length c.wans == 0 && str_eq mode "client") no_wans) _ h6
                  λ u7 e7 h7. on_accepted (check_transport mode c.transport) _ h7 λ transport e8 h8.
                    on_accepted (check_wans fl 0 [] c.wans) _ h8 λ wans e9 h9.
                      on_accepted (checked (health_defaults fl) (health_tests fl) c.health) _ h9
                        λ health e10 h10.
                          on_accepted (checked crypto_defaults crypto_tests c.crypto) _ h10
                            λ crypto e11 h11.
                              on_accepted
                                (checked (telemetry_defaults fl) (telemetry_tests fl net)
                                  c.telemetry)
                                _ h11
                                λ telemetry e12 h12.
                                  on_accepted (checked queue_defaults queue_tests c.queue) _ h12
                                    λ queue e13 h13. subst Sections (accepted_inj h13) (record {
                                      mode = e1;
                                      endpoints = (u2, e2);
                                      scheduler = e3;
                                      delivery = e4;
                                      mtu = e5;
                                      fec = e6;
                                      some_wan = (u7, e7);
                                      transport = e8;
                                      wans = e9;
                                      health = e10;
                                      crypto = e11;
                                      telemetry = e12;
                                      queue = e13;
                                      addresses = (refl, refl, refl);
                                      session_id = refl;
                                      level = refl;
                                    })
