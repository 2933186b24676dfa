-- ===== src/Config/Tests.antt =====
-- internal/config/config.go: runs and witnesses.
use flexbraid.Prelude.{◌≡◌, refl, [], ◌∷◌}
use flexbraid.Prelude.Int.{pos}
use flexbraid.Float.{thousandths}
use flexbraid.Config.Checks.{
  accepted, rejected, checked, bad_max_pending, duplicate_wan, crosspath_needs_packet,
}
use flexbraid.Config.Coding.{check_fec, tests, with_defaults}
use flexbraid.Config.Uplinks.{check_wans, wan_tests, with_wan_defaults, digits, itoa}
use flexbraid.Config.Validate.{validate, delivery_defaults, delivery_tests}
use flexbraid.Config.Ranges.{IsValid, validate-IsValid}
use flexbraid.Config.Settled.{validate-settles}
use flexbraid.Config.Samples.{open_net, no_fec, uplink, sparse, filled, fills_in}

validate-settles_example : validate thousandths open_net filled ≡ accepted filled
validate-settles_example = validate-settles thousandths open_net sparse filled fills_in

validate-IsValid_example : IsValid thousandths open_net filled
validate-IsValid_example = validate-IsValid thousandths open_net sparse filled fills_in

-- The bound of the anti-replay window, and no crosspath coding of flows.
beyond_window :
    checked delivery_defaults delivery_tests
      (record { gap_timeout_ms = pos 0; max_pending = pos 4097 })
    ≡ rejected bad_max_pending
unfolding delivery_defaults delivery_tests
beyond_window = refl

crosspath_of_flows :
    check_fec thousandths "flow" (record no_fec { mode = "crosspath" })
    ≡ rejected crosspath_needs_packet
unfolding check_fec tests with_defaults
crosspath_of_flows = refl

same_id_twice :
    check_wans thousandths 0 [] (uplink "" ∷ uplink "wan1" ∷ []) ≡ rejected (duplicate_wan "wan1")
unfolding check_wans wan_tests with_wan_defaults digits
same_id_twice = refl

thousand : itoa 1024 ≡ "1024"
unfolding digits
thousand = refl
