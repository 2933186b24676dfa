-- ===== src/Config/Coding.antt =====
-- internal/config/config.go: the FEC section of Validate.
use Prim.Native.String.{String}
use text.Mathlib.Text.{◌==◌ as str_eq}
use flexbraid.Prelude.{Bool, false, not, ◌&&◌, ◌||◌, if◌then◌else◌}
use flexbraid.Prelude.Int.{pos, le_ℤ}
use flexbraid.Float.{Float}
use flexbraid.Config.{Fec}
use flexbraid.Config.Checks.{
  Outcome, accepted, ◌>>◌, raise_if, checked, text_or, int_or, outside, float_or, float_outside,
  invalid_fec_mode, bad_data_shards, crosspath_needs_packet, bad_max_loss, bad_adapt_min_loss,
  bad_adapt_resume, bad_adapt_hold, bad_fixed_overhead, bad_protection_level,
}

abbrev pub is_coding_mode : String → Bool
is_coding_mode m = str_eq m "adaptive" || str_eq m "fixed" || str_eq m "crosspath"

module _ (fl : Float) where
  open fl use {Carrier, milli, lt, le}

  -- fec.mode=off overrides fec.enabled.
  abbrev pub coding_on : Fec fl → Bool
  coding_on f = not (str_eq f.mode "off") && f.enabled

  -- The values that an enabled section has once its unset fields are filled in.
  unfoldable pub with_defaults : Fec fl → Fec fl
  with_defaults f =
      let mode = text_or f.mode "adaptive" in
      record {
        enabled = f.enabled;
        mode = mode;
        data_shards = int_or f.data_shards (pos 10);
        max_loss_pct = float_or fl f.max_loss_pct (milli 20_000);
        block_timeout_ms = if le_ℤ f.block_timeout_ms (pos 0) then pos 8 else f.block_timeout_ms;
        fixed_overhead_pct = f.fixed_overhead_pct;
        adapt_min_loss_pct = float_or fl f.adapt_min_loss_pct (milli 2000);
        adapt_resume_pct = float_or fl f.adapt_resume_pct (milli 500);
        adapt_hold_sec = float_or fl f.adapt_hold_sec (milli 10_000);
        protection_level =
            if str_eq mode "crosspath"
            then float_or fl f.protection_level (milli 500)
            else f.protection_level;
      }

  unfoldable pub tests : String → Fec fl → Outcome (Unit {0})
  tests affinity f = do
    let cross = str_eq f.mode "crosspath"
    raise_if (not (is_coding_mode f.mode)) invalid_fec_mode
    raise_if (outside 2 64 f.data_shards) bad_data_shards
    raise_if (cross && not (str_eq affinity "packet")) crosspath_needs_packet
    raise_if (float_outside fl (milli 0) (milli 90_000) f.max_loss_pct) bad_max_loss
    raise_if (le f.adapt_min_loss_pct (milli 0) || lt (milli 90_000) f.adapt_min_loss_pct)
        bad_adapt_min_loss
    raise_if (lt f.adapt_resume_pct (milli 0) || le f.adapt_min_loss_pct f.adapt_resume_pct)
        bad_adapt_resume
    raise_if (float_outside fl (milli 0) (milli 3_600_000) f.adapt_hold_sec) bad_adapt_hold
    raise_if
        (str_eq f.mode "fixed"
          && (le f.fixed_overhead_pct (milli 0) || lt (milli 200_000) f.fixed_overhead_pct))
        bad_fixed_overhead
    raise_if (cross && float_outside fl (milli 0) (milli 1000) f.protection_level)
        bad_protection_level

  unfoldable pub check_fec : String → Fec fl → Outcome (Fec fl)
  check_fec affinity f =
      if coding_on f
      then checked with_defaults (tests affinity) f
      else accepted (record f { enabled = false })
