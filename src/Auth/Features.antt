-- ===== src/Auth/Features.antt =====
-- feature/featureStore.ts and types/feature.types.ts: the feature flags.
use g_manager.Common.{String, Bool, true, false, List, [], ◌∷◌, ◌===◌, if◌then◌else◌}

pub record Flags : Type 0 where
  pub reports : Bool
  pub pwa_offline : Bool
  pub ai_assistant : Bool

pub record FeatureState : Type 0 where
  pub flags : Flags
  pub loaded : Bool

-- A FeatureFlagState of the server: its key, which may be unknown here, and whether it is on.
pub record FlagValue : Type 0 where
  pub key : String
  pub enabled : Bool

abbrev pub defaults : Flags
defaults = record { reports = true; pwa_offline = true; ai_assistant = false }

abbrev pub with_flag : Flags → FlagValue → Flags
with_flag flags v =
    if v.key === "REPORTS"
    then record flags { reports = v.enabled }
    else if v.key === "PWA_OFFLINE"
    then record flags { pwa_offline = v.enabled }
    else if v.key === "AI_ASSISTANT"
    then record flags { ai_assistant = v.enabled }
    else flags

abbrev pub with_flags : Flags → List FlagValue → Flags
with_flags flags [] = flags
with_flags flags (v ∷ vs) = with_flags (with_flag flags v) vs

unfoldable pub apply : List FlagValue → FeatureState
apply values = record { flags = with_flags defaults values; loaded = true }

unfoldable pub reset : FeatureState
reset = record { flags = defaults; loaded = false }
