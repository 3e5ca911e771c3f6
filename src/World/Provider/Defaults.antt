-- ===== src/World/Provider/Defaults.antt =====
-- internal/adapter/world/runtime/provider.go: the configuration that the program starts from.
use clawvival.Base.{pos, ◌≡◌, refl, none, some, [], ◌∷◌}
use clawvival.World.Clock.{default_clock, new_clock}
use clawvival.World.Provider.{Config, new_provider}

-- `DefaultConfig`, less the time source.
unfoldable pub default_config : {S : Type 0} → Config S
default_config = record {
  clock = default_clock;
  threat_day = pos 1;
  threat_night = pos 3;
  resources_day = some (("wood", pos 10) ∷ ("stone", pos 5) ∷ []);
  resources_night = some (("wood", pos 6) ∷ ("stone", pos 3) ∷ []);
  view_radius = pos 5;
  chunk_store = none;
  clock_state_store = none;
  refresh_interval = pos 0;
}

-- A provider that is given it keeps all of it, and refreshes every five minutes.
new_provider-default :
    {S : Type 0}
    → new_provider {S = S} default_config
      ≡ record default_config { refresh_interval = pos 300_000_000_000 }
unfolding new_provider default_config new_clock
new_provider-default = refl
