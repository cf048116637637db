-- ===== src/Daemon/Examples/Ticking.antt =====
-- Ticks of the daemon on concrete inputs.
use veila.Prelude.{ℕ, ◌+◌, ◌≤◌, ◌≡◌, refl, false, none, some, [], ◌∷◌, nat_eq}
use veila.Clock.{from_secs}
use veila.Daemon.Messages.{config_change}
use veila.Daemon.Runtime.{LoadedConfig, Runtime}
use veila.Suspend.Ticks.{request_suspend, quiet, requests, suspend_check}
use veila.Daemon.Control.{auto_reload}
use veila.Daemon.Ticks.{
  TickReading, no_reload, apply_config, tick, ticks, reloads, unasked, reading_of, reload_on_tick,
  requests-ticks-le,
}
use veila.Daemon.Examples.{held, timer, config, reload}

-- A locked daemon that suspends after a second; a reload with the same delay comes with the second
-- tick.
abbrev idle_lock : Runtime
idle_lock = record held {
  suspend_state = record timer {
    delay = some (from_secs 1);
    battery_only = false;
    skip_while_media_playing = false;
    last_activity_at = some 0;
    suspend_requested = false;
  };
}

abbrev soon : LoadedConfig
soon = record config {
  suspend_seconds = some 1;
  suspend_only_on_battery = false;
  skip_suspend_while_media_playing = false;
}

abbrev at_second : ℕ → TickReading
at_second n = record { now = from_secs n; battery = none; media = false; reload = no_reload }

abbrev reloading : TickReading
reloading = record (at_second 3) { reload = apply_config reload soon config_change }

-- After a reload the same idle time asks for a second suspend.
suspends_again :
    ticks idle_lock (at_second 2 ∷ reloading ∷ at_second 4 ∷ at_second 5 ∷ [])
    ≡ request_suspend ∷ quiet ∷ request_suspend ∷ quiet ∷ []
unfolding ticks tick reading_of reload_on_tick auto_reload suspend_check
suspends_again = refl

requests-ticks-le_example :
    requests (ticks idle_lock (at_second 2 ∷ reloading ∷ at_second 4 ∷ []))
    ≤ unasked idle_lock + reloads (at_second 2 ∷ reloading ∷ at_second 4 ∷ [])
requests-ticks-le_example = requests-ticks-le idle_lock (at_second 2 ∷ reloading ∷ at_second 4 ∷ [])
