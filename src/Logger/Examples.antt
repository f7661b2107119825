-- ===== src/Logger/Examples.antt =====
-- A logger whose level is raised.
use stream_client.Common.{ℕ, ◌≡◌, some}
use stream_client.Logger.Defs.{info, warning, initial, set_log_level, log_call}
use stream_client.Logger.Levels.{log_call-passes}

log_call-passes_example :
    log_call info 5 (set_log_level warning (initial {M = ℕ})) ≡ some (set_log_level warning initial)
log_call-passes_example = log_call-passes warning info 5 initial tt
