-- ===== src/Logger/Defs.antt =====
-- include/stream-client/logger.hpp and impl/logger.ipp.
-- `M`: what is logged, a location with a message. The time that cout_logger prints is left out.
use stream_client.Common.{
  ℕ, Bool, Option, none, some, List, [], ◌∷◌, ◌++◌, if◌then◌else◌, ℤ, pos, negsuc, leb_ℤ,
}

pub data LogLevel : Type 0 where
  mute trace debug info warning error : LogLevel

-- The enumerators' values.
abbrev pub level_value : LogLevel → ℤ
level_value mute = negsuc 0
level_value trace = pos 0
level_value debug = pos 1
level_value info = pos 2
level_value warning = pos 3
level_value error = pos 4

-- A logger: cout_logger, or func_logger with a function or an empty one.
pub data Kind : Type 0 where
  cout_logger : Kind
  func_logger : (log_func : Bool) → Kind

pub record Logger : Type 0 where
  pub kind : Kind
  pub level : LogLevel

-- The global instance, and what has been printed or given to functions, the last at the end.
pub record Log (M : Type 0) : Type 0 where
  pub glob_instance : Logger
  pub printed : List (LogLevel × M)
  pub handed : List (LogLevel × M)

-- The program's start.
unfoldable pub initial : {M : Type 0} → Log M
initial = record {
  glob_instance = record { kind = cout_logger; level = trace };
  printed = [];
  handed = [];
}

-- The index into kLevelPrefixes; there is no prefix for mute.
unfoldable pub level_prefix : LogLevel → Option ℕ
level_prefix mute = none
level_prefix trace = some 0
level_prefix debug = some 1
level_prefix info = some 2
level_prefix warning = some 3
level_prefix error = some 4

module _ {M : Type 0} where
  -- set_logger(logger): a null pointer leaves the instance as it is.
  unfoldable pub set_logger : Option Logger → Log M → Log M
  set_logger none g = g
  set_logger (some new_logger) g = record g { glob_instance = new_logger }

  -- set_logger(level, log_func)
  unfoldable pub set_log_func : LogLevel → Bool → Log M → Log M
  unfolding set_logger
  set_log_func level log_func g =
      set_logger (some (record { kind = func_logger log_func; level = level })) g

  unfoldable pub set_log_level : LogLevel → Log M → Log M
  set_log_level level g = record g { glob_instance = record (g.glob_instance) { level = level } }

  unfoldable pub get_log_level : Log M → LogLevel
  get_log_level g = g.glob_instance.level

  -- message of the logger's class; `none` where cout_logger reads past its prefixes.
  unfoldable pub log_message : LogLevel → M → Log M → Option (Log M)
  unfolding level_prefix
  log_message level m g = elim g.glob_instance.kind [
    | cout_logger ↦ elim (level_prefix level) [
      | none ↦ none
      | some i ↦ some (record g { printed = g.printed ++ (level, m) ∷ [] })
    ]
    | func_logger log_func ↦
        some (if log_func then record g { handed = g.handed ++ (level, m) ∷ [] } else g)
  ]

  -- STREAM_LOG_CALL
  unfoldable pub log_call : LogLevel → M → Log M → Option (Log M)
  unfolding log_message
  log_call level m g =
      if leb_ℤ (level_value g.glob_instance.level) (level_value level)
      then log_message level m g
      else some g

  -- STREAM_LOG_ERROR, and so on.
  unfoldable pub log_error : M → Log M → Option (Log M)
  unfolding log_call
  log_error m g = log_call error m g

  unfoldable pub log_warn : M → Log M → Option (Log M)
  unfolding log_call
  log_warn m g = log_call warning m g

  unfoldable pub log_info : M → Log M → Option (Log M)
  unfolding log_call
  log_info m g = log_call info m g

  unfoldable pub log_debug : M → Log M → Option (Log M)
  unfolding log_call
  log_debug m g = log_call debug m g

  unfoldable pub log_trace : M → Log M → Option (Log M)
  unfolding log_call
  log_trace m g = log_call trace m g
