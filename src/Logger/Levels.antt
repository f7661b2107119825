-- ===== src/Logger/Levels.antt =====
-- Which messages get through.
use stream_client.Common.{
  ◌≡◌, refl, leb_ℤ, Bool-cases, inl, inr, Bool, true, false, some, [], ◌∷◌, ◌++◌, if◌then◌else◌,
}
use stream_client.Logger.Defs.{
  LogLevel, mute, trace, debug, info, warning, error, level_value, cout_logger, func_logger, Kind,
  Log, set_log_level, log_message, log_call, level_prefix,
}

-- Whether a message of one of the five severities is at least as severe as the level; mute stands
-- below all of them.
abbrev pub passes : (level severity : LogLevel) → Bool
passes mute severity = true
passes trace severity = true
passes debug trace = false
passes debug severity = true
passes info trace = false
passes info debug = false
passes info severity = true
passes warning warning = true
passes warning error = true
passes warning severity = false
passes error error = true
passes error severity = false

abbrev pub IsSeverity : LogLevel → Type 0
IsSeverity mute = ⊥
IsSeverity _ = Unit

leb_trace : (level : LogLevel) → leb_ℤ (level_value level) (level_value trace) ≡ passes level trace
leb_trace mute = refl
leb_trace trace = refl
leb_trace debug = refl
leb_trace info = refl
leb_trace warning = refl
leb_trace error = refl

leb_debug : (level : LogLevel) → leb_ℤ (level_value level) (level_value debug) ≡ passes level debug
leb_debug mute = refl
leb_debug trace = refl
leb_debug debug = refl
leb_debug info = refl
leb_debug warning = refl
leb_debug error = refl

leb_info : (level : LogLevel) → leb_ℤ (level_value level) (level_value info) ≡ passes level info
leb_info mute = refl
leb_info trace = refl
leb_info debug = refl
leb_info info = refl
leb_info warning = refl
leb_info error = refl

leb_warning :
    (level : LogLevel) → leb_ℤ (level_value level) (level_value warning) ≡ passes level warning
leb_warning mute = refl
leb_warning trace = refl
leb_warning debug = refl
leb_warning info = refl
leb_warning warning = refl
leb_warning error = refl

leb_error : (level : LogLevel) → leb_ℤ (level_value level) (level_value error) ≡ passes level error
leb_error mute = refl
leb_error trace = refl
leb_error debug = refl
leb_error info = refl
leb_error warning = refl
leb_error error = refl

passes-leb :
    (level severity : LogLevel)
    → IsSeverity severity
    → leb_ℤ (level_value level) (level_value severity) ≡ passes level severity
passes-leb level mute h = absurd h
passes-leb level trace h = leb_trace level
passes-leb level debug h = leb_debug level
passes-leb level info h = leb_info level
passes-leb level warning h = leb_warning level
passes-leb level error h = leb_error level

module _ {M : Type 0} where
  -- Where a logger of each kind keeps a message.
  abbrev pub recorded : LogLevel → M → Log M → Log M
  recorded severity m g = elim g.glob_instance.kind [
    | cout_logger ↦ record g { printed = g.printed ++ (severity, m) ∷ [] }
    | func_logger log_func ↦
        if log_func then record g { handed = g.handed ++ (severity, m) ∷ [] } else g
  ]

  for_kind :
      (kind : Kind) (severity : LogLevel) (m : M) (g : Log M)
      → IsSeverity severity
      → g.glob_instance.kind ≡ kind
      → log_message severity m g ≡ some (recorded severity m g)
  unfolding log_message level_prefix
  for_kind (func_logger f) severity m g h e = rw e
  for_kind cout_logger mute m g h e = absurd h
  for_kind cout_logger trace m g h e = rw e
  for_kind cout_logger debug m g h e = rw e
  for_kind cout_logger info m g h e = rw e
  for_kind cout_logger warning m g h e = rw e
  for_kind cout_logger error m g h e = rw e

  log_message-recorded :
      (severity : LogLevel) (m : M) (g : Log M)
      → IsSeverity severity
      → log_message severity m g ≡ some (recorded severity m g)
  unfolding log_message level_prefix
  log_message-recorded severity m g h = for_kind g.glob_instance.kind severity m g h refl

  -- After set_log_level, a message of one of the five severities is given to the logger exactly if
  -- it is at least as severe as the level, mute being the lowest; otherwise nothing changes.
  pub log_call-passes :
      (level severity : LogLevel) (m : M) (g : Log M)
      → IsSeverity severity
      → log_call severity m (set_log_level level g)
        ≡ some (
            if passes level severity
            then recorded severity m (set_log_level level g)
            else set_log_level level g)
  unfolding log_call log_message set_log_level level_prefix
  log_call-passes level severity m g h =
      rw (passes-leb level severity h, log_message-recorded severity m (set_log_level level g) h)
        (elim (Bool-cases (passes level severity)) [ inl e ↦ rw e | inr e ↦ rw e ])
