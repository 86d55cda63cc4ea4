-- ===== src/LogInit.antt =====
-- The set-up of logging in src/log_init.c. The logging library and the environment are parameters: a
-- function is the list of the calls that it makes to set the library up.
use hyperkv.Base.{
  Bool, true, false, ◌||◌, List, [], ◌∷◌, ◌++◌, Option, none, some, Str, codes, str_eq,
  if◌then◌else◌,
}

-- The library's levels.
pub data Level : Type 0 where
  trace debug info warn error fatal : Level

-- `log_set_level`, `log_set_quiet`, `log_add_fp` on a file of that name, and a line on stderr.
pub data LogCall : Type 0 where
  set_level : Level → LogCall
  set_quiet : Bool → LogCall
  add_fp : Str → Level → LogCall
  complain : Str → LogCall

-- What `getenv` returns for HYPERKV_LOG_LEVEL and HYPERKV_LOG_QUIET, and whether `fopen` succeeds.
pub record Environment : Type 0 where
  pub log_level : Option Str
  pub log_quiet : Option Str
  pub opens : Bool

abbrev pub log_init_default : List LogCall
log_init_default = LogCall.set_level Level.info ∷ LogCall.set_quiet false ∷ []

unfoldable pub log_init_production : Environment → List LogCall
log_init_production env =
    LogCall.set_level Level.warn
    ∷ (if env.opens
        then LogCall.add_fp (codes "hyperkv.log") Level.info ∷ []
        else LogCall.complain (codes "Error opening log file. Logging to stderr only.") ∷ [])

unfoldable pub log_init_development : Environment → List LogCall
log_init_development env =
    LogCall.set_level Level.debug
    ∷ LogCall.set_quiet false
    ∷ (if env.opens
        then LogCall.add_fp (codes "hyperkv-dev.log") Level.debug ∷ []
        else LogCall.complain (codes "Error opening development log file. Logging to stderr only.")
          ∷ [])

abbrev pub log_init_testing : List LogCall
log_init_testing = LogCall.set_level Level.fatal ∷ LogCall.set_quiet true ∷ []

-- The branches on the level, in their order.
unfoldable pub level_calls : Environment → Str → List LogCall
unfolding log_init_development log_init_production
level_calls env level =
    if str_eq level (codes "DEV") || str_eq level (codes "DEBUG")
    then log_init_development env
    else if str_eq level (codes "PROD") || str_eq level (codes "PRODUCTION")
    then log_init_production env
    else if str_eq level (codes "TEST") || str_eq level (codes "TESTING")
    then log_init_testing
    else if str_eq level (codes "TRACE")
    then LogCall.set_level Level.trace ∷ []
    else if str_eq level (codes "DEBUG")
    then LogCall.set_level Level.debug ∷ []
    else if str_eq level (codes "INFO")
    then LogCall.set_level Level.info ∷ []
    else if str_eq level (codes "WARN") || str_eq level (codes "WARNING")
    then LogCall.set_level Level.warn ∷ []
    else if str_eq level (codes "ERROR")
    then LogCall.set_level Level.error ∷ []
    else if str_eq level (codes "FATAL")
    then LogCall.set_level Level.fatal ∷ []
    else log_init_default

abbrev pub is_quiet : Str → Bool
is_quiet mode =
    str_eq mode (codes "1")
    || (str_eq mode (codes "true") || (str_eq mode (codes "TRUE") || str_eq mode (codes "yes")))

unfoldable pub log_init_from_env : Environment → List LogCall
unfolding level_calls
log_init_from_env env =
    elim env.log_level [ none ↦ log_init_default | some level ↦ level_calls env level ]
    ++ elim env.log_quiet [
      | none ↦ []
      | some mode ↦ if is_quiet mode then LogCall.set_quiet true ∷ [] else []
    ]
