-- ===== src/Mu/Log.antt =====
-- mulib/mulib/extras/mu_log.c: messages at or above a level go to a logging function. A level is its
-- number, a function its address; what the function does comes from outside.
pub mod Filter
use toy_tstat.Common.{
  ℕ, Bool, true, false, not, ◌&&◌, List, [], ◌∷◌, leb, ltb, ◌==◌, if◌then◌else◌, get_or, length,
}
use toy_tstat.Common.Chars.{Bytes, codes}

-- The names of MU_LOG_LEVELS, in the order of their numbers.
abbrev pub level_names : List Bytes
level_names =
    codes "TRACE" ∷ codes "DEBUG" ∷ codes "INFO" ∷ codes "WARN" ∷ codes "ERROR" ∷ codes "FATAL" ∷ []

-- `s_reporting_level` and `s_logging_fn`.
pub record Log : Type 0 where
  pub reporting_level : ℕ
  pub logging_fn : ℕ

pub set_reporting_level : Log → ℕ → Log
set_reporting_level l reporting_level = record l { reporting_level = reporting_level }

pub get_reporting_level : Log → ℕ
get_reporting_level l = l.reporting_level

pub set_logging_function : Log → ℕ → Log
set_logging_function l logging_fn = record l { logging_fn = logging_fn }

pub get_logging_function : Log → ℕ
get_logging_function l = l.logging_fn

pub init : Log → ℕ → ℕ → Log
unfolding set_reporting_level set_logging_function
init l reporting_level logging_fn =
    set_logging_function (set_reporting_level l reporting_level) logging_fn

pub is_reporting : Log → ℕ → Bool
is_reporting l reporting_level = leb l.reporting_level reporting_level

pub level_name : ℕ → Bytes
level_name level =
    if ltb level (length level_names) then get_or level_names level [] else codes "UNKNOWN"

-- `print` is what the logging function at an address does with a message.
module _ {ℓ} {W : Type ℓ} (print : ℕ → Bytes → W → W) where
  pub log : Log → ℕ → Bytes → W → W
  unfolding is_reporting
  log l level message w =
      if is_reporting l level && not (l.logging_fn == 0) then print l.logging_fn message w else w
