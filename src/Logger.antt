-- ===== src/Logger.antt =====
-- src/Logger.h and src/Logger.cc: the logger, and the LOG macros.
-- The instance is its level with what std::cout has printed and whether exit(-1) has been called. The
-- message of a macro is the text that its format gives, and the time of a line is the text of
-- Timestamp::now(). MUDEBUG is the argument `mudebug`.
pub mod Lines
use network_library_baseon_c.Base.{
  ℕ, zero, suc, Bool, true, false, List, [], ◌∷◌, ◌++◌, if◌then◌else◌,
}
use network_library_baseon_c.Text.{cut_to}

-- LogLevel, with the values of its enumerators.
pub data LogLevel : Type 0 where
  info error fatal debug : LogLevel

pub level_value : LogLevel → ℕ
level_value info = 0
level_value error = 1
level_value fatal = 2
level_value debug = 3

pub record Logger : Type 0 where
  pub log_level : ℕ
  pub printed : List ℕ
  pub exited : Bool

pub set_log_level : ℕ → Logger → Logger
set_log_level level logger = record logger { log_level = level }

-- What log() prints before the time.
pub prefix : ℕ → List ℕ
prefix zero = 91 ∷ 73 ∷ 78 ∷ 70 ∷ 79 ∷ 93 ∷ 32 ∷ []
prefix (suc zero) = 91 ∷ 69 ∷ 82 ∷ 82 ∷ 79 ∷ 82 ∷ 93 ∷ 32 ∷ []
prefix (suc (suc zero)) = 91 ∷ 70 ∷ 65 ∷ 84 ∷ 65 ∷ 76 ∷ 93 ∷ 32 ∷ []
prefix (suc (suc (suc zero))) = 91 ∷ 68 ∷ 69 ∷ 66 ∷ 85 ∷ 71 ∷ 93 ∷ 32 ∷ []
prefix _ = []

pub log : List ℕ → List ℕ → Logger → Logger
unfolding prefix
log time msg logger = record logger {
  printed = logger.printed ++ (prefix logger.log_level ++ (time ++ (58 ∷ (msg ++ (10 ∷ [])))));
}

-- What the macros share.
pub log_at : LogLevel → List ℕ → List ℕ → Logger → Logger
unfolding log level_value set_log_level
log_at level time msg logger = log time (cut_to 1024 msg) (set_log_level (level_value level) logger)

-- A call of a macro.
pub log_macro : Bool → LogLevel → List ℕ → List ℕ → Logger → Logger
unfolding log_at
log_macro mudebug info time msg logger = log_at info time msg logger
log_macro mudebug error time msg logger = log_at error time msg logger
log_macro mudebug fatal time msg logger = record (log_at fatal time msg logger) { exited = true }
log_macro mudebug debug time msg logger = if mudebug then log_at debug time msg logger else logger
