-- ===== src/Logger/Lines.antt =====
-- What a sequence of LOG macros prints, against the lines of its calls.
use network_library_baseon_c.Base.{
  ℕ, ◌≡◌, refl, sym, ◌∙◌, Bool, true, false, List, [], ◌∷◌, ◌++◌, append-nil, append_assoc, take,
  if◌then◌else◌,
}
use network_library_baseon_c.Text.{cut_to}
use network_library_baseon_c.Logger.{
  LogLevel, info, error, fatal, debug, Logger, set_log_level, log, log_at, log_macro,
}

-- A LOG macro that is reached, at a time, with a message.
pub record Call : Type 0 where
  pub level : LogLevel
  pub time : List ℕ
  pub msg : List ℕ

-- The calls of one thread, until one exits.
pub run_calls : Bool → List Call → Logger → Logger
run_calls mudebug [] logger = logger
run_calls mudebug (c ∷ cs) logger =
    let after = log_macro mudebug c.level c.time c.msg logger in
    let rest = run_calls mudebug cs after in if after.exited then after else rest

-- "[INFO] ", "[ERROR] ", "[FATAL] " and "[DEBUG] ".
abbrev heading : LogLevel → List ℕ
heading info = 91 ∷ 73 ∷ 78 ∷ 70 ∷ 79 ∷ 93 ∷ 32 ∷ []
heading error = 91 ∷ 69 ∷ 82 ∷ 82 ∷ 79 ∷ 82 ∷ 93 ∷ 32 ∷ []
heading fatal = 91 ∷ 70 ∷ 65 ∷ 84 ∷ 65 ∷ 76 ∷ 93 ∷ 32 ∷ []
heading debug = 91 ∷ 68 ∷ 69 ∷ 66 ∷ 85 ∷ 71 ∷ 93 ∷ 32 ∷ []

-- The line of a call: the name of its level, the time, a colon, the first 1023 bytes of the message,
-- and the end of the line.
abbrev pub line : Call → List ℕ
line c = heading c.level ++ (c.time ++ (58 ∷ (take 1023 c.msg ++ (10 ∷ []))))

-- The lines of the calls up to the first FATAL; those of DEBUG only if it is on.
abbrev pub lines_from : Bool → LogLevel → List ℕ → List ℕ → List ℕ
lines_from mudebug info own rest = own ++ rest
lines_from mudebug error own rest = own ++ rest
lines_from mudebug fatal own rest = own
lines_from mudebug debug own rest = if mudebug then own ++ rest else rest

pub lines : Bool → List Call → List ℕ
lines mudebug [] = []
lines mudebug (c ∷ cs) = lines_from mudebug c.level (line c) (lines mudebug cs)

-- Where the log is before a call.
log_macro_lem :
    (mudebug : Bool) (level : LogLevel) (time msg rest : List ℕ) (logger after : Logger)
    → logger.exited ≡ false
    → ((log_macro mudebug level time msg logger).exited ≡ false
        → after.printed ≡ (log_macro mudebug level time msg logger).printed ++ rest)
    → (if (log_macro mudebug level time msg logger).exited
        then (log_macro mudebug level time msg logger)
        else after).printed
      ≡ logger.printed
        ++ lines_from mudebug level (line (record { level = level; time = time; msg = msg })) rest
unfolding log_macro log_at log set_log_level cut_to
log_macro_lem mudebug info time msg rest logger after e h = rw e (h e ∙ append_assoc _ _ rest)
log_macro_lem mudebug error time msg rest logger after e h = rw e (h e ∙ append_assoc _ _ rest)
log_macro_lem mudebug fatal time msg rest logger after e h = refl
log_macro_lem true debug time msg rest logger after e h = rw e (h e ∙ append_assoc _ _ rest)
log_macro_lem false debug time msg rest logger after e h = rw e (h e)

-- Whatever LOG macros one thread reaches, in whatever order and with the level left by whom: what is
-- printed behind what was there is one line for each, in order, with the name of the call's own level,
-- up to and including that of the first FATAL, but none for a DEBUG where MUDEBUG is not defined.
pub run_calls_lem :
    (mudebug : Bool) (cs : List Call) (logger : Logger)
    → logger.exited ≡ false
    → (run_calls mudebug cs logger).printed ≡ logger.printed ++ lines mudebug cs
unfolding run_calls lines
run_calls_lem mudebug [] logger e = sym (append-nil logger.printed)
run_calls_lem mudebug (c ∷ cs) logger e =
    let after = log_macro mudebug c.level c.time c.msg logger in
    log_macro_lem mudebug c.level c.time c.msg (lines mudebug cs) logger
      (run_calls mudebug cs after) e (run_calls_lem mudebug cs after)
