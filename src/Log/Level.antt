-- ===== src/Log/Level.antt =====
-- src/http_log.cpp and include/httpserver/detail/http_log.h: what the level lets through.
use httpserver_cpp.Base.{ℕ, ◌≡◌, [], ◌∷◌, ◌++◌, Bytes, leb, if◌then◌else◌, arith}
use httpserver_cpp.Log.{
  LogLevel, level_value, Spdlog, Log, default_log_pattern, set_log_level, get_log_level, http_log,
  log_logger,
}

module _ (L : Spdlog) where
  open L use {Logger, set_pattern, set_level, get_level, log, output}

  -- What spdlog documents of levels and output: a logger writes a message at its level or above.
  pub record LevelLaws : Type 0 where
    pub get-set : (n : ℕ) (x : Logger) → get_level (set_level n x) ≡ n
    pub output-set : (n : ℕ) (x : Logger) → output (set_level n x) ≡ output x
    pub level-pattern : (p : Bytes) (x : Logger) → get_level (set_pattern p x) ≡ get_level x
    pub output-pattern : (p : Bytes) (x : Logger) → output (set_pattern p x) ≡ output x
    pub level-log : (n : ℕ) (m : Bytes) (x : Logger) → get_level (log n m x) ≡ get_level x
    pub output-log :
        (n : ℕ) (m : Bytes) (x : Logger)
        → output (log n m x) ≡ (if leb (get_level x) n then output x ++ m ∷ [] else output x)

  http_log_lem :
      (laws : LevelLaws) (at : LogLevel) (msg : Bytes) (s : Log Logger)
      → (get_level (http_log L at msg s).logger ≡ get_level s.logger)
        × (output (http_log L at msg s).logger ≡ (
            if leb (get_level s.logger) (level_value at)
            then output s.logger ++ msg ∷ []
            else output s.logger))
  unfolding http_log
  http_log_lem laws at msg s =
      let marked = set_pattern default_log_pattern s.logger in
      ground (
        arith,
        laws.level-log (level_value at) msg s.logger,
        laws.level-log (level_value at) msg marked,
        laws.output-log (level_value at) msg s.logger,
        laws.output-log (level_value at) msg marked,
        laws.level-pattern default_log_pattern s.logger,
        laws.output-pattern default_log_pattern s.logger,
      )

  -- A macro on a logger with the level that was set.
  pub log_logger_written :
      (laws : LevelLaws) (set at : LogLevel) (msg : Bytes) (s : Log Logger)
      → get_level s.logger ≡ level_value set
      → (get_level (log_logger L at msg s).logger ≡ level_value set)
        × (output (log_logger L at msg s).logger ≡ (
            if leb (level_value set) (level_value at)
            then output s.logger ++ msg ∷ []
            else output s.logger))
  unfolding get_log_level log_logger
  log_logger_written laws set at msg s e =
      let (level, written) = http_log_lem laws at msg s in ground (arith, level, written, e)

  -- After `setLogLevel`, a message of a macro is written, once, exactly if its level is at least the
  -- one that was set; the level stays as it was set.
  pub log_logger-Filters :
      (laws : LevelLaws) (set at : LogLevel) (msg : Bytes) (s : Log Logger)
      → (get_log_level L (log_logger L at msg (set_log_level L set s)) ≡ level_value set)
        × (output (log_logger L at msg (set_log_level L set s)).logger ≡ (
            if leb (level_value set) (level_value at)
            then output s.logger ++ msg ∷ []
            else output s.logger))
  unfolding get_log_level set_log_level log_logger
  log_logger-Filters laws set at msg s =
      let t = set_log_level L set s in
      let (level, written) = http_log_lem laws at msg t in
      ground (
        arith,
        level,
        written,
        laws.get-set (level_value set) s.logger,
        laws.output-set (level_value set) s.logger,
      )
