-- ===== src/Session/Lines/Passing.antt =====
-- include/httpserver/detail/http_log.h and src/http_session.cpp: the lines that pass the level.
use Prim.Native.String.{String}
use mathlib.Core.List.{append-nil, append_assoc}
use httpserver_cpp.Base.{
  ◌<◌, ◌≤◌, ◌≡◌, refl, sym, ◌∙◌, ap, inl, inr, true, false, Bool-cases, List, [], ◌∷◌, ◌++◌, map,
  length, leb, Bytes, arith,
}
use httpserver_cpp.Log.{LogLevel, level_value, Spdlog, Log, log_logger}
use httpserver_cpp.Log.Level.{LevelLaws, log_logger_written}
use httpserver_cpp.Session.Lines.{Line, write_timed_out, Argument, line_level, line_format}
use httpserver_cpp.Session.Jobs.Errors.{error_count}

-- The lines that pass a level.
unfoldable pub passing : LogLevel → List Line → List Line
passing set [] = []
passing set (l ∷ lines) =
    let rest = passing set lines in
    elim (leb (level_value set) (level_value (line_level l))) [ true ↦ l ∷ rest | false ↦ rest ]

-- `fmt` is `fmt::format`.
module _ (L : Spdlog) (fmt : String → List Argument → Bytes) where
  open L use {Logger, get_level, output}

  unfoldable pub rendered : Line → Bytes
  rendered l = let (format, args) = line_format l in fmt format args

  -- The macros, one after the other.
  unfoldable pub log_all : List Line → Log Logger → Log Logger
  log_all [] s = s
  log_all (l ∷ lines) s = log_all lines (log_logger L (line_level l) (rendered l) s)

  pub log_all_written :
      (laws : LevelLaws L) (set : LogLevel) (lines : List Line) (s : Log Logger)
      → get_level s.logger ≡ level_value set
      → output (log_all lines s).logger ≡ output s.logger ++ map rendered (passing set lines)
  unfolding log_all passing
  log_all_written laws set [] s e = sym (append-nil _)
  log_all_written laws set (l ∷ lines) s e =
      let (level, written) = log_logger_written L laws set (line_level l) (rendered l) s e in
      let rest =
        log_all_written laws set lines (log_logger L (line_level l) (rendered l) s) level in
      elim (Bool-cases (leb (level_value set) (level_value (line_level l)))) [
        | inl through ↦
            rw (through, passing)
              (rest
                ∙ ap (λ o. o ++ map rendered (passing set lines)) (rw through at written)
                ∙ append_assoc (output s.logger) (rendered l ∷ [])
                    (map rendered (passing set lines)))
        | inr stopped ↦
            rw (stopped, passing)
              (rest ∙ ap (λ o. o ++ map rendered (passing set lines)) (rw stopped at written))
      ]

module _ (set : LogLevel) (above : 0 < level_value set) (below : level_value set ≤ 4) where
  -- Between `Debug` and `Err` just the errors pass.
  pub passing_errors : (lines : List Line) → length (passing set lines) ≡ error_count lines
  unfolding passing line_level level_value
  passing_errors [] = refl
  passing_errors (write_timed_out id n ∷ lines) = ground (arith, passing_errors lines)
  passing_errors (l ∷ lines) = ground (arith, passing_errors lines)
