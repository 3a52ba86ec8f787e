-- ===== src/Log/Tests.antt =====
-- A concrete logger, and the theorems on the log at concrete inputs.
use httpserver_cpp.Base.{
  ℕ, ◌≡◌, refl, true, false, List, [], ◌∷◌, ◌++◌, none, some, Bytes, codes, leb, if◌then◌else◌,
  arith,
}
use httpserver_cpp.Base.Result.{runtime_error}
use httpserver_cpp.Log.{
  warn, trace, level_value, LogOptions, default_log_options, Sink, Spdlog, Log, add_file_sink,
  make_sinks, set_logger, init_log, set_log_level, get_log_level, http_log, log_logger,
}
use httpserver_cpp.Log.Setup.{InitOutcome, init_log-Outcome, init_log_again}
use httpserver_cpp.Log.Level.{LevelLaws, log_logger-Filters}

pub record SampleLogger : Type 0 where
  pub level : ℕ
  pub sinks : List Sink
  pub output : List Bytes

abbrev pub new_sample : List Sink → SampleLogger
new_sample sinks = record { level = 2; sinks = sinks; output = [] }

abbrev pub sample_spdlog : Spdlog
sample_spdlog = record {
  Logger = SampleLogger;
  makes_sink = λ _. true;
  makes_pool = λ q n. leb n 1000;
  new_logger = λ name sinks. new_sample sinks;
  async_logger = λ name sinks. new_sample sinks;
  set_pattern = λ p x. x;
  set_level = λ n x. record x { level = n };
  get_level = λ x. x.level;
  log = λ n m x. if leb x.level n then record x { output = x.output ++ m ∷ [] } else x;
  output = λ x. x.output;
}

pub sample-LevelLaws : LevelLaws sample_spdlog
sample-LevelLaws = record {
  get-set = λ n x. refl;
  output-set = λ n x. refl;
  level-pattern = λ p x. refl;
  output-pattern = λ p x. refl;
  level-log = λ n m x. ground arith;
  output-log = λ n m x. ground arith;
}

abbrev pub new_log : Log SampleLogger
new_log = record { init_flag = false; pattern_set = false; pool = none; logger = new_sample [] }

abbrev nameless : LogOptions
nameless = record default_log_options { enable_file_mode = true }

unfoldable pub logs : Unit {0}
unfolding level_value add_file_sink make_sinks set_logger init_log set_log_level get_log_level
    http_log log_logger
logs = tt

-- A failed call blocks the next one.
blocked :
    (init_log sample_spdlog default_log_options (init_log sample_spdlog nameless new_log).0).1
    ≡ some (
        runtime_error
          "logger was already initialized, call the function once at program start (or never)")
unfolding logs
blocked = refl

init_log-Outcome_example :
    InitOutcome sample_spdlog nameless new_log (init_log sample_spdlog nameless new_log)
init_log-Outcome_example = init_log-Outcome sample_spdlog nameless new_log refl

init_log_again_example :
    init_log sample_spdlog default_log_options (init_log sample_spdlog nameless new_log).0 ≡ (
      (init_log sample_spdlog nameless new_log).0,
      some (
          runtime_error
            "logger was already initialized, call the function once at program start (or never)"),
    )
init_log_again_example = init_log_again sample_spdlog nameless default_log_options new_log

log_logger-Filters_example :
    (get_log_level sample_spdlog
        (log_logger sample_spdlog trace (codes "hi") (set_log_level sample_spdlog warn new_log))
      ≡ level_value warn)
    × ((log_logger sample_spdlog trace
          (codes "hi")
          (set_log_level sample_spdlog warn new_log)).logger.output
        ≡ (if leb (level_value warn) (level_value trace)
            then new_log.logger.output ++ codes "hi" ∷ []
            else new_log.logger.output))
log_logger-Filters_example =
    log_logger-Filters sample_spdlog sample-LevelLaws warn trace (codes "hi") new_log
