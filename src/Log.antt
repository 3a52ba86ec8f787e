-- ===== src/Log.antt =====
-- src/http_log.cpp and include/httpserver/detail/http_log.h: setting up the logger, its level, and
-- the macros.
pub mod Sinks
pub mod Setup
pub mod Level
pub mod Tests
use Prim.Native.String.{String}
use httpserver_cpp.Base.{
  ℕ, Bool, true, false, ◌||◌, not, List, [], ◌∷◌, ◌++◌, Option, none, some, Bytes, codes, leb, ◌==◌,
  if◌then◌else◌,
}
use httpserver_cpp.Base.Result.{
  Exception, runtime_error, spdlog_ex, Result, ok, throws, fault, ◌>>=◌,
}

pub data LogLevel : Type 0 where
  trace debug info warn err critical off invalid : LogLevel

unfoldable pub level_value : LogLevel → ℕ
level_value trace = 0
level_value debug = 1
level_value info = 2
level_value warn = 3
level_value err = 4
level_value critical = 5
level_value off = 6
level_value invalid = 7

pub record AsyncModeOptions : Type 0 where
  pub queue_size : ℕ
  pub thread_count : ℕ

pub record FileModeOptions : Type 0 where
  pub file_name : Bytes
  pub file_size : ℕ
  pub files_count : ℕ
  pub truncate : Bool

pub record LogOptions : Type 0 where
  pub enable_console_mode : Bool
  pub enable_file_mode : Bool
  pub enable_async_mode : Bool
  pub file_mode_options : FileModeOptions
  pub async_mode_options : AsyncModeOptions

-- The members' initialisers.
abbrev pub default_log_options : LogOptions
default_log_options = record {
  enable_console_mode = true;
  enable_file_mode = false;
  enable_async_mode = false;
  file_mode_options = record { file_name = []; file_size = 0; files_count = 0; truncate = false };
  async_mode_options = record { queue_size = 10000; thread_count = 1 };
}

-- The sinks that are made, with the arguments of their constructors.
pub data Sink : Type 0 where
  stdout_color_sink : Sink
  basic_file_sink : Bytes → Bool → Sink
  rotating_file_sink : Bytes → ℕ → ℕ → Sink

-- What the code calls of spdlog: loggers with their level and output, whether a sink can be made
-- (`false`: the constructor throws), and whether `init_thread_pool` accepts its arguments.
pub record Spdlog : Type 1 where
  pub Logger : Type 0
  pub makes_sink : Sink → Bool
  pub makes_pool : ℕ → ℕ → Bool
  pub new_logger : Bytes → List Sink → Logger
  pub async_logger : Bytes → List Sink → Logger
  pub set_pattern : Bytes → Logger → Logger
  pub set_level : ℕ → Logger → Logger
  pub get_level : Logger → ℕ
  pub log : ℕ → Bytes → Logger → Logger
  pub output : Logger → List Bytes

-- `init_flag`, the `init` of `httpLog`, spdlog's thread pool and its default logger.
pub record Log (Logger : Type 0) : Type 0 where
  pub init_flag : Bool
  pub pattern_set : Bool
  pub pool : Option (ℕ × ℕ)
  pub logger : Logger

abbrev pub default_log_name : Bytes
default_log_name = codes "http server"

abbrev pub default_log_pattern : Bytes
default_log_pattern = codes "%Y-%m-%dT%H:%M:%S.%e|%L|%t|%n|%v|%s|line#%#|"

module _ (L : Spdlog) where
  open L use {
    Logger, makes_sink, makes_pool, new_logger, async_logger, set_pattern, set_level, get_level,
    log,
  }

  -- `std::make_shared` of a sink, pushed to the back.
  abbrev pub push_sink : Sink → List Sink → Result (List Sink)
  push_sink sink sinks = if makes_sink sink then ok (sinks ++ sink ∷ []) else throws spdlog_ex

  -- The file mode of `initLog`.
  unfoldable pub add_file_sink : FileModeOptions → List Sink → Result (List Sink)
  add_file_sink opts sinks = elim opts.file_name [
    | [] ↦ throws (runtime_error "logger filename is empty when file mode enable")
    | c ∷ cs ↦
        if opts.file_size == 0 || opts.files_count == 0
        then push_sink (basic_file_sink (c ∷ cs) opts.truncate) sinks
        else push_sink (rotating_file_sink (c ∷ cs) opts.file_size opts.files_count) sinks
  ]

  unfoldable pub make_sinks : LogOptions → Result (List Sink)
  make_sinks opts = do
    sinks ← if opts.enable_console_mode then push_sink stdout_color_sink [] else ok []
    if opts.enable_file_mode then add_file_sink opts.file_mode_options sinks else ok sinks

  -- The last part of `initLog`, where there are sinks.
  unfoldable pub set_logger : LogOptions → List Sink → Log Logger → Log Logger × Option Exception
  set_logger opts sinks s =
      let a = opts.async_mode_options in
      if opts.enable_async_mode
      then (if a.queue_size == 0 || a.thread_count == 0
          then (s, some (runtime_error "logger queue size or thread count is invalid"))
          else (if makes_pool a.queue_size a.thread_count
              then (
                record s {
                  pool = some (a.queue_size, a.thread_count);
                  logger = set_pattern default_log_pattern (async_logger default_log_name sinks);
                },
                none,
              )
              else (s, some spdlog_ex)))
      else (
        record s { logger = set_pattern default_log_pattern (new_logger default_log_name sinks) },
        none,
      )

  unfoldable pub init_log : LogOptions → Log Logger → Log Logger × Option Exception
  init_log opts s =
      if s.init_flag
      then (
        s,
        some (
            runtime_error
              "logger was already initialized, call the function once at program start (or never)"),
      )
      else (let t = record s { init_flag = true } in
          elim (make_sinks opts) [
            | throws e ↦ (t, some e)
            | fault ↦ (t, none)
            | ok [] ↦ (t, some (runtime_error "there is no valid logger sinks"))
            | ok (sink ∷ sinks) ↦ set_logger opts (sink ∷ sinks) t
          ])

  unfoldable pub set_log_level : LogLevel → Log Logger → Log Logger
  set_log_level lvl s = record s { logger = set_level (level_value lvl) s.logger }

  unfoldable pub get_log_level : Log Logger → ℕ
  get_log_level s = get_level s.logger

  -- `init` is set by the first call.
  unfoldable pub http_log : LogLevel → Bytes → Log Logger → Log Logger
  http_log lvl msg s =
      let logger = if s.pattern_set then s.logger else set_pattern default_log_pattern s.logger in
      record s { pattern_set = true; logger = log (level_value lvl) msg logger }

  -- `LOG_LOGGER_TRACE` to `LOG_LOGGER_CRITICAL`
  unfoldable pub log_logger : LogLevel → Bytes → Log Logger → Log Logger
  log_logger lvl msg s = if leb (get_log_level s) (level_value lvl) then http_log lvl msg s else s
