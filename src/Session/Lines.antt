-- ===== src/Session/Lines.antt =====
-- src/http_session.cpp: the lines that a session logs.
pub mod Passing
pub mod Logged
pub mod Open
pub mod Closed
use Prim.Native.String.{String}
use httpserver_cpp.Base.{ℕ, Bool, true, false, List, [], ◌∷◌, ◌++◌, Option, none, some, ltb, Bytes}
use httpserver_cpp.Base.Result.{Result, ok}
use httpserver_cpp.Types.{HttpServerOptions}
use httpserver_cpp.Request.{HttpRequest}
use httpserver_cpp.Response.{HttpResponse}
use httpserver_cpp.Router.{Heap, search_segments}
use httpserver_cpp.Log.{LogLevel, trace, err}
use httpserver_cpp.Platform.{Platform}
use httpserver_cpp.Session.{HttpSession, ErrorCode, end_of_stream, timeout}
use httpserver_cpp.Session.Process.{origin_target}
use httpserver_cpp.Session.Jobs.{Job, accepted, was_read, was_written, answers, dropped}

-- Each line, with what it tells: the numbers of the session and the request, and a text.
pub data Line : Type 0 where
  session_created : ℕ → Bytes → ℕ → Line
  session_destroyed session_closed : ℕ → Line
  read_timed_out read_succeeded write_timed_out write_succeeded : ℕ → ℕ → Line
  not_kept_alive handler_not_found method_not_supported : ℕ → ℕ → Line
  read_failed write_failed url_invalid : ℕ → ℕ → Bytes → Line

-- An argument of `fmt::format`; the last one is an address and a port.
pub data Argument : Type 0 where
  number : ℕ → Argument
  text : Bytes → Argument
  endpoint : Bytes → ℕ → Argument

-- `LOG_LOGGER_TRACE` or `LOG_LOGGER_ERROR`
unfoldable pub line_level : Line → LogLevel
line_level (write_timed_out id n) = err
line_level (write_failed id n why) = err
line_level (url_invalid id n why) = err
line_level (handler_not_found id n) = err
line_level (method_not_supported id n) = err
line_level _ = trace

-- The arguments of `fmt::format`.
unfoldable pub line_format : Line → String × List Argument
line_format (session_created id address port) =
    ("session[{}] create, remote: {}", number id ∷ endpoint address port ∷ [])
line_format (session_destroyed id) = ("session[{}] destroy", number id ∷ [])
line_format (session_closed id) = ("session[{}] closed", number id ∷ [])
line_format (read_timed_out id n) =
    ("close invalid session[{}], request_id: {}, read fail: timeout", number id ∷ number n ∷ [])
line_format (read_failed id n why) = (
  "close invalid session[{}], request_id: {}, read fail: {}",
  number id ∷ number n ∷ text why ∷ [],
)
line_format (read_succeeded id n) =
    ("session[{}] request_id: {}, read success", number id ∷ number n ∷ [])
line_format (write_timed_out id n) =
    ("close invalid session[{}], request_id: {}, write fail: timeout", number id ∷ number n ∷ [])
line_format (write_failed id n why) = (
  "close invalid session[{}], request_id: {}, write fail: {}",
  number id ∷ number n ∷ text why ∷ [],
)
line_format (not_kept_alive id n) =
    ("session[{}] request_id: {}, keep alive is false, should close", number id ∷ number n ∷ [])
line_format (write_succeeded id n) =
    ("session[{}] request_id: {}, onWrite success", number id ∷ number n ∷ [])
line_format (url_invalid id n why) =
    ("session[{}], request_id: {}, parse url fail: {}", number id ∷ number n ∷ text why ∷ [])
line_format (handler_not_found id n) =
    ("session[{}], request_id: {}, handler not found", number id ∷ number n ∷ [])
line_format (method_not_supported id n) =
    ("session[{}], request_id: {}, method not support", number id ∷ number n ∷ [])

-- What Boost tells of an error, of a target that does not parse, and of the socket of a session:
-- its remote endpoint, unless that cannot be read.
pub record Reports : Type 0 where
  pub error_message : ErrorCode → Bytes
  pub parse_message : Bytes → Bytes
  pub remote : ℕ → Option (Bytes × ℕ)

module _ (P : Platform) {Handler : Type 0} (handle : Handler → HttpRequest → List HttpResponse)
    (opts : HttpServerOptions) (router : Heap Handler) (R : Reports) where
  open P use {Request, Response, verb, verb_put, UrlView, parse_origin_form, url_segments}
  open R use {error_message, parse_message, remote}

  abbrev S : Type 0
  S = HttpSession Request Response

  -- `HttpSession::HttpSession`, for a session with this number
  unfoldable pub http_session_lines : ℕ → List Line
  http_session_lines id = elim (remote id) [
    | none ↦ []
    | some (address, port) ↦ session_created id address port ∷ []
  ]

  unfoldable pub do_close_lines : S → List Line
  do_close_lines s = elim s.is_open [ true ↦ session_closed s.id ∷ [] | false ↦ [] ]

  -- `~HttpSession`
  unfoldable pub destroy_lines : S → List Line
  unfolding do_close_lines
  destroy_lines s = do_close_lines s ++ session_destroyed s.id ∷ []

  unfoldable pub found_lines : Result (Option Handler) → S → List Line
  found_lines (ok none) s = handler_not_found s.id s.current_request_id ∷ []
  found_lines (ok (some h)) s = elim (ltb verb_put (verb s.request)) [
    | true ↦ method_not_supported s.id s.current_request_id ∷ []
    | false ↦ []
  ]
  found_lines _ s = []

  unfoldable pub process_request_lines : S → List Line
  unfolding found_lines
  process_request_lines s =
      let target = origin_target P handle opts router s.request in
      elim (parse_origin_form target) [
        | none ↦ url_invalid s.id s.current_request_id (parse_message target) ∷ []
        | some url ↦ found_lines (search_segments (url_segments url) router) s
      ]

  unfoldable pub on_read_lines : Option ErrorCode → S → List Line
  unfolding do_close_lines process_request_lines
  on_read_lines (some end_of_stream) s = do_close_lines s
  on_read_lines (some timeout) s = read_timed_out s.id s.current_request_id ∷ do_close_lines s
  on_read_lines (some e) s =
      read_failed s.id s.current_request_id (error_message e) ∷ do_close_lines s
  on_read_lines none s = read_succeeded s.id s.current_request_id ∷ process_request_lines s

  unfoldable pub on_write_lines : Bool → Option ErrorCode → S → List Line
  unfolding do_close_lines
  on_write_lines ka (some timeout) s = write_timed_out s.id s.current_request_id ∷ do_close_lines s
  on_write_lines ka (some e) s =
      write_failed s.id s.current_request_id (error_message e) ∷ do_close_lines s
  on_write_lines false none s = not_kept_alive s.id s.current_request_id ∷ do_close_lines s
  on_write_lines true none s = write_succeeded s.id s.current_request_id ∷ []

  -- What a thread logs that runs a handler of the context.
  unfoldable pub job_lines : Job Request Response → List Line
  unfolding http_session_lines destroy_lines on_read_lines on_write_lines
  job_lines (accepted id request) = http_session_lines id
  job_lines (was_read any ec s) = on_read_lines ec s
  job_lines (was_written ka ec s) = on_write_lines ka ec s
  job_lines (answers rsp s) = []
  job_lines (dropped s) = destroy_lines s
