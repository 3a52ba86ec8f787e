-- ===== src/Server.antt =====
-- src/http_server_impl.h and src/http_server_impl.cpp: the server, and its sessions.
-- src/http_server.cpp forwards each call.
pub mod Control
pub mod Calls
pub mod HttpServer
pub mod Forwards
pub mod Restart
pub mod Counters
pub mod Running
pub mod Accounted
pub mod Told
pub mod Numbers
pub mod Drains
pub mod Ranges
pub mod Snapshot
pub mod Registered
pub mod Routed
pub mod Owners
pub mod Stops
mod Tests
mod SnapshotTests
mod RoutedTests
mod OwnersTests
mod StopsTests
use Prim.Native.String.{String}
use httpserver_cpp.Base.{
  ℕ, suc, ◌+◌, ◌-◌, Bool, true, false, List, [], ◌∷◌, Option, none, some, ◌==◌, if◌then◌else◌,
  Bytes,
}
use httpserver_cpp.Base.Result.{Exception, runtime_error, system_error, Result, ok, throws, fault}
use httpserver_cpp.Types.{HttpServerOptions, HttpStatistics}
use httpserver_cpp.Statistics.{HttpStatisticsInternal, zero_statistics, u64_inc}
use httpserver_cpp.Router.{Heap, empty, insert}
use httpserver_cpp.Platform.{Platform}
use httpserver_cpp.Session.{HttpSession, ErrorCode, http_session, run as run_session}

pub record HttpServerImpl (Handler : Type 0) : Type 0 where
  pub http_statistics : HttpStatisticsInternal
  pub opts : HttpServerOptions
  pub router : Heap Handler
  -- `io_context_.stopped()`
  pub stopped : Bool
  -- `acceptor_.is_open()`, and the calls of `async_accept` whose handler has not run
  pub is_open : Bool
  pub accepts : ℕ
  -- `io_thread_pool_.size()`
  pub io_threads : ℕ
  -- the static `HttpSession::s_id`; the servers of a process share it, and what the others do to it
  -- is a step of its own in Running
  pub s_id : ℕ

-- What the network answers to a call of `run`: whether an address can be parsed, and the error of
-- each operation on the acceptor.
pub record Network : Type 0 where
  pub makes_address : Bytes → Bool
  pub open_error : Option String
  pub reuse_error : Option String
  pub linger_error : Option String
  pub bind_error : Option String
  pub listen_error : Option String

abbrev pub first_error : List (Option String) → Option String
first_error [] = none
first_error (none ∷ rest) = first_error rest
first_error (some m ∷ rest) = some m

module _ {Handler : Type 0} where
  -- The constructor; `last_id` is the value that `s_id` happens to have.
  unfoldable pub http_server_impl : HttpServerOptions → (last_id : ℕ) → HttpServerImpl Handler
  http_server_impl opts last_id = record {
    http_statistics = zero_statistics;
    opts = opts;
    router = empty;
    stopped = true;
    is_open = false;
    accepts = 0;
    io_threads = 0;
    s_id = last_id;
  }

  unfoldable pub reset_all_http_statistics : HttpServerImpl Handler → HttpServerImpl Handler
  reset_all_http_statistics s = record s {
    http_statistics = record {
      session_cnt = 0;
      read_timeout_cnt = 0;
      handle_request_cnt = 0;
      read_fail_cnt = 0;
      read_success_cnt = 0;
      write_timeout_cnt = 0;
      write_fail_cnt = 0;
      write_success_cnt = 0;
      working_handler_cnt = 0;
    };
  }

  unfoldable pub get_http_statistics : HttpServerImpl Handler → HttpStatistics
  get_http_statistics s = record {
    handler_request_cnt = s.http_statistics.handle_request_cnt;
    working_handler_cnt = s.http_statistics.working_handler_cnt;
    read_timeout_cnt = s.http_statistics.read_timeout_cnt;
    read_success_cnt = s.http_statistics.read_success_cnt;
    read_fail_cnt = s.http_statistics.read_fail_cnt;
    write_timeout_cnt = s.http_statistics.write_timeout_cnt;
    write_success_cnt = s.http_statistics.write_success_cnt;
    write_fail_cnt = s.http_statistics.write_fail_cnt;
    session_cnt = s.http_statistics.session_cnt;
  }

  unfoldable pub do_accept : HttpServerImpl Handler → HttpServerImpl Handler
  do_accept s = record s { accepts = suc s.accepts }

  -- The end of `run`: what is left to do is `io_context_.run()`, which calls the handlers.
  unfoldable pub start : HttpServerImpl Handler → HttpServerImpl Handler
  start s = let t = do_accept s in record t { io_threads = t.io_threads + (t.opts.thread_num - 1) }

  -- `run` from `io_context_.restart()` on.
  unfoldable pub listen :
      Network → HttpServerImpl Handler → HttpServerImpl Handler × Option Exception
  listen net s =
      let restarted = record s { stopped = false } in
      if net.makes_address s.opts.addr
      then elim (if s.is_open then some "Already open" else net.open_error) [
        | some m ↦ (restarted, some (runtime_error m))
        | none ↦
            elim (first_error
              (net.reuse_error ∷ net.linger_error ∷ net.bind_error ∷ net.listen_error ∷ [])) [
                | some m ↦ (record restarted { is_open = true }, some (runtime_error m))
                | none ↦ (start (record restarted { is_open = true }), none)
              ]
      ]
      else (restarted, some system_error)

  -- The server afterwards, and the exception that is thrown.
  unfoldable pub run : Network → HttpServerImpl Handler → HttpServerImpl Handler × Option Exception
  run net s =
      if s.opts.thread_num == 0
      then (s, some (runtime_error "thread count should > 0"))
      else (if s.opts.max_request_size == 0
          then (s, some (runtime_error "max request should > 0"))
          else elim s.opts.addr [
            | [] ↦ (s, some (runtime_error "addr is empty"))
            | c ∷ cs ↦ listen net (reset_all_http_statistics (record s { s_id = 0 }))
          ])

  -- `stop`. The threads end, since the context is stopped, and are joined. The handlers of the
  -- accepts that closing aborts stay queued in the context.
  unfoldable pub stop : HttpServerImpl Handler → HttpServerImpl Handler
  stop s =
      let t = if s.stopped then s else record s { stopped = true; io_threads = 0 } in
      if t.is_open then record t { is_open = false } else t

  unfoldable pub register_handler :
      (segments_view : Bytes → Option (List Bytes))
      → Bytes
      → Option Handler
      → HttpServerImpl Handler
      → Result (HttpServerImpl Handler)
  register_handler segments_view path handler s =
      elim (insert segments_view path handler s.router) [
        | ok h ↦ ok (record s { router = h })
        | throws e ↦ throws e
        | fault ↦ fault
      ]

-- A session that is alive, and whether a handler still owes the response to its last request.
pub record Live (Request Response : Type 0) : Type 0 where
  pub session : HttpSession Request Response
  pub owed : Bool

-- The server and the sessions that are alive.
pub record World (Request Response Handler : Type 0) : Type 0 where
  pub server : HttpServerImpl Handler
  pub sessions : List (Live Request Response)

module _ (P : Platform) {Handler : Type 0} where
  open P use {Request, Response}

  -- `request` is the empty request that the new session makes.
  unfoldable pub on_accept :
      Option ErrorCode → Request → World Request Response Handler → World Request Response Handler
  on_accept (some ec) request w = record w { server = do_accept (w.server) }
  on_accept none request w =
      let id = u64_inc w.server.s_id in
      let s = run_session P w.server.opts (http_session P id request w.server.http_statistics) in
      record {
        server = do_accept (record (w.server) { s_id = id; http_statistics = s.statistics });
        sessions = record { session = s.session; owed = false } ∷ w.sessions;
      }
