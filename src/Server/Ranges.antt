-- ===== src/Server/Ranges.antt =====
-- src/http_statistics_internal.h and src/http_server_impl.cpp: the counters, and their width.
use httpserver_cpp.Base.{
  ℕ, ◌+◌, ◌%◌, ◌^◌, ◌<◌, ◌≡◌, refl, sym, ◌∙◌, ap, subst, inl, inr, List, [], Option, none, some,
  Bytes, arith,
}
use httpserver_cpp.Base.Result.{ok, ok_injective}
use httpserver_cpp.Types.{HttpServerOptions, HttpStatistics}
use httpserver_cpp.Statistics.{HttpStatisticsInternal}
use httpserver_cpp.Statistics.Count.{IsInRange, zero-IsInRange, count_all-IsInRange}
use httpserver_cpp.Statistics.Working.{alone_working}
use httpserver_cpp.Request.{HttpRequest}
use httpserver_cpp.Response.{HttpResponse}
use httpserver_cpp.Router.{Heap}
use httpserver_cpp.Router.Shape.{IsTree}
use httpserver_cpp.Platform.{Platform}
use httpserver_cpp.Session.{State, ErrorCode}
use httpserver_cpp.Session.Lifecycle.{
  received, completed, Config, Step, read_done, write_done, send_later,
}
use httpserver_cpp.Session.Jobs.{
  Job, accepted, was_read, was_written, answers, dropped, perform, counts,
}
use httpserver_cpp.Session.Jobs.Orderly.{counts-IsOrderly}
use httpserver_cpp.Session.Jobs.Counting.{perform-Counting}
use httpserver_cpp.Server.{
  HttpServerImpl, Network, World, http_server_impl, run, on_accept, do_accept, stop,
  get_http_statistics,
}
use httpserver_cpp.Server.Calls.{Call, all_calls, all_calls-IsTree, stop_keeps}
use httpserver_cpp.Server.Control.{running, run-Outcome}
use httpserver_cpp.Server.Running.{
  WorldStep, session_step, accept_done, freed, stop_called, other_server, WorldReach, at_start,
  then,
}
use httpserver_cpp.Server.Told.{new-IsTree}

-- The counters are within their width, and no handler of a request is at work.
record IsQuiet (st : HttpStatisticsInternal) : Type 0 where
  range : IsInRange st
  idle : st.working_handler_cnt ≡ 0

module _ (P : Platform) {Handler : Type 0}
    (handle : Handler → HttpRequest → List HttpResponse) where
  open P use {Request, Response}

  abbrev W : Type 0
  W = World Request Response Handler

  module _ (opts : HttpServerOptions) (router : Heap Handler) (tree : IsTree router) where
    performed-IsQuiet :
        (j : Job Request Response) (st : HttpStatisticsInternal) (s : State Request Response)
        → perform P handle opts router j st ≡ ok s
        → IsQuiet st
        → IsQuiet s.statistics
    performed-IsQuiet j st s went i =
        let (session, runs) = perform-Counting P handle opts router j tree in
        let os = counts P handle opts router j in
        let (nested, outside) = counts-IsOrderly P handle opts router j in
        subst (λ t. IsQuiet t.statistics) (ok_injective (sym (runs st) ∙ went))
          (record {
            range = count_all-IsInRange os st i.range;
            idle = alone_working os st (omega (arith, i.idle)) nested outside ∙ i.idle;
          })

    Step-IsQuiet :
        {c d : Config Request Response}
        → Step P handle opts router c d
        → IsQuiet c.state.statistics
        → IsQuiet d.state.statistics
    unfolding perform
    Step-IsQuiet {c} (read_done any rest ec request s p went) i =
        performed-IsQuiet
          (was_read any ec (received P handle opts router request rest ec c.state).session)
          c.state.statistics s went i
    Step-IsQuiet {c} (write_done rest ka ec p) i =
        performed-IsQuiet
          (was_written ka ec (completed P handle opts router rest ec c.state).session)
          c.state.statistics _ refl i
    Step-IsQuiet {c} (send_later rsp p) i =
        performed-IsQuiet (answers rsp c.state.session) c.state.statistics _ refl i

  record IsBounded (w : W) : Type 0 where
    quiet : IsQuiet w.server.http_statistics
    last_id : w.server.s_id < 2 ^ 64
    tree : IsTree w.server.router

  stop_number : (s : HttpServerImpl Handler) → (stop s).s_id ≡ s.s_id
  unfolding stop
  stop_number s = ground arith

  accepted-IsBounded :
      (n : ℕ) (ec : Option ErrorCode) (request : Request) (w : W)
      → IsBounded w
      → IsBounded (on_accept P ec request (record w { server = record (w.server) { accepts = n } }))
  unfolding on_accept do_accept perform
  accepted-IsBounded n none request w i = record {
    quiet =
        performed-IsQuiet w.server.opts w.server.router i.tree
          (accepted ((w.server.s_id + 1) % 2 ^ 64) request) w.server.http_statistics _ refl i.quiet;
    last_id = omega arith;
    tree = i.tree;
  }
  accepted-IsBounded n (some ec) request w i = record {
    quiet = i.quiet;
    last_id = i.last_id;
    tree = i.tree;
  }

  WorldStep-IsBounded : {w v : W} → WorldStep P handle w v → IsBounded w → IsBounded v
  unfolding perform
  WorldStep-IsBounded {w} (session_step before after l d split st awake) i = record {
    quiet = Step-IsQuiet w.server.opts w.server.router i.tree st i.quiet;
    last_id = i.last_id;
    tree = i.tree;
  }
  WorldStep-IsBounded {w} (accept_done n ec request e awake) i = accepted-IsBounded n ec request w i
  WorldStep-IsBounded {w} (freed before after l split idle) i = record {
    quiet =
        performed-IsQuiet w.server.opts w.server.router i.tree (dropped l.session)
          w.server.http_statistics _ refl i.quiet;
    last_id = i.last_id;
    tree = i.tree;
  }
  WorldStep-IsBounded (other_server id (inl reset)) i = record {
    quiet = i.quiet;
    last_id = omega (arith, reset);
    tree = i.tree;
  }
  WorldStep-IsBounded (other_server id (inr counted)) i = record {
    quiet = i.quiet;
    last_id = omega (arith, counted);
    tree = i.tree;
  }
  WorldStep-IsBounded {w} stop_called i =
      let (statistics, opts, router) = stop_keeps w.server in
      record {
        quiet = subst IsQuiet (sym statistics) i.quiet;
        last_id = subst (λ n. n < 2 ^ 64) (sym (stop_number w.server)) i.last_id;
        tree = subst IsTree (sym router) i.tree;
      }

  WorldReach-IsBounded : {w v : W} → WorldReach P handle w v → IsBounded w → IsBounded v
  WorldReach-IsBounded at_start i = i
  WorldReach-IsBounded (then r st) i = WorldStep-IsBounded st (WorldReach-IsBounded r i)

  running-IsBounded :
      (s : HttpServerImpl Handler)
      → IsTree s.router
      → IsBounded (record { server = running s; sessions = [] })
  unfolding running
  running-IsBounded s tree = record {
    quiet = record { range = zero-IsInRange; idle = refl };
    last_id = omega arith;
    tree = tree;
  }

  start-IsBounded :
      (s : HttpServerImpl Handler) (net : Network) (t : HttpServerImpl Handler)
      → IsTree s.router
      → run net s ≡ (t, none)
      → IsBounded (record { server = t; sessions = [] })
  start-IsBounded s net t tree runs = elim (run-Outcome net s) [
    | inl (ready, e) ↦
        subst (λ u. IsBounded (record { server = u; sessions = [] })) (ap (λ x. x.0) (sym e ∙ runs))
          (running-IsBounded s tree)
    | inr (u, x, e, r) ↦ absurd (cc (ap (λ y. y.1) (sym e ∙ runs)))
  ]

  -- What `getHttpStatistics` tells, in the types of its members.
  pub record IsTyped (told : HttpStatistics) : Type 0 where
    pub session_lt : told.session_cnt < 2 ^ 32
    pub handler_request_lt : told.handler_request_cnt < 2 ^ 64
    pub read_timeout_lt : told.read_timeout_cnt < 2 ^ 64
    pub read_success_lt : told.read_success_cnt < 2 ^ 64
    pub read_fail_lt : told.read_fail_cnt < 2 ^ 64
    pub write_timeout_lt : told.write_timeout_cnt < 2 ^ 64
    pub write_success_lt : told.write_success_cnt < 2 ^ 64
    pub write_fail_lt : told.write_fail_cnt < 2 ^ 64
    pub idle : told.working_handler_cnt ≡ 0

  -- After any calls on a new server, let a `run` succeed while no session is alive. Then after any
  -- steps of the accepts and of the sessions, each taken as a whole, whatever the handlers send and
  -- whatever is read: `getHttpStatistics` tells numbers within the width of their types, no handler
  -- of a request is counted as working, and `s_id` is below 2^64.
  pub server-IsTyped :
      (segments_view : Bytes → Option (List Bytes)) (calls : List (Call Handler))
      (opts : HttpServerOptions) (last_id : ℕ) (net : Network) (t : HttpServerImpl Handler) {w : W}
      → run net (all_calls segments_view calls (http_server_impl opts last_id)) ≡ (t, none)
      → WorldReach P handle (record { server = t; sessions = [] }) w
      → IsTyped (get_http_statistics w.server) × (w.server.s_id < 2 ^ 64)
  unfolding get_http_statistics
  server-IsTyped segments_view calls opts last_id net t runs r =
      let i = WorldReach-IsBounded r (
        start-IsBounded _ net t
          (all_calls-IsTree segments_view calls (http_server_impl opts last_id)
            (new-IsTree P handle opts last_id))
          runs) in
      let range = i.quiet.range in
      (
        record {
          session_lt = range.session_lt;
          handler_request_lt = range.handle_request_lt;
          read_timeout_lt = range.read_timeout_lt;
          read_success_lt = range.read_success_lt;
          read_fail_lt = range.read_fail_lt;
          write_timeout_lt = range.write_timeout_lt;
          write_success_lt = range.write_success_lt;
          write_fail_lt = range.write_fail_lt;
          idle = i.quiet.idle;
        },
        i.last_id,
      )
