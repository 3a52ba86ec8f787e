-- ===== src/Server/Told.antt =====
-- src/http_server_impl.cpp: what `getHttpStatistics` tells of the sessions.
use httpserver_cpp.Base.{
  ℕ, ◌+◌, ◌%◌, ◌^◌, ◌≤◌, ◌≡◌, refl, sym, ◌∙◌, ap, subst, inl, inr, List, [], Option, none, length,
  All, arith, Bytes,
}
use httpserver_cpp.Statistics.{zero_statistics}
use httpserver_cpp.Request.{HttpRequest}
use httpserver_cpp.Response.{HttpResponse}
use httpserver_cpp.Router.Shape.{IsTree, empty-IsTree}
use httpserver_cpp.Platform.{Platform}
use httpserver_cpp.Platform.Documented.{RequestLaws, FreshLaws}
use httpserver_cpp.Session.{do_close, destroy}
use httpserver_cpp.Session.Lifecycle.{Phase}
use httpserver_cpp.Types.{HttpServerOptions}
use httpserver_cpp.Server.{
  Network, http_server_impl, run, get_http_statistics, HttpServerImpl, Live, World, stop,
}
use httpserver_cpp.Server.Calls.{Call, all_calls, all_calls-IsTree}
use httpserver_cpp.Server.Control.{running, run-Outcome}
use httpserver_cpp.Server.Accounted.{WorldReach-IsAccounted}
use httpserver_cpp.Server.Running.{config, WorldReach, dues, dropped_count, IsAccounted}

module _ (P : Platform) {Handler : Type 0}
    (handle : Handler → HttpRequest → List HttpResponse) where
  open P use {Request, Response}

  abbrev W : Type 0
  W = World Request Response Handler

  abbrev Fine : W → Live Request Response → Type 0
  Fine w l = Phase P handle w.server.opts w.server.router (config P handle zero_statistics l)

  pub new-IsTree :
      (opts : HttpServerOptions) (last_id : ℕ)
      → IsTree ((http_server_impl {Handler = Handler} opts last_id).router)
  unfolding http_server_impl
  new-IsTree opts last_id = empty-IsTree

  running-IsAccounted :
      (s : HttpServerImpl Handler)
      → IsTree s.router
      → IsAccounted P handle 0 (record { server = running s; sessions = [] })
  unfolding running dues
  running-IsAccounted s tree = record {
    phases = tt;
    fits = omega arith;
    census = refl;
    balance = record { handled = refl; brought_out = refl };
    tree = tree;
  }

  pub start-IsAccounted :
      (s : HttpServerImpl Handler) (net : Network) (t : HttpServerImpl Handler)
      → IsTree s.router
      → run net s ≡ (t, none)
      → IsAccounted P handle 0 (record { server = t; sessions = [] })
  start-IsAccounted s net t tree runs = elim (run-Outcome net s) [
    | inl (ready, e) ↦
        subst (λ u. IsAccounted P handle 0 (record { server = u; sessions = [] }))
          (ap (λ x. x.0) (sym e ∙ runs)) (running-IsAccounted s tree)
    | inr (u, x, e, r) ↦ absurd (cc (ap (λ y. y.1) (sym e ∙ runs)))
  ]

  fresh_count : (s : HttpServerImpl Handler) → 0 ≡ (running s).http_statistics.session_cnt
  unfolding running
  fresh_count s = refl

  -- What the counters of `getHttpStatistics` say of the sessions that are alive.
  pub record IsTold (dropped : ℕ) (w : W) : Type 0 where
    pub counts_sessions : (get_http_statistics w.server).session_cnt ≡ length w.sessions % 2 ^ 32
    pub counts_requests :
        (get_http_statistics w.server).handler_request_cnt
        ≡ (get_http_statistics w.server).read_success_cnt
    pub counts_responses :
        (get_http_statistics w.server).handler_request_cnt
        ≡ ((get_http_statistics w.server).write_success_cnt
            + (get_http_statistics w.server).write_fail_cnt
            + (get_http_statistics w.server).write_timeout_cnt
            + (dues P handle w.sessions + dropped))
          % 2 ^ 64
    pub phases : All (Fine w) w.sessions

  -- After any calls on a new server, let a `run` succeed while no session is alive, and let each
  -- handler send at most one response before it returns, and at most one later if it sent none. Then
  -- after any steps of the accepts and of the sessions, each taken as a whole, in any order:
  -- `session_cnt` is the number of sessions alive, modulo 2^32; as many requests were handled as
  -- were read; their number is that of the writes that succeeded, failed and timed out, of the
  -- responses that are pending or owed, and of those whose handler dropped its writer, modulo 2^64;
  -- and each session does at most one thing.
  pub server-IsTold :
      (segments_view : Bytes → Option (List Bytes)) (calls : List (Call Handler))
      (opts : HttpServerOptions) (last_id : ℕ) (net : Network) (t : HttpServerImpl Handler)
      (laws : RequestLaws P) (fresh : FreshLaws P)
      (once : (h : Handler) (r : HttpRequest) → length (handle h r) ≤ 1) {w : W}
      → run net (all_calls segments_view calls (http_server_impl opts last_id)) ≡ (t, none)
      → (r : WorldReach P handle (record { server = t; sessions = [] }) w)
      → IsTold (dropped_count P handle r) w
  unfolding get_http_statistics
  server-IsTold segments_view calls opts last_id net t laws fresh once runs r =
      let i = WorldReach-IsAccounted P handle laws fresh once r (
        start-IsAccounted _ net t
          (all_calls-IsTree segments_view calls (http_server_impl opts last_id)
            (new-IsTree opts last_id))
          runs) in
      record {
        counts_sessions = i.census;
        counts_requests = i.balance.handled;
        counts_responses = i.balance.brought_out;
        phases = i.phases;
      }

  -- If a stopped server runs again while a session of before is alive, the count of sessions is 0,
  -- and the destruction of the session turns it into 4294967295.
  pub restart_miscounts :
      (s : HttpServerImpl Handler) (net : Network) (t : HttpServerImpl Handler)
      (l : Live Request Response)
      → run net (stop s) ≡ (t, none)
      → ((get_http_statistics t).session_cnt ≡ 0)
        × ((destroy P (config P handle t.http_statistics l).state).statistics.session_cnt
            ≡ 4294967295)
  unfolding get_http_statistics destroy do_close
  restart_miscounts s net t l runs = elim (run-Outcome net (stop s)) [
    | inl (ready, e) ↦
        let fresh =
          fresh_count (stop s) ∙ ap (λ x. x.0.http_statistics.session_cnt) (sym e ∙ runs) in
        (sym fresh, ground (arith, fresh))
    | inr (u, x, e, r) ↦ absurd (cc (ap (λ y. y.1) (sym e ∙ runs)))
  ]
