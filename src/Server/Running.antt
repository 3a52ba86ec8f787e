-- ===== src/Server/Running.antt =====
-- src/http_server_impl.cpp and src/http_session.cpp: the server with all its sessions.
use httpserver_cpp.Base.{
  ℕ, suc, ◌+◌, ◌%◌, ◌^◌, ◌<◌, ◌≡◌, refl, ◌⊎◌, false, List, [], ◌∷◌, ◌++◌, Option, length, All,
  arith,
}
use httpserver_cpp.Statistics.{HttpStatisticsInternal, zero_statistics, u64_inc}
use httpserver_cpp.Request.{HttpRequest}
use httpserver_cpp.Response.{HttpResponse}
use httpserver_cpp.Router.Shape.{IsTree}
use httpserver_cpp.Platform.{Platform}
use httpserver_cpp.Session.{ErrorCode, destroy}
use httpserver_cpp.Session.Lifecycle.{Config, Step, read_done, write_done, send_later, Phase}
use httpserver_cpp.Types.{HttpServerOptions}
use httpserver_cpp.Router.{Heap}
use httpserver_cpp.Server.{HttpServerImpl, Live, World, on_accept, stop}
use httpserver_cpp.Server.Counters.{due, debt, IsBalanced}

module _ (P : Platform) {Handler : Type 0}
    (handle : Handler → HttpRequest → List HttpResponse) where
  open P use {Request, Response}

  abbrev W : Type 0
  W = World Request Response Handler

  -- A session with the counters that it shares.
  abbrev pub config : HttpStatisticsInternal → Live Request Response → Config Request Response
  config st l = record { state = record { statistics = st; session = l.session }; owed = l.owed }

  abbrev pub live : Config Request Response → Live Request Response
  live c = record { session = c.state.session; owed = c.owed }

  abbrev pub counting : HttpStatisticsInternal → HttpServerImpl Handler → HttpServerImpl Handler
  counting st s = record s { http_statistics = st }

  -- The step runs on a thread of the handler's own: it is no handler of the context.
  abbrev pub IsOffContext :
      {opts : HttpServerOptions} {router : Heap Handler} {c d : Config Request Response}
      → Step P handle opts router c d
      → Type 0
  IsOffContext (read_done any rest ec request s p went) = ⊥
  IsOffContext (write_done rest ka ec p) = ⊥
  IsOffContext (send_later rsp p) = Unit

  -- A step of one of the sessions, or an accept that completes, while the context is not stopped: a
  -- context that is stopped runs no handlers, but a handler that has still to respond may do so; a
  -- session that no operation holds any more is destroyed, also where a handler that owed a response
  -- has dropped its writer; `stop` is called; or the `run` or an accept of another server of the
  -- process changes `s_id`.
  pub data WorldStep (w : W) : W → Type 0 where
    session_step :
        (before after : List (Live Request Response)) (l : Live Request Response)
        (d : Config Request Response)
        → w.sessions ≡ before ++ l ∷ after
        → (st : Step P handle w.server.opts w.server.router (config w.server.http_statistics l) d)
        → (w.server.stopped ≡ false) ⊎ IsOffContext st
        → WorldStep w (record {
          server = counting d.state.statistics w.server;
          sessions = before ++ live d ∷ after;
        })
    accept_done :
        (n : ℕ) (ec : Option ErrorCode) (request : Request)
        → w.server.accepts ≡ suc n
        → w.server.stopped ≡ false
        → WorldStep w
            (on_accept P ec request (record w { server = record (w.server) { accepts = n } }))
    freed :
        (before after : List (Live Request Response)) (l : Live Request Response)
        → w.sessions ≡ before ++ l ∷ after
        → l.session.pending ≡ []
        → WorldStep w (record {
          server =
              counting (destroy P (config w.server.http_statistics l).state).statistics w.server;
          sessions = before ++ after;
        })
    stop_called : WorldStep w (record w { server = stop w.server })
    other_server :
        (id : ℕ)
        → (id ≡ 0) ⊎ (id ≡ u64_inc w.server.s_id)
        → WorldStep w (record w { server = record (w.server) { s_id = id } })

  pub data WorldReach (w : W) : W → Type 0 where
    at_start : WorldReach w w
    then : {v u : W} → WorldReach w v → WorldStep v u → WorldReach w u

  -- The responses that all sessions have still to bring out.
  unfoldable pub dues : List (Live Request Response) → ℕ
  dues [] = 0
  dues (l ∷ ls) = due (config zero_statistics l) + dues ls

  -- The sessions that were destroyed with a response owed.
  unfoldable pub dropped_count : {w v : W} → WorldReach w v → ℕ
  dropped_count at_start = 0
  dropped_count (then r (session_step before after l d split st awake)) = dropped_count r
  dropped_count (then r (accept_done n ec request e awake)) = dropped_count r
  dropped_count (then r (freed before after l split idle)) = debt l.owed + dropped_count r
  dropped_count (then r stop_called) = dropped_count r
  dropped_count (then r (other_server id set)) = dropped_count r

  -- `n` responses have been dropped.
  pub record IsAccounted (n : ℕ) (w : W) : Type 0 where
    pub phases :
        All
          (λ l. Phase P handle w.server.opts w.server.router (config zero_statistics l))
          w.sessions
    pub fits : w.server.http_statistics.working_handler_cnt < 2 ^ 64
    pub census : w.server.http_statistics.session_cnt ≡ length w.sessions % 2 ^ 32
    pub balance : IsBalanced (dues w.sessions + n) w.server.http_statistics
    pub tree : IsTree w.server.router

  pub dues_around :
      (before after : List (Live Request Response)) (l : Live Request Response)
      → dues (before ++ l ∷ after) ≡ due (config zero_statistics l) + dues (before ++ after)
  unfolding dues
  dues_around [] after l = refl
  dues_around (b ∷ before) after l = omega (arith, dues_around before after l)
