-- ===== src/Server/Drains.antt =====
-- src/http_server_impl.cpp and src/http_session.cpp: each session that is alive can come to its end.
use httpserver_cpp.Base.{
  ℕ, ◌%◌, ◌^◌, ◌≤◌, ◌≡◌, refl, sym, ◌∙◌, ap, subst, inl, inr, false, List, [], ◌∷◌, Option, none,
  some, length, All, Bytes, arith,
}
use httpserver_cpp.Statistics.{zero_statistics}
use httpserver_cpp.Request.{HttpRequest}
use httpserver_cpp.Response.{HttpResponse}
use httpserver_cpp.Types.{HttpServerOptions}
use httpserver_cpp.Router.{Heap}
use httpserver_cpp.Platform.{Platform}
use httpserver_cpp.Platform.Documented.{RequestLaws, FreshLaws}
use httpserver_cpp.Session.{State, end_of_stream, other_error, do_close, on_write}
use httpserver_cpp.Session.Process.{Moment, on_read}
use httpserver_cpp.Session.Lifecycle.{
  Config, Step, read_done, write_done, Phase, received, completed,
}
use httpserver_cpp.Server.{
  HttpServerImpl, Network, Live, World, http_server_impl, run, get_http_statistics,
}
use httpserver_cpp.Server.Calls.{Call, all_calls}
use httpserver_cpp.Server.Running.{
  config, live, counting, session_step, freed, WorldReach, at_start, then,
}
use httpserver_cpp.Server.Told.{server-IsTold}

module _ (P : Platform) {Handler : Type 0}
    (handle : Handler → HttpRequest → List HttpResponse) where
  open P use {Request, Response}

  abbrev W : Type 0
  W = World Request Response Handler

  abbrev Fine : W → Live Request Response → Type 0
  Fine w l = Phase P handle w.server.opts w.server.router (config P handle zero_statistics l)

  WorldReach-trans :
      {w v u : W} → WorldReach P handle w v → WorldReach P handle v u → WorldReach P handle w u
  WorldReach-trans r at_start = r
  WorldReach-trans r (then q st) = then (WorldReach-trans r q) st

  -- The first session is gone, the others are as they were.
  abbrev Loses : W → List (Live Request Response) → Type 0
  Loses w after =
      (v : W) × WorldReach P handle w v
      × (v.sessions ≡ after)
      × (v.server.opts ≡ w.server.opts)
      × (v.server.router ≡ w.server.router)
      × (v.server.stopped ≡ w.server.stopped)

  frees :
      (w : W) (l : Live Request Response) (after : List (Live Request Response))
      → w.sessions ≡ l ∷ after
      → l.session.pending ≡ []
      → Loses w after
  frees w l after split idle =
      (_, then at_start (freed [] after l split idle), refl, refl, refl, refl)

  steps :
      (w : W) (l : Live Request Response) (after : List (Live Request Response))
      (d : Config Request Response)
      → w.sessions ≡ l ∷ after
      → Step P handle w.server.opts w.server.router (config P handle w.server.http_statistics l) d
      → d.state.session.pending ≡ []
      → w.server.stopped ≡ false
      → Loses w after
  steps w l after d split st idle awake =
      let (v, r, rest, o, t, same) =
        frees
          (record {
            server = counting P handle d.state.statistics w.server;
            sessions = live P handle d ∷ after;
          })
          (live P handle d) after refl idle in
      (
        v,
        WorldReach-trans (then at_start (session_step [] after l d split st (inl awake))) r,
        rest,
        o,
        t,
        same,
      )

  abbrev now : Moment
  now = record { garbage = 0; now = 0 }

  closed_idle : (s : State Request Response) → (do_close P s).session.pending ≡ s.session.pending
  unfolding do_close
  closed_idle s = ground arith

  loses :
      (w : W) (l : Live Request Response) (after : List (Live Request Response))
      → w.sessions ≡ l ∷ after
      → Fine w l
      → w.server.stopped ≡ false
      → Loses w after
  unfolding on_read on_write
  loses w l after split (inl (shut, idle, free)) awake = frees w l after split idle
  loses w l after split (inr (inl (open', pending, timed, free, clean))) awake =
      let c = config P handle w.server.http_statistics l in
      let s =
        received P handle w.server.opts w.server.router l.session.request [] (some end_of_stream)
          c.state in
      steps w l after (record { state = do_close P s; owed = false }) split
        (read_done now [] (some end_of_stream) l.session.request (do_close P s) pending refl)
        (closed_idle s) awake
  loses w l after split (inr (inr (inl (open', ka, pending, timed, free)))) awake =
      let c = config P handle w.server.http_statistics l in
      let s = completed P handle w.server.opts w.server.router [] (some other_error) c.state in
      steps w l after
        (record { state = on_write P w.server.opts ka (some other_error) s; owed = l.owed }) split
        (write_done [] ka (some other_error) pending) (closed_idle _) awake
  loses w l after split (inr (inr (inr (open', idle, owed', clean)))) awake =
      frees w l after split idle

  abbrev AllFine : HttpServerOptions → Heap Handler → List (Live Request Response) → Type 0
  AllFine opts router ls =
      All (λ l. Phase P handle opts router (config P handle zero_statistics l)) ls

  drains :
      (ls : List (Live Request Response)) (w : W)
      → w.sessions ≡ ls
      → AllFine w.server.opts w.server.router ls
      → w.server.stopped ≡ false
      → (v : W) × WorldReach P handle w v × (v.sessions ≡ [])
  drains [] w e all awake = (w, at_start, e)
  drains (l ∷ ls) w e (fine, all) awake =
      let (v, r, rest, o, t, same) = loses w l ls e fine awake in
      let all' : AllFine v.server.opts v.server.router ls =
        subst (λ opts. AllFine opts v.server.router ls) (sym o)
          (subst (λ router. AllFine w.server.opts router ls) (sym t) all) in
      let (u, q, none_left) = drains ls v rest all' (same ∙ awake) in
      (u, WorldReach-trans r q, none_left)

  -- After any calls on a new server, let a `run` succeed while no session is alive, and let each
  -- handler send at most one response before it returns, and at most one later if it sent none. Then
  -- after any steps of the accepts and of the sessions, and as long as the context is not stopped, no
  -- session is stuck: further steps, in which
  -- reads and writes fail and handlers drop their writers, end them all, and then the statistics
  -- count no session.
  pub server-drains :
      (segments_view : Bytes → Option (List Bytes)) (calls : List (Call Handler))
      (opts : HttpServerOptions) (last_id : ℕ) (net : Network) (t : HttpServerImpl Handler)
      (laws : RequestLaws P) (fresh : FreshLaws P)
      (once : (h : Handler) (r : HttpRequest) → length (handle h r) ≤ 1) {w : W}
      → run net (all_calls segments_view calls (http_server_impl opts last_id)) ≡ (t, none)
      → WorldReach P handle (record { server = t; sessions = [] }) w
      → w.server.stopped ≡ false
      → (v : W) × WorldReach P handle w v
        × (v.sessions ≡ [])
        × ((get_http_statistics v.server).session_cnt ≡ 0)
  server-drains segments_view calls opts last_id net t laws fresh once {w} runs r awake =
      let told =
        server-IsTold P handle segments_view calls opts last_id net t laws fresh once runs r in
      let (v, q, none_left) = drains w.sessions w refl told.phases awake in
      let after =
        server-IsTold P handle segments_view calls opts last_id net t laws fresh once runs
          (WorldReach-trans r q) in
      (v, q, none_left, after.counts_sessions ∙ ap (λ ls. length ls % 2 ^ 32) none_left)
