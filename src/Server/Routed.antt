-- ===== src/Server/Routed.antt =====
-- src/http_server_impl.cpp and src/http_session.cpp: a request that a session of the server reads,
-- and the handlers that were registered.
use httpserver_cpp.Base.{
  false, ℕ, ◌≤◌, ◌<◌, ◌≡◌, refl, sym, ◌∙◌, ap, subst, ◌⊎◌, inl, inr, List, [], ◌∷◌, ◌++◌, Option,
  none, some, length, Bytes, codes, arith,
}
use httpserver_cpp.Base.Result.{ok, ok_injective}
use httpserver_cpp.Types.{HttpServerOptions, bad_request}
use httpserver_cpp.Statistics.{u64_inc}
use httpserver_cpp.Request.{HttpRequest}
use httpserver_cpp.Response.{HttpResponse, http_response}
use httpserver_cpp.Router.{Heap, empty, search_segments}
use httpserver_cpp.Router.Shape.{IsTree, empty-IsTree}
use httpserver_cpp.Router.Table.{after, registers, registers-IsTable}
use httpserver_cpp.Platform.{Platform}
use httpserver_cpp.Platform.Documented.{RequestLaws}
use httpserver_cpp.Session.{State, Operation, reading, fill_response}
use httpserver_cpp.Session.Process.{Moment, on_read, origin_target, make_request}
use httpserver_cpp.Session.Sends.{Answered}
use httpserver_cpp.Session.Answer.{Outcome, process_request-Outcome}
use httpserver_cpp.Session.Lifecycle.{received, owes, read_done}
use httpserver_cpp.Server.{
  HttpServerImpl, Network, Live, World, http_server_impl, run, on_accept, do_accept,
  get_http_statistics,
}
use httpserver_cpp.Server.Calls.{Call, all_calls, stop_keeps}
use httpserver_cpp.Server.Running.{
  config, counting, WorldStep, session_step, accept_done, freed, stop_called, other_server,
  WorldReach, at_start, then,
}
use httpserver_cpp.Server.Ranges.{server-IsTyped}
use httpserver_cpp.Server.Registered.{registered, run-router, all_calls-router, Looks, search-Looks}

module _ (P : Platform) {Handler : Type 0}
    (handle : Handler → HttpRequest → List HttpResponse) where
  open P use {Request, Response, verb, verb_put, UrlView, parse_origin_form, url_segments}

  abbrev W : Type 0
  W = World Request Response Handler

  abbrev S : Type 0
  S = State Request Response

  -- No step changes the router or the options.
  WorldStep-router :
      {w v : W}
      → WorldStep P handle w v
      → (v.server.router ≡ w.server.router) × (v.server.opts ≡ w.server.opts)
  unfolding on_accept do_accept
  WorldStep-router (session_step before after l d split st awake) = (refl, refl)
  WorldStep-router (accept_done n none request e awake) = (refl, refl)
  WorldStep-router (accept_done n (some ec) request e awake) = (refl, refl)
  WorldStep-router (freed before after l split idle) = (refl, refl)
  WorldStep-router (other_server id set) = (refl, refl)
  WorldStep-router {w} stop_called =
      let (statistics, opts, router) = stop_keeps w.server in (router, opts)

  WorldReach-router :
      {w v : W}
      → WorldReach P handle w v
      → (v.server.router ≡ w.server.router) × (v.server.opts ≡ w.server.opts)
  WorldReach-router at_start = (refl, refl)
  WorldReach-router (then r st) =
      let (router, opts) = WorldReach-router r in
      let (router', opts') = WorldStep-router st in (router' ∙ router, opts' ∙ opts)

  module _ (opts : HttpServerOptions) (router : Heap Handler)
      (calls : List (Bytes × Option Handler)) (laws : RequestLaws P) where
    open P use {segments_view}

    -- The registrations give the request a handler, and its verb is one of `MethodType`.
    abbrev pub GoesTo : Request → UrlView → Handler → Type 0
    GoesTo request url h =
        (parse_origin_form (origin_target P handle opts router request) ≡ some url)
        × Looks segments_view calls (url_segments url) (some h)
        × (verb request ≤ verb_put)

    -- Why the registrations do not serve the request, and with which text.
    abbrev pub Unserved : Request → Bytes → Type 0
    Unserved request message =
        ((parse_origin_form (origin_target P handle opts router request) ≡ none)
          × (message ≡ codes "url invalid"))
        ⊎ (((url : UrlView) × (parse_origin_form (origin_target P handle opts router request)
                ≡ some url)
              × Looks segments_view calls (url_segments url) none
              × (message ≡ codes "current url not support"))
            ⊎ ((url : UrlView) × (h : Handler) × (parse_origin_form
                    (origin_target P handle opts router request)
                  ≡ some url)
                × Looks segments_view calls (url_segments url) (some h)
                × (verb_put < verb request)
                × (message ≡ codes "current method not support")))

    -- The registered handler is called with the request, or it is answered with a 400.
    abbrev pub Serves : Moment → S → S → Type 0
    Serves any s s' =
        ((url : UrlView) × (h : Handler) × GoesTo s.session.request url h
          × Answered P opts
              (length (handle h (make_request P handle opts router any url s.session))) s s')
        ⊎ ((message : Bytes) × Unserved s.session.request message
            × Answered P opts 1 s s'
            × (s'.session.response
                ≡ fill_response P opts s.session.request
                    (http_response bad_request message (codes "text/plain")) s.session.response))

    looked :
        (segments : List Bytes) (d? : Option Handler)
        → router ≡ registers segments_view empty calls
        → search_segments segments router ≡ ok d?
        → Looks segments_view calls segments d?
    looked segments d? same found =
        let (e?, run, looks) = search-Looks segments_view calls segments in
        subst (Looks segments_view calls segments)
          (ok_injective (sym run ∙ ap (search_segments segments) (sym same) ∙ found)) looks

    Outcome-Serves :
        (any : Moment) (s s' : S)
        → router ≡ registers segments_view empty calls
        → Outcome P handle opts router laws any s s'
        → Serves any s s'
    Outcome-Serves any s s' same (inl (url, h, (parsed, found, within), answered)) =
        inl (url, h, (parsed, looked (url_segments url) (some h) same found, within), answered)
    Outcome-Serves any s s' same (inr (unfit, answered, message, inl (bad, e), filled)) =
        inr (message, inl (bad, e), answered, filled)
    Outcome-Serves any s s' same
          (inr (unfit, answered, message, inr (inl (url, good, miss, e)), filled)) =
        inr (
          message,
          inr (inl (url, good, looked (url_segments url) none same miss, e)),
          answered,
          filled,
        )
    Outcome-Serves any s s' same
          (inr (unfit, answered, message, inr (inr (url, h, good, hit, above, e)), filled)) =
        inr (
          message,
          inr (inr (url, h, good, looked (url_segments url) (some h) same hit, above, e)),
          answered,
          filled,
        )

  open P use {segments_view}

  -- The state in which `processRequest` starts: the read has stored its request and is counted.
  abbrev pub was_read : W → Live Request Response → Request → List Operation → S
  was_read w l request rest =
      let st = w.server.http_statistics in
      received P handle w.server.opts w.server.router request rest none
        (config P handle (record st { read_success_cnt = u64_inc st.read_success_cnt }) l).state

  -- The session that has read a request goes on as the registrations say.
  abbrev pub Handles :
      List (Call Handler)
      → RequestLaws P
      → (w : W) (before after : List (Live Request Response)) → S
      → Moment
      → S
      → Type 0
  Handles calls laws w before after read any s =
      WorldStep P handle w (record {
        server = counting P handle s.statistics w.server;
        sessions =
            before ++ record { session = s.session; owed = owes none s.session.pending } ∷ after;
      })
      × Serves w.server.opts w.server.router (registered calls) laws any read s

  start_router :
      (calls : List (Call Handler)) (opts : HttpServerOptions) (last_id : ℕ) (net : Network)
      (t : HttpServerImpl Handler)
      → run net (all_calls segments_view calls (http_server_impl opts last_id)) ≡ (t, none)
      → (t.router ≡ registers segments_view empty (registered calls)) × (t.opts ≡ opts)
  unfolding http_server_impl
  start_router calls opts last_id net t runs =
      let s = all_calls segments_view calls (http_server_impl opts last_id) in
      let (router, same) = run-router net s in
      let (held, kept) = all_calls-router segments_view calls (http_server_impl opts last_id) in
      (ap (λ x. x.0.router) (sym runs) ∙ router ∙ held, ap (λ x. x.0.opts) (sym runs) ∙ same ∙ kept)

  -- After any calls on a new server, let a `run` succeed while no session is alive. Then in each
  -- state that steps lead to, and in which the context is not stopped, a session that is reading may
  -- read any request, and goes on: if the
  -- target parses, the registrations among the calls give its segments a handler and the verb is at
  -- most `put`, this handler is called, and one write is started for each response that it sends
  -- before it returns; otherwise one write is started, of a 400 that says which of the three failed.
  -- The options are those of the constructor.
  pub server-Handles :
      (calls : List (Call Handler)) (opts : HttpServerOptions) (last_id : ℕ) (net : Network)
      (t : HttpServerImpl Handler) {w : W} (laws : RequestLaws P)
      → run net (all_calls segments_view calls (http_server_impl opts last_id)) ≡ (t, none)
      → WorldReach P handle (record { server = t; sessions = [] }) w
      → (before after : List (Live Request Response)) (l : Live Request Response)
        (rest : List Operation) (any : Moment) (request : Request)
      → w.sessions ≡ before ++ l ∷ after
      → l.session.pending ≡ reading ∷ rest
      → w.server.stopped ≡ false
      → (w.server.opts ≡ opts)
        × (s : S) × Handles calls laws w before after (was_read w l request rest) any s
  unfolding on_read get_http_statistics
  server-Handles calls opts last_id net t {w} laws runs r before after l rest any request split p
        awake =
      let (typed, last) = server-IsTyped P handle segments_view calls opts last_id net t runs r in
      let (router, same) = start_router calls opts last_id net t runs in
      let (kept, opts_kept) = WorldReach-router r in
      let held = kept ∙ router in
      let tree =
        subst IsTree (sym held)
          (registers-IsTable segments_view (registered calls) empty empty-IsTree).tree in
      let (s, went, outcome) =
        process_request-Outcome P handle w.server.opts w.server.router laws any
          (was_read w l request rest) tree (omega (arith, typed.idle)) in
      (
        opts_kept ∙ same,
        s,
        (
          session_step before after l (record { state = s; owed = owes none s.session.pending })
              split (read_done any rest none request s p went) (inl awake),
          Outcome-Serves w.server.opts w.server.router (registered calls) laws any
              (was_read w l request rest) s held outcome,
        ),
      )
