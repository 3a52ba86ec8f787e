-- ===== src/Server/Owners/Held.antt =====
-- src/http_server.cpp and src/http_server_impl.cpp: when the server's object is destroyed.
use httpserver_cpp.Base.{
  ℕ, ◌+◌, ◌<◌, ◌≡◌, refl, sym, ◌∙◌, ap, ◌⊎◌, inl, inr, List, [], ◌∷◌, ◌++◌, Option, none, some,
  ◌==◌, Bytes, arith, Bool-cases,
}
use httpserver_cpp.Types.{HttpServerOptions}
use httpserver_cpp.Request.{HttpRequest}
use httpserver_cpp.Response.{HttpResponse}
use httpserver_cpp.Router.{insert}
use httpserver_cpp.Platform.{Platform}
use httpserver_cpp.Server.{
  HttpServerImpl, Live, World, http_server_impl, run, stop, register_handler, on_accept, do_accept,
  Network,
}
use httpserver_cpp.Server.Calls.{Call, run_call, stop_call, register_call, call, Result-cases}
use httpserver_cpp.Server.Control.{running, run-Outcome}
use httpserver_cpp.Server.Restart.{run_count, succeeded}
use httpserver_cpp.Server.Running.{
  WorldStep, session_step, accept_done, freed, stop_called, other_server,
}
use httpserver_cpp.Server.Owners.{
  Owners, made, use_count, release, copied, dropped, called, worked, OwnersReach, here, next, ran,
}

module _ {Handler : Type 0} where
  run-accepts :
      (net : Network) (s : HttpServerImpl Handler)
      → (run net s).0.accepts ≡ succeeded (run net s).1 + s.accepts
  unfolding running
  run-accepts net s = elim (run-Outcome net s) [
    | inl (ready, e) ↦ rw e (omega arith)
    | inr (t, x, e, r) ↦ rw e (omega (arith, r.accepts_kept))
  ]

  stop-accepts : (s : HttpServerImpl Handler) → (stop s).accepts ≡ s.accepts
  unfolding stop
  stop-accepts s = ground arith

  -- Each `run` that does not throw leaves one accept more, for good.
  call-accepts :
      (segments_view : Bytes → Option (List Bytes)) (c : Call Handler) (s : HttpServerImpl Handler)
      → (call segments_view c s).accepts ≡ run_count segments_view c s + s.accepts
  unfolding call register_handler
  call-accepts segments_view (run_call net) s = run-accepts net s
  call-accepts segments_view stop_call s = omega (arith, stop-accepts s)
  call-accepts segments_view (register_call path handler) s =
      elim (Result-cases (insert segments_view path handler s.router)) [
        | inl (h, went) ↦ rw (call, went) (omega arith)
        | inr (inl (e, thrown)) ↦ rw (call, thrown) (omega arith)
        | inr (inr broken) ↦ rw (call, broken) (omega arith)
      ]

module _ {Request Response Handler : Type 0} where
  -- After `n` runs: the object is alive exactly while it has an `HttpServer` or has run.
  record IsHeld (n : ℕ) (o : Owners Request Response Handler) : Type 0 where
    alive : 0 < o.handles + n → (s : HttpServerImpl Handler) × (o.object ≡ some s) × (s.accepts ≡ n)
    destroyed : o.handles + n ≡ 0 → o.object ≡ none
    no_sessions : n ≡ 0 → o.sessions ≡ []

  abbrev pub Fate : ℕ → Owners Request Response Handler → Type 0
  Fate n o =
      ((s : HttpServerImpl Handler) × (o.object ≡ some s) × (0 < o.handles + n) × (s.accepts ≡ n))
      ⊎ ((o.object ≡ none) × (o.handles ≡ 0) × (n ≡ 0) × (o.sessions ≡ []))

  -- With the object at hand.
  release-IsHeld :
      (n : ℕ) (o : Owners Request Response Handler) (s : HttpServerImpl Handler)
      → o.object ≡ some s
      → s.accepts ≡ n
      → (n ≡ 0 → o.sessions ≡ [])
      → IsHeld n (release o)
  unfolding release
  release-IsHeld n o s there count quiet =
      rw (there, release)
        (elim (Bool-cases (use_count o.handles s == 0)) [
          | inl last ↦ rw last (record {
            alive = λ used. absurd (ground arith);
            destroyed = λ _. refl;
            no_sessions = quiet;
          })
          | inr kept ↦ rw kept (record {
            alive = λ _. (s, there, count);
            destroyed = λ unused. absurd (ground arith);
            no_sessions = quiet;
          })
        ])

module _ (P : Platform) {Handler : Type 0}
    (handle : Handler → HttpRequest → List HttpResponse) where
  open P use {Request, Response}

  abbrev W : Type 0
  W = World Request Response Handler

  inhabited :
      (before after : List (Live Request Response)) (l : Live Request Response)
      → ¬ (before ++ l ∷ after ≡ [])
  inhabited [] after l e = cc
  inhabited (b ∷ before) after l e = cc

  -- A step keeps the accepts, and without accepts there come no sessions.
  world_kept :
      {w v : W}
      → WorldStep P handle w v
      → (v.server.accepts ≡ w.server.accepts)
        × (w.server.accepts ≡ 0 → w.sessions ≡ [] → v.sessions ≡ [])
  unfolding on_accept do_accept
  world_kept (session_step before after l d split st awake) =
      (refl, λ idle e. absurd (inhabited before after l (sym split ∙ e)))
  world_kept (accept_done n none request e awake) = (sym e, λ idle q. absurd (omega arith))
  world_kept (accept_done n (some ec) request e awake) = (sym e, λ idle q. q)
  world_kept (freed before after l split quiet) =
      (refl, λ idle e. absurd (inhabited before after l (sym split ∙ e)))
  world_kept (other_server id set) = (refl, λ idle e. e)
  world_kept {w} stop_called = (stop-accepts w.server, λ idle e. e)

  module _ (segments_view : Bytes → Option (List Bytes)) where
    abbrev O : Type 0
    O = Owners Request Response Handler

    object-accepts :
        (n : ℕ) (o : O) (s : HttpServerImpl Handler)
        → o.object ≡ some s
        → IsHeld n o
        → s.accepts ≡ n
    object-accepts n o s there i = elim (Bool-cases (o.handles + n == 0)) [
      | inl unused ↦ absurd (cc (i.destroyed (ground arith), there))
      | inr used ↦
          let (t, here', count) = i.alive (ground arith) in
          let same : s ≡ t = cc (there, here') in
          ap (λ (x : HttpServerImpl Handler). x.accepts) same ∙ count
    ]

    OwnersReach-IsHeld :
        {o p : O} (r : OwnersReach P handle segments_view o p)
        → IsHeld 0 o
        → IsHeld (ran P handle segments_view r) p
    unfolding ran
    OwnersReach-IsHeld here i = i
    OwnersReach-IsHeld (next r (copied n e)) i =
        let j = OwnersReach-IsHeld r i in
        record {
          alive = λ used. j.alive (omega arith);
          destroyed = λ unused. absurd (omega arith);
          no_sessions = j.no_sessions;
        }
    OwnersReach-IsHeld (next {p} r (dropped n e)) i =
        let j = OwnersReach-IsHeld r i in
        let (s, there, count) = j.alive (omega arith) in
        release-IsHeld _ (record p { handles = n }) s there count j.no_sessions
    OwnersReach-IsHeld (next {p} r (called n c s e there)) i =
        let j = OwnersReach-IsHeld r i in
        record {
          alive = λ used. (
            call segments_view c s,
            refl,
            omega (arith, call-accepts segments_view c s, object-accepts _ p s there j),
          );
          destroyed = λ unused. absurd (omega arith);
          no_sessions = λ idle. j.no_sessions (omega arith);
        }
    OwnersReach-IsHeld (next {p} r (worked s v there st)) i =
        let j = OwnersReach-IsHeld r i in
        let (same, quiet) = world_kept st in
        let count = object-accepts _ p s there j in
        release-IsHeld _ (record p { object = some v.server; sessions = v.sessions }) v.server refl
          (same ∙ count) (λ idle. quiet (count ∙ idle) (j.no_sessions idle))

    made-IsHeld :
        (opts : HttpServerOptions) (last_id : ℕ)
        → IsHeld 0 (made {Request = Request} {Response = Response} {Handler = Handler} opts last_id)
    unfolding http_server_impl
    made-IsHeld opts last_id = record {
      alive = λ used. (_, refl, refl);
      destroyed = λ unused. absurd (omega arith);
      no_sessions = λ idle. refl;
    }

    -- After a new `HttpServer`, any copies, destructions of copies, calls through them, and steps of
    -- the context, in any order: either the object behind them is alive, and one of them is left or
    -- a `run` has not thrown, and one accept is pending for each such `run`; or it is destroyed, and
    -- none of them is left, no `run` has succeeded, and no session, which would refer to the object,
    -- is alive.
    pub owners-Fate :
        (opts : HttpServerOptions) (last_id : ℕ) {o : O}
        (r : OwnersReach P handle segments_view (made opts last_id) o)
        → Fate (ran P handle segments_view r) o
    owners-Fate opts last_id {o} r =
        let n = ran P handle segments_view r in
        let i = OwnersReach-IsHeld r (made-IsHeld opts last_id) in
        elim (Bool-cases (o.handles + n == 0)) [
          | inl unused ↦
              inr (
                i.destroyed (ground arith),
                ground arith,
                ground arith,
                i.no_sessions (ground arith),
              )
          | inr used ↦
              let (s, there, count) = i.alive (ground arith) in inl (s, there, ground arith, count)
        ]
