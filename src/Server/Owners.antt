-- ===== src/Server/Owners.antt =====
-- src/http_server.cpp and src/http_server_impl.cpp: who keeps the server's object alive. The copies of
-- an `HttpServer` share it, and the handler of each pending accept holds it by `shared_from_this`.
pub mod Held
use httpserver_cpp.Base.{
  ℕ, zero, suc, ◌+◌, ◌≡◌, List, [], Option, none, some, true, false, ◌==◌, Bytes,
}
use httpserver_cpp.Types.{HttpServerOptions}
use httpserver_cpp.Request.{HttpRequest}
use httpserver_cpp.Response.{HttpResponse}
use httpserver_cpp.Platform.{Platform}
use httpserver_cpp.Server.{HttpServerImpl, Live, World, http_server_impl}
use httpserver_cpp.Server.Calls.{Call, call}
use httpserver_cpp.Server.Restart.{run_count}
use httpserver_cpp.Server.Running.{WorldStep}

-- The `HttpServer`s whose `server_impl_` is the object, the object unless it is destroyed, and the
-- sessions, which refer to its options, router and counters.
pub record Owners (Request Response Handler : Type 0) : Type 0 where
  pub handles : ℕ
  pub object : Option (HttpServerImpl Handler)
  pub sessions : List (Live Request Response)

-- The `use_count()` of the object.
abbrev pub use_count : {Handler : Type 0} → ℕ → HttpServerImpl Handler → ℕ
use_count handles s = handles + s.accepts

module _ {Request Response Handler : Type 0} where
  -- A new `HttpServer`.
  abbrev pub made : HttpServerOptions → (last_id : ℕ) → Owners Request Response Handler
  made opts last_id = record {
    handles = 1;
    object = some (http_server_impl opts last_id);
    sessions = [];
  }

  -- A `shared_ptr` is gone: `~HttpServerImpl` runs if it was the last one.
  unfoldable pub release : Owners Request Response Handler → Owners Request Response Handler
  release o = elim o.object [
    | none ↦ o
    | some s ↦ elim (use_count o.handles s == 0) [ true ↦ record o { object = none } | false ↦ o ]
  ]

module _ (P : Platform) {Handler : Type 0} (handle : Handler → HttpRequest → List HttpResponse)
    (segments_view : Bytes → Option (List Bytes)) where
  open P use {Request, Response}

  abbrev W : Type 0
  W = Owners Request Response Handler

  -- An `HttpServer` is copied, or destroyed; a public method is called on one; or the context runs a
  -- handler of an accept or of a session, of which an accept's holds the object.
  pub data OwnersStep (o : W) : W → Type 0 where
    copied : (n : ℕ) → o.handles ≡ suc n → OwnersStep o (record o { handles = suc (suc n) })
    dropped : (n : ℕ) → o.handles ≡ suc n → OwnersStep o (release (record o { handles = n }))
    called :
        (n : ℕ) (c : Call Handler) (s : HttpServerImpl Handler)
        → o.handles ≡ suc n
        → o.object ≡ some s
        → OwnersStep o (record o { object = some (call segments_view c s) })
    worked :
        (s : HttpServerImpl Handler) (v : World Request Response Handler)
        → o.object ≡ some s
        → WorldStep P handle (record { server = s; sessions = o.sessions }) v
        → OwnersStep o (release (record o { object = some v.server; sessions = v.sessions }))

  pub data OwnersReach (o : W) : W → Type 0 where
    here : OwnersReach o o
    next : {p q : W} → OwnersReach o p → OwnersStep p q → OwnersReach o q

  -- The calls of `run` that did not throw.
  unfoldable pub ran : {o p : W} → OwnersReach o p → ℕ
  ran here = 0
  ran (next r (copied n e)) = ran r
  ran (next r (dropped n e)) = ran r
  ran (next r (called n c s e h)) = run_count segments_view c s + ran r
  ran (next r (worked s v h st)) = ran r
