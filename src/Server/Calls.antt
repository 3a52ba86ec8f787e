-- ===== src/Server/Calls.antt =====
-- src/http_server_impl.cpp: sequences of calls of the server's public methods.
use httpserver_cpp.Base.{◌≡◌, refl, sym, subst, ◌⊎◌, inl, inr, List, [], ◌∷◌, Option, Bytes, arith}
use httpserver_cpp.Base.Result.{Exception, Result, ok, throws, fault}
use httpserver_cpp.Router.{insert}
use httpserver_cpp.Router.Shape.{IsTree}
use httpserver_cpp.Router.Table.{registers, registers-IsTable}
use httpserver_cpp.Server.{HttpServerImpl, Network, run, stop, register_handler}
use httpserver_cpp.Server.Control.{running, run-Outcome}

pub data Call (Handler : Type 0) : Type 0 where
  run_call : Network → Call Handler
  stop_call : Call Handler
  register_call : Bytes → Option Handler → Call Handler

pub Result-cases {ℓ} :
    {A : Type ℓ} (r : Result A)
    → ((a : A) × (r ≡ ok a)) ⊎ (((e : Exception) × (r ≡ throws e)) ⊎ (r ≡ fault))
Result-cases (ok a) = inl (a, refl)
Result-cases (throws e) = inr (inl (e, refl))
Result-cases fault = inr (inr refl)

pub stop_keeps :
    {Handler : Type 0} (s : HttpServerImpl Handler)
    → ((stop s).http_statistics ≡ s.http_statistics)
      × ((stop s).opts ≡ s.opts)
      × ((stop s).router ≡ s.router)
unfolding stop
stop_keeps s = ground arith

module _ {Handler : Type 0} (segments_view : Bytes → Option (List Bytes)) where
  -- The server after a call.
  unfoldable pub call : Call Handler → HttpServerImpl Handler → HttpServerImpl Handler
  call (run_call net) s = (run net s).0
  call stop_call s = stop s
  call (register_call path handler) s = elim (register_handler segments_view path handler s) [
    | ok t ↦ t
    | throws e ↦ s
    | fault ↦ s
  ]

  unfoldable pub all_calls : List (Call Handler) → HttpServerImpl Handler → HttpServerImpl Handler
  all_calls [] s = s
  all_calls (c ∷ cs) s = all_calls cs (call c s)

  -- The routers of a server are trees.
  pub call-IsTree :
      (c : Call Handler) (s : HttpServerImpl Handler) → IsTree s.router → IsTree (call c s).router
  unfolding call register_handler registers running
  call-IsTree (run_call net) s t = elim (run-Outcome net s) [
    | inl (ready, e) ↦ rw (call, e, running) t
    | inr (u, x, e, r) ↦ rw (call, e) (subst IsTree (sym r.router_kept) t)
  ]
  call-IsTree stop_call s t = subst IsTree (sym (stop_keeps s).2) t
  call-IsTree (register_call path handler) s t =
      let table = (registers-IsTable segments_view ((path, handler) ∷ []) s.router t).tree in
      elim (Result-cases (insert segments_view path handler s.router)) [
        | inl (h, went) ↦ rw (call, went) (rw went at table)
        | inr (inl (e, thrown)) ↦ rw (call, thrown) t
        | inr (inr broken) ↦ rw (call, broken) t
      ]

  pub all_calls-IsTree :
      (cs : List (Call Handler)) (s : HttpServerImpl Handler)
      → IsTree s.router
      → IsTree (all_calls cs s).router
  unfolding all_calls
  all_calls-IsTree [] s t = t
  all_calls-IsTree (c ∷ cs) s t = all_calls-IsTree cs (call c s) (call-IsTree c s t)
