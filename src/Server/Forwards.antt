-- ===== src/Server/Forwards.antt =====
-- src/http_server.cpp: what the calls of the public class do.
use httpserver_cpp.Base.{ℕ, ◌≡◌, ◌≢◌, refl, inl, inr, List, [], ◌∷◌, Option, none, some, Bytes}
use httpserver_cpp.Base.Result.{Result, ok, fault}
use httpserver_cpp.Types.{HttpServerOptions}
use httpserver_cpp.Router.{Heap, insert}
use httpserver_cpp.Router.Shape.{IsTree, empty-IsTree}
use httpserver_cpp.Router.Table.{route, Obeys, insert-Obeys}
use httpserver_cpp.Server
use httpserver_cpp.Server.{HttpServerImpl, Network, http_server_impl}
use httpserver_cpp.Server.Calls.{
  Call, run_call, stop_call, register_call, call, all_calls, Result-cases, call-IsTree,
}
use httpserver_cpp.Server.HttpServer
use httpserver_cpp.Server.HttpServer.{HttpServer, server_call, server_calls}

module _ {Handler : Type 0} (segments_view : Bytes → Option (List Bytes)) where
  -- A new server in place of the pointer.
  abbrev holding : HttpServerImpl Handler → HttpServer Handler
  holding impl = record { server_impl = some impl }

  never_faults :
      (r : Option (List Bytes × Handler)) (h : Heap Handler) (result : Result (Heap Handler))
      → Obeys segments_view r h result
      → result ≢ fault
  never_faults none h result (e, thrown) broken = cc
  never_faults (some (ks, d)) h result (h', went, rest) broken = cc

  server_call_lem :
      (c : Call Handler) (impl : HttpServerImpl Handler)
      → IsTree impl.router
      → server_call segments_view c (holding impl) ≡ ok (holding (call segments_view c impl))
  unfolding server_call HttpServer.run HttpServer.stop HttpServer.register_handler call
      Server.register_handler
  server_call_lem (run_call net) impl t = refl
  server_call_lem stop_call impl t = refl
  server_call_lem (register_call path handler) impl t =
      elim (Result-cases (insert segments_view path handler impl.router)) [
        | inl (h, went) ↦ rw (went, server_call, call) refl
        | inr (inl (e, thrown)) ↦ rw (thrown, server_call, call) refl
        | inr (inr broken) ↦ absurd (
            never_faults (route segments_view path handler) impl.router _
              (insert-Obeys segments_view path handler impl.router t) broken)
      ]

  server_calls_from :
      (cs : List (Call Handler)) (impl : HttpServerImpl Handler)
      → IsTree impl.router
      → server_calls segments_view cs (holding impl)
        ≡ ok (holding (all_calls segments_view cs impl))
  unfolding server_calls all_calls
  server_calls_from [] impl t = refl
  server_calls_from (c ∷ cs) impl t =
      rw (server_call_lem c impl t)
        (server_calls_from cs (call segments_view c impl) (call-IsTree segments_view c impl t))

  -- After any calls on a new server, whose exceptions the caller catches, the pointer is not null
  -- and no `assert` has failed; the object that it points to is the one that these calls make of a
  -- new `HttpServerImpl`, and its statistics are those that are told.
  pub server_calls_lem :
      (cs : List (Call Handler)) (opts : HttpServerOptions) (last_id : ℕ)
      → (s : HttpServer Handler) × (server_calls segments_view cs
            (HttpServer.http_server opts last_id)
          ≡ ok s)
        × (s.server_impl ≡ some (all_calls segments_view cs (http_server_impl opts last_id)))
        × (HttpServer.get_http_statistics s
            ≡ ok (
                Server.get_http_statistics
                  (all_calls segments_view cs (http_server_impl opts last_id))))
  unfolding HttpServer.http_server HttpServer.get_http_statistics http_server_impl
  server_calls_lem cs opts last_id = (
    holding (all_calls segments_view cs (http_server_impl opts last_id)),
    server_calls_from cs (http_server_impl opts last_id) empty-IsTree,
    refl,
    refl,
  )
