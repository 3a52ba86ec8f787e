-- ===== src/Server/HttpServer.antt =====
-- src/http_server.cpp and include/httpserver/detail/http_server.h: the public class of the server.
use httpserver_cpp.Base.{ℕ, List, [], ◌∷◌, Option, none, some, Bytes}
use httpserver_cpp.Base.Result.{Exception, Result, ok, throws, fault, ◌>>=◌}
use httpserver_cpp.Types.{HttpServerOptions, HttpStatistics}
use httpserver_cpp.Server
use httpserver_cpp.Server.{HttpServerImpl, Network, http_server_impl}
use httpserver_cpp.Server.Calls.{Call, run_call, stop_call, register_call}

-- `server_impl_`, a pointer that may be null. An `assert` of it that fails is a `fault`.
pub record HttpServer (Handler : Type 0) : Type 0 where
  pub server_impl : Option (HttpServerImpl Handler)

module _ {Handler : Type 0} where
  unfoldable pub http_server : HttpServerOptions → (last_id : ℕ) → HttpServer Handler
  http_server opts last_id = record { server_impl = some (http_server_impl opts last_id) }

  -- The server afterwards, and the exception that is thrown.
  unfoldable pub run : Network → HttpServer Handler → Result (HttpServer Handler × Option Exception)
  run net s = elim s.server_impl [
    | none ↦ fault
    | some impl ↦ let (t, e) = Server.run net impl in ok (record { server_impl = some t }, e)
  ]

  unfoldable pub stop : HttpServer Handler → Result (HttpServer Handler)
  stop s = elim s.server_impl [
    | none ↦ fault
    | some impl ↦ ok (record { server_impl = some (Server.stop impl) })
  ]

  unfoldable pub register_handler :
      (segments_view : Bytes → Option (List Bytes))
      → Bytes
      → Option Handler
      → HttpServer Handler
      → Result (HttpServer Handler)
  register_handler segments_view path handler s = elim s.server_impl [
    | none ↦ fault
    | some impl ↦ do
      t ← Server.register_handler segments_view path handler impl
      ok (record { server_impl = some t })
  ]

  unfoldable pub get_http_statistics : HttpServer Handler → Result HttpStatistics
  get_http_statistics s = elim s.server_impl [
    | none ↦ fault
    | some impl ↦ ok (Server.get_http_statistics impl)
  ]

  -- One call, where the caller catches the exceptions.
  unfoldable pub server_call :
      (segments_view : Bytes → Option (List Bytes))
      → Call Handler
      → HttpServer Handler
      → Result (HttpServer Handler)
  server_call segments_view (run_call net) s = do (t, e) ← run net s; ok t
  server_call segments_view stop_call s = stop s
  server_call segments_view (register_call path handler) s =
      elim (register_handler segments_view path handler s) [
        | ok t ↦ ok t
        | throws e ↦ ok s
        | fault ↦ fault
      ]

  unfoldable pub server_calls :
      (segments_view : Bytes → Option (List Bytes))
      → List (Call Handler)
      → HttpServer Handler
      → Result (HttpServer Handler)
  server_calls segments_view [] s = ok s
  server_calls segments_view (c ∷ cs) s = do
    t ← server_call segments_view c s
    server_calls segments_view cs t
