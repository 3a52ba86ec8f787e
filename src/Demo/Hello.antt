-- ===== src/Demo/Hello.antt =====
-- demo/main.cpp: what the demo's server answers.
use httpserver_cpp.Base.{
  ℕ, false, ◌≡◌, refl, List, [], ◌∷◌, Option, none, some, ite, Bytes, codes, bytes_discrete,
  ℕ_discrete, arith,
}
use httpserver_cpp.Base.Dict.{find, assign}
use httpserver_cpp.Base.Result.{ok}
use httpserver_cpp.Log.{info, Spdlog, Log, set_log_level}
use httpserver_cpp.Router.{
  Heap, empty, attach, insert_from, set_data, insert_segments, get_data, search_from,
  search_segments, insert, starts_with_slash, has_dots,
}
use httpserver_cpp.Router.Table.{after}
use httpserver_cpp.Server.{HttpServerImpl, Network, http_server_impl}
use httpserver_cpp.Server
use httpserver_cpp.Server.Control.{running, IsClear, IsValid, run-running}
use httpserver_cpp.Server.HttpServer
use httpserver_cpp.Server.HttpServer.{HttpServer}
use httpserver_cpp.Demo.{HelloHandler, hello_handler, server_opts, main}

unfold_router : Unit {0}
unfolding find assign empty attach insert_from set_data insert_segments get_data search_from
    search_segments starts_with_slash has_dots insert bytes_discrete ℕ_discrete
unfold_router = tt

-- The router with the demo's one route.
abbrev pub hello_router : Heap HelloHandler
unfolding unfold_router
hello_router = after empty (insert_segments (codes "hello" ∷ []) hello_handler empty)

-- The handler of a request with these segments: those under `/hello` have it.
abbrev pub hello_found : List Bytes → Option HelloHandler
hello_found [] = none
hello_found (s ∷ rest) = ite (bytes_discrete (codes "hello") s) (some hello_handler) none

inserted :
    (segments_view : Bytes → Option (List Bytes))
    → segments_view (codes "/hello") ≡ some (codes "hello" ∷ [])
    → insert segments_view (codes "/hello") (some hello_handler) empty ≡ ok hello_router
unfolding unfold_router
inserted segments_view parsed = rw parsed refl

search_under : (rest : List Bytes) → search_from rest 1 hello_router ≡ ok 1
unfolding unfold_router
search_under [] = refl
search_under ([] ∷ rest) = refl
search_under ((c ∷ cs) ∷ rest) = refl

pub search_hello :
    (segments : List Bytes) → search_segments segments hello_router ≡ ok (hello_found segments)
unfolding unfold_router
search_hello [] = refl
search_hello ([] ∷ rest) = refl
search_hello ((c ∷ cs) ∷ rest) = elim (bytes_discrete (codes "hello") (c ∷ cs)) [
  | yes e ↦ ground (arith, search_under rest)
  | no e ↦ ground arith
]

-- The demo's server, when it listens.
abbrev pub hello_server : ℕ → HttpServerImpl HelloHandler
hello_server last_id =
    running (record (http_server_impl server_opts last_id) { router = hello_router })

server_opts-IsValid : IsValid server_opts
server_opts-IsValid = record {
  threads = λ e. omega arith;
  size = λ e. omega arith;
  address = λ e. cc;
}

impl_fields :
    (last_id : ℕ)
    → ((http_server_impl {Handler = HelloHandler} server_opts last_id).router ≡ empty)
      × ((http_server_impl {Handler = HelloHandler} server_opts last_id).opts ≡ server_opts)
      × ((http_server_impl {Handler = HelloHandler} server_opts last_id).is_open ≡ false)
unfolding http_server_impl
impl_fields last_id = (refl, refl, refl)

pub main_lem :
    (L : Spdlog) (segments_view : Bytes → Option (List Bytes)) (last_id : ℕ) (net : Network)
    (log : Log L.Logger)
    → segments_view (codes "/hello") ≡ some (codes "hello" ∷ [])
    → IsClear net server_opts
    → main L segments_view last_id net log
      ≡ (set_log_level L info log, ok (record { server_impl = some (hello_server last_id) }, none))
unfolding main HttpServer.http_server HttpServer.register_handler HttpServer.run
    Server.register_handler http_server_impl set_log_level insert running
    httpserver_cpp.Log.level_value starts_with_slash hello_router
main_lem L segments_view last_id net log parsed clear = rw (inserted segments_view parsed) (
    rw
      (run-running net (record (http_server_impl server_opts last_id) { router = hello_router })
        server_opts-IsValid clear refl)
      refl)
