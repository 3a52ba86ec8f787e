-- ===== src/Demo.antt =====
-- demo/main.cpp: a server with one handler, which tells what it was asked.
pub mod Hello
pub mod Replies
pub mod Decimal
mod Tests
use httpserver_cpp.Base.{
  ℕ, zero, suc, ◌+◌, ◌/◌, ◌%◌, ltb, if◌then◌else◌, List, [], ◌∷◌, ◌++◌, Option, none, some, Bytes,
  codes,
}
use httpserver_cpp.Base.Dict.{Dict}
use httpserver_cpp.Base.Result.{Exception, Result, ok, throws, fault, ◌>>=◌}
use httpserver_cpp.Types.{HttpServerOptions, default_options, ok_status, bad_request}
use httpserver_cpp.Request.{HttpRequest, method, body, params, headers}
use httpserver_cpp.Response.{HttpResponse, http_response}
use httpserver_cpp.Log.{info, Spdlog, Log, set_log_level}
use httpserver_cpp.Server.{Network}
use httpserver_cpp.Server.HttpServer
use httpserver_cpp.Server.HttpServer.{HttpServer}

-- `ss << n`: the decimal digits. Each of the rounds, of which `fuel` bounds the number, finds one.
unfoldable pub digits : (fuel : ℕ) → ℕ → Bytes → Bytes
digits zero n s = s
digits (suc fuel) n s =
    let rest = digits fuel (n / 10) ((b'0' + n % 10) ∷ s) in
    if ltb n 10 then (b'0' + n) ∷ s else rest

unfoldable pub decimal : ℕ → Bytes
unfolding digits
decimal n = digits (suc n) n []

-- `ss << text << value << std::endl`
unfoldable pub line : Bytes → Bytes → Bytes
line text value = text ++ value ++ b'\n' ∷ []

-- `for (p : m) ss << text << p.first << ":" << p.second << std::endl`
unfoldable pub lines : Bytes → Dict Bytes → Bytes
unfolding line
lines text [] = []
lines text ((name, value) ∷ m) = line text (name ++ b':' ∷ value) ++ lines text m

pub data HelloHandler : Type 0 where
  hello_handler : HelloHandler

-- The text that `HelloHandler::handle` makes.
unfoldable pub hello_body : HttpRequest → Bytes
unfolding decimal line lines
hello_body request =
    line (codes "receive method: ") (decimal (method request))
    ++ line (codes "receive body: ") (body request)
    ++ lines (codes "receive param: ") (params request)
    ++ lines (codes "receive header: ") (headers request)

-- `HelloHandler::handle`: it sends one response.
unfoldable pub hello : HelloHandler → HttpRequest → List HttpResponse
unfolding hello_body
hello hello_handler request = http_response ok_status (hello_body request) (codes "text/plain") ∷ []

abbrev pub server_opts : HttpServerOptions
server_opts = record default_options { thread_num = 8 }

-- The server of `main` when `run` returns or is left to its handlers, with the exception that it
-- throws.
unfoldable pub serve :
    (segments_view : Bytes → Option (List Bytes)) (last_id : ℕ)
    → Network
    → Result (HttpServer HelloHandler × Option Exception)
serve segments_view last_id net = do
  server ←
      HttpServer.register_handler segments_view (codes "/hello") (some hello_handler)
        (HttpServer.http_server server_opts last_id)
  HttpServer.run net server

-- `main`: the log, and the server.
unfoldable pub main :
    (L : Spdlog) (segments_view : Bytes → Option (List Bytes)) (last_id : ℕ)
    → Network
    → Log L.Logger
    → Log L.Logger × Result (HttpServer HelloHandler × Option Exception)
unfolding serve
main L segments_view last_id net log = (set_log_level L info log, serve segments_view last_id net)
