-- ===== src/Request.antt =====
-- src/http_request.cpp and include/httpserver/detail/http_request.h: what a handler is given.
use httpserver_cpp.Base.{ℕ, List, [], Bytes}
use httpserver_cpp.Base.Dict.{Dict}

-- `method` is the underlying value of the `MethodType`.
pub record HttpRequest : Type 0 where
  pub method : ℕ
  pub session_id : ℕ
  pub request_id : ℕ
  pub body : Bytes
  pub segments : List Bytes
  pub headers : Dict Bytes
  pub params : Dict Bytes
  pub start_time : ℕ

-- The constructor leaves `method_` uninitialised: `any` is the value that it happens to have.
unfoldable pub http_request : (any session_id request_id : ℕ) → HttpRequest
http_request any session_id request_id = record {
  method = any;
  session_id = session_id;
  request_id = request_id;
  body = [];
  segments = [];
  headers = [];
  params = [];
  start_time = 0;
}

unfoldable pub method : HttpRequest → ℕ
method r = r.method

unfoldable pub session_id : HttpRequest → ℕ
session_id r = r.session_id

unfoldable pub request_id : HttpRequest → ℕ
request_id r = r.request_id

unfoldable pub headers : HttpRequest → Dict Bytes
headers r = r.headers

unfoldable pub params : HttpRequest → Dict Bytes
params r = r.params

unfoldable pub body : HttpRequest → Bytes
body r = r.body

unfoldable pub segments : HttpRequest → List Bytes
segments r = r.segments

unfoldable pub start_time : HttpRequest → ℕ
start_time r = r.start_time
