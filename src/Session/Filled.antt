-- ===== src/Session/Filled.antt =====
-- src/http_session.cpp: all that `writeResponse` makes of a fresh response.
use httpserver_cpp.Base.{◌≡◌, not, ◌&&◌, [], length, ltb, ◌==◌, if◌then◌else◌}
use httpserver_cpp.Types.{HttpServerOptions}
use httpserver_cpp.Response.{HttpResponse}
use httpserver_cpp.Platform.{Platform}
use httpserver_cpp.Platform.Documented.{IsFresh, KeepAliveLaws, BodyLaws, LengthLaws, EncodingLaws}
use httpserver_cpp.Session.{fill_response}
use httpserver_cpp.Session.Fill.{
  Avoids, compresses, encoded, fill_response-keep_alive, fill_response-body, fill_response-gzip,
  fill_response-length,
}

module _ (P : Platform) where
  open P use {
    Request, Response, verb, verb_head, wants_keep_alive, keep_alive, response_body, has_length,
    is_gzip, is_connection, is_content_encoding, is_content_length,
  }

  -- The response `r` that is sent for the handler's.
  pub record IsFilled (opts : HttpServerOptions) (request : Request) (rsp : HttpResponse)
      (r : Response) : Type 0 where
    pub keeps : keep_alive r ≡ not rsp.force_disable_keep_alive && wants_keep_alive request
    pub body :
        response_body r ≡ (if verb request == verb_head then [] else encoded P opts request rsp)
    pub says_gzip : is_gzip r ≡ compresses P opts request rsp
    pub says_length : has_length r ≡ ltb 0 (length (encoded P opts request rsp))

  -- Let the response be without fields and body, and let no header of the handler's be `Connection`,
  -- `Content-Encoding` or `Content-Length`. Then the response that is sent keeps the connection
  -- alive exactly if the request does and the handler does not forbid it. It has no body for `HEAD`,
  -- and else the handler's body, compressed exactly if it is forced, or if the body is over 500
  -- bytes, the options allow it and the request's `Accept-Encoding` contains `gzip` or `*` anywhere. It says gzip exactly if that body is
  -- compressed, and it has a length exactly if that body is not empty.
  pub fill_response-IsFilled :
      (opts : HttpServerOptions) (request : Request) (rsp : HttpResponse) (r : Response)
      → KeepAliveLaws P
      → BodyLaws P
      → EncodingLaws P
      → LengthLaws P
      → IsFresh P r
      → Avoids P is_connection rsp.headers
      → Avoids P is_content_encoding rsp.headers
      → Avoids P is_content_length rsp.headers
      → IsFilled opts request rsp (fill_response P opts request rsp r)
  fill_response-IsFilled opts request rsp r k b g l (empty, unsized, plain) a c d = record {
    keeps = fill_response-keep_alive P opts request rsp r k a;
    body = fill_response-body P opts request rsp r b empty;
    says_gzip = fill_response-gzip P opts request rsp r g plain c;
    says_length = fill_response-length P opts request rsp r l unsized d;
  }
