-- ===== src/Session/Maps.antt =====
-- src/http_response.cpp and src/http_session.cpp: the maps of a response and of a request.
use httpserver_cpp.Base.{
  ◌≡◌, sym, ◌∙◌, ap, subst, Bool, true, false, ◌||◌, arith, List, [], ◌∷◌, none, Bytes,
}
use httpserver_cpp.Base.Ascending.{IsAscending, put-IsAscending}
use httpserver_cpp.Base.Dict.{Dict, find, put}
use httpserver_cpp.Types.{HttpServerOptions, StatusType, CompressionLevel, best_speed}
use httpserver_cpp.Request.{HttpRequest}
use httpserver_cpp.Response.{
  HttpResponse, http_response, header, force_gzip, force_disable_keep_alive, compression_level,
}
use httpserver_cpp.Router.{Heap}
use httpserver_cpp.Platform.{Platform}
use httpserver_cpp.Session.{HttpSession}
use httpserver_cpp.Session.Process.{Moment, put_all, make_request}
use httpserver_cpp.Session.Handed.{last_value, find-put_all}

put_all-IsAscending :
    (pairs : List (Bytes × Bytes)) (m : Dict Bytes) → IsAscending m → IsAscending (put_all pairs m)
unfolding put_all
put_all-IsAscending [] m i = i
put_all-IsAscending ((k, v) ∷ pairs) m i =
    put_all-IsAscending pairs (put k v m) (put-IsAscending k v m i)

-- The calls by which a handler shapes its response.
pub data Shaping : Type 0 where
  sets_header : Bytes → Bytes → Shaping
  forces_gzip : Shaping
  disables_keep_alive : Shaping
  sets_level : CompressionLevel → Shaping

unfoldable pub shape : List Shaping → HttpResponse → HttpResponse
shape [] r = r
shape (sets_header name value ∷ calls) r = shape calls (header name value r)
shape (forces_gzip ∷ calls) r = shape calls (force_gzip r)
shape (disables_keep_alive ∷ calls) r = shape calls (force_disable_keep_alive r)
shape (sets_level level ∷ calls) r = shape calls (compression_level level r)

-- The headers that are set, in turn; whether there is a call of the others; the last level.
abbrev pub headers_set : List Shaping → List (Bytes × Bytes)
headers_set [] = []
headers_set (sets_header name value ∷ calls) = (name, value) ∷ headers_set calls
headers_set (forces_gzip ∷ calls) = headers_set calls
headers_set (disables_keep_alive ∷ calls) = headers_set calls
headers_set (sets_level level ∷ calls) = headers_set calls

abbrev pub any_gzip : List Shaping → Bool
any_gzip [] = false
any_gzip (forces_gzip ∷ calls) = true
any_gzip (sets_header name value ∷ calls) = any_gzip calls
any_gzip (disables_keep_alive ∷ calls) = any_gzip calls
any_gzip (sets_level level ∷ calls) = any_gzip calls

abbrev pub any_disable : List Shaping → Bool
any_disable [] = false
any_disable (disables_keep_alive ∷ calls) = true
any_disable (sets_header name value ∷ calls) = any_disable calls
any_disable (forces_gzip ∷ calls) = any_disable calls
any_disable (sets_level level ∷ calls) = any_disable calls

abbrev pub last_level : List Shaping → CompressionLevel → CompressionLevel
last_level [] old = old
last_level (sets_level level ∷ calls) old = last_level calls level
last_level (sets_header name value ∷ calls) old = last_level calls old
last_level (forces_gzip ∷ calls) old = last_level calls old
last_level (disables_keep_alive ∷ calls) old = last_level calls old

-- What the calls leave of a response.
pub record Shaped (calls : List Shaping) (r t : HttpResponse) : Type 0 where
  pub headers : t.headers ≡ put_all (headers_set calls) r.headers
  pub gzip : t.force_gzip ≡ (r.force_gzip || any_gzip calls)
  pub disable : t.force_disable_keep_alive ≡ (r.force_disable_keep_alive || any_disable calls)
  pub level : t.compression_level ≡ last_level calls r.compression_level
  pub status : t.status ≡ r.status
  pub body : t.body ≡ r.body
  pub content_type : t.content_type ≡ r.content_type

shape-Shaped : (calls : List Shaping) (r : HttpResponse) → Shaped calls r (shape calls r)
unfolding shape put_all header force_gzip force_disable_keep_alive compression_level
shape-Shaped [] r = ground arith
shape-Shaped (sets_header name value ∷ calls) r =
    ground (arith, shape-Shaped calls (header name value r))
shape-Shaped (forces_gzip ∷ calls) r = ground (arith, shape-Shaped calls (force_gzip r))
shape-Shaped (disables_keep_alive ∷ calls) r =
    ground (arith, shape-Shaped calls (force_disable_keep_alive r))
shape-Shaped (sets_level level ∷ calls) r =
    ground (arith, shape-Shaped calls (compression_level level r))

-- What a response is after the calls on a new one.
pub record IsShaped (status : StatusType) (body content_type : Bytes) (calls : List Shaping)
    (t : HttpResponse) : Type 0 where
  pub ascending : IsAscending t.headers
  pub last : (name : Bytes) → find name t.headers ≡ last_value name (headers_set calls) none
  pub gzip : t.force_gzip ≡ any_gzip calls
  pub disable : t.force_disable_keep_alive ≡ any_disable calls
  pub level : t.compression_level ≡ last_level calls best_speed
  pub status_kept : t.status ≡ status
  pub body_kept : t.body ≡ body
  pub content_type_kept : t.content_type ≡ content_type

-- After any calls of `header`, `forceGzip`, `forceDisableKeepAlive` and `compressionLevel` on a new
-- response: its headers ascend, so that no name occurs twice, and each has the last value that was
-- set; gzip is forced and keep-alive disabled exactly if there was such a call; the level is the
-- last that was set, or `BestSpeed`; the status, the body and the content type are those of the
-- constructor.
pub shape-IsShaped :
    (status : StatusType) (body content_type : Bytes) (calls : List Shaping)
    → IsShaped status body content_type calls (shape calls (http_response status body content_type))
unfolding http_response find
shape-IsShaped status body content_type calls =
    let i = shape-Shaped calls (http_response status body content_type) in
    record {
      ascending = subst IsAscending (sym i.headers) (put_all-IsAscending (headers_set calls) [] tt);
      last = λ name. ap (find name) i.headers ∙ find-put_all name (headers_set calls) [];
      gzip = i.gzip;
      disable = i.disable;
      level = i.level;
      status_kept = i.status;
      body_kept = i.body;
      content_type_kept = i.content_type;
    }

module _ (P : Platform) {Handler : Type 0} (handle : Handler → HttpRequest → List HttpResponse)
    (opts : HttpServerOptions) (router : Heap Handler) where
  open P use {Request, Response, UrlView}

  -- The headers and the parameters that a handler is given ascend: no name occurs twice.
  pub make_request-IsAscending :
      (any : Moment) (url : UrlView) (session : HttpSession Request Response)
      → IsAscending (make_request P handle opts router any url session).headers
        × IsAscending (make_request P handle opts router any url session).params
  unfolding make_request
  make_request-IsAscending any url session =
      (put_all-IsAscending _ [] tt, put_all-IsAscending _ [] tt)
