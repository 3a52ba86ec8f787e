-- ===== src/Session/Handed.antt =====
-- src/http_session.cpp: what `processRequest` parses, and what it hands to the handler.
use httpserver_cpp.Base.{
  ℕ, zero, suc, ◌≤◌, ◌≡◌, refl, sym, ◌∙◌, ap, ◌≢◌, false, List, [], ◌∷◌, Option, none, some,
  if◌then◌else◌, nil_of_length, Bytes, arith, ite, bytes_discrete,
}
use httpserver_cpp.Base.Dict.{Dict, put, find, find-put}
use httpserver_cpp.Types.{
  HttpServerOptions, MethodType, unknown, delete, get, head, post, method_value,
}
use httpserver_cpp.Request.{
  HttpRequest, http_request, method, session_id, request_id, headers, params, body, segments,
  start_time,
}
use httpserver_cpp.Response.{HttpResponse}
use httpserver_cpp.Router.{Heap}
use httpserver_cpp.Platform.{Platform}
use httpserver_cpp.Platform.Documented.{RequestLaws, escape_bars}
use httpserver_cpp.Session.{HttpSession}
use httpserver_cpp.Session.Process.{Moment, has_bar, put_all, origin_target, make_request}

-- The value of the last pair with the key.
unfoldable pub last_value : Bytes → List (Bytes × Bytes) → Option Bytes → Option Bytes
last_value k [] old = old
last_value k ((j, v) ∷ more) old = last_value k more (ite (bytes_discrete j k) (some v) old)

pub find-put_all :
    (k : Bytes) (pairs : List (Bytes × Bytes)) (m : Dict Bytes)
    → find k (put_all pairs m) ≡ last_value k pairs (find k m)
unfolding put_all last_value
find-put_all k [] m = refl
find-put_all k ((j, v) ∷ more) m =
    find-put_all k more (put j v m) ∙ ap (last_value k more) (find-put j k v m)

method_of_value : (n : ℕ) → n ≤ 5 → (m : MethodType) × (method_value m ≡ n)
unfolding method_value
method_of_value zero h = (unknown, refl)
method_of_value (suc zero) h = (delete, refl)
method_of_value (suc (suc zero)) h = (get, refl)
method_of_value (suc (suc (suc zero))) h = (head, refl)
method_of_value (suc (suc (suc (suc zero)))) h = (post, refl)
method_of_value (suc (suc (suc (suc (suc zero))))) h = (MethodType.put, refl)
method_of_value (suc (suc (suc (suc (suc (suc n)))))) h = absurd (omega arith)

has_bar-escape_bars : (s : Bytes) → has_bar (escape_bars s) ≡ false
unfolding has_bar escape_bars
has_bar-escape_bars [] = refl
has_bar-escape_bars (c ∷ s) = ground (arith, has_bar-escape_bars s)

escape_bars_plain : (s : Bytes) → has_bar s ≡ false → escape_bars s ≡ s
unfolding has_bar escape_bars
escape_bars_plain [] e = refl
escape_bars_plain (c ∷ s) e = ground (arith, escape_bars_plain s)

module _ (P : Platform) {Handler : Type 0} (handle : Handler → HttpRequest → List HttpResponse)
    (opts : HttpServerOptions) (router : Heap Handler) (laws : RequestLaws P) where
  open P use {
    Request, Response, verb, verb_get, verb_put, target, fields, request_body, UrlView,
    url_segments, url_params, encoded_params,
  }

  origin_target-get :
      (request : Request)
      → verb request ≡ method_value get
      → origin_target P handle opts router request ≡ escape_bars (target request)
  unfolding origin_target method_value
  origin_target-get request e = ground (
    arith,
    laws.get_number,
    laws.replace_all-bar (target request),
    escape_bars_plain (target request),
  )

  -- In a `GET` the target that is parsed is that of the request with each '|' escaped, so that none
  -- is left; in any other request it is that of the request.
  pub origin_target_lem :
      (request : Request)
      → (verb request ≡ method_value get
          → (origin_target P handle opts router request ≡ escape_bars (target request))
            × (has_bar (origin_target P handle opts router request) ≡ false))
        × (verb request ≢ method_value get
            → origin_target P handle opts router request ≡ target request)
  unfolding origin_target method_value
  origin_target_lem request = (
    λ e.
        let a = origin_target-get request e in
        (a, ap has_bar a ∙ has_bar-escape_bars (target request)),
    λ e. ground (arith, laws.get_number),
  )

  -- What a handler is given, as it reads it.
  pub record Handed (any : Moment) (url : UrlView) (session : HttpSession Request Response)
      (r : HttpRequest) : Type 0 where
    pub method_named :
        (m : MethodType) × (method_value m ≡ verb session.request) × (method r ≡ method_value m)
    pub numbers : (session_id r ≡ session.id) × (request_id r ≡ session.current_request_id)
    pub started : start_time r ≡ any.now
    pub body_whole : body r ≡ request_body session.request
    pub segments_whole : segments r ≡ url_segments url
    pub headers_last : (k : Bytes) → find k (headers r) ≡ last_value k (fields session.request) none
    pub params_last :
        (k : Bytes)
        → find k (params r)
          ≡ last_value k
              (if opts.auto_decode_url_parameters then url_params url else encoded_params url)
              none

  -- For a verb up to `put`, the handler's request has the method with the verb's number, the numbers
  -- of the session and of the request, the time of the start, the whole body and all segments; a
  -- header or parameter with several values has the last one, and parameters are decoded or not as
  -- the options say.
  pub make_request-Handed :
      (any : Moment) (url : UrlView) (session : HttpSession Request Response)
      → verb session.request ≤ verb_put
      → Handed any url session (make_request P handle opts router any url session)
  unfolding make_request http_request find method session_id request_id headers params body segments
      start_time
  make_request-Handed any url session within =
      let (m, e) = method_of_value (verb session.request) (omega (arith, laws.put_number)) in
      record {
        method_named = (m, e, sym e);
        numbers = (refl, refl);
        started = refl;
        body_whole = ground (arith, nil_of_length (request_body session.request));
        segments_whole = refl;
        headers_last = λ k. find-put_all k (fields session.request) [];
        params_last = λ k. find-put_all k _ [];
      }
