-- ===== src/Session/Process.antt =====
-- src/http_session.cpp: `onRead` and `processRequest`.
use httpserver_cpp.Base.{
  ℕ, Bool, false, ◌&&◌, ◌||◌, List, [], ◌∷◌, Option, none, some, ltb, ◌==◌, if◌then◌else◌, length,
  Bytes, codes,
}
use httpserver_cpp.Base.Dict.{Dict, put}
use httpserver_cpp.Base.Result.{Result, ok, ◌>>=◌}
use httpserver_cpp.Types.{HttpServerOptions, bad_request}
use httpserver_cpp.Statistics.{u64_inc, u64_dec}
use httpserver_cpp.Request.{HttpRequest, http_request}
use httpserver_cpp.Response.{HttpResponse, http_response}
use httpserver_cpp.Router.{Heap, search_segments}
use httpserver_cpp.Platform.{Platform}
use httpserver_cpp.Session.{
  State, HttpSession, ErrorCode, end_of_stream, timeout, do_close, write_response,
}

-- `target.find('|') != npos`
unfoldable pub has_bar : Bytes → Bool
has_bar [] = false
has_bar (c ∷ s) = c == b'|' || has_bar s

-- `for (p : pairs) m[p.first] = p.second` on a `std::map`.
unfoldable pub put_all : List (Bytes × Bytes) → Dict Bytes → Dict Bytes
put_all [] m = m
put_all ((k, v) ∷ more) m = put_all more (put k v m)

-- What `processRequest` finds by chance: the value of the uninitialised `method_`, which it
-- overwrites, and the steady clock.
pub record Moment : Type 0 where
  pub garbage : ℕ
  pub now : ℕ

-- `Handler` is what a handler's pointer stands for; `handle` is its virtual method, given by the
-- responses that it sends before it returns.
module _ (P : Platform) {Handler : Type 0} (handle : Handler → HttpRequest → List HttpResponse)
    (opts : HttpServerOptions) (router : Heap Handler) where
  open P use {
    Request, Response, verb, target, fields, request_body, clear_request_body, verb_get, verb_put,
    UrlView, parse_origin_form, url_segments, url_params, encoded_params, replace_all,
  }

  abbrev S : Type 0
  S = State Request Response

  abbrev pub clear_body : S → S
  clear_body s = record s {
    session = record (s.session) { request = clear_request_body s.session.request };
  }

  abbrev pub count_handled : S → S
  count_handled s = record s {
    statistics = record (s.statistics) {
      handle_request_cnt = u64_inc s.statistics.handle_request_cnt;
    };
  }

  -- The target that is parsed: a `GET` has each '|' replaced.
  unfoldable pub origin_target : Request → Bytes
  origin_target request =
      if verb request == verb_get && has_bar (target request)
      then replace_all (target request) (codes "|") (codes "%7C")
      else target request

  -- The three refusals answer so.
  unfoldable pub refuse : Bytes → S → S
  refuse message s = clear_body (
      write_response P opts (http_response bad_request message (codes "text/plain"))
        (count_handled s))

  -- What the handler is given.
  unfoldable pub make_request :
      (any : Moment) → UrlView → HttpSession Request Response → HttpRequest
  make_request any url session =
      let request = session.request in
      record (http_request any.garbage session.id session.current_request_id) {
        start_time = any.now;
        method = verb request;
        headers = put_all (fields request) [];
        segments = url_segments url;
        params =
            put_all (if opts.auto_decode_url_parameters then url_params url else encoded_params url)
              [];
        body = if ltb 0 (length (request_body request)) then request_body request else [];
      }

  -- The responses that the handler sends, in turn.
  unfoldable pub send_all : List HttpResponse → S → S
  send_all [] s = s
  send_all (rsp ∷ more) s = send_all more (write_response P opts rsp s)

  abbrev pub enter_handler : S → S
  enter_handler s = record s {
    statistics = record (s.statistics) {
      working_handler_cnt = u64_inc s.statistics.working_handler_cnt;
    };
  }

  abbrev pub leave_handler : S → S
  leave_handler s = record s {
    statistics = record (s.statistics) {
      working_handler_cnt = u64_dec s.statistics.working_handler_cnt;
    };
  }

  -- The body of `request_` is moved to the handler's request if there is one.
  unfoldable pub take_body : S → S
  take_body s = if ltb 0 (length (request_body s.session.request)) then clear_body s else s

  unfoldable pub call_handler : (any : Moment) → UrlView → Handler → S → S
  call_handler any url handler s =
      let request = make_request any url s.session in
      count_handled
        (leave_handler (send_all (handle handler request) (enter_handler (take_body s))))

  unfoldable pub process_request : (any : Moment) → S → Result S
  process_request any s = elim (parse_origin_form (origin_target s.session.request)) [
    | none ↦ ok (refuse (codes "url invalid") s)
    | some url ↦ do
      handler ← search_segments (url_segments url) router
      elim handler [
        | none ↦ ok (refuse (codes "current url not support") s)
        | some h ↦ ok (
            if ltb verb_put (verb s.session.request)
            then refuse (codes "current method not support") s
            else call_handler any url h s)
      ]
  ]

  unfoldable pub on_read : (any : Moment) → Option ErrorCode → S → Result S
  on_read any (some end_of_stream) s = ok (do_close P s)
  on_read any (some timeout) s =
      let st = s.statistics in
      ok (
        do_close P
          (record s { statistics = record st { read_timeout_cnt = u64_inc st.read_timeout_cnt } }))
  on_read any (some _) s =
      let st = s.statistics in
      ok (
        do_close P
          (record s { statistics = record st { read_fail_cnt = u64_inc st.read_fail_cnt } }))
  on_read any none s =
      let st = s.statistics in
      process_request any
        (record s { statistics = record st { read_success_cnt = u64_inc st.read_success_cnt } })
