-- ===== src/Session/Lines/Open.antt =====
-- src/http_session.cpp: what leaves a connection open.
use httpserver_cpp.Base.{
  ◌≡◌, refl, ◌∙◌, inl, inr, false, Bool-cases, Option-cases, List, [], ◌∷◌, ltb, Bytes, codes,
  arith,
}
use httpserver_cpp.Base.Result.{ok}
use httpserver_cpp.Types.{HttpServerOptions}
use httpserver_cpp.Request.{HttpRequest}
use httpserver_cpp.Response.{HttpResponse}
use httpserver_cpp.Router.{Heap}
use httpserver_cpp.Router.Shape.{IsTree}
use httpserver_cpp.Router.Search.{search_segments_total}
use httpserver_cpp.Platform.{Platform}
use httpserver_cpp.Session.{State, do_write, do_close, write_response}
use httpserver_cpp.Session.Process.{
  Moment, process_request, origin_target, refuse, call_handler, send_all, take_body,
}

module _ (P : Platform) {Handler : Type 0} (handle : Handler → HttpRequest → List HttpResponse)
    (opts : HttpServerOptions) (router : Heap Handler) where
  open P use {
    Request, Response, verb, verb_put, UrlView, parse_origin_form, url_segments, request_body,
  }

  abbrev S : Type 0
  S = State Request Response

  pub do_close_shut : (t : S) → (do_close P t).session.is_open ≡ false
  unfolding do_close
  do_close_shut t = ground arith

  send_all_open :
      (rsps : List HttpResponse) (s : S)
      → (send_all P handle opts router rsps s).session.is_open ≡ s.session.is_open
  unfolding send_all write_response do_write
  send_all_open [] s = refl
  send_all_open (rsp ∷ more) s = send_all_open more (write_response P opts rsp s)

  take_body_open : (s : S) → (take_body P handle opts router s).session.is_open ≡ s.session.is_open
  unfolding take_body
  take_body_open s = ground arith

  call_handler_open :
      (any : Moment) (url : UrlView) (h : Handler) (s : S)
      → (call_handler P handle opts router any url h s).session.is_open ≡ s.session.is_open
  unfolding call_handler
  call_handler_open any url h s = send_all_open _ _ ∙ take_body_open s

  refuse_open :
      (message : Bytes) (s : S)
      → (refuse P handle opts router message s).session.is_open ≡ s.session.is_open
  unfolding refuse write_response do_write
  refuse_open message s = refl

  module _ (tree : IsTree router) where
    pub process_request_open :
        (any : Moment) (s : S)
        → (s' : S) × (process_request P handle opts router any s ≡ ok s')
          × (s'.session.is_open ≡ s.session.is_open)
    unfolding process_request
    process_request_open any s =
        elim (Option-cases
          (parse_origin_form (origin_target P handle opts router s.session.request))) [
            | inl bad ↦ (
              refuse P handle opts router (codes "url invalid") s,
              rw (bad, process_request) refl,
              refuse_open (codes "url invalid") s,
            )
            | inr (url, good) ↦
                let (d?, found) = search_segments_total (url_segments url) router tree in
                elim (Option-cases d?) [
                  | inl nobody ↦ (
                    refuse P handle opts router (codes "current url not support") s,
                    rw (good, process_request) (rw (found, nobody) refl),
                    refuse_open (codes "current url not support") s,
                  )
                  | inr (h, somebody) ↦ elim (Bool-cases (ltb verb_put (verb s.session.request))) [
                    | inl above ↦ (
                      refuse P handle opts router (codes "current method not support") s,
                      rw (good, process_request) (rw (found, somebody) (rw above refl)),
                      refuse_open (codes "current method not support") s,
                    )
                    | inr within ↦ (
                      call_handler P handle opts router any url h s,
                      rw (good, process_request) (rw (found, somebody) (rw within refl)),
                      call_handler_open any url h s,
                    )
                  ]
                ]
          ]
