-- ===== src/Session/Answer.antt =====
-- src/http_session.cpp: what `processRequest` does on every branch.
use httpserver_cpp.Base.{
  ◌<◌, ◌≤◌, ◌^◌, ◌≡◌, refl, ◌∙◌, ap, ◌⊎◌, inl, inr, Bool-cases, Option-cases, List, none, some, ltb,
  length, Bytes, codes, arith,
}
use httpserver_cpp.Base.Result.{ok}
use httpserver_cpp.Types.{HttpServerOptions, bad_request}
use httpserver_cpp.Request.{HttpRequest}
use httpserver_cpp.Response.{HttpResponse, http_response}
use httpserver_cpp.Router.{Heap, search_segments}
use httpserver_cpp.Router.Shape.{IsTree}
use httpserver_cpp.Router.Search.{search_segments_total}
use httpserver_cpp.Platform.{Platform}
use httpserver_cpp.Platform.Documented.{RequestLaws}
use httpserver_cpp.Session.{fill_response, State, write_response, do_write}
use httpserver_cpp.Session.Sends.{Answered, refuse-Answered, call_handler-Answered}
use httpserver_cpp.Session.Process.{
  Moment, origin_target, refuse, make_request, call_handler, process_request,
}

module _ (P : Platform) {Handler : Type 0} (handle : Handler → HttpRequest → List HttpResponse)
    (opts : HttpServerOptions) (router : Heap Handler) (laws : RequestLaws P) where
  open P use {
    Request, Response, verb, request_body, verb_put, UrlView, parse_origin_form, url_segments,
  }

  -- The request is for a handler: the target parses, the router has a handler for it, and the verb
  -- is one of `MethodType`.
  abbrev pub IsFor : Request → UrlView → Handler → Type 0
  IsFor request url h =
      (parse_origin_form (origin_target P handle opts router request) ≡ some url)
      × (search_segments (url_segments url) router ≡ ok (some h))
      × (verb request ≤ verb_put)

  -- Why a request is refused, and with which text.
  abbrev pub Reason : Request → Bytes → Type 0
  Reason request message =
      ((parse_origin_form (origin_target P handle opts router request) ≡ none)
        × (message ≡ codes "url invalid"))
      ⊎ (((url : UrlView) × (parse_origin_form (origin_target P handle opts router request)
              ≡ some url)
            × (search_segments (url_segments url) router ≡ ok none)
            × (message ≡ codes "current url not support"))
          ⊎ ((url : UrlView) × (h : Handler) × (parse_origin_form
                  (origin_target P handle opts router request)
                ≡ some url)
              × (search_segments (url_segments url) router ≡ ok (some h))
              × (verb_put < verb request)
              × (message ≡ codes "current method not support")))

  -- The handler is called, or the request is answered with a 400.
  abbrev pub Outcome : Moment → State Request Response → State Request Response → Type 0
  Outcome any s s' =
      ((url : UrlView) × (h : Handler) × IsFor s.session.request url h
        × Answered P opts (length (handle h (make_request P handle opts router any url s.session)))
            s s')
      ⊎ (((url : UrlView) (h : Handler) → ¬ IsFor s.session.request url h)
          × Answered P opts 1 s s'
          × (message : Bytes) × Reason s.session.request message
          × (s'.session.response
              ≡ fill_response P opts s.session.request
                  (http_response bad_request message (codes "text/plain")) s.session.response))

  refuse-response :
      (message : Bytes) (s : State Request Response)
      → (refuse P handle opts router message s).session.response
        ≡ fill_response P opts s.session.request
            (http_response bad_request message (codes "text/plain"))
            s.session.response
  unfolding refuse write_response do_write
  refuse-response message s = refl

  refused :
      (any : Moment) (message : Bytes) (s : State Request Response)
      → ((url : UrlView) (h : Handler) → ¬ IsFor s.session.request url h)
      → Reason s.session.request message
      → process_request P handle opts router any s ≡ ok (refuse P handle opts router message s)
      → (s' : State Request Response) × (process_request P handle opts router any s ≡ ok s')
        × Outcome any s s'
  refused any message s not_for reason run = (
    refuse P handle opts router message s,
    run,
    inr (
      not_for,
      refuse-Answered P handle opts router laws message s,
      message,
      reason,
      refuse-response message s,
    ),
  )

  -- On a router that is a tree, and with the count of working handlers below its limit,
  -- `processRequest` returns, and the request counts as handled. If the target parses, the router
  -- has a handler for it and the verb is at most `put`, then this handler is called and one write is
  -- started for each response that it sends before it returns; otherwise one write is started, and
  -- its response is made from a 400 whose text says which of the three failed. A write that is
  -- started has its timeout. The request's body is gone; the other counters, the connection and the
  -- numbers of the session and the request are kept.
  pub process_request-Outcome :
      (any : Moment) (s : State Request Response)
      → IsTree router
      → s.statistics.working_handler_cnt < 2 ^ 64
      → (s' : State Request Response) × (process_request P handle opts router any s ≡ ok s')
        × Outcome any s s'
  unfolding process_request
  process_request-Outcome any s t fits =
      elim (Option-cases
        (parse_origin_form (origin_target P handle opts router s.session.request))) [
          | inl bad ↦
              refused any (codes "url invalid") s (λ url h f. cc (f.0, bad)) (inl (bad, refl))
                (rw (bad, process_request))
          | inr (url, good) ↦
              let (d?, found) = search_segments_total (url_segments url) router t in
              elim (Option-cases d?) [
                | inl nobody ↦
                    let miss : search_segments (url_segments url) router ≡ ok none =
                      found ∙ ap ok nobody in
                    refused any (codes "current url not support") s
                      (λ url' h f. cc (f.0, f.1, good, miss)) (inr (inl (url, good, miss, refl)))
                      (rw (good, process_request) (rw miss))
                | inr (h, somebody) ↦
                    let hit : search_segments (url_segments url) router ≡ ok (some h) =
                      found ∙ ap ok somebody in
                    elim (Bool-cases (ltb verb_put (verb s.session.request))) [
                      | inl above ↦
                          refused any (codes "current method not support") s
                            (λ url' h' f. absurd (ground (arith, f.2)))
                            (inr (inr (url, h, good, hit, ground arith, refl)))
                            (rw (good, process_request) (rw hit (rw above)))
                      | inr within ↦ (
                        call_handler P handle opts router any url h s,
                        rw (good, process_request) (rw hit (rw within)),
                        inl (
                          url,
                          h,
                          (good, hit, ground arith),
                          call_handler-Answered P handle opts router laws any url h s fits,
                        ),
                      )
                    ]
              ]
        ]
