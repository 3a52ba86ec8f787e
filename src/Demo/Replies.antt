-- ===== src/Demo/Replies.antt =====
-- demo/main.cpp: the answer of the demo's server to any request.
use httpserver_cpp.Base.{
  ℕ, ◌≡◌, refl, ap, ◌⊎◌, inl, inr, true, Bool-cases, Option-cases, [], ◌∷◌, none, some, ltb,
  if◌then◌else◌, length, Bytes, codes,
}
use httpserver_cpp.Base.Result.{ok}
use httpserver_cpp.Types.{bad_request, ok_status}
use httpserver_cpp.Response.{HttpResponse, http_response}
use httpserver_cpp.Log.{info, Spdlog, Log, set_log_level}
use httpserver_cpp.Platform.{Platform}
use httpserver_cpp.Session.{HttpSession, State, writing, write_response, do_write, fill_response}
use httpserver_cpp.Session.Process.{
  Moment, origin_target, make_request, process_request, refuse, call_handler, send_all, take_body,
}
use httpserver_cpp.Server.{HttpServerImpl, Network, http_server_impl}
use httpserver_cpp.Server.Control.{IsClear, running}
use httpserver_cpp.Demo.{HelloHandler, hello_handler, hello, hello_body, server_opts, main}
use httpserver_cpp.Demo.Hello.{hello_router, hello_found, search_hello, hello_server, main_lem}

module _ (P : Platform) where
  open P use {
    Request, Response, verb, verb_put, keep_alive, request_body, clear_request_body, UrlView,
    parse_origin_form, url_segments, segments_view,
  }

  abbrev S : Type 0
  S = State Request Response

  -- A text with a 400.
  abbrev pub refusal : Bytes → HttpResponse
  refusal message = http_response bad_request message (codes "text/plain")

  abbrev pub method_reply : Moment → UrlView → HttpSession Request Response → HttpResponse
  method_reply any url s =
      if ltb verb_put (verb s.request)
      then refusal (codes "current method not support")
      else http_response ok_status
          (hello_body (make_request P hello server_opts hello_router any url s))
          (codes "text/plain")

  abbrev pub url_reply : Moment → UrlView → HttpSession Request Response → HttpResponse
  url_reply any url s = elim (hello_found (url_segments url)) [
    | none ↦ refusal (codes "current url not support")
    | some h ↦ method_reply any url s
  ]

  -- What the demo answers: the handler's text under `/hello`, up to the method `PUT`, and else a 400.
  abbrev pub demo_reply : Moment → HttpSession Request Response → HttpResponse
  demo_reply any s =
      elim (parse_origin_form (origin_target P hello server_opts hello_router s.request)) [
        | none ↦ refusal (codes "url invalid")
        | some url ↦ url_reply any url s
      ]

  -- The response is filled in for the request, with or without its body, and written.
  abbrev pub Replies : HttpResponse → S → S → Type 0
  Replies rsp s s' =
      (s'.session.pending ≡ writing (keep_alive s'.session.response) ∷ s.session.pending)
      × (q : Request) × ((q ≡ s.session.request) ⊎ (q ≡ clear_request_body s.session.request))
      × (s'.session.response ≡ fill_response P server_opts q rsp s.session.response)

  refuse-Replies :
      (message : Bytes) (s : S)
      → Replies (refusal message) s (refuse P hello server_opts hello_router message s)
  unfolding refuse write_response do_write
  refuse-Replies message s = (refl, s.session.request, inl refl, refl)

  taken_request :
      (s : S)
      → ((take_body P hello server_opts hello_router s).session.request ≡ s.session.request)
        ⊎ ((take_body P hello server_opts hello_router s).session.request
            ≡ clear_request_body s.session.request)
  unfolding take_body
  taken_request s = elim (Bool-cases (ltb 0 (length (request_body s.session.request)))) [
    | inl full ↦ rw full (inr refl)
    | inr bare ↦ rw bare (inl refl)
  ]

  taken_kept :
      (s : S)
      → ((take_body P hello server_opts hello_router s).session.pending ≡ s.session.pending)
        × ((take_body P hello server_opts hello_router s).session.response ≡ s.session.response)
  unfolding take_body
  taken_kept s = elim (Bool-cases (ltb 0 (length (request_body s.session.request)))) [
    | inl full ↦ rw full (refl, refl)
    | inr bare ↦ rw bare (refl, refl)
  ]

  abbrev hello_reply : Moment → UrlView → HttpSession Request Response → HttpResponse
  hello_reply any url s =
      http_response ok_status (hello_body (make_request P hello server_opts hello_router any url s))
        (codes "text/plain")

  hello-Replies :
      (any : Moment) (url : UrlView) (s : S)
      → Replies
          (hello_reply any url s.session)
          s
          (call_handler P hello server_opts hello_router any url hello_handler s)
  unfolding call_handler send_all write_response do_write hello
  hello-Replies any url s =
      let q = (take_body P hello server_opts hello_router s).session.request in
      let (pending, response) = taken_kept s in
      (
        ap
            (λ l.
              writing (
                keep_alive
                  (call_handler P hello server_opts hello_router any url hello_handler
                    s).session.response)
              ∷ l)
            pending,
        q,
        taken_request s,
        ap (fill_response P server_opts q (hello_reply any url s.session)) response,
      )

  process_request-Replies :
      (any : Moment) (s : S)
      → (s' : S) × (process_request P hello server_opts hello_router any s ≡ ok s')
        × Replies (demo_reply any s.session) s s'
  unfolding process_request
  process_request-Replies any s =
      elim (Option-cases
        (parse_origin_form (origin_target P hello server_opts hello_router s.session.request))) [
          | inl bad ↦ (
            refuse P hello server_opts hello_router (codes "url invalid") s,
            rw (bad, process_request) refl,
            rw (bad, demo_reply) (refuse-Replies (codes "url invalid") s),
          )
          | inr (url, good) ↦ elim (Option-cases (hello_found (url_segments url))) [
            | inl nobody ↦ (
              refuse P hello server_opts hello_router (codes "current url not support") s,
              rw (good, process_request) (rw (search_hello (url_segments url), nobody) refl),
              rw (good, demo_reply)
                  (rw (nobody, url_reply) (refuse-Replies (codes "current url not support") s)),
            )
            | inr (hello_handler, somebody) ↦
                elim (Bool-cases (ltb verb_put (verb s.session.request))) [
                  | inl above ↦ (
                    refuse P hello server_opts hello_router (codes "current method not support") s,
                    rw (good, process_request)
                        (rw (search_hello (url_segments url), somebody) (rw above refl)),
                    rw (good, demo_reply)
                        (rw (somebody, url_reply)
                          (rw above (refuse-Replies (codes "current method not support") s))),
                  )
                  | inr within ↦ (
                    call_handler P hello server_opts hello_router any url hello_handler s,
                    rw (good, process_request)
                        (rw (search_hello (url_segments url), somebody) (rw within refl)),
                    rw (good, demo_reply)
                        (rw (somebody, url_reply) (rw within (hello-Replies any url s))),
                  )
                ]
          ]
        ]

  -- Let Boost.URL parse "/hello" as its one segment, and let the network have no error. Then `main`
  -- sets the level of the log, and its server listens. A request that its sessions read is answered
  -- with one response: under `/hello`, up to the method `PUT`, a 200 with the text of the handler,
  -- and otherwise a 400 that says whether the target, the path or the method is at fault. The
  -- response is filled in for the request, and its write is started.
  pub demo-Replies :
      (L : Spdlog) (last_id : ℕ) (net : Network) (log : Log L.Logger) (any : Moment) (s : S)
      → segments_view (codes "/hello") ≡ some (codes "hello" ∷ [])
      → IsClear net server_opts
      → (t : HttpServerImpl HelloHandler) × (main L segments_view last_id net log
          ≡ (set_log_level L info log, ok (record { server_impl = some t }, none)))
        × (t.is_open ≡ true)
        × (s' : S) × (process_request P hello t.opts t.router any s ≡ ok s')
        × Replies (demo_reply any s.session) s s'
  unfolding running http_server_impl
  demo-Replies L last_id net log any s parsed clear =
      let (s', went, replies) = process_request-Replies any s in
      (
        hello_server last_id,
        main_lem L segments_view last_id net log parsed clear,
        refl,
        s',
        went,
        replies,
      )
