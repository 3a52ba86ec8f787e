-- ===== src/Session/Jobs/Counting.antt =====
-- src/http_session.cpp: the handlers of a session count as `counts` says, and read no counter.
use httpserver_cpp.Base.{
  ◌≡◌, refl, ◌∙◌, ap, Bool, true, false, Bool-cases, List, [], ◌∷◌, Option, none, some,
  Option-cases, inl, inr, ltb, Bytes, codes, arith,
}
use httpserver_cpp.Base.Result.{Result, ok}
use httpserver_cpp.Types.{HttpServerOptions}
use httpserver_cpp.Statistics.{HttpStatisticsInternal, zero_statistics}
use httpserver_cpp.Statistics.Count.{
  CounterOp, read_success_inc, working_handler_inc, working_handler_dec, count, count_all,
}
use httpserver_cpp.Request.{HttpRequest}
use httpserver_cpp.Response.{HttpResponse}
use httpserver_cpp.Router.{Heap}
use httpserver_cpp.Router.Shape.{IsTree}
use httpserver_cpp.Router.Search.{search_segments_total}
use httpserver_cpp.Platform.{Platform}
use httpserver_cpp.Session.{
  HttpSession, State, ErrorCode, end_of_stream, timeout, other_error, http_session, destroy, run,
  do_read, do_write, on_write, write_response, do_close,
}
use httpserver_cpp.Session.Process.{
  Moment, on_read, process_request, origin_target, make_request, refuse, call_handler, send_all,
  count_handled, leave_handler, enter_handler, take_body,
}
use httpserver_cpp.Session.Jobs.{
  Job, accepted, was_read, was_written, answers, dropped, with_counters, perform, refusal_counts,
  found_counts, search_counts, request_counts, counts,
}

module _ (P : Platform) {Handler : Type 0} (handle : Handler → HttpRequest → List HttpResponse)
    (opts : HttpServerOptions) (router : Heap Handler) where
  open P use {Request, Response, verb, verb_put, UrlView, parse_origin_form, url_segments}

  abbrev S : Type 0
  S = State Request Response

  -- The code does these operations, and goes on as it does whatever the counters are.
  abbrev pub Counting : List CounterOp → (HttpStatisticsInternal → Result S) → Type 0
  Counting os f =
      (s : HttpSession Request Response) × ((st : HttpStatisticsInternal)
        → f st ≡ ok (with_counters P handle opts router (count_all os st) s))

  send_all_apart :
      (rsps : List HttpResponse) (s : HttpSession Request Response) (st : HttpStatisticsInternal)
      → send_all P handle opts router rsps (with_counters P handle opts router st s)
        ≡ with_counters P handle opts router st
            (send_all P handle opts router rsps
              (with_counters P handle opts router zero_statistics s)).session
  unfolding send_all write_response do_write
  send_all_apart [] s st = refl
  send_all_apart (rsp ∷ more) s st = send_all_apart more _ st

  take_body_apart :
      (s : HttpSession Request Response) (st : HttpStatisticsInternal)
      → take_body P handle opts router (with_counters P handle opts router st s)
        ≡ with_counters P handle opts router st
            (take_body P handle opts router
              (with_counters P handle opts router zero_statistics s)).session
  unfolding take_body
  take_body_apart s st = ground arith

  refuse-Counting :
      (message : Bytes) (s : HttpSession Request Response)
      → Counting refusal_counts
          (λ st. ok (refuse P handle opts router message (with_counters P handle opts router st s)))
  unfolding refuse write_response do_write count_all count
  refuse-Counting message s = (
    (refuse P handle opts router message
        (with_counters P handle opts router zero_statistics s)).session,
    λ st. refl,
  )

  call_handler-Counting :
      (any : Moment) (url : UrlView) (h : Handler) (s : HttpSession Request Response)
      → Counting (working_handler_inc ∷ working_handler_dec ∷ refusal_counts) (λ st.
        ok (call_handler P handle opts router any url h (with_counters P handle opts router st s)))
  unfolding call_handler count_all count
  call_handler-Counting any url h s =
      let rsps = handle h (make_request P handle opts router any url s) in
      let taken =
        (take_body P handle opts router
          (with_counters P handle opts router zero_statistics s)).session in
      (
        (send_all P handle opts router rsps
            (with_counters P handle opts router zero_statistics taken)).session,
        λ st.
            ap
              (λ t. ok (
                count_handled P handle opts router (
                  leave_handler P handle opts router
                    (send_all P handle opts router rsps (enter_handler P handle opts router t)))))
              (take_body_apart s st)
            ∙ ap
                (λ t.
                  ok (count_handled P handle opts router (leave_handler P handle opts router t)))
                (send_all_apart rsps taken (count working_handler_inc st)),
      )

  process_request-Counting :
      (any : Moment) (s : HttpSession Request Response)
      → IsTree router
      → Counting
          (request_counts P handle opts router s.request)
          (λ st. process_request P handle opts router any (with_counters P handle opts router st s))
  unfolding process_request request_counts search_counts found_counts
  process_request-Counting any s tree =
      elim (Option-cases (parse_origin_form (origin_target P handle opts router s.request))) [
        | inl bad ↦
            let (s', run') = refuse-Counting (codes "url invalid") s in
            (s', λ st. rw (bad, process_request, request_counts) (run' st))
        | inr (url, good) ↦
            let (d?, found) = search_segments_total (url_segments url) router tree in
            elim (Option-cases d?) [
              | inl nobody ↦
                  let (s', run') = refuse-Counting (codes "current url not support") s in
                  (
                    s',
                    λ st. rw (good, process_request, request_counts) (rw (found, nobody) (run' st)),
                  )
              | inr (h, somebody) ↦ elim (Bool-cases (ltb verb_put (verb s.request))) [
                | inl above ↦
                    let (s', run') = refuse-Counting (codes "current method not support") s in
                    (
                      s',
                      λ st.
                          rw (good, process_request, request_counts)
                            (rw (found, somebody) (rw above (run' st))),
                    )
                | inr within ↦
                    let (s', run') = call_handler-Counting any url h s in
                    (
                      s',
                      λ st.
                          rw (good, process_request, request_counts)
                            (rw (found, somebody) (rw within (run' st))),
                    )
              ]
            ]
      ]

  on_write-Counting :
      (ka : Bool) (ec : Option ErrorCode) (s : HttpSession Request Response)
      → Counting
          (counts P handle opts router (was_written ka ec s))
          (perform P handle opts router (was_written ka ec s))
  unfolding perform counts on_write do_read do_close count_all count
  on_write-Counting true none s = (
    (on_write P opts true none (with_counters P handle opts router zero_statistics s)).session,
    λ st. refl,
  )
  on_write-Counting false none s = (
    (on_write P opts false none (with_counters P handle opts router zero_statistics s)).session,
    λ st. refl,
  )
  on_write-Counting ka (some timeout) s = (
    (on_write P opts ka (some timeout)
        (with_counters P handle opts router zero_statistics s)).session,
    λ st. refl,
  )
  on_write-Counting ka (some end_of_stream) s = (
    (on_write P opts ka (some end_of_stream)
        (with_counters P handle opts router zero_statistics s)).session,
    λ st. refl,
  )
  on_write-Counting ka (some other_error) s = (
    (on_write P opts ka (some other_error)
        (with_counters P handle opts router zero_statistics s)).session,
    λ st. refl,
  )

  closed : HttpSession Request Response → HttpSession Request Response
  closed s = (do_close P (with_counters P handle opts router zero_statistics s)).session

  -- What each job does.
  pub perform-Counting :
      (j : Job Request Response)
      → IsTree router
      → Counting (counts P handle opts router j) (perform P handle opts router j)
  unfolding perform counts on_read do_close closed run do_read http_session write_response do_write
      destroy count_all count
  perform-Counting (accepted id request) tree =
      ((run P opts (http_session P id request zero_statistics)).session, λ st. refl)
  perform-Counting (was_read any none s) tree =
      let (s', run') = process_request-Counting any s tree in
      (s', λ st. run' (count read_success_inc st))
  perform-Counting (was_read any (some end_of_stream) s) tree = (closed s, λ st. refl)
  perform-Counting (was_read any (some timeout) s) tree = (closed s, λ st. refl)
  perform-Counting (was_read any (some other_error) s) tree = (closed s, λ st. refl)
  perform-Counting (was_written ka ec s) tree = on_write-Counting ka ec s
  perform-Counting (answers rsp s) tree = (
    (write_response P opts rsp (with_counters P handle opts router zero_statistics s)).session,
    λ st. refl,
  )
  perform-Counting (dropped s) tree = (closed s, λ st. refl)
