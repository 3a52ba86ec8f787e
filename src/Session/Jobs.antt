-- ===== src/Session/Jobs.antt =====
-- src/http_session.cpp: the handlers that the threads of the context run, and what each counts.
pub mod Cases
pub mod Orderly
pub mod Served
pub mod Errors
pub mod Counting
use httpserver_cpp.Base.{
  ℕ, ◌≡◌, refl, ◌∙◌, ap, Bool, true, false, Bool-cases, List, [], ◌∷◌, Option, none, some,
  Option-cases, inl, inr, ltb, if◌then◌else◌, Bytes, codes, arith,
}
use httpserver_cpp.Base.Result.{Result, ok, throws, fault}
use httpserver_cpp.Types.{HttpServerOptions}
use httpserver_cpp.Statistics.{HttpStatisticsInternal, zero_statistics}
use httpserver_cpp.Statistics.Count.{
  CounterOp, session_inc, session_dec, read_timeout_inc, read_success_inc, read_fail_inc,
  write_timeout_inc, write_success_inc, write_fail_inc, handle_request_inc, working_handler_inc,
  working_handler_dec, count, count_all,
}
use httpserver_cpp.Statistics.Working.{IsNested, inside, IsNested-bounds}
use httpserver_cpp.Request.{HttpRequest}
use httpserver_cpp.Response.{HttpResponse}
use httpserver_cpp.Router.{Heap, search_segments}
use httpserver_cpp.Router.Shape.{IsTree}
use httpserver_cpp.Router.Search.{search_segments_total}
use httpserver_cpp.Platform.{Platform}
use httpserver_cpp.Session.{
  HttpSession, State, ErrorCode, end_of_stream, timeout, other_error, http_session, destroy, run,
  do_read, do_write, on_write, write_response, do_close,
}
use httpserver_cpp.Session.Process.{
  Moment, on_read, process_request, origin_target, make_request, refuse, call_handler, send_all,
  count_handled, leave_handler, enter_handler, take_body,
}

-- What a thread runs: the handler of an accepted connection, the completion handler of a read or a
-- write with the session it belongs to, a response that is sent, a session's destruction.
pub data Job (Request Response : Type 0) : Type 0 where
  accepted : ℕ → Request → Job Request Response
  was_read : Moment → Option ErrorCode → HttpSession Request Response → Job Request Response
  was_written : Bool → Option ErrorCode → HttpSession Request Response → Job Request Response
  answers : HttpResponse → HttpSession Request Response → Job Request Response
  dropped : HttpSession Request Response → Job Request Response

abbrev pub refusal_counts : List CounterOp
refusal_counts = handle_request_inc ∷ []

module _ (P : Platform) {Handler : Type 0} (handle : Handler → HttpRequest → List HttpResponse)
    (opts : HttpServerOptions) (router : Heap Handler) where
  open P use {Request, Response, verb, verb_put, UrlView, parse_origin_form, url_segments}

  abbrev S : Type 0
  S = State Request Response

  abbrev with_counters : HttpStatisticsInternal → HttpSession Request Response → S
  with_counters st s = record { statistics = st; session = s }

  unfoldable pub perform : Job Request Response → HttpStatisticsInternal → Result S
  perform (accepted id request) st = ok (run P opts (http_session P id request st))
  perform (was_read any ec s) st = on_read P handle opts router any ec (with_counters st s)
  perform (was_written ka ec s) st = ok (on_write P opts ka ec (with_counters st s))
  perform (answers rsp s) st = ok (write_response P opts rsp (with_counters st s))
  perform (dropped s) st = ok (destroy P (with_counters st s))

  found_counts : Option Handler → ℕ → List CounterOp
  found_counts none method = refusal_counts
  found_counts (some h) method =
      if ltb verb_put method
      then refusal_counts
      else working_handler_inc ∷ working_handler_dec ∷ refusal_counts

  search_counts : Result (Option Handler) → ℕ → List CounterOp
  unfolding found_counts
  search_counts (ok handler) method = found_counts handler method
  search_counts _ method = refusal_counts

  pub request_counts : Request → List CounterOp
  unfolding search_counts
  request_counts request = elim (parse_origin_form (origin_target P handle opts router request)) [
    | none ↦ refusal_counts
    | some url ↦ search_counts (search_segments (url_segments url) router) (verb request)
  ]

  -- The operations on the counters that a job makes, in this order.
  unfoldable pub counts : Job Request Response → List CounterOp
  unfolding request_counts
  counts (accepted id request) = session_inc ∷ []
  counts (was_read any none s) = read_success_inc ∷ request_counts s.request
  counts (was_read any (some end_of_stream) s) = []
  counts (was_read any (some timeout) s) = read_timeout_inc ∷ []
  counts (was_read any (some other_error) s) = read_fail_inc ∷ []
  counts (was_written ka none s) = write_success_inc ∷ []
  counts (was_written ka (some timeout) s) = write_timeout_inc ∷ []
  counts (was_written ka (some _) s) = write_fail_inc ∷ []
  counts (answers rsp s) = []
  counts (dropped s) = session_dec ∷ []
