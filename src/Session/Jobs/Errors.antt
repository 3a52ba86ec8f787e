-- ===== src/Session/Jobs/Errors.antt =====
-- src/http_session.cpp: the errors that a session logs, and what it counts.
use httpserver_cpp.Base.{
  ◌≡◌, true, false, Bool-cases, List, [], ◌∷◌, none, some, Option-cases, inl, inr, ltb, arith,
}
use httpserver_cpp.Types.{HttpServerOptions}
use httpserver_cpp.Statistics.{HttpStatisticsInternal}
use httpserver_cpp.Statistics.Count.{CounterOp, count, count_all}
use httpserver_cpp.Request.{HttpRequest}
use httpserver_cpp.Response.{HttpResponse}
use httpserver_cpp.Router.{Heap}
use httpserver_cpp.Router.Shape.{IsTree}
use httpserver_cpp.Router.Search.{search_segments_total}
use httpserver_cpp.Platform.{Platform}
use httpserver_cpp.Session.{HttpSession, end_of_stream, timeout, other_error}
use httpserver_cpp.Session.Process.{origin_target}
use httpserver_cpp.Session.Jobs.{
  Job, accepted, was_read, was_written, answers, dropped, found_counts, search_counts,
  request_counts, counts,
}
use httpserver_cpp.Base.{ℕ, ◌+◌, ◌<◌, ◌^◌, length}
use httpserver_cpp.Statistics.Count.{write_timeout_inc, write_fail_inc}
use httpserver_cpp.Statistics.Working.{enter_count}
use httpserver_cpp.Statistics.Serving.{handle_count}
use httpserver_cpp.Session.Lines.{
  Line, Reports, write_timed_out, write_failed, url_invalid, handler_not_found,
  method_not_supported, found_lines, process_request_lines, do_close_lines, on_read_lines,
  on_write_lines, http_session_lines, destroy_lines, job_lines,
}

-- The writes that time out or fail.
abbrev failures : CounterOp → ℕ
failures write_timeout_inc = 1
failures write_fail_inc = 1
failures _ = 0

abbrev pub failure_count : List CounterOp → ℕ
failure_count [] = 0
failure_count (o ∷ os) = failures o + failure_count os

abbrev errors : Line → ℕ
errors (write_timed_out id n) = 1
errors (write_failed id n why) = 1
errors (url_invalid id n why) = 1
errors (handler_not_found id n) = 1
errors (method_not_supported id n) = 1
errors _ = 0

-- The lines of `LOG_LOGGER_ERROR`.
abbrev pub error_count : List Line → ℕ
error_count [] = 0
error_count (l ∷ lines) = errors l + error_count lines

pub failures_counted :
    (os : List CounterOp) (st : HttpStatisticsInternal)
    → st.write_timeout_cnt + length os < 2 ^ 64
    → st.write_fail_cnt + length os < 2 ^ 64
    → (count_all os st).write_timeout_cnt + (count_all os st).write_fail_cnt
      ≡ st.write_timeout_cnt + st.write_fail_cnt + failure_count os
unfolding count_all count
failures_counted [] st h k = omega arith
failures_counted (write_timeout_inc ∷ os) st h k =
    omega (arith, failures_counted os (count write_timeout_inc st) (omega arith) (omega arith))
failures_counted (write_fail_inc ∷ os) st h k =
    omega (arith, failures_counted os (count write_fail_inc st) (omega arith) (omega arith))
failures_counted (o ∷ os) st h k =
    omega (arith, failures_counted os (count o st) (omega arith) (omega arith))

module _ (P : Platform) {Handler : Type 0} (handle : Handler → HttpRequest → List HttpResponse)
    (opts : HttpServerOptions) (router : Heap Handler) (R : Reports) (tree : IsTree router) where
  open P use {Request, Response, verb, verb_put, UrlView, parse_origin_form, url_segments}

  -- As many errors and entered handlers as handled requests and failed writes.
  abbrev pub Tallies : List Line → List CounterOp → Type 0
  Tallies lines os = error_count lines + enter_count os ≡ handle_count os + failure_count os

  request-Tallies :
      (s : HttpSession Request Response)
      → Tallies
          (process_request_lines P handle opts router R s)
          (request_counts P handle opts router s.request)
  unfolding process_request_lines found_lines request_counts search_counts found_counts
  request-Tallies s =
      elim (Option-cases (parse_origin_form (origin_target P handle opts router s.request))) [
        | inl bad ↦ rw (bad, process_request_lines, request_counts) (omega arith)
        | inr (url, good) ↦
            let (d?, found) = search_segments_total (url_segments url) router tree in
            elim (Option-cases d?) [
              | inl nobody ↦
                  rw (good, process_request_lines, request_counts)
                    (rw (found, nobody) (omega arith))
              | inr (h, somebody) ↦ elim (Bool-cases (ltb verb_put (verb s.request))) [
                | inl above ↦
                    rw (good, process_request_lines, request_counts)
                      (rw (found, somebody) (rw (above, found_lines) (omega arith)))
                | inr within ↦
                    rw (good, process_request_lines, request_counts)
                      (rw (found, somebody) (rw (within, found_lines) (omega arith)))
              ]
            ]
      ]

  closing_plain :
      (s : HttpSession Request Response) → error_count (do_close_lines P handle opts router R s) ≡ 0
  unfolding do_close_lines
  closing_plain s = ground arith

  pub job-Tallies :
      (j : Job Request Response)
      → Tallies (job_lines P handle opts router R j) (counts P handle opts router j)
  unfolding job_lines counts http_session_lines destroy_lines on_read_lines on_write_lines
      do_close_lines
  job-Tallies (accepted id request) = ground arith
  job-Tallies (was_read any none s) = omega (arith, request-Tallies s)
  job-Tallies (was_read any (some end_of_stream) s) = omega (arith, closing_plain s)
  job-Tallies (was_read any (some timeout) s) = omega (arith, closing_plain s)
  job-Tallies (was_read any (some other_error) s) = omega (arith, closing_plain s)
  job-Tallies (was_written true none s) = omega (arith, closing_plain s)
  job-Tallies (was_written false none s) = omega (arith, closing_plain s)
  job-Tallies (was_written true (some timeout) s) = omega (arith, closing_plain s)
  job-Tallies (was_written true (some end_of_stream) s) = omega (arith, closing_plain s)
  job-Tallies (was_written true (some other_error) s) = omega (arith, closing_plain s)
  job-Tallies (was_written false (some timeout) s) = omega (arith, closing_plain s)
  job-Tallies (was_written false (some end_of_stream) s) = omega (arith, closing_plain s)
  job-Tallies (was_written false (some other_error) s) = omega (arith, closing_plain s)
  job-Tallies (answers rsp s) = omega arith
  job-Tallies (dropped s) = ground arith
