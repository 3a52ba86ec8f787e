-- ===== src/Session/Jobs/Orderly.antt =====
-- src/http_session.cpp: a handler of a session enters and leaves the handlers of requests in turn.
use httpserver_cpp.Base.{◌≡◌, List, ◌∷◌, none, some, inl, inr, arith}
use httpserver_cpp.Types.{HttpServerOptions}
use httpserver_cpp.Statistics.Count.{CounterOp, read_success_inc}
use httpserver_cpp.Statistics.Working.{IsNested, inside, IsNested-bounds}
use httpserver_cpp.Request.{HttpRequest}
use httpserver_cpp.Response.{HttpResponse}
use httpserver_cpp.Router.{Heap}
use httpserver_cpp.Platform.{Platform}
use httpserver_cpp.Session.{end_of_stream, timeout, other_error}
use httpserver_cpp.Session.Jobs.Cases.{request_counts-Cases}
use httpserver_cpp.Session.Jobs.{
  Job, accepted, was_read, was_written, answers, dropped, request_counts, counts,
}

module _ (P : Platform) {Handler : Type 0} (handle : Handler → HttpRequest → List HttpResponse)
    (opts : HttpServerOptions) (router : Heap Handler) where
  open P use {Request, Response, verb, verb_put, UrlView, parse_origin_form, url_segments}

  -- Each handler that is entered is left.
  abbrev pub IsOrderly : List CounterOp → Type 0
  IsOrderly os = IsNested os × (inside os ≡ 0)

  request_counts-IsOrderly :
      (request : Request) → IsOrderly (request_counts P handle opts router request)
  request_counts-IsOrderly request = elim (request_counts-Cases P handle opts router request) [
    | inl refused ↦ rw refused (omega arith)
    | inr called ↦ rw called (omega arith)
  ]

  after_read : (os : List CounterOp) → IsOrderly os → IsOrderly (read_success_inc ∷ os)
  after_read os i =
      let (enough, one) = IsNested-bounds os i.0 in ((omega arith, omega arith, i.0), omega arith)

  pub counts-IsOrderly : (j : Job Request Response) → IsOrderly (counts P handle opts router j)
  unfolding counts
  counts-IsOrderly (accepted id request) = omega arith
  counts-IsOrderly (was_read any none s) =
      after_read (request_counts P handle opts router s.request)
        (request_counts-IsOrderly s.request)
  counts-IsOrderly (was_read any (some end_of_stream) s) = omega arith
  counts-IsOrderly (was_read any (some timeout) s) = omega arith
  counts-IsOrderly (was_read any (some other_error) s) = omega arith
  counts-IsOrderly (was_written ka none s) = omega arith
  counts-IsOrderly (was_written ka (some timeout) s) = omega arith
  counts-IsOrderly (was_written ka (some end_of_stream) s) = omega arith
  counts-IsOrderly (was_written ka (some other_error) s) = omega arith
  counts-IsOrderly (answers rsp s) = omega arith
  counts-IsOrderly (dropped s) = omega arith
