-- ===== src/Session/Jobs/Served.antt =====
-- src/http_session.cpp: a handler of a session handles each request that it has read.
use httpserver_cpp.Base.{◌≡◌, List, ◌∷◌, none, some, inl, inr, arith}
use httpserver_cpp.Types.{HttpServerOptions}
use httpserver_cpp.Statistics.Count.{CounterOp, read_success_inc}
use httpserver_cpp.Statistics.Serving.{IsServing, handle_count, read_count}
use httpserver_cpp.Request.{HttpRequest}
use httpserver_cpp.Response.{HttpResponse}
use httpserver_cpp.Router.{Heap}
use httpserver_cpp.Platform.{Platform}
use httpserver_cpp.Session.{end_of_stream, timeout, other_error}
use httpserver_cpp.Session.Jobs.Cases.{request_counts-Cases}
use httpserver_cpp.Session.Jobs.{
  Job, accepted, was_read, was_written, answers, dropped, request_counts, counts,
}

module _ (P : Platform) {Handler : Type 0} (handle : Handler → HttpRequest → List HttpResponse)
    (opts : HttpServerOptions) (router : Heap Handler) where
  open P use {Request, Response, verb, verb_put, UrlView, parse_origin_form, url_segments}

  -- All requests that are read are handled, each after the handler has returned.
  abbrev pub Serves : List CounterOp → Type 0
  Serves os = IsServing os × (handle_count os ≡ read_count os)

  read-Serves :
      (request : Request) → Serves (read_success_inc ∷ request_counts P handle opts router request)
  read-Serves request = elim (request_counts-Cases P handle opts router request) [
    | inl refused ↦ rw refused (omega arith)
    | inr called ↦ rw called (omega arith)
  ]

  pub counts-Serves : (j : Job Request Response) → Serves (counts P handle opts router j)
  unfolding counts
  counts-Serves (accepted id request) = omega arith
  counts-Serves (was_read any none s) = read-Serves s.request
  counts-Serves (was_read any (some end_of_stream) s) = omega arith
  counts-Serves (was_read any (some timeout) s) = omega arith
  counts-Serves (was_read any (some other_error) s) = omega arith
  counts-Serves (was_written ka none s) = omega arith
  counts-Serves (was_written ka (some timeout) s) = omega arith
  counts-Serves (was_written ka (some end_of_stream) s) = omega arith
  counts-Serves (was_written ka (some other_error) s) = omega arith
  counts-Serves (answers rsp s) = omega arith
  counts-Serves (dropped s) = omega arith
