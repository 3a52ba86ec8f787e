-- ===== src/Session/Jobs/Cases.antt =====
-- src/http_session.cpp: what `processRequest` counts, on each branch.
use httpserver_cpp.Base.{
  ℕ, ◌≡◌, ◌⊎◌, refl, Bool-cases, List, ◌∷◌, Option, none, some, Option-cases, inl, inr, ltb,
}
use httpserver_cpp.Base.Result.{Result, ok, throws, fault}
use httpserver_cpp.Types.{HttpServerOptions}
use httpserver_cpp.Statistics.Count.{CounterOp}
use httpserver_cpp.Request.{HttpRequest}
use httpserver_cpp.Response.{HttpResponse}
use httpserver_cpp.Router.{Heap}
use httpserver_cpp.Platform.{Platform}
use httpserver_cpp.Session.Process.{origin_target}
use httpserver_cpp.Statistics.Count.{CounterOp, working_handler_inc, working_handler_dec}
use httpserver_cpp.Session.Jobs.{refusal_counts, found_counts, search_counts, request_counts}

abbrev pub called_counts : List CounterOp
called_counts = working_handler_inc ∷ working_handler_dec ∷ refusal_counts

abbrev pub Cases : List CounterOp → Type 0
Cases os = (os ≡ refusal_counts) ⊎ (os ≡ called_counts)

module _ (P : Platform) {Handler : Type 0} (handle : Handler → HttpRequest → List HttpResponse)
    (opts : HttpServerOptions) (router : Heap Handler) where
  open P use {Request, Response, verb, verb_put, UrlView, parse_origin_form, url_segments}

  found_counts-Cases :
      (handler : Option Handler) (method : ℕ)
      → Cases (found_counts P handle opts router handler method)
  unfolding found_counts
  found_counts-Cases none method = inl refl
  found_counts-Cases (some h) method = elim (Bool-cases (ltb verb_put method)) [
    | inl above ↦ rw above (inl refl)
    | inr within ↦ rw within (inr refl)
  ]

  search_counts-Cases :
      (found : Result (Option Handler)) (method : ℕ)
      → Cases (search_counts P handle opts router found method)
  unfolding search_counts
  search_counts-Cases (ok handler) method = found_counts-Cases handler method
  search_counts-Cases (throws e) method = inl refl
  search_counts-Cases fault method = inl refl

  -- A request is refused, or its handler is called.
  pub request_counts-Cases :
      (request : Request) → Cases (request_counts P handle opts router request)
  unfolding request_counts
  request_counts-Cases request =
      elim (Option-cases (parse_origin_form (origin_target P handle opts router request))) [
        | inl bad ↦ rw (bad, request_counts) (inl refl)
        | inr (url, good) ↦ rw (good, request_counts) (search_counts-Cases _ (verb request))
      ]
