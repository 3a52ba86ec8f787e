-- ===== src/Session/Emptied.antt =====
-- src/http_session.cpp: what is left of a request when the next one is read.
use httpserver_cpp.Base.{
  ℕ, ◌<◌, ◌^◌, ◌≡◌, sym, ◌∙◌, subst, inl, inr, Bool, true, false, List, [], Option, none, some,
  arith,
}
use httpserver_cpp.Base.Result.{ok, ok_injective}
use httpserver_cpp.Types.{HttpServerOptions}
use httpserver_cpp.Statistics.{HttpStatisticsInternal}
use httpserver_cpp.Request.{HttpRequest}
use httpserver_cpp.Response.{HttpResponse}
use httpserver_cpp.Router.{Heap}
use httpserver_cpp.Router.Shape.{IsTree}
use httpserver_cpp.Platform.{Platform}
use httpserver_cpp.Platform.Documented.{RequestLaws, FreshLaws}
use httpserver_cpp.Session.{
  State, ErrorCode, end_of_stream, timeout, other_error, Operation, http_session, run, do_close,
  do_read, do_write, on_write, write_response,
}
use httpserver_cpp.Session.Process.{Moment, on_read, process_request}
use httpserver_cpp.Session.Answer.{process_request-Outcome}
use httpserver_cpp.Session.Lifecycle.{
  Config, completed, received, Step, read_done, write_done, send_later, Reach, here, next,
  IsSequential, SendsOnce, started,
}
use httpserver_cpp.Session.Sequential.{Reach-IsSequential, session-IsSequential}

module _ (P : Platform) {Handler : Type 0} (handle : Handler → HttpRequest → List HttpResponse)
    (opts : HttpServerOptions) (router : Heap Handler) where
  open P use {Request, Response, request_body}

  -- `request_` has no body, unless the connection is closed.
  abbrev pub IsEmptied : State Request Response → Type 0
  IsEmptied s = s.session.is_open ≡ true → request_body s.session.request ≡ []

  module _ (once : SendsOnce P handle opts router) (tree : IsTree router) (laws : RequestLaws P)
      (fresh : FreshLaws P) where
    processed-IsEmptied :
        (any : Moment) (s s' : State Request Response)
        → process_request P handle opts router any s ≡ ok s'
        → s.statistics.working_handler_cnt < 2 ^ 64
        → IsEmptied s'
    processed-IsEmptied any s s' went fits =
        let (t, run', outcome) =
          process_request-Outcome P handle opts router laws any s tree fits in
        let taken : request_body t.session.request ≡ [] = elim outcome [
          | inl (url, h, is_for, a) ↦ a.taken
          | inr (not_for, a, message, reason, refusal) ↦ a.taken
        ] in
        λ is_open.
          subst (λ q. request_body q.session.request ≡ []) (ok_injective (sym run' ∙ went)) taken

    read_done-IsEmptied :
        (any : Moment) (c : Config Request Response) (rest : List Operation) (ec : Option ErrorCode)
        (request : Request) (s : State Request Response)
        → on_read P handle opts router any ec
            (received P handle opts router request rest ec c.state)
          ≡ ok s
        → c.state.statistics.working_handler_cnt < 2 ^ 64
        → IsEmptied s
    unfolding on_read do_close
    read_done-IsEmptied any c rest (some end_of_stream) request s went fits =
        λ o. absurd (ground arith)
    read_done-IsEmptied any c rest (some timeout) request s went fits = λ o. absurd (ground arith)
    read_done-IsEmptied any c rest (some other_error) request s went fits =
        λ o. absurd (ground arith)
    read_done-IsEmptied any c rest none request s went fits = processed-IsEmptied any _ s went fits

    completed-IsEmptied :
        (s : State Request Response) (rest : List Operation) (ec : Option ErrorCode)
        → IsEmptied s
        → IsEmptied (completed P handle opts router rest ec s)
    completed-IsEmptied s rest none e = e
    completed-IsEmptied s rest (some end_of_stream) e = e
    completed-IsEmptied s rest (some timeout) e = λ o. cc
    completed-IsEmptied s rest (some other_error) e = e

    write_done-IsEmptied :
        (s : State Request Response) (ka : Bool) (ec : Option ErrorCode)
        → IsEmptied s
        → IsEmptied (on_write P opts ka ec s)
    unfolding on_write do_close do_read
    write_done-IsEmptied s true none i = i
    write_done-IsEmptied s false none i = λ o. absurd (ground arith)
    write_done-IsEmptied s ka (some timeout) i = λ o. absurd (ground arith)
    write_done-IsEmptied s ka (some _) i = λ o. absurd (ground arith)

    Step-IsEmptied :
        {c d : Config Request Response}
        → Step P handle opts router c d
        → IsSequential P handle opts router c
        → IsEmptied c.state
        → IsEmptied d.state
    unfolding write_response do_write
    Step-IsEmptied {c} (read_done any rest ec request s p went) i e =
        read_done-IsEmptied any c rest ec request s went i.fits
    Step-IsEmptied {c} (write_done rest ka ec p) i e =
        write_done-IsEmptied (completed P handle opts router rest ec c.state) ka ec
          (completed-IsEmptied c.state rest ec e)
    Step-IsEmptied {c} (send_later rsp p) i e = e

    Reach-IsEmptied :
        {c d : Config Request Response}
        → Reach P handle opts router c d
        → IsSequential P handle opts router c
        → IsEmptied c.state
        → IsEmptied d.state
    Reach-IsEmptied here i e = e
    Reach-IsEmptied (next r st) i e =
        Step-IsEmptied st (Reach-IsSequential P handle opts router once tree laws fresh r i)
          (Reach-IsEmptied r i e)

    -- Let each handler send at most one response before it returns, and one later if it sent none;
    -- let the router be a tree and the count of working handlers be below its limit at the start.
    -- Then a session that is started with an empty request has, after any steps, a request without a
    -- body for as long as its connection is open, so that each read starts with an empty body.
    pub session_emptied :
        (id : ℕ) (request : Request) (st : HttpStatisticsInternal) {c : Config Request Response}
        → st.working_handler_cnt < 2 ^ 64
        → request_body request ≡ []
        → Reach P handle opts router (started P handle opts router id request st) c
        → c.state.session.is_open ≡ true
        → request_body c.state.session.request ≡ []
    unfolding http_session run do_read
    session_emptied id request st fits bare r is_open =
        Reach-IsEmptied r
          (session-IsSequential P handle opts router once tree laws fresh id request st fits here)
          (λ o. bare) is_open
