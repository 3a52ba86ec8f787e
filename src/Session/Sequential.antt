-- ===== src/Session/Sequential.antt =====
-- src/http_session.cpp: a session does one thing at a time, and is never stuck.
use httpserver_cpp.Base.{
  ℕ, subst, ◌<◌, ◌≤◌, ◌^◌, ◌≡◌, sym, ap, ◌∙◌, inl, inr, Bool, true, false, List, [], ◌∷◌, Option,
  none, some, arith,
}
use httpserver_cpp.Base.Result.{ok, ok_injective}
use httpserver_cpp.Types.{HttpServerOptions}
use httpserver_cpp.Statistics.{HttpStatisticsInternal}
use httpserver_cpp.Request.{HttpRequest}
use httpserver_cpp.Response.{HttpResponse}
use httpserver_cpp.Router.{Heap}
use httpserver_cpp.Router.Shape.{IsTree}
use httpserver_cpp.Platform.{Platform}
use httpserver_cpp.Platform.Documented.{RequestLaws, FreshLaws, IsFresh}
use httpserver_cpp.Session.{
  State, ErrorCode, Operation, reading, writing, end_of_stream, timeout, other_error, http_session,
  run, do_close, do_read, do_write, on_write, write_response,
}
use httpserver_cpp.Session.Process.{Moment, on_read, process_request}
use httpserver_cpp.Session.Sends.{Starts, starts_once, Answered}
use httpserver_cpp.Session.Answer.{process_request-Outcome}
use httpserver_cpp.Session.Lifecycle.{
  Config, owes, completed, received, Step, read_done, write_done, send_later, Reach, here, next,
  IsSequential, SendsOnce, started,
}

module _ (P : Platform) {Handler : Type 0} (handle : Handler → HttpRequest → List HttpResponse)
    (opts : HttpServerOptions) (router : Heap Handler) where
  open P use {Request, Response}

  module _ (once : SendsOnce P handle opts router) (tree : IsTree router) (laws : RequestLaws P)
      (fresh : FreshLaws P) where
    answered :
        (n : ℕ) (s s' : State Request Response)
        → n ≤ 1
        → Answered P opts n s s'
        → s.session.is_open ≡ true
        → s.session.pending ≡ []
        → IsFresh P s.session.response
        → s.statistics.working_handler_cnt < 2 ^ 64
        → IsSequential P handle opts router
            (record { state = s'; owed = owes none s'.session.pending })
    answered n s s' le a is_open idle clean fits =
        elim (starts_once le
          (subst (λ before. Starts n before s'.session.pending) idle a.started)) [
            | inl (none_sent, bare) ↦ ground (arith, bare, a.unsent none_sent)
            | inr (some_sent, ka, one) ↦
                let timed = a.timed some_sent in
                record {
                  phase =
                      inr (inr (inl (a.open_kept ∙ is_open, ka, one, timed, ap (owes none) one)));
                  fits = ground (arith, a.counted);
                }
          ]

    write_done-IsSequential :
        (c : Config Request Response) (ka : Bool) (rest : List Operation) (ec : Option ErrorCode)
        → c.state.session.pending ≡ writing ka ∷ rest
        → IsSequential P handle opts router c
        → IsSequential P handle opts router (record {
          state = on_write P opts ka ec (completed P handle opts router rest ec c.state);
          owed = c.owed;
        })
    unfolding on_write do_close do_read
    write_done-IsSequential c ka rest none p i =
        ground (arith, fresh.fresh-clear c.state.session.response)
    write_done-IsSequential c ka rest (some timeout) p i = ground arith
    write_done-IsSequential c ka rest (some _) p i = ground arith

    send_later-IsSequential :
        (c : Config Request Response) (rsp : HttpResponse)
        → c.owed ≡ true
        → IsSequential P handle opts router c
        → IsSequential P handle opts router
            (record { state = write_response P opts rsp c.state; owed = false })
    unfolding write_response do_write
    send_later-IsSequential c rsp p i = ground arith

    reading_phase :
        (c : Config Request Response) (rest : List Operation)
        → c.state.session.pending ≡ reading ∷ rest
        → IsSequential P handle opts router c
        → (c.state.session.is_open ≡ true) × (rest ≡ []) × IsFresh P c.state.session.response
    reading_phase c rest p i = ground arith

    processed :
        (any : Moment) (s s' : State Request Response)
        → process_request P handle opts router any s ≡ ok s'
        → s.session.is_open ≡ true
        → s.session.pending ≡ []
        → IsFresh P s.session.response
        → s.statistics.working_handler_cnt < 2 ^ 64
        → IsSequential P handle opts router
            (record { state = s'; owed = owes none s'.session.pending })
    processed any s s' went is_open idle clean fits =
        let (t, run', outcome) =
          process_request-Outcome P handle opts router laws any s tree fits in
        let same : t ≡ s' = ok_injective (sym run' ∙ went) in
        subst
          (λ q.
            IsSequential P handle opts router
              (record { state = q; owed = owes none q.session.pending }))
          same
          (elim outcome [
            | inl (url, h, is_for, a) ↦ answered _ s t (once h _) a is_open idle clean fits
            | inr (not_for, a, message, reason, refusal) ↦
                answered 1 s t (omega arith) a is_open idle clean fits
          ])

    read_done-IsSequential :
        (any : Moment) (c : Config Request Response) (rest : List Operation) (ec : Option ErrorCode)
        (request : Request) (s : State Request Response)
        → c.state.session.pending ≡ reading ∷ rest
        → on_read P handle opts router any ec
            (received P handle opts router request rest ec c.state)
          ≡ ok s
        → IsSequential P handle opts router c
        → IsSequential P handle opts router (record { state = s; owed = owes ec s.session.pending })
    unfolding on_read do_close
    read_done-IsSequential any c rest (some end_of_stream) request s p went i = ground arith
    read_done-IsSequential any c rest (some timeout) request s p went i = ground arith
    read_done-IsSequential any c rest (some other_error) request s p went i = ground arith
    read_done-IsSequential any c rest none request s p went i =
        let (is_open, idle, clean) = reading_phase c rest p i in
        processed any _ s went is_open idle clean i.fits

    pub Step-IsSequential :
        {c d : Config Request Response}
        → Step P handle opts router c d
        → IsSequential P handle opts router c
        → IsSequential P handle opts router d
    Step-IsSequential {c} (read_done any rest ec request s p went) i =
        read_done-IsSequential any c rest ec request s p went i
    Step-IsSequential {c} (write_done rest ka ec p) i = write_done-IsSequential c ka rest ec p i
    Step-IsSequential {c} (send_later rsp p) i = send_later-IsSequential c rsp p i

    pub Reach-IsSequential :
        {c d : Config Request Response}
        → Reach P handle opts router c d
        → IsSequential P handle opts router c
        → IsSequential P handle opts router d
    Reach-IsSequential here i = i
    Reach-IsSequential (next r st) i = Step-IsSequential st (Reach-IsSequential r i)

    -- Let each handler send at most one response before it returns, and one later if it sent none;
    -- let the router be a tree and the count of working handlers be below its limit at the start.
    -- Then a session that has been started is, after any steps, closed with nothing pending, or open
    -- with one read pending, or open with one write pending, or open and waiting for a handler's
    -- response; a read and a write run with the timeout of the options, or with none if that is 0;
    -- and where it reads or waits its response has no body and no length and is not gzip.
    pub session-IsSequential :
        (id : ℕ) (request : Request) (st : HttpStatisticsInternal) {c : Config Request Response}
        → st.working_handler_cnt < 2 ^ 64
        → Reach P handle opts router (started P handle opts router id request st) c
        → IsSequential P handle opts router c
    unfolding http_session run
    session-IsSequential id request st fits r =
        Reach-IsSequential r (ground (arith, fresh.fresh-new))
