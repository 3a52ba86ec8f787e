-- ===== src/Session/Handled.antt =====
-- src/http_session.cpp: the numbers of the requests that a session handles.
use httpserver_cpp.Base.{
  ℕ, zero, suc, ◌+◌, ◌<◌, ◌^◌, ◌≡◌, refl, sym, ◌∙◌, ap, subst, inl, inr, Bool, true, false, List,
  [], ◌∷◌, ◌++◌, map, Option, none, some, length, arith,
}
use httpserver_cpp.Base.Result.{ok, ok_injective}
use httpserver_cpp.Types.{HttpServerOptions}
use httpserver_cpp.Statistics.{HttpStatisticsInternal}
use httpserver_cpp.Request.{HttpRequest}
use httpserver_cpp.Response.{HttpResponse}
use httpserver_cpp.Router.{Heap}
use httpserver_cpp.Router.Shape.{IsTree}
use httpserver_cpp.Platform.{Platform}
use httpserver_cpp.Platform.Documented.{RequestLaws, FreshLaws}
use httpserver_cpp.Session.{
  State, ErrorCode, end_of_stream, timeout, other_error, Operation, reading, writing, http_session,
  run, do_close, do_read, do_write, on_write, write_response,
}
use httpserver_cpp.Session.Process.{Moment, on_read, process_request}
use httpserver_cpp.Session.Sends.{Answered}
use httpserver_cpp.Session.Answer.{process_request-Outcome}
use httpserver_cpp.Session.Lifecycle.{
  Config, completed, received, read_done, write_done, send_later, Reach, here, next, IsSequential,
  SendsOnce, started,
}
use httpserver_cpp.Session.Sequential.{Reach-IsSequential, session-IsSequential}

-- The numbers from `n` down to 1.
abbrev pub countdown : ℕ → List ℕ
countdown zero = []
countdown (suc n) = suc n ∷ countdown n

abbrev reads : List Operation → ℕ
reads [] = 0
reads (reading ∷ os) = 1 + reads os
reads (writing ka ∷ os) = reads os

module _ (P : Platform) {Handler : Type 0} (handle : Handler → HttpRequest → List HttpResponse)
    (opts : HttpServerOptions) (router : Heap Handler) where
  open P use {Request, Response}

  -- The numbers of the requests that were read and handled, the last one first.
  unfoldable pub handled : {c d : Config Request Response} → Reach P handle opts router c d → List ℕ
  handled here = []
  handled (next {d} r (read_done any rest none request s p went)) =
      d.state.session.current_request_id ∷ handled r
  handled (next r (read_done any rest (some ec) request s p went)) = handled r
  handled (next r (write_done rest ka ec p)) = handled r
  handled (next r (send_later rsp p)) = handled r

  -- `n` requests have been handled: the next number is that of the read that is pending.
  abbrev IsAt : ℕ → State Request Response → Type 0
  IsAt n s = s.session.is_open ≡ true → s.session.current_request_id ≡ n + reads s.session.pending

  reads_of_writes : (ws : List Bool) → reads (map writing ws ++ []) ≡ 0
  reads_of_writes [] = refl
  reads_of_writes (w ∷ ws) = reads_of_writes ws

  module _ (once : SendsOnce P handle opts router) (tree : IsTree router) (laws : RequestLaws P)
      (fresh : FreshLaws P) where
    after_answer :
        (k n : ℕ) (s s' : State Request Response)
        → Answered P opts k s s'
        → s.session.pending ≡ []
        → s.session.current_request_id ≡ n + 1
        → IsAt (suc n) s'
    after_answer k n s s' a idle e =
        let (ws, size, now) = a.started in
        λ o. omega (
          arith,
          a.number_kept,
          ap reads (now ∙ ap (λ l. map writing ws ++ l) idle),
          reads_of_writes ws,
        )

    processed-IsAt :
        (n : ℕ) (any : Moment) (s s' : State Request Response)
        → process_request P handle opts router any s ≡ ok s'
        → s.statistics.working_handler_cnt < 2 ^ 64
        → s.session.pending ≡ []
        → s.session.current_request_id ≡ n + 1
        → IsAt (suc n) s'
    processed-IsAt n any s s' went fits idle e =
        let (t, run', outcome) =
          process_request-Outcome P handle opts router laws any s tree fits in
        let at : IsAt (suc n) t = elim outcome [
          | inl (url, h, is_for, a) ↦ after_answer _ n s t a idle e
          | inr (not_for, a, message, reason, refusal) ↦ after_answer 1 n s t a idle e
        ] in
        subst (IsAt (suc n)) (ok_injective (sym run' ∙ went)) at

    reading_alone :
        (n : ℕ) (c : Config Request Response) (rest : List Operation)
        → c.state.session.pending ≡ reading ∷ rest
        → IsSequential P handle opts router c
        → IsAt n c.state
        → (rest ≡ []) × (c.state.session.current_request_id ≡ n + 1)
    reading_alone n c rest p i at = ground arith

    on_read-IsAt :
        (n : ℕ) (any : Moment) (s s' : State Request Response)
        → on_read P handle opts router any none s ≡ ok s'
        → s.statistics.working_handler_cnt < 2 ^ 64
        → s.session.pending ≡ []
        → s.session.current_request_id ≡ n + 1
        → IsAt (suc n) s'
    unfolding on_read
    on_read-IsAt n any s s' went fits idle e = processed-IsAt n any _ s' went fits idle e

    failed-IsAt :
        (n : ℕ) (any : Moment) (e : ErrorCode) (s s' : State Request Response)
        → on_read P handle opts router any (some e) s ≡ ok s'
        → IsAt n s'
    unfolding on_read do_close
    failed-IsAt n any end_of_stream s s' went = λ o. absurd (ground arith)
    failed-IsAt n any timeout s s' went = λ o. absurd (ground arith)
    failed-IsAt n any other_error s s' went = λ o. absurd (ground arith)

    write_done-IsAt :
        (n : ℕ) (c : Config Request Response) (ka : Bool) (rest : List Operation)
        (ec : Option ErrorCode)
        → n + 1 < 2 ^ 64
        → c.state.session.pending ≡ writing ka ∷ rest
        → IsSequential P handle opts router c
        → IsAt n c.state
        → IsAt n (on_write P opts ka ec (completed P handle opts router rest ec c.state))
    unfolding on_write do_close do_read
    write_done-IsAt n c true rest none fits p i at = λ o. ground arith
    write_done-IsAt n c false rest none fits p i at = λ o. absurd (ground arith)
    write_done-IsAt n c ka rest (some timeout) fits p i at = λ o. absurd (ground arith)
    write_done-IsAt n c ka rest (some _) fits p i at = λ o. absurd (ground arith)

    send_later-IsAt :
        (n : ℕ) (s : State Request Response) (rsp : HttpResponse)
        → IsAt n s
        → IsAt n (write_response P opts rsp s)
    unfolding write_response do_write
    send_later-IsAt n s rsp at = at

    module _ {c : Config Request Response} (i : IsSequential P handle opts router c)
        (at_first : IsAt 0 c.state) where
      -- The requests so far have the numbers from 1 on.
      Reach-handled :
          {d : Config Request Response} (r : Reach P handle opts router c d)
          → length (handled r) + 1 < 2 ^ 64
          → (handled r ≡ countdown (length (handled r))) × IsAt (length (handled r)) d.state
      unfolding handled
      Reach-handled here fits = (refl, at_first)
      Reach-handled (next {d} r (read_done any rest none request s p went)) fits =
          let (down, at) = Reach-handled r (omega arith) in
          let seq = Reach-IsSequential P handle opts router once tree laws fresh r i in
          let (alone, number) = reading_alone (length (handled r)) d rest p seq at in
          (
            ground (arith, down, number),
            on_read-IsAt (length (handled r)) any
                (received P handle opts router request rest none d.state) s went seq.fits alone
                number,
          )
      Reach-handled (next r (read_done any rest (some ec) request s p went)) fits =
          let (down, at) = Reach-handled r fits in
          (down, failed-IsAt (length (handled r)) any ec _ s went)
      Reach-handled (next {d} r (write_done rest ka ec p)) fits =
          let (down, at) = Reach-handled r fits in
          let seq = Reach-IsSequential P handle opts router once tree laws fresh r i in
          (down, write_done-IsAt (length (handled r)) d ka rest ec fits p seq at)
      Reach-handled (next {d} r (send_later rsp p)) fits =
          let (down, at) = Reach-handled r fits in
          (down, send_later-IsAt (length (handled r)) d.state rsp at)

    first-IsAt :
        (id : ℕ) (request : Request) (st : HttpStatisticsInternal)
        → IsAt 0 (run P opts (http_session P id request st))
    unfolding http_session run do_read
    first-IsAt id request st = λ o. omega arith

    -- Let each handler send at most one response before it returns, and one later if it sent none;
    -- let the router be a tree and the count of working handlers be below its limit at the start.
    -- Then the requests that a session reads and handles have the numbers 1, 2 and so on, one after
    -- the other, as long as there are fewer than 2^64 - 1 of them.
    pub session-handled :
        (id : ℕ) (request : Request) (st : HttpStatisticsInternal) {c : Config Request Response}
        → st.working_handler_cnt < 2 ^ 64
        → (r : Reach P handle opts router (started P handle opts router id request st) c)
        → length (handled r) + 1 < 2 ^ 64
        → handled r ≡ countdown (length (handled r))
    session-handled id request st fits r few =
        (Reach-handled
          (session-IsSequential P handle opts router once tree laws fresh id request st fits here)
          (first-IsAt id request st) r few).0
