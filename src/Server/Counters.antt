-- ===== src/Server/Counters.antt =====
-- src/http_session.cpp: what the steps of a session do to the counters.
use httpserver_cpp.Base.{
  ℕ, ◌+◌, ◌%◌, ◌^◌, ◌<◌, ◌≤◌, ◌≡◌, refl, sym, ◌∙◌, subst, inl, inr, Bool, true, false, List, [],
  ◌∷◌, Option, none, some, arith,
}
use httpserver_cpp.Base.Result.{ok, ok_injective}
use httpserver_cpp.Types.{HttpServerOptions}
use httpserver_cpp.Statistics.{HttpStatisticsInternal, u64_inc}
use httpserver_cpp.Request.{HttpRequest}
use httpserver_cpp.Response.{HttpResponse}
use httpserver_cpp.Router.{Heap}
use httpserver_cpp.Router.Shape.{IsTree}
use httpserver_cpp.Platform.{Platform}
use httpserver_cpp.Platform.Documented.{RequestLaws}
use httpserver_cpp.Session.{
  State, ErrorCode, Operation, reading, writing, end_of_stream, timeout, other_error, do_close,
  do_read, do_write, on_write, write_response,
}
use httpserver_cpp.Session.Process.{Moment, on_read, process_request}
use httpserver_cpp.Session.Sends.{Starts, starts_once, Answered}
use httpserver_cpp.Session.Answer.{process_request-Outcome}
use httpserver_cpp.Session.Lifecycle.{
  Config, owes, completed, received, Step, read_done, write_done, send_later, IsSequential,
  SendsOnce,
}

abbrev pub writes : List Operation → ℕ
writes [] = 0
writes (reading ∷ os) = writes os
writes (writing ka ∷ os) = 1 + writes os

abbrev pub debt : Bool → ℕ
debt true = 1
debt false = 0

-- The responses that a session has still to bring out.
abbrev pub due : {Request Response : Type 0} → Config Request Response → ℕ
due c = writes c.state.session.pending + debt c.owed

abbrev pub written : HttpStatisticsInternal → ℕ
written st = st.write_success_cnt + st.write_fail_cnt + st.write_timeout_cnt

-- Each request that was read has been handled, and each that was handled has had its write
-- counted, but for `n` of them.
pub record IsBalanced (n : ℕ) (st : HttpStatisticsInternal) : Type 0 where
  pub handled : st.handle_request_cnt ≡ st.read_success_cnt
  pub brought_out : st.handle_request_cnt ≡ (written st + n) % 2 ^ 64

module _ (P : Platform) {Handler : Type 0} (handle : Handler → HttpRequest → List HttpResponse)
    (opts : HttpServerOptions) (router : Heap Handler) where
  open P use {Request, Response}

  -- From one configuration to the next the session keeps its number, and the balance is kept, whatever `n` the other sessions owe.
  abbrev pub Keeps : Config Request Response → Config Request Response → Type 0
  Keeps c d =
      (d.state.statistics.session_cnt ≡ c.state.statistics.session_cnt)
      × (d.state.session.id ≡ c.state.session.id)
      × ((n : ℕ)
          → IsBalanced (due c + n) c.state.statistics
          → IsBalanced (due d + n) d.state.statistics)

  write_done-Keeps :
      (c : Config Request Response) (ka : Bool) (rest : List Operation) (ec : Option ErrorCode)
      → c.state.session.pending ≡ writing ka ∷ rest
      → IsSequential P handle opts router c
      → Keeps c (record {
        state = on_write P opts ka ec (completed P handle opts router rest ec c.state);
        owed = c.owed;
      })
  unfolding on_write do_close do_read
  write_done-Keeps c true rest none p i = (ground arith, ground arith, λ n b. ground arith)
  write_done-Keeps c false rest none p i = (ground arith, ground arith, λ n b. ground arith)
  write_done-Keeps c ka rest (some timeout) p i = (ground arith, ground arith, λ n b. ground arith)
  write_done-Keeps c ka rest (some _) p i = (ground arith, ground arith, λ n b. ground arith)

  send_later-Keeps :
      (c : Config Request Response) (rsp : HttpResponse)
      → c.owed ≡ true
      → Keeps c (record { state = write_response P opts rsp c.state; owed = false })
  unfolding write_response do_write
  send_later-Keeps c rsp p = (refl, refl, λ n b. ground arith)

  -- One request more has been read, and handled with at most one response so far.
  Answered-Keeps :
      (n : ℕ) (c : Config Request Response) (s s' : State Request Response)
      → n ≤ 1
      → s.session.pending ≡ []
      → writes c.state.session.pending ≡ 0
      → c.owed ≡ false
      → s.statistics ≡ record (c.state.statistics) {
        read_success_cnt = u64_inc c.state.statistics.read_success_cnt;
      }
      → s.session.id ≡ c.state.session.id
      → Answered P opts n s s'
      → Keeps c (record { state = s'; owed = owes none s'.session.pending })
  Answered-Keeps n c s s' le idle none_due free same number a =
      elim (starts_once le (subst (λ l. Starts n l s'.session.pending) idle a.started)) [
        | inl (z, bare) ↦ (ground arith, a.id_kept ∙ number, λ m b. ground arith)
        | inr (some', ka, one) ↦ (ground arith, a.id_kept ∙ number, λ m b. ground arith)
      ]

  reads_alone :
      (c : Config Request Response) (rest : List Operation)
      → c.state.session.pending ≡ reading ∷ rest
      → IsSequential P handle opts router c
      → (c.owed ≡ false) × (rest ≡ [])
  reads_alone c rest p i = ground arith

  module _ (once : SendsOnce P handle opts router) (tree : IsTree router)
      (laws : RequestLaws P) where
    processed-Keeps :
        (any : Moment) (c : Config Request Response) (s s' : State Request Response)
        → process_request P handle opts router any s ≡ ok s'
        → s.statistics.working_handler_cnt < 2 ^ 64
        → s.session.pending ≡ []
        → writes c.state.session.pending ≡ 0
        → c.owed ≡ false
        → s.statistics ≡ record (c.state.statistics) {
          read_success_cnt = u64_inc c.state.statistics.read_success_cnt;
        }
        → s.session.id ≡ c.state.session.id
        → Keeps c (record { state = s'; owed = owes none s'.session.pending })
    processed-Keeps any c s s' went fits idle none_due free same number =
        let (t, run', outcome) =
          process_request-Outcome P handle opts router laws any s tree fits in
        let same' : t ≡ s' = ok_injective (sym run' ∙ went) in
        subst (λ q. Keeps c (record { state = q; owed = owes none q.session.pending })) same'
          (elim outcome [
            | inl (url, h, is_for, a) ↦
                Answered-Keeps _ c s t (once h _) idle none_due free same number a
            | inr (not_for, a, message, reason, refusal) ↦
                Answered-Keeps 1 c s t (omega arith) idle none_due free same number a
          ])

    read_done-Keeps :
        (any : Moment) (c : Config Request Response) (rest : List Operation) (ec : Option ErrorCode)
        (request : Request) (s : State Request Response)
        → c.state.session.pending ≡ reading ∷ rest
        → on_read P handle opts router any ec
            (received P handle opts router request rest ec c.state)
          ≡ ok s
        → IsSequential P handle opts router c
        → Keeps c (record { state = s; owed = owes ec s.session.pending })
    unfolding on_read do_close
    read_done-Keeps any c rest (some end_of_stream) request s p went i =
        (ground arith, ground arith, λ n b. ground arith)
    read_done-Keeps any c rest (some timeout) request s p went i =
        (ground arith, ground arith, λ n b. ground arith)
    read_done-Keeps any c rest (some other_error) request s p went i =
        (ground arith, ground arith, λ n b. ground arith)
    read_done-Keeps any c rest none request s p went i =
        let (free, idle) = reads_alone c rest p i in
        processed-Keeps any c _ s went i.fits idle (ground arith) free refl refl

    pub Step-Keeps :
        {c d : Config Request Response}
        → Step P handle opts router c d
        → IsSequential P handle opts router c
        → Keeps c d
    Step-Keeps {c} (read_done any rest ec request s p went) i =
        read_done-Keeps any c rest ec request s p went i
    Step-Keeps {c} (write_done rest ka ec p) i = write_done-Keeps c ka rest ec p i
    Step-Keeps {c} (send_later rsp p) i = send_later-Keeps c rsp p
