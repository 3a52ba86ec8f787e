-- ===== src/Session/Lines/Closed.antt =====
-- src/http_session.cpp: a session logs once that it is closed.
use httpserver_cpp.Base.{
  ℕ, ◌+◌, ◌<◌, ◌^◌, ◌≡◌, sym, ◌∙◌, ap, Bool, true, false, List, [], ◌∷◌, ◌++◌, Option, none, some,
  arith,
}
use httpserver_cpp.Base.Result.{ok, ok_injective}
use httpserver_cpp.Types.{HttpServerOptions}
use httpserver_cpp.Statistics.{HttpStatisticsInternal, u64_inc}
use httpserver_cpp.Request.{HttpRequest}
use httpserver_cpp.Response.{HttpResponse}
use httpserver_cpp.Router.{Heap}
use httpserver_cpp.Router.Shape.{IsTree}
use httpserver_cpp.Platform.{Platform}
use httpserver_cpp.Session.{
  HttpSession, State, Operation, ErrorCode, end_of_stream, timeout, other_error, http_session, run,
  do_read, do_write, do_close, on_write, write_response, destroy,
}
use httpserver_cpp.Session.Process.{Moment, on_read}
use httpserver_cpp.Session.Lifecycle.{
  Config, Step, read_done, write_done, send_later, Reach, here, next, completed, received, started,
  IsSequential, SendsOnce,
}
use httpserver_cpp.Session.Sequential.{session-IsSequential, Reach-IsSequential}
use httpserver_cpp.Platform.Documented.{RequestLaws, FreshLaws}
use httpserver_cpp.Session.Lines.{
  Line, session_closed, session_destroyed, read_timed_out, write_timed_out, Reports, do_close_lines,
  destroy_lines, found_lines, process_request_lines, on_read_lines, on_write_lines,
}
use httpserver_cpp.Session.Lines.Open.{do_close_shut, process_request_open}

-- The lines that say that a session is closed, or that a read or a write of it timed out.
abbrev endings : Line → ℕ
endings (session_closed id) = 1
endings (read_timed_out id n) = 1
endings (write_timed_out id n) = 1
endings _ = 0

abbrev pub ending_count : List Line → ℕ
ending_count [] = 0
ending_count (l ∷ lines) = endings l + ending_count lines

pub ending_count-append :
    (ks ls : List Line) → ending_count (ks ++ ls) ≡ ending_count ks + ending_count ls
ending_count-append [] ls = omega arith
ending_count-append (k ∷ ks) ls = omega (arith, ending_count-append ks ls)

-- 1 for a connection that is open.
abbrev pub opened : Bool → ℕ
opened true = 1
opened false = 0

module _ (P : Platform) {Handler : Type 0} (handle : Handler → HttpRequest → List HttpResponse)
    (opts : HttpServerOptions) (router : Heap Handler) (R : Reports) where
  open P use {
    Request, Response, verb, verb_put, UrlView, parse_origin_form, url_segments, request_body,
  }

  abbrev S : Type 0
  S = State Request Response

  abbrev C : Type 0
  C = Config Request Response

  -- What is logged on the way.
  unfoldable pub step_lines : {c d : C} → Step P handle opts router c d → List Line
  step_lines {c} (read_done any rest ec request s p went) =
      on_read_lines P handle opts router R ec
        (received P handle opts router request rest ec c.state).session
  step_lines {c} (write_done rest ka ec p) =
      on_write_lines P handle opts router R ka ec
        (completed P handle opts router rest ec c.state).session
  step_lines (send_later rsp p) = []

  unfoldable pub reach_lines : {c d : C} → Reach P handle opts router c d → List Line
  reach_lines here = []
  reach_lines (next r st) = reach_lines r ++ step_lines st

  -- That an open connection is over is said exactly if it is.
  abbrev Says : List Line → HttpSession Request Response → HttpSession Request Response → Type 0
  Says lines s s' = ending_count lines + opened s'.is_open ≡ opened s.is_open

  do_close-Says :
      (t : S)
      → Says (do_close_lines P handle opts router R t.session) t.session (do_close P t).session
  unfolding do_close do_close_lines
  do_close-Says t = ground arith

  -- `processRequest` does not close, and does not say so.
  process_request_plain :
      (s : HttpSession Request Response)
      → ending_count (process_request_lines P handle opts router R s) ≡ 0
  unfolding process_request_lines found_lines
  process_request_plain s = ground arith

  module _ (tree : IsTree router) where
    on_read-Says :
        (any : Moment) (ec : Option ErrorCode) (request : Request) (rest : List Operation)
        (c s' : S)
        → c.session.is_open ≡ true
        → on_read P handle opts router any ec (received P handle opts router request rest ec c)
          ≡ ok s'
        → Says
            (on_read_lines P handle opts router R ec
              (received P handle opts router request rest ec c).session)
            c.session
            s'.session
    unfolding on_read on_read_lines
    on_read-Says any none request rest c s' o went =
        let s = received P handle opts router request rest none c in
        let st = s.statistics in
        let (t, run, same) = process_request_open P handle opts router tree any (record s {
          statistics = record st { read_success_cnt = u64_inc st.read_success_cnt };
        }) in
        omega (
          arith,
          process_request_plain s.session,
          ap opened same,
          ap (λ (x : S). opened x.session.is_open) (ok_injective (sym run ∙ went)),
        )
    on_read-Says any (some end_of_stream) request rest c s' o went = omega (
      arith,
      do_close-Says (received P handle opts router request rest (some end_of_stream) c),
      ap (λ (x : S). opened x.session.is_open) (ok_injective went),
    )
    on_read-Says any (some timeout) request rest c s' o went =
        let s = received P handle opts router request rest (some timeout) c in
        let st = s.statistics in
        omega (
          arith,
          do_close-Says (record s {
            statistics = record st { read_timeout_cnt = u64_inc st.read_timeout_cnt };
          }),
          ap opened o,
          ap (λ (x : S). opened x.session.is_open) (ok_injective went),
        )
    on_read-Says any (some other_error) request rest c s' o went =
        let s = received P handle opts router request rest (some other_error) c in
        let st = s.statistics in
        omega (
          arith,
          do_close-Says
              (record s { statistics = record st { read_fail_cnt = u64_inc st.read_fail_cnt } }),
          ap (λ (x : S). opened x.session.is_open) (ok_injective went),
        )

    on_write-Says :
        (ka : Bool) (ec : Option ErrorCode) (rest : List Operation) (c : S)
        → c.session.is_open ≡ true
        → Says
            (on_write_lines P handle opts router R ka ec
              (completed P handle opts router rest ec c).session)
            c.session
            (on_write P opts ka ec (completed P handle opts router rest ec c)).session
    unfolding on_write on_write_lines do_read do_close do_close_lines
    on_write-Says true none rest c o = omega arith
    on_write-Says false none rest c o = ground arith
    on_write-Says true (some timeout) rest c o = ground arith
    on_write-Says true (some end_of_stream) rest c o = ground arith
    on_write-Says true (some other_error) rest c o = ground arith
    on_write-Says false (some timeout) rest c o = ground arith
    on_write-Says false (some end_of_stream) rest c o = ground arith
    on_write-Says false (some other_error) rest c o = ground arith

    Step-Says :
        {c d : C} (st : Step P handle opts router c d)
        → IsSequential P handle opts router c
        → Says (step_lines st) c.state.session d.state.session
    unfolding step_lines write_response do_write
    Step-Says {c} (read_done any rest ec request s p went) i =
        on_read-Says any ec request rest c.state s (ground arith) went
    Step-Says {c} (write_done rest ka ec p) i = on_write-Says ka ec rest c.state (ground arith)
    Step-Says (send_later rsp p) i = omega arith

    module _ (once : SendsOnce P handle opts router) (laws : RequestLaws P)
        (fresh : FreshLaws P) where
      Reach-Says :
          {c d : C} (r : Reach P handle opts router c d)
          → IsSequential P handle opts router c
          → Says (reach_lines r) c.state.session d.state.session
      unfolding reach_lines
      Reach-Says here i = omega arith
      Reach-Says (next r st) i = omega (
        arith,
        Reach-Says r i,
        Step-Says st (Reach-IsSequential P handle opts router once tree laws fresh r i),
        ending_count-append (reach_lines r) (step_lines st),
      )

      -- Let each handler send at most one response before it returns, and one later if it sent none;
      -- let the router be a tree and the count of working handlers be below its limit at the start.
      -- Then of the lines of a session that is started, whatever is read, written and sent, one says
      -- that it is closed or that a read or a write timed out, exactly if its connection is not open
      -- any more. With those of its destructor, after which the connection is not open, there is one:
      -- a session that timed out never says that it is closed, since its socket was closed before.
      pub session-Closes :
          (id : ℕ) (request : Request) (st : HttpStatisticsInternal) {d : C}
          → st.working_handler_cnt < 2 ^ 64
          → (r : Reach P handle opts router (started P handle opts router id request st) d)
          → (ending_count (reach_lines r) + opened d.state.session.is_open ≡ 1)
            × (ending_count (reach_lines r ++ destroy_lines P handle opts router R d.state.session)
                ≡ 1)
            × ((destroy P d.state).session.is_open ≡ false)
      unfolding http_session run do_read destroy do_close destroy_lines do_close_lines
      session-Closes id request st {d} fits r =
          let said = Reach-Says r (
            session-IsSequential P handle opts router once tree laws fresh id request st fits
              here) in
          (
            said,
            omega (
              arith,
              said,
              ending_count-append (reach_lines r)
                  (destroy_lines P handle opts router R d.state.session),
              ending_count-append (do_close_lines P handle opts router R d.state.session)
                  (session_destroyed d.state.session.id ∷ []),
              do_close-Says d.state,
              ap opened (do_close_shut P handle opts router d.state),
            ),
            ground arith,
          )
