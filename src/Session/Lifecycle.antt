-- ===== src/Session/Lifecycle.antt =====
-- src/http_session.cpp: the life of a session, as steps of its completion handlers.
use httpserver_cpp.Base.{
  ℕ, ◌<◌, ◌≤◌, ◌^◌, ◌≡◌, ◌⊎◌, Bool, true, false, List, [], ◌∷◌, Option, none, some, length,
}
use httpserver_cpp.Base.Result.{ok}
use httpserver_cpp.Types.{HttpServerOptions}
use httpserver_cpp.Statistics.{HttpStatisticsInternal}
use httpserver_cpp.Request.{HttpRequest}
use httpserver_cpp.Response.{HttpResponse}
use httpserver_cpp.Router.{Heap}
use httpserver_cpp.Platform.{Platform}
use httpserver_cpp.Platform.Documented.{IsFresh}
use httpserver_cpp.Session.{
  State, ErrorCode, end_of_stream, timeout, other_error, Operation, reading, writing, expires,
  http_session, run, on_write, write_response,
}
use httpserver_cpp.Session.Process.{Moment, on_read}

-- A session, and whether a handler that has returned still owes the response to the last request.
pub record Config (Request Response : Type 0) : Type 0 where
  pub state : State Request Response
  pub owed : Bool

abbrev pub owes : Option ErrorCode → List Operation → Bool
owes none [] = true
owes none (o ∷ os) = false
owes (some e) os = false

-- Whether the socket is open when a handler with this error is called: the timer of a
-- `tcp_stream` closes it before the handler of the operation that timed out is called.
abbrev pub left_open : Option ErrorCode → Bool → Bool
left_open none open' = open'
left_open (some end_of_stream) open' = open'
left_open (some timeout) open' = false
left_open (some other_error) open' = open'

module _ (P : Platform) {Handler : Type 0} (handle : Handler → HttpRequest → List HttpResponse)
    (opts : HttpServerOptions) (router : Heap Handler) where
  open P use {Request, Response}

  abbrev S : Type 0
  S = State Request Response

  -- An operation is over: it is no longer pending, and its timer has closed the socket if it has
  -- expired. A read has stored its request.
  abbrev pub completed : List Operation → Option ErrorCode → S → S
  completed rest ec s = record s {
    session = record (s.session) { is_open = left_open ec s.session.is_open; pending = rest };
  }

  abbrev pub received : Request → List Operation → Option ErrorCode → S → S
  received request rest ec s = record s {
    session = record (s.session) {
      is_open = left_open ec s.session.is_open;
      request = request;
      pending = rest;
    };
  }

  -- A read or a write completes, or a handler that owes a response sends it, once.
  pub data Step (c : Config Request Response) : Config Request Response → Type 0 where
    read_done :
        (any : Moment) (rest : List Operation) (ec : Option ErrorCode) (request : Request) (s : S)
        → c.state.session.pending ≡ reading ∷ rest
        → on_read P handle opts router any ec (received request rest ec c.state) ≡ ok s
        → Step c (record { state = s; owed = owes ec s.session.pending })
    write_done :
        (rest : List Operation) (ka : Bool) (ec : Option ErrorCode)
        → c.state.session.pending ≡ writing ka ∷ rest
        → Step c
            (record { state = on_write P opts ka ec (completed rest ec c.state); owed = c.owed })
    send_later :
        (rsp : HttpResponse)
        → c.owed ≡ true
        → Step c (record { state = write_response P opts rsp c.state; owed = false })

  pub data Reach (c : Config Request Response) : Config Request Response → Type 0 where
    here : Reach c c
    next : {d e : Config Request Response} → Reach c d → Step d e → Reach c e

  -- The session is closed, or it reads, writes, or waits for a handler; a read and a write have
  -- their timeout, and while nothing is written the response is fresh.
  abbrev pub Phase : Config Request Response → Type 0
  Phase c =
      ((c.state.session.is_open ≡ false) × (c.state.session.pending ≡ []) × (c.owed ≡ false))
      ⊎ (((c.state.session.is_open ≡ true)
            × (c.state.session.pending ≡ reading ∷ [])
            × (c.state.session.expiry ≡ expires P opts.read_time_out)
            × (c.owed ≡ false)
            × IsFresh P c.state.session.response)
          ⊎ (((c.state.session.is_open ≡ true)
                × (ka : Bool) × (c.state.session.pending ≡ writing ka ∷ [])
                × (c.state.session.expiry ≡ expires P opts.write_time_out)
                × (c.owed ≡ false))
              ⊎ ((c.state.session.is_open ≡ true)
                  × (c.state.session.pending ≡ [])
                  × (c.owed ≡ true)
                  × IsFresh P c.state.session.response)))

  pub record IsSequential (c : Config Request Response) : Type 0 where
    pub phase : Phase c
    pub fits : c.state.statistics.working_handler_cnt < 2 ^ 64

  -- A handler sends at most one response before it returns.
  abbrev pub SendsOnce : Type 0
  SendsOnce = (h : Handler) (r : HttpRequest) → length (handle h r) ≤ 1

  -- A new session that has been run.
  abbrev pub started : ℕ → Request → HttpStatisticsInternal → Config Request Response
  started id request st = record { state = run P opts (http_session P id request st); owed = false }
