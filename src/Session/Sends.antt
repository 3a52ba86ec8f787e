-- ===== src/Session/Sends.antt =====
-- src/http_session.cpp: what sending responses, refusing a request and calling a handler do.
use mathlib.Core.List.{map-append, append_assoc}
use httpserver_cpp.Base.{
  ℕ, map, suc, ◌<◌, ◌^◌, ◌≡◌, ◌≢◌, refl, sym, ◌≤◌, ◌⊎◌, ◌∙◌, ap, inl, inr, Bool, Bool-cases, List,
  [], ◌∷◌, ◌++◌, ltb, length, length-append, nil_of_length, Bytes, arith,
}
use httpserver_cpp.Types.{HttpServerOptions}
use httpserver_cpp.Statistics.{u64_inc, u64_dec}
use httpserver_cpp.Request.{HttpRequest}
use httpserver_cpp.Response.{HttpResponse}
use httpserver_cpp.Router.{Heap}
use httpserver_cpp.Platform.{Platform}
use httpserver_cpp.Platform.Documented.{RequestLaws}
use httpserver_cpp.Session.{Operation, writing, Expiry, expires, State, write_response, do_write}
use httpserver_cpp.Session.Process.{
  Moment, refuse, make_request, send_all, call_handler, take_body, enter_handler,
}

-- `n` writes more are pending.
abbrev pub Starts : ℕ → List Operation → List Operation → Type 0
Starts n before now = (ws : List Bool) × (length ws ≡ n) × (now ≡ map writing ws ++ before)

-- One write, and then `n` more.
Starts-cons :
    {n : ℕ} {b : Bool} {before now : List Operation}
    → Starts n (writing b ∷ before) now
    → Starts (suc n) before now
Starts-cons {b} {before} (ws, size, e) = (
  ws ++ b ∷ [],
  omega (arith, length-append ws (b ∷ []), size),
  e ∙ simp (map-append, append_assoc),
)

-- At most one write.
pub starts_once :
    {n : ℕ} {now : List Operation}
    → n ≤ 1
    → Starts n [] now
    → ((n ≡ 0) × (now ≡ [])) ⊎ ((n ≢ 0) × (ka : Bool) × (now ≡ writing ka ∷ []))
starts_once le ([], size, e) = inl (sym size, e)
starts_once le (w ∷ [], size, e) = inr (λ z. omega arith, w, e)
starts_once le (w ∷ v ∷ ws, size, e) = absurd (omega arith)

module _ (P : Platform) where
  open P use {Request, Response, request_body}

  -- The request's body is gone, one more request is counted, and `n` writes have been started;
  -- the other counters, the connection and the numbers of the session and the request are as they
  -- were. A write that was started has its timeout.
  pub record Answered (opts : HttpServerOptions) (n : ℕ) (s s' : State Request Response)
      : Type 0 where
    pub counted :
        s'.statistics
        ≡ record (s.statistics) { handle_request_cnt = u64_inc s.statistics.handle_request_cnt }
    pub taken : request_body s'.session.request ≡ []
    pub started : Starts n s.session.pending s'.session.pending
    pub unsent : n ≡ 0 → s'.session.response ≡ s.session.response
    pub timed : n ≢ 0 → s'.session.expiry ≡ expires P opts.write_time_out
    pub open_kept : s'.session.is_open ≡ s.session.is_open
    pub id_kept : s'.session.id ≡ s.session.id
    pub number_kept : s'.session.current_request_id ≡ s.session.current_request_id

module _ (P : Platform) {Handler : Type 0} (handle : Handler → HttpRequest → List HttpResponse)
    (opts : HttpServerOptions) (router : Heap Handler) (laws : RequestLaws P) where
  open P use {
    Request, Response, verb, request_body, verb_put, UrlView, parse_origin_form, url_segments,
  }

  pub refuse-Answered :
      (message : Bytes) (s : State Request Response)
      → Answered P opts 1 s (refuse P handle opts router message s)
  unfolding refuse write_response do_write
  refuse-Answered message s = record {
    counted = refl;
    taken = laws.request_body-clear _;
    started = (_ ∷ [], refl, refl);
    unsent = λ e. absurd (omega arith);
    timed = λ _. refl;
    open_kept = refl;
    id_kept = refl;
    number_kept = refl;
  }

  -- What sending leaves alone.
  record Sent (n : ℕ) (s s' : State Request Response) : Type 0 where
    counted : s'.statistics ≡ s.statistics
    request_kept : s'.session.request ≡ s.session.request
    started : Starts n s.session.pending s'.session.pending
    unsent : n ≡ 0 → s'.session.response ≡ s.session.response
    timed : n ≢ 0 → s'.session.expiry ≡ expires P opts.write_time_out
    untimed : n ≡ 0 → s'.session.expiry ≡ s.session.expiry
    open_kept : s'.session.is_open ≡ s.session.is_open
    id_kept : s'.session.id ≡ s.session.id
    number_kept : s'.session.current_request_id ≡ s.session.current_request_id

  -- After one response and some more the expiry is that of a write.
  last_expiry :
      {e last : Expiry} (more : List HttpResponse)
      → (length more ≢ 0 → last ≡ e)
      → (length more ≡ 0 → last ≡ e)
      → last ≡ e
  last_expiry [] timed untimed = untimed refl
  last_expiry (rsp ∷ more) timed untimed = timed (λ z. omega arith)

  send_all-Sent :
      (rsps : List HttpResponse) (s : State Request Response)
      → Sent (length rsps) s (send_all P handle opts router rsps s)
  unfolding send_all write_response do_write
  send_all-Sent [] s = record {
    counted = refl;
    request_kept = refl;
    started = ([], refl, refl);
    unsent = λ e. refl;
    timed = λ some'. absurd (some' refl);
    untimed = λ e. refl;
    open_kept = refl;
    id_kept = refl;
    number_kept = refl;
  }
  send_all-Sent (rsp ∷ more) s =
      let i = send_all-Sent more (write_response P opts rsp s) in
      record {
        counted = i.counted;
        request_kept = i.request_kept;
        started = Starts-cons i.started;
        unsent = λ e. absurd (omega arith);
        timed = λ _. last_expiry more i.timed i.untimed;
        untimed = λ e. absurd (omega arith);
        open_kept = i.open_kept;
        id_kept = i.id_kept;
        number_kept = i.number_kept;
      }

  work_round : (n : ℕ) → n < 2 ^ 64 → u64_dec (u64_inc n) ≡ n
  work_round n p = omega arith

  take_body-Sent :
      (s : State Request Response)
      → (request_body (take_body P handle opts router s).session.request ≡ [])
        × ((take_body P handle opts router s).statistics ≡ s.statistics)
        × ((take_body P handle opts router s).session.pending ≡ s.session.pending)
        × ((take_body P handle opts router s).session.is_open ≡ s.session.is_open)
        × ((take_body P handle opts router s).session.id ≡ s.session.id)
        × ((take_body P handle opts router s).session.current_request_id
            ≡ s.session.current_request_id)
        × ((take_body P handle opts router s).session.response ≡ s.session.response)
  unfolding take_body
  take_body-Sent s = elim (Bool-cases (ltb 0 (length (request_body s.session.request)))) [
    | inl full ↦ rw full (laws.request_body-clear _, refl, refl, refl, refl, refl, refl)
    | inr bare ↦ rw bare (nil_of_length _ bare, refl, refl, refl, refl, refl, refl)
  ]

  pub call_handler-Answered :
      (any : Moment) (url : UrlView) (h : Handler) (s : State Request Response)
      → s.statistics.working_handler_cnt < 2 ^ 64
      → Answered P opts
          (length (handle h (make_request P handle opts router any url s.session)))
          s
          (call_handler P handle opts router any url h s)
  unfolding call_handler
  call_handler-Answered any url h s fits =
      let t = take_body P handle opts router s in
      let (bare, st, pending, open', id', number, same) = take_body-Sent s in
      let i =
        send_all-Sent (handle h (make_request P handle opts router any url s.session))
          (enter_handler P handle opts router t) in
      record {
        counted = ground (arith, i.counted, st, work_round s.statistics.working_handler_cnt fits);
        taken = ap request_body i.request_kept ∙ bare;
        started = (
          i.started.0,
          i.started.1,
          i.started.2 ∙ ap (λ l. map writing i.started.0 ++ l) pending,
        );
        unsent = λ e. i.unsent e ∙ same;
        timed = i.timed;
        open_kept = i.open_kept ∙ open';
        id_kept = i.id_kept ∙ id';
        number_kept = i.number_kept ∙ number;
      }
