-- ===== src/Session/Exchange.antt =====
-- src/http_session.cpp: a response is written, and the connection is kept or closed.
use httpserver_cpp.Base.{
  suc, ◌+◌, ◌<◌, ◌^◌, ◌≡◌, refl, ◌∙◌, ap, subst, Bool, true, false, not, ◌&&◌, [], ◌∷◌, none,
  if◌then◌else◌, arith,
}
use httpserver_cpp.Types.{HttpServerOptions}
use httpserver_cpp.Statistics.{u64_inc}
use httpserver_cpp.Response.{HttpResponse}
use httpserver_cpp.Platform.{Platform}
use httpserver_cpp.Platform.Documented.{KeepAliveLaws, FreshLaws, IsFresh}
use httpserver_cpp.Session.{
  State, reading, writing, expires, do_close, do_read, do_write, on_write, write_response,
}
use httpserver_cpp.Session.Fill.{Avoids, fill_response-keep_alive}

module _ (P : Platform) (opts : HttpServerOptions) where
  open P use {Request, Response, keep_alive, wants_keep_alive, is_connection}

  abbrev S : Type 0
  S = State Request Response

  -- The write that was started has completed without an error.
  abbrev pub written_well : S → S
  written_well s =
      on_write P opts (keep_alive s.session.response) none
        (record s { session = record (s.session) { pending = [] } })

  -- Whether the response keeps the connection.
  abbrev pub stays : HttpResponse → Request → Bool
  stays rsp request = not rsp.force_disable_keep_alive && wants_keep_alive request

  -- The session `s` has written a response, and become `t`.
  pub record Exchanged (kept : Bool) (s t : S) : Type 0 where
    pub counted :
        t.statistics
        ≡ record (s.statistics) { write_success_cnt = u64_inc s.statistics.write_success_cnt }
    pub open_kept : t.session.is_open ≡ kept
    pub next : t.session.pending ≡ (if kept then reading ∷ [] else [])
    pub number :
        t.session.current_request_id
        ≡ (if kept then suc s.session.current_request_id else s.session.current_request_id)
    pub request_kept : t.session.request ≡ s.session.request
    pub fresh : kept ≡ true → IsFresh P t.session.response
    pub timed : kept ≡ true → t.session.expiry ≡ expires P opts.read_time_out

  on_write-Exchanged :
      (fresh : FreshLaws P) (ka : Bool) (s : S)
      → s.session.is_open ≡ true
      → s.session.current_request_id + 1 < 2 ^ 64
      → Exchanged ka s
          (on_write P opts ka none (record s { session = record (s.session) { pending = [] } }))
  unfolding on_write do_read do_close
  on_write-Exchanged fresh true s o few = record {
    counted = refl;
    open_kept = o;
    next = refl;
    number = omega arith;
    request_kept = refl;
    fresh = λ e. fresh.fresh-clear s.session.response;
    timed = λ e. refl;
  }
  on_write-Exchanged fresh false s o few = record {
    counted = refl;
    open_kept = ground arith;
    next = ground arith;
    number = ground arith;
    request_kept = ground arith;
    fresh = λ e. cc;
    timed = λ e. cc;
  }

  -- Let no header of the handler's be `Connection`, and the number of the request be below its limit.
  -- On an open connection with nothing pending a response starts one write, and when this completes
  -- without an error it is counted, and the connection is kept exactly if the request asks for it and
  -- the handler does not forbid it: then the next request is read, with the next number and its
  -- timeout, and the response is fresh; otherwise the connection is closed with nothing pending.
  pub write_response-Exchanged :
      (k : KeepAliveLaws P) (fresh : FreshLaws P) (rsp : HttpResponse) (s : S)
      → Avoids P is_connection rsp.headers
      → s.session.is_open ≡ true
      → s.session.pending ≡ []
      → s.session.current_request_id + 1 < 2 ^ 64
      → ((write_response P opts rsp s).session.pending ≡ writing (stays rsp s.session.request) ∷ [])
        × Exchanged (stays rsp s.session.request) s (written_well (write_response P opts rsp s))
  unfolding write_response do_write
  write_response-Exchanged k fresh rsp s avoids o idle few =
      let alive =
        fill_response-keep_alive P opts s.session.request rsp s.session.response k avoids in
      let t = write_response P opts rsp s in
      let done = on_write-Exchanged fresh (keep_alive t.session.response) t o few in
      let exchanged : Exchanged (keep_alive t.session.response) s (written_well t) = record {
        counted = done.counted;
        open_kept = done.open_kept;
        next = done.next;
        number = done.number;
        request_kept = done.request_kept;
        fresh = done.fresh;
        timed = done.timed;
      } in
      (
        ap (λ b. writing b ∷ s.session.pending) alive
            ∙ ap (λ l. writing (stays rsp s.session.request) ∷ l) idle,
        subst (λ b. Exchanged b s (written_well t)) alive exchanged,
      )
