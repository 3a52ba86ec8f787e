-- ===== src/Server/Control.antt =====
-- src/http_server_impl.cpp: `run` and `stop`, and any sequence of them.
use httpserver_cpp.Base.{
  suc, ◌+◌, ◌-◌, ◌≡◌, refl, sym, subst, ◌≢◌, ◌⊎◌, Bool, true, false, [], ◌∷◌, Option, none, some,
  arith, Option-cases, List-cases, Bool-cases, inl, inr, ◌==◌,
}
use httpserver_cpp.Base.Result.{Exception, runtime_error, system_error}
use httpserver_cpp.Types.{HttpServerOptions}
use httpserver_cpp.Statistics.{zero_statistics}
use httpserver_cpp.Server.{
  HttpServerImpl, Network, first_error, reset_all_http_statistics, do_accept, start, listen, run,
}

-- The options with which a server can run.
pub record IsValid (opts : HttpServerOptions) : Type 0 where
  pub threads : opts.thread_num ≢ 0
  pub size : opts.max_request_size ≢ 0
  pub address : opts.addr ≢ []

-- The network has no error.
pub record IsClear (net : Network) (opts : HttpServerOptions) : Type 0 where
  pub makes : net.makes_address opts.addr ≡ true
  pub opens : net.open_error ≡ none
  pub quiet :
      first_error (net.reuse_error ∷ net.linger_error ∷ net.bind_error ∷ net.listen_error ∷ [])
      ≡ none

module _ {Handler : Type 0} where
  -- What a successful `run` makes of a server.
  unfoldable pub running : HttpServerImpl Handler → HttpServerImpl Handler
  running s = record s {
    http_statistics = zero_statistics;
    stopped = false;
    is_open = true;
    accepts = suc s.accepts;
    io_threads = s.io_threads + (s.opts.thread_num - 1);
    s_id = 0;
  }

  pub run-running :
      (net : Network) (s : HttpServerImpl Handler)
      → IsValid s.opts
      → IsClear net s.opts
      → s.is_open ≡ false
      → run net s ≡ (running s, none)
  unfolding run listen start do_accept reset_all_http_statistics running
  run-running net s v c closed = ground arith

  -- The server with valid options whose acceptor is closed, on a network without errors.
  pub record IsReady (net : Network) (s : HttpServerImpl Handler) : Type 0 where
    pub valid : IsValid s.opts
    pub clear : IsClear net s.opts
    pub closed : s.is_open ≡ false

  -- A failed `run` starts no thread and no accept.
  pub record Refused (net : Network) (s t : HttpServerImpl Handler) : Type 0 where
    pub unready : ¬ IsReady net s
    pub opts_kept : t.opts ≡ s.opts
    pub router_kept : t.router ≡ s.router
    pub accepts_kept : t.accepts ≡ s.accepts
    pub threads_kept : t.io_threads ≡ s.io_threads
    pub closed_kept : t.is_open ≡ false → s.is_open ≡ false
    pub stopped_kept : t.stopped ≡ true → t ≡ s
    pub early : ¬ IsValid s.opts → t ≡ s
    pub late : IsValid s.opts → (t.stopped ≡ false) × (t.http_statistics ≡ zero_statistics)

  -- `run` of a server that is ready puts it to listen; any other `run` throws.
  abbrev pub RunOutcome :
      Network → HttpServerImpl Handler → HttpServerImpl Handler × Option Exception → Type 0
  RunOutcome net s result =
      (IsReady net s × (result ≡ (running s, none)))
      ⊎ ((t : HttpServerImpl Handler) × (e : Exception) × (result ≡ (t, some e)) × Refused net s t)

  -- A failure after the guards.
  late_failure :
      (net : Network) (s : HttpServerImpl Handler) (o : Bool) (e : Exception)
      → (o ≡ false → s.is_open ≡ false)
      → IsValid s.opts
      → ¬ IsReady net s
      → RunOutcome net s (
        record s { http_statistics = zero_statistics; stopped = false; is_open = o; s_id = 0 },
        some e,
      )
  late_failure net s o e keeps v unready = inr (
    _,
    e,
    refl,
    record {
      unready = unready;
      opts_kept = refl;
      router_kept = refl;
      accepts_kept = refl;
      threads_kept = refl;
      closed_kept = keeps;
      stopped_kept = λ p. cc;
      early = λ bad. absurd (bad v);
      late = λ _. (refl, refl);
    },
  )

  early_failure :
      (net : Network) (s : HttpServerImpl Handler) (e : Exception)
      → ¬ IsValid s.opts
      → RunOutcome net s (s, some e)
  early_failure net s e invalid = inr (
    s,
    e,
    refl,
    record {
      unready = λ r. invalid r.valid;
      opts_kept = refl;
      router_kept = refl;
      accepts_kept = refl;
      threads_kept = refl;
      closed_kept = λ p. p;
      stopped_kept = λ _. refl;
      early = λ _. refl;
      late = λ v. absurd (invalid v);
    },
  )

  -- The outcome of what `run` computes to.
  computes :
      (net : Network) (s : HttpServerImpl Handler)
      {result result' : HttpServerImpl Handler × Option Exception}
      → RunOutcome net s result'
      → result ≡ result'
      → RunOutcome net s result
  computes net s outcome e = subst (RunOutcome net s) (sym e) outcome

  listen-Outcome :
      (net : Network) (s : HttpServerImpl Handler)
      → IsValid s.opts
      → RunOutcome net s (listen net (reset_all_http_statistics (record s { s_id = 0 })))
  unfolding listen start do_accept reset_all_http_statistics running
  listen-Outcome net s v = elim (Bool-cases (net.makes_address s.opts.addr)) [
    | inr bad ↦
        computes net s
          (late_failure net s s.is_open system_error (λ p. p) v (λ r. cc (r.clear.makes, bad)))
          (rw bad refl)
    | inl good ↦ elim (Bool-cases s.is_open) [
      | inl open' ↦
          computes net s
            (late_failure net s s.is_open (runtime_error "Already open") (λ p. p) v
              (λ r. cc (r.closed, open')))
            (ground arith)
      | inr closed ↦ elim (Option-cases net.open_error) [
        | inr (m, failed) ↦
            computes net s
              (late_failure net s s.is_open (runtime_error m) (λ p. p) v
                (λ r. cc (r.clear.opens, failed)))
              (ground arith)
        | inl opens ↦
            elim (Option-cases (
              first_error
                (net.reuse_error ∷ net.linger_error ∷ net.bind_error ∷ net.listen_error ∷ []))) [
                  | inr (m, failed) ↦
                      computes net s
                        (late_failure net s true (runtime_error m) (λ p. cc) v
                          (λ r. cc (r.clear.quiet, failed)))
                        (ground arith)
                  | inl quiet ↦
                      computes net s
                        (inl (
                          record {
                            valid = v;
                            clear = record { makes = good; opens = opens; quiet = quiet };
                            closed = closed;
                          },
                          refl,
                        ))
                        (rw (good, closed, opens, quiet) refl)
                ]
      ]
    ]
  ]

  -- On any network: `run` of a server that has valid options and whose acceptor is closed, on a
  -- network without errors, starts to listen, with fresh counters, one accept more, and all threads
  -- but its own. Any other `run` throws and starts neither; with options that are not valid it
  -- leaves the server as it was, and with valid ones it has reset the counters and restarted the
  -- context.
  pub run-Outcome : (net : Network) (s : HttpServerImpl Handler) → RunOutcome net s (run net s)
  unfolding run
  run-Outcome net s = elim (Bool-cases (s.opts.thread_num == 0)) [
    | inl idle ↦
        computes net s
          (early_failure net s (runtime_error "thread count should > 0")
            (λ v. v.threads (ground arith)))
          (rw idle refl)
    | inr busy ↦ elim (Bool-cases (s.opts.max_request_size == 0)) [
      | inl tiny ↦
          computes net s
            (early_failure net s (runtime_error "max request should > 0")
              (λ v. v.size (ground arith)))
            (rw (busy, tiny) refl)
      | inr large ↦ elim (List-cases s.opts.addr) [
        | inl nowhere ↦
            computes net s
              (early_failure net s (runtime_error "addr is empty") (λ v. v.address nowhere))
              (ground arith)
        | inr (c, cs, at) ↦
            computes net s
              (listen-Outcome net s (record {
                threads = λ e. ground arith;
                size = λ e. ground arith;
                address = λ e. cc (e, at);
              }))
              (ground arith)
      ]
    ]
  ]
