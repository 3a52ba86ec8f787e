-- ===== src/Log/Setup.antt =====
-- src/http_log.cpp: every branch of `initLog`, and a second call.
use httpserver_cpp.Base.{
  ◌≡◌, refl, sym, ◌∙◌, ap, subst, ◌≢◌, ◌⊎◌, inl, inr, true, false, ◌||◌, List, [], ◌∷◌, Option,
  none, some, List-cases, ◌==◌, if◌then◌else◌, Bool-cases, arith,
}
use httpserver_cpp.Base.Result.{Exception, runtime_error, spdlog_ex, ok}
use httpserver_cpp.Log.{
  LogOptions, Sink, Spdlog, Log, default_log_name, default_log_pattern, make_sinks, set_logger,
  init_log,
}
use httpserver_cpp.Log.Sinks.{sinks_for, HasSinks, make_sinks_lem}

module _ (L : Spdlog) where
  open L use {Logger, makes_sink, makes_pool, new_logger, async_logger, set_pattern}

  -- The options that `initLog` accepts.
  pub record IsUsable (opts : LogOptions) : Type 0 where
    pub sinks : HasSinks L opts
    pub some_sink : sinks_for opts ≢ []
    pub async :
        opts.enable_async_mode ≡ true
        → (opts.async_mode_options.queue_size ≢ 0)
          × (opts.async_mode_options.thread_count ≢ 0)
          × (makes_pool opts.async_mode_options.queue_size opts.async_mode_options.thread_count
              ≡ true)

  -- The log with the logger that the options ask for.
  abbrev pub configured : LogOptions → Log Logger → Log Logger
  configured opts s = record s {
    init_flag = true;
    pool =
        if opts.enable_async_mode
        then some (opts.async_mode_options.queue_size, opts.async_mode_options.thread_count)
        else s.pool;
    logger = set_pattern default_log_pattern (
        if opts.enable_async_mode
        then async_logger default_log_name (sinks_for opts)
        else new_logger default_log_name (sinks_for opts));
  }

  abbrev pub InitOutcome : LogOptions → Log Logger → Log Logger × Option Exception → Type 0
  InitOutcome opts s result =
      (IsUsable opts × (result ≡ (configured opts s, none)))
      ⊎ ((¬ IsUsable opts) × (e : Exception) × (result ≡ (record s { init_flag = true }, some e)))

  set_logger_lem :
      (opts : LogOptions) (s : Log Logger)
      → HasSinks L opts
      → sinks_for opts ≢ []
      → InitOutcome opts s (set_logger L opts (sinks_for opts) (record s { init_flag = true }))
  unfolding set_logger
  set_logger_lem opts s h some' = elim (Bool-cases opts.enable_async_mode) [
    | inr sync ↦
        inl (record { sinks = h; some_sink = some'; async = λ on. cc (on, sync) }, rw sync refl)
    | inl async ↦
        elim (Bool-cases
          (opts.async_mode_options.queue_size == 0 || opts.async_mode_options.thread_count == 0)) [
            | inl zero_size ↦ inr (
              λ u. ground (arith, (u.async async).0, (u.async async).1),
              runtime_error "logger queue size or thread count is invalid",
              rw (async, zero_size) refl,
            )
            | inr sizes ↦
                elim (Bool-cases (
                  makes_pool opts.async_mode_options.queue_size
                    opts.async_mode_options.thread_count)) [
                      | inl pool ↦ inl (
                        record {
                          sinks = h;
                          some_sink = some';
                          async = λ on. (λ e. ground arith, λ e. ground arith, pool);
                        },
                        rw (async, sizes, pool) refl,
                      )
                      | inr fails ↦ inr (
                        λ u. cc ((u.async async).2, fails),
                        spdlog_ex,
                        rw (async, sizes, fails) refl,
                      )
                    ]
          ]
  ]

  proceeds :
      (opts : LogOptions) (s : Log Logger) (found : List Sink)
      → make_sinks L opts ≡ ok found
      → s.init_flag ≡ false
      → found ≢ []
      → init_log L opts s ≡ set_logger L opts found (record s { init_flag = true })
  unfolding init_log
  proceeds opts s [] made first some' = absurd (some' refl)
  proceeds opts s (sink ∷ sinks) made first some' = rw (first, made) refl

  -- The first call of `initLog` succeeds exactly if each sink that is asked for can be made, there is
  -- at least one, a file has a name, and the asynchronous mode has a queue, threads and a pool. Then
  -- the logger has exactly those sinks and the default name and pattern; otherwise the call throws,
  -- and the log keeps its logger and its pool.
  pub init_log-Outcome :
      (opts : LogOptions) (s : Log Logger)
      → s.init_flag ≡ false
      → InitOutcome opts s (init_log L opts s)
  unfolding init_log
  init_log-Outcome opts s first = elim (make_sinks_lem L opts) [
    | inr (fails, e, threw) ↦ inr (λ u. fails u.sinks, e, rw (first, threw) refl)
    | inl (h, made) ↦ elim (List-cases (sinks_for opts)) [
      | inl bare ↦ inr (
        λ u. u.some_sink bare,
        runtime_error "there is no valid logger sinks",
        rw (first, made, bare) refl,
      )
      | inr (sink, sinks, at) ↦
          subst (InitOutcome opts s)
            (sym (proceeds opts s (sinks_for opts) made first (λ e. cc (e, at))))
            (set_logger_lem opts s h (λ e. cc (e, at)))
    ]
  ]

  refuses :
      (opts : LogOptions) (s : Log Logger)
      → s.init_flag ≡ true
      → init_log L opts s ≡ (
        s,
        some (
            runtime_error
              "logger was already initialized, call the function once at program start (or never)"),
      )
  unfolding init_log
  refuses opts s again = ground arith

  init_log-flag : (opts : LogOptions) (s : Log Logger) → (init_log L opts s).0.init_flag ≡ true
  init_log-flag opts s = elim (Bool-cases s.init_flag) [
    | inl again ↦ ap (λ r. r.0.init_flag) (refuses opts s again) ∙ again
    | inr first ↦ elim (init_log-Outcome opts s first) [
      | inl (usable, e) ↦ ap (λ r. r.0.init_flag) e
      | inr (unusable, x, e) ↦ ap (λ r. r.0.init_flag) e
    ]
  ]

  -- A call of `initLog`, whether it succeeds or throws, makes each later call throw and change
  -- nothing.
  pub init_log_again :
      (o₁ o₂ : LogOptions) (s : Log Logger)
      → init_log L o₂ (init_log L o₁ s).0 ≡ (
        (init_log L o₁ s).0,
        some (
            runtime_error
              "logger was already initialized, call the function once at program start (or never)"),
      )
  init_log_again o₁ o₂ s = refuses o₂ (init_log L o₁ s).0 (init_log-flag o₁ s)
