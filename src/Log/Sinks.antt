-- ===== src/Log/Sinks.antt =====
-- src/http_log.cpp: the sinks that `initLog` makes.
use mathlib.Core.List.{append-nil}
use httpserver_cpp.Base.{
  ℕ, ◌≡◌, refl, sym, ◌∙◌, ap, subst, ◌≢◌, ◌⊎◌, inl, inr, true, ◌||◌, List, [], ◌∷◌, ◌++◌, Bytes,
  List-cases, ◌==◌, if◌then◌else◌, Bool-cases, arith,
}
use httpserver_cpp.Base.Result.{Exception, runtime_error, spdlog_ex, Result, ok, throws}
use httpserver_cpp.Log.{
  FileModeOptions, LogOptions, Sink, stdout_color_sink, basic_file_sink, rotating_file_sink, Spdlog,
  add_file_sink, make_sinks, push_sink,
}

-- The sink of the file mode: it rotates if a size and a count are given.
abbrev pub file_sink : FileModeOptions → Sink
file_sink opts =
    if opts.file_size == 0 || opts.files_count == 0
    then basic_file_sink opts.file_name opts.truncate
    else rotating_file_sink opts.file_name opts.file_size opts.files_count

-- The sinks that the options ask for.
abbrev pub sinks_for : LogOptions → List Sink
sinks_for opts =
    (if opts.enable_console_mode then stdout_color_sink ∷ [] else [])
    ++ (if opts.enable_file_mode then file_sink opts.file_mode_options ∷ [] else [])

module _ (L : Spdlog) where
  open L use {Logger, makes_sink, makes_pool, new_logger, async_logger, set_pattern}

  pub record HasSinks (opts : LogOptions) : Type 0 where
    pub console : opts.enable_console_mode ≡ true → makes_sink stdout_color_sink ≡ true
    pub named : opts.enable_file_mode ≡ true → opts.file_mode_options.file_name ≢ []
    pub file : opts.enable_file_mode ≡ true → makes_sink (file_sink opts.file_mode_options) ≡ true

  add_file_sink_named :
      (opts : FileModeOptions) (sinks : List Sink) (c : ℕ) (cs : Bytes)
      → opts.file_name ≡ c ∷ cs
      → add_file_sink L opts sinks ≡ push_sink L (file_sink opts) sinks
  unfolding add_file_sink
  add_file_sink_named opts sinks c cs at =
      elim (Bool-cases (opts.file_size == 0 || opts.files_count == 0)) [
        | inl basic ↦ rw (at, basic, add_file_sink) refl
        | inr rotates ↦ rw (at, rotates, add_file_sink) refl
      ]

  add_file_sink_lem :
      (opts : FileModeOptions) (sinks : List Sink)
      → ((opts.file_name ≢ [])
          × (makes_sink (file_sink opts) ≡ true)
          × (add_file_sink L opts sinks ≡ ok (sinks ++ file_sink opts ∷ [])))
        ⊎ (((opts.file_name ≢ []) → ¬ (makes_sink (file_sink opts) ≡ true))
            × (e : Exception) × (add_file_sink L opts sinks ≡ throws e))
  unfolding add_file_sink
  add_file_sink_lem opts sinks = elim (List-cases opts.file_name) [
    | inl nameless ↦ inr (
      λ named. absurd (named nameless),
      runtime_error "logger filename is empty when file mode enable",
      ground (arith, nameless),
    )
    | inr (c, cs, at) ↦ elim (Bool-cases (makes_sink (file_sink opts))) [
      | inl made ↦
          inl (λ e. cc (e, at), made, add_file_sink_named opts sinks c cs at ∙ rw made refl)
      | inr fails ↦ inr (
        λ named made. cc (made, fails),
        spdlog_ex,
        add_file_sink_named opts sinks c cs at ∙ rw fails refl,
      )
    ]
  ]

  abbrev pub SinksOutcome : LogOptions → Result (List Sink) → Type 0
  SinksOutcome opts result =
      (HasSinks opts × (result ≡ ok (sinks_for opts)))
      ⊎ ((¬ HasSinks opts) × (e : Exception) × (result ≡ throws e))

  -- The file mode, after the console mode has worked.
  file_mode :
      (opts : LogOptions) (sinks : List Sink)
      → (opts.enable_console_mode ≡ true → makes_sink stdout_color_sink ≡ true)
      → sinks ≡ (if opts.enable_console_mode then stdout_color_sink ∷ [] else [])
      → SinksOutcome opts
          (if opts.enable_file_mode then add_file_sink L opts.file_mode_options sinks else ok sinks)
  file_mode opts sinks works shown = elim (Bool-cases opts.enable_file_mode) [
    | inr off ↦ inl (
      record { console = works; named = λ on. cc (on, off); file = λ on. cc (on, off) },
      rw off (ap ok (shown ∙ sym (append-nil _))),
    )
    | inl on ↦ elim (add_file_sink_lem opts.file_mode_options sinks) [
      | inl (named, made, added) ↦ inl (
        record { console = works; named = λ _. named; file = λ _. made },
        rw on (added ∙ ap (λ l. ok (l ++ file_sink opts.file_mode_options ∷ [])) shown),
      )
      | inr (fails, e, threw) ↦ inr (λ h. fails (h.named on) (h.file on), e, rw on threw)
    ]
  ]

  pub make_sinks_lem : (opts : LogOptions) → SinksOutcome opts (make_sinks L opts)
  unfolding make_sinks
  make_sinks_lem opts = elim (Bool-cases opts.enable_console_mode) [
    | inl console ↦ elim (Bool-cases (makes_sink stdout_color_sink)) [
      | inr broken ↦ inr (λ h. cc (h.console console, broken), spdlog_ex, rw (console, broken) refl)
      | inl works ↦
          subst (SinksOutcome opts) (rw (console, works) refl)
            (file_mode opts (stdout_color_sink ∷ []) (λ _. works) (rw console refl))
    ]
    | inr silent ↦
        subst (SinksOutcome opts) (rw silent refl)
          (file_mode opts [] (λ on. cc (on, silent)) (rw silent refl))
  ]
