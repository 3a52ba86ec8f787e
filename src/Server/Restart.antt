-- ===== src/Server/Restart.antt =====
-- src/http_server_impl.cpp: a server that is stopped runs again.
use httpserver_cpp.Base.{
  ℕ, suc, ◌+◌, ◌-◌, ◌≡◌, refl, sym, ◌∙◌, subst, inl, inr, true, false, List, [], ◌∷◌, Option, none,
  some, Bytes, arith,
}
use httpserver_cpp.Base.Result.{Exception}
use httpserver_cpp.Types.{HttpServerOptions}
use httpserver_cpp.Statistics.{zero_statistics}
use httpserver_cpp.Router.{insert}
use httpserver_cpp.Server.{HttpServerImpl, Network, http_server_impl, run, stop, register_handler}
use httpserver_cpp.Server.Calls.{
  Call, run_call, stop_call, register_call, call, all_calls, Result-cases,
}
use httpserver_cpp.Server.Control.{IsValid, IsClear, running, run-running, run-Outcome}

abbrev pub succeeded : Option Exception → ℕ
succeeded none = 1
succeeded (some e) = 0

module _ {Handler : Type 0} where
  -- A server that listens.
  pub record IsListening (opts : HttpServerOptions) (t : HttpServerImpl Handler) : Type 0 where
    pub opts_kept : t.opts ≡ opts
    pub acceptor_open : t.is_open ≡ true
    pub context_runs : t.stopped ≡ false
    pub pool : t.io_threads ≡ opts.thread_num - 1
    pub fresh_counters : t.http_statistics ≡ zero_statistics
    pub fresh_ids : t.s_id ≡ 0

module _ {Handler : Type 0} (segments_view : Bytes → Option (List Bytes)) where
  abbrev pub run_count : Call Handler → HttpServerImpl Handler → ℕ
  run_count (run_call net) s = succeeded (run net s).1
  run_count stop_call s = 0
  run_count (register_call path handler) s = 0

  -- The calls of `run` among them that do not throw.
  unfoldable pub runs_succeeded : List (Call Handler) → HttpServerImpl Handler → ℕ
  runs_succeeded [] s = 0
  runs_succeeded (c ∷ cs) s = run_count c s + runs_succeeded cs (call segments_view c s)

  record IsSound (opts : HttpServerOptions) (n : ℕ) (s : HttpServerImpl Handler) : Type 0 where
    opts_kept : s.opts ≡ opts
    counted : s.accepts ≡ n
    idle : s.is_open ≡ false → s.io_threads ≡ 0
    halted : s.stopped ≡ true → s.is_open ≡ false

  run-IsSound :
      (opts : HttpServerOptions) (n : ℕ) (net : Network) (s : HttpServerImpl Handler)
      → IsSound opts n s
      → IsSound opts (succeeded (run net s).1 + n) (run net s).0
  unfolding running
  run-IsSound opts n net s i = elim (run-Outcome net s) [
    | inl (ready, e) ↦ rw e (record {
      opts_kept = i.opts_kept;
      counted = omega arith;
      idle = λ p. cc;
      halted = λ p. cc;
    })
    | inr (t, x, e, r) ↦
        rw e (
          ground
            (arith, r.opts_kept, r.accepts_kept, r.threads_kept, r.closed_kept, r.stopped_kept))
  ]

  stop-IsSound :
      (opts : HttpServerOptions) (n : ℕ) (s : HttpServerImpl Handler)
      → IsSound opts n s
      → IsSound opts n (stop s) × ((stop s).is_open ≡ false)
  unfolding stop
  stop-IsSound opts n s i = ground arith

  register-IsSound :
      (opts : HttpServerOptions) (n : ℕ) (path : Bytes) (handler : Option Handler)
      (s : HttpServerImpl Handler)
      → IsSound opts n s
      → IsSound opts n (call segments_view (register_call path handler) s)
  unfolding call register_handler
  register-IsSound opts n path handler s i =
      elim (Result-cases (insert segments_view path handler s.router)) [
        | inl (h, went) ↦
            rw (call, went)
              (record {
                opts_kept = i.opts_kept;
                counted = i.counted;
                idle = i.idle;
                halted = i.halted;
              })
        | inr (inl (e, thrown)) ↦ rw (call, thrown) i
        | inr (inr broken) ↦ rw (call, broken) i
      ]

  recount :
      (opts : HttpServerOptions) (s : HttpServerImpl Handler) {n m : ℕ}
      → IsSound opts n s
      → n ≡ m
      → IsSound opts m s
  recount opts s i e = subst (λ k. IsSound opts k s) e i

  call-IsSound :
      (opts : HttpServerOptions) (n : ℕ) (c : Call Handler) (s : HttpServerImpl Handler)
      → IsSound opts n s
      → IsSound opts (run_count c s + n) (call segments_view c s)
  unfolding call
  call-IsSound opts n (run_call net) s i = run-IsSound opts n net s i
  call-IsSound opts n stop_call s i =
      recount opts (stop s) (stop-IsSound opts n s i).0 (omega arith)
  call-IsSound opts n (register_call path handler) s i =
      recount opts _ (register-IsSound opts n path handler s i) (omega arith)

  all_calls-IsSound :
      (opts : HttpServerOptions) (n : ℕ) (cs : List (Call Handler)) (s : HttpServerImpl Handler)
      → IsSound opts n s
      → IsSound opts (runs_succeeded cs s + n) (all_calls segments_view cs s)
  unfolding all_calls runs_succeeded
  all_calls-IsSound opts n [] s i = recount opts s i (omega arith)
  all_calls-IsSound opts n (c ∷ cs) s i =
      recount opts (all_calls segments_view cs (call segments_view c s))
        (all_calls-IsSound opts (run_count c s + n) cs (call segments_view c s)
          (call-IsSound opts n c s i))
        (omega arith)

  new-IsSound :
      (opts : HttpServerOptions) (last_id : ℕ) → IsSound opts 0 (http_server_impl opts last_id)
  unfolding http_server_impl
  new-IsSound opts last_id = record {
    opts_kept = refl;
    counted = refl;
    idle = λ _. refl;
    halted = λ _. refl;
  }

  -- Once the context of such a server is stopped, no thread of the pool is left.
  pub all_calls_idle :
      (cs : List (Call Handler)) (opts : HttpServerOptions) (last_id : ℕ)
      → (all_calls segments_view cs (http_server_impl opts last_id)).stopped ≡ true
      → (all_calls segments_view cs (http_server_impl opts last_id)).io_threads ≡ 0
  all_calls_idle cs opts last_id e =
      let i =
        all_calls-IsSound opts 0 cs (http_server_impl opts last_id) (new-IsSound opts last_id) in
      i.idle (i.halted e)

  listens :
      (opts : HttpServerOptions) (s : HttpServerImpl Handler)
      → s.opts ≡ opts
      → s.io_threads ≡ 0
      → IsListening opts (running s) × ((running s).accepts ≡ suc s.accepts)
  unfolding running
  listens opts s same idle = ground arith

  -- `run` throws while the acceptor is open.
  busy :
      (net : Network) (s : HttpServerImpl Handler)
      → s.is_open ≡ true
      → (e : Exception) × ((run net s).1 ≡ some e)
  busy net s open' = elim (run-Outcome net s) [
    | inl (ready, e) ↦ cc (ready.closed, open')
    | inr (t, x, e, r) ↦ (x, rw e refl)
  ]

  -- After any calls of `run`, `stop` and `registerHandler` on a new server with valid options,
  -- failed calls included: `stop` and then `run` on a network without errors succeeds. The server
  -- listens with its options, a thread pool of `thread_num - 1` and fresh counters, and a second
  -- `run`, on any network, throws. But one accept is pending for each `run` that ever succeeded.
  pub restarts :
      (cs : List (Call Handler)) (opts : HttpServerOptions) (last_id : ℕ) (net : Network)
      → IsValid opts
      → IsClear net opts
      → (t : HttpServerImpl Handler) × (run net
            (stop (all_calls segments_view cs (http_server_impl opts last_id)))
          ≡ (t, none))
        × IsListening opts t
        × (t.accepts ≡ suc (runs_succeeded cs (http_server_impl opts last_id)))
        × ((again : Network) → (e : Exception) × ((run again t).1 ≡ some e))
  restarts cs opts last_id net v c =
      let s = all_calls segments_view cs (http_server_impl opts last_id) in
      let (i, closed) =
        stop-IsSound opts _ s (
          all_calls-IsSound opts 0 cs (http_server_impl opts last_id) (new-IsSound opts last_id)) in
      let same = sym i.opts_kept in
      let (listening, more) = listens opts (stop s) i.opts_kept (i.idle closed) in
      (
        running (stop s),
        run-running net (stop s) (subst IsValid same v) (subst (IsClear net) same c) closed,
        listening,
        more ∙ omega (arith, i.counted),
        λ again. busy again (running (stop s)) listening.acceptor_open,
      )
