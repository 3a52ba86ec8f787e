-- ===== src/Server/Accounted.antt =====
-- src/http_server_impl.cpp and src/http_session.cpp: what the counters tell of the sessions.
use httpserver_cpp.Base.{
  ℕ, suc, ◌+◌, ◌%◌, ◌^◌, ◌<◌, ◌≤◌, ◌≡◌, refl, sym, ◌∙◌, ap, subst, inl, inr, List, [], ◌∷◌, ◌++◌,
  none, some, length, length-append, All, All-append, append-All, arith,
}
use httpserver_cpp.Statistics.{zero_statistics}
use httpserver_cpp.Request.{HttpRequest}
use httpserver_cpp.Response.{HttpResponse}
use httpserver_cpp.Router.Shape.{IsTree}
use httpserver_cpp.Platform.{Platform}
use httpserver_cpp.Platform.Documented.{RequestLaws, FreshLaws}
use httpserver_cpp.Session.{ErrorCode, do_close, do_read, destroy, http_session, run as run_session}
use httpserver_cpp.Session.Lifecycle.{Config, Step, Phase, IsSequential, SendsOnce}
use httpserver_cpp.Session.Sequential.{Step-IsSequential}
use httpserver_cpp.Server.{Live, World, on_accept, do_accept, stop}
use httpserver_cpp.Server.Calls.{stop_keeps}
use httpserver_cpp.Server.Counters.{due, debt, IsBalanced, Step-Keeps}
use httpserver_cpp.Server.Running.{
  config, live, counting, session_step, accept_done, freed, stop_called, other_server, WorldReach,
  at_start, then, dues, dues_around, dropped_count, IsAccounted,
}

module _ (P : Platform) {Handler : Type 0}
    (handle : Handler → HttpRequest → List HttpResponse) where
  open P use {Request, Response}

  abbrev W : Type 0
  W = World Request Response Handler

  abbrev Fine : W → Live Request Response → Type 0
  Fine w l = Phase P handle w.server.opts w.server.router (config P handle zero_statistics l)

  length_around :
      (before after : List (Live Request Response)) (l : Live Request Response)
      → length (before ++ l ∷ after) ≡ suc (length (before ++ after))
  length_around before after l =
      omega (arith, length-append before (l ∷ after), length-append before after)

  -- What the invariant says of one of the sessions and of the others.
  pub record IsAround (n : ℕ) (w : W) (before after : List (Live Request Response))
      (l : Live Request Response) : Type 0 where
    pub before_fine : All (Fine w) before
    pub after_fine : All (Fine w) after
    pub fine : Fine w l
    pub census : w.server.http_statistics.session_cnt ≡ suc (length (before ++ after)) % 2 ^ 32
    pub balance :
        IsBalanced
          (due (config P handle zero_statistics l) + (dues P handle (before ++ after) + n))
          w.server.http_statistics

  pub around :
      (n : ℕ) (w : W) (before after : List (Live Request Response)) (l : Live Request Response)
      → w.sessions ≡ before ++ l ∷ after
      → IsAccounted P handle n w
      → IsAround n w before after l
  around n w before after l split i =
      let (front, rest) =
        All-append (Fine w) before (l ∷ after) (subst (All (Fine w)) split i.phases) in
      record {
        before_fine = front;
        after_fine = rest.1;
        fine = rest.0;
        census =
            i.census
            ∙ ap (λ ls. length ls % 2 ^ 32) split
            ∙ ap (λ k. k % 2 ^ 32) (length_around before after l);
        balance =
            subst (λ k. IsBalanced k w.server.http_statistics)
              (omega (arith, ap (dues P handle) split, dues_around P handle before after l))
              i.balance;
      }

  freed-IsAccounted :
      (n : ℕ) (w : W) (before after : List (Live Request Response)) (l : Live Request Response)
      → w.sessions ≡ before ++ l ∷ after
      → l.session.pending ≡ []
      → IsAccounted P handle n w
      → IsAccounted P handle (debt l.owed + n) (record {
        server =
            counting P handle
              (destroy P (config P handle w.server.http_statistics l).state).statistics
              w.server;
        sessions = before ++ after;
      })
  unfolding destroy do_close
  freed-IsAccounted n w before after l split idle i =
      let a = around n w before after l split i in
      record {
        phases = append-All (Fine w) before after a.before_fine a.after_fine;
        fits = i.fits;
        census = omega (arith, a.census);
        balance = ground (arith, a.balance.handled, a.balance.brought_out);
        tree = i.tree;
      }

  stop-IsAccounted :
      (n : ℕ) (w : W)
      → IsAccounted P handle n w
      → IsAccounted P handle n (record w { server = stop w.server })
  stop-IsAccounted n w i =
      let (same, opts_kept, router_kept) = stop_keeps w.server in
      record {
        phases =
            subst
              (λ o.
                All (λ l. Phase P handle o w.server.router (config P handle zero_statistics l))
                  w.sessions)
              (sym opts_kept) i.phases;
        fits = subst (λ st. st.working_handler_cnt < 2 ^ 64) (sym same) i.fits;
        census = ap (λ st. st.session_cnt) same ∙ i.census;
        balance = subst (IsBalanced (dues P handle w.sessions + n)) (sym same) i.balance;
        tree = subst IsTree (sym router_kept) i.tree;
      }

  other-IsAccounted :
      (n : ℕ) (w : W) (id : ℕ)
      → IsAccounted P handle n w
      → IsAccounted P handle n (record w { server = record (w.server) { s_id = id } })
  other-IsAccounted n w id i = record {
    phases = i.phases;
    fits = i.fits;
    census = i.census;
    balance = i.balance;
    tree = i.tree;
  }

  accept_failed :
      (n : ℕ) (w : W) (accepts : ℕ) (e : ErrorCode) (request : Request)
      → IsAccounted P handle n w
      → IsAccounted P handle n (
          on_accept P
            (some e)
            request
            (record w { server = record (w.server) { accepts = accepts } }))
  unfolding on_accept do_accept
  accept_failed n w accepts e request i = record {
    phases = i.phases;
    fits = i.fits;
    census = i.census;
    balance = i.balance;
    tree = i.tree;
  }

  accepted :
      (n : ℕ) (w : W) (accepts : ℕ) (request : Request)
      → FreshLaws P
      → IsAccounted P handle n w
      → IsAccounted P handle n
          (on_accept P none request (record w { server = record (w.server) { accepts = accepts } }))
  unfolding on_accept do_accept http_session run_session do_read dues
  accepted n w accepts request fresh i = record {
    phases = (inr (inl (refl, refl, refl, refl, fresh.fresh-new)), i.phases);
    fits = i.fits;
    census = omega (arith, i.census);
    balance = record {
      handled = i.balance.handled;
      brought_out = omega (arith, i.balance.brought_out);
    };
    tree = i.tree;
  }

  moved-IsAccounted :
      (n : ℕ) (w : W) (before after : List (Live Request Response)) (l : Live Request Response)
      (d : Config Request Response)
      → SendsOnce P handle w.server.opts w.server.router
      → RequestLaws P
      → FreshLaws P
      → w.sessions ≡ before ++ l ∷ after
      → Step P handle w.server.opts w.server.router (config P handle w.server.http_statistics l) d
      → IsAccounted P handle n w
      → IsAccounted P handle n (record {
        server = counting P handle d.state.statistics w.server;
        sessions = before ++ live P handle d ∷ after;
      })
  moved-IsAccounted n w before after l d once laws fresh split st i =
      let a = around n w before after l split i in
      let seq : IsSequential P handle w.server.opts w.server.router
          (config P handle w.server.http_statistics l) =
        record { phase = a.fine; fits = i.fits } in
      let seq' =
        Step-IsSequential P handle w.server.opts w.server.router once i.tree laws fresh st seq in
      let (same, number, keeps) =
        Step-Keeps P handle w.server.opts w.server.router once i.tree laws st seq in
      record {
        phases =
            append-All (Fine w) before (live P handle d ∷ after) a.before_fine
              (seq'.phase, a.after_fine);
        fits = seq'.fits;
        census =
            same
            ∙ a.census
            ∙ ap (λ k. k % 2 ^ 32) (sym (length_around before after (live P handle d)));
        balance =
            subst (λ k. IsBalanced k d.state.statistics)
              (omega (arith, dues_around P handle before after (live P handle d)))
              (keeps (dues P handle (before ++ after) + n) a.balance);
        tree = i.tree;
      }

  module _ (laws : RequestLaws P) (fresh : FreshLaws P) where
    pub WorldReach-IsAccounted :
        (once : (h : Handler) (r : HttpRequest) → length (handle h r) ≤ 1) {w v : W}
        (r : WorldReach P handle w v)
        → IsAccounted P handle 0 w
        → IsAccounted P handle (dropped_count P handle r) v
    unfolding dropped_count
    WorldReach-IsAccounted once at_start i = i
    WorldReach-IsAccounted once (then {v} r (session_step before after l d split st awake)) i =
        moved-IsAccounted _ v before after l d once laws fresh split st
          (WorldReach-IsAccounted once r i)
    WorldReach-IsAccounted once (then {v} r (accept_done n none request e awake)) i =
        accepted _ v n request fresh (WorldReach-IsAccounted once r i)
    WorldReach-IsAccounted once (then {v} r (accept_done n (some e') request e awake)) i =
        accept_failed _ v n e' request (WorldReach-IsAccounted once r i)
    WorldReach-IsAccounted once (then {v} r (freed before after l split idle)) i =
        freed-IsAccounted _ v before after l split idle (WorldReach-IsAccounted once r i)
    WorldReach-IsAccounted once (then {v} r stop_called) i =
        stop-IsAccounted _ v (WorldReach-IsAccounted once r i)
    WorldReach-IsAccounted once (then {v} r (other_server id set)) i =
        other-IsAccounted _ v id (WorldReach-IsAccounted once r i)
