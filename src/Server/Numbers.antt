-- ===== src/Server/Numbers.antt =====
-- src/http_session.cpp: the numbers that `s_id` gives to the sessions.
use mathlib.Core.List.{map-append}
use httpserver_cpp.Base.{
  ℕ, suc, ◌+◌, ◌%◌, ◌^◌, ◌<◌, ◌≤◌, ◌≡◌, refl, sym, ◌∙◌, ap, subst, ◌≢◌, inl, inr, List, [], ◌∷◌,
  ◌++◌, map, Option, none, some, length, All, Bytes, arith,
}
use httpserver_cpp.Base.Distinct.{Distinct, All-drop, Distinct-drop, above}
use httpserver_cpp.Types.{HttpServerOptions}
use httpserver_cpp.Request.{HttpRequest}
use httpserver_cpp.Response.{HttpResponse}
use httpserver_cpp.Platform.{Platform}
use httpserver_cpp.Platform.Documented.{RequestLaws, FreshLaws}
use httpserver_cpp.Session.{ErrorCode, do_read, http_session, run as run_session}
use httpserver_cpp.Session.Lifecycle.{Config, Step}
use httpserver_cpp.Server.{
  Network, http_server_impl, run, stop, do_accept, HttpServerImpl, Live, World, on_accept,
}
use httpserver_cpp.Server.Calls.{Call, all_calls, all_calls-IsTree}
use httpserver_cpp.Server.Control.{running, run-Outcome}
use httpserver_cpp.Server.Counters.{Step-Keeps}
use httpserver_cpp.Server.Running.{
  config, live, session_step, accept_done, freed, stop_called, other_server, WorldReach, at_start,
  then, IsAccounted,
}
use httpserver_cpp.Server.Accounted.{around, WorldReach-IsAccounted}
use httpserver_cpp.Server.Told.{start-IsAccounted, new-IsTree}

module _ (P : Platform) {Handler : Type 0}
    (handle : Handler → HttpRequest → List HttpResponse) where
  open P use {Request, Response}

  abbrev W : Type 0
  W = World Request Response Handler

  abbrev pub ids : List (Live Request Response) → List ℕ
  ids ls = map (λ l. l.session.id) ls

  -- The sessions that have been accepted.
  unfoldable pub accept_count : {w v : W} → WorldReach P handle w v → ℕ
  accept_count at_start = 0
  accept_count (then r (session_step before after l d split st awake)) = accept_count r
  accept_count (then r (accept_done n none request e awake)) = suc (accept_count r)
  accept_count (then r (accept_done n (some ec) request e awake)) = accept_count r
  accept_count (then r (freed before after l split idle)) = accept_count r
  accept_count (then r stop_called) = accept_count r
  accept_count (then r (other_server id set)) = accept_count r

  -- What other servers of the process do to `s_id`.
  unfoldable pub other_count : {w v : W} → WorldReach P handle w v → ℕ
  other_count at_start = 0
  other_count (then r (session_step before after l d split st awake)) = other_count r
  other_count (then r (accept_done n ec request e awake)) = other_count r
  other_count (then r (freed before after l split idle)) = other_count r
  other_count (then r stop_called) = other_count r
  other_count (then r (other_server id set)) = suc (other_count r)

  pub record IsNumbered (n : ℕ) (w : W) : Type 0 where
    pub last : w.server.s_id ≡ n
    pub within : All (λ k. (0 < k) × (k ≤ n)) (ids w.sessions)
    pub distinct : Distinct (ids w.sessions)

  ids_append :
      (before after : List (Live Request Response))
      → ids (before ++ after) ≡ ids before ++ ids after
  ids_append before after = map-append (λ l. l.session.id) before after

  freed-IsNumbered :
      (n : ℕ) (w : W) (before after : List (Live Request Response)) (l : Live Request Response)
      (server : HttpServerImpl Handler)
      → w.sessions ≡ before ++ l ∷ after
      → server.s_id ≡ w.server.s_id
      → IsNumbered n w
      → IsNumbered n (record { server = server; sessions = before ++ after })
  freed-IsNumbered n w before after l server split same i =
      let apart = ap ids split ∙ ids_append before (l ∷ after) in
      let joined = sym (ids_append before after) in
      let Within = All (λ k. (0 < k) × (k ≤ n)) in
      record {
        last = same ∙ i.last;
        within = subst Within joined (
            All-drop (λ k. (0 < k) × (k ≤ n)) (ids before) (ids after) l.session.id
              (subst Within apart i.within));
        distinct =
            subst Distinct joined (
              Distinct-drop (ids before) (ids after) l.session.id
                (subst Distinct apart i.distinct));
      }

  moved-IsNumbered :
      (n : ℕ) (w : W) (before after : List (Live Request Response)) (l m : Live Request Response)
      (server : HttpServerImpl Handler)
      → w.sessions ≡ before ++ l ∷ after
      → m.session.id ≡ l.session.id
      → server.s_id ≡ w.server.s_id
      → IsNumbered n w
      → IsNumbered n (record { server = server; sessions = before ++ m ∷ after })
  moved-IsNumbered n w before after l m server split number same i =
      let unchanged : ids w.sessions ≡ ids (before ++ m ∷ after) =
        ap ids split
        ∙ ids_append before (l ∷ after)
        ∙ ap (λ k. ids before ++ k ∷ ids after) (sym number)
        ∙ sym (ids_append before (m ∷ after)) in
      record {
        last = same ∙ i.last;
        within = subst (All (λ k. (0 < k) × (k ≤ n))) unchanged i.within;
        distinct = subst Distinct unchanged i.distinct;
      }

  accepted-IsNumbered :
      (n : ℕ) (w : W) (accepts : ℕ) (request : Request)
      → suc n < 2 ^ 64
      → IsNumbered n w
      → IsNumbered
          (suc n)
          (on_accept P none request (record w { server = record (w.server) { accepts = accepts } }))
  unfolding on_accept do_accept http_session run_session do_read
  accepted-IsNumbered n w accepts request fits i =
      let (apart, wider) = above n (ids w.sessions) i.within in
      let new : (w.server.s_id + 1) % 2 ^ 64 ≡ suc n = omega (arith, i.last) in
      record {
        last = new;
        within = ((omega arith, omega arith), wider);
        distinct = (subst (λ k. All (λ y. y ≢ k) (ids w.sessions)) (sym new) apart, i.distinct);
      }

  refused-IsNumbered :
      (n : ℕ) (w : W) (accepts : ℕ) (e : ErrorCode) (request : Request)
      → IsNumbered n w
      → IsNumbered n (
          on_accept P
            (some e)
            request
            (record w { server = record (w.server) { accepts = accepts } }))
  unfolding on_accept do_accept
  refused-IsNumbered n w accepts e request i = record {
    last = i.last;
    within = i.within;
    distinct = i.distinct;
  }

  stop_number : (s : HttpServerImpl Handler) → (stop s).s_id ≡ s.s_id
  unfolding stop
  stop_number s = ground arith

  stopped-IsNumbered :
      (n : ℕ) (w : W) → IsNumbered n w → IsNumbered n (record w { server = stop w.server })
  stopped-IsNumbered n w i = record {
    last = stop_number w.server ∙ i.last;
    within = i.within;
    distinct = i.distinct;
  }

  module _ (laws : RequestLaws P) (fresh : FreshLaws P)
      (once : (h : Handler) (r : HttpRequest) → length (handle h r) ≤ 1) where
    number_kept :
        (n : ℕ) (w : W) (before after : List (Live Request Response)) (l : Live Request Response)
        (d : Config Request Response)
        → w.sessions ≡ before ++ l ∷ after
        → Step P handle w.server.opts w.server.router (config P handle w.server.http_statistics l) d
        → IsAccounted P handle n w
        → d.state.session.id ≡ l.session.id
    number_kept n w before after l d split st i =
        let a = around P handle n w before after l split i in
        let (same, number, keeps) =
          Step-Keeps P handle w.server.opts w.server.router once i.tree laws st
            (record { phase = a.fine; fits = i.fits }) in
        number

    WorldReach-IsNumbered :
        {w v : W} (r : WorldReach P handle w v)
        → IsAccounted P handle 0 w
        → IsNumbered 0 w
        → accept_count r < 2 ^ 64
        → other_count r ≡ 0
        → IsNumbered (accept_count r) v
    unfolding accept_count other_count
    WorldReach-IsNumbered at_start a i fits alone = i
    WorldReach-IsNumbered (then {v} r (session_step before after l d split st awake)) a i fits
          alone =
        moved-IsNumbered _ v before after l (live P handle d) _ split
          (number_kept _ v before after l d split st
            (WorldReach-IsAccounted P handle laws fresh once r a))
          refl (WorldReach-IsNumbered r a i fits alone)
    WorldReach-IsNumbered (then {v} r (accept_done n none request e awake)) a i fits alone =
        accepted-IsNumbered _ v n request fits (WorldReach-IsNumbered r a i (omega arith) alone)
    WorldReach-IsNumbered (then {v} r (accept_done n (some ec) request e awake)) a i fits alone =
        refused-IsNumbered _ v n ec request (WorldReach-IsNumbered r a i fits alone)
    WorldReach-IsNumbered (then {v} r (freed before after l split idle)) a i fits alone =
        freed-IsNumbered _ v before after l _ split refl (WorldReach-IsNumbered r a i fits alone)
    WorldReach-IsNumbered (then {v} r stop_called) a i fits alone =
        stopped-IsNumbered _ v (WorldReach-IsNumbered r a i fits alone)
    WorldReach-IsNumbered (then r (other_server id set)) a i fits alone = absurd (omega arith)

    starts_at_zero :
        (s : HttpServerImpl Handler) (net : Network) (t : HttpServerImpl Handler)
        → run net s ≡ (t, none)
        → IsNumbered 0 (record { server = t; sessions = [] })
    unfolding running
    starts_at_zero s net t runs = elim (run-Outcome net s) [
      | inl (ready, e) ↦ record {
        last = ap (λ x. x.0.s_id) (sym runs ∙ e);
        within = tt;
        distinct = tt;
      }
      | inr (u, x, e, r) ↦ absurd (cc (ap (λ y. y.1) (sym e ∙ runs)))
    ]

    -- After any calls on a new server, let a `run` succeed while no session is alive, let each
    -- handler send at most one response before it returns, and one later if it sent none, and let
    -- fewer than 2^64 connections be accepted. Then after any steps, in which no other server of the
    -- process runs or accepts, `s_id` is the number of connections accepted, and the sessions alive have different numbers, from 1 to `s_id`.
    pub server-IsNumbered :
        (segments_view : Bytes → Option (List Bytes)) (calls : List (Call Handler))
        (opts : HttpServerOptions) (last_id : ℕ) (net : Network) (t : HttpServerImpl Handler)
        {w : W}
        → run net (all_calls segments_view calls (http_server_impl opts last_id)) ≡ (t, none)
        → (r : WorldReach P handle (record { server = t; sessions = [] }) w)
        → accept_count r < 2 ^ 64
        → other_count r ≡ 0
        → IsNumbered (accept_count r) w
    server-IsNumbered segments_view calls opts last_id net t runs r fits alone =
        WorldReach-IsNumbered r
          (start-IsAccounted P handle _ net t
            (all_calls-IsTree segments_view calls (http_server_impl opts last_id)
              (new-IsTree P handle opts last_id))
            runs)
          (starts_at_zero (all_calls segments_view calls (http_server_impl opts last_id)) net t
            runs)
          fits alone

  numbers_repeat :
      (s : HttpServerImpl Handler) (request : Request)
      → (w : W) × WorldReach P handle (record { server = running s; sessions = [] }) w
        × (ids w.sessions ≡ 1 ∷ 1 ∷ [])
  unfolding on_accept do_accept running http_session run_session do_read
  numbers_repeat s request = (
    _,
    then
        (then (then at_start (accept_done s.accepts none request refl refl))
          (other_server 0 (inl refl)))
        (accept_done s.accepts none request refl refl),
    refl,
  )

  -- A `run` that succeeds while no session is alive can be followed by two accepts, with the `run` of
  -- another server of the process between them, after which both sessions have the number 1.
  pub server_repeats :
      (s : HttpServerImpl Handler) (net : Network) (t : HttpServerImpl Handler) (request : Request)
      → run net s ≡ (t, none)
      → (w : W) × WorldReach P handle (record { server = t; sessions = [] }) w
        × (ids w.sessions ≡ 1 ∷ 1 ∷ [])
  server_repeats s net t request runs = elim (run-Outcome net s) [
    | inl (ready, e) ↦
        subst
          (λ u.
            (w : W) × WorldReach P handle (record { server = u; sessions = [] }) w
            × (ids w.sessions ≡ 1 ∷ 1 ∷ []))
          (ap (λ x. x.0) (sym e ∙ runs)) (numbers_repeat s request)
    | inr (u, x, e, r) ↦ absurd (cc (ap (λ y. y.1) (sym e ∙ runs)))
  ]
