-- ===== src/Server/Registered.antt =====
-- src/http_server_impl.cpp and src/http_router.h: what the calls of `registerHandler` leave to search.
use httpserver_cpp.Base.{◌≡◌, refl, sym, ◌∙◌, ap, inl, inr, List, [], ◌∷◌, Option, none, Bytes}
use httpserver_cpp.Base.Result.{ok}
use httpserver_cpp.Router.{root, empty, insert, search_segments}
use httpserver_cpp.Router.Shape.{empty-IsTree}
use httpserver_cpp.Router.Walk.{cut, walk, view-empty}
use httpserver_cpp.Router.Search.{get_data_lem, view_of_walk}
use httpserver_cpp.Router.Table.{after, registers, registers-IsTable, latest, Routes, search-Routes}
use httpserver_cpp.Server.{HttpServerImpl, Network, run, stop, register_handler}
use httpserver_cpp.Server.Calls.{
  Call, run_call, stop_call, register_call, call, all_calls, stop_keeps, Result-cases,
}
use httpserver_cpp.Server.Control.{running, run-Outcome}

module _ {Handler : Type 0} where
  -- The registrations among the calls.
  unfoldable pub registered : List (Call Handler) → List (Bytes × Option Handler)
  registered [] = []
  registered (run_call net ∷ calls) = registered calls
  registered (stop_call ∷ calls) = registered calls
  registered (register_call path handler ∷ calls) = (path, handler) ∷ registered calls

  pub run-router :
      (net : Network) (s : HttpServerImpl Handler)
      → ((run net s).0.router ≡ s.router) × ((run net s).0.opts ≡ s.opts)
  unfolding running
  run-router net s = elim (run-Outcome net s) [
    | inl (ready, e) ↦ rw e (refl, refl)
    | inr (u, x, e, r) ↦ rw e (r.router_kept, r.opts_kept)
  ]

  module _ (segments_view : Bytes → Option (List Bytes)) where
    register-router :
        (path : Bytes) (handler : Option Handler) (s : HttpServerImpl Handler)
        → ((call segments_view (register_call path handler) s).router
            ≡ after s.router (insert segments_view path handler s.router))
          × ((call segments_view (register_call path handler) s).opts ≡ s.opts)
    unfolding call register_handler
    register-router path handler s =
        elim (Result-cases (insert segments_view path handler s.router)) [
          | inl (h, went) ↦ rw (went, call) (refl, refl)
          | inr (inl (e, thrown)) ↦ rw (thrown, call) (refl, refl)
          | inr (inr broken) ↦ rw (broken, call) (refl, refl)
        ]

    -- The router holds the registrations, and the options stay.
    pub all_calls-router :
        (calls : List (Call Handler)) (s : HttpServerImpl Handler)
        → ((all_calls segments_view calls s).router
            ≡ registers segments_view s.router (registered calls))
          × ((all_calls segments_view calls s).opts ≡ s.opts)
    unfolding all_calls registers registered call
    all_calls-router [] s = (refl, refl)
    all_calls-router (run_call net ∷ calls) s =
        let (router, opts) = all_calls-router calls (run net s).0 in
        let (same, kept) = run-router net s in
        (router ∙ ap (λ h. registers segments_view h (registered calls)) same, opts ∙ kept)
    all_calls-router (stop_call ∷ calls) s =
        let (router, opts) = all_calls-router calls (stop s) in
        let (_, kept, same) = stop_keeps s in
        (router ∙ ap (λ h. registers segments_view h (registered calls)) same, opts ∙ kept)
    all_calls-router (register_call path handler ∷ calls) s =
        let (router, opts) =
          all_calls-router calls (call segments_view (register_call path handler) s) in
        let (same, kept) = register-router path handler s in
        (router ∙ ap (λ h. registers segments_view h (registered calls)) same, opts ∙ kept)

    -- The handler that the registrations give for the segments of a request.
    abbrev pub Looks : List (Bytes × Option Handler) → List Bytes → Option Handler → Type 0
    Looks calls [] d? = d? ≡ latest segments_view calls [] none
    Looks calls (s ∷ segments) d? = Routes segments_view calls (cut (s ∷ segments)) (ok d?)

    pub search-Looks :
        (calls : List (Bytes × Option Handler)) (segments : List Bytes)
        → (d? : Option Handler) × (search_segments segments (registers segments_view empty calls)
            ≡ ok d?)
          × Looks calls segments d?
    unfolding search_segments walk
    search-Looks calls [] =
        let h = registers segments_view empty calls in
        let i = registers-IsTable segments_view calls empty empty-IsTree in
        (
          _,
          get_data_lem root h i.tree i.tree.rooted
              ∙ ap ok (
                  sym (view_of_walk h [] root refl)
                  ∙ i.sees []
                  ∙ ap (latest segments_view calls []) (view-empty Handler [])),
          refl,
        )
    search-Looks calls (s ∷ segments) =
        let (ks, rest, same, on, stops, found) = search-Routes segments_view calls s segments in
        (_, found, (ks, rest, same, on, stops, refl))
