-- ===== src/Router/Errors.antt =====
-- src/http_router.h: the errors of `insert`.
use httpserver_cpp.Base.{
  ◌≡◌, refl, ap, ◌⊎◌, inl, inr, true, false, Bool-cases, Option, none, some, Option-cases, List, [],
  ◌∷◌, ◌++◌, Bytes, codes, bytes_discrete, arith,
}
use httpserver_cpp.Base.Result.{Result, ok, throws, runtime_error, system_error}
use httpserver_cpp.Router.{Heap, insert, starts_with_slash, has_dots}
use httpserver_cpp.Router.Shape.{IsTree}
use httpserver_cpp.Router.Insert.{insert_segments-Inserts}

abbrev pub StartsWithSlash : Bytes → Type 0
StartsWithSlash path = (s : Bytes) × (path ≡ b'/' ∷ s)

-- Two dots stand side by side somewhere in the path.
abbrev pub HoldsDots : Bytes → Type 0
HoldsDots path = (before : Bytes) × (after : Bytes) × (path ≡ before ++ (codes ".." ++ after))

slash_found : (path : Bytes) → starts_with_slash path ≡ true → StartsWithSlash path
unfolding starts_with_slash
slash_found [] e = absurd (ground arith)
slash_found (c ∷ s) e = (s, ground arith)

slash_missed : (path : Bytes) → starts_with_slash path ≡ false → ¬ StartsWithSlash path
unfolding starts_with_slash
slash_missed path e (s, same) = absurd (ground arith)

dots_found : (path : Bytes) → has_dots path ≡ true → HoldsDots path
unfolding has_dots
dots_found [] e = absurd (ground arith)
dots_found (c ∷ []) e = absurd (ground arith)
dots_found (c ∷ d ∷ s) e = elim (bytes_discrete (c ∷ d ∷ []) (codes "..")) [
  | yes same ↦ ([], s, ground arith)
  | no other ↦
      let (before, after, here) = dots_found (d ∷ s) (ground arith) in
      (c ∷ before, after, ap (◌∷◌ c) here)
]

dots_in : (before after : Bytes) → has_dots (before ++ (codes ".." ++ after)) ≡ true
unfolding has_dots
dots_in [] after = ground arith
dots_in (c ∷ []) after = ground (arith, dots_in [] after)
dots_in (c ∷ d ∷ before) after = ground (arith, dots_in (d ∷ before) after)

dots_missed : (path : Bytes) → has_dots path ≡ false → ¬ HoldsDots path
dots_missed path e (before, after, same) = cc (e, ap has_dots same, dots_in before after)

module _ {ℓ} {T : Type ℓ} (segments_view : Bytes → Option (List Bytes)) where
  -- What comes of the path of a handler that is not null.
  abbrev pub PathOutcome : Bytes → Result (Heap T) → Type ℓ
  PathOutcome path r =
      ((¬ StartsWithSlash path) × (r ≡ throws (runtime_error "path should start with '/'")))
      ⊎ ((StartsWithSlash path × HoldsDots path × (r ≡ throws (runtime_error "path is invalid")))
          ⊎ ((StartsWithSlash path
                × (¬ HoldsDots path)
                × (segments_view path ≡ none)
                × (r ≡ throws system_error))
              ⊎ (StartsWithSlash path
                  × (¬ HoldsDots path)
                  × (segments : List Bytes) × (segments_view path ≡ some segments)
                  × (h : Heap T) × (r ≡ ok h))))

  abbrev pub InsertOutcome : Bytes → Option T → Result (Heap T) → Type ℓ
  InsertOutcome path none r = r ≡ throws (runtime_error "data should be not empty")
  InsertOutcome path (some d) r = PathOutcome path r

  -- On a tree `insert` throws for one of four reasons, which it looks at in this order, with the
  -- text of the first that it finds: the handler is null; the path does not start with a slash; it
  -- holds two dots side by side; it cannot be parsed. Otherwise it succeeds.
  pub insert-Outcome :
      (path : Bytes) (d? : Option T) (h : Heap T)
      → IsTree h
      → InsertOutcome path d? (insert segments_view path d? h)
  unfolding insert
  insert-Outcome path none h t = refl
  insert-Outcome path (some d) h t = elim (Bool-cases (starts_with_slash path)) [
    | inr other ↦ inl (slash_missed path other, rw other refl)
    | inl slash ↦ elim (Bool-cases (has_dots path)) [
      | inl dots ↦ inr (inl (slash_found path slash, dots_found path dots, rw (slash, dots) refl))
      | inr plain ↦ elim (Option-cases (segments_view path)) [
        | inl bad ↦ inr (
            inr (
              inl
                (slash_found path slash, dots_missed path plain, bad, rw (slash, plain, bad) refl)))
        | inr (segments, good) ↦
            let (h', run, inserted) = insert_segments-Inserts segments d h t in
            inr (
              inr (
                inr (
                  slash_found path slash,
                  dots_missed path plain,
                  segments,
                  good,
                  h',
                  rw (slash, plain, good) run,
                )))
      ]
    ]
  ]
