-- ===== src/Storage/Table/Overlay.antt =====
-- Writing the entries of one map over another, and sorting a map by its keys.
use boiler_pulse.Prelude.{
  ◌≡◌, refl, sym, ap, ◌∙◌, subst, Bool, true, false, List, [], ◌∷◌, Option, none, some, arith,
  if◌then◌else◌, ltb, ◌==◌, inl, inr, Bool-cases,
}
use boiler_pulse.Bytes.{bytes_eq, bytes_eq_iff, bytes_eq_sound}
use boiler_pulse.Storage.Table.{
  Key, lookup, insert, Absent, IsDistinct, lookup-insert, insert-IsDistinct,
}

unfoldable pub or_else {ℓ} : {A : Type ℓ} → Option A → Option A → Option A
or_else (some x) y = some x
or_else none y = y

-- Go's `<` on strings: byte by byte, and a prefix before what it begins.
unfoldable pub key_lt : Key → Key → Bool
key_lt [] [] = false
key_lt [] (y ∷ ys) = true
key_lt (x ∷ xs) [] = false
key_lt (x ∷ xs) (y ∷ ys) =
    let rest = key_lt xs ys in if ltb x y then true else (if x == y then rest else false)

module _ {V : Type 0} where
  -- `for _, e := range es { m[e.Key] = e }`.
  unfoldable pub overlay : List (Key × V) → List (Key × V) → List (Key × V)
  overlay [] m = m
  overlay ((k, v) ∷ es) m = overlay es (insert k v m)

  unfoldable pub place : Key → V → List (Key × V) → List (Key × V)
  place k v [] = (k, v) ∷ []
  place k v ((j, w) ∷ m) =
      let rest = place k v m in if key_lt k j then (k, v) ∷ (j, w) ∷ m else (j, w) ∷ rest

  -- `sort.Strings` on the keys of a map, each with its entry.
  unfoldable pub sort : List (Key × V) → List (Key × V)
  sort [] = []
  sort ((k, v) ∷ m) = place k v (sort m)

  pub lookup-overlay :
      (es : List (Key × V)) (j : Key) (m : List (Key × V))
      → lookup j (overlay es m) ≡ or_else (lookup j (overlay es [])) (lookup j m)
  unfolding overlay lookup or_else
  lookup-overlay [] j m = refl
  lookup-overlay ((k, v) ∷ es) j m =
      lookup-overlay es j (insert k v m)
      ∙ (ap (or_else (lookup j (overlay es []))) (lookup-insert k j v m)
          ∙ (both (lookup j (overlay es [])) (bytes_eq k j)
              ∙ sym (
                  ap (λ x. or_else x (lookup j m))
                    (lookup-overlay es j (insert k v [])
                      ∙ ap (or_else (lookup j (overlay es []))) (lookup-insert k j v [])))))
    where
      both :
          (x : Option V) (b : Bool)
          → or_else x (if b then some v else lookup j m)
            ≡ or_else (or_else x (if b then some v else lookup j [])) (lookup j m)
      both none true = refl
      both none false = refl
      both (some y) b = refl

  pub overlay-IsDistinct : (es m : List (Key × V)) → IsDistinct m → IsDistinct (overlay es m)
  unfolding overlay
  overlay-IsDistinct [] m h = h
  overlay-IsDistinct ((k, v) ∷ es) m h =
      overlay-IsDistinct es (insert k v m) (insert-IsDistinct k v m h)

  -- Over the empty map, a map without repetitions is looked up as it is.
  pub lookup-overlay_distinct :
      (es : List (Key × V)) (j : Key) → IsDistinct es → lookup j (overlay es []) ≡ lookup j es
  unfolding overlay lookup or_else
  lookup-overlay_distinct [] j h = refl
  lookup-overlay_distinct ((k, v) ∷ es) j (a, h) =
      lookup-overlay es j (insert k v [])
      ∙ (ap (λ x. or_else x (lookup j (insert k v []))) (lookup-overlay_distinct es j h)
          ∙ (ap (or_else (lookup j es)) (lookup-insert k j v [])
              ∙ elim (Bool-cases (bytes_eq k j)) [
                | inl same ↦
                    ap (λ b. or_else (lookup j es) (if b then some v else lookup j [])) same
                    ∙ (ap (λ x. or_else x (some v))
                          (subst (λ i. lookup i es ≡ none) (bytes_eq_sound k j same) a)
                        ∙ sym (ap (λ b. if b then some v else lookup j es) same))
                | inr other ↦
                    ap (λ b. or_else (lookup j es) (if b then some v else lookup j [])) other
                    ∙ (or_none (lookup j es)
                        ∙ sym (ap (λ b. if b then some v else lookup j es) other))
              ]))
    where
      or_none : (x : Option V) → or_else x none ≡ x
      or_none none = refl
      or_none (some y) = refl

  lookup-place :
      (k j : Key) (v : V) (m : List (Key × V))
      → Absent k m
      → lookup j (place k v m) ≡ (if bytes_eq k j then some v else lookup j m)
  unfolding place lookup
  lookup-place k j v [] a = refl
  lookup-place k j v ((i, w) ∷ m) a = elim (Bool-cases (bytes_eq i k)) [
    | inl same ↦ ground (arith, same, a)
    | inr other ↦ ground (
      arith,
      other,
      bytes_eq_iff k j,
      bytes_eq_iff i k,
      bytes_eq_iff i j,
      lookup-place k j v m (sym (ap (λ b. if b then some w else lookup k m) other) ∙ a),
    )
  ]

  place-IsDistinct :
      (k : Key) (v : V) (m : List (Key × V)) → Absent k m → IsDistinct m → IsDistinct (place k v m)
  unfolding place lookup
  place-IsDistinct k v [] a h = (refl, tt)
  place-IsDistinct k v ((i, w) ∷ m) a (ai, h) =
      let differs : bytes_eq i k ≡ false = ground (arith, a) in
      let later : Absent k m = ground (arith, a, differs) in
      let flipped : bytes_eq k i ≡ false =
        ground (arith, differs, bytes_eq_iff i k, bytes_eq_iff k i) in
      elim (Bool-cases (key_lt k i)) [
        | inl before ↦
            subst (λ b. IsDistinct (if b then (k, v) ∷ (i, w) ∷ m else (i, w) ∷ place k v m))
              (sym before) (a, (ai, h))
        | inr after ↦
            subst (λ b. IsDistinct (if b then (k, v) ∷ (i, w) ∷ m else (i, w) ∷ place k v m))
              (sym after)
              (
                lookup-place k i v m later
                    ∙ (ap (λ b. if b then some v else lookup i m) flipped ∙ ai),
                place-IsDistinct k v m later h,
              )
      ]

  pub lookup-sort : (m : List (Key × V)) (j : Key) → IsDistinct m → lookup j (sort m) ≡ lookup j m
  unfolding sort lookup
  lookup-sort [] j h = refl
  lookup-sort ((k, v) ∷ m) j (a, h) =
      lookup-place k j v (sort m) (lookup-sort m k h ∙ a)
      ∙ ap (λ x. if bytes_eq k j then some v else x) (lookup-sort m j h)

  pub sort-IsDistinct : (m : List (Key × V)) → IsDistinct m → IsDistinct (sort m)
  unfolding sort
  sort-IsDistinct [] h = tt
  sort-IsDistinct ((k, v) ∷ m) (a, h) =
      place-IsDistinct k v (sort m) (lookup-sort m k h ∙ a) (sort-IsDistinct m h)
