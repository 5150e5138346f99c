-- ===== src/Storage/Table.antt =====
-- Go maps from byte strings, as association lists with one entry for a key at the front.
pub mod Overlay
use boiler_pulse.Prelude.{
  ℕ, ◌+◌, ◌-◌, ◌≤◌, ◌≡◌, refl, Bool, true, false, not, List, [], ◌∷◌, ◌++◌, Option, none, some,
  arith, if◌then◌else◌, length, ap, ◌∙◌, sym, subst, inl, inr, Bool-cases,
}
use boiler_pulse.Bytes.{bytes_eq, bytes_eq_iff, bytes_eq_sound}

abbrev pub Key : Type 0
Key = List ℕ

module _ {V : Type 0} where
  unfoldable pub lookup : Key → List (Key × V) → Option V
  lookup k [] = none
  lookup k ((j, v) ∷ m) = if bytes_eq j k then some v else lookup k m

  -- `m[k] = v`.
  unfoldable pub insert : Key → V → List (Key × V) → List (Key × V)
  insert k v [] = (k, v) ∷ []
  insert k v ((j, w) ∷ m) = if bytes_eq j k then (k, v) ∷ m else (j, w) ∷ insert k v m

  -- `delete(m, k)`.
  unfoldable pub remove : Key → List (Key × V) → List (Key × V)
  remove k [] = []
  remove k ((j, v) ∷ m) = let rest = remove k m in if bytes_eq j k then rest else (j, v) ∷ rest

  -- The entries of a map that a test keeps.
  unfoldable pub select : (Key → V → Bool) → List (Key × V) → List (Key × V)
  select p [] = []
  select p ((j, v) ∷ m) = let rest = select p m in if p j v then (j, v) ∷ rest else rest

  pub lookup-insert :
      (k j : Key) (v : V) (m : List (Key × V))
      → lookup j (insert k v m) ≡ (if bytes_eq k j then some v else lookup j m)
  unfolding lookup insert
  lookup-insert k j v [] = refl
  lookup-insert k j v ((i, w) ∷ m) =
      ground (arith, bytes_eq_iff k j, bytes_eq_iff i k, bytes_eq_iff i j, lookup-insert k j v m)

  pub lookup-remove :
      (k j : Key) (m : List (Key × V))
      → lookup j (remove k m) ≡ (if bytes_eq k j then none else lookup j m)
  unfolding lookup remove
  lookup-remove k j [] = ground arith
  lookup-remove k j ((i, v) ∷ m) =
      ground (arith, lookup-remove k j m, bytes_eq_iff i k, bytes_eq_iff i j, bytes_eq_iff k j)

  -- No key stands in a map twice.
  abbrev pub Absent : Key → List (Key × V) → Type 0
  Absent k m = lookup k m ≡ none

  abbrev pub IsDistinct : List (Key × V) → Type 0
  IsDistinct [] = Unit {0}
  IsDistinct ((k, v) ∷ m) = Absent k m × IsDistinct m

  pub insert-IsDistinct :
      (k : Key) (v : V) (m : List (Key × V)) → IsDistinct m → IsDistinct (insert k v m)
  unfolding insert lookup
  insert-IsDistinct k v [] h = (refl, tt)
  insert-IsDistinct k v ((j, w) ∷ m) (a, h) = elim (Bool-cases (bytes_eq j k)) [
    | inl same ↦
        subst (λ b. IsDistinct (if b then (k, v) ∷ m else (j, w) ∷ insert k v m)) (sym same)
          (subst (λ i. Absent i m) (bytes_eq_sound j k same) a, h)
    | inr other ↦
        subst (λ b. IsDistinct (if b then (k, v) ∷ m else (j, w) ∷ insert k v m)) (sym other)
          (
            lookup-insert k j v m
                ∙ ap (λ b. if b then some v else lookup j m) (flip_eq k j (other))
                ∙ a,
            insert-IsDistinct k v m h,
          )
  ]
    where
      flip_eq : (x y : Key) → bytes_eq y x ≡ false → bytes_eq x y ≡ false
      flip_eq x y h2 = ground (arith, bytes_eq_iff x y, bytes_eq_iff y x)

  pub lookup-select :
      (p : Key → V → Bool) (j : Key) (m : List (Key × V))
      → IsDistinct m
      → lookup j (select p m)
        ≡ elim (lookup j m) [ none ↦ none | some v ↦ if p j v then some v else none ]
  unfolding lookup select
  lookup-select p j [] h = refl
  lookup-select p j ((i, w) ∷ m) (a, h) = elim (Bool-cases (bytes_eq i j)) [
    | inl same ↦ ground (arith, same, bytes_eq_iff i j, a, lookup-select p j m h)
    | inr other ↦ ground (arith, other, lookup-select p j m h)
  ]
