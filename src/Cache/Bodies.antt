-- ===== src/Cache/Bodies.antt =====
-- internal/cache/lru.go: a property of the stored values is kept.
use boiler_pulse.Prelude.{
  ℕ, ◌+◌, ◌≡◌, sym, subst, List, [], ◌∷◌, Option, none, some, arith, if◌then◌else◌, length, ltb,
  leb, All, inl, inr, Bool-cases, Option-cases,
}
use boiler_pulse.Bytes.{bytes_eq}
use boiler_pulse.Storage.Table.{Key, lookup, remove}
use boiler_pulse.Cache
use boiler_pulse.Cache.{Lru, move_to_front, drop_last, evict}

module _ (P : List ℕ → Type 0) where
  -- Each body in the cache has the property.
  abbrev pub AllBodies : List (Key × List ℕ) → Type 0
  AllBodies m = All (λ e. P e.1) m

  pub AllBodies-remove : (k : Key) (m : List (Key × List ℕ)) → AllBodies m → AllBodies (remove k m)
  unfolding remove
  AllBodies-remove k [] h = h
  AllBodies-remove k ((j, v) ∷ m) (p, h) = elim (Bool-cases (bytes_eq j k)) [
    | inl same ↦
        subst (λ b. AllBodies (if b then remove k m else (j, v) ∷ remove k m)) (sym same)
          (AllBodies-remove k m h)
    | inr other ↦
        subst (λ b. AllBodies (if b then remove k m else (j, v) ∷ remove k m)) (sym other)
          (p, AllBodies-remove k m h)
  ]

  AllBodies-lookup :
      (k : Key) (v : List ℕ) (m : List (Key × List ℕ)) → AllBodies m → lookup k m ≡ some v → P v
  unfolding lookup
  AllBodies-lookup k v [] h e = cc
  AllBodies-lookup k v ((j, w) ∷ m) (p, h) e = elim (Bool-cases (bytes_eq j k)) [
    | inl same ↦ subst P (let f : w ≡ v = ground (arith, e, same) in f) p
    | inr other ↦ AllBodies-lookup k v m h (ground (arith, e, other))
  ]

  AllBodies-drop_last : (m : List (Key × List ℕ)) → AllBodies m → AllBodies (drop_last m)
  unfolding drop_last
  AllBodies-drop_last [] h = h
  AllBodies-drop_last (x ∷ []) h = tt
  AllBodies-drop_last (x ∷ (y ∷ m)) (p, h) = (p, AllBodies-drop_last (y ∷ m) h)

  AllBodies-evict : (c : Lru) → AllBodies c.order → AllBodies (evict c).order
  unfolding evict
  AllBodies-evict c h = elim (Bool-cases (ltb c.capacity (length c.order))) [
    | inl full ↦
        subst (λ b. AllBodies (if b then over else c).order) (sym full)
          (AllBodies-drop_last c.order h)
    | inr room ↦ subst (λ b. AllBodies (if b then over else c).order) (sym room) h
  ]
    where
      over : Lru
      over = record c { order = drop_last c.order; evictions = c.evictions + 1 }

  pub AllBodies-set :
      (k : Key) (v : List ℕ) (c : Lru) → P v → AllBodies c.order → AllBodies (Cache.set k v c).order
  unfolding Cache.set move_to_front
  AllBodies-set k v c p h = elim (Bool-cases (leb c.capacity 0)) [
    | inl off ↦
        subst (λ b. AllBodies (if b then c else choose (lookup k c.order)).order) (sym off) h
    | inr on ↦
        subst (λ b. AllBodies (if b then c else choose (lookup k c.order)).order) (sym on)
          (chosen (lookup k c.order))
  ]
    where
      choose : Option (List ℕ) → Lru
      choose x = elim x [
        | some old ↦ record c { order = (k, v) ∷ remove k c.order }
        | none ↦ evict (record c { order = (k, v) ∷ c.order })
      ]

      chosen : (x : Option (List ℕ)) → AllBodies (choose x).order
      chosen none = AllBodies-evict (record c { order = (k, v) ∷ c.order }) (p, h)
      chosen (some old) = (p, AllBodies-remove k c.order h)

  pub AllBodies-get :
      (k : Key) (c : Lru)
      → AllBodies c.order
      → AllBodies (Cache.get k c).0.order × ((v : List ℕ) → (Cache.get k c).1 ≡ some v → P v)
  unfolding Cache.get move_to_front
  AllBodies-get k c h = elim (Option-cases (lookup k c.order)) [
    | inl e ↦ rw (e, Cache.get) (h, λ v f. cc)
    | inr (v, e) ↦
        rw (e, Cache.get)
          (let p = AllBodies-lookup k v c.order h e in
            ((p, AllBodies-remove k c.order h), λ w f. subst P (let same : v ≡ w = cc in same) p))
  ]
