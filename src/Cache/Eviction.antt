-- ===== src/Cache/Eviction.antt =====
-- internal/cache/lru.go: the cache stays within its capacity, and keeps what was set last.
use boiler_pulse.Prelude.{
  ℕ, suc, ◌+◌, ◌≤◌, ◌<◌, ◌≡◌, refl, sym, ap, ◌∙◌, subst, Bool, true, false, List, [], ◌∷◌, Option,
  none, some, arith, if◌then◌else◌, ltb, leb, length, inl, inr, Bool-cases,
}
use boiler_pulse.Bytes.{bytes_eq, bytes_eq_iff}
use boiler_pulse.Storage.Table.{Key, lookup, remove, lookup-remove, Absent, IsDistinct}
use boiler_pulse.Cache.{Lru, move_to_front, get, set, evict, drop_last}

-- No key stands in the cache twice, and no more keys than it has room for.
pub record IsWellFormed (c : Lru) : Type 0 where
  pub distinct : IsDistinct c.order
  pub bounded : length c.order ≤ c.capacity

remove-IsDistinct : (k : Key) (m : List (Key × List ℕ)) → IsDistinct m → IsDistinct (remove k m)
unfolding remove
remove-IsDistinct k [] h = tt
remove-IsDistinct k ((j, v) ∷ m) (a, h) = elim (Bool-cases (bytes_eq j k)) [
  | inl same ↦
      subst (λ b. IsDistinct (if b then remove k m else (j, v) ∷ remove k m)) (sym same)
        (remove-IsDistinct k m h)
  | inr other ↦
      subst (λ b. IsDistinct (if b then remove k m else (j, v) ∷ remove k m)) (sym other)
        (absent (bytes_eq k j) (lookup j m) a (lookup-remove k j m), remove-IsDistinct k m h)
]
  where
    absent :
        (b : Bool) (x : Option (List ℕ))
        → x ≡ none
        → lookup j (remove k m) ≡ (if b then none else x)
        → lookup j (remove k m) ≡ none
    absent true x e p = p
    absent false x e p = p ∙ e

length-remove : (k : Key) (m : List (Key × List ℕ)) → length (remove k m) ≤ length m
unfolding remove
length-remove k [] = omega arith
length-remove k ((j, v) ∷ m) = ground (arith, length-remove k m)

length-remove_found :
    (k : Key) (v : List ℕ) (m : List (Key × List ℕ))
    → lookup k m ≡ some v
    → suc (length (remove k m)) ≤ length m
unfolding remove lookup
length-remove_found k v [] h = ground (arith, h)
length-remove_found k v ((j, w) ∷ m) h =
    ground (arith, h, length-remove k m, length-remove_found k v m)

bytes_eq_refl_lem : (k : Key) → bytes_eq k k ≡ true
bytes_eq_refl_lem k = (bytes_eq_iff k k).1 refl

move_to_front-IsDistinct :
    (k : Key) (v : List ℕ) (m : List (Key × List ℕ))
    → IsDistinct m
    → IsDistinct (move_to_front k v m)
unfolding move_to_front
move_to_front-IsDistinct k v m h = (
  lookup-remove k k m ∙ ap (λ b. if b then none else lookup k m) (bytes_eq_refl_lem k),
  remove-IsDistinct k m h,
)

-- Get keeps the cache well-formed: no key twice, and no more keys than its capacity.
pub get-IsWellFormed : (k : Key) (c : Lru) → IsWellFormed c → IsWellFormed (get k c).0
unfolding get
get-IsWellFormed k c w = by_value (lookup k c.order) refl
  where
    by_value :
        (x : Option (List ℕ))
        → lookup k c.order ≡ x
        → IsWellFormed
            (elim x as (λ _. Lru × Option (List ℕ)) [
              | none ↦ (record c { misses = c.misses + 1 }, none)
              | some value ↦ (
                record c { hits = c.hits + 1; order = move_to_front k value c.order },
                some value,
              )
            ]).0
    by_value none e = record { distinct = w.distinct; bounded = w.bounded }
    by_value (some v) e = record {
      distinct = move_to_front-IsDistinct k v c.order w.distinct;
      bounded =
          (unfold move_to_front in omega (arith, length-remove_found k v c.order e, w.bounded));
    }

drop_last-Absent : (k : Key) (m : List (Key × List ℕ)) → Absent k m → Absent k (drop_last m)
unfolding drop_last lookup
drop_last-Absent k [] a = refl
drop_last-Absent k (x ∷ []) a = refl
drop_last-Absent k ((i, v) ∷ ((j, w) ∷ m)) a = ground (arith, a, drop_last-Absent k ((j, w) ∷ m))

drop_last-IsDistinct : (m : List (Key × List ℕ)) → IsDistinct m → IsDistinct (drop_last m)
unfolding drop_last
drop_last-IsDistinct [] h = tt
drop_last-IsDistinct (x ∷ []) h = tt
drop_last-IsDistinct ((i, v) ∷ ((j, w) ∷ m)) (a, h) =
    (drop_last-Absent i ((j, w) ∷ m) a, drop_last-IsDistinct ((j, w) ∷ m) h)

length-drop_last :
    (x : Key × List ℕ) (m : List (Key × List ℕ)) → length (drop_last (x ∷ m)) ≡ length m
unfolding drop_last
length-drop_last x [] = refl
length-drop_last x (y ∷ m) = ap suc (length-drop_last y m)

push : Key → List ℕ → Lru → Lru
push k v c = record c { order = (k, v) ∷ c.order }

evict-push-IsWellFormed :
    (k : Key) (v : List ℕ) (c : Lru)
    → IsWellFormed c
    → Absent k c.order
    → IsWellFormed (evict (push k v c))
unfolding evict push
evict-push-IsWellFormed k v c w a = elim (Bool-cases (ltb c.capacity (suc (length c.order)))) [
  | inl full ↦
      subst (λ b. IsWellFormed (if b then over else push k v c)) (sym full)
        (record {
          distinct = drop_last-IsDistinct ((k, v) ∷ c.order) (a, w.distinct);
          bounded = omega (arith, length-drop_last (k, v) c.order, w.bounded);
        })
  | inr room ↦
      subst (λ b. IsWellFormed (if b then over else push k v c)) (sym room)
        (record { distinct = (a, w.distinct); bounded = fits c.capacity (length c.order) room })
]
  where
    over : Lru
    over = record c { order = drop_last ((k, v) ∷ c.order); evictions = c.evictions + 1 }

    fits : (m n : ℕ) → ltb m (suc n) ≡ false → suc n ≤ m
    fits m n h = ground (arith, h)

-- Set keeps the cache well-formed: no key twice, and no more keys than its capacity.
pub set-IsWellFormed : (k : Key) (v : List ℕ) (c : Lru) → IsWellFormed c → IsWellFormed (set k v c)
unfolding set
set-IsWellFormed k v c w = elim (Bool-cases (leb c.capacity 0)) [
  | inl off ↦ subst (λ b. IsWellFormed (if b then c else stored)) (sym off) w
  | inr on ↦
      subst (λ b. IsWellFormed (if b then c else stored)) (sym on)
        (by_value (lookup k c.order) refl)
]
  where
    choose : Option (List ℕ) → Lru
    choose x = elim x [
      | some old ↦ record c { order = move_to_front k v c.order }
      | none ↦ evict (record c { order = (k, v) ∷ c.order })
    ]

    stored : Lru
    stored = choose (lookup k c.order)

    by_value : (x : Option (List ℕ)) → lookup k c.order ≡ x → IsWellFormed (choose x)
    by_value none e = (unfold push in evict-push-IsWellFormed k v c w e)
    by_value (some old) e = record {
      distinct = move_to_front-IsDistinct k v c.order w.distinct;
      bounded =
          (unfold move_to_front in omega (arith, length-remove_found k old c.order e, w.bounded));
    }

lookup-drop_last-first :
    (k : Key) (v : List ℕ) (m : List (Key × List ℕ))
    → 0 < length m
    → lookup k (drop_last ((k, v) ∷ m)) ≡ some v
unfolding drop_last lookup
lookup-drop_last-first k v [] h = absurd (omega (arith, h))
lookup-drop_last-first k v (x ∷ m) h =
    ap (λ b. if b then some v else lookup k (drop_last (x ∷ m))) (bytes_eq_refl_lem k)

-- In a cache with a capacity above 0, what was set is found right after, whatever was evicted for
-- it.
pub get-set : (k : Key) (v : List ℕ) (c : Lru) → 0 < c.capacity → (get k (set k v c)).1 ≡ some v
unfolding get
get-set k v c h = by_found (lookup k (set k v c).order) found
  where
    first : (m : List (Key × List ℕ)) → lookup k ((k, v) ∷ m) ≡ some v
    first m = (unfold lookup in ap (λ b. if b then some v else lookup k m) (bytes_eq_refl_lem k))

    found : lookup k (set k v c).order ≡ some v
    found =
        (unfold set move_to_front evict in
          ground
            (arith, h, first (remove k c.order), first c.order, lookup-drop_last-first k v c.order))

    by_found :
        (x : Option (List ℕ))
        → x ≡ some v
        → (elim x as (λ _. Lru × Option (List ℕ)) [
          | none ↦ (record (set k v c) { misses = (set k v c).misses + 1 }, none)
          | some value ↦ (
            record (set k v c) {
              hits = (set k v c).hits + 1;
              order = move_to_front k value (set k v c).order;
            },
            some value,
          )
        ]).1
          ≡ some v
    by_found none e = e
    by_found (some x) e = e
