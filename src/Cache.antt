-- ===== src/Cache.antt =====
-- internal/cache/lru.go: the LRU cache. The map and the linked list hold the same elements, so both
-- are one list, front first; HitRate, a floating-point quotient, is left out.
pub mod Eviction
pub mod Bodies
mod Runs
use boiler_pulse.Prelude.{
  ℕ, suc, ◌+◌, ◌≤◌, ◌<◌, ◌≡◌, refl, sym, ap, ◌∙◌, subst, Bool, true, false, List, [], ◌∷◌, Option,
  none, some, arith, if◌then◌else◌, ltb, leb, length, inl, inr, Bool-cases,
}
use boiler_pulse.Bytes.{bytes_eq, bytes_eq_iff, bytes_eq_sound}
use boiler_pulse.Storage.Table.{Key, lookup, remove, lookup-remove, Absent, IsDistinct}

pub record Lru : Type 0 where
  pub capacity : ℕ
  pub order : List (Key × List ℕ)
  pub hits : ℕ
  pub misses : ℕ
  pub evictions : ℕ

unfoldable pub new_lru : ℕ → Lru
new_lru capacity = record { capacity = capacity; order = []; hits = 0; misses = 0; evictions = 0 }

-- `MoveToFront` of the element of a key, with the value that it has from then on.
unfoldable pub move_to_front : Key → List ℕ → List (Key × List ℕ) → List (Key × List ℕ)
move_to_front key value order = (key, value) ∷ remove key order

unfoldable pub get : Key → Lru → Lru × Option (List ℕ)
unfolding move_to_front
get key c = elim (lookup key c.order) [
  | none ↦ (record c { misses = c.misses + 1 }, none)
  | some value ↦
      (record c { hits = c.hits + 1; order = move_to_front key value c.order }, some value)
]

-- The list without its last element.
unfoldable pub drop_last : List (Key × List ℕ) → List (Key × List ℕ)
drop_last [] = []
drop_last (x ∷ []) = []
drop_last (x ∷ (y ∷ xs)) = x ∷ drop_last (y ∷ xs)

unfoldable pub evict : Lru → Lru
unfolding drop_last
evict c =
    if ltb c.capacity (length c.order)
    then record c { order = drop_last c.order; evictions = c.evictions + 1 }
    else c

unfoldable pub set : Key → List ℕ → Lru → Lru
unfolding move_to_front evict
set key value c = if leb c.capacity 0 then c else elim (lookup key c.order) [
  | some old ↦ record c { order = move_to_front key value c.order }
  | none ↦ evict (record c { order = (key, value) ∷ c.order })
]

unfoldable pub delete : Key → Lru → Lru
delete key c = record c { order = remove key c.order }
