-- ===== src/Cache/Runs.antt =====
-- internal/cache/lru.go: the theorems at concrete inputs, on a cache of two that is full.
use boiler_pulse.Prelude.{◌≡◌, refl, [], ◌∷◌, none, arith}
use boiler_pulse.Bytes.{bytes_eq}
use boiler_pulse.Storage.Table.{lookup}
use boiler_pulse.Cache.{Lru, get, set}
use boiler_pulse.Cache.Eviction.{IsWellFormed, set-IsWellFormed}

abbrev full : Lru
full = record {
  capacity = 2;
  order = (97 ∷ [], 1 ∷ []) ∷ (98 ∷ [], 2 ∷ []) ∷ [];
  hits = 0;
  misses = 0;
  evictions = 0;
}

full-IsWellFormed : IsWellFormed full
unfolding lookup bytes_eq
full-IsWellFormed = record { distinct = (refl, (refl, tt)); bounded = omega arith }

evicts : lookup (98 ∷ []) (set (99 ∷ []) (3 ∷ []) full).order ≡ none
unfolding set boiler_pulse.Cache.evict boiler_pulse.Cache.drop_last lookup bytes_eq
evicts = refl

set-IsWellFormed_example : IsWellFormed (set (99 ∷ []) (3 ∷ []) full)
set-IsWellFormed_example = set-IsWellFormed (99 ∷ []) (3 ∷ []) full full-IsWellFormed
