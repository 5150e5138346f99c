-- ===== src/Storage/StateMachine/Runs.antt =====
-- internal/storage/statemachine.go: the theorems on concrete stores. The format has only what the
-- stores hold: at most one key of one byte, with a value of one byte, no level and an expiry
-- that fits one byte.
use boiler_pulse.Prelude.{ℕ, zero, suc, ◌≡◌, refl, List, [], ◌∷◌, Option, none, some, arith, ◌≤◌}
use boiler_pulse.Bytes.{bytes_eq}
use boiler_pulse.Storage.{has_prefix}
use boiler_pulse.Storage.Table.{Key, insert, lookup, select}
use boiler_pulse.Storage.Table.Overlay.{sort, place}
use boiler_pulse.Storage.MemStore
use boiler_pulse.Storage.MemStore.{MemStore, new_mem_store}
use boiler_pulse.Storage.StateMachine.{
  Command, Json, SnapshotEntry, mem_engine, snapshot, restore, snapshot_entries,
}
use boiler_pulse.Storage.StateMachine.Replay.{seen}
use boiler_pulse.Storage.StateMachine.Install.{restore-snapshot, restore_keeps, PutOff}
use boiler_pulse.Storage.Contract.{view}

abbrev encode_one : Key → List ℕ → List ℕ → ℕ → Option (List ℕ)
encode_one (x ∷ []) (y ∷ []) [] t = some (x ∷ y ∷ t ∷ [])
encode_one k v c t = none

abbrev encode : List (Key × SnapshotEntry) → Option (List ℕ)
encode [] = some []
encode ((k, e) ∷ []) = encode_one k e.value e.consistency e.expires_at
encode (x ∷ y ∷ es) = none

abbrev decode : List ℕ → Option (List (Key × SnapshotEntry))
decode [] = some []
decode (x ∷ y ∷ t ∷ []) =
    some ((x ∷ [], record { value = y ∷ []; consistency = []; expires_at = t }) ∷ [])
decode bs = none

-- A set of a key of one byte, or a deletion.
abbrev decode_command : List ℕ → Option Command
decode_command (x ∷ y ∷ []) =
    some (record { op = 1; key = x ∷ []; value = y ∷ []; consistency = []; ttl_seconds = 0 })
decode_command (x ∷ []) =
    some (record { op = 2; key = x ∷ []; value = []; consistency = []; ttl_seconds = 0 })
decode_command bs = none

abbrev format : Json
format = record {
  encode_command = λ c. none;
  decode_command = decode_command;
  encode_snapshot = encode;
  decode_snapshot = decode;
}

abbrev commands : List (List ℕ)
commands = (107 ∷ 1 ∷ []) ∷ (108 ∷ 2 ∷ []) ∷ (108 ∷ []) ∷ []

-- A store with one key, that expires at 13, and one with another that does not.
abbrev store : MemStore
store = MemStore.put 3 (107 ∷ []) (7 ∷ []) [] 10 new_mem_store

abbrev other_store : MemStore
other_store = MemStore.put 3 (108 ∷ []) (7 ∷ []) [] 0 new_mem_store

abbrev stored : List ℕ
stored = 107 ∷ 7 ∷ 13 ∷ []

-- The readings of the clock in Restore.
abbrev ticks : ℕ → ℕ
ticks zero = 6
ticks (suc i) = 7

ticks_bounds : (i : ℕ) → (5 ≤ ticks i) × (ticks i ≤ ticks (suc i)) × (ticks i ≤ 8)
ticks_bounds zero = (omega arith, omega arith, omega arith)
ticks_bounds (suc i) = (omega arith, omega arith, omega arith)

restore-snapshot_example :
    ((x : ℕ)
      → seen 9 (107 ∷ []) store ≡ some (7 ∷ [], [], x)
      → (x' : ℕ) × ((seen 9 (107 ∷ []) (restore format mem_engine ticks stored new_mem_store).0
            ≡ some (7 ∷ [], [], x'))
          × PutOff 3 x x'))
    × ((x' : ℕ)
        → seen 9 (107 ∷ []) (restore format mem_engine ticks stored new_mem_store).0
          ≡ some (7 ∷ [], [], x')
        → (x : ℕ) × ((view (MemStore.get 4 (107 ∷ []) store) ≡ some (7 ∷ [], [], x))
            × PutOff 3 x x'))
unfolding snapshot snapshot_entries mem_engine MemStore.put MemStore.scan insert lookup sort select
    has_prefix place
restore-snapshot_example =
    restore-snapshot format 4 5 8 9 ticks (107 ∷ []) stored store (λ h. refl) (omega arith)
      (λ i. (ticks_bounds i).0) (λ i. (ticks_bounds i).1) (λ i. (ticks_bounds i).2) (omega arith)
      (refl, tt) (λ e h. ground (arith, h)) refl (7 ∷ []) []

restore_keeps_example :
    seen 9 (108 ∷ []) (restore format mem_engine ticks stored other_store).0
    ≡ seen 9 (108 ∷ []) other_store
unfolding snapshot snapshot_entries mem_engine MemStore.put MemStore.scan MemStore.get insert lookup
    sort select has_prefix place bytes_eq
restore_keeps_example =
    restore_keeps format 4 ticks 9 (108 ∷ []) stored store other_store (λ h. refl) (refl, tt) refl
      refl
