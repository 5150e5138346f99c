-- ===== src/Storage/StateMachine.antt =====
-- internal/storage: statemachine.go and command.go, over any engine. JSON is a parameter, with `none`
-- for an error. Each operation reads the clock once, but for `Restore`, which reads it twice for an
-- entry: `clock i` is its reading with number i.
pub mod Replay
pub mod Restore
pub mod Install
mod Runs
use boiler_pulse.Prelude.{
  ℕ, ◌+◌, ◌-◌, ◌*◌, ◌^◌, Bool, true, false, List, [], ◌∷◌, Option, none, some, if◌then◌else◌, ltb,
  ◌==◌, u64, suc,
}
use boiler_pulse.Storage.{Entry}
use boiler_pulse.Storage.Table.{Key}
use boiler_pulse.Storage.Table.Overlay.{sort}
use boiler_pulse.Storage.MemStore
use boiler_pulse.Storage.MemStore.{MemStore}

abbrev pub command_set : ℕ
command_set = 1

abbrev pub command_delete : ℕ
command_delete = 2

-- `ttl_seconds` is an int64 in two's complement.
pub record Command : Type 0 where
  pub op : ℕ
  pub key : Key
  pub value : List ℕ
  pub consistency : List ℕ
  pub ttl_seconds : ℕ

-- The key of an entry stands beside it.
pub record SnapshotEntry : Type 0 where
  pub value : List ℕ
  pub consistency : List ℕ
  pub expires_at : ℕ

pub record Json : Type 0 where
  pub encode_command : Command → Option (List ℕ)
  pub decode_command : List ℕ → Option Command
  pub encode_snapshot : List (Key × SnapshotEntry) → Option (List ℕ)
  pub decode_snapshot : List ℕ → Option (List (Key × SnapshotEntry))

pub data Deleted (S : Type 0) : Type 0 where
  deleted : S → Deleted S
  key_not_found : Deleted S
  delete_failed : S → Deleted S

-- storage.go: what the state machine uses of `Engine`. A duration that is not positive is 0.
pub record Engine (S : Type 0) : Type 0 where
  pub put : ℕ → Key → List ℕ → List ℕ → ℕ → S → S × Bool
  pub delete : ℕ → Key → S → Deleted S
  pub scan : ℕ → Key → S → Option (List (Key × Entry))

-- The product of int64 wraps around; a negative one is no time to live.
unfoldable pub duration_of : ℕ → ℕ
duration_of seconds = let d = u64 (seconds * 1_000_000_000) in if ltb d (2 ^ 63) then d else 0

-- `time.Until(t)` when the clock reads `now`: a Duration is an int64, and `Sub` stops at its
-- maximum. One that is not positive is 0.
unfoldable pub time_until : ℕ → ℕ → ℕ
time_until t now = let d = t - now in if ltb d (2 ^ 63) then d else 2 ^ 63 - 1

unfoldable pub snapshot_entries : List (Key × Entry) → List (Key × SnapshotEntry)
snapshot_entries [] = []
snapshot_entries ((k, e) ∷ es) =
    (k, record { value = e.value; consistency = e.consistency; expires_at = e.expires_at })
    ∷ snapshot_entries es

module _ {S : Type 0} (eng : Engine S) where
  unfoldable pub apply_delete : ℕ → Key → S → S × Bool
  apply_delete now key s = elim (eng.delete now key s) [
    | deleted s1 ↦ (s1, true)
    | key_not_found ↦ (s, true)
    | delete_failed s1 ↦ (s1, false)
  ]

  -- `Apply` on a decoded command.
  unfoldable pub run : ℕ → Command → S → S × Bool
  unfolding duration_of apply_delete
  run now c s =
      if c.op == command_set
      then eng.put now c.key c.value c.consistency (duration_of c.ttl_seconds) s
      else (if c.op == command_delete then apply_delete now c.key s else (s, false))

  -- `time.Until` has one reading of the clock, and `Put` the next one.
  unfoldable pub restore_entry : (ℕ → ℕ) → ℕ → Key → SnapshotEntry → S → S × Bool
  unfolding time_until
  restore_entry clock i key e s =
      if e.expires_at == 0
      then eng.put (clock (suc i)) key e.value e.consistency 0 s
      else (let ttl = time_until e.expires_at (clock i) in
          if ttl == 0 then (s, true) else eng.put (clock (suc i)) key e.value e.consistency ttl s)

  unfoldable pub restore_entries : (ℕ → ℕ) → ℕ → List (Key × SnapshotEntry) → S → S × Bool
  unfolding restore_entry
  restore_entries clock i [] s = (s, true)
  restore_entries clock i ((k, e) ∷ es) s =
      let (s1, put_done) = restore_entry clock i k e s in
      let rest = restore_entries clock (i + 2) es s1 in if put_done then rest else (s1, false)

module _ {S : Type 0} (json : Json) (eng : Engine S) where
  unfoldable pub apply : ℕ → List ℕ → S → S × Bool
  unfolding run
  apply now command s = elim (json.decode_command command) [
    | none ↦ (s, false)
    | some c ↦ run eng now c s
  ]

  unfoldable pub snapshot : ℕ → S → Option (List ℕ)
  unfolding snapshot_entries
  snapshot now s = elim (eng.scan now [] s) [
    | none ↦ none
    | some es ↦ json.encode_snapshot (sort (snapshot_entries es))
  ]

  unfoldable pub restore : (ℕ → ℕ) → List ℕ → S → S × Bool
  unfolding restore_entries
  restore clock contents s = elim (json.decode_snapshot contents) [
    | none ↦ (s, false)
    | some es ↦ restore_entries eng clock 0 es s
  ]

-- memstore.go as the engine.
unfoldable pub mem_delete : ℕ → Key → MemStore → Deleted MemStore
unfolding MemStore.delete
mem_delete now key m = elim (MemStore.delete now key m) [
  | none ↦ key_not_found
  | some m1 ↦ deleted m1
]

unfoldable pub mem_engine : Engine MemStore
unfolding mem_delete MemStore.put MemStore.scan
mem_engine = record {
  put = λ now key value consistency ttl m. (MemStore.put now key value consistency ttl m, true);
  delete = mem_delete;
  scan = λ now prefix m. some (MemStore.scan now prefix m);
}
