-- ===== src/Raft/Interfaces.antt =====
-- internal/raft/interfaces.go: what a node is given. Both are parameters of the node; the storage
-- is implemented by filestorage.go, the state machine by internal/storage/statemachine.go.
use boiler_pulse.Prelude.{ℕ, String, Bool, List, Option}
use boiler_pulse.Raft.Types.{LogEntry}

pub record SnapshotData : Type 0 where
  pub last_included_index : ℕ
  pub last_included_term : ℕ
  pub contents : List ℕ

-- `D` is the state of the disk. A write returns the new state and whether its error is nil; a load
-- returns `none` for an error.
pub record Storage (D : Type 0) : Type 0 where
  pub save_term_and_vote : ℕ → String → D → D × Bool
  pub load_term_and_vote : D → Option (ℕ × String)
  pub append_entries : List LogEntry → D → D × Bool
  pub truncate_from : ℕ → D → D × Bool
  pub load_log : D → Option (List LogEntry)
  pub save_snapshot : SnapshotData → D → D × Bool
  pub load_snapshot : D → Option (Option SnapshotData)
  pub discard_log_through : ℕ → D → D × Bool

-- `M` is the state of the state machine.
pub record StateMachine (M : Type 0) : Type 0 where
  pub apply : List ℕ → M → M × Bool
  pub snapshot : M → Option (List ℕ)
  pub restore : List ℕ → M → M × Bool
