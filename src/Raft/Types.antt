-- ===== src/Raft/Types.antt =====
-- internal/raft/types.go: server states, log entries, RPC messages, options and status.
use boiler_pulse.Prelude.{ℕ, String, Bool, List}

-- An `int` enum; no other value is ever stored.
pub data State : Type 0 where
  follower candidate leader : State

unfoldable pub state_string : State → String
state_string State.follower = "FOLLOWER"
state_string State.candidate = "CANDIDATE"
state_string State.leader = "LEADER"

-- A byte slice is a list of numbers.
pub record LogEntry : Type 0 where
  pub term : ℕ
  pub index : ℕ
  pub command : List ℕ

pub record RequestVoteArgs : Type 0 where
  pub term : ℕ
  pub candidate_id : String
  pub last_log_index : ℕ
  pub last_log_term : ℕ

pub record RequestVoteReply : Type 0 where
  pub term : ℕ
  pub vote_granted : Bool

pub record AppendEntriesArgs : Type 0 where
  pub term : ℕ
  pub leader_id : String
  pub prev_log_index : ℕ
  pub prev_log_term : ℕ
  pub entries : List LogEntry
  pub leader_commit : ℕ

pub record AppendEntriesReply : Type 0 where
  pub term : ℕ
  pub success : Bool
  pub conflict_index : ℕ

pub record InstallSnapshotArgs : Type 0 where
  pub term : ℕ
  pub leader_id : String
  pub last_included_index : ℕ
  pub last_included_term : ℕ
  pub contents : List ℕ

pub record InstallSnapshotReply : Type 0 where
  pub term : ℕ

-- Durations are in nanoseconds. `snapshot_threshold` 0 stands for every value <= 0.
pub record Options : Type 0 where
  pub min_election_timeout : ℕ
  pub max_election_timeout : ℕ
  pub heartbeat_interval : ℕ
  pub tick_interval : ℕ
  pub rpc_timeout : ℕ
  pub snapshot_threshold : ℕ

abbrev pub default_options : Options
default_options = record {
  min_election_timeout = 300_000_000;
  max_election_timeout = 600_000_000;
  heartbeat_interval = 75_000_000;
  tick_interval = 10_000_000;
  rpc_timeout = 200_000_000;
  snapshot_threshold = 1000;
}

pub record Status : Type 0 where
  pub id : String
  pub state : State
  pub term : ℕ
  pub leader_id : String
  pub commit_index : ℕ
  pub last_applied : ℕ
  pub last_log_index : ℕ
