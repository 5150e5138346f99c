-- ===== src/Raft/Steps.antt =====
-- internal/raft: the critical sections as a step relation. Every RPC, reply, tick, proposal, apply
-- round and snapshot step is one step, in any order, with any arguments.
pub mod Terms
pub mod SameRole
pub mod Roles
use boiler_pulse.Prelude.{ℕ, ◌≡◌, String, List, ◌^◌, ◌+◌, ◌<◌}
use boiler_pulse.Raft.Types.{
  RequestVoteArgs, RequestVoteReply, AppendEntriesArgs, AppendEntriesReply, InstallSnapshotArgs,
  InstallSnapshotReply,
}
use boiler_pulse.Raft.Interfaces.{Storage, StateMachine}
use boiler_pulse.Raft.Node.{Node, Env}
use boiler_pulse.Raft.Log.{discard_log_prefix}
use boiler_pulse.Raft.Election.{
  Ballot, tick, handle_vote_reply, handle_request_vote, trigger_replication,
}
use boiler_pulse.Raft.Replication.{handle_append_entries, handle_append_reply}
use boiler_pulse.Raft.Snapshot.{
  begin_install, persist_install, finish_install, handle_install_reply,
}
use boiler_pulse.Raft.Apply.{append_batch, ApplyRound, apply_round, save_own_snapshot, start}

-- A tick may start an election, whose term has to fit a uint64.
pub data Step {D M : Type 0} (st : Storage D) (sm : StateMachine M)
    : Node D M → Node D M → Type 0 where
  started : (env : Env) (n : Node D M) → Step st sm n (start env n)
  ticked : (env : Env) (n : Node D M) → n.current_term + 1 < 2 ^ 64 → Step st sm n (tick st env n).0
  vote_requested :
      (env : Env) (args : RequestVoteArgs) (n : Node D M)
      → Step st sm n (handle_request_vote st env args n).0
  vote_replied :
      (b : Ballot) (reply : RequestVoteReply) (n : Node D M)
      → Step st sm n (handle_vote_reply st b reply n).0
  append_requested :
      (env : Env) (args : AppendEntriesArgs) (n : Node D M)
      → Step st sm n (handle_append_entries st env args n).0
  append_replied :
      (peer : String) (args : AppendEntriesArgs) (reply : AppendEntriesReply) (n : Node D M)
      → Step st sm n (handle_append_reply st peer args reply n)
  install_begun :
      (env : Env) (args : InstallSnapshotArgs) (n : Node D M)
      → Step st sm n (begin_install st env args n).0
  install_persisted :
      (args : InstallSnapshotArgs) (n : Node D M) → Step st sm n (persist_install st sm args n).0
  install_finished :
      (args : InstallSnapshotArgs) (n : Node D M) → Step st sm n (finish_install st args n).0
  install_replied :
      (peer : String) (args : InstallSnapshotArgs) (reply : InstallSnapshotReply) (n : Node D M)
      → Step st sm n (handle_install_reply st peer args reply n)
  proposed : (batch : List (List ℕ)) (n : Node D M) → Step st sm n (append_batch st batch n).0
  replication_triggered : (peer : String) (n : Node D M) → Step st sm n (trigger_replication peer n)
  entry_applied : (n m : Node D M) → apply_round sm n ≡ ApplyRound.applied m → Step st sm n m
  snapshot_saved :
      (index term : ℕ) (n : Node D M) → Step st sm n (save_own_snapshot st sm index term n).0
  prefix_discarded :
      (index term : ℕ) (n : Node D M) → Step st sm n (discard_log_prefix st index term n)

-- Any number of steps.
pub data Reach {D M : Type 0} (st : Storage D) (sm : StateMachine M) (n : Node D M)
    : Node D M → Type 0 where
  here : Reach st sm n n
  next : {m k : Node D M} → Reach st sm n m → Step st sm m k → Reach st sm n k
