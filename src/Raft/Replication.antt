-- ===== src/Raft/Replication.antt =====
-- internal/raft/replication.go: AppendEntries on both sides, and the leader's commit rule.
pub mod Merge
pub mod Laws
pub mod Handler
pub mod Outcome
pub mod Theorems
pub mod Commit
pub mod Compacted
use boiler_pulse.Prelude.{
  ℕ, zero, suc, ◌+◌, ◌-◌, String, true, false, not, List, [], ◌∷◌, ltb, leb, ◌==◌, ◌&&◌, ◌||◌,
  if◌then◌else◌, length, take, drop, min, u64,
}
use boiler_pulse.Raft.Types.{State, LogEntry, AppendEntriesArgs, AppendEntriesReply}
use boiler_pulse.Raft.Interfaces.{Storage}
use boiler_pulse.Raft.Node.{
  Node, Env, is_leader, is_candidate, update, majority, reset_election_timer, become_follower,
}
use boiler_pulse.Raft.Log.{last_log_index, term_at, append_log, truncate_log_from}

abbrev pub max_replication_batch_size : ℕ
max_replication_batch_size = 64

-- What `sendAppendEntriesTo` does when it releases the lock.
pub data Outgoing : Type 0 where
  quiet : Outgoing
  snapshot_due : ℕ → Outgoing
  append_due : AppendEntriesArgs → Outgoing

module _ {D M : Type 0} where
  abbrev pub signal_apply : Node D M → Node D M
  signal_apply n = record n { apply_notify = true }

  -- `idx` walks down while the entry before it has the conflicting term.
  unfoldable pub first_of_term : Node D M → ℕ → ℕ → ℕ
  first_of_term n conflict zero = zero
  first_of_term n conflict (suc k) =
      if ltb 0 k && term_at n k == conflict then first_of_term n conflict k else suc k

  abbrev pub refuse : Node D M → ℕ → AppendEntriesReply
  refuse n conflict = record { term = n.current_term; success = false; conflict_index = conflict }

  -- The follower's commit index, then the reply.
  unfoldable pub follow_commit : ℕ → Node D M → Node D M
  follow_commit leader_commit n =
      if ltb n.commit_index leader_commit
      then signal_apply (record n { commit_index = min leader_commit (last_log_index n) })
      else n

module _ {D M : Type 0} (st : Storage D) where
  -- The loop over `args.Entries`; `idx` is `PrevLogIndex + 1 + i`.
  unfoldable pub store_entries : List LogEntry → ℕ → Node D M → Node D M
  store_entries [] idx n = n
  store_entries (e ∷ es) idx n =
      let rest = store_entries es (u64 (idx + 1)) n in
      if leb idx (last_log_index n)
      then (if term_at n idx == e.term
          then rest
          else append_log st (e ∷ es) (truncate_log_from st idx n))
      else append_log st (e ∷ es) n

  -- What follows a passed consistency check.
  unfoldable pub accept_entries : AppendEntriesArgs → Node D M → Node D M × AppendEntriesReply
  accept_entries args n = (
    follow_commit args.leader_commit (store_entries args.entries (u64 (args.prev_log_index + 1)) n),
    record { term = n.current_term; success = true; conflict_index = 0 },
  )

  unfoldable pub check_entries : AppendEntriesArgs → Node D M → Node D M × AppendEntriesReply
  check_entries args n =
      if ltb 0 args.prev_log_index
      then if ltb args.prev_log_index n.log_base_index
        then (n, refuse n (u64 (n.log_base_index + 1)))
        else if ltb (last_log_index n) args.prev_log_index
        then (n, refuse n (u64 (last_log_index n + 1)))
        else if not (term_at n args.prev_log_index == args.prev_log_term)
        then (n, refuse n (first_of_term n (term_at n args.prev_log_index) args.prev_log_index))
        else accept_entries args n
      else accept_entries args n

  -- A node that has heard from the leader of its term follows it.
  unfoldable pub follow_leader : Env → ℕ → String → Node D M → Node D M
  unfolding become_follower reset_election_timer
  follow_leader env term leader n =
      let n1 =
        if ltb n.current_term term || is_candidate n.state then become_follower st term n else n in
      reset_election_timer env (record n1 { state = State.follower; leader_id = leader })

  unfoldable pub handle_append_entries :
      Env → AppendEntriesArgs → Node D M → Node D M × AppendEntriesReply
  handle_append_entries env args n =
      if ltb args.term n.current_term
      then (n, refuse n 0)
      else check_entries args (follow_leader env args.term args.leader_id n)

module _ {D M : Type 0} where
  -- The first critical section of `sendAppendEntriesTo`.
  unfoldable pub prepare_append_entries : String → Node D M → Outgoing
  prepare_append_entries peer n =
      let next = if n.next_index peer == 0 then 1 else n.next_index peer in
      if not (is_leader n.state)
      then quiet
      else if leb next n.log_base_index
      then snapshot_due n.current_term
      else append_due (record {
        term = n.current_term;
        leader_id = n.id;
        prev_log_index = next - 1;
        prev_log_term = term_at n (next - 1);
        entries =
            if leb next (last_log_index n)
            then take max_replication_batch_size (drop (next - n.log_base_index - 1) n.log)
            else [];
        leader_commit = n.commit_index;
      })

  -- The peers known to hold the entry at `idx`.
  unfoldable pub replicas : Node D M → ℕ → List String → ℕ
  replicas n idx [] = 0
  replicas n idx (p ∷ ps) = (if leb idx (n.match_index p) then 1 else 0) + replicas n idx ps

  -- The loop of `maybeAdvanceCommitIndexLocked`, from `idx` down to the commit index.
  unfoldable pub advance_from : ℕ → Node D M → Node D M
  unfolding majority
  advance_from zero n = n
  advance_from (suc k) n =
      let lower = advance_from k n in
      if leb (suc k) n.commit_index
      then n
      else if not (term_at n (suc k) == n.current_term)
      then lower
      else if leb (majority n) (1 + replicas n (suc k) n.peers)
      then signal_apply (record n { commit_index = suc k })
      else lower

  unfoldable pub maybe_advance_commit_index : Node D M → Node D M
  maybe_advance_commit_index n = if is_leader n.state then advance_from (last_log_index n) n else n

  -- A successful reply to a request that carried `count` entries behind `prev`.
  unfoldable pub record_match : String → ℕ → ℕ → Node D M → Node D M
  record_match peer prev count n =
      let match = u64 (prev + count) in
      maybe_advance_commit_index (record n {
        next_index = update n.next_index peer (u64 (match + 1));
        match_index =
            if ltb (n.match_index peer) match
            then update n.match_index peer match
            else n.match_index;
      })

  unfoldable pub back_off : String → ℕ → Node D M → Node D M
  back_off peer conflict n =
      if ltb 0 conflict
      then record n { next_index = update n.next_index peer conflict }
      else if ltb 1 (n.next_index peer)
      then record n { next_index = update n.next_index peer (n.next_index peer - 1) }
      else n

module _ {D M : Type 0} (st : Storage D) where
  -- The second critical section of `sendAppendEntriesTo`; `args` is the request that was sent.
  unfoldable pub handle_append_reply :
      String → AppendEntriesArgs → AppendEntriesReply → Node D M → Node D M
  handle_append_reply peer args reply n =
      if ltb n.current_term reply.term
      then become_follower st reply.term n
      else if not (is_leader n.state) || not (n.current_term == args.term)
      then n
      else if reply.success
      then record_match peer args.prev_log_index (length args.entries) n
      else back_off peer reply.conflict_index n
