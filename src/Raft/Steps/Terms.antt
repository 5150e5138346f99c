-- ===== src/Raft/Steps/Terms.antt =====
-- internal/raft: terms never fall and a vote is never taken back, over every step of a node.
use boiler_pulse.Prelude.{
  ℕ, ◌+◌, ◌≡◌, refl, sym, ◌∙◌, ◌≢◌, true, arith, String, List, [], ◌∷◌, u64, length, lt→ltb, le→ltb,
}
use native.Mathlib.Decide.{dec_lt}
use boiler_pulse.Raft.Types.{
  LogEntry, RequestVoteArgs, AppendEntriesArgs, AppendEntriesReply, InstallSnapshotArgs,
  InstallSnapshotReply,
}
use boiler_pulse.Raft.Interfaces.{Storage, StateMachine}
use boiler_pulse.Raft.Node.{Node, Env, reset_election_timer}
use boiler_pulse.Raft.Log.{last_log_index, discard_log_prefix, append_log}
use boiler_pulse.Raft.Election.{handle_request_vote}
use boiler_pulse.Raft.Election.Votes.{
  handle_request_vote-VoteKept, handle_request_vote-recorded, tick-VoteKept,
  handle_vote_reply-VoteKept,
}
use boiler_pulse.Raft.Replication.{
  handle_append_entries, check_entries, handle_append_reply, record_match, back_off, accept_entries,
}
use boiler_pulse.Raft.Replication.Handler.{store_entries_frame}
use boiler_pulse.Raft.Snapshot.{
  begin_install, persist_install, finish_install, handle_install_reply, record_install,
}
use boiler_pulse.Raft.Apply.{
  append_batch, ApplyRound, apply_round, number_entries, save_own_snapshot, start,
}
use boiler_pulse.Raft.Frame.{
  SameVote, VoteKept, VoteKept-of_same, VoteKept-refl, VoteKept-trans, SameVote-kept,
  SameVote-trans, become_follower-VoteKept, follow_leader-VoteKept, follow_commit-SameVote,
  maybe_advance-SameVote,
}
use boiler_pulse.Raft.Steps.{
  Step, started, ticked, vote_requested, vote_replied, append_requested, append_replied,
  install_begun, install_persisted, install_finished, install_replied, proposed,
  replication_triggered, entry_applied, snapshot_saved, prefix_discarded, Reach, here, next,
}

module _ {D M : Type 0} where
  record_match-SameVote :
      (peer : String) (prev count : ℕ) (n : Node D M) → SameVote n (record_match peer prev count n)
  unfolding record_match
  record_match-SameVote peer prev count n = record {
    term = (maybe_advance-SameVote _).term;
    vote = (maybe_advance-SameVote _).vote;
  }

  record_install-SameVote :
      (peer : String) (last : ℕ) (n : Node D M) → SameVote n (record_install peer last n)
  unfolding record_install
  record_install-SameVote peer last n = record {
    term = (maybe_advance-SameVote _).term;
    vote = (maybe_advance-SameVote _).vote;
  }

  back_off-SameVote : (peer : String) (c : ℕ) (n : Node D M) → SameVote n (back_off peer c n)
  unfolding back_off
  back_off-SameVote peer c n = record { term = ground arith; vote = ground arith }

module _ {D M : Type 0} (st : Storage D) where
  append_log-SameVote : (es : List LogEntry) (n : Node D M) → SameVote n (append_log st es n)
  unfolding append_log
  append_log-SameVote [] n = record { term = refl; vote = refl }
  append_log-SameVote (e ∷ es) n = record { term = refl; vote = refl }

  accept_entries-SameVote :
      (args : AppendEntriesArgs) (n : Node D M) → SameVote n (accept_entries st args n).0
  unfolding accept_entries
  accept_entries-SameVote args n =
      let f = store_entries_frame st args.entries (u64 (args.prev_log_index + 1)) n in
      SameVote-trans (record { term = f.2; vote = f.3 })
        (follow_commit-SameVote args.leader_commit _)

  check_entries-SameVote :
      (args : AppendEntriesArgs) (n : Node D M) → SameVote n (check_entries st args n).0
  unfolding check_entries
  check_entries-SameVote args n =
      let h = accept_entries-SameVote args n in
      record { term = ground (arith, h.term); vote = ground (arith, h.vote) }

  handle_append_entries-VoteKept :
      (env : Env) (args : AppendEntriesArgs) (n : Node D M)
      → VoteKept n (handle_append_entries st env args n).0
  unfolding handle_append_entries
  handle_append_entries-VoteKept env args n = elim (dec_lt args.term n.current_term) [
    | yes stale ↦ rw (lt→ltb _ _ stale) (VoteKept-refl n)
    | no fresh ↦ rw (le→ltb n.current_term args.term (omega arith)) (
        SameVote-kept (follow_leader-VoteKept st env args.term args.leader_id n)
          (check_entries-SameVote args _))
  ]

  handle_append_reply-VoteKept :
      (peer : String) (args : AppendEntriesArgs) (reply : AppendEntriesReply) (n : Node D M)
      → VoteKept n (handle_append_reply st peer args reply n)
  unfolding handle_append_reply
  handle_append_reply-VoteKept peer args reply n =
      let down = become_follower-VoteKept st reply.term n in
      let matched = record_match-SameVote peer args.prev_log_index (length args.entries) n in
      let backed = back_off-SameVote peer reply.conflict_index n in
      record {
        grows = ground (arith, down.grows, matched.term, backed.term);
        keeps = λ e v. ground (arith, down.keeps, matched.vote, backed.vote, matched.term);
      }

  begin_install-VoteKept :
      (env : Env) (args : InstallSnapshotArgs) (n : Node D M)
      → VoteKept n (begin_install st env args n).0
  unfolding begin_install
  begin_install-VoteKept env args n =
      let f = follow_leader-VoteKept st env args.term args.leader_id n in
      record { grows = ground (arith, f.grows); keeps = λ e v. ground (arith, f.keeps) }

  handle_install_reply-VoteKept :
      (peer : String) (args : InstallSnapshotArgs) (reply : InstallSnapshotReply) (n : Node D M)
      → VoteKept n (handle_install_reply st peer args reply n)
  unfolding handle_install_reply
  handle_install_reply-VoteKept peer args reply n =
      let down = become_follower-VoteKept st reply.term n in
      let installed = record_install-SameVote peer args.last_included_index n in
      record {
        grows = ground (arith, down.grows, installed.term);
        keeps = λ e v. ground (arith, down.keeps, installed.vote, installed.term);
      }

  finish_install-SameVote :
      (args : InstallSnapshotArgs) (n : Node D M) → SameVote n (finish_install st args n).0
  unfolding finish_install
  finish_install-SameVote args n = record { term = ground arith; vote = ground arith }

  append_batch-SameVote :
      (batch : List (List ℕ)) (n : Node D M) → SameVote n (append_batch st batch n).0
  unfolding append_batch
  append_batch-SameVote batch n =
      let h =
        append_log-SameVote (number_entries n.current_term (u64 (last_log_index n + 1)) batch) n in
      record { term = ground (arith, h.term); vote = ground (arith, h.vote) }

  discard_log_prefix-SameVote :
      (index term : ℕ) (n : Node D M) → SameVote n (discard_log_prefix st index term n)
  unfolding discard_log_prefix
  discard_log_prefix-SameVote index term n = record { term = ground arith; vote = ground arith }

module _ {D M : Type 0} (st : Storage D) (sm : StateMachine M) where
  apply_round-SameVote : (n m : Node D M) → apply_round sm n ≡ ApplyRound.applied m → SameVote n m
  unfolding apply_round
  apply_round-SameVote n m h = record { term = ground arith; vote = ground arith }

  persist_install-SameVote :
      (args : InstallSnapshotArgs) (n : Node D M) → SameVote n (persist_install st sm args n).0
  unfolding persist_install
  persist_install-SameVote args n = record { term = ground arith; vote = ground arith }

  save_own_snapshot-SameVote :
      (index term : ℕ) (n : Node D M) → SameVote n (save_own_snapshot st sm index term n).0
  unfolding save_own_snapshot
  save_own_snapshot-SameVote index term n = record { term = ground arith; vote = ground arith }

  start-SameVote : (env : Env) (n : Node D M) → SameVote n (start env n)
  unfolding start reset_election_timer
  start-SameVote env n = record { term = refl; vote = refl }

  pub Step-VoteKept : {n m : Node D M} → Step st sm n m → VoteKept n m
  Step-VoteKept (started env n) = VoteKept-of_same (start-SameVote env n)
  Step-VoteKept (ticked env n fits) = tick-VoteKept st env n fits
  Step-VoteKept (vote_requested env args n) = handle_request_vote-VoteKept st env args n
  Step-VoteKept (vote_replied b reply n) = handle_vote_reply-VoteKept st b reply n
  Step-VoteKept (append_requested env args n) = handle_append_entries-VoteKept st env args n
  Step-VoteKept (append_replied peer args reply n) =
      handle_append_reply-VoteKept st peer args reply n
  Step-VoteKept (install_begun env args n) = begin_install-VoteKept st env args n
  Step-VoteKept (install_persisted args n) = VoteKept-of_same (persist_install-SameVote args n)
  Step-VoteKept (install_finished args n) = VoteKept-of_same (finish_install-SameVote st args n)
  Step-VoteKept (install_replied peer args reply n) =
      handle_install_reply-VoteKept st peer args reply n
  Step-VoteKept (proposed batch n) = VoteKept-of_same (append_batch-SameVote st batch n)
  Step-VoteKept (replication_triggered peer n) =
      VoteKept-of_same (record { term = refl; vote = refl })
  Step-VoteKept (entry_applied n m e) = VoteKept-of_same (apply_round-SameVote n m e)
  Step-VoteKept (snapshot_saved index term n) =
      VoteKept-of_same (save_own_snapshot-SameVote index term n)
  Step-VoteKept (prefix_discarded index term n) =
      VoteKept-of_same (discard_log_prefix-SameVote st index term n)

  -- Over any run of a node its term never falls, and a vote that it cast in a term stays its vote
  -- for as long as the term lasts.
  pub Reach-VoteKept : {n m : Node D M} → Reach st sm n m → VoteKept n m
  Reach-VoteKept {n} here = VoteKept-refl n
  Reach-VoteKept (next r s) = VoteKept-trans (Reach-VoteKept r) (Step-VoteKept s)

  -- Two votes that a node grants in one term, at two moments of any run of it, are for the same
  -- candidate, if the first candidate has an ID.
  pub one_vote_per_term :
      (env env' : Env) (first second : RequestVoteArgs) (n m : Node D M)
      → Reach st sm (handle_request_vote st env first n).0 m
      → (handle_request_vote st env first n).1.vote_granted ≡ true
      → (handle_request_vote st env' second m).1.vote_granted ≡ true
      → first.term ≡ second.term
      → first.candidate_id ≢ ""
      → first.candidate_id ≡ second.candidate_id
  one_vote_per_term env env' first second n m run g g' same named =
      let (v, t, _) = handle_request_vote-recorded st env first n g in
      let (v', t', _) = handle_request_vote-recorded st env' second m g' in
      let kept =
        VoteKept-trans (Reach-VoteKept run) (handle_request_vote-VoteKept st env' second m) in
      sym (sym v' ∙ kept.keeps (t' ∙ sym same ∙ sym t) (λ e. named (sym v ∙ e)) ∙ v)
