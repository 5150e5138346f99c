-- ===== src/Raft/Steps/Roles.antt =====
-- internal/raft: who a node is never changes, and only a counted vote makes it the leader.
use boiler_pulse.Prelude.{ℕ, ◌+◌, ◌≤◌, ◌≡◌, refl, arith, none, ◌⊎◌, if◌then◌else◌}
use boiler_pulse.Raft.Types.{State, RequestVoteArgs, RequestVoteReply, InstallSnapshotArgs}
use boiler_pulse.Raft.Interfaces.{Storage, StateMachine}
use boiler_pulse.Raft.Node.{Node, Env, reset_election_timer, majority}
use boiler_pulse.Raft.Log.{last_log_index}
use boiler_pulse.Raft.Election.{Ballot, handle_request_vote, tick, handle_vote_reply, become_leader}
use boiler_pulse.Raft.Snapshot.{persist_install}
use boiler_pulse.Raft.Apply.{ApplyRound, apply_round, save_own_snapshot, start}
use boiler_pulse.Raft.Steps.{
  Step, started, ticked, vote_requested, vote_replied, append_requested, append_replied,
  install_begun, install_persisted, install_finished, install_replied, proposed,
  replication_triggered, entry_applied, snapshot_saved, prefix_discarded,
}
use boiler_pulse.Raft.Steps.SameRole.{
  SameRole, RoleKept, RoleKept-of_same, trigger_all-SameRole, init_peers-SameRole,
  become_follower-RoleKept, handle_append_entries-RoleKept, handle_append_reply-RoleKept,
  begin_install-RoleKept, handle_install_reply-RoleKept, finish_install-SameRole,
  append_batch-SameRole, discard_log_prefix-SameRole,
}

module _ {D M : Type 0} (st : Storage D) where
  pub handle_request_vote-RoleKept :
      (env : Env) (args : RequestVoteArgs) (n : Node D M)
      → RoleKept n (handle_request_vote st env args n).0
  unfolding handle_request_vote
  handle_request_vote-RoleKept env args n = record {
    id = ground arith;
    peers = ground arith;
    leads = λ l. ground (arith, l);
  }

  pub tick-RoleKept : (env : Env) (n : Node D M) → RoleKept n (tick st env n).0
  unfolding tick
  tick-RoleKept env n =
      let h =
        RoleKept-of_same
          (trigger_all-SameRole n.peers (record n { last_heartbeat_sent = env.now })) in
      record {
        id = ground (arith, h.id);
        peers = ground (arith, h.peers);
        leads = λ l. ground (arith, l, h.leads);
      }

  -- What a reply can do to the candidate and its ballot.
  pub record Counted (b : Ballot) (reply : RequestVoteReply) (n m : Node D M) (after : Ballot)
      : Type 0 where
    pub id : m.id ≡ n.id
    pub peers : m.peers ≡ n.peers
    pub term : after.term ≡ b.term
    pub grows : b.votes ≤ after.votes
    pub one_more : after.votes ≤ b.votes + (if reply.vote_granted then 1 else 0)
    pub leads :
        m.state ≡ State.leader
        → ((n.state ≡ State.leader) × (m.current_term ≡ n.current_term))
          ⊎ ((m.current_term ≡ b.term) × (majority n ≤ after.votes))

  become_leader-term :
      (n : Node D M)
      → ((become_leader n).id ≡ n.id)
        × ((become_leader n).peers ≡ n.peers)
        × ((become_leader n).current_term ≡ n.current_term)
  unfolding become_leader
  become_leader-term n =
      let h = init_peers-SameRole n.peers (last_log_index n) (record n {
        state = State.leader;
        leader_id = n.id;
        next_index = λ _. 0;
        match_index = λ _. 0;
      }) in
      (h.id, h.peers, h.term)

  pub handle_vote_reply-Counted :
      (b : Ballot) (reply : RequestVoteReply) (n : Node D M)
      → Counted b reply n (handle_vote_reply st b reply n).0 (handle_vote_reply st b reply n).1
  unfolding handle_vote_reply
  handle_vote_reply-Counted b reply n =
      let down = become_follower-RoleKept st reply.term n in
      let (i, p, t) = become_leader-term n in
      record {
        id = ground (arith, down.id, i);
        peers = ground (arith, down.peers, p);
        term = ground arith;
        grows = ground arith;
        one_more = ground arith;
        leads = λ l. ground (arith, l, down.leads, t);
      }

module _ {D M : Type 0} (st : Storage D) (sm : StateMachine M) where
  apply_round-SameRole : (n m : Node D M) → apply_round sm n ≡ ApplyRound.applied m → SameRole n m
  unfolding apply_round
  apply_round-SameRole n m h = record {
    id = ground arith;
    peers = ground arith;
    state = ground arith;
    term = ground arith;
  }

  persist_install-SameRole :
      (args : InstallSnapshotArgs) (n : Node D M) → SameRole n (persist_install st sm args n).0
  unfolding persist_install
  persist_install-SameRole args n = record {
    id = ground arith;
    peers = ground arith;
    state = ground arith;
    term = ground arith;
  }

  save_own_snapshot-SameRole :
      (index term : ℕ) (n : Node D M) → SameRole n (save_own_snapshot st sm index term n).0
  unfolding save_own_snapshot
  save_own_snapshot-SameRole index term n = record {
    id = ground arith;
    peers = ground arith;
    state = ground arith;
    term = ground arith;
  }

  -- The steps that are neither an election nor the reply to one.
  abbrev pub IsLocal : {n m : Node D M} → Step st sm n m → Type 0
  IsLocal (ticked env n fits) = (tick st env n).1 ≡ none
  IsLocal (vote_replied b reply n) = ⊥
  IsLocal _ = Unit {0}

  pub Step-RoleKept : {n m : Node D M} (s : Step st sm n m) → IsLocal s → RoleKept n m
  Step-RoleKept (started env n) h =
      (unfold start reset_election_timer in
        RoleKept-of_same (record { id = refl; peers = refl; state = refl; term = refl }))
  Step-RoleKept (ticked env n fits) h = tick-RoleKept st env n
  Step-RoleKept (vote_requested env args n) h = handle_request_vote-RoleKept st env args n
  Step-RoleKept (vote_replied b reply n) h = absurd h
  Step-RoleKept (append_requested env args n) h = handle_append_entries-RoleKept st env args n
  Step-RoleKept (append_replied peer args reply n) h =
      handle_append_reply-RoleKept st peer args reply n
  Step-RoleKept (install_begun env args n) h = begin_install-RoleKept st env args n
  Step-RoleKept (install_persisted args n) h = RoleKept-of_same (persist_install-SameRole args n)
  Step-RoleKept (install_finished args n) h = RoleKept-of_same (finish_install-SameRole st args n)
  Step-RoleKept (install_replied peer args reply n) h =
      handle_install_reply-RoleKept st peer args reply n
  Step-RoleKept (proposed batch n) h = RoleKept-of_same (append_batch-SameRole st batch n)
  Step-RoleKept (replication_triggered peer n) h =
      RoleKept-of_same (record { id = refl; peers = refl; state = refl; term = refl })
  Step-RoleKept (entry_applied n m e) h = RoleKept-of_same (apply_round-SameRole n m e)
  Step-RoleKept (snapshot_saved index term n) h =
      RoleKept-of_same (save_own_snapshot-SameRole index term n)
  Step-RoleKept (prefix_discarded index term n) h =
      RoleKept-of_same (discard_log_prefix-SameRole st index term n)
