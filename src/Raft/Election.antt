-- ===== src/Raft/Election.antt =====
-- internal/raft/election.go and the ticking of tick.go: elections, and the votes of the others.
pub mod Votes
use boiler_pulse.Prelude.{
  ℕ, ◌+◌, ◌-◌, String, Bool, true, false, not, List, [], ◌∷◌, Option, none, some, ltb, leb, ◌==◌,
  ◌&&◌, ◌||◌, if◌then◌else◌, str_eq, u64,
}
use boiler_pulse.Raft.Types.{State, RequestVoteArgs, RequestVoteReply}
use boiler_pulse.Raft.Interfaces.{Storage}
use boiler_pulse.Raft.Node.{
  Node, Env, is_leader, is_candidate, update, majority, reset_election_timer, persist_term_and_vote,
  become_follower,
}
use boiler_pulse.Raft.Log.{last_log_index, last_log_term}

-- What the reply handlers of one election share: its term and the votes counted so far.
pub record Ballot : Type 0 where
  pub term : ℕ
  pub votes : ℕ

module _ {D M : Type 0} where
  -- The loop over the peers in `becomeLeaderLocked`.
  abbrev pub init_peers : List String → ℕ → Node D M → Node D M
  init_peers [] last n = n
  init_peers (p ∷ ps) last n = init_peers ps last (record n {
    next_index = update n.next_index p (u64 (last + 1));
    match_index = update n.match_index p 0;
  })

  -- The zero time of `last_heartbeat_sent` forces a heartbeat on the next tick.
  unfoldable pub become_leader : Node D M → Node D M
  become_leader n =
      let n1 = record n {
        state = State.leader;
        leader_id = n.id;
        next_index = λ _. 0;
        match_index = λ _. 0;
      } in
      record (init_peers n.peers (last_log_index n) n1) { last_heartbeat_sent = 0 }

  abbrev pub can_vote : Node D M → String → Bool
  can_vote n candidate = str_eq n.voted_for "" || str_eq n.voted_for candidate

  -- The candidate's log is at least as up to date as ours.
  abbrev pub log_ok : Node D M → RequestVoteArgs → Bool
  log_ok n args =
      ltb (last_log_term n) args.last_log_term
      || (args.last_log_term == last_log_term n && leb (last_log_index n) args.last_log_index)

  abbrev pub trigger_replication : String → Node D M → Node D M
  trigger_replication peer n = record n { replicate_ch = update n.replicate_ch peer true }

  abbrev pub trigger_all : List String → Node D M → Node D M
  trigger_all [] n = n
  trigger_all (p ∷ ps) n = trigger_all ps (trigger_replication p n)

module _ {D M : Type 0} (st : Storage D) where
  -- The request is what every peer is sent.
  unfoldable pub start_election : Env → Node D M → Node D M × RequestVoteArgs × Ballot
  unfolding persist_term_and_vote reset_election_timer
  start_election env n =
      let n1 = reset_election_timer env (
        persist_term_and_vote st (record n {
          state = State.candidate;
          current_term = u64 (n.current_term + 1);
          voted_for = n.id;
        })) in
      (
        n1,
        record {
          term = n1.current_term;
          candidate_id = n1.id;
          last_log_index = last_log_index n1;
          last_log_term = last_log_term n1;
        },
        record { term = n1.current_term; votes = 1 },
      )

  -- The handler that each peer's goroutine runs on its reply.
  unfoldable pub handle_vote_reply : Ballot → RequestVoteReply → Node D M → Node D M × Ballot
  handle_vote_reply b reply n =
      if ltb n.current_term reply.term
      then (become_follower st reply.term n, b)
      else if not (is_candidate n.state) || not (n.current_term == b.term)
      then (n, b)
      else if reply.vote_granted
      then (
        if leb (majority n) (b.votes + 1) then become_leader n else n,
        record b { votes = b.votes + 1 },
      )
      else (n, b)

  -- The vote, once the terms are settled.
  unfoldable pub decide_vote : Env → RequestVoteArgs → Node D M → Node D M × RequestVoteReply
  unfolding persist_term_and_vote reset_election_timer
  decide_vote env args n =
      if can_vote n args.candidate_id && log_ok n args
      then (
        reset_election_timer env
            (persist_term_and_vote st (record n { voted_for = args.candidate_id })),
        record { term = n.current_term; vote_granted = true },
      )
      else (n, record { term = n.current_term; vote_granted = false })

  unfoldable pub handle_request_vote :
      Env → RequestVoteArgs → Node D M → Node D M × RequestVoteReply
  unfolding become_follower decide_vote
  handle_request_vote env args n =
      if ltb args.term n.current_term
      then (n, record { term = n.current_term; vote_granted = false })
      else decide_vote env args
          (if ltb n.current_term args.term then become_follower st args.term n else n)

  -- tick.go: an election or a heartbeat that is due. The request is `none` with no election.
  unfoldable pub tick : Env → Node D M → Node D M × Option (RequestVoteArgs × Ballot)
  unfolding start_election
  tick env n =
      if not (is_leader n.state) && leb n.election_timeout (env.now - n.election_reset_at)
      then (let (n1, args, b) = start_election env n in (n1, some (args, b)))
      else if is_leader n.state && leb n.opts.heartbeat_interval (env.now - n.last_heartbeat_sent)
      then (trigger_all n.peers (record n { last_heartbeat_sent = env.now }), none)
      else (n, none)
