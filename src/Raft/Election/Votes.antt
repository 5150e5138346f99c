-- ===== src/Raft/Election/Votes.antt =====
-- internal/raft/election.go: when a vote is given, and what it leaves behind.
use boiler_pulse.Prelude.{
  ℕ, ◌+◌, ◌^◌, ◌≤◌, ◌<◌, ◌≡◌, ◌∙◌, ap, ◌⊎◌, ◌↔◌, inl, inr, true, arith, eq_iff,
}
use native.Mathlib.Decide.{dec_lt}
use boiler_pulse.Raft.Types.{RequestVoteArgs, RequestVoteReply}
use boiler_pulse.Raft.Interfaces.{Storage}
use boiler_pulse.Raft.Node.{Node, Env, become_follower}
use boiler_pulse.Raft.Log.{last_log_index, last_log_term}
use boiler_pulse.Raft.Election.{
  Ballot, decide_vote, handle_request_vote, start_election, handle_vote_reply, tick,
}
use boiler_pulse.Raft.Frame.{
  SameLog, VoteKept, become_leader-SameVote, become_follower-SameLog, become_follower-VoteKept,
  trigger_all-SameVote,
}

-- The candidate's log is at least as up to date as the voter's: by the last term, then by length.
abbrev pub UpToDate : {D M : Type 0} → RequestVoteArgs → Node D M → Type 0
UpToDate args n =
    (last_log_term n < args.last_log_term)
    ⊎ ((args.last_log_term ≡ last_log_term n) × (last_log_index n ≤ args.last_log_index))

-- The voter has not voted for anyone else in the term of the request.
abbrev pub Free : {D M : Type 0} → RequestVoteArgs → Node D M → Type 0
Free args n = (n.current_term < args.term) ⊎ (n.voted_for ≡ "") ⊎ (n.voted_for ≡ args.candidate_id)

module _ {D M : Type 0} (st : Storage D) where
  decide_vote-granted_iff :
      (env : Env) (args : RequestVoteArgs) (n : Node D M)
      → ((decide_vote st env args n).1.vote_granted ≡ true)
        ↔ (((n.voted_for ≡ "") ⊎ (n.voted_for ≡ args.candidate_id)) × UpToDate args n)
  unfolding decide_vote
  decide_vote-granted_iff env args n = (
    λ h.
        (ground (arith, eq_iff n.voted_for "", eq_iff n.voted_for args.candidate_id), ground arith),
    λ (free, log). ground (arith, eq_iff n.voted_for "", eq_iff n.voted_for args.candidate_id),
  )

  decide_newer :
      (env : Env) (args : RequestVoteArgs) (n : Node D M)
      → n.current_term < args.term
      → handle_request_vote st env args n ≡ decide_vote st env args (become_follower st args.term n)
  unfolding handle_request_vote
  decide_newer env args n h = ground arith

  decide_same :
      (env : Env) (args : RequestVoteArgs) (n : Node D M)
      → n.current_term ≡ args.term
      → handle_request_vote st env args n ≡ decide_vote st env args n
  unfolding handle_request_vote
  decide_same env args n h = ground arith

  newer_free : (t : ℕ) (n : Node D M) → n.current_term < t → (become_follower st t n).voted_for ≡ ""
  unfolding become_follower
  newer_free t n h = ground arith

  newer-UpToDate :
      (args : RequestVoteArgs) (n : Node D M)
      → UpToDate args n
      → UpToDate args (become_follower st args.term n)
  unfolding last_log_index last_log_term
  newer-UpToDate args n h =
      let same = become_follower-SameLog st args.term n in
      ground (arith, same.log, same.base, same.base_term)

  granted :
      (env : Env) (args : RequestVoteArgs) (n : Node D M)
      → (n.current_term ≤ args.term) × Free args n × UpToDate args n
      → (handle_request_vote st env args n).1.vote_granted ≡ true
  granted env args n (fresh, free, log) = elim (dec_lt n.current_term args.term) [
    | yes newer ↦
        ap (λ r. r.1.vote_granted) (decide_newer env args n newer)
        ∙ (decide_vote-granted_iff env args (become_follower st args.term n)).1
            (inl (newer_free args.term n newer), newer-UpToDate args n log)
    | no p ↦
        ap (λ r. r.1.vote_granted) (decide_same env args n (omega arith))
        ∙ (decide_vote-granted_iff env args n).1 (not_newer free p, log)
  ]
    where
      not_newer :
          Free args n
          → ¬ (n.current_term < args.term)
          → (n.voted_for ≡ "") ⊎ (n.voted_for ≡ args.candidate_id)
      not_newer (inl a) p = absurd (p a)
      not_newer (inr a) p = a

  -- A vote is granted exactly if the request's term is not stale, the node has not voted for
  -- another candidate in that term, and the candidate's log is at least as up to date as the
  -- node's.
  pub handle_request_vote-granted_iff :
      (env : Env) (args : RequestVoteArgs) (n : Node D M)
      → ((handle_request_vote st env args n).1.vote_granted ≡ true)
        ↔ ((n.current_term ≤ args.term) × Free args n × UpToDate args n)
  unfolding handle_request_vote last_log_index last_log_term
  handle_request_vote-granted_iff env args n = (
    λ h. (
      ground arith,
      ground (arith, eq_iff n.voted_for "", eq_iff n.voted_for args.candidate_id),
      ground arith,
    ),
    granted env args n,
  )

  -- A granted vote is on record, in memory and in what was handed to the storage, and it is for
  -- the candidate, in the term of the request.
  pub handle_request_vote-recorded :
      (env : Env) (args : RequestVoteArgs) (n : Node D M)
      → (handle_request_vote st env args n).1.vote_granted ≡ true
      → ((handle_request_vote st env args n).0.voted_for ≡ args.candidate_id)
        × ((handle_request_vote st env args n).0.current_term ≡ args.term)
        × ((handle_request_vote st env args n).1.term ≡ args.term)
  unfolding handle_request_vote
  handle_request_vote-recorded env args n h = (ground arith, ground arith, ground arith)

  pub handle_request_vote-VoteKept :
      (env : Env) (args : RequestVoteArgs) (n : Node D M)
      → VoteKept n (handle_request_vote st env args n).0
  unfolding handle_request_vote
  handle_request_vote-VoteKept env args n = record {
    grows = ground arith;
    keeps = λ e v. ground (arith, eq_iff n.voted_for "", eq_iff n.voted_for args.candidate_id);
  }

  pub handle_request_vote-SameLog :
      (env : Env) (args : RequestVoteArgs) (n : Node D M)
      → SameLog n (handle_request_vote st env args n).0
  unfolding handle_request_vote
  handle_request_vote-SameLog env args n = record {
    log = ground arith;
    base = ground arith;
    base_term = ground arith;
    commit = ground arith;
    applied = ground arith;
  }

  pub start_election-VoteKept :
      (env : Env) (n : Node D M)
      → n.current_term + 1 < 2 ^ 64
      → VoteKept n (start_election st env n).0
  unfolding start_election
  start_election-VoteKept env n fits = record {
    grows = omega arith;
    keeps = λ e v. absurd (omega arith);
  }

  pub tick-VoteKept :
      (env : Env) (n : Node D M) → n.current_term + 1 < 2 ^ 64 → VoteKept n (tick st env n).0
  unfolding tick
  tick-VoteKept env n fits = record {
    grows =
        ground (arith, trigger_all-SameVote n.peers (record n { last_heartbeat_sent = env.now }));
    keeps = λ e v.
        ground (arith, trigger_all-SameVote n.peers (record n { last_heartbeat_sent = env.now }));
  }

  pub handle_vote_reply-VoteKept :
      (b : Ballot) (reply : RequestVoteReply) (n : Node D M)
      → VoteKept n (handle_vote_reply st b reply n).0
  unfolding handle_vote_reply
  handle_vote_reply-VoteKept b reply n =
      let down = become_follower-VoteKept st reply.term n in
      let up = become_leader-SameVote n in
      record {
        grows = ground (arith, down.grows, up.term);
        keeps = λ e v. ground (arith, down.keeps, up.vote);
      }
