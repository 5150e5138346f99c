-- ===== src/Raft/Frame.antt =====
-- internal/raft: what the helpers of the handlers leave alone.
use boiler_pulse.Prelude.{ℕ, zero, suc, ◌≤◌, ◌≡◌, refl, sym, ◌∙◌, ◌≢◌, List, [], ◌∷◌, arith, String}
use boiler_pulse.Raft.Types.{State}
use boiler_pulse.Raft.Interfaces.{Storage}
use boiler_pulse.Raft.Node.{Node, Env, become_follower}
use boiler_pulse.Raft.Log.{last_log_index}
use boiler_pulse.Raft.Election.{init_peers, become_leader, trigger_all}
use boiler_pulse.Raft.Replication.{
  follow_commit, advance_from, maybe_advance_commit_index, follow_leader,
}

-- The log, what has become of it, and who the node is.
pub record SameLog {D M : Type 0} (n m : Node D M) : Type 0 where
  pub log : m.log ≡ n.log
  pub base : m.log_base_index ≡ n.log_base_index
  pub base_term : m.log_base_term ≡ n.log_base_term
  pub commit : m.commit_index ≡ n.commit_index
  pub applied : m.last_applied ≡ n.last_applied

pub record SameVote {D M : Type 0} (n m : Node D M) : Type 0 where
  pub term : m.current_term ≡ n.current_term
  pub vote : m.voted_for ≡ n.voted_for

-- A step keeps the term or raises it, and keeps a vote within its term.
pub record VoteKept {D M : Type 0} (n m : Node D M) : Type 0 where
  pub grows : n.current_term ≤ m.current_term
  pub keeps : m.current_term ≡ n.current_term → n.voted_for ≢ "" → m.voted_for ≡ n.voted_for

module _ {D M : Type 0} where
  pub SameLog-refl : (n : Node D M) → SameLog n n
  SameLog-refl n = record {
    log = refl;
    base = refl;
    base_term = refl;
    commit = refl;
    applied = refl;
  }

  pub SameLog-trans : {a b c : Node D M} → SameLog a b → SameLog b c → SameLog a c
  SameLog-trans p q = record {
    log = q.log ∙ p.log;
    base = q.base ∙ p.base;
    base_term = q.base_term ∙ p.base_term;
    commit = q.commit ∙ p.commit;
    applied = q.applied ∙ p.applied;
  }

  pub SameVote-kept : {a b c : Node D M} → VoteKept a b → SameVote b c → VoteKept a c
  SameVote-kept p q = record {
    grows = omega (arith, p.grows, q.term);
    keeps = λ e v. q.vote ∙ p.keeps (sym q.term ∙ e) v;
  }

  pub VoteKept-refl : (n : Node D M) → VoteKept n n
  VoteKept-refl n = record { grows = omega arith; keeps = λ e v. refl }

  pub VoteKept-trans : {a b c : Node D M} → VoteKept a b → VoteKept b c → VoteKept a c
  VoteKept-trans {a} {b} {c} p q = record {
    grows = omega (arith, p.grows, q.grows);
    keeps = λ e v.
        let e1 : b.current_term ≡ a.current_term = omega (arith, p.grows, q.grows, e) in
        let e2 : c.current_term ≡ b.current_term = omega (arith, e1, e) in
        let kept = p.keeps e1 v in q.keeps e2 (λ z. v (sym kept ∙ z)) ∙ kept;
  }

  pub SameVote-trans : {a b c : Node D M} → SameVote a b → SameVote b c → SameVote a c
  SameVote-trans p q = record { term = q.term ∙ p.term; vote = q.vote ∙ p.vote }

  pub VoteKept-of_same : {a b : Node D M} → SameVote a b → VoteKept a b
  VoteKept-of_same {a} q = SameVote-kept (VoteKept-refl a) q

  init_peers_log : (ps : List String) (last : ℕ) (n : Node D M) → SameLog n (init_peers ps last n)
  init_peers_log [] last n = SameLog-refl n
  init_peers_log (p ∷ ps) last n =
      SameLog-trans
        (record { log = refl; base = refl; base_term = refl; commit = refl; applied = refl })
        (init_peers_log ps last _)

  init_peers_vote : (ps : List String) (last : ℕ) (n : Node D M) → SameVote n (init_peers ps last n)
  init_peers_vote [] last n = record { term = refl; vote = refl }
  init_peers_vote (p ∷ ps) last n =
      SameVote-trans (record { term = refl; vote = refl }) (init_peers_vote ps last _)

  pub become_leader-SameLog : (n : Node D M) → SameLog n (become_leader n)
  unfolding become_leader
  become_leader-SameLog n =
      let h = init_peers_log n.peers (last_log_index n) (record n {
        state = State.leader;
        leader_id = n.id;
        next_index = λ _. 0;
        match_index = λ _. 0;
      }) in
      record {
        log = h.log;
        base = h.base;
        base_term = h.base_term;
        commit = h.commit;
        applied = h.applied;
      }

  pub become_leader-SameVote : (n : Node D M) → SameVote n (become_leader n)
  unfolding become_leader
  become_leader-SameVote n =
      let h = init_peers_vote n.peers (last_log_index n) (record n {
        state = State.leader;
        leader_id = n.id;
        next_index = λ _. 0;
        match_index = λ _. 0;
      }) in
      record { term = h.term; vote = h.vote }

  pub trigger_all-SameLog : (ps : List String) (n : Node D M) → SameLog n (trigger_all ps n)
  trigger_all-SameLog [] n = SameLog-refl n
  trigger_all-SameLog (p ∷ ps) n =
      SameLog-trans
        (record { log = refl; base = refl; base_term = refl; commit = refl; applied = refl })
        (trigger_all-SameLog ps _)

  pub trigger_all-SameVote : (ps : List String) (n : Node D M) → SameVote n (trigger_all ps n)
  trigger_all-SameVote [] n = record { term = refl; vote = refl }
  trigger_all-SameVote (p ∷ ps) n =
      SameVote-trans (record { term = refl; vote = refl }) (trigger_all-SameVote ps _)

  pub follow_commit-SameVote : (c : ℕ) (n : Node D M) → SameVote n (follow_commit c n)
  unfolding follow_commit
  follow_commit-SameVote c n = record { term = ground arith; vote = ground arith }

  advance_from-SameVote : (k : ℕ) (n : Node D M) → SameVote n (advance_from k n)
  unfolding advance_from
  advance_from-SameVote zero n = record { term = refl; vote = refl }
  advance_from-SameVote (suc k) n =
      let h = advance_from-SameVote k n in
      record { term = ground (arith, h.term); vote = ground (arith, h.vote) }

  pub maybe_advance-SameVote : (n : Node D M) → SameVote n (maybe_advance_commit_index n)
  unfolding maybe_advance_commit_index
  maybe_advance-SameVote n =
      let h = advance_from-SameVote (last_log_index n) n in
      record { term = ground (arith, h.term); vote = ground (arith, h.vote) }

module _ {D M : Type 0} (st : Storage D) where
  pub become_follower-SameLog : (t : ℕ) (n : Node D M) → SameLog n (become_follower st t n)
  unfolding become_follower
  become_follower-SameLog t n = record {
    log = ground arith;
    base = ground arith;
    base_term = ground arith;
    commit = ground arith;
    applied = ground arith;
  }

  pub become_follower-VoteKept : (t : ℕ) (n : Node D M) → VoteKept n (become_follower st t n)
  unfolding become_follower
  become_follower-VoteKept t n = record { grows = ground arith; keeps = λ e v. ground arith }

  pub follow_leader-VoteKept :
      (env : Env) (t : ℕ) (leader : String) (n : Node D M)
      → VoteKept n (follow_leader st env t leader n)
  unfolding follow_leader
  follow_leader-VoteKept env t leader n = record {
    grows = ground arith;
    keeps = λ e v. ground arith;
  }

  pub follow_leader-SameLog :
      (env : Env) (t : ℕ) (leader : String) (n : Node D M)
      → SameLog n (follow_leader st env t leader n)
  unfolding follow_leader
  follow_leader-SameLog env t leader n = record {
    log = ground arith;
    base = ground arith;
    base_term = ground arith;
    commit = ground arith;
    applied = ground arith;
  }
