-- ===== src/Raft/Steps/SameRole.antt =====
-- internal/raft: operations that keep what a node is.
use boiler_pulse.Prelude.{
  ℕ, zero, suc, ◌+◌, ◌≡◌, refl, sym, ◌∙◌, arith, String, List, [], ◌∷◌, u64, length, lt→ltb, le→ltb,
}
use native.Mathlib.Decide.{dec_lt}
use boiler_pulse.Raft.Types.{
  State, LogEntry, AppendEntriesArgs, AppendEntriesReply, InstallSnapshotArgs, InstallSnapshotReply,
}
use boiler_pulse.Raft.Interfaces.{Storage}
use boiler_pulse.Raft.Node.{Node, Env, become_follower}
use boiler_pulse.Raft.Log.{last_log_index, discard_log_prefix, append_log, truncate_log_from}
use boiler_pulse.Raft.Election.{init_peers, trigger_all}
use boiler_pulse.Raft.Replication.{
  handle_append_entries, check_entries, handle_append_reply, record_match, back_off, accept_entries,
  store_entries, follow_leader, follow_commit, advance_from, maybe_advance_commit_index,
}
use boiler_pulse.Raft.Snapshot.{begin_install, finish_install, handle_install_reply, record_install}
use boiler_pulse.Raft.Apply.{append_batch, number_entries}

pub record SameRole {D M : Type 0} (n m : Node D M) : Type 0 where
  pub id : m.id ≡ n.id
  pub peers : m.peers ≡ n.peers
  pub state : m.state ≡ n.state
  pub term : m.current_term ≡ n.current_term

-- A leader afterwards was the leader of that term before.
pub record RoleKept {D M : Type 0} (n m : Node D M) : Type 0 where
  pub id : m.id ≡ n.id
  pub peers : m.peers ≡ n.peers
  pub leads : m.state ≡ State.leader → (n.state ≡ State.leader) × (m.current_term ≡ n.current_term)

module _ {D M : Type 0} where
  SameRole-refl : (n : Node D M) → SameRole n n
  SameRole-refl n = record { id = refl; peers = refl; state = refl; term = refl }

  pub SameRole-trans : {a b c : Node D M} → SameRole a b → SameRole b c → SameRole a c
  SameRole-trans p q = record {
    id = q.id ∙ p.id;
    peers = q.peers ∙ p.peers;
    state = q.state ∙ p.state;
    term = q.term ∙ p.term;
  }

  pub RoleKept-of_same : {a b : Node D M} → SameRole a b → RoleKept a b
  RoleKept-of_same q = record { id = q.id; peers = q.peers; leads = λ l. (sym q.state ∙ l, q.term) }

  pub RoleKept-trans_same : {a b c : Node D M} → RoleKept a b → SameRole b c → RoleKept a c
  RoleKept-trans_same p q = record {
    id = q.id ∙ p.id;
    peers = q.peers ∙ p.peers;
    leads = λ l. (let (s, t) = p.leads (sym q.state ∙ l) in (s, q.term ∙ t));
  }

  pub trigger_all-SameRole : (ps : List String) (n : Node D M) → SameRole n (trigger_all ps n)
  trigger_all-SameRole [] n = SameRole-refl n
  trigger_all-SameRole (p ∷ ps) n =
      SameRole-trans (record { id = refl; peers = refl; state = refl; term = refl })
        (trigger_all-SameRole ps _)

  pub init_peers-SameRole :
      (ps : List String) (last : ℕ) (n : Node D M) → SameRole n (init_peers ps last n)
  init_peers-SameRole [] last n = SameRole-refl n
  init_peers-SameRole (p ∷ ps) last n =
      SameRole-trans (record { id = refl; peers = refl; state = refl; term = refl })
        (init_peers-SameRole ps last _)

  follow_commit-SameRole : (c : ℕ) (n : Node D M) → SameRole n (follow_commit c n)
  unfolding follow_commit
  follow_commit-SameRole c n = record {
    id = ground arith;
    peers = ground arith;
    state = ground arith;
    term = ground arith;
  }

  advance_from-SameRole : (k : ℕ) (n : Node D M) → SameRole n (advance_from k n)
  unfolding advance_from
  advance_from-SameRole zero n = SameRole-refl n
  advance_from-SameRole (suc k) n =
      let h = advance_from-SameRole k n in
      record {
        id = ground (arith, h.id);
        peers = ground (arith, h.peers);
        state = ground (arith, h.state);
        term = ground (arith, h.term);
      }

  maybe_advance-SameRole : (n : Node D M) → SameRole n (maybe_advance_commit_index n)
  unfolding maybe_advance_commit_index
  maybe_advance-SameRole n =
      let h = advance_from-SameRole (last_log_index n) n in
      record {
        id = ground (arith, h.id);
        peers = ground (arith, h.peers);
        state = ground (arith, h.state);
        term = ground (arith, h.term);
      }

  record_match-SameRole :
      (peer : String) (prev count : ℕ) (n : Node D M) → SameRole n (record_match peer prev count n)
  unfolding record_match
  record_match-SameRole peer prev count n =
      let h = maybe_advance-SameRole _ in
      record { id = h.id; peers = h.peers; state = h.state; term = h.term }

  record_install-SameRole :
      (peer : String) (last : ℕ) (n : Node D M) → SameRole n (record_install peer last n)
  unfolding record_install
  record_install-SameRole peer last n =
      let h = maybe_advance-SameRole _ in
      record { id = h.id; peers = h.peers; state = h.state; term = h.term }

  back_off-SameRole : (peer : String) (c : ℕ) (n : Node D M) → SameRole n (back_off peer c n)
  unfolding back_off
  back_off-SameRole peer c n = record {
    id = ground arith;
    peers = ground arith;
    state = ground arith;
    term = ground arith;
  }

module _ {D M : Type 0} (st : Storage D) where
  append_log-SameRole : (es : List LogEntry) (n : Node D M) → SameRole n (append_log st es n)
  unfolding append_log
  append_log-SameRole [] n = SameRole-refl n
  append_log-SameRole (e ∷ es) n = record { id = refl; peers = refl; state = refl; term = refl }

  store_entries-SameRole :
      (es : List LogEntry) (idx : ℕ) (n : Node D M) → SameRole n (store_entries st es idx n)
  unfolding store_entries append_log truncate_log_from
  store_entries-SameRole [] idx n = SameRole-refl n
  store_entries-SameRole (e ∷ es) idx n =
      let h = store_entries-SameRole es (u64 (idx + 1)) n in
      record {
        id = ground (arith, h.id);
        peers = ground (arith, h.peers);
        state = ground (arith, h.state);
        term = ground (arith, h.term);
      }

  check_entries-SameRole :
      (args : AppendEntriesArgs) (n : Node D M) → SameRole n (check_entries st args n).0
  unfolding check_entries accept_entries
  check_entries-SameRole args n =
      let h =
        SameRole-trans (store_entries-SameRole args.entries (u64 (args.prev_log_index + 1)) n)
          (follow_commit-SameRole args.leader_commit _) in
      record {
        id = ground (arith, h.id);
        peers = ground (arith, h.peers);
        state = ground (arith, h.state);
        term = ground (arith, h.term);
      }

  pub become_follower-RoleKept : (t : ℕ) (n : Node D M) → RoleKept n (become_follower st t n)
  unfolding become_follower
  become_follower-RoleKept t n = record {
    id = ground arith;
    peers = ground arith;
    leads = λ l. ground (arith, l);
  }

  follow_leader-RoleKept :
      (env : Env) (t : ℕ) (leader : String) (n : Node D M)
      → RoleKept n (follow_leader st env t leader n)
  unfolding follow_leader
  follow_leader-RoleKept env t leader n = record {
    id = ground arith;
    peers = ground arith;
    leads = λ l. ground (arith, l);
  }

  pub handle_append_entries-RoleKept :
      (env : Env) (args : AppendEntriesArgs) (n : Node D M)
      → RoleKept n (handle_append_entries st env args n).0
  unfolding handle_append_entries
  handle_append_entries-RoleKept env args n = elim (dec_lt args.term n.current_term) [
    | yes stale ↦ rw (lt→ltb _ _ stale) (RoleKept-of_same (SameRole-refl n))
    | no fresh ↦ rw (le→ltb n.current_term args.term (omega arith)) (
        RoleKept-trans_same (follow_leader-RoleKept env args.term args.leader_id n)
          (check_entries-SameRole args _))
  ]

  pub handle_append_reply-RoleKept :
      (peer : String) (args : AppendEntriesArgs) (reply : AppendEntriesReply) (n : Node D M)
      → RoleKept n (handle_append_reply st peer args reply n)
  unfolding handle_append_reply
  handle_append_reply-RoleKept peer args reply n =
      let down = become_follower-RoleKept reply.term n in
      let matched =
        RoleKept-of_same (record_match-SameRole peer args.prev_log_index (length args.entries) n) in
      let backed = RoleKept-of_same (back_off-SameRole peer reply.conflict_index n) in
      record {
        id = ground (arith, down.id, matched.id, backed.id);
        peers = ground (arith, down.peers, matched.peers, backed.peers);
        leads = λ l. ground (arith, l, down.leads, matched.leads, backed.leads);
      }

  pub begin_install-RoleKept :
      (env : Env) (args : InstallSnapshotArgs) (n : Node D M)
      → RoleKept n (begin_install st env args n).0
  unfolding begin_install
  begin_install-RoleKept env args n =
      let f = follow_leader-RoleKept env args.term args.leader_id n in
      record {
        id = ground (arith, f.id);
        peers = ground (arith, f.peers);
        leads = λ l. ground (arith, l, f.leads);
      }

  pub handle_install_reply-RoleKept :
      (peer : String) (args : InstallSnapshotArgs) (reply : InstallSnapshotReply) (n : Node D M)
      → RoleKept n (handle_install_reply st peer args reply n)
  unfolding handle_install_reply
  handle_install_reply-RoleKept peer args reply n =
      let down = become_follower-RoleKept reply.term n in
      let installed = RoleKept-of_same (record_install-SameRole peer args.last_included_index n) in
      record {
        id = ground (arith, down.id, installed.id);
        peers = ground (arith, down.peers, installed.peers);
        leads = λ l. ground (arith, l, down.leads, installed.leads);
      }

  pub finish_install-SameRole :
      (args : InstallSnapshotArgs) (n : Node D M) → SameRole n (finish_install st args n).0
  unfolding finish_install
  finish_install-SameRole args n = record {
    id = ground arith;
    peers = ground arith;
    state = ground arith;
    term = ground arith;
  }

  pub append_batch-SameRole :
      (batch : List (List ℕ)) (n : Node D M) → SameRole n (append_batch st batch n).0
  unfolding append_batch
  append_batch-SameRole batch n =
      let h =
        append_log-SameRole (number_entries n.current_term (u64 (last_log_index n + 1)) batch) n in
      record {
        id = ground (arith, h.id);
        peers = ground (arith, h.peers);
        state = ground (arith, h.state);
        term = ground (arith, h.term);
      }

  pub discard_log_prefix-SameRole :
      (index term : ℕ) (n : Node D M) → SameRole n (discard_log_prefix st index term n)
  unfolding discard_log_prefix
  discard_log_prefix-SameRole index term n = record {
    id = ground arith;
    peers = ground arith;
    state = ground arith;
    term = ground arith;
  }
