-- ===== src/Raft/Replication/Compacted.antt =====
-- internal/raft/replication.go: two requests that a compacted follower mishandles.
use boiler_pulse.Prelude.{
  ℕ, ◌≤◌, ◌<◌, ◌≡◌, ◌≢◌, refl, sym, ap, ◌∙◌, List, ◌∷◌, ◌++◌, arith, subst, true,
}
use boiler_pulse.Raft.Types.{LogEntry, AppendEntriesArgs, AppendEntriesReply, InstallSnapshotArgs}
use boiler_pulse.Raft.Interfaces.{Storage, StateMachine}
use boiler_pulse.Raft.Node.{Node, Env}
use boiler_pulse.Raft.Log.{term_at, append_log, truncate_log_from}
use boiler_pulse.Raft.Log.Dense.{IsDense, last_log_index_lem}
use boiler_pulse.Raft.Frame.{follow_leader-SameLog}
use boiler_pulse.Raft.Replication.{
  handle_append_entries, check_entries, accept_entries, store_entries, follow_leader, follow_commit,
}
use boiler_pulse.Raft.Replication.Handler.{handle_fresh}
use boiler_pulse.Raft.Snapshot.{finish_install}
use boiler_pulse.Raft.Apply.{ApplyRound, apply_round}

module _ {D M : Type 0} (st : Storage D) (sm : StateMachine M) where
  -- If HandleInstallSnapshot installs a snapshot that is past the base and before the commit
  -- index, while entries are committed and not applied, the next round of applyPending reads past
  -- the end of the log and panics.
  pub apply_round-finish_install :
      (args : InstallSnapshotArgs) (n : Node D M)
      → n.log_base_index < args.last_included_index
      → args.last_included_index < n.commit_index
      → n.last_applied < n.commit_index
      → apply_round sm (finish_install st args n).0 ≡ ApplyRound.panicked
  unfolding apply_round finish_install
  apply_round-finish_install args n above below behind = ground arith

module _ {D M : Type 0} where
  log-follow_commit : (c : ℕ) (n : Node D M) → (follow_commit c n).log ≡ n.log
  unfolding follow_commit
  log-follow_commit c n = ground arith

module _ {D M : Type 0} (st : Storage D) where
  stores_behind :
      (e : LogEntry) (es : List LogEntry) (n : Node D M)
      → IsDense n.log_base_index n.log
      → 1 < n.log_base_index
      → e.term ≢ 0
      → (store_entries st (e ∷ es) 1 n).log ≡ n.log ++ e ∷ es
  unfolding store_entries append_log truncate_log_from term_at
  stores_behind e es n dense base new = ground (arith, last_log_index_lem n dense, base, new)

  -- On a follower with a dense log that is compacted past entry 1, a request that is not stale and
  -- whose predecessor index is 0 appends its entries behind the log, whatever their indices, if
  -- the first one's term is not 0.
  pub log-handle_append_entries_from_start :
      (env : Env) (args : AppendEntriesArgs) (e : LogEntry) (es : List LogEntry) (n : Node D M)
      → IsDense n.log_base_index n.log
      → 1 < n.log_base_index
      → n.current_term ≤ args.term
      → args.prev_log_index ≡ 0
      → args.entries ≡ e ∷ es
      → e.term ≢ 0
      → (handle_append_entries st env args n).0.log ≡ n.log ++ e ∷ es
  log-handle_append_entries_from_start env args e es n dense base fresh start entries new =
      let m = follow_leader st env args.term args.leader_id n in
      let same = follow_leader-SameLog st env args.term args.leader_id n in
      let dense_m : IsDense m.log_base_index m.log =
        subst (λ b. IsDense b m.log) (sym same.base)
          (subst (IsDense n.log_base_index) (sym same.log) dense) in
      ap (λ r. r.0.log) (handle_fresh st env args n fresh)
      ∙ (ap (λ r. r.0.log) (accepts m args.prev_log_index args.entries start entries)
          ∙ (log-follow_commit args.leader_commit (store_entries st (e ∷ es) 1 m)
              ∙ (stores_behind e es m dense_m (omega (arith, base, same.base)) new
                  ∙ ap (λ l. l ++ e ∷ es) same.log)))
    where
      stored : Node D M → ℕ → List LogEntry → Node D M × AppendEntriesReply
      stored m prev list =
          check_entries st (record args { prev_log_index = prev; entries = list }) m

      accepts :
          (m : Node D M) (prev : ℕ) (list : List LogEntry)
          → prev ≡ 0
          → list ≡ e ∷ es
          → stored m prev list ≡ (
            follow_commit args.leader_commit (store_entries st (e ∷ es) 1 m),
            record { term = m.current_term; success = true; conflict_index = 0 },
          )
      accepts m prev list p q =
          ap (λ x. stored m x list) p
          ∙ (ap (stored m 0) q ∙ (unfold check_entries accept_entries in refl))
