-- ===== src/Raft/Replication/Theorems.antt =====
-- internal/raft/replication.go: what AppendEntries guarantees to the cluster.
use boiler_pulse.Prelude.{ℕ, ◌+◌, ◌-◌, ◌≤◌, ◌<◌, ◌^◌, ◌≡◌, ap, ◌∙◌, length, get_elem?}
use boiler_pulse.Raft.Types.{AppendEntriesArgs}
use boiler_pulse.Raft.Interfaces.{Storage}
use boiler_pulse.Raft.Node.{Node, Env}
use boiler_pulse.Raft.Log.{entry_term}
use boiler_pulse.Raft.Log.Dense.{IsDense}
use boiler_pulse.Raft.Replication.{handle_append_entries}
use boiler_pulse.Raft.Replication.Handler.{Consistent}
use boiler_pulse.Raft.Replication.Outcome.{
  log-handle_append_entries, merged-IsDense, merged_holds, merged_keeps, AgreeUpTo, prev_inside,
}

module _ {D M : Type 0} (st : Storage D) (env : Env) (args : AppendEntriesArgs) (n : Node D M)
    (dense : IsDense n.log_base_index n.log) (fresh : n.current_term ≤ args.term)
    (ok : Consistent args n) (above : n.log_base_index ≤ args.prev_log_index)
    (fits : args.prev_log_index + 1 + length args.entries < 2 ^ 64) where
  -- On a dense log, for a request that is not stale, whose predecessor is in the log and not
  -- before the base, and whose indices do not wrap: AppendEntries keeps the log dense behind the
  -- same base, if the entries are numbered from the predecessor on.
  pub handle_append_entries-IsDense :
      IsDense args.prev_log_index args.entries
      → IsDense n.log_base_index (handle_append_entries st env args n).0.log
  handle_append_entries-IsDense numbered =
      rw (log-handle_append_entries st env args n dense fresh ok above fits) (
        merged-IsDense n.log_base_index args.prev_log_index n.log args.entries above
          (prev_inside st env args n dense fresh ok above fits) dense numbered)

  -- On a dense log, for a request that is not stale, whose predecessor is in the log and not
  -- before the base, and whose indices do not wrap: after AppendEntries the log has, at the
  -- position of each entry of the request, an entry of the same term.
  pub handle_append_entries_holds :
      (i : ℕ)
      → i < length args.entries
      → entry_term (
          get_elem?
            (handle_append_entries st env args n).0.log
            (args.prev_log_index - n.log_base_index + i))
        ≡ entry_term (get_elem? args.entries i)
  handle_append_entries_holds i lt =
      ap (λ l. entry_term (get_elem? l (args.prev_log_index - n.log_base_index + i)))
        (log-handle_append_entries st env args n dense fresh ok above fits)
      ∙ merged_holds n.log_base_index args.prev_log_index n.log args.entries above
          (prev_inside st env args n dense fresh ok above fits) i lt

  -- On a dense log, for a request that is not stale, whose predecessor is in the log and not
  -- before the base, and whose indices do not wrap: AppendEntries keeps every entry of the
  -- follower up to an index, if the request's entries agree by their terms with the follower's up
  -- to there.
  pub handle_append_entries_keeps :
      (commit j : ℕ)
      → AgreeUpTo n.log_base_index args.prev_log_index n.log args.entries commit
      → n.log_base_index + j + 1 ≤ commit
      → j < length n.log
      → get_elem? (handle_append_entries st env args n).0.log j ≡ get_elem? n.log j
  handle_append_entries_keeps commit j agree le lt =
      ap (λ l. get_elem? l j) (log-handle_append_entries st env args n dense fresh ok above fits)
      ∙ merged_keeps n.log_base_index args.prev_log_index n.log args.entries above
          (prev_inside st env args n dense fresh ok above fits) commit j agree le lt
