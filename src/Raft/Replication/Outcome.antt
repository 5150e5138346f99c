-- ===== src/Raft/Replication/Outcome.antt =====
-- internal/raft/replication.go: the follower's log and commit index after AppendEntries.
use boiler_pulse.Prelude.{
  ℕ, ◌+◌, ◌-◌, ◌≤◌, ◌<◌, ◌^◌, ◌≡◌, sym, ap, ◌∙◌, subst, ◌⊎◌, List, ◌++◌, some, arith, length, take,
  drop, get_elem?, u64, length-append, length-take, get_elem?-drop, get_elem?-append_left,
  get_elem?-append_right, get_elem?-take, get_elem?-some,
}
use boiler_pulse.Raft.Types.{LogEntry, AppendEntriesArgs}
use boiler_pulse.Raft.Interfaces.{Storage}
use boiler_pulse.Raft.Node.{Node, Env}
use native.Mathlib.Decide.{dec_lt}
use boiler_pulse.Raft.Log.{entry_term, last_log_index}
use boiler_pulse.Raft.Log.Dense.{
  IsDense, IsDense-append, IsDense-take, IsDense-drop, last_log_index_lem,
}
use boiler_pulse.Raft.Replication.{
  follow_commit, store_entries, accept_entries, follow_leader, handle_append_entries,
}
use boiler_pulse.Raft.Replication.Merge.{merge, log-store_entries}
use boiler_pulse.Raft.Replication.Laws.{length-merge, merge_holds, merge_keeps, merge-IsDense}
use boiler_pulse.Raft.Replication.Handler.{
  Consistent, Consistent-follow, check_accepts, handle_fresh, follow_leader_frame,
}

module _ {D M : Type 0} where
  follow_commit_frame :
      (c : ℕ) (n : Node D M)
      → ((follow_commit c n).log ≡ n.log)
        × ((follow_commit c n).log_base_index ≡ n.log_base_index)
        × ((follow_commit c n).last_applied ≡ n.last_applied)
        × (n.commit_index ≤ (follow_commit c n).commit_index
            ⊎ ((follow_commit c n).commit_index ≡ last_log_index n))
  unfolding follow_commit
  follow_commit_frame c n = (ground arith, ground arith, ground arith, ground arith)

-- The follower's log with the leader's entries merged in behind `prev`.
abbrev pub merged : ℕ → ℕ → List LogEntry → List LogEntry → List LogEntry
merged base prev log entries = take (prev - base) log ++ merge (drop (prev - base) log) entries

module _ {D M : Type 0} (st : Storage D) (env : Env) (args : AppendEntriesArgs) (n : Node D M)
    (dense : IsDense n.log_base_index n.log) (fresh : n.current_term ≤ args.term)
    (ok : Consistent args n) (above : n.log_base_index ≤ args.prev_log_index)
    (fits : args.prev_log_index + 1 + length args.entries < 2 ^ 64) where
  pub prev_inside : args.prev_log_index ≤ n.log_base_index + length n.log
  prev_inside = elim (dec_lt 0 args.prev_log_index) [
    | yes p ↦ (let (a, b, c) = ok p in omega (arith, last_log_index_lem n dense))
    | no p ↦ omega arith
  ]

  accepted_as :
      (handle_append_entries st env args n).0
      ≡ follow_commit args.leader_commit (
          store_entries st args.entries
            (u64 (args.prev_log_index + 1))
            (follow_leader st env args.term args.leader_id n))
  unfolding accept_entries
  accepted_as =
      ap (λ r. r.0)
        (handle_fresh st env args n fresh
          ∙ check_accepts st args (follow_leader st env args.term args.leader_id n)
              ((Consistent-follow st env args n).0 ok))

  -- On a dense log, for a request that is not stale, whose predecessor is in the log and not
  -- before the base, and whose indices do not wrap, HandleAppendEntries leaves the log that
  -- merging the entries behind the predecessor yields: entries that agree by their terms stay, the
  -- first that differs cuts the rest off and the request's entries from there on are appended.
  pub log-handle_append_entries :
      (handle_append_entries st env args n).0.log
      ≡ merged n.log_base_index args.prev_log_index n.log args.entries
  log-handle_append_entries =
      let m = follow_leader st env args.term args.leader_id n in
      let (l, b, t, c, a, s) = follow_leader_frame st env args.term args.leader_id n in
      let k = args.prev_log_index - n.log_base_index in
      let idx : u64 (args.prev_log_index + 1) ≡ m.log_base_index + k + 1 =
        omega (arith, prev_inside) in
      ap (λ r. r.log) accepted_as
      ∙ (follow_commit_frame args.leader_commit _).0
      ∙ ap (λ i. (store_entries st args.entries i m).log) idx
      ∙ log-store_entries st args.entries k m (rw b (rw l dense))
          (let e : k ≤ length n.log = omega (arith, prev_inside) in rw l e)
          (omega (arith, prev_inside))
      ∙ ap (λ x. take k x ++ merge (drop k x) args.entries) l

-- Up to `commit` the follower's entries agree with those of the leader, by their terms.
abbrev pub AgreeUpTo : ℕ → ℕ → List LogEntry → List LogEntry → ℕ → Type 0
AgreeUpTo base prev log es commit =
    (i : ℕ)
    → i < length es
    → prev + 1 + i ≤ commit
    → entry_term (get_elem? log (prev - base + i)) ≡ entry_term (get_elem? es i)

module _ (base prev : ℕ) (log es : List LogEntry) (above : base ≤ prev)
    (inside : prev ≤ base + length log) where
  length-kept : length (take (prev - base) log) ≡ prev - base
  length-kept = omega (arith, length-take (prev - base) log)

  pub length-merged : prev + length es ≤ base + length (merged base prev log es)
  length-merged = omega (
    arith,
    length-kept,
    length-append (take (prev - base) log) (merge (drop (prev - base) log) es),
    length-merge (drop (prev - base) log) es,
  )

  pub merged-IsDense : IsDense base log → IsDense prev es → IsDense base (merged base prev log es)
  merged-IsDense h he =
      let k = prev - base in
      let at : base + k ≡ prev = omega arith in
      IsDense-append base (take k log) (merge (drop k log) es) (IsDense-take base k log h) (
        subst (λ b. IsDense b (merge (drop k log) es))
          (let e : prev ≡ base + length (take k log) = omega (arith, length-kept) in e)
          (merge-IsDense prev (drop k log) es
            (subst (λ b. IsDense b (drop k log)) at (IsDense-drop base k log (omega arith) h)) he))

  -- The entry of the merged log at `prev + 1 + i`.
  merged_tail :
      (i : ℕ)
      → get_elem? (merged base prev log es) (prev - base + i)
        ≡ get_elem? (merge (drop (prev - base) log) es) i
  merged_tail i =
      ap (λ j. get_elem? (merged base prev log es) (j + i)) (sym length-kept)
      ∙ get_elem?-append_right i (take (prev - base) log) (merge (drop (prev - base) log) es)

  pub merged_holds :
      (i : ℕ)
      → i < length es
      → entry_term (get_elem? (merged base prev log es) (prev - base + i))
        ≡ entry_term (get_elem? es i)
  merged_holds i h = ap entry_term (merged_tail i) ∙ merge_holds (drop (prev - base) log) es i h

  pub merged_keeps :
      (commit j : ℕ)
      → AgreeUpTo base prev log es commit
      → base + j + 1 ≤ commit
      → j < length log
      → get_elem? (merged base prev log es) j ≡ get_elem? log j
  merged_keeps commit j agree le lt =
      let k = prev - base in
      elim (dec_lt j k) [
        | yes before ↦
            get_elem?-append_left j (take k log) (merge (drop k log) es)
              (omega (arith, length-kept))
            ∙ get_elem?-take k j log before
        | no behind ↦
            let (o, p) = get_elem?-some j log lt in
            let q : j ≡ k + (j - k) = omega arith in
            let in_tail : get_elem? (drop k log) (j - k) ≡ some o =
              get_elem?-drop k (j - k) log ∙ ap (get_elem? log) (sym q) ∙ p in
            ap (get_elem? (merged base prev log es)) q
            ∙ merged_tail (j - k)
            ∙ merge_keeps (drop k log) es (j - k) o in_tail
                (λ i a b. ap entry_term (get_elem?-drop k i log) ∙ agree i b (omega arith))
            ∙ sym p
      ]
