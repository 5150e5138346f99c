-- ===== src/Raft/Replication/Handler.antt =====
-- internal/raft/replication.go: HandleAppendEntries as a whole.
use boiler_pulse.Prelude.{
  ℕ, zero, suc, ◌+◌, ◌≤◌, ◌<◌, ◌≡◌, refl, sym, ◌↔◌, ap, ◌∙◌, true, false, List, [], ◌∷◌, arith,
  String, u64,
}
use boiler_pulse.Raft.Types.{LogEntry, AppendEntriesArgs}
use boiler_pulse.Raft.Interfaces.{Storage}
use boiler_pulse.Raft.Node.{Node, Env}
use native.Mathlib.Decide.{dec_lt, ℕ_discrete}
use mathlib.Core.Bool.{false≢true}
use boiler_pulse.Raft.Log.{last_log_index, term_at, append_log, truncate_log_from}
use boiler_pulse.Raft.Replication.{
  first_of_term, refuse, store_entries, accept_entries, check_entries, follow_leader,
  handle_append_entries,
}

module _ {D M : Type 0} where
  -- The accessors read the log and its base only.
  pub term_at_cong :
      (n m : Node D M)
      → n.log ≡ m.log
      → n.log_base_index ≡ m.log_base_index
      → n.log_base_term ≡ m.log_base_term
      → (i : ℕ) → term_at n i ≡ term_at m i
  unfolding term_at
  term_at_cong n m p q r i = cc

  pub last_log_index_cong :
      (n m : Node D M)
      → n.log ≡ m.log
      → n.log_base_index ≡ m.log_base_index
      → last_log_index n ≡ last_log_index m
  unfolding last_log_index
  last_log_index_cong n m p q = cc

  pub first_of_term_bounds :
      (n : Node D M) (conflict prev : ℕ)
      → 0 < prev
      → (0 < first_of_term n conflict prev) × (first_of_term n conflict prev ≤ prev)
  unfolding first_of_term
  first_of_term_bounds n conflict zero h = elim h [ ]
  first_of_term_bounds n conflict (suc k) h = ground (arith, first_of_term_bounds n conflict k)

  -- Every entry from the hint up to the one that was checked has the conflicting term.
  pub first_of_term_run :
      (n : Node D M) (conflict prev i : ℕ)
      → term_at n prev ≡ conflict
      → first_of_term n conflict prev ≤ i
      → i ≤ prev
      → term_at n i ≡ conflict
  unfolding first_of_term
  first_of_term_run n conflict zero i h a b = ap (term_at n) (let e : i ≡ 0 = omega arith in e) ∙ h
  first_of_term_run n conflict (suc k) i h a b = elim (ℕ_discrete i (suc k)) [
    | yes e ↦ ap (term_at n) e ∙ h
    | no ne ↦ ground (arith, first_of_term_run n conflict k i)
  ]

  -- The check that an AppendEntries request has to pass.
  abbrev pub Consistent : AppendEntriesArgs → Node D M → Type 0
  Consistent args n =
      0 < args.prev_log_index
      → (n.log_base_index ≤ args.prev_log_index)
        × (args.prev_log_index ≤ last_log_index n)
        × (term_at n args.prev_log_index ≡ args.prev_log_term)

module _ {D M : Type 0} (st : Storage D) where
  pub follow_leader_frame :
      (env : Env) (term : ℕ) (leader : String) (n : Node D M)
      → ((follow_leader st env term leader n).log ≡ n.log)
        × ((follow_leader st env term leader n).log_base_index ≡ n.log_base_index)
        × ((follow_leader st env term leader n).log_base_term ≡ n.log_base_term)
        × ((follow_leader st env term leader n).commit_index ≡ n.commit_index)
        × ((follow_leader st env term leader n).last_applied ≡ n.last_applied)
        × ((follow_leader st env term leader n).machine ≡ n.machine)
  unfolding follow_leader
  follow_leader_frame env term leader n =
      (ground arith, ground arith, ground arith, ground arith, ground arith, ground arith)

  pub follow_leader-current_term :
      (env : Env) (term : ℕ) (leader : String) (n : Node D M)
      → n.current_term ≤ term
      → (follow_leader st env term leader n).current_term ≡ term
  unfolding follow_leader
  follow_leader-current_term env term leader n h = ground arith

  -- The loop touches the log and the disk only.
  pub store_entries_frame :
      (es : List LogEntry) (idx : ℕ) (n : Node D M)
      → ((store_entries st es idx n).log_base_index ≡ n.log_base_index)
        × ((store_entries st es idx n).log_base_term ≡ n.log_base_term)
        × ((store_entries st es idx n).current_term ≡ n.current_term)
        × ((store_entries st es idx n).voted_for ≡ n.voted_for)
        × ((store_entries st es idx n).commit_index ≡ n.commit_index)
        × ((store_entries st es idx n).last_applied ≡ n.last_applied)
        × ((store_entries st es idx n).machine ≡ n.machine)
        × ((store_entries st es idx n).state ≡ n.state)
  unfolding store_entries append_log truncate_log_from
  store_entries_frame [] idx n = (refl, refl, refl, refl, refl, refl, refl, refl)
  store_entries_frame (e ∷ es) idx n = ground (arith, store_entries_frame es (u64 (idx + 1)) n)

  pub check_accepts :
      (args : AppendEntriesArgs) (n : Node D M)
      → Consistent args n
      → check_entries st args n ≡ accept_entries st args n
  unfolding check_entries
  check_accepts args n ok = elim (dec_lt 0 args.prev_log_index) [
    | yes p ↦ (let (a, b, c) = ok p in ground arith)
    | no p ↦ ground arith
  ]

  pub check_refuses :
      (args : AppendEntriesArgs) (n : Node D M)
      → (check_entries st args n).1.success ≡ true
      → Consistent args n
  unfolding check_entries accept_entries
  check_refuses args n h p = ground arith

  -- A refusal leaves the follower as the leader's term made it.
  pub check_keeps :
      (args : AppendEntriesArgs) (n : Node D M)
      → (check_entries st args n).1.success ≡ false
      → (check_entries st args n).0 ≡ n
  unfolding check_entries accept_entries
  check_keeps args n h = ground arith

  pub handle_fresh :
      (env : Env) (args : AppendEntriesArgs) (n : Node D M)
      → n.current_term ≤ args.term
      → handle_append_entries st env args n
        ≡ check_entries st args (follow_leader st env args.term args.leader_id n)
  unfolding handle_append_entries
  handle_fresh env args n h = ground arith

  pub handle_stale :
      (env : Env) (args : AppendEntriesArgs) (n : Node D M)
      → args.term < n.current_term
      → handle_append_entries st env args n ≡ (n, refuse n 0)
  unfolding handle_append_entries
  handle_stale env args n h = ground arith

  pub Consistent-follow :
      (env : Env) (args : AppendEntriesArgs) (n : Node D M)
      → Consistent args n ↔ Consistent args (follow_leader st env args.term args.leader_id n)
  Consistent-follow env args n =
      let m = follow_leader st env args.term args.leader_id n in
      let (l, b, t, _, _, _) = follow_leader_frame env args.term args.leader_id n in
      let same = term_at_cong m n l b t args.prev_log_index in
      let last = last_log_index_cong m n l b in
      (
        λ ok p. (let (x, y, z) = ok p in (omega arith, omega arith, same ∙ z)),
        λ ok p. (let (x, y, z) = ok p in (omega arith, omega arith, sym same ∙ z)),
      )

  -- AppendEntries succeeds exactly if the request's term is not stale and, for a predecessor index
  -- above 0, that index lies between the base and the end of the log and has the request's term.
  pub handle_append_entries-success_iff :
      (env : Env) (args : AppendEntriesArgs) (n : Node D M)
      → ((handle_append_entries st env args n).1.success ≡ true)
        ↔ ((n.current_term ≤ args.term) × Consistent args n)
  unfolding accept_entries
  handle_append_entries-success_iff env args n = elim (dec_lt args.term n.current_term) [
    | yes stale ↦ (
      λ h. absurd (false≢true (sym (ap (λ r. r.1.success) (handle_stale env args n stale)) ∙ h)),
      λ (fresh, _). absurd (omega arith),
    )
    | no p ↦
        let fresh : n.current_term ≤ args.term = omega arith in
        let m = follow_leader st env args.term args.leader_id n in
        let go = handle_fresh env args n fresh in
        (
          λ h. (
            fresh,
            (Consistent-follow env args n).1
                (check_refuses args m (sym (ap (λ r. r.1.success) go) ∙ h)),
          ),
          λ (_, ok).
              ap (λ r. r.1.success)
                (go ∙ check_accepts args m ((Consistent-follow env args n).0 ok)),
        )
  ]
