-- ===== src/Raft/Replication/Commit.antt =====
-- internal/raft/replication.go: the commit rule of the leader.
use boiler_pulse.Prelude.{
  ℕ, zero, suc, ◌+◌, ◌≤◌, ◌<◌, ◌≡◌, refl, ◌≢◌, ap, ◌∙◌, ◌⊎◌, inl, inr, arith, sym, subst,
  if◌then◌else◌,
}
use native.Mathlib.Decide.{dec_lt, dec_le, ℕ_discrete}
use boiler_pulse.Raft.Types.{State}
use boiler_pulse.Raft.Node.{Node, is_leader, majority}
use boiler_pulse.Raft.Log.{last_log_index, term_at}
use boiler_pulse.Raft.Replication.{signal_apply, replicas, advance_from, maybe_advance_commit_index}

module _ {D M : Type 0} where
  -- An entry of the current term that a majority is known to hold.
  abbrev pub Committable : Node D M → ℕ → Type 0
  Committable n j = (term_at n j ≡ n.current_term) × (majority n ≤ 1 + replicas n j n.peers)

  -- The commit index `c` is the greatest one that the rule allows, up to `k`.
  abbrev pub Advances : ℕ → Node D M → Node D M → ℕ → Type 0
  Advances k n m c =
      (m ≡ signal_apply (record n { commit_index = c }))
      × (n.commit_index < c)
      × (c ≤ k)
      × (Committable n c)
      × ((j : ℕ) → c < j → j ≤ k → ¬ Committable n j)

  abbrev pub Stays : ℕ → Node D M → Node D M → Type 0
  Stays k n m = (m ≡ n) × ((j : ℕ) → n.commit_index < j → j ≤ k → ¬ Committable n j)

  skip_round :
      (k : ℕ) (n : Node D M)
      → ¬ Committable n (suc k)
      → n.commit_index < suc k
      → advance_from (suc k) n ≡ advance_from k n
  unfolding advance_from
  skip_round k n no_commit lt = elim (ℕ_discrete (term_at n (suc k)) n.current_term) [
    | yes t ↦
        let few : ¬ (majority n ≤ 1 + replicas n (suc k) n.peers) = λ m. no_commit (t, m) in
        ground arith
    | no t ↦ ground arith
  ]

  end_round : (k : ℕ) (n : Node D M) → suc k ≤ n.commit_index → advance_from (suc k) n ≡ n
  unfolding advance_from
  end_round k n le = ground arith

  commit_round :
      (k : ℕ) (n : Node D M)
      → Committable n (suc k)
      → n.commit_index < suc k
      → advance_from (suc k) n ≡ signal_apply (record n { commit_index = suc k })
  unfolding advance_from
  commit_round k n (t, m) lt = ground arith

  committable? : (n : Node D M) (j : ℕ) → Dec (Committable n j)
  committable? n j = elim (ℕ_discrete (term_at n j) n.current_term) [
    | yes t ↦ elim (dec_le (majority n) (1 + replicas n j n.peers)) [
      | yes m ↦ yes (t, m)
      | no m ↦ no (λ (_, m'). m m')
    ]
    | no t ↦ no (λ (t', _). t t')
  ]

  advance_from_cases :
      (k : ℕ) (n : Node D M)
      → Stays k n (advance_from k n) ⊎ ((c : ℕ) × Advances k n (advance_from k n) c)
  advance_from_cases zero n = inl (unfold advance_from in refl, λ j a b. absurd (omega arith))
  advance_from_cases (suc k) n = elim (dec_lt n.commit_index (suc k)) [
    | no le ↦ inl (end_round k n (omega arith), λ j a b. absurd (omega arith))
    | yes lt ↦ elim (committable? n (suc k)) [
      | yes c ↦
          inr (suc k, (commit_round k n c lt, lt, omega arith, c, λ j a b. absurd (omega arith)))
      | no c ↦
          let same = skip_round k n c lt in
          let last = λ (j : ℕ) (h : ¬ (j ≤ k)) (b : j ≤ suc k).
            subst (λ i. ¬ Committable n i) (let e : suc k ≡ j = omega arith in e) c in
          elim (advance_from_cases k n) [
            | inl (e, none_up) ↦ inl (
              same ∙ e,
              λ j a b. elim (dec_le j k) [ yes le ↦ none_up j a le | no gt ↦ last j gt b ],
            )
            | inr (d, (e, lo, hi, ok, top)) ↦ inr (
              d,
              (
                same ∙ e,
                lo,
                omega arith,
                ok,
                λ j a b. elim (dec_le j k) [ yes le ↦ top j a le | no gt ↦ last j gt b ],
              ),
            )
          ]
    ]
  ]

  leader_advances :
      (n : Node D M)
      → n.state ≡ State.leader
      → maybe_advance_commit_index n ≡ advance_from (last_log_index n) n
  unfolding maybe_advance_commit_index
  leader_advances n h = ap (λ s. if is_leader s then advance_from (last_log_index n) n else n) h

  -- On a leader, the commit index moves to the greatest index above it whose entry has the current
  -- term and is on a majority, and nothing changes if there is none.
  pub maybe_advance_commit_index_cases :
      (n : Node D M)
      → n.state ≡ State.leader
      → Stays (last_log_index n) n (maybe_advance_commit_index n)
        ⊎ ((c : ℕ) × Advances (last_log_index n) n (maybe_advance_commit_index n) c)
  maybe_advance_commit_index_cases n h =
      subst (λ m. Stays (last_log_index n) n m ⊎ ((c : ℕ) × Advances (last_log_index n) n m c))
        (sym (leader_advances n h)) (advance_from_cases (last_log_index n) n)

  -- A node that is no leader commits nothing by counting.
  pub maybe_advance_commit_index_idle :
      (n : Node D M) → n.state ≢ State.leader → maybe_advance_commit_index n ≡ n
  unfolding maybe_advance_commit_index
  maybe_advance_commit_index_idle n h = ground arith
