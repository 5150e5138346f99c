-- ===== src/Raft/Apply/Pending.antt =====
-- internal/raft/apply.go: `applyPending` when no other step runs in between.
use boiler_pulse.Prelude.{
  ℕ, zero, suc, ◌+◌, ◌-◌, ◌≤◌, ◌<◌, ◌^◌, ◌≡◌, refl, sym, ap, ◌∙◌, List, [], ◌∷◌, Option, none, some,
  arith, length, take, drop, get_elem?, u64, sub64,
}
use boiler_pulse.Raft.Types.{LogEntry}
use boiler_pulse.Raft.Interfaces.{StateMachine}
use boiler_pulse.Raft.Node.{Node}
use boiler_pulse.Raft.Apply.{ApplyRound, caught_up, panicked, applied, apply_round, apply_pending}

-- The commands of entries, applied in order.
unfoldable pub run_commands : {M : Type 0} → StateMachine M → List LogEntry → M → M
run_commands sm [] m = m
run_commands sm (e ∷ es) m = run_commands sm es (sm.apply e.command m).0

split_at :
    (xs : List LogEntry) (p : ℕ)
    → p < length xs
    → (e : LogEntry) × (get_elem? xs p ≡ some e) × (drop p xs ≡ e ∷ drop (suc p) xs)
split_at [] p h = absurd (omega (arith, h))
split_at (x ∷ xs) zero h = (x, refl, refl)
split_at (x ∷ xs) (suc p) h = split_at xs p (omega arith)

module _ {D M : Type 0} (sm : StateMachine M) where
  step_of : ℕ → LogEntry → Node D M → Node D M
  step_of next e n = record n { last_applied = next; machine = (sm.apply e.command n.machine).0 }

  apply_round_applies :
      (n : Node D M) (e : LogEntry)
      → n.log_base_index ≤ n.last_applied
      → n.last_applied < n.commit_index
      → n.commit_index < 2 ^ 64
      → get_elem? n.log (n.last_applied - n.log_base_index) ≡ some e
      → apply_round sm n ≡ applied (step_of (n.last_applied + 1) e n)
  unfolding apply_round step_of
  apply_round_applies n e above below fits found =
      let next : u64 (n.last_applied + 1) ≡ n.last_applied + 1 = omega arith in
      let pos : sub64 (sub64 (n.last_applied + 1) n.log_base_index) 1
          ≡ n.last_applied - n.log_base_index =
        omega arith in
      ground (arith, next, pos, found)

  apply_round_ends : (n : Node D M) → n.commit_index ≤ n.last_applied → apply_round sm n ≡ caught_up
  unfolding apply_round
  apply_round_ends n h = ground (arith, h)

  pending_result : ℕ → Node D M → Node D M
  pending_result k n = record n {
    last_applied = n.last_applied + k;
    machine = run_commands sm (take k (drop (n.last_applied - n.log_base_index) n.log)) n.machine;
  }

  next_round : ℕ → Node D M → ApplyRound (Node D M) → Option (Node D M)
  next_round fuel n r = elim r [
    | caught_up ↦ some n
    | panicked ↦ none
    | applied n1 ↦ apply_pending sm fuel n1
  ]

  apply_pending_runs :
      (k : ℕ) (n : Node D M)
      → n.log_base_index ≤ n.last_applied
      → n.commit_index ≡ n.last_applied + k
      → n.commit_index ≤ n.log_base_index + length n.log
      → n.commit_index < 2 ^ 64
      → apply_pending sm (suc k) n ≡ some (pending_result k n)
  unfolding apply_pending pending_result run_commands step_of next_round
  apply_pending_runs zero n above done inside fits =
      ap (λ r. next_round zero n r) (apply_round_ends n (omega (arith, done)))
      ∙ ap (λ (i : ℕ). some (record n { last_applied = i }))
          (let same : n.last_applied ≡ n.last_applied + 0 = omega arith in same)
  apply_pending_runs (suc k) n above more inside fits =
      let p = n.last_applied - n.log_base_index in
      let (e, found, tail) = split_at n.log p (omega (arith, above, more, inside)) in
      let n1 = step_of (n.last_applied + 1) e n in
      let from_next : n.last_applied + 1 - n.log_base_index ≡ suc p = omega (arith, above) in
      let total : n.last_applied + 1 + k ≡ n.last_applied + suc k = omega arith in
      ap (λ r. next_round (suc k) n r)
        (apply_round_applies n e above (omega (arith, more)) fits found)
      ∙ (apply_pending_runs k n1 (omega (arith, above)) (omega (arith, more)) inside fits
          ∙ (ap
                (λ (i : ℕ). some (record n {
                  last_applied = n.last_applied + 1 + k;
                  machine =
                      run_commands sm (take k (drop i n.log)) (sm.apply e.command n.machine).0;
                }))
                from_next
              ∙ (ap
                    (λ (i : ℕ). some (record n {
                      last_applied = i;
                      machine =
                          run_commands sm (take k (drop (suc p) n.log))
                            (sm.apply e.command n.machine).0;
                    }))
                    total
                  ∙ ap
                      (λ l. some (record n {
                        last_applied = n.last_applied + suc k;
                        machine = run_commands sm (take (suc k) l) n.machine;
                      }))
                      (sym tail))))

  -- If the applied index lies between the base and the commit index, the commit index within the
  -- log and below 2^64, the loop of applyPending ends after one round for each committed entry
  -- that is not applied and one more: exactly these entries have been applied to the state
  -- machine, in order, and the applied index is the commit index.
  pub apply_pending_applies :
      (n : Node D M)
      → n.log_base_index ≤ n.last_applied
      → n.last_applied ≤ n.commit_index
      → n.commit_index ≤ n.log_base_index + length n.log
      → n.commit_index < 2 ^ 64
      → apply_pending sm (suc (n.commit_index - n.last_applied)) n
        ≡ some (record n {
          last_applied = n.commit_index;
          machine =
              run_commands sm
                (take
                  (n.commit_index - n.last_applied)
                  (drop (n.last_applied - n.log_base_index) n.log))
                n.machine;
        })
  apply_pending_applies n above below inside fits =
      let total : n.last_applied + (n.commit_index - n.last_applied) ≡ n.commit_index =
        omega (arith, below) in
      apply_pending_runs (n.commit_index - n.last_applied) n above (sym total) inside fits
      ∙ (unfold pending_result in
          ap
            (λ (i : ℕ). some (record n {
              last_applied = i;
              machine =
                  run_commands sm
                    (take (n.commit_index - n.last_applied)
                      (drop (n.last_applied - n.log_base_index) n.log))
                    n.machine;
            }))
            total)
