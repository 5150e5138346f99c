-- ===== src/Raft/Replication/Laws.antt =====
-- internal/raft/replication.go: what a merge of the follower's tail with the leader's entries holds.
use boiler_pulse.Prelude.{
  ℕ, zero, suc, ◌+◌, ◌≤◌, ◌<◌, ◌≡◌, refl, sym, ap, ◌∙◌, List, [], ◌∷◌, some, arith, length,
  get_elem?,
}
use native.Mathlib.Decide.{ℕ_discrete}
use boiler_pulse.Raft.Types.{LogEntry}
use boiler_pulse.Raft.Log.{entry_term}
use boiler_pulse.Raft.Log.Dense.{IsDense}
use boiler_pulse.Raft.Replication.Merge.{merge, merge_keep, merge_conflict, merge_nil}

pub length-merge : (old es : List LogEntry) → length es ≤ length (merge old es)
unfolding merge
length-merge old [] = omega arith
length-merge [] (e ∷ es) = omega arith
length-merge (o ∷ os) (e ∷ es) = ground (arith, length-merge os es)

-- Every entry of the leader is in place, by its term.
pub merge_holds :
    (old es : List LogEntry) (i : ℕ)
    → i < length es
    → entry_term (get_elem? (merge old es) i) ≡ entry_term (get_elem? es i)
unfolding merge
merge_holds old [] i h = elim h [ ]
merge_holds [] (e ∷ es) i h = refl
merge_holds (o ∷ os) (e ∷ es) zero h = ground arith
merge_holds (o ∷ os) (e ∷ es) (suc i) h = ground (arith, merge_holds os es i)

pub merge-IsDense :
    (base : ℕ) (old es : List LogEntry)
    → IsDense base old
    → IsDense base es
    → IsDense base (merge old es)
unfolding merge
merge-IsDense base old [] ho he = ho
merge-IsDense base [] (e ∷ es) ho he = he
merge-IsDense base (o ∷ os) (e ∷ es) ho he = ground (arith, merge-IsDense (base + 1) os es)

merge_self : (es : List LogEntry) → merge es es ≡ es
unfolding merge
merge_self [] = refl
merge_self (e ∷ es) = ground (arith, merge_self es)

-- A second delivery of the same entries changes nothing.
pub merge_idempotent : (old es : List LogEntry) → merge (merge old es) es ≡ merge old es
merge_idempotent old [] = unfold merge in refl
merge_idempotent [] (e ∷ es) =
    ap (λ l. merge l (e ∷ es)) (merge_nil (e ∷ es)) ∙ merge_self (e ∷ es) ∙ sym (merge_nil (e ∷ es))
merge_idempotent (o ∷ os) (e ∷ es) = elim (ℕ_discrete o.term e.term) [
  | yes same ↦
      let kept = merge_keep o e os es same in
      ap (λ l. merge l (e ∷ es)) kept
      ∙ merge_keep o e (merge os es) es same
      ∙ ap (◌∷◌ o) (merge_idempotent os es)
      ∙ sym kept
  | no differs ↦
      let cut = merge_conflict o e os es differs in
      ap (λ l. merge l (e ∷ es)) cut ∙ merge_self (e ∷ es) ∙ sym cut
]

-- Entries that agree with the leader's are kept: an entry before the first conflict survives.
pub merge_keeps :
    (old es : List LogEntry) (i : ℕ) (o : LogEntry)
    → get_elem? old i ≡ some o
    → ((j : ℕ) → j ≤ i → j < length es → entry_term (get_elem? old j) ≡ entry_term (get_elem? es j))
    → get_elem? (merge old es) i ≡ some o
unfolding merge
merge_keeps old [] i o h agree = h
merge_keeps [] (e ∷ es) i o h agree = cc
merge_keeps (x ∷ os) (e ∷ es) zero o h agree = ground (arith, agree 0 (omega arith) (omega arith))
merge_keeps (x ∷ os) (e ∷ es) (suc i) o h agree = ground (
  arith,
  agree 0 (omega arith) (omega arith),
  merge_keeps os es i o h (λ j a b. agree (suc j) (omega arith) (omega arith)),
)
