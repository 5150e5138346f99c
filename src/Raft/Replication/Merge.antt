-- ===== src/Raft/Replication/Merge.antt =====
-- internal/raft/replication.go: the loop of HandleAppendEntries against a merge of two lists.
use boiler_pulse.Prelude.{
  ℕ, suc, ◌+◌, ◌-◌, ◌≤◌, ◌<◌, ◌^◌, ◌≡◌, refl, sym, ◌≢◌, ap, ◌∙◌, List, [], ◌∷◌, ◌++◌, some, arith,
  append_assoc, append-nil, length, get_elem?, take, drop, ◌==◌, if◌then◌else◌, u64,
  take-append-drop, take-suc, drop-get_elem?, drop_all, take_all, get_elem?-some,
}
use boiler_pulse.Raft.Types.{LogEntry}
use boiler_pulse.Raft.Interfaces.{Storage}
use boiler_pulse.Raft.Node.{Node}
use native.Mathlib.Decide.{dec_lt, ℕ_discrete}
use boiler_pulse.Raft.Log.{entry_term, last_log_index, term_at, append_log, truncate_log_from}
use boiler_pulse.Raft.Log.Dense.{IsDense, last_log_index_lem, term_at_inside}
use boiler_pulse.Raft.Replication.{store_entries}

-- The entries that are kept from `old`, and those of the leader from the first conflict on.
unfoldable pub merge : List LogEntry → List LogEntry → List LogEntry
merge old [] = old
merge [] (e ∷ es) = e ∷ es
merge (o ∷ os) (e ∷ es) = if o.term == e.term then o ∷ merge os es else e ∷ es

module _ {D M : Type 0} (st : Storage D) where
  append_log-log : (es : List LogEntry) (n : Node D M) → (append_log st es n).log ≡ n.log ++ es
  unfolding append_log
  append_log-log [] n = sym (append-nil n.log)
  append_log-log (e ∷ es) n = refl

  truncate_log_from-log :
      (k : ℕ) (n : Node D M)
      → IsDense n.log_base_index n.log
      → k < length n.log
      → (truncate_log_from st (n.log_base_index + k + 1) n).log ≡ take k n.log
  unfolding truncate_log_from
  truncate_log_from-log k n h lt = ground (
    arith,
    last_log_index_lem n h,
    ap (λ (j : ℕ). take j n.log)
        (let e : n.log_base_index + k + 1 - n.log_base_index - 1 ≡ k = omega arith in e),
  )

  -- One round of the loop at an entry in range.
  store_entries_keep :
      (e : LogEntry) (es : List LogEntry) (idx : ℕ) (n : Node D M)
      → idx ≤ last_log_index n
      → term_at n idx ≡ e.term
      → store_entries st (e ∷ es) idx n ≡ store_entries st es (u64 (idx + 1)) n
  unfolding store_entries
  store_entries_keep e es idx n le t = ground arith

  store_entries_conflict :
      (e : LogEntry) (es : List LogEntry) (idx : ℕ) (n : Node D M)
      → idx ≤ last_log_index n
      → term_at n idx ≢ e.term
      → store_entries st (e ∷ es) idx n ≡ append_log st (e ∷ es) (truncate_log_from st idx n)
  unfolding store_entries
  store_entries_conflict e es idx n le t = ground arith

  store_entries_past :
      (e : LogEntry) (es : List LogEntry) (idx : ℕ) (n : Node D M)
      → last_log_index n < idx
      → store_entries st (e ∷ es) idx n ≡ append_log st (e ∷ es) n
  unfolding store_entries
  store_entries_past e es idx n lt = ground arith

pub merge_keep :
    (o e : LogEntry) (os es : List LogEntry)
    → o.term ≡ e.term
    → merge (o ∷ os) (e ∷ es) ≡ o ∷ merge os es
unfolding merge
merge_keep o e os es h = ground arith

pub merge_conflict :
    (o e : LogEntry) (os es : List LogEntry) → o.term ≢ e.term → merge (o ∷ os) (e ∷ es) ≡ e ∷ es
unfolding merge
merge_conflict o e os es h = ground arith

merge_step_keep :
    (k : ℕ) (xs : List LogEntry) (o e : LogEntry) (es : List LogEntry)
    → get_elem? xs k ≡ some o
    → o.term ≡ e.term
    → take (suc k) xs ++ merge (drop (suc k) xs) es ≡ take k xs ++ merge (drop k xs) (e ∷ es)
merge_step_keep k xs o e es p t =
    ap (λ l. l ++ merge (drop (suc k) xs) es) (take-suc k xs p)
    ∙ append_assoc (take k xs) (o ∷ []) (merge (drop (suc k) xs) es)
    ∙ ap (λ l. take k xs ++ l) (sym (merge_keep o e (drop (suc k) xs) es t))
    ∙ ap (λ l. take k xs ++ merge l (e ∷ es)) (sym (drop-get_elem? k xs p))

merge_step_conflict :
    (k : ℕ) (xs : List LogEntry) (o e : LogEntry) (es : List LogEntry)
    → get_elem? xs k ≡ some o
    → o.term ≢ e.term
    → take k xs ++ e ∷ es ≡ take k xs ++ merge (drop k xs) (e ∷ es)
merge_step_conflict k xs o e es p t =
    ap (λ l. take k xs ++ l) (sym (merge_conflict o e (drop (suc k) xs) es t))
    ∙ ap (λ l. take k xs ++ merge l (e ∷ es)) (sym (drop-get_elem? k xs p))

pub merge_nil : (es : List LogEntry) → merge [] es ≡ es
unfolding merge
merge_nil [] = refl
merge_nil (e ∷ es) = refl

merge_step_past :
    (k : ℕ) (xs es : List LogEntry) → length xs ≤ k → xs ++ es ≡ take k xs ++ merge (drop k xs) es
merge_step_past k xs es le =
    ap (λ l. l ++ es) (sym (take_all k xs le))
    ∙ ap (λ l. take k xs ++ l) (sym (merge_nil es))
    ∙ ap (λ l. take k xs ++ merge l es) (sym (drop_all k xs le))

module _ {D M : Type 0} (st : Storage D) where
  -- The log that the loop leaves, from the position `k` on.
  pub log-store_entries :
      (es : List LogEntry) (k : ℕ) (n : Node D M)
      → IsDense n.log_base_index n.log
      → k ≤ length n.log
      → n.log_base_index + k + 1 + length es < 2 ^ 64
      → (store_entries st es (n.log_base_index + k + 1) n).log
        ≡ take k n.log ++ merge (drop k n.log) es
  log-store_entries [] k n h le fits = unfold store_entries merge in sym (take-append-drop k n.log)
  log-store_entries (e ∷ es) k n h le fits = elim (dec_lt k (length n.log)) [
    | yes lt ↦
        let (o, p) = get_elem?-some k n.log lt in
        let here : n.log_base_index + k + 1 ≤ last_log_index n =
          omega (arith, last_log_index_lem n h) in
        let t : term_at n (n.log_base_index + k + 1) ≡ o.term =
          term_at_inside n k h lt ∙ ap entry_term p in
        elim (ℕ_discrete o.term e.term) [
          | yes same ↦
              ap (λ r. r.log)
                (store_entries_keep st e es (n.log_base_index + k + 1) n here (t ∙ same))
              ∙ ap (λ i. (store_entries st es i n).log)
                  (let q : u64 (n.log_base_index + k + 1 + 1) ≡ n.log_base_index + suc k + 1 =
                      omega arith in
                    q)
              ∙ log-store_entries es (suc k) n h lt (omega arith)
              ∙ merge_step_keep k n.log o e es p same
          | no differs ↦
              ap (λ r. r.log)
                (store_entries_conflict st e es (n.log_base_index + k + 1) n here
                  (λ q. differs (sym t ∙ q)))
              ∙ append_log-log st (e ∷ es) (truncate_log_from st (n.log_base_index + k + 1) n)
              ∙ ap (λ l. l ++ e ∷ es) (truncate_log_from-log st k n h lt)
              ∙ merge_step_conflict k n.log o e es p differs
        ]
    | no past ↦
        ap (λ r. r.log)
          (store_entries_past st e es (n.log_base_index + k + 1) n
            (omega (arith, last_log_index_lem n h)))
        ∙ append_log-log st (e ∷ es) n
        ∙ merge_step_past k n.log (e ∷ es) (omega arith)
  ]
