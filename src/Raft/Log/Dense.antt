-- ===== src/Raft/Log/Dense.antt =====
-- internal/raft/log.go: a dense log, `log[i].Index == logBaseIndex + i + 1`, and what the accessors
-- read from it.
use boiler_pulse.Prelude.{
  ℕ, zero, suc, ◌+◌, ◌-◌, ◌≤◌, ◌<◌, ◌≡◌, refl, ap, ◌∙◌, subst, List, [], ◌∷◌, ◌++◌, some, arith,
  length, get_elem?, get_last?, take, drop, false,
}
use boiler_pulse.Raft.Types.{LogEntry}
use boiler_pulse.Raft.Node.{Node}
use boiler_pulse.Raft.Log.{entry_term, index_or, last_log_index, term_at, term_at_panics}

abbrev pub IsDense : ℕ → List LogEntry → Type 0
IsDense base [] = Unit {0}
IsDense base (e ∷ es) = (e.index ≡ base + 1) × IsDense (base + 1) es

pub IsDense-append :
    (base : ℕ) (xs ys : List LogEntry)
    → IsDense base xs
    → IsDense (base + length xs) ys
    → IsDense base (xs ++ ys)
IsDense-append base [] ys hx hy = subst (λ b. IsDense b ys) (omega arith) hy
IsDense-append base (x ∷ xs) ys (e, hx) hy =
    (e, IsDense-append (base + 1) xs ys hx (subst (λ b. IsDense b ys) (omega arith) hy))

pub IsDense-take : (base k : ℕ) (xs : List LogEntry) → IsDense base xs → IsDense base (take k xs)
IsDense-take base zero xs h = tt
IsDense-take base (suc k) [] h = tt
IsDense-take base (suc k) (x ∷ xs) (e, h) = (e, IsDense-take (base + 1) k xs h)

pub IsDense-drop :
    (base k : ℕ) (xs : List LogEntry)
    → k ≤ length xs
    → IsDense base xs
    → IsDense (base + k) (drop k xs)
IsDense-drop base zero xs le h = subst (λ b. IsDense b xs) (omega arith) h
IsDense-drop base (suc k) [] le h = tt
IsDense-drop base (suc k) (x ∷ xs) le (e, h) =
    subst (λ b. IsDense b (drop k xs)) (omega arith) (IsDense-drop (base + 1) k xs (omega arith) h)

pub get_last?-IsDense :
    (base : ℕ) (x : LogEntry) (xs : List LogEntry)
    → IsDense base (x ∷ xs)
    → (l : LogEntry) × (get_last? (x ∷ xs) ≡ some l) × (l.index ≡ base + length (x ∷ xs))
get_last?-IsDense base x [] (e, h) = (x, refl, omega arith)
get_last?-IsDense base x (y ∷ ys) (e, h) =
    let (l, p, q) = get_last?-IsDense (base + 1) y ys h in (l, p, omega arith)

-- The entry at a position in range carries the index of that position.
pub get_elem?-IsDense :
    (base k : ℕ) (xs : List LogEntry)
    → IsDense base xs
    → k < length xs
    → (e : LogEntry) × (get_elem? xs k ≡ some e) × (e.index ≡ base + k + 1)
get_elem?-IsDense base k [] h lt = elim lt [ ]
get_elem?-IsDense base zero (x ∷ xs) (e, h) lt = (x, refl, omega arith)
get_elem?-IsDense base (suc k) (x ∷ xs) (e, h) lt =
    let (y, p, q) = get_elem?-IsDense (base + 1) k xs h (omega arith) in (y, p, omega arith)

module _ {D M : Type 0} (n : Node D M) where
  last_of_log :
      (l : List LogEntry)
      → n.log ≡ l
      → IsDense n.log_base_index l
      → last_log_index n ≡ n.log_base_index + length l
  unfolding last_log_index
  last_of_log [] e h =
      ap (λ l. index_or n.log_base_index (get_last? l)) e
      ∙ (let z : n.log_base_index ≡ n.log_base_index + 0 = omega arith in z)
  last_of_log (x ∷ xs) e h =
      let (l, p, q) = get_last?-IsDense n.log_base_index x xs h in
      ap (λ l. index_or n.log_base_index (get_last? l)) e ∙ ap (index_or n.log_base_index) p ∙ q

  -- On a dense log the last index is the base plus the number of entries.
  pub last_log_index_lem :
      IsDense n.log_base_index n.log → last_log_index n ≡ n.log_base_index + length n.log
  last_log_index_lem h = last_of_log n.log refl h

  -- On a dense log the access of `termAtLocked` is in range, whatever the index.
  pub term_at-in_range :
      (index : ℕ) → IsDense n.log_base_index n.log → term_at_panics n index ≡ false
  unfolding term_at_panics
  term_at-in_range index h = ground (arith, last_log_index_lem h)

  pub term_at_inside :
      (k : ℕ)
      → IsDense n.log_base_index n.log
      → k < length n.log
      → term_at n (n.log_base_index + k + 1) ≡ entry_term (get_elem? n.log k)
  unfolding term_at
  term_at_inside k h lt = ground (
    arith,
    last_log_index_lem h,
    ap (λ (j : ℕ). entry_term (get_elem? n.log j))
        (let e : n.log_base_index + k + 1 - n.log_base_index - 1 ≡ k = omega arith in e),
  )

  pub term_at_base :
      IsDense n.log_base_index n.log
      → 0 < n.log_base_index
      → term_at n n.log_base_index ≡ n.log_base_term
  unfolding term_at
  term_at_base h pos = ground (arith, last_log_index_lem h)

  pub term_at_past :
      (index : ℕ)
      → IsDense n.log_base_index n.log
      → n.log_base_index + length n.log < index
      → term_at n index ≡ 0
  unfolding term_at
  term_at_past index h lt = ground (arith, last_log_index_lem h)
