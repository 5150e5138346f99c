-- ===== src/Raft/Log.antt =====
-- internal/raft/log.go: the log behind a compacted prefix.
pub mod Dense
use boiler_pulse.Prelude.{
  ℕ, ◌-◌, List, [], ◌∷◌, ◌++◌, Option, none, some, ltb, leb, ◌==◌, ◌||◌, if◌then◌else◌, get_elem?,
  get_last?, take, drop, Bool, not, ◌&&◌, length,
}
use boiler_pulse.Raft.Types.{LogEntry}
use boiler_pulse.Raft.Interfaces.{Storage}
use boiler_pulse.Raft.Node.{Node}

-- The index or the term of an entry that may be missing.
abbrev pub index_or : ℕ → Option LogEntry → ℕ
index_or base none = base
index_or base (some e) = e.index

abbrev pub term_or : ℕ → Option LogEntry → ℕ
term_or base none = base
term_or base (some e) = e.term

abbrev pub entry_term : Option LogEntry → ℕ
entry_term none = 0
entry_term (some e) = e.term

module _ {D M : Type 0} where
  unfoldable pub last_log_index : Node D M → ℕ
  last_log_index n = index_or n.log_base_index (get_last? n.log)

  unfoldable pub last_log_term : Node D M → ℕ
  last_log_term n = term_or n.log_base_term (get_last? n.log)

  -- Whether `termAtLocked` reads an entry, and at a position past the end of the log, where Go panics.
  unfoldable pub term_at_panics : Node D M → ℕ → Bool
  unfolding last_log_index
  term_at_panics n index =
      not (index == 0)
      && not (ltb (last_log_index n) index)
      && ltb n.log_base_index index
      && leb (length n.log) (index - n.log_base_index - 1)

  -- The position is `index - base - 1`, exact behind the guards. Where `term_at_panics` is true, which
  -- a dense log excludes, there is no term in Go, and 0 stands for it.
  unfoldable pub term_at : Node D M → ℕ → ℕ
  unfolding last_log_index
  term_at n index =
      if index == 0 || ltb (last_log_index n) index
      then 0
      else if index == n.log_base_index
      then n.log_base_term
      else if ltb index n.log_base_index
      then 0
      else entry_term (get_elem? n.log (index - n.log_base_index - 1))

module _ {D M : Type 0} (st : Storage D) where
  -- An error of the storage is logged and ignored, here and below.
  unfoldable pub append_log : List LogEntry → Node D M → Node D M
  append_log [] n = n
  append_log (e ∷ es) n = record n {
    log = n.log ++ e ∷ es;
    disk = (st.append_entries (e ∷ es) n.disk).0;
  }

  unfoldable pub truncate_log_from : ℕ → Node D M → Node D M
  unfolding last_log_index
  truncate_log_from index n =
      if leb index n.log_base_index || ltb (last_log_index n) index then n else record n {
        log = take (index - n.log_base_index - 1) n.log;
        disk = (st.truncate_from index n.disk).0;
      }

  -- The second test on `drop` is `drop` itself: a slice from past the end is empty.
  unfoldable pub discard_log_prefix : ℕ → ℕ → Node D M → Node D M
  unfolding last_log_index
  discard_log_prefix index term n =
      if leb index n.log_base_index
      then n
      else let last = last_log_index n in
        let through = if ltb last index then last else index in
        record n {
          log = drop (through - n.log_base_index) n.log;
          log_base_index = through;
          log_base_term = term;
          disk = (st.discard_log_through through n.disk).0;
        }
