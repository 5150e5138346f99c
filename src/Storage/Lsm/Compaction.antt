-- ===== src/Storage/Lsm/Compaction.antt =====
-- Flush and compaction (internal/storage/lsm/flush.go, compact.go): what readers see is kept,
-- also when the engine stops in between.
use boiler_pulse.Prelude.{
  ℕ, ◌+◌, ◌≤◌, ◌≡◌, refl, sym, ap, ◌∙◌, List, [], ◌∷◌, ◌++◌, Option, none, some, arith, inl, inr,
  if◌then◌else◌, Bool-cases, Option-cases,
}
use boiler_pulse.Storage.{Entry, checked_entry, expired}
use boiler_pulse.Storage.Table.{Key, lookup, IsDistinct}
use boiler_pulse.Storage.Table.Overlay.{or_else, sort, lookup-sort, sort-IsDistinct}
use boiler_pulse.Storage.SsTable
use boiler_pulse.Storage.SsTable.{SstEntry, SsTable}
use boiler_pulse.Storage.Lsm.{
  Engine, Memtable, search, merge_tables, compacted, is_kept, find_entry, get, check_found,
  to_storage_entry, to_sstable_entry, frozen, flushed, flush_locked, compact_locked,
  maybe_flush_locked, empty_memtable,
}
use boiler_pulse.Storage.Lsm.Lookup.{
  or_else-none, lookup-merge_tables, merge_tables-IsDistinct, search-append, get_distinct,
  search_one, lookup-sort-select, lookup-to_sstable_entries, to_sstable_entries-IsDistinct,
  sorted_select-IsDistinct, KeepsTimes, to_storage_entry-to_sstable_entry,
}

-- What a reader sees at a time, of what the tables hold for a key.
unfoldable pub seen : ℕ → Option SstEntry → Option Entry
seen now none = none
seen now (some e) = checked_entry now (to_storage_entry e)

unfoldable pub keep_if : ℕ → Key → Option SstEntry → Option SstEntry
keep_if now k none = none
keep_if now k (some e) = if is_kept now k e then some e else none

-- The table that a compaction writes holds, for a key, the newest entry of the old tables, unless
-- that one is a tombstone or expired.
pub get-compacted :
    (now number : ℕ) (ts : List SsTable) (k : Key)
    → SsTable.get k (compacted now number ts) ≡ keep_if now k (search k ts)
unfolding compacted keep_if lookup
get-compacted now number ts k =
    let distinct = merge_tables-IsDistinct ts [] tt in
    get_distinct (compacted now number ts) k
      (sorted_select-IsDistinct (is_kept now) (merge_tables ts []) distinct)
    ∙ (lookup-sort-select (is_kept now) (merge_tables ts []) k distinct
        ∙ (ap (λ x. elim x [ none ↦ none | some e ↦ if is_kept now k e then some e else none ])
              (lookup-merge_tables ts [] k ∙ or_else-none (search k ts))
            ∙ same (search k ts)))
  where
    same :
        (x : Option SstEntry)
        → elim x [ none ↦ none | some e ↦ if is_kept now k e then some e else none ]
          ≡ keep_if now k x
    same none = refl
    same (some e) = refl

-- An entry that is dropped at a time is not seen from then on.
pub seen-keep_if :
    (now later : ℕ) (k : Key) (x : Option SstEntry)
    → now ≤ later
    → seen later (keep_if now k x) ≡ seen later x
unfolding seen keep_if is_kept checked_entry to_storage_entry expired
seen-keep_if now later k none h = refl
seen-keep_if now later k (some e) h = ground arith

pub seen-or_else-keep_if :
    (now later : ℕ) (k : Key) (x y : Option SstEntry)
    → now ≤ later
    → seen later (or_else (keep_if now k (or_else x y)) x) ≡ seen later (or_else x y)
unfolding or_else
seen-or_else-keep_if now later k none y h =
    ap (seen later) (or_else-none (keep_if now k y)) ∙ seen-keep_if now later k y h
seen-or_else-keep_if now later k (some e) y h = elim (Bool-cases (is_kept now k e)) [
  | inl kept ↦
      (unfold keep_if in ap (λ b. seen later (or_else (if b then some e else none) (some e))) kept)
  | inr dropped ↦
      (unfold keep_if in
        ap (λ b. seen later (or_else (if b then some e else none) (some e))) dropped)
]

-- With the merged table in place and any number of the older tables removed, as a stop in the
-- middle of a compaction leaves them, what is read for a key from the time of the compaction on is
-- what the old tables gave.
pub search-compacted_crash :
    (now later number : ℕ) (removed left : List SsTable) (k : Key)
    → now ≤ later
    → seen later (search k (left ++ compacted now number (removed ++ left) ∷ []))
      ≡ seen later (search k (removed ++ left))
search-compacted_crash now later number removed left k h =
    ap (seen later) (
      search-append left (compacted now number (removed ++ left) ∷ []) k
      ∙ ap (λ x. or_else x (search k left))
          (search_one (compacted now number (removed ++ left)) k
            ∙ (get-compacted now number (removed ++ left) k
                ∙ ap (keep_if now k) (search-append removed left k))))
    ∙ (seen-or_else-keep_if now later k (search k left) (search k removed) h
        ∙ ap (seen later) (sym (search-append removed left k)))

check_found-find_entry :
    (later : ℕ) (k : Key) (m : Memtable) (ts us : List SsTable)
    → seen later (search k ts) ≡ seen later (search k us)
    → check_found later (find_entry k m ts) ≡ check_found later (find_entry k m us)
unfolding check_found find_entry seen
check_found-find_entry later k m ts us h = ground arith

-- A compaction keeps what a reader sees, from its time on.
pub get-compact_locked :
    (now later : ℕ) (k : Key) (e : Engine)
    → now ≤ later
    → get later k (compact_locked now e) ≡ get later k e
unfolding get compact_locked
get-compact_locked now later k e h =
    check_found-find_entry later k e.memtable (compacted now (e.sstable_seq + 1) e.sstables ∷ [])
      e.sstables
      (ap (seen later) (
          search_one (compacted now (e.sstable_seq + 1) e.sstables) k
          ∙ get-compacted now (e.sstable_seq + 1) e.sstables k)
        ∙ seen-keep_if now later k (search k e.sstables) h)

-- The memtable's map, written as a table.
pub get-frozen :
    (e : Engine) (k : Key)
    → IsDistinct e.memtable.entries
    → SsTable.get k (frozen e)
      ≡ elim (lookup k e.memtable.entries) [ none ↦ none | some x ↦ some (to_sstable_entry x) ]
unfolding frozen
get-frozen e k h =
    get_distinct (frozen e) k (
      to_sstable_entries-IsDistinct (sort e.memtable.entries)
        (sort-IsDistinct e.memtable.entries h))
    ∙ (lookup-to_sstable_entries (sort e.memtable.entries) k
        ∙ ap (λ x. elim x [ none ↦ none | some y ↦ some (to_sstable_entry y) ])
            (lookup-sort e.memtable.entries k h))

-- Behind a memtable, its own table changes nothing.
pub find_entry-frozen :
    (e : Engine) (k : Key)
    → IsDistinct e.memtable.entries
    → find_entry k e.memtable (e.sstables ++ frozen e ∷ []) ≡ find_entry k e.memtable e.sstables
unfolding find_entry or_else
find_entry-frozen e k h =
    ground
      (arith, get-frozen e k h, search_one (frozen e) k, search-append e.sstables (frozen e ∷ []) k)

-- The memtable emptied, its table yields the same, if it keeps the times.
pub find_entry-flushed :
    (e : Engine) (k : Key)
    → IsDistinct e.memtable.entries
    → KeepsTimes e.memtable.entries
    → find_entry k empty_memtable (e.sstables ++ frozen e ∷ []) ≡ find_entry k e.memtable e.sstables
unfolding find_entry or_else lookup
find_entry-flushed e k h times = elim (Option-cases (lookup k e.memtable.entries)) [
  | inl absent ↦ ground (
    arith,
    absent,
    get-frozen e k h,
    search_one (frozen e) k,
    search-append e.sstables (frozen e ∷ []) k,
  )
  | inr (x, found) ↦ ground (
    arith,
    found,
    to_storage_entry-to_sstable_entry x (times k x found),
    get-frozen e k h,
    search_one (frozen e) k,
    search-append e.sstables (frozen e ∷ []) k,
  )
]

get-flushed :
    (later : ℕ) (k : Key) (e : Engine)
    → IsDistinct e.memtable.entries
    → KeepsTimes e.memtable.entries
    → get later k (flushed e) ≡ get later k e
unfolding get flushed
get-flushed later k e h times = ap (check_found later) (find_entry-flushed e k h times)

pub get-flush_locked :
    (now later : ℕ) (k : Key) (e : Engine)
    → now ≤ later
    → IsDistinct e.memtable.entries
    → KeepsTimes e.memtable.entries
    → get later k (flush_locked now e) ≡ get later k e
unfolding flush_locked
get-flush_locked now later k e h d times =
    ground (arith, get-flushed later k e d times, get-compact_locked now later k (flushed e) h)

-- For a memtable without repeated keys, whose expiries fit an int64, the test for a flush with all that follows from it changes
-- no key's reading from its time on.
pub get-maybe_flush_locked :
    (now later : ℕ) (k : Key) (e : Engine)
    → now ≤ later
    → IsDistinct e.memtable.entries
    → KeepsTimes e.memtable.entries
    → get later k (maybe_flush_locked now e) ≡ get later k e
unfolding maybe_flush_locked
get-maybe_flush_locked now later k e h d times =
    ground (arith, get-flush_locked now later k e h d times)
