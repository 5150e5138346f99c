-- ===== src/Storage/Lsm/Lookup.antt =====
-- What a table yields for a key after tables are merged, sorted or written by a flush.
use boiler_pulse.Prelude.{
  ◌≡◌, refl, sym, ap, ◌∙◌, Bool, List, [], ◌∷◌, ◌++◌, Option, none, some, arith, subst, inl, inr,
  Bool-cases, if◌then◌else◌,
}
use boiler_pulse.Storage.{Entry, unix_nano, from_unix_nano}
use boiler_pulse.Storage.Table.{Key, lookup, IsDistinct, select, lookup-select}
use boiler_pulse.Storage.Table.Overlay.{
  overlay, sort, or_else, lookup-overlay, lookup-overlay_distinct, overlay-IsDistinct, lookup-sort,
  sort-IsDistinct,
}
use boiler_pulse.Storage.SsTable
use boiler_pulse.Storage.SsTable.{SstEntry, SsTable}
use boiler_pulse.Storage.Lsm.{
  search, merge_tables, to_sstable_entries, to_sstable_entry, to_storage_entry,
}

pub or_else_assoc {ℓ} :
    {A : Type ℓ} (x y z : Option A) → or_else (or_else x y) z ≡ or_else x (or_else y z)
unfolding or_else
or_else_assoc none y z = refl
or_else_assoc (some x) y z = refl

pub or_else-none {ℓ} : {A : Type ℓ} (x : Option A) → or_else x none ≡ x
unfolding or_else
or_else-none none = refl
or_else-none (some x) = refl

-- Merging tables over a map: the newest table that has the key, then the map.
pub lookup-merge_tables :
    (ts : List SsTable) (m : List (Key × SstEntry)) (k : Key)
    → lookup k (merge_tables ts m) ≡ or_else (search k ts) (lookup k m)
unfolding merge_tables search SsTable.get or_else
lookup-merge_tables [] m k = refl
lookup-merge_tables (t ∷ ts) m k =
    lookup-merge_tables ts (overlay t.entries m) k
    ∙ (ap (or_else (search k ts)) (lookup-overlay t.entries k m)
        ∙ sym (or_else_assoc (search k ts) (lookup k (overlay t.entries [])) (lookup k m)))

pub merge_tables-IsDistinct :
    (ts : List SsTable) (m : List (Key × SstEntry)) → IsDistinct m → IsDistinct (merge_tables ts m)
unfolding merge_tables
merge_tables-IsDistinct [] m h = h
merge_tables-IsDistinct (t ∷ ts) m h =
    merge_tables-IsDistinct ts (overlay t.entries m) (overlay-IsDistinct t.entries m h)

pub search-append :
    (ts us : List SsTable) (k : Key) → search k (ts ++ us) ≡ or_else (search k us) (search k ts)
unfolding search
search-append [] us k = sym (or_else-none (search k us))
search-append (t ∷ ts) us k =
    ap (λ x. or_else x (SsTable.get k t)) (search-append ts us k)
    ∙ or_else_assoc (search k us) (search k ts) (SsTable.get k t)

-- A table whose entries have no repetition yields what its entries say.
pub get_distinct :
    (t : SsTable) (k : Key) → IsDistinct t.entries → SsTable.get k t ≡ lookup k t.entries
unfolding SsTable.get
get_distinct t k h = lookup-overlay_distinct t.entries k h

pub search_one : (t : SsTable) (k : Key) → search k (t ∷ []) ≡ SsTable.get k t
unfolding search or_else
search_one t k = refl

pub select-IsDistinct :
    {V : Type 0} (p : Key → V → Bool) (m : List (Key × V)) → IsDistinct m → IsDistinct (select p m)
unfolding select lookup
select-IsDistinct p [] h = tt
select-IsDistinct p ((k, e) ∷ m) (a, h) = elim (Bool-cases (p k e)) [
  | inl kept ↦
      subst (λ b. IsDistinct (if b then (k, e) ∷ select p m else select p m)) (sym kept)
        (
          lookup-select p k m h
              ∙ ap (λ x. elim x [ none ↦ none | some v ↦ if p k v then some v else none ]) a,
          select-IsDistinct p m h,
        )
  | inr dropped ↦
      subst (λ b. IsDistinct (if b then (k, e) ∷ select p m else select p m)) (sym dropped)
        (select-IsDistinct p m h)
]

-- Selecting and sorting a map without repetitions.
pub lookup-sort-select :
    (p : Key → SstEntry → Bool) (m : List (Key × SstEntry)) (k : Key)
    → IsDistinct m
    → lookup k (sort (select p m))
      ≡ elim (lookup k m) [ none ↦ none | some e ↦ if p k e then some e else none ]
lookup-sort-select p m k h =
    lookup-sort (select p m) k (select-IsDistinct p m h) ∙ lookup-select p k m h

pub sorted_select-IsDistinct :
    (p : Key → SstEntry → Bool) (m : List (Key × SstEntry))
    → IsDistinct m
    → IsDistinct (sort (select p m))
sorted_select-IsDistinct p m h = sort-IsDistinct (select p m) (select-IsDistinct p m h)

pub lookup-to_sstable_entries :
    (m : List (Key × Entry)) (k : Key)
    → lookup k (to_sstable_entries m)
      ≡ elim (lookup k m) [ none ↦ none | some e ↦ some (to_sstable_entry e) ]
unfolding lookup to_sstable_entries
lookup-to_sstable_entries [] k = refl
lookup-to_sstable_entries ((j, e) ∷ m) k = ground (arith, lookup-to_sstable_entries m k)

pub to_sstable_entries-IsDistinct :
    (m : List (Key × Entry)) → IsDistinct m → IsDistinct (to_sstable_entries m)
unfolding to_sstable_entries
to_sstable_entries-IsDistinct [] h = tt
to_sstable_entries-IsDistinct ((j, e) ∷ m) (a, h) = (
  lookup-to_sstable_entries m j
      ∙ ap (λ x. elim x [ none ↦ none | some v ↦ some (to_sstable_entry v) ]) a,
  to_sstable_entries-IsDistinct m h,
)

-- Every expiry of a map is read back from its `UnixNano`.
abbrev pub KeepsTimes : List (Key × Entry) → Type 0
KeepsTimes m =
    (k : Key) (x : Entry)
    → lookup k m ≡ some x
    → from_unix_nano (unix_nano x.expires_at) ≡ x.expires_at

-- A flush keeps an entry whose expiry is read back from its `UnixNano`.
pub to_storage_entry-to_sstable_entry :
    (e : Entry)
    → from_unix_nano (unix_nano e.expires_at) ≡ e.expires_at
    → to_storage_entry (to_sstable_entry e) ≡ e
unfolding to_storage_entry to_sstable_entry
to_storage_entry-to_sstable_entry e h = ap (λ t. record e { expires_at = t }) h
