-- ===== src/Storage/MemStore.antt =====
-- internal/storage/memstore.go: the engine that is kept in memory. Each method is one critical
-- section, and the clock is an argument.
use boiler_pulse.Prelude.{
  ℕ, ◌+◌, ◌≡◌, ap, ◌∙◌, true, false, List, [], Option, none, some, arith, if◌then◌else◌, ltb, u64,
  ◌&&◌,
}
use boiler_pulse.Bytes.{bytes_eq}
use boiler_pulse.Storage.{Entry, checked_entry, has_prefix, is_live}
use boiler_pulse.Storage.Table.{
  Key, lookup, insert, IsDistinct, select, lookup-select, lookup-insert,
}

pub record MemStore : Type 0 where
  pub entries : List (Key × Entry)
  pub version : ℕ

abbrev pub new_mem_store : MemStore
new_mem_store = record { entries = []; version = 0 }

-- `none` is ErrKeyNotFound.
unfoldable pub get : ℕ → Key → MemStore → Option Entry
unfolding checked_entry
get now key m = elim (lookup key m.entries) [ none ↦ none | some e ↦ checked_entry now e ]

unfoldable pub new_entry : ℕ → List ℕ → List ℕ → ℕ → ℕ → Entry
new_entry now value consistency ttl version = record {
  value = value;
  consistency = consistency;
  expires_at = if ltb 0 ttl then now + ttl else 0;
  tombstone = false;
  version = version;
}

unfoldable pub put : ℕ → Key → List ℕ → List ℕ → ℕ → MemStore → MemStore
unfolding new_entry
put now key value consistency ttl m = record {
  entries = insert key (new_entry now value consistency ttl (u64 (m.version + 1))) m.entries;
  version = u64 (m.version + 1);
}

unfoldable pub tombstoned : Key → MemStore → MemStore
tombstoned key m = record {
  entries =
      insert key
        (record {
          value = [];
          consistency = [];
          expires_at = 0;
          tombstone = true;
          version = u64 (m.version + 1);
        })
        m.entries;
  version = u64 (m.version + 1);
}

-- `none` is ErrKeyNotFound, and the store stays.
unfoldable pub delete : ℕ → Key → MemStore → Option MemStore
unfolding get tombstoned
delete now key m = elim (get now key m) [ none ↦ none | some _ ↦ some (tombstoned key m) ]

unfoldable pub scan : ℕ → Key → MemStore → List (Key × Entry)
unfolding is_live
scan now prefix m = select (λ k e. has_prefix prefix k && is_live now k e) m.entries

-- After a Put its key reads as what was put, until it expires; every other key reads as before.
pub get-put_mem :
    (now later : ℕ) (key k : Key) (value consistency : List ℕ) (ttl : ℕ) (m : MemStore)
    → get later k (put now key value consistency ttl m) ≡ (
        if bytes_eq key k
        then checked_entry later (new_entry now value consistency ttl (u64 (m.version + 1)))
        else get later k m)
unfolding get put
get-put_mem now later key k value consistency ttl m =
    ap (λ x. elim x [ none ↦ none | some e ↦ checked_entry later e ])
      (lookup-insert key k (new_entry now value consistency ttl (u64 (m.version + 1))) m.entries)
    ∙ ground arith

-- In memory, for a store without repeated keys, a scan finds a key exactly if it has the prefix
-- and Get finds it at that time, with the same entry.
pub lookup-scan_mem :
    (now : ℕ) (prefix k : Key) (m : MemStore)
    → IsDistinct m.entries
    → lookup k (scan now prefix m) ≡ (if has_prefix prefix k then get now k m else none)
unfolding scan get checked_entry is_live
lookup-scan_mem now prefix k m d =
    lookup-select (λ j e. has_prefix prefix j && is_live now j e) k m.entries d ∙ ground arith

-- After an accepted Delete its key is not found; every other key reads as before.
pub get-delete_mem :
    (now later : ℕ) (key k : Key) (m after : MemStore)
    → delete now key m ≡ some after
    → get later k after ≡ (if bytes_eq key k then none else get later k m)
unfolding get tombstoned checked_entry
get-delete_mem now later key k m after h =
    let same : after ≡ tombstoned key m = (unfold delete in ground (arith, h)) in
    ap (get later k) same
    ∙ (ap (λ x. elim x [ none ↦ none | some e ↦ checked_entry later e ])
          (lookup-insert key k _ m.entries)
        ∙ ground arith)
