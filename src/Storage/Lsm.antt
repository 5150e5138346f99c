-- ===== src/Storage/Lsm.antt =====
-- internal/storage/lsm: the engine's state and its operations. Every file operation succeeds. The
-- files hold a time as the 64 bits of its `UnixNano`. `Close`, `CloseWALOnly` and the logging are left out.
pub mod Lookup
pub mod Compaction
pub mod Durable
pub mod Client
pub mod Scan
use boiler_pulse.Prelude.{
  ℕ, zero, suc, ◌+◌, ◌-◌, ◌*◌, max, Bool, true, false, not, List, [], ◌∷◌, ◌++◌, map, Option, none,
  some, arith, if◌then◌else◌, length, take, drop, u64, ltb, leb, ◌==◌, ◌&&◌, ◌||◌,
}
use boiler_pulse.Bytes.Frame.{Checksum}
use boiler_pulse.Wal.Record.{Record, op_set, op_delete}
use boiler_pulse.Wal.Replay
use boiler_pulse.Storage.{Entry, checked_entry, unix_nano, from_unix_nano}
use boiler_pulse.Storage.Table.{Key, lookup, insert, select}
use boiler_pulse.Storage.Table.Overlay.{overlay, sort, or_else}
use boiler_pulse.Storage.SsTable
use boiler_pulse.Storage.SsTable.{SstEntry, SsTable}

pub record Options : Type 0 where
  pub memtable_flush_threshold_bytes : ℕ
  pub compaction_threshold : ℕ

-- A queued write: its record, and what its `apply` puts into the memtable.
pub record EngineOp : Type 0 where
  pub rec : Record
  pub key : Key
  pub entry : Entry

pub record Memtable : Type 0 where
  pub entries : List (Key × Entry)
  pub size : ℕ

-- `sstables` is oldest first; `queue` is what waits in `opCh`; `wal_file` holds the log's bytes.
pub record Engine : Type 0 where
  pub opts : Options
  pub wal_file : List ℕ
  pub memtable : Memtable
  pub sstables : List SsTable
  pub sstable_seq : ℕ
  pub next_seq : ℕ
  pub queue : List EngineOp

unfoldable pub entry_size : Key → Entry → ℕ
entry_size key e = length key + length e.value + 32

unfoldable pub apply_to_memtable : Key → Entry → Memtable → Memtable
unfolding entry_size
apply_to_memtable key e m = record {
  entries = insert key e m.entries;
  size =
      (elim (lookup key m.entries) [ some old ↦ m.size - entry_size key old | none ↦ m.size ])
      + entry_size key e;
}

unfoldable pub to_storage_entry : SstEntry → Entry
unfolding from_unix_nano
to_storage_entry e = record {
  value = e.value;
  consistency = e.consistency;
  expires_at = from_unix_nano e.expires_at_unix_nano;
  tombstone = e.tombstone;
  version = e.version;
}

unfoldable pub to_sstable_entry : Entry → SstEntry
unfolding unix_nano
to_sstable_entry e = record {
  value = e.value;
  consistency = e.consistency;
  expires_at_unix_nano = unix_nano e.expires_at;
  tombstone = e.tombstone;
  version = e.version;
}

-- The newest table that has the key.
unfoldable pub search : Key → List SsTable → Option SstEntry
search k [] = none
search k (t ∷ ts) = or_else (search k ts) (SsTable.get k t)

-- The entry that counts for a key, tombstones and expired ones included.
unfoldable pub find_entry : Key → Memtable → List SsTable → Option Entry
unfolding search
find_entry k m ts = elim (lookup k m.entries) [
  | some e ↦ some e
  | none ↦ elim (search k ts) [ some e ↦ some (to_storage_entry e) | none ↦ none ]
]

unfoldable pub check_found : ℕ → Option Entry → Option Entry
check_found now none = none
check_found now (some e) = checked_entry now e

-- `Get` and `lookupLocked`; `none` is ErrKeyNotFound.
unfoldable pub get : ℕ → Key → Engine → Option Entry
get now k e = check_found now (find_entry k e.memtable e.sstables)

-- What `opCh` holds.
abbrev pub op_ch_size : ℕ
op_ch_size = 1024

unfoldable pub queued : EngineOp → Engine → Engine
queued op e = record e { next_seq = u64 (e.next_seq + 1); queue = e.queue ++ op ∷ [] }

-- `none`: the channel is full, and the caller waits with `e.mu` held.
unfoldable pub enqueue : EngineOp → Engine → Option Engine
unfolding queued
enqueue op e = if ltb (length e.queue) op_ch_size then some (queued op e) else none

-- A `ttl` of 0 means no expiry.
unfoldable pub expiry : ℕ → ℕ → ℕ
expiry now ttl = if ltb 0 ttl then now + ttl else 0

unfoldable pub stored_entry : List ℕ → List ℕ → ℕ → ℕ → Entry
stored_entry value consistency expires seq = record {
  value = value;
  consistency = consistency;
  expires_at = expires;
  tombstone = false;
  version = seq;
}

unfoldable pub put_op : ℕ → Key → List ℕ → List ℕ → ℕ → ℕ → EngineOp
unfolding expiry stored_entry unix_nano
put_op now key value consistency ttl seq = record {
  rec = record {
    seq = seq;
    op = op_set;
    timestamp = unix_nano now;
    expires_at_unix_nano = unix_nano (expiry now ttl);
    key = key;
    consistency = consistency;
    value = value;
  };
  key = key;
  entry = stored_entry value consistency (expiry now ttl) seq;
}

-- `Put` up to the wait for its result; `none` if it waits for the channel.
unfoldable pub put : ℕ → Key → List ℕ → List ℕ → ℕ → Engine → Option Engine
unfolding enqueue put_op
put now key value consistency ttl e = enqueue (put_op now key value consistency ttl e.next_seq) e

unfoldable pub tombstone_at : ℕ → Entry
tombstone_at seq = record {
  value = [];
  consistency = [];
  expires_at = 0;
  tombstone = true;
  version = seq;
}

unfoldable pub delete_op : ℕ → Key → ℕ → EngineOp
unfolding tombstone_at unix_nano
delete_op now key seq = record {
  rec = record {
    seq = seq;
    op = op_delete;
    timestamp = unix_nano now;
    expires_at_unix_nano = 0;
    key = key;
    consistency = [];
    value = [];
  };
  key = key;
  entry = tombstone_at seq;
}

-- `Delete` up to the wait for its result; `none` is ErrKeyNotFound, and changes nothing; `some none`
-- waits for the channel.
unfoldable pub delete : ℕ → Key → Engine → Option (Option Engine)
unfolding enqueue get delete_op
delete now key e = elim (get now key e) [
  | none ↦ none
  | some _ ↦ some (enqueue (delete_op now key e.next_seq) e)
]

abbrev pub empty_memtable : Memtable
empty_memtable = record { entries = []; size = 0 }

unfoldable pub to_sstable_entries : List (Key × Entry) → List (Key × SstEntry)
to_sstable_entries [] = []
to_sstable_entries ((k, e) ∷ m) = (k, to_sstable_entry e) ∷ to_sstable_entries m

-- The entries of all tables, a newer one over an older one.
unfoldable pub merge_tables : List SsTable → List (Key × SstEntry) → List (Key × SstEntry)
merge_tables [] m = m
merge_tables (t ∷ ts) m = merge_tables ts (overlay t.entries m)

unfoldable pub is_kept : ℕ → Key → SstEntry → Bool
unfolding from_unix_nano
is_kept now k e =
    let expires = from_unix_nano e.expires_at_unix_nano in
    not e.tombstone && not (not (expires == 0) && ltb expires now)

-- The table that a compaction writes.
unfoldable pub compacted : ℕ → ℕ → List SsTable → SsTable
compacted now number ts = record {
  number = number;
  entries = sort (select (is_kept now) (merge_tables ts []));
}

unfoldable pub compact_locked : ℕ → Engine → Engine
compact_locked now e = record e {
  sstables = compacted now (e.sstable_seq + 1) e.sstables ∷ [];
  sstable_seq = e.sstable_seq + 1;
}

-- The table that a flush writes.
unfoldable pub frozen : Engine → SsTable
frozen e = record {
  number = e.sstable_seq + 1;
  entries = to_sstable_entries (sort e.memtable.entries);
}

-- `flushLocked` up to the test for a compaction, for a memtable that is not empty.
unfoldable pub flushed : Engine → Engine
unfolding frozen Replay.reset
flushed e = record e {
  sstables = e.sstables ++ frozen e ∷ [];
  sstable_seq = e.sstable_seq + 1;
  wal_file = Replay.reset e.wal_file;
  memtable = empty_memtable;
}

unfoldable pub flush_locked : ℕ → Engine → Engine
unfolding flushed compact_locked
flush_locked now e = elim e.memtable.entries [
  | [] ↦ e
  | _ ∷ _ ↦
      if ltb e.opts.compaction_threshold (length (flushed e).sstables)
      then compact_locked now (flushed e)
      else flushed e
]

unfoldable pub maybe_flush_locked : ℕ → Engine → Engine
unfolding flush_locked
maybe_flush_locked now e =
    if ltb e.memtable.size e.opts.memtable_flush_threshold_bytes then e else flush_locked now e

unfoldable pub apply_all : List EngineOp → Memtable → Memtable
unfolding apply_to_memtable
apply_all [] m = m
apply_all (op ∷ ops) m = apply_all ops (apply_to_memtable op.key op.entry m)

-- What a record puts into the memtable; an unknown operation puts nothing.
unfoldable pub entry_of : Record → Option Entry
unfolding from_unix_nano
entry_of r =
    if r.op == op_set
    then some (record {
      value = r.value;
      consistency = r.consistency;
      expires_at = from_unix_nano r.expires_at_unix_nano;
      tombstone = false;
      version = r.seq;
    })
    else (if r.op == op_delete then some (tombstone_at r.seq) else none)

unfoldable pub apply_record_to_memtable : Record → Memtable → Memtable
unfolding entry_of apply_to_memtable
apply_record_to_memtable r m = elim (entry_of r) [ none ↦ m | some e ↦ apply_to_memtable r.key e m ]

unfoldable pub replay : List Record → Memtable → Memtable
unfolding apply_record_to_memtable
replay [] m = m
replay (r ∷ rs) m = replay rs (apply_record_to_memtable r m)

unfoldable pub max_entry_version : List (Key × SstEntry) → ℕ → ℕ
max_entry_version [] v = v
max_entry_version ((k, e) ∷ es) v = max_entry_version es (max e.version v)

-- `loadSSTables` for the files in the order of their names: the highest number and version.
unfoldable pub load_sstables : List SsTable → ℕ × ℕ → ℕ × ℕ
unfolding max_entry_version
load_sstables [] (n, v) = (n, v)
load_sstables (t ∷ ts) (n, v) = load_sstables ts (max t.number n, max_entry_version t.entries v)

unfoldable pub max_seq : List Record → ℕ → ℕ
max_seq [] v = v
max_seq (r ∷ rs) v = max_seq rs (max r.seq v)

module _ (crc : Checksum) where
  unfoldable pub process_batch : ℕ → List EngineOp → Engine → Engine
  unfolding apply_all maybe_flush_locked Replay.append_batch
  process_batch now batch e = maybe_flush_locked now (record e {
    wal_file = Replay.append_batch crc (map (λ op. op.rec) batch) e.wal_file;
    memtable = apply_all batch e.memtable;
  })

  -- One round of `opLoop`, which drains what waits.
  unfoldable pub op_round : ℕ → Engine → Engine
  unfolding process_batch
  op_round now e = elim e.queue [
    | [] ↦ e
    | op ∷ ops ↦ process_batch now (op ∷ ops) (record e { queue = [] })
  ]

  -- `Open` on the tables and the log that a directory holds.
  unfoldable pub open_engine : Options → List SsTable → List ℕ → Engine
  unfolding load_sstables max_seq replay Replay.read_all
  open_engine opts tables wal_file =
      let (seq, version) = load_sstables tables (0, 0) in
      let records = Replay.read_all crc wal_file in
      record {
        opts = opts;
        wal_file = wal_file;
        memtable = replay records empty_memtable;
        sstables = tables;
        sstable_seq = seq;
        next_seq = u64 (max_seq records version + 1);
        queue = [];
      }
