-- ===== src/Storage/Runs.antt =====
-- internal/storage: the theorems at concrete inputs, with a checksum that is always 0.
use boiler_pulse.Prelude.{
  ℕ, ◌+◌, ◌≡◌, Bool-cases, inl, inr, refl, List, [], ◌∷◌, ◌++◌, none, some, arith, true, false,
  if◌then◌else◌,
}
use boiler_pulse.Bytes.{bytes_eq}
use boiler_pulse.Bytes.Frame.{Checksum}
use boiler_pulse.Bytes.LogCodec.{write_all}
use boiler_pulse.Wal.Record.{Record}
use boiler_pulse.Wal.Replay.{codec}
use boiler_pulse.Storage.{has_prefix}
use boiler_pulse.Storage.Lsm.Scan.{scan, lookup-scan}
use boiler_pulse.Storage.MemStore
use boiler_pulse.Storage.MemStore.{MemStore, lookup-scan_mem}
use boiler_pulse.Storage.Contract.{Agree, put-Agree, delete-Agree}
use boiler_pulse.Storage.Table.{Key, IsDistinct, lookup}
use boiler_pulse.Storage.SsTable.{
  SstEntry, SsTable, IsWritable, encode_entry, decode_entry, decode_entry-encode_entry,
}
use boiler_pulse.Storage.Lsm.{
  Engine, Options, empty_memtable, get, put, delete, op_round, process_batch, put_op, compacted,
  search, check_found, stored_entry, expiry, open_engine, frozen, maybe_flush_locked, replay,
  enqueue, compact_locked,
}
use boiler_pulse.Storage.Lsm.Compaction.{seen, search-compacted_crash}
use boiler_pulse.Storage.Lsm.Durable.{
  IsDurable, IsOp, process_batch-IsDurable, get-open_engine, get-open_engine_mid_flush,
}
use boiler_pulse.Storage.Lsm.Client.{Fits, get-put, put_op-IsOp}

abbrev zero_sum : Checksum
zero_sum = record { sum = λ bs. 0; sum-lt = λ bs. omega arith }

abbrev live : SstEntry
live = record {
  value = 1 ∷ 2 ∷ [];
  consistency = 83 ∷ [];
  expires_at_unix_nano = 0;
  tombstone = false;
  version = 3;
}

abbrev dead : SstEntry
dead = record {
  value = [];
  consistency = [];
  expires_at_unix_nano = 0;
  tombstone = true;
  version = 4;
}

live_fits : IsWritable (97 ∷ []) live
live_fits = record {
  key_length = omega arith;
  consistency = omega arith;
  expires = omega arith;
  version = omega arith;
  value = omega arith;
}

abbrev older : SsTable
older = record { number = 1; entries = (97 ∷ [], live) ∷ [] }

abbrev newer : SsTable
newer = record { number = 2; entries = (97 ∷ [], dead) ∷ [] }

search-compacted_crash_example :
    seen 20 (search (97 ∷ []) ((newer ∷ []) ++ compacted 10 3 ((older ∷ []) ++ newer ∷ []) ∷ []))
    ≡ seen 20 (search (97 ∷ []) ((older ∷ []) ++ newer ∷ []))
search-compacted_crash_example =
    search-compacted_crash 10 20 3 (older ∷ []) (newer ∷ []) (97 ∷ []) (omega arith)

-- An engine with one table and an empty log, that flushes after any write.
abbrev engine : Engine
engine = record {
  opts = record { memtable_flush_threshold_bytes = 1; compaction_threshold = 1 };
  wal_file = [];
  memtable = empty_memtable;
  sstables = older ∷ [];
  sstable_seq = 1;
  next_seq = 4;
  queue = [];
}

engine-IsDurable : IsDurable zero_sum [] engine
unfolding write_all replay
engine-IsDurable = record { file = refl; fits = tt; table = refl }

-- A time of 2026, and ten minutes.
abbrev today : ℕ
today = 11_003_372_036_854_775_809

abbrev minutes : ℕ
minutes = 600_000_000_000

put-Fits : Fits today (98 ∷ []) (5 ∷ []) (83 ∷ []) minutes 4
put-Fits = record {
  key_length = omega arith;
  consistency_length = omega arith;
  value_length = omega arith;
  clock = omega arith;
  expiry_range = omega arith;
  seq_range = omega arith;
}

get-put_example :
    (waiting : Engine) × (put today (98 ∷ []) (5 ∷ []) (83 ∷ []) minutes engine ≡ some waiting)
    × (get (today + 20) (98 ∷ []) (op_round zero_sum (today + 10) waiting) ≡ (
        if bytes_eq (98 ∷ []) (98 ∷ [])
        then check_found
            (today + 20)
            (some (stored_entry (5 ∷ []) (83 ∷ []) (expiry today minutes) 4))
        else get (today + 20) (98 ∷ []) engine))
get-put_example =
    get-put zero_sum today (today + 10) (today + 20) (98 ∷ []) (98 ∷ []) (5 ∷ []) (83 ∷ []) minutes
      [] engine (omega arith) engine-IsDurable refl put-Fits

abbrev deleting : Engine
deleting =
    boiler_pulse.Storage.Lsm.queued (boiler_pulse.Storage.Lsm.delete_op 10 (97 ∷ []) 4) engine

found_to_delete : delete 10 (97 ∷ []) engine ≡ some (some deleting)
unfolding delete enqueue get check_found boiler_pulse.Storage.Lsm.find_entry search
    boiler_pulse.Storage.SsTable.get lookup boiler_pulse.Storage.Table.Overlay.overlay
    boiler_pulse.Storage.Table.insert boiler_pulse.Storage.Table.Overlay.or_else
    boiler_pulse.Storage.Lsm.to_storage_entry boiler_pulse.Storage.checked_entry bytes_eq
found_to_delete = refl

process_batch-IsDurable_example :
    (ss : List Record) × IsDurable zero_sum ss (
      process_batch zero_sum
        (today + 10)
        (put_op today (98 ∷ []) (5 ∷ []) (83 ∷ []) minutes 4 ∷ [])
        engine)
process_batch-IsDurable_example =
    process_batch-IsDurable zero_sum (today + 10) []
      (put_op today (98 ∷ []) (5 ∷ []) (83 ∷ []) minutes 4 ∷ []) engine engine-IsDurable
      (put_op-IsOp today (98 ∷ []) (5 ∷ []) (83 ∷ []) minutes 4 put-Fits, tt)

abbrev logged : Record
logged = record {
  seq = 4;
  op = 1;
  timestamp = 10;
  expires_at_unix_nano = 0;
  key = 98 ∷ [];
  consistency = 83 ∷ [];
  value = 5 ∷ [];
}

-- The engine with one record in its log.
abbrev with_log : Engine
with_log = record engine {
  wal_file = write_all (codec zero_sum) (logged ∷ []);
  memtable = replay (logged ∷ []) empty_memtable;
}

with_log-IsDurable : IsDurable zero_sum (logged ∷ []) with_log
with_log-IsDurable = record {
  file = refl;
  fits = (
    record {
      seq = omega arith;
      op = omega arith;
      timestamp = omega arith;
      expires = omega arith;
      key = omega arith;
      consistency = omega arith;
      value = omega arith;
    },
    tt,
  );
  table = refl;
}

get-open_engine_mid_flush_example :
    get 30
      (98 ∷ [])
      (open_engine zero_sum with_log.opts ((older ∷ []) ++ frozen with_log ∷ []) with_log.wal_file)
    ≡ get 30 (98 ∷ []) with_log
get-open_engine_mid_flush_example =
    get-open_engine_mid_flush zero_sum 30 (98 ∷ []) with_log.opts (logged ∷ []) with_log
      with_log-IsDurable

with_log-IsDistinct : IsDistinct with_log.memtable.entries
with_log-IsDistinct =
    boiler_pulse.Storage.Lsm.Durable.IsDurable-IsDistinct zero_sum (logged ∷ []) with_log
      with_log-IsDurable

lookup-scan_example :
    lookup (98 ∷ []) (scan 30 (98 ∷ []) with_log)
    ≡ (if has_prefix (98 ∷ []) (98 ∷ []) then get 30 (98 ∷ []) with_log else none)
lookup-scan_example = lookup-scan 30 (98 ∷ []) (98 ∷ []) with_log with_log-IsDistinct

-- The same contents in memory.
abbrev mem : MemStore
mem = record {
  entries =
      (
        97 ∷ [],
        record {
          value = 1 ∷ 2 ∷ [];
          consistency = 83 ∷ [];
          expires_at = 0;
          tombstone = false;
          version = 1;
        },
      )
      ∷ [];
  version = 1;
}

engine-Agree : Agree 10 engine mem
unfolding get MemStore.get check_found boiler_pulse.Storage.Lsm.find_entry search
    boiler_pulse.Storage.SsTable.get lookup boiler_pulse.Storage.Table.Overlay.overlay
    boiler_pulse.Storage.Table.insert boiler_pulse.Storage.Table.Overlay.or_else
    boiler_pulse.Storage.Lsm.to_storage_entry boiler_pulse.Storage.checked_entry
engine-Agree later k h = elim (Bool-cases (bytes_eq (97 ∷ []) k)) [
  | inl same ↦ ground (arith, same)
  | inr other ↦ ground (arith, other)
]

put-Agree_example :
    (waiting : Engine) × (put today (98 ∷ []) (5 ∷ []) (83 ∷ []) minutes engine ≡ some waiting)
    × Agree
        (today + 10)
        (op_round zero_sum (today + 10) waiting)
        (MemStore.put today (98 ∷ []) (5 ∷ []) (83 ∷ []) minutes mem)
put-Agree_example =
    put-Agree zero_sum today (today + 10) (98 ∷ []) (5 ∷ []) (83 ∷ []) minutes [] engine mem
      (omega arith) (λ l k h. engine-Agree l k (omega (arith, h))) engine-IsDurable refl put-Fits

deleted_mem : MemStore.delete 10 (97 ∷ []) mem ≡ some (MemStore.tombstoned (97 ∷ []) mem)
unfolding MemStore.delete MemStore.get lookup boiler_pulse.Storage.checked_entry bytes_eq
deleted_mem = refl

delete-Agree_example : Agree 20 (op_round zero_sum 20 deleting) (MemStore.tombstoned (97 ∷ []) mem)
delete-Agree_example =
    delete-Agree zero_sum 10 20 (97 ∷ []) [] engine deleting mem (MemStore.tombstoned (97 ∷ []) mem)
      (omega arith) engine-Agree engine-IsDurable refl (omega arith) (omega arith) found_to_delete
      deleted_mem

mem-IsDistinct : IsDistinct mem.entries
unfolding lookup
mem-IsDistinct = (refl, tt)
