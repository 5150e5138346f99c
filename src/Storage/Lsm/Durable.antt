-- ===== src/Storage/Lsm/Durable.antt =====
-- The log and the memtable (internal/storage/lsm/engine.go, recovery.go): what has been written
-- is there again after a restart.
use boiler_pulse.Prelude.{
  ℕ, ◌≤◌, ◌≡◌, refl, sym, ap, ◌∙◌, subst, Bool, true, false, List, [], ◌∷◌, ◌++◌, map, Option, none,
  some, arith, inl, inr, if◌then◌else◌, ltb, All, Bool-cases, Option-cases,
}
use boiler_pulse.Bytes.{bytes_eq}
use boiler_pulse.Bytes.Frame.{Checksum}
use boiler_pulse.Bytes.LogCodec.{write_all, write_all-append, read_all-write_all}
use boiler_pulse.Bytes.LogCodec
use boiler_pulse.Wal.Record.{Record, IsEncodable}
use boiler_pulse.Wal.Replay
use boiler_pulse.Wal.Replay.{codec}
use boiler_pulse.Storage.{Entry, unix_nano, from_unix_nano, from_unix_nano-again}
use boiler_pulse.Storage.Table.{Key, lookup, insert, IsDistinct, insert-IsDistinct, lookup-insert}
use boiler_pulse.Storage.Lsm.{
  Engine, EngineOp, Memtable, Options, apply_all, apply_to_memtable, entry_of,
  apply_record_to_memtable, replay, process_batch, maybe_flush_locked, flush_locked, flushed,
  frozen, compact_locked, tombstone_at, open_engine, find_entry, check_found, get, empty_memtable,
}
use boiler_pulse.Storage.Lsm.Lookup.{KeepsTimes}
use boiler_pulse.Storage.Lsm.Compaction.{get-maybe_flush_locked, find_entry-frozen}

-- What `Put` and `Delete` queue: replaying the record does what `apply` does, and it can be written.
pub record IsOp (op : EngineOp) : Type 0 where
  pub same_key : op.rec.key ≡ op.key
  pub same_entry : entry_of op.rec ≡ some op.entry
  pub fits : IsEncodable op.rec

-- The log holds the records since the last flush, and the memtable is what they leave.
pub record IsDurable (crc : Checksum) (rs : List Record) (e : Engine) : Type 0 where
  pub file : e.wal_file ≡ write_all (codec crc) rs
  pub fits : All IsEncodable rs
  pub table : e.memtable ≡ replay rs empty_memtable

abbrev pub records_of : List EngineOp → List Record
records_of ops = map (λ op. op.rec) ops

replay-append : (rs ss : List Record) (m : Memtable) → replay (rs ++ ss) m ≡ replay ss (replay rs m)
unfolding replay
replay-append [] ss m = refl
replay-append (r ∷ rs) ss m = replay-append rs ss (apply_record_to_memtable r m)

replay_some :
    (r : Record) (x : Entry) (m : Memtable)
    → entry_of r ≡ some x
    → apply_record_to_memtable r m ≡ apply_to_memtable r.key x m
unfolding apply_record_to_memtable
replay_some r x m h = ap (λ o. elim o [ none ↦ m | some y ↦ apply_to_memtable r.key y m ]) h

apply_record-op :
    (op : EngineOp) (m : Memtable)
    → IsOp op
    → apply_record_to_memtable op.rec m ≡ apply_to_memtable op.key op.entry m
apply_record-op op m h =
    replay_some op.rec op.entry m h.same_entry ∙ ap (λ k. apply_to_memtable k op.entry m) h.same_key

-- Replaying the records of queued writes does what applying them does.
pub replay-records_of :
    (ops : List EngineOp) (m : Memtable)
    → All IsOp ops
    → replay (records_of ops) m ≡ apply_all ops m
unfolding replay apply_all
replay-records_of [] m h = refl
replay-records_of (op ∷ ops) m (h, hs) =
    ap (replay (records_of ops)) (apply_record-op op m h)
    ∙ replay-records_of ops (apply_to_memtable op.key op.entry m) hs

records_of-fit : (ops : List EngineOp) → All IsOp ops → All IsEncodable (records_of ops)
records_of-fit [] h = tt
records_of-fit (op ∷ ops) (h, hs) = (h.fits, records_of-fit ops hs)

All-append :
    (rs ss : List Record) → All IsEncodable rs → All IsEncodable ss → All IsEncodable (rs ++ ss)
All-append [] ss h k = k
All-append (r ∷ rs) ss (a, h) k = (a, All-append rs ss h k)

apply_record-IsDistinct :
    (r : Record) (m : Memtable)
    → IsDistinct m.entries
    → IsDistinct (apply_record_to_memtable r m).entries
unfolding apply_record_to_memtable apply_to_memtable
apply_record-IsDistinct r m h = by_entry (entry_of r)
  where
    by_entry :
        (o : Option Entry)
        → IsDistinct
            (elim o as (λ _. Memtable) [ none ↦ m | some x ↦ apply_to_memtable r.key x m ]).entries
    by_entry none = h
    by_entry (some x) = insert-IsDistinct r.key x m.entries h

replay-IsDistinct :
    (rs : List Record) (m : Memtable) → IsDistinct m.entries → IsDistinct (replay rs m).entries
unfolding replay
replay-IsDistinct [] m h = h
replay-IsDistinct (r ∷ rs) m h =
    replay-IsDistinct rs (apply_record_to_memtable r m) (apply_record-IsDistinct r m h)

-- What a record puts has an expiry that was read from 64 bits.
entry_of-expiry :
    (r : Record) (x : Entry)
    → entry_of r ≡ some x
    → from_unix_nano (unix_nano x.expires_at) ≡ x.expires_at
unfolding entry_of tombstone_at
entry_of-expiry r x h =
    ground
      (arith, h, from_unix_nano-again r.expires_at_unix_nano, from_unix_nano-again 0, zero_time)
  where
    zero_time : from_unix_nano (unix_nano 0) ≡ 0
    zero_time = (unfold unix_nano from_unix_nano in refl)

apply_record-KeepsTimes :
    (r : Record) (m : Memtable)
    → KeepsTimes m.entries
    → KeepsTimes (apply_record_to_memtable r m).entries
unfolding apply_record_to_memtable apply_to_memtable
apply_record-KeepsTimes r m h = elim (Option-cases (entry_of r)) [
  | inl unknown ↦
      subst
        (λ o.
          KeepsTimes
            (elim o as (λ _. Memtable) [ none ↦ m | some x ↦ apply_to_memtable r.key x m ]).entries)
        (sym unknown) h
  | inr (x, known) ↦
      subst
        (λ o.
          KeepsTimes
            (elim o as (λ _. Memtable) [ none ↦ m | some y ↦ apply_to_memtable r.key y m ]).entries)
        (sym known) (inserted x (entry_of-expiry r x known))
]
  where
    inserted :
        (x : Entry)
        → from_unix_nano (unix_nano x.expires_at) ≡ x.expires_at
        → KeepsTimes (insert r.key x m.entries)
    inserted x same k y found = elim (Bool-cases (bytes_eq r.key k)) [
      | inl here ↦ ground (arith, here, found, same, lookup-insert r.key k x m.entries)
      | inr other ↦ h k y (ground (arith, other, found, lookup-insert r.key k x m.entries))
    ]

replay-KeepsTimes :
    (rs : List Record) (m : Memtable) → KeepsTimes m.entries → KeepsTimes (replay rs m).entries
unfolding replay
replay-KeepsTimes [] m h = h
replay-KeepsTimes (r ∷ rs) m h =
    replay-KeepsTimes rs (apply_record_to_memtable r m) (apply_record-KeepsTimes r m h)

empty-KeepsTimes : KeepsTimes []
unfolding lookup
empty-KeepsTimes k x h = ground (arith, h)

is_empty : List (Key × Entry) → Bool
is_empty [] = true
is_empty (x ∷ m) = false

module _ (crc : Checksum) where
  pub IsDurable-IsDistinct :
      (rs : List Record) (e : Engine) → IsDurable crc rs e → IsDistinct e.memtable.entries
  IsDurable-IsDistinct rs e d =
      subst (λ m. IsDistinct m.entries) (sym d.table) (replay-IsDistinct rs empty_memtable tt)

  IsDurable-KeepsTimes :
      (rs : List Record) (e : Engine) → IsDurable crc rs e → KeepsTimes e.memtable.entries
  IsDurable-KeepsTimes rs e d =
      subst (λ m. KeepsTimes m.entries) (sym d.table)
        (replay-KeepsTimes rs empty_memtable empty-KeepsTimes)

  -- The log and the memtable of a batch before the test for a flush.
  written : List EngineOp → Engine → Engine
  unfolding Replay.append_batch apply_all
  written batch e = record e {
    wal_file = Replay.append_batch crc (records_of batch) e.wal_file;
    memtable = apply_all batch e.memtable;
  }

  written-IsDurable :
      (rs : List Record) (batch : List EngineOp) (e : Engine)
      → IsDurable crc rs e
      → All IsOp batch
      → IsDurable crc (rs ++ records_of batch) (written batch e)
  unfolding written Replay.append_batch
  written-IsDurable rs batch e d h = record {
    file =
        ap (λ f. f ++ write_all (codec crc) (records_of batch)) d.file
        ∙ sym (write_all-append (codec crc) rs (records_of batch));
    fits = All-append rs (records_of batch) d.fits (records_of-fit batch h);
    table =
        ap (apply_all batch) d.table
        ∙ (sym (replay-records_of batch (replay rs empty_memtable) h)
            ∙ sym (replay-append rs (records_of batch) empty_memtable));
  }

  cleared : (e : Engine) → e.wal_file ≡ [] → e.memtable ≡ empty_memtable → IsDurable crc [] e
  unfolding replay write_all
  cleared e f m = record { file = f; fits = tt; table = m }

  flush_nothing :
      (now : ℕ) (e : Engine) → is_empty e.memtable.entries ≡ true → flush_locked now e ≡ e
  unfolding flush_locked is_empty
  flush_nothing now e h = ground arith

  flush_something :
      (now : ℕ) (e : Engine)
      → is_empty e.memtable.entries ≡ false
      → ((flush_locked now e).wal_file ≡ []) × ((flush_locked now e).memtable ≡ empty_memtable)
  unfolding flush_locked is_empty flushed compact_locked Replay.reset
  flush_something now e h = (ground arith, ground arith)

  flush_locked-IsDurable :
      (now : ℕ) (rs : List Record) (e : Engine)
      → IsDurable crc rs e
      → (ss : List Record) × IsDurable crc ss (flush_locked now e)
  flush_locked-IsDurable now rs e d = elim (Bool-cases (is_empty e.memtable.entries)) [
    | inl empty ↦ (rs, subst (IsDurable crc rs) (sym (flush_nothing now e empty)) d)
    | inr some_left ↦
        let (f, m) = flush_something now e some_left in ([], cleared (flush_locked now e) f m)
  ]

  -- Processing a batch of queued writes keeps the invariant that the log holds exactly the records
  -- whose replay is the memtable, if the record of each queued write replays to what the write
  -- puts, as those of Put and Delete do for expiries that an int64 of nanoseconds holds, and fits
  -- the log's format, whether or not the batch brings a flush and a compaction.
  pub process_batch-IsDurable :
      (now : ℕ) (rs : List Record) (batch : List EngineOp) (e : Engine)
      → IsDurable crc rs e
      → All IsOp batch
      → (ss : List Record) × IsDurable crc ss (process_batch crc now batch e)
  unfolding process_batch maybe_flush_locked written
  process_batch-IsDurable now rs batch e d h =
      let w = written batch e in
      let dw = written-IsDurable rs batch e d h in
      elim (Bool-cases (ltb w.memtable.size w.opts.memtable_flush_threshold_bytes)) [
        | inl below ↦ (
          rs ++ records_of batch,
          subst (λ b. IsDurable crc (rs ++ records_of batch) (if b then w else flush_locked now w))
              (sym below) dw,
        )
        | inr above ↦
            let (ss, ds) = flush_locked-IsDurable now (rs ++ records_of batch) w dw in
            (ss, subst (λ b. IsDurable crc ss (if b then w else flush_locked now w)) (sym above) ds)
      ]

  -- Opening an engine on the tables and the log of one whose log and memtable agree reads every
  -- key as before.
  pub get-open_engine :
      (now : ℕ) (k : Key) (opts : Options) (rs : List Record) (e : Engine)
      → IsDurable crc rs e
      → get now k (open_engine crc opts e.sstables e.wal_file) ≡ get now k e
  unfolding get open_engine Replay.read_all
  get-open_engine now k opts rs e d =
      ap (λ m. check_found now (find_entry k m e.sstables))
        (ap (λ f. replay (LogCodec.read_all (codec crc) f) empty_memtable) d.file
          ∙ (ap (λ x. replay x empty_memtable) (Replay.read_all_written crc rs d.fits)
              ∙ sym d.table))

  -- If an engine whose log holds exactly the records whose replay is its memtable stops in a
  -- flush, with the new table in place and the log not emptied, an engine that is opened on what
  -- is there reads every key as before.
  pub get-open_engine_mid_flush :
      (now : ℕ) (k : Key) (opts : Options) (rs : List Record) (e : Engine)
      → IsDurable crc rs e
      → get now k (open_engine crc opts (e.sstables ++ frozen e ∷ []) e.wal_file) ≡ get now k e
  unfolding get open_engine Replay.read_all
  get-open_engine_mid_flush now k opts rs e d =
      ap (λ m. check_found now (find_entry k m (e.sstables ++ frozen e ∷ [])))
        (ap (λ f. replay (LogCodec.read_all (codec crc) f) empty_memtable) d.file
          ∙ (ap (λ x. replay x empty_memtable) (Replay.read_all_written crc rs d.fits)
              ∙ sym d.table))
      ∙ ap (check_found now) (find_entry-frozen e k (IsDurable-IsDistinct rs e d))

  -- After a batch of one write, with the flush and the compaction that it may bring, readers see
  -- its entry under its key and what they saw under any other.
  pub get-process_batch :
      (now later : ℕ) (k : Key) (rs : List Record) (op : EngineOp) (e : Engine)
      → now ≤ later
      → IsDurable crc rs e
      → IsOp op
      → get later k (process_batch crc now (op ∷ []) e)
        ≡ check_found later
            (if bytes_eq op.key k then some op.entry else find_entry k e.memtable e.sstables)
  unfolding process_batch written get apply_all apply_to_memtable find_entry
  get-process_batch now later k rs op e h d o =
      let after = written-IsDurable rs (op ∷ []) e d (o, tt) in
      get-maybe_flush_locked now later k (written (op ∷ []) e) h
        (IsDurable-IsDistinct (rs ++ records_of (op ∷ [])) (written (op ∷ []) e) after)
        (IsDurable-KeepsTimes (rs ++ records_of (op ∷ [])) (written (op ∷ []) e) after)
      ∙ ap (check_found later) (ground (arith, lookup-insert op.key k op.entry e.memtable.entries))
