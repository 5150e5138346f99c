-- ===== src/Storage/Lsm/Client.antt =====
-- What the callers of `Put` and `Delete` are promised (internal/storage/lsm/engine.go), once `opLoop`
-- has taken their write.
use boiler_pulse.Prelude.{
  ℕ, ◌+◌, ◌≤◌, ◌<◌, ◌^◌, ◌≡◌, refl, ap, ◌∙◌, List, [], ◌∷◌, ◌++◌, none, some, arith, if◌then◌else◌,
  length, u64,
}
use boiler_pulse.Bytes.{bytes_eq}
use boiler_pulse.Bytes.Frame.{Checksum}
use boiler_pulse.Wal.Record.{Record}
use boiler_pulse.Storage.{
  checked_entry, unix_nano, from_unix_nano, unix_nano-lt, from_unix_nano-unix_nano,
}
use boiler_pulse.Storage.Table.{Key}
use boiler_pulse.Storage.Lsm.{
  Engine, EngineOp, entry_of, find_entry, check_found, get, put, put_op, delete, delete_op, enqueue,
  queued, op_round, expiry, stored_entry, tombstone_at,
}
use boiler_pulse.Storage.Lsm.Durable.{IsDurable, IsOp, get-process_batch}

-- The fields of a `Put` fit the log's format; the clock is past 1970, and the expiry, if there is
-- one, fits the int64 of the log.
pub record Fits (now : ℕ) (key : Key) (value consistency : List ℕ) (ttl seq : ℕ) : Type 0 where
  pub key_length : length key < 2 ^ 16
  pub consistency_length : length consistency < 2 ^ 8
  pub value_length : length value < 2 ^ 31
  pub clock : 2 ^ 63 < now
  pub expiry_range : now + ttl ≤ 2 ^ 64
  pub seq_range : seq < 2 ^ 64

expiry-unix_nano :
    (now ttl : ℕ)
    → 2 ^ 63 < now
    → now + ttl ≤ 2 ^ 64
    → from_unix_nano (unix_nano (expiry now ttl)) ≡ expiry now ttl
unfolding expiry
expiry-unix_nano now ttl l h = ground (arith, from_unix_nano-unix_nano (now + ttl), zero_time)
  where
    zero_time : from_unix_nano (unix_nano 0) ≡ 0
    zero_time = (unfold unix_nano from_unix_nano in refl)

pub put_op-IsOp :
    (now : ℕ) (key : Key) (value consistency : List ℕ) (ttl seq : ℕ)
    → Fits now key value consistency ttl seq
    → IsOp (put_op now key value consistency ttl seq)
unfolding put_op entry_of
put_op-IsOp now key value consistency ttl seq f = record {
  same_key = refl;
  same_entry =
      (unfold stored_entry in
        ap (λ t. some (stored_entry value consistency t seq))
          (expiry-unix_nano now ttl f.clock f.expiry_range));
  fits = record {
    seq = f.seq_range;
    op = omega arith;
    timestamp = unix_nano-lt now;
    expires = unix_nano-lt (expiry now ttl);
    key = f.key_length;
    consistency = f.consistency_length;
    value = f.value_length;
  };
}

pub delete_op-IsOp :
    (now : ℕ) (key : Key) (seq : ℕ)
    → length key < 2 ^ 16
    → seq < 2 ^ 64
    → IsOp (delete_op now key seq)
unfolding delete_op entry_of
delete_op-IsOp now key seq h s = record {
  same_key = refl;
  same_entry = refl;
  fits = record {
    seq = s;
    op = omega arith;
    timestamp = unix_nano-lt now;
    expires = omega arith;
    key = h;
    consistency = omega arith;
    value = omega arith;
  };
}

module _ (crc : Checksum) where
  -- A write that finds the channel empty is queued.
  enqueue_empty : (op : EngineOp) (e : Engine) → e.queue ≡ [] → enqueue op e ≡ some (queued op e)
  unfolding enqueue
  enqueue_empty op e empty = rw empty refl

  -- One round of `opLoop` takes one waiting write.
  round_of :
      (now later : ℕ) (k : Key) (rs : List Record) (op : EngineOp) (e : Engine)
      → now ≤ later
      → IsDurable crc rs e
      → e.queue ≡ []
      → IsOp op
      → get later k (op_round crc now (queued op e))
        ≡ check_found later
            (if bytes_eq op.key k then some op.entry else find_entry k e.memtable e.sstables)
  unfolding op_round queued
  round_of now later k rs op e h d empty o =
      let same : queued op e ≡ record e { next_seq = u64 (e.next_seq + 1); queue = op ∷ [] } =
        ap (λ q. record e { next_seq = u64 (e.next_seq + 1); queue = q ++ op ∷ [] }) empty in
      ap (λ x. get later k (op_round crc now x)) same
      ∙ get-process_batch crc now later k rs op
          (record e { next_seq = u64 (e.next_seq + 1); queue = [] }) h
          (record { file = d.file; fits = d.fits; table = d.table }) o

  -- What is read after the round that takes a Put.
  pub get-queued_put :
      (now taken later : ℕ) (k key : Key) (value consistency : List ℕ) (ttl : ℕ) (rs : List Record)
      (e : Engine)
      → taken ≤ later
      → IsDurable crc rs e
      → e.queue ≡ []
      → Fits now key value consistency ttl e.next_seq
      → get later k
          (op_round crc taken (queued (put_op now key value consistency ttl e.next_seq) e))
        ≡ (if bytes_eq key k
            then check_found later
                (some (stored_entry value consistency (expiry now ttl) e.next_seq))
            else get later k e)
  unfolding get put_op
  get-queued_put now taken later k key value consistency ttl rs e h d empty f =
      round_of taken later k rs (put_op now key value consistency ttl e.next_seq) e h d empty
        (put_op-IsOp now key value consistency ttl e.next_seq f)
      ∙ (ground arith)

  pub put-queued :
      (now : ℕ) (key : Key) (value consistency : List ℕ) (ttl : ℕ) (e : Engine)
      → e.queue ≡ []
      → put now key value consistency ttl e
        ≡ some (queued (put_op now key value consistency ttl e.next_seq) e)
  unfolding put
  put-queued now key value consistency ttl e empty =
      enqueue_empty (put_op now key value consistency ttl e.next_seq) e empty

  -- On an engine whose log and memtable agree and where no write waits, for a Put whose fields fit
  -- the log's format, at a time past 1970 and with an expiry that an int64 of nanoseconds holds:
  -- the Put is queued, and from the round of opLoop that takes it on, the key reads as what was
  -- put until it expires and every other key reads as before, also when the round flushes the
  -- memtable and compacts the tables.
  pub get-put :
      (now taken later : ℕ) (k key : Key) (value consistency : List ℕ) (ttl : ℕ) (rs : List Record)
      (e : Engine)
      → taken ≤ later
      → IsDurable crc rs e
      → e.queue ≡ []
      → Fits now key value consistency ttl e.next_seq
      → (waiting : Engine) × (put now key value consistency ttl e ≡ some waiting)
        × (get later k (op_round crc taken waiting) ≡ (
            if bytes_eq key k
            then check_found later
                (some (stored_entry value consistency (expiry now ttl) e.next_seq))
            else get later k e))
  get-put now taken later k key value consistency ttl rs e h d empty f = (
    queued (put_op now key value consistency ttl e.next_seq) e,
    put-queued now key value consistency ttl e empty,
    get-queued_put now taken later k key value consistency ttl rs e h d empty f,
  )

  -- On an engine whose log and memtable agree and where no write waits, for an accepted Delete
  -- whose fields fit the log's format: from the round of opLoop that takes it on, the key is not
  -- found and every other key reads as before.
  pub get-delete :
      (now taken later : ℕ) (k key : Key) (rs : List Record) (e waiting : Engine)
      → taken ≤ later
      → IsDurable crc rs e
      → e.queue ≡ []
      → length key < 2 ^ 16
      → e.next_seq < 2 ^ 64
      → delete now key e ≡ some (some waiting)
      → get later k (op_round crc taken waiting) ≡ (if bytes_eq key k then none else get later k e)
  unfolding delete_op tombstone_at
  get-delete now taken later k key rs e waiting h d empty l s deleted =
      let same : waiting ≡ queued (delete_op now key e.next_seq) e =
        (unfold delete in
          ground (arith, deleted, enqueue_empty (delete_op now key e.next_seq) e empty)) in
      ap (λ w. get later k (op_round crc taken w)) same
      ∙ (round_of taken later k rs (delete_op now key e.next_seq) e h d empty
            (delete_op-IsOp now key e.next_seq l s)
          ∙ gone)
    where
      gone :
          check_found later (
            if bytes_eq key k
            then some (tombstone_at e.next_seq)
            else find_entry k e.memtable e.sstables)
          ≡ (if bytes_eq key k then none else get later k e)
      gone = (unfold check_found tombstone_at get checked_entry in ground arith)
