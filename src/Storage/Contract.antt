-- ===== src/Storage/Contract.antt =====
-- internal/storage/storage.go: the contract of an engine. `Put` and `Delete` keep the durable engine
-- in agreement with the one in memory.
use boiler_pulse.Prelude.{
  ℕ, ◌+◌, ◌≤◌, ◌<◌, ◌^◌, ◌≡◌, ◌≢◌, ◌↔◌, refl, sym, ap, ◌∙◌, Bool, true, false, List, [], Option,
  none, some, arith, if◌then◌else◌, u64, length,
}
use mathlib.Core.Bool.{false≢true}
use boiler_pulse.Bytes.{bytes_eq}
use boiler_pulse.Bytes.Frame.{Checksum}
use boiler_pulse.Wal.Record.{Record}
use boiler_pulse.Storage.{Entry, checked_entry, expired}
use boiler_pulse.Storage.Table.{Key}
use boiler_pulse.Storage.MemStore
use boiler_pulse.Storage.MemStore.{MemStore, new_entry, get-put_mem, get-delete_mem}
use boiler_pulse.Storage.Lsm
use boiler_pulse.Storage.Lsm.{Engine, check_found, stored_entry, expiry, op_round}
use boiler_pulse.Storage.Lsm.Durable.{IsDurable}
use boiler_pulse.Storage.Lsm.Client.{Fits, get-queued_put, put-queued, get-delete}

-- What the callers above the storage package use of an entry: all but its version.
abbrev pub view : Option Entry → Option (List ℕ × List ℕ × ℕ)
view none = none
view (some e) = some (e.value, e.consistency, e.expires_at)

-- From a time on, the engines read alike.
abbrev pub Agree : ℕ → Engine → MemStore → Type 0
Agree now e m =
    (later : ℕ) (k : Key) → now ≤ later → view (Lsm.get later k e) ≡ view (MemStore.get later k m)

some≢none : {A : Type 0} {a : A} → some a ≢ none
some≢none {A} h = false≢true (ap is_none h)
  where
    is_none : Option A → Bool
    is_none none = true
    is_none (some a) = false

module _ (crc : Checksum) where
  -- If the durable engine and the one in memory read alike but for versions from a time on, the
  -- durable one queues the same Put at that time and they still read alike once opLoop has taken
  -- it, if the fields fit the log's format, the time is past 1970, an int64 of nanoseconds holds
  -- the expiry, the durable engine's log and memtable agree, no write waits in it, and its clock
  -- has not gone back.
  pub put-Agree :
      (now taken : ℕ) (key : Key) (value consistency : List ℕ) (ttl : ℕ) (rs : List Record)
      (e : Engine) (m : MemStore)
      → now ≤ taken
      → Agree now e m
      → IsDurable crc rs e
      → e.queue ≡ []
      → Fits now key value consistency ttl e.next_seq
      → (waiting : Engine) × (Lsm.put now key value consistency ttl e ≡ some waiting)
        × Agree taken (op_round crc taken waiting) (MemStore.put now key value consistency ttl m)
  put-Agree now taken key value consistency ttl rs e m le agree d empty f = (
    Lsm.queued (Lsm.put_op now key value consistency ttl e.next_seq) e,
    put-queued crc now key value consistency ttl e empty,
    λ later k h.
        ap view (get-queued_put crc now taken later k key value consistency ttl rs e h d empty f)
        ∙ (same later k h (bytes_eq key k)
            ∙ sym (ap view (get-put_mem now later key k value consistency ttl m))),
  )
    where
      same :
          (later : ℕ) (k : Key)
          → taken ≤ later
          → (b : Bool)
          → view (
              if b
              then check_found later
                  (some (stored_entry value consistency (expiry now ttl) e.next_seq))
              else Lsm.get later k e)
            ≡ view (
                if b
                then checked_entry later (new_entry now value consistency ttl (u64 (m.version + 1)))
                else MemStore.get later k m)
      same later k h true =
          (unfold check_found checked_entry expired stored_entry expiry new_entry in ground arith)
      same later k h false = agree later k (omega arith)

  -- If the durable engine and the one in memory read alike but for versions from a time on, they
  -- still do after both accept a Delete of the same key at that time and opLoop has taken it, if
  -- the fields fit the log's format, the durable engine's log and memtable agree, no write waits
  -- in it, and its clock has not gone back.
  pub delete-Agree :
      (now taken : ℕ) (key : Key) (rs : List Record) (e waiting : Engine) (m after : MemStore)
      → now ≤ taken
      → Agree now e m
      → IsDurable crc rs e
      → e.queue ≡ []
      → length key < 2 ^ 16
      → e.next_seq < 2 ^ 64
      → Lsm.delete now key e ≡ some (some waiting)
      → MemStore.delete now key m ≡ some after
      → Agree taken (op_round crc taken waiting) after
  delete-Agree now taken key rs e waiting m after le agree d empty l s queued deleted later k h =
      ap view (get-delete crc now taken later k key rs e waiting h d empty l s queued)
      ∙ (same (bytes_eq key k) ∙ sym (ap view (get-delete_mem now later key k m after deleted)))
    where
      same :
          (b : Bool)
          → view (if b then none else Lsm.get later k e)
            ≡ view (if b then none else MemStore.get later k m)
      same true = refl
      same false = agree later k (omega arith)

-- If the durable engine and the one in memory read alike but for versions from a time on, one of
-- them refuses a Delete at that time exactly if the other does.
pub delete-refused_iff :
    (now : ℕ) (key : Key) (e : Engine) (m : MemStore)
    → Agree now e m
    → (Lsm.delete now key e ≡ none) ↔ (MemStore.delete now key m ≡ none)
unfolding Lsm.delete MemStore.delete
delete-refused_iff now key e m agree =
    by_reading (Lsm.get now key e) (MemStore.get now key m) (agree now key (omega arith))
  where
    by_reading :
        (x y : Option Entry)
        → view x ≡ view y
        → (elim x as (λ _. Option (Option Engine)) [
          | none ↦ none
          | some _ ↦ some (Lsm.enqueue (Lsm.delete_op now key e.next_seq) e)
        ]
            ≡ none)
          ↔ (elim y as (λ _. Option MemStore) [
            | none ↦ none
            | some _ ↦ some (MemStore.tombstoned key m)
          ]
              ≡ none)
    by_reading none none h = (λ _. refl, λ _. refl)
    by_reading none (some y) h = absurd (some≢none (sym h))
    by_reading (some x) none h = absurd (some≢none h)
    by_reading (some x) (some y) h = (λ p. absurd (some≢none p), λ p. absurd (some≢none p))
