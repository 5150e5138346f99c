-- ===== src/Storage.antt =====
-- internal/storage/storage.go: entries and the contract of a storage engine. A time is counted in
-- nanoseconds so that 1 is the first instant whose `UnixNano` an int64 holds, 2^63 ns before 1970,
-- and 2^64 the last one; later times are not bounded. 0 is the zero time, which means no expiry.
pub mod Table
pub mod SsTable
pub mod MemStore
pub mod Lsm
pub mod Contract
pub mod StateMachine
mod Runs
use boiler_pulse.Prelude.{
  ℕ, Bool, true, false, not, List, [], ◌∷◌, ltb, ◌==◌, ◌&&◌, Option, none, some, if◌then◌else◌,
  ◌||◌, ◌+◌, ◌-◌, ◌^◌, ◌≡◌, ◌<◌, ◌≤◌, u64, arith,
}

pub record Entry : Type 0 where
  pub value : List ℕ
  pub consistency : List ℕ
  pub expires_at : ℕ
  pub tombstone : Bool
  pub version : ℕ

unfoldable pub expired : Entry → ℕ → Bool
expired e now = not (e.expires_at == 0) && ltb e.expires_at now

-- `t.UnixNano()` as the 64 bits of an int64, which wraps for a time past 2^64; 0 for the zero time,
-- for which the callers do not call it.
unfoldable pub unix_nano : ℕ → ℕ
unix_nano t = if t == 0 then 0 else u64 (t + (2 ^ 63 - 1))

-- `time.Unix(0, n)` for the 64 bits of an int64 that is not 0; the callers read 0 as no expiry.
unfoldable pub from_unix_nano : ℕ → ℕ
from_unix_nano n = if u64 n == 0 then 0 else u64 (n + 2 ^ 63) + 1

-- `none` is ErrKeyNotFound.
unfoldable pub checked_entry : ℕ → Entry → Option Entry
unfolding expired
checked_entry now e = if e.tombstone || expired e now then none else some e

-- `strings.HasPrefix(key, prefix)`.
unfoldable pub has_prefix : List ℕ → List ℕ → Bool
has_prefix [] key = true
has_prefix (x ∷ prefix) [] = false
has_prefix (x ∷ prefix) (y ∷ key) =
    let rest = has_prefix prefix key in if x == y then rest else false

-- What `Scan` keeps of what it has merged.
unfoldable pub is_live : ℕ → List ℕ → Entry → Bool
unfolding expired
is_live now key e = not (e.tombstone || expired e now)

pub unix_nano-lt : (t : ℕ) → unix_nano t < 2 ^ 64
unfolding unix_nano
unix_nano-lt t = ground arith

-- A time after 1970 that an int64 holds is read back.
pub from_unix_nano-unix_nano :
    (t : ℕ) → 2 ^ 63 + 1 < t → t ≤ 2 ^ 64 → from_unix_nano (unix_nano t) ≡ t
unfolding unix_nano from_unix_nano
from_unix_nano-unix_nano t l h = ground arith

-- What has been read back once is read back again.
pub from_unix_nano-again :
    (n : ℕ) → from_unix_nano (unix_nano (from_unix_nano n)) ≡ from_unix_nano n
unfolding unix_nano from_unix_nano
from_unix_nano-again n = ground arith
