-- ===== src/Wal/Runs.antt =====
-- internal/storage/wal: tests, and the theorems at concrete inputs, with a checksum that is always 0.
use boiler_pulse.Prelude.{ℕ, ◌<◌, ◌≤◌, ◌+◌, ◌≡◌, [], ◌∷◌, ◌++◌, arith, length, take, suc}
use mathlib.Core.List.{flatten}
use boiler_pulse.Bytes.{be}
use boiler_pulse.Bytes.Frame.{Checksum, frame}
use boiler_pulse.Bytes.LogCodec.{write_all}
use boiler_pulse.Wal.Record.{Record, IsEncodable, encode, encode_payload}
use boiler_pulse.Wal.Replay.{
  append_batch, append_batches, read_all, read_all_torn, append_batch_after_torn,
}

abbrev pub zero_sum : Checksum
zero_sum = record { sum = λ bs. 0; sum-lt = λ bs. omega arith }

abbrev pub set_a : Record
set_a = record {
  seq = 7;
  op = 1;
  timestamp = 5;
  expires_at_unix_nano = 0;
  key = 97 ∷ [];
  consistency = 83 ∷ [];
  value = 1 ∷ 2 ∷ [];
}

pub set_a_fits : IsEncodable set_a
set_a_fits = record {
  seq = omega arith;
  op = omega arith;
  timestamp = omega arith;
  expires = omega arith;
  key = omega arith;
  consistency = omega arith;
  value = omega arith;
}

written_length : 45 < length (append_batches zero_sum ((set_a ∷ []) ∷ (set_a ∷ []) ∷ []) [])
unfolding append_batches append_batch write_all encode frame encode_payload be
written_length = omega arith

read_all_torn_example :
    (j : ℕ) × (read_all zero_sum
        (take 45 (append_batches zero_sum ((set_a ∷ []) ∷ (set_a ∷ []) ∷ []) []))
      ≡ take j (set_a ∷ set_a ∷ []))
    × (j < 2)
    × (length (append_batch zero_sum (take j (set_a ∷ set_a ∷ [])) []) ≤ 45)
    × (45 < length (append_batch zero_sum (take (suc j) (set_a ∷ set_a ∷ [])) []))
unfolding flatten
read_all_torn_example =
    read_all_torn zero_sum ((set_a ∷ []) ∷ (set_a ∷ []) ∷ []) 45 (set_a_fits, (set_a_fits, tt))
      written_length

-- A record whose value is long enough to swallow the next one.
abbrev long : Record
long = record set_a {
  value = 1 ∷ 2 ∷ 3 ∷ 4 ∷ 5 ∷ 6 ∷ 7 ∷ 8 ∷ 9 ∷ 10 ∷ 1 ∷ 2 ∷ 3 ∷ 4 ∷ 5 ∷ 6 ∷ 7 ∷ 8 ∷ 9 ∷ 10 ∷ [];
}

long_fits : IsEncodable long
long_fits = record {
  seq = omega arith;
  op = omega arith;
  timestamp = omega arith;
  expires = omega arith;
  key = omega arith;
  consistency = omega arith;
  value = omega arith;
}

swallowed :
    length (take 4 (encode zero_sum long)) + length (append_batch zero_sum (set_a ∷ []) [])
    < 4 + length (encode_payload long)
unfolding append_batch write_all encode frame encode_payload be
swallowed = omega arith

append_batch_after_torn_example :
    read_all zero_sum (
      append_batch zero_sum
        (set_a ∷ [])
        (append_batches zero_sum ((set_a ∷ []) ∷ []) [] ++ take 4 (encode zero_sum long)))
    ≡ set_a ∷ []
unfolding flatten
append_batch_after_torn_example =
    append_batch_after_torn zero_sum ((set_a ∷ []) ∷ []) long 4 (set_a ∷ []) (set_a_fits, tt)
      long_fits (omega arith) swallowed
