-- ===== src/Storage/SsTable.antt =====
-- internal/storage/sstable: an entry of a sorted file, its byte format, and a table that is open.
pub mod File
use boiler_pulse.Prelude.{
  ℕ, ◌<◌, ◌^◌, ◌≡◌, Bool, true, false, List, ◌++◌, [], arith, length, Option, if◌then◌else◌, ◌==◌,
  ap, append_assoc, refl,
}
use boiler_pulse.Bytes.{Result, ok, ◌>>=◌, be, read_full, read_uint, read_uint-be, read_full-append}
use boiler_pulse.Storage.Table.{Key, lookup}
use boiler_pulse.Storage.Table.Overlay.{overlay}

-- `sstable.Entry` without its key, which stands beside it. 0 means no expiry.
pub record SstEntry : Type 0 where
  pub value : List ℕ
  pub consistency : List ℕ
  pub expires_at_unix_nano : ℕ
  pub tombstone : Bool
  pub version : ℕ

-- An open table: the number in its file name, and the entries of its data block. The bytes of the
-- file are in SsTable/File.
pub record SsTable : Type 0 where
  pub number : ℕ
  pub entries : List (Key × SstEntry)

-- `Table.Get`. The index is built in the file's order, so the last entry of a key counts.
unfoldable pub get : Key → SsTable → Option SstEntry
get k t = lookup k (overlay t.entries [])

unfoldable pub encode_entry : Key → SstEntry → List ℕ
encode_entry key e =
    be 2 (length key)
    ++ (key
        ++ (be 1 (if e.tombstone then 1 else 0)
            ++ (be 1 (length e.consistency)
                ++ (e.consistency
                    ++ (be 8 e.expires_at_unix_nano
                        ++ (be 8 e.version ++ (be 4 (length e.value) ++ e.value)))))))

unfoldable pub decode_entry : List ℕ → Result ((Key × SstEntry) × List ℕ)
decode_entry input = do
  (key_len, in1) ← read_uint 2 input
  (key, in2) ← read_full key_len in1
  (tomb, in3) ← read_uint 1 in2
  (cons_len, in4) ← read_uint 1 in3
  (consistency, in5) ← read_full cons_len in4
  (expires, in6) ← read_uint 8 in5
  (version, in7) ← read_uint 8 in6
  (value_len, in8) ← read_uint 4 in7
  (value, rest) ← read_full value_len in8
  ok (
    (
      key,
      record {
        value = value;
        consistency = consistency;
        expires_at_unix_nano = expires;
        tombstone = tomb == 1;
        version = version;
      },
    ),
    rest,
  )

-- The ranges of the fields in Go, and the lengths that the format has room for.
pub record IsWritable (key : Key) (e : SstEntry) : Type 0 where
  pub key_length : length key < 2 ^ 16
  pub consistency : length e.consistency < 2 ^ 8
  pub expires : e.expires_at_unix_nano < 2 ^ 64
  pub version : e.version < 2 ^ 64
  pub value : length e.value < 2 ^ 32

-- An entry of a sorted file whose fields fit the format is decoded from its encoding, with what
-- follows it left over.
pub decode_entry-encode_entry :
    (key : Key) (e : SstEntry) (rest : List ℕ)
    → IsWritable key e
    → decode_entry (encode_entry key e ++ rest) ≡ ok ((key, e), rest)
unfolding decode_entry encode_entry
decode_entry-encode_entry key e rest v =
    simp
      (
        append_assoc, read_uint-be, read_full-append, v.key_length, v.consistency, v.expires,
        v.version, value_fits, flag_fits,
      )
      (ap
        (λ b. ok (
          (
            key,
            record {
              value = e.value;
              consistency = e.consistency;
              expires_at_unix_nano = e.expires_at_unix_nano;
              tombstone = b;
              version = e.version;
            },
          ),
          rest,
        ))
        (flag e.tombstone))
  where
    value_fits : length e.value < 256 ^ 4
    value_fits = omega (arith, v.value)

    flag_fits : (if e.tombstone then 1 else 0) < 256 ^ 1
    flag_fits = ground arith

    flag : (b : Bool) → ((if b then 1 else 0) == 1) ≡ b
    flag true = refl
    flag false = refl
