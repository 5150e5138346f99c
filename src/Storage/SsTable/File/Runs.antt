-- ===== src/Storage/SsTable/File/Runs.antt =====
-- internal/storage/sstable: the theorem on a file of two entries.
use boiler_pulse.Prelude.{◌≡◌, refl, true, false, List, [], ◌∷◌, arith, length}
use boiler_pulse.Bytes.{ok, be}
use boiler_pulse.Storage.Table.{Key}
use boiler_pulse.Storage.SsTable
use boiler_pulse.Storage.SsTable.{SstEntry, SsTable, IsWritable, encode_entry}
use boiler_pulse.Storage.SsTable.File
use boiler_pulse.Storage.SsTable.File.{
  FileTable, opened, open_file, write_sorted, iterate, data_block, encode_index, index_from, footer,
}
use boiler_pulse.Storage.SsTable.File.Lookup.{get-open_file}

abbrev value_one : SstEntry
value_one = record {
  value = 1 ∷ [];
  consistency = [];
  expires_at_unix_nano = 0;
  tombstone = false;
  version = 3;
}

abbrev gone : SstEntry
gone = record {
  value = [];
  consistency = [];
  expires_at_unix_nano = 0;
  tombstone = true;
  version = 4;
}

abbrev entries : List (Key × SstEntry)
entries = (107 ∷ [], value_one) ∷ (108 ∷ [], gone) ∷ []

short : length (write_sorted entries) ≡ 101
unfolding write_sorted data_block encode_entry encode_index index_from footer be
short = refl

get-open_file_example :
    (t : FileTable) × (open_file (write_sorted entries) ≡ opened t)
    × (File.get (108 ∷ []) t
        ≡ ok (SsTable.get (108 ∷ []) (record { number = 1; entries = entries })))
    × (iterate t ≡ ok entries)
get-open_file_example =
    get-open_file (108 ∷ []) 1 entries (one, (two, tt)) (omega arith) (omega (arith, short))
  where
    one : IsWritable (107 ∷ []) value_one
    one = record {
      key_length = omega arith;
      consistency = omega arith;
      expires = omega arith;
      version = omega arith;
      value = omega arith;
    }

    two : IsWritable (108 ∷ []) gone
    two = record {
      key_length = omega arith;
      consistency = omega arith;
      expires = omega arith;
      version = omega arith;
      value = omega arith;
    }
