-- ===== src/Storage/SsTable/File.antt =====
-- internal/storage/sstable: writer.go and table.go on the bytes of a file. Reads of the disk succeed.
pub mod Index
pub mod Lookup
mod Runs
use boiler_pulse.Prelude.{
  ℕ, zero, suc, ◌+◌, ◌-◌, ◌^◌, Bool, true, false, List, [], ◌∷◌, ◌++◌, Option, none, some,
  if◌then◌else◌, ltb, leb, ◌==◌, length, take, drop,
}
use boiler_pulse.Bytes.{
  Result, ok, err, eof, unexpected_eof, corrupt, be, read_uint, read_full, ◌>>=◌,
}
use boiler_pulse.Storage.Table.{Key, lookup, insert}
use boiler_pulse.Storage.SsTable.{SstEntry, encode_entry, decode_entry}

-- "BPST".
abbrev pub magic : ℕ
magic = 1_112_560_468

abbrev pub footer_size : ℕ
footer_size = 28

unfoldable pub data_block : List (Key × SstEntry) → List ℕ
unfolding encode_entry
data_block [] = []
data_block ((k, e) ∷ es) = encode_entry k e ++ data_block es

-- The index: the offset of each entry in the data block.
unfoldable pub index_from : ℕ → List (Key × SstEntry) → List (Key × ℕ)
unfolding encode_entry
index_from offset [] = []
index_from offset ((k, e) ∷ es) = (k, offset) ∷ index_from (offset + length (encode_entry k e)) es

unfoldable pub encode_index : List (Key × ℕ) → List ℕ
encode_index [] = []
encode_index ((k, offset) ∷ ies) = be 2 (length k) ++ (k ++ (be 8 offset ++ encode_index ies))

unfoldable pub footer : ℕ → ℕ → ℕ → List ℕ
footer index_offset index_len count =
    be 8 index_offset ++ (be 8 index_len ++ (be 8 count ++ be 4 magic))

-- `WriteSorted`: the bytes of the file.
unfoldable pub write_sorted : List (Key × SstEntry) → List ℕ
unfolding data_block index_from encode_index footer
write_sorted es =
    let block = data_block es in
    let index = encode_index (index_from 0 es) in
    block ++ (index ++ footer (length block) (length index) (length es))

pub record FileTable : Type 0 where
  pub file : List ℕ
  pub index : List (Key × ℕ)
  pub index_offset : ℕ
  pub count : ℕ

-- `invalid` is an error of `Open`, `panicked` a slice out of range.
pub data Opened : Type 0 where
  opened : FileTable → Opened
  invalid panicked : Opened

-- An entry of the index; `none` is a slice out of range.
unfoldable pub read_index_entry : List ℕ → Result ((Key × ℕ) × List ℕ)
read_index_entry input = do
  (key_len, in1) ← read_uint 2 input
  (key, in2) ← read_full key_len in1
  (offset, rest) ← read_uint 8 in2
  ok ((key, offset), rest)

-- On fuel: an entry takes 10 bytes at least.
unfoldable pub read_index : ℕ → List ℕ → List (Key × ℕ) → Option (List (Key × ℕ))
unfolding read_index_entry
read_index fuel [] index = some index
read_index zero (b ∷ bs) index = none
read_index (suc fuel) (b ∷ bs) index = elim (read_index_entry (b ∷ bs)) [
  | err e ↦ none
  | ok ((key, offset), rest) ↦ read_index fuel rest (insert key offset index)
]

-- `Open` after the footer was read.
unfoldable pub open_index : List ℕ → ℕ → ℕ → ℕ → Opened
unfolding read_index
open_index file index_offset index_len count =
    let bytes = take index_len (drop index_offset file) in
    if ltb (length bytes) index_len then invalid else elim (read_index index_len bytes []) [
      | none ↦ panicked
      | some index ↦
          opened (record { file = file; index = index; index_offset = index_offset; count = count })
    ]

unfoldable pub read_footer : List ℕ → Result (ℕ × ℕ × ℕ × ℕ)
read_footer bytes = do
  (index_offset, in1) ← read_uint 8 bytes
  (index_len, in2) ← read_uint 8 in1
  (count, in3) ← read_uint 8 in2
  (got_magic, rest) ← read_uint 4 in3
  ok (index_offset, index_len, count, got_magic)

-- `Open` on the bytes of a file.
unfoldable pub open_file : List ℕ → Opened
unfolding read_footer open_index
open_file file =
    if ltb (length file) footer_size
    then invalid
    else elim (read_footer (drop (length file - footer_size) file)) [
      | err e ↦ invalid
      | ok (index_offset, index_len, count, got_magic) ↦
          if got_magic == magic then open_index file index_offset index_len count else invalid
    ]

-- `Table.Get`: `none` for a key that the table does not have.
unfoldable pub get : Key → FileTable → Result (Option SstEntry)
unfolding decode_entry
get k t = elim (lookup k t.index) [
  | none ↦ ok none
  | some offset ↦ elim (decode_entry (take (t.index_offset - offset) (drop offset t.file))) [
    | err e ↦ err e
    | ok ((key, e), rest) ↦ ok (some e)
  ]
]

-- The entries up to the end of the block, on fuel: an entry takes a byte at least.
unfoldable pub iterate_block : ℕ → List ℕ → Result (List (Key × SstEntry))
unfolding decode_entry
iterate_block zero bytes = err corrupt
iterate_block (suc fuel) bytes = elim (decode_entry bytes) [
  | err eof ↦ ok []
  | err unexpected_eof ↦ err unexpected_eof
  | err corrupt ↦ err corrupt
  | ok (x, rest) ↦ elim (iterate_block fuel rest) [ err e ↦ err e | ok xs ↦ ok (x ∷ xs) ]
]

-- `Iterate`.
unfoldable pub iterate : FileTable → Result (List (Key × SstEntry))
unfolding iterate_block
iterate t = iterate_block (suc t.index_offset) (take t.index_offset t.file)
