-- ===== src/Storage/SsTable/File/Index.antt =====
-- internal/storage/sstable: Open reads back the index that WriteSorted wrote.
use boiler_pulse.Prelude.{
  ℕ, zero, suc, ◌+◌, ◌-◌, ◌^◌, ◌≤◌, ◌<◌, ◌≡◌, refl, sym, ap, ◌∙◌, false, List, [], ◌∷◌, ◌++◌, some,
  arith, ltb, length, take, drop, All, append_assoc, append-nil, length-append, take-length_append,
  drop-length_append,
}
use boiler_pulse.Bytes.{ok, be, read_uint-be, read_full-append, length-be}
use boiler_pulse.Storage.Table.{Key, insert}
use boiler_pulse.Storage.Table.Overlay.{overlay}
use boiler_pulse.Storage.SsTable.{SstEntry, encode_entry, IsWritable}
use boiler_pulse.Storage.SsTable.File.{
  magic, footer_size, data_block, index_from, encode_index, footer, write_sorted, FileTable, opened,
  read_index_entry, read_index, open_index, read_footer, open_file,
}

abbrev pub AllWritable : List (Key × SstEntry) → Type 0
AllWritable es = All (λ x. IsWritable x.0 x.1) es

-- An entry of the index fits the format.
abbrev pub AllFit : List (Key × ℕ) → Type 0
AllFit ies = All (λ x. (length x.0 < 2 ^ 16) × (x.1 < 2 ^ 64)) ies

read_index_entry_lem :
    (k : Key) (offset : ℕ) (rest : List ℕ)
    → length k < 2 ^ 16
    → offset < 2 ^ 64
    → read_index_entry (be 2 (length k) ++ (k ++ (be 8 offset ++ rest))) ≡ ok ((k, offset), rest)
unfolding read_index_entry
read_index_entry_lem k offset rest h o =
    simp (read_uint-be, read_full-append, key_fits, offset_fits) refl
  where
    key_fits : length k < 256 ^ 2
    key_fits = omega (arith, h)

    offset_fits : offset < 256 ^ 8
    offset_fits = omega (arith, o)

read_index_step :
    (fuel : ℕ) (bs : List ℕ) (index : List (Key × ℕ)) (k : Key) (offset : ℕ) (rest : List ℕ)
    → 0 < length bs
    → read_index_entry bs ≡ ok ((k, offset), rest)
    → read_index (suc fuel) bs index ≡ read_index fuel rest (insert k offset index)
unfolding read_index
read_index_step fuel [] index k offset rest some_bytes h = elim some_bytes [ ]
read_index_step fuel (b ∷ bs) index k offset rest some_bytes h = rw (h, read_index) refl

length-encode_index :
    (k : Key) (o : ℕ) (ies : List (Key × ℕ))
    → length (encode_index ((k, o) ∷ ies)) ≡ 10 + length k + length (encode_index ies)
unfolding encode_index
length-encode_index k o ies = omega (
  arith,
  length-append (be 2 (length k)) (k ++ (be 8 o ++ encode_index ies)),
  length-append k (be 8 o ++ encode_index ies),
  length-append (be 8 o) (encode_index ies),
  length-be 2 (length k),
  length-be 8 o,
)

read_index-encode_index :
    (fuel : ℕ) (ies index : List (Key × ℕ))
    → length (encode_index ies) ≤ fuel
    → AllFit ies
    → read_index fuel (encode_index ies) index ≡ some (overlay ies index)
read_index-encode_index zero [] index h fit = (unfold read_index encode_index overlay in refl)
read_index-encode_index (suc fuel) [] index h fit = (unfold read_index encode_index overlay in refl)
read_index-encode_index zero ((k, o) ∷ ies) index h fit =
    absurd (omega (arith, h, length-encode_index k o ies))
read_index-encode_index (suc fuel) ((k, o) ∷ ies) index h ((fk, fo), fit) =
    read_index_step fuel (encode_index ((k, o) ∷ ies)) index k o (encode_index ies)
      (omega (arith, length-encode_index k o ies))
      (unfold encode_index in read_index_entry_lem k o (encode_index ies) fk fo)
    ∙ (read_index-encode_index fuel ies (insert k o index)
          (omega (arith, h, length-encode_index k o ies)) fit
        ∙ (unfold overlay in refl))

-- The offsets lie in the data block.
index_from-AllFit :
    (base : ℕ) (es : List (Key × SstEntry))
    → AllWritable es
    → base + length (data_block es) < 2 ^ 64
    → AllFit (index_from base es)
unfolding index_from data_block
index_from-AllFit base [] w h = tt
index_from-AllFit base ((k, e) ∷ es) (we, w) h =
    let split = length-append (encode_entry k e) (data_block es) in
    (
      (we.key_length, omega (arith, h)),
      index_from-AllFit (base + length (encode_entry k e)) es w (omega (arith, h, split)),
    )

length-footer : (a b c : ℕ) → length (footer a b c) ≡ 28
unfolding footer
length-footer a b c = omega (
  arith,
  length-append (be 8 a) (be 8 b ++ (be 8 c ++ be 4 magic)),
  length-append (be 8 b) (be 8 c ++ be 4 magic),
  length-append (be 8 c) (be 4 magic),
  length-be 8 a,
  length-be 8 b,
  length-be 8 c,
  length-be 4 magic,
)

read_footer-footer :
    (a b c : ℕ)
    → a < 2 ^ 64
    → b < 2 ^ 64
    → c < 2 ^ 64
    → read_footer (footer a b c) ≡ ok (a, b, c, magic)
unfolding read_footer footer
read_footer-footer a b c ha hb hc =
    ap (λ l. read_footer (be 8 a ++ (be 8 b ++ (be 8 c ++ l)))) (sym (append-nil (be 4 magic)))
    ∙ simp (read_uint-be, fits a ha, fits b hb, fits c hc, magic_fits) refl
  where
    fits : (x : ℕ) → x < 2 ^ 64 → x < 256 ^ 8
    fits x h = omega (arith, h)

    magic_fits : magic < 256 ^ 4
    magic_fits = omega arith

-- What Open makes of a file that WriteSorted wrote.
unfoldable pub table_of : List (Key × SstEntry) → FileTable
unfolding index_from write_sorted data_block
table_of es = record {
  file = write_sorted es;
  index = overlay (index_from 0 es) [];
  index_offset = length (data_block es);
  count = length es;
}

open_index-parts :
    (block index foot : List ℕ) (count : ℕ) (ies : List (Key × ℕ))
    → read_index (length index) index [] ≡ some ies
    → open_index (block ++ (index ++ foot)) (length block) (length index) count
      ≡ opened (record {
        file = block ++ (index ++ foot);
        index = ies;
        index_offset = length block;
        count = count;
      })
unfolding open_index
open_index-parts block index foot count ies h =
    let bytes : take (length index) (drop (length block) (block ++ (index ++ foot))) ≡ index =
      ap (take (length index)) (drop-length_append block (index ++ foot))
      ∙ take-length_append index foot in
    let whole : ltb (length index) (length index) ≡ false = ground arith in
    rw (bytes, whole, h) refl

open_file-parts :
    (block index : List ℕ) (count : ℕ)
    → length block < 2 ^ 64
    → length index < 2 ^ 64
    → count < 2 ^ 64
    → open_file (block ++ (index ++ footer (length block) (length index) count))
      ≡ open_index
          (block ++ (index ++ footer (length block) (length index) count))
          (length block)
          (length index)
          count
unfolding open_file
open_file-parts block index count b i c =
    let foot = footer (length block) (length index) count in
    let file = block ++ (index ++ foot) in
    let size = length-append block (index ++ foot) in
    let size1 = length-append index foot in
    let size2 = length-footer (length block) (length index) count in
    let large : ltb (length file) footer_size ≡ false = ground (arith, size, size1, size2) in
    let at : length file - footer_size ≡ length (block ++ index) =
      omega (arith, size, size1, size2, length-append block index) in
    let tail : drop (length file - footer_size) file ≡ foot =
      ap (λ n. drop n file) at
      ∙ (ap (drop (length (block ++ index))) (sym (append_assoc block index foot))
          ∙ drop-length_append (block ++ index) foot) in
    let read : read_footer (drop (length file - footer_size) file)
        ≡ ok (length block, length index, count, magic) =
      ap read_footer tail ∙ read_footer-footer (length block) (length index) count b i c in
    rw (large, read) refl

-- Open reads a file that WriteSorted wrote, if its entries fit the format and their number and the
-- size of the file are below 2^64.
pub open_file-write_sorted :
    (es : List (Key × SstEntry))
    → AllWritable es
    → length es < 2 ^ 64
    → length (write_sorted es) < 2 ^ 64
    → open_file (write_sorted es) ≡ opened (table_of es)
unfolding write_sorted table_of
open_file-write_sorted es w n size =
    let block = data_block es in
    let index = encode_index (index_from 0 es) in
    let foot = footer (length block) (length index) (length es) in
    let parts = length-append block (index ++ foot) in
    let parts1 = length-append index foot in
    let fit = index_from-AllFit 0 es w (omega (arith, size, parts)) in
    open_file-parts block index (length es) (omega (arith, size, parts))
      (omega (arith, size, parts, parts1)) n
    ∙ open_index-parts block index foot (length es) (overlay (index_from 0 es) [])
        (read_index-encode_index (length index) (index_from 0 es) [] (omega arith) fit)
