-- ===== src/Storage/SsTable/File/Lookup.antt =====
-- internal/storage/sstable: a table that is opened on a written file gives the entries written.
use boiler_pulse.Prelude.{
  ℕ, zero, suc, ◌-◌, ◌^◌, ◌≤◌, ◌<◌, ◌≡◌, refl, sym, ap, ◌∙◌, subst, List, [], ◌∷◌, ◌++◌, Option,
  none, some, arith, if◌then◌else◌, length, take, drop, append_assoc, length-append,
  take-length_append, drop-length_append, inl, inr, Bool-cases,
}
use boiler_pulse.Bytes.{ok, be, length-be, read_uint, read_full, bytes_eq, bytes_eq_sound}
use boiler_pulse.Storage.Table.{Key, lookup, insert, lookup-insert}
use boiler_pulse.Storage.Table.Overlay.{overlay}
use boiler_pulse.Storage.SsTable
use boiler_pulse.Storage.SsTable.{
  SstEntry, SsTable, encode_entry, decode_entry, IsWritable, decode_entry-encode_entry,
}
use boiler_pulse.Storage.SsTable.File
use boiler_pulse.Storage.SsTable.File.{
  data_block, index_from, encode_index, footer, write_sorted, FileTable, Opened, opened, open_file,
  iterate_block, iterate,
}
use boiler_pulse.Storage.SsTable.File.Index.{AllWritable, table_of, open_file-write_sorted}

length-encode_entry : (k : Key) (e : SstEntry) → 0 < length (encode_entry k e)
unfolding encode_entry
length-encode_entry k e =
    omega (arith, length-append (be 2 (length k)) (k ++ fields), length-be 2 (length k))
  where
    fields : List ℕ
    fields =
        be 1 (if e.tombstone then 1 else 0)
        ++ (be 1 (length e.consistency)
            ++ (e.consistency
                ++ (be 8 e.expires_at_unix_nano
                    ++ (be 8 e.version ++ (be 4 (length e.value) ++ e.value)))))

module _ (block : List ℕ) where
  -- The entry of a key stands in the block at its offset.
  record Stands (k : Key) (offset : ℕ) (e : SstEntry) : Type 0 where
    before : List ℕ
    after : List ℕ
    at : block ≡ before ++ (encode_entry k e ++ after)
    offset_is : length before ≡ offset
    writable : IsWritable k e

  Match : Key → Option ℕ → Option SstEntry → Type 0
  Match k none none = Unit {0}
  Match k (some offset) (some e) = Stands k offset e
  Match k o x = ⊥

  overlay-Match :
      (pre : List ℕ) (es : List (Key × SstEntry)) (offsets : List (Key × ℕ))
      (m : List (Key × SstEntry))
      → block ≡ pre ++ data_block es
      → AllWritable es
      → ((k : Key) → Match k (lookup k offsets) (lookup k m))
      → (k : Key)
      → Match k (lookup k (overlay (index_from (length pre) es) offsets)) (lookup k (overlay es m))
  unfolding data_block index_from overlay
  overlay-Match pre [] offsets m whole w h k = h k
  overlay-Match pre ((j, e) ∷ es) offsets m whole (we, w) h k =
      subst
        (λ n.
          Match k (lookup k (overlay (index_from n es) (insert j (length pre) offsets)))
            (lookup k (overlay es (insert j e m))))
        (length-append pre (encode_entry j e))
        (overlay-Match (pre ++ encode_entry j e) es (insert j (length pre) offsets) (insert j e m)
          (whole ∙ sym (append_assoc pre (encode_entry j e) (data_block es))) w added k)
    where
      added :
          (i : Key) → Match i (lookup i (insert j (length pre) offsets)) (lookup i (insert j e m))
      added i =
          rw (lookup-insert j i (length pre) offsets, lookup-insert j i e m)
            (elim (Bool-cases (bytes_eq j i)) [
              | inr other ↦ rw other (h i)
              | inl same ↦ rw same (
                  subst (λ l. Match l (some (length pre)) (some e)) (bytes_eq_sound j i same)
                    (unfold Match in
                      record {
                        before = pre;
                        after = data_block es;
                        at = whole;
                        offset_is = refl;
                        writable = we;
                      }))
            ])

  -- The bytes from an entry to the end of the block, whatever follows the block.
  section_of :
      (k : Key) (offset : ℕ) (e : SstEntry) (tail : List ℕ)
      → (s : Stands k offset e)
      → take (length block - offset) (drop offset (block ++ tail)) ≡ encode_entry k e ++ s.after
  section_of k offset e tail s =
      let rest = encode_entry k e ++ s.after in
      let size : length block - offset ≡ length rest =
        omega (arith, ap length s.at, length-append s.before rest, s.offset_is) in
      let shifted : drop offset (block ++ tail) ≡ rest ++ tail =
        ap (λ n. drop n (block ++ tail)) (sym s.offset_is)
        ∙ (ap (λ l. drop (length s.before) (l ++ tail)) s.at
            ∙ (ap (drop (length s.before)) (append_assoc s.before rest tail)
                ∙ drop-length_append s.before (rest ++ tail))) in
      ap (λ n. take n (drop offset (block ++ tail))) size
      ∙ (ap (take (length rest)) shifted ∙ take-length_append rest tail)

  read_entry :
      (k : Key) (o : Option ℕ) (x : Option SstEntry) (t : FileTable) (tail : List ℕ)
      → t.file ≡ block ++ tail
      → t.index_offset ≡ length block
      → lookup k t.index ≡ o
      → Match k o x
      → File.get k t ≡ ok x
  unfolding File.get Match
  read_entry k none none t tail file end found h = rw (found, File.get) refl
  read_entry k none (some e) t tail file end found h = absurd h
  read_entry k (some offset) none t tail file end found h = absurd h
  read_entry k (some offset) (some e) t tail file end found s =
      let bytes : take (t.index_offset - offset) (drop offset t.file)
          ≡ encode_entry k e ++ s.after =
        ap (λ n. take (n - offset) (drop offset t.file)) end
        ∙ (ap (λ f. take (length block - offset) (drop offset f)) file
            ∙ section_of k offset e tail s) in
      rw (found, bytes, decode_entry-encode_entry k e s.after s.writable, File.get) refl

get-table_of :
    (k : Key) (number : ℕ) (es : List (Key × SstEntry))
    → AllWritable es
    → File.get k (table_of es) ≡ ok (SsTable.get k (record { number = number; entries = es }))
unfolding SsTable.get table_of write_sorted
get-table_of k number es w =
    read_entry (data_block es) k (lookup k (overlay (index_from 0 es) []))
      (lookup k (overlay es [])) (table_of es)
      (encode_index (index_from 0 es)
        ++ footer (length (data_block es)) (length (encode_index (index_from 0 es))) (length es))
      refl refl refl
      (overlay-Match (data_block es) [] es [] [] refl w (λ j. (unfold lookup Match in tt)) k)

iterate_block-data_block :
    (fuel : ℕ) (es : List (Key × SstEntry))
    → length (data_block es) ≤ fuel
    → AllWritable es
    → iterate_block (suc fuel) (data_block es) ≡ ok es
unfolding data_block iterate_block
iterate_block-data_block fuel [] h w = (unfold decode_entry read_uint read_full in refl)
iterate_block-data_block zero ((k, e) ∷ es) h (we, w) =
    absurd
      (omega (arith, h, length-append (encode_entry k e) (data_block es), length-encode_entry k e))
iterate_block-data_block (suc fuel) ((k, e) ∷ es) h (we, w) =
    let rest =
      iterate_block-data_block fuel es
        (omega
          (arith, h, length-append (encode_entry k e) (data_block es), length-encode_entry k e))
        w in
    rw (decode_entry-encode_entry k e (data_block es) we, rest, iterate_block) refl

-- Open succeeds on the bytes that WriteSorted writes for entries that fit the format, if their
-- number and the size of the file are below 2^64, and the table that it gives reads each key as
-- the list of entries does, the last entry of a key counting, and iterates over exactly these
-- entries.
pub get-open_file :
    (k : Key) (number : ℕ) (es : List (Key × SstEntry))
    → AllWritable es
    → length es < 2 ^ 64
    → length (write_sorted es) < 2 ^ 64
    → (t : FileTable) × (open_file (write_sorted es) ≡ opened t)
      × (File.get k t ≡ ok (SsTable.get k (record { number = number; entries = es })))
      × (iterate t ≡ ok es)
get-open_file k number es w n size =
    (table_of es, open_file-write_sorted es w n size, get-table_of k number es w, iterated)
  where
    iterated : iterate (table_of es) ≡ ok es
    iterated =
        (unfold iterate table_of write_sorted in
          ap (iterate_block (suc (length (data_block es)))) (take-length_append (data_block es) _)
          ∙ iterate_block-data_block (length (data_block es)) es (omega arith) w)
