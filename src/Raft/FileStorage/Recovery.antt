-- ===== src/Raft/FileStorage/Recovery.antt =====
-- internal/raft/filestorage.go: the file against the entries, over appends, truncations and
-- restarts.
use boiler_pulse.Prelude.{
  ℕ, zero, suc, ◌+◌, ◌<◌, ◌≡◌, refl, sym, ap, ◌∙◌, List, [], ◌∷◌, ◌++◌, Option, arith, length, take,
  drop, All, length-append, append_assoc, append-nil, take-length_append, take_all, drop_all,
  String, if◌then◌else◌, Bool-cases, inl, inr,
}
use boiler_pulse.Bytes.{ReadError, err}
use boiler_pulse.Bytes.Frame.{Checksum}
use boiler_pulse.Bytes.LogCodec.{write_all, write_all-append, length-write_all-ge}
use boiler_pulse.Raft.Types.{LogEntry}
use boiler_pulse.Raft.Interfaces.{SnapshotData}
use boiler_pulse.Raft.EntryCodec.{
  IsEncodable, encode_log_entry, decode_log_entry, decode_log_entry-encode_log_entry, codec,
}
use boiler_pulse.Raft.FileStorage.{
  FileStorage, Replayed, prepend, replay_loop, replay_log_file, open_file_storage, write_at,
  append_entry, append_entries, rewrite_offsets,
}

module _ (crc : Checksum) where
  -- The file holds the entries that are loaded, and the offsets are where they start.
  pub record IsConsistent (fs : FileStorage) : Type 0 where
    pub file : fs.log_file ≡ write_all (codec crc) fs.loaded
    pub offsets : fs.offsets ≡ rewrite_offsets crc 0 fs.loaded
    pub at_end : fs.cursor ≡ length fs.log_file

  replay_step :
      (fuel offset : ℕ) (e : LogEntry) (rest : List ℕ)
      → IsEncodable e
      → replay_loop crc (suc fuel) offset (encode_log_entry crc e ++ rest)
        ≡ prepend e offset (replay_loop crc fuel (offset + length (encode_log_entry crc e)) rest)
  unfolding replay_loop
  replay_step fuel offset e rest v =
      rw (decode_log_entry-encode_log_entry crc e rest v, replay_loop)

  replay_stop :
      (fuel offset : ℕ) (tail : List ℕ) (x : ReadError)
      → decode_log_entry crc tail ≡ err x
      → replay_loop crc fuel offset tail
        ≡ record { entries = []; offsets = []; valid_length = offset }
  unfolding replay_loop
  replay_stop zero offset tail x h = refl
  replay_stop (suc fuel) offset tail x h = rw (h, replay_loop)

  abbrev found : List LogEntry → List ℕ → ℕ → Replayed
  found es offsets valid = record { entries = es; offsets = offsets; valid_length = valid }

  -- Replay finds the entries, their offsets and the length of what is valid.
  replay_loop-write_all :
      (es : List LogEntry) (tail : List ℕ) (fuel offset : ℕ) (x : ReadError)
      → All IsEncodable es
      → decode_log_entry crc tail ≡ err x
      → length es < fuel
      → replay_loop crc fuel offset (write_all (codec crc) es ++ tail) ≡ record {
        entries = es;
        offsets = rewrite_offsets crc offset es;
        valid_length = offset + length (write_all (codec crc) es);
      }
  unfolding write_all rewrite_offsets
  replay_loop-write_all [] tail fuel offset x v h lt =
      replay_stop fuel offset tail x h
      ∙ ap (found [] []) (let z : offset ≡ offset + 0 = omega arith in z)
  replay_loop-write_all (e ∷ es) tail zero offset x v h lt = elim lt [ ]
  replay_loop-write_all (e ∷ es) tail (suc fuel) offset x (ve, vs) h lt =
      let size = length (encode_log_entry crc e) in
      ap (replay_loop crc (suc fuel) offset)
        (append_assoc (encode_log_entry crc e) (write_all (codec crc) es) tail)
      ∙ replay_step fuel offset e (write_all (codec crc) es ++ tail) ve
      ∙ ap (prepend e offset)
          (replay_loop-write_all es tail fuel (offset + size) x vs h (omega arith))
      ∙ ap (found (e ∷ es) (offset ∷ rewrite_offsets crc (offset + size) es))
          (omega (arith, length-append (encode_log_entry crc e) (write_all (codec crc) es)))

  replay_log_file-write_all :
      (es : List LogEntry) (tail : List ℕ) (x : ReadError)
      → All IsEncodable es
      → decode_log_entry crc tail ≡ err x
      → replay_log_file crc (write_all (codec crc) es ++ tail)
        ≡ found es (rewrite_offsets crc 0 es) (length (write_all (codec crc) es))
  unfolding replay_log_file
  replay_log_file-write_all es tail x v h =
      replay_loop-write_all es tail (suc (length (write_all (codec crc) es ++ tail))) 0 x v h (
        omega (
          arith,
          length-append (write_all (codec crc) es) tail,
          length-write_all-ge (codec crc) es,
        ))
      ∙ ap (found es (rewrite_offsets crc 0 es)) (omega arith)

  -- Opening a storage whose log file holds entries that fit the format and then a tail that does
  -- not decode loads exactly those entries, and leaves file, offsets and entries consistent.
  pub open_file_storage_recovers :
      (es : List LogEntry) (tail : List ℕ) (x : ReadError) (state : Option (ℕ × String))
      (snap : Option SnapshotData)
      → All IsEncodable es
      → decode_log_entry crc tail ≡ err x
      → ((open_file_storage crc (write_all (codec crc) es ++ tail) state snap).loaded ≡ es)
        × IsConsistent (open_file_storage crc (write_all (codec crc) es ++ tail) state snap)
  unfolding open_file_storage
  open_file_storage_recovers es tail x state snap v h =
      let file = write_all (codec crc) es ++ tail in
      let r = replay_log_file-write_all es tail x v h in
      let kept : take (replay_log_file crc file).valid_length file ≡ write_all (codec crc) es =
        ap (λ q. take q.valid_length file) r ∙ take-length_append (write_all (codec crc) es) tail in
      (
        ap (λ q. q.entries) r,
        record {
          file = kept ∙ ap (λ q. write_all (codec crc) q.entries) (sym r);
          offsets = ap (λ q. q.offsets) r ∙ ap (λ q. rewrite_offsets crc 0 q.entries) (sym r);
          at_end = refl;
        },
      )

  write_at_end : (bytes file : List ℕ) → write_at (length file) bytes file ≡ file ++ bytes
  unfolding write_at
  write_at_end bytes file =
      ap (λ l. l ++ (bytes ++ drop (length file + length bytes) file))
        (take_all (length file) file (omega arith))
      ∙ ap (λ l. file ++ (bytes ++ l)) (drop_all (length file + length bytes) file (omega arith))
      ∙ ap (λ l. file ++ l) (append-nil bytes)

  rewrite_offsets-append :
      (offset : ℕ) (es : List LogEntry) (e : LogEntry)
      → rewrite_offsets crc offset (es ++ e ∷ [])
        ≡ rewrite_offsets crc offset es ++ (offset + length (write_all (codec crc) es)) ∷ []
  unfolding rewrite_offsets write_all
  rewrite_offsets-append offset [] e =
      ap (λ o. o ∷ []) (let z : offset ≡ offset + 0 = omega arith in z)
  rewrite_offsets-append offset (x ∷ xs) e =
      ap (λ l. offset ∷ l)
        (rewrite_offsets-append (offset + length (encode_log_entry crc x)) xs e
          ∙ ap (λ o. rewrite_offsets crc (offset + length (encode_log_entry crc x)) xs ++ o ∷ [])
              (omega (arith, length-append (encode_log_entry crc x) (write_all (codec crc) xs))))

  write_all_one : (e : LogEntry) → write_all (codec crc) (e ∷ []) ≡ encode_log_entry crc e
  unfolding write_all
  write_all_one e = append-nil (encode_log_entry crc e)

  append_entry-IsConsistent :
      (e : LogEntry) (fs : FileStorage) → IsConsistent fs → IsConsistent (append_entry crc e fs)
  unfolding append_entry
  append_entry-IsConsistent e fs c =
      let bytes = encode_log_entry crc e in
      let start : (if fs.append_only then length fs.log_file else fs.cursor) ≡ length fs.log_file =
        elim (Bool-cases fs.append_only) [ inl p ↦ rw p | inr p ↦ rw p c.at_end ] in
      let whole = ap (λ s. write_at s bytes fs.log_file) start ∙ write_at_end bytes fs.log_file in
      record {
        file =
            whole
            ∙ ap (λ l. l ++ bytes) c.file
            ∙ ap (λ l. write_all (codec crc) fs.loaded ++ l) (sym (write_all_one e))
            ∙ sym (write_all-append (codec crc) fs.loaded (e ∷ []));
        offsets =
            ap (λ l. l ++ fs.cursor ∷ []) c.offsets
            ∙ ap (λ o. rewrite_offsets crc 0 fs.loaded ++ o ∷ [])
                (let z : fs.cursor ≡ 0 + length (write_all (codec crc) fs.loaded) =
                    omega (arith, c.at_end, ap length c.file) in
                  z)
            ∙ sym (rewrite_offsets-append 0 fs.loaded e);
        at_end = omega (arith, start, ap length whole, length-append fs.log_file bytes);
      }

  -- AppendEntries on a consistent storage adds the entries behind those that are loaded and keeps
  -- file, offsets and entries consistent.
  pub append_entries-IsConsistent :
      (es : List LogEntry) (fs : FileStorage)
      → IsConsistent fs
      → IsConsistent (append_entries crc es fs)
        × ((append_entries crc es fs).loaded ≡ fs.loaded ++ es)
  unfolding append_entries append_entry
  append_entries-IsConsistent [] fs c = (c, sym (append-nil fs.loaded))
  append_entries-IsConsistent (e ∷ es) fs c =
      let (c', p) =
        append_entries-IsConsistent es (append_entry crc e fs) (append_entry-IsConsistent e fs c) in
      (c', p ∙ append_assoc fs.loaded (e ∷ []) es)
