-- ===== src/Raft/FileStorage/Truncation.antt =====
-- internal/raft/filestorage.go: cutting the log at either end, and what a crash in between leaves.
use boiler_pulse.Prelude.{
  ℕ, zero, suc, ◌+◌, ◌-◌, ◌<◌, ◌≡◌, refl, sym, ◌≢◌, ap, ◌∙◌, List, [], ◌∷◌, ◌++◌, some, arith,
  length, take, drop, get_elem?, length-append, take-length_append, take-append-drop,
  get_elem?-append_right, subst, String,
}
use boiler_pulse.Bytes.Frame.{Checksum}
use boiler_pulse.Bytes.LogCodec.{write_all, write_all-append}
use boiler_pulse.Raft.Types.{LogEntry, Options}
use boiler_pulse.Raft.Interfaces.{SnapshotData, StateMachine}
use boiler_pulse.Raft.Node.{Node}
use boiler_pulse.Raft.Apply.{new_node}
use boiler_pulse.Raft.Log.Dense.{IsDense}
use boiler_pulse.Raft.EntryCodec.{encode_log_entry, codec}
use boiler_pulse.Raft.FileStorage.{
  FileStorage, truncate_from, append_entry, rewrite_offsets, discard_log_through, get_or_zero,
  save_snapshot, load_term_and_vote, file_storage,
}
use boiler_pulse.Raft.FileStorage.Recovery.{IsConsistent}

module _ (crc : Checksum) where
  -- The offset on record for a position is the length of the file before it.
  offset_at :
      (o : ℕ) (es : List LogEntry) (pos : ℕ)
      → pos < length es
      → get_or_zero (get_elem? (rewrite_offsets crc o es) pos)
        ≡ o + length (write_all (codec crc) (take pos es))
  unfolding rewrite_offsets write_all
  offset_at o [] pos h = elim h [ ]
  offset_at o (e ∷ es) zero h = omega arith
  offset_at o (e ∷ es) (suc pos) h = omega (
    arith,
    offset_at (o + length (encode_log_entry crc e)) es pos,
    length-append (encode_log_entry crc e) (write_all (codec crc) (take pos es)),
  )

  take-rewrite_offsets :
      (pos o : ℕ) (es : List LogEntry)
      → take pos (rewrite_offsets crc o es) ≡ rewrite_offsets crc o (take pos es)
  unfolding rewrite_offsets
  take-rewrite_offsets zero o es = refl
  take-rewrite_offsets (suc pos) o [] = refl
  take-rewrite_offsets (suc pos) o (e ∷ es) =
      ap (◌∷◌ o) (take-rewrite_offsets pos (o + length (encode_log_entry crc e)) es)

  -- The file up to a recorded offset holds the entries before that position.
  cut_file :
      (pos : ℕ) (es : List LogEntry)
      → take (length (write_all (codec crc) (take pos es))) (write_all (codec crc) es)
        ≡ write_all (codec crc) (take pos es)
  cut_file pos es =
      ap (take (length (write_all (codec crc) (take pos es)))) (
        ap (write_all (codec crc)) (sym (take-append-drop pos es))
        ∙ write_all-append (codec crc) (take pos es) (drop pos es))
      ∙ take-length_append (write_all (codec crc) (take pos es))
          (write_all (codec crc) (drop pos es))

  truncated : ℕ → FileStorage → FileStorage
  truncated pos fs = record fs {
    log_file = take (get_or_zero (get_elem? fs.offsets pos)) fs.log_file;
    cursor = get_or_zero (get_elem? fs.offsets pos);
    offsets = take pos fs.offsets;
    loaded = take pos fs.loaded;
  }

  truncate_at :
      (pos : ℕ) (fs : FileStorage)
      → pos < length fs.loaded
      → truncate_from (fs.base_index + pos + 1) fs ≡ truncated pos fs
  unfolding truncate_from truncated
  truncate_at pos fs h = ground (
    arith,
    ap (λ (i : ℕ). truncated i fs)
        (let z : fs.base_index + pos + 1 - fs.base_index - 1 ≡ pos = omega arith in z),
  )

  -- On a consistent storage, TruncateFrom for an entry that is there keeps exactly the entries
  -- before it, in memory and in the file, and keeps the storage consistent.
  pub truncate_from-IsConsistent :
      (pos : ℕ) (fs : FileStorage)
      → IsConsistent crc fs
      → pos < length fs.loaded
      → IsConsistent crc (truncate_from (fs.base_index + pos + 1) fs)
        × ((truncate_from (fs.base_index + pos + 1) fs).loaded ≡ take pos fs.loaded)
  truncate_from-IsConsistent pos fs c h =
      let at : get_or_zero (get_elem? fs.offsets pos)
          ≡ length (write_all (codec crc) (take pos fs.loaded)) =
        ap (λ l. get_or_zero (get_elem? l pos)) c.offsets
        ∙ offset_at 0 fs.loaded pos h
        ∙ omega arith in
      let file : take (get_or_zero (get_elem? fs.offsets pos)) fs.log_file
          ≡ write_all (codec crc) (take pos fs.loaded) =
        ap (λ k. take k fs.log_file) at
        ∙ ap (take (length (write_all (codec crc) (take pos fs.loaded)))) c.file
        ∙ cut_file pos fs.loaded in
      rw (truncate_at pos fs h) (
        unfold truncated in
        (
          record {
            file = file;
            offsets = ap (take pos) c.offsets ∙ take-rewrite_offsets pos 0 fs.loaded;
            at_end = at ∙ ap length (sym file);
          },
          refl,
        ))

  -- Discarding a prefix rewrites the file to the entries that stay. The recorded offsets fit it;
  -- the file's own offset does not, unless nothing stays.
  pub discard_log_through_keeps :
      (index : ℕ) (fs : FileStorage)
      → fs.base_index < index
      → ((discard_log_through crc index fs).loaded ≡ drop (index - fs.base_index) fs.loaded)
        × ((discard_log_through crc index fs).log_file
            ≡ write_all (codec crc) (drop (index - fs.base_index) fs.loaded))
        × ((discard_log_through crc index fs).offsets
            ≡ rewrite_offsets crc 0 (drop (index - fs.base_index) fs.loaded))
        × ((discard_log_through crc index fs).base_index ≡ index)
        × ((discard_log_through crc index fs).cursor ≡ 0)
  unfolding discard_log_through
  discard_log_through_keeps index fs h =
      (ground arith, ground arith, ground arith, ground arith, ground arith)

  length-rewrite_offsets :
      (o : ℕ) (es : List LogEntry) → length (rewrite_offsets crc o es) ≡ length es
  unfolding rewrite_offsets
  length-rewrite_offsets o [] = refl
  length-rewrite_offsets o (e ∷ es) =
      ap suc (length-rewrite_offsets (o + length (encode_log_entry crc e)) es)

  -- After DiscardLogThrough of an index above the base, appending an entry and truncating from
  -- that same entry leaves an empty log file, while the entries before it stay loaded.
  pub truncate_from_after_discard :
      (index : ℕ) (e : LogEntry) (fs : FileStorage)
      → fs.base_index < index
      → (let kept = drop (index - fs.base_index) fs.loaded in
          let after =
            truncate_from
              (index + length kept + 1)
              (append_entry crc e (discard_log_through crc index fs)) in
          (after.log_file ≡ []) × (after.loaded ≡ kept))
  unfolding append_entry truncated
  truncate_from_after_discard index e fs h =
      let kept = drop (index - fs.base_index) fs.loaded in
      let fs1 = discard_log_through crc index fs in
      let fs2 = append_entry crc e fs1 in
      let (l, f, o, b, z) = discard_log_through_keeps index fs h in
      let loaded : fs2.loaded ≡ kept ++ e ∷ [] = ap (λ x. x ++ e ∷ []) l in
      let step : truncate_from (index + length kept + 1) fs2 ≡ truncated (length kept) fs2 =
        ap (λ i. truncate_from (i + length kept + 1) fs2) (sym b)
        ∙ truncate_at (length kept) fs2
            (omega (arith, ap length loaded, length-append kept (e ∷ []))) in
      let offset : get_or_zero (get_elem? fs2.offsets (length kept)) ≡ 0 =
        ap (λ x. get_or_zero (get_elem? (x ++ fs1.cursor ∷ []) (length kept))) o
        ∙ ap (λ i. get_or_zero (get_elem? (rewrite_offsets crc 0 kept ++ fs1.cursor ∷ []) i))
            (let y : length kept ≡ length (rewrite_offsets crc 0 kept) + 0 =
                omega (arith, length-rewrite_offsets 0 kept) in
              y)
        ∙ ap get_or_zero (get_elem?-append_right 0 (rewrite_offsets crc 0 kept) (fs1.cursor ∷ []))
        ∙ z in
      (
        ap (λ r. r.log_file) step ∙ ap (λ k. take k fs2.log_file) offset,
        ap (λ r. r.loaded) step ∙ ap (take (length kept)) loaded ∙ take-length_append kept (e ∷ []),
      )

module _ (crc : Checksum) {M : Type 0} (sm : StateMachine M) where
  -- A node that starts on a storage with a dense log that is not empty, and a snapshot past the
  -- log's base that was saved without trimming the log, takes the snapshot's index as the base of
  -- a log that is not dense behind it.
  pub new_node_before_discard :
      (id : String) (peers : List String) (opts : Options) (fs : FileStorage) (s : SnapshotData)
      (machine : M) (n : Node FileStorage M)
      → IsDense fs.base_index fs.loaded
      → fs.loaded ≢ []
      → fs.base_index < s.last_included_index
      → new_node (file_storage crc) sm id peers opts (save_snapshot s fs) machine ≡ some n
      → (n.log_base_index ≡ s.last_included_index)
        × (n.log ≡ fs.loaded)
        × ¬ IsDense n.log_base_index n.log
  unfolding new_node save_snapshot load_term_and_vote
  new_node_before_discard id peers opts fs s machine n dense some_left later started =
      let base : n.log_base_index ≡ s.last_included_index = ground (arith, started) in
      let log : n.log ≡ fs.loaded = ground (arith, started) in
      (
        base,
        log,
        λ d.
            shifted fs.loaded some_left dense
              (subst (λ i. IsDense i fs.loaded) base (subst (IsDense n.log_base_index) log d)),
      )
    where
      shifted :
          (es : List LogEntry)
          → es ≢ []
          → IsDense fs.base_index es
          → IsDense s.last_included_index es
          → ⊥
      shifted [] ne a b = ne refl
      shifted (e ∷ es) ne (a, _) (b, _) = omega arith
