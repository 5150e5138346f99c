-- ===== src/Wal/Replay.antt =====
-- internal/storage/wal/{writer,reader}.go: appending to the log, and replaying it.
use boiler_pulse.Prelude.{
  ℕ, suc, ◌+◌, ◌-◌, ◌≤◌, ◌<◌, ◌≡◌, refl, sym, ap, ◌∙◌, List, [], ◌∷◌, ◌++◌, arith, length, take,
  All, length-append, append_assoc, append-nil, take_append_ge,
}
use mathlib.Core.List.{flatten}
use boiler_pulse.Bytes.{ReadError, err, eof, unexpected_eof, be, read_full, read_uint, length-be}
use boiler_pulse.Bytes.Frame.{
  Checksum, frame, read_frame, length-frame, read_frame_torn, read_frame_starved,
}
use boiler_pulse.Bytes.LogCodec
use boiler_pulse.Bytes.LogCodec.{
  LogCodec, write_all, write_all-append, read_all-write_all, read_all_crash,
}
use boiler_pulse.Wal.Record.{
  Record, IsEncodable, encode_payload, encode, decode, payload_bound, decode-encode,
}

-- `Writer.Reset`.
unfoldable pub reset : List ℕ → List ℕ
reset file = []

module _ (crc : Checksum) where
  pub encode_pos : (r : Record) → 0 < length (encode crc r)
  unfolding encode
  encode_pos r = omega (arith, length-frame crc (encode_payload r))

  -- A record that was cut short is refused.
  pub decode_torn :
      (r : Record) (k : ℕ)
      → IsEncodable r
      → k < length (encode crc r)
      → (e : ReadError) × (decode crc (take k (encode crc r)) ≡ err e)
  unfolding decode encode
  decode_torn r k v h =
      let (e, p) = read_frame_torn crc (encode_payload r) k (payload_bound crc r v) h in (e, rw p)

  abbrev pub codec : LogCodec Record
  codec = record {
    encode = encode crc;
    decode = decode crc;
    Fits = IsEncodable;
    encode_pos = encode_pos;
    round_trip = decode-encode crc;
    torn = decode_torn;
  }

  -- `Writer.AppendBatch` when every write succeeds.
  unfoldable pub append_batch : List Record → List ℕ → List ℕ
  append_batch records file = file ++ write_all codec records

  -- `ReadAll`. A missing file reads as an empty one.
  unfoldable pub read_all : List ℕ → List Record
  read_all file = LogCodec.read_all codec file

  -- A log is written in batches and reset to empty in between; this is one since the last reset.
  unfoldable pub append_batches : List (List Record) → List ℕ → List ℕ
  append_batches [] file = file
  append_batches (b ∷ bs) file = append_batches bs (append_batch b file)

  pub append_batches_shape :
      (bs : List (List Record)) (file : List ℕ)
      → append_batches bs file ≡ file ++ write_all codec (flatten bs)
  unfolding append_batches append_batch write_all flatten
  append_batches_shape [] file = sym (append-nil file)
  append_batches_shape (b ∷ bs) file =
      append_batches_shape bs (file ++ write_all codec b)
      ∙ append_assoc file (write_all codec b) (write_all codec (flatten bs))
      ∙ ap (λ l. file ++ l) (sym (write_all-append codec b (flatten bs)))

  decode_nil : decode crc [] ≡ err eof
  unfolding decode read_frame read_uint read_full
  decode_nil = refl

  pub read_all_written :
      (rs : List Record) → All IsEncodable rs → LogCodec.read_all codec (write_all codec rs) ≡ rs
  read_all_written rs v =
      ap (LogCodec.read_all codec) (sym (append-nil (write_all codec rs)))
      ∙ read_all-write_all codec rs [] eof v decode_nil

  -- Replay returns every record of every batch that was appended to an empty log, in order, if the
  -- records fit the format.
  pub read_all-append_batches :
      (bs : List (List Record))
      → All IsEncodable (flatten bs)
      → read_all (append_batches bs []) ≡ flatten bs
  unfolding read_all
  read_all-append_batches bs v =
      ap (LogCodec.read_all codec) (append_batches_shape bs []) ∙ read_all_written (flatten bs) v

  -- If the records fit the format and a crash leaves any smaller number of the log's bytes, replay
  -- returns a prefix of the records that were appended, the longest that is complete in those
  -- bytes.
  pub read_all_torn :
      (bs : List (List Record)) (k : ℕ)
      → All IsEncodable (flatten bs)
      → k < length (append_batches bs [])
      → (j : ℕ) × (read_all (take k (append_batches bs [])) ≡ take j (flatten bs))
        × (j < length (flatten bs))
        × (length (append_batch (take j (flatten bs)) []) ≤ k)
        × (k < length (append_batch (take (suc j) (flatten bs)) []))
  unfolding read_all append_batch
  read_all_torn bs k v h =
      let e = append_batches_shape bs [] in
      let (j, p, lt, lo, hi) = read_all_crash codec (flatten bs) k v (rw e at h) in
      (j, ap (λ l. LogCodec.read_all codec (take k l)) e ∙ p, lt, lo, hi)

  torn_head :
      (r : Record) (k : ℕ)
      → 4 ≤ k
      → (l : List ℕ) × (take k (encode crc r) ≡ be 4 (length (encode_payload r)) ++ l)
        × (length (take k (encode crc r)) ≡ 4 + length l)
  unfolding encode frame
  torn_head r k h =
      let size = be 4 (length (encode_payload r)) in
      let body = encode_payload r ++ be 4 (crc.sum (encode_payload r)) in
      let cut =
        take_append_ge k size body (omega (arith, length-be 4 (length (encode_payload r)))) in
      (
        take (k - length size) body,
        cut,
        ap length cut
            ∙ omega (
              arith,
              length-append size (take (k - length size) body),
              length-be 4 (length (encode_payload r)),
            ),
      )

  starved :
      (r : Record) (k : ℕ) (more : List ℕ)
      → IsEncodable r
      → 4 ≤ k
      → length (take k (encode crc r)) + length more < 4 + length (encode_payload r)
      → decode crc (take k (encode crc r) ++ more) ≡ err unexpected_eof
  unfolding decode
  starved r k more v h short =
      let size = be 4 (length (encode_payload r)) in
      let (l, p, q) = torn_head r k h in
      let whole : take k (encode crc r) ++ more ≡ size ++ (l ++ more) =
        ap (λ t. t ++ more) p ∙ append_assoc size l more in
      simp (
        whole,
        read_frame_starved crc (length (encode_payload r)) (l ++ more) (payload_bound crc r v)
            (omega (arith, length-append l more)),
      )

  -- Records that are appended behind a record that was torn past its length field are not
  -- replayed, as long as they do not fill up the bytes that it announces, if the records before it
  -- and the torn one fit the format.
  pub append_batch_after_torn :
      (bs : List (List Record)) (r : Record) (k : ℕ) (later : List Record)
      → All IsEncodable (flatten bs)
      → IsEncodable r
      → 4 ≤ k
      → length (take k (encode crc r)) + length (append_batch later [])
        < 4 + length (encode_payload r)
      → read_all (append_batch later (append_batches bs [] ++ take k (encode crc r))) ≡ flatten bs
  unfolding read_all append_batch
  append_batch_after_torn bs r k later v vr h short =
      let torn = take k (encode crc r) in
      let more = write_all codec later in
      ap (λ l. LogCodec.read_all codec ((l ++ torn) ++ more)) (append_batches_shape bs [])
      ∙ ap (LogCodec.read_all codec) (append_assoc (write_all codec (flatten bs)) torn more)
      ∙ read_all-write_all codec (flatten bs) (torn ++ more) unexpected_eof v
          (starved r k more vr h short)
