-- ===== src/Bytes/Frame.antt =====
-- The framing that internal/storage/wal/record.go and internal/raft/logentry_codec.go share:
-- [4-byte payload length][payload][4-byte checksum of the payload]. The checksum
-- (hash/crc32.ChecksumIEEE) is a parameter; its value is a uint32.
use boiler_pulse.Prelude.{
  ℕ, ◌+◌, ◌^◌, ◌<◌, ◌≡◌, refl, ap, ◌∙◌, List, ◌++◌, arith, ◌==◌, if◌then◌else◌, length, take,
  length-append, append_assoc, length-take, take_append_ge, ◌-◌,
}
use native.Mathlib.Decide.{dec_lt}
use boiler_pulse.Bytes.{
  ReadError, Result, ok, err, unexpected_eof, corrupt, ◌>>=◌, or_fail, be, read_full, read_uint,
  length-be, read_full-append, read_full_short, read_uint-be,
}

pub record Checksum : Type 0 where
  pub sum : List ℕ → ℕ
  pub sum-lt : (bs : List ℕ) → sum bs < 2 ^ 32

module _ (crc : Checksum) where
  unfoldable pub frame : List ℕ → List ℕ
  frame payload = be 4 (length payload) ++ (payload ++ be 4 (crc.sum payload))

  unfoldable pub read_body : ℕ → List ℕ → Result (List ℕ × List ℕ)
  read_body size input = do
    (payload, input2) ← or_fail unexpected_eof (read_full size input)
    (stored, rest) ← or_fail unexpected_eof (read_uint 4 input2)
    if stored == crc.sum payload then ok (payload, rest) else err corrupt

  -- The payload of one frame, and what follows the frame.
  unfoldable pub read_frame : List ℕ → Result (List ℕ × List ℕ)
  read_frame input = do (size, input1) ← read_uint 4 input; read_body size input1

  pub length-frame : (payload : List ℕ) → length (frame payload) ≡ 4 + length payload + 4
  unfolding frame
  length-frame payload = omega (
    arith,
    length-append (be 4 (length payload)) (payload ++ be 4 (crc.sum payload)),
    length-append payload (be 4 (crc.sum payload)),
    length-be 4 (length payload),
    length-be 4 (crc.sum payload),
  )

  read_body-frame :
      (payload rest : List ℕ)
      → read_body (length payload) (payload ++ (be 4 (crc.sum payload) ++ rest))
        ≡ ok (payload, rest)
  unfolding read_body
  read_body-frame payload rest =
      simp
        (
          read_full-append (length payload) payload (be 4 (crc.sum payload) ++ rest) refl,
          read_uint-be 4 (crc.sum payload) rest (crc.sum-lt payload),
        )
        (ground arith)

  -- A frame is read back, with what follows it left over.
  pub read_frame-frame :
      (payload rest : List ℕ)
      → length payload < 2 ^ 32
      → read_frame (frame payload ++ rest) ≡ ok (payload, rest)
  unfolding read_frame frame
  read_frame-frame payload rest h =
      let size = be 4 (length payload) in
      let sum = be 4 (crc.sum payload) in
      let shape : (size ++ (payload ++ sum)) ++ rest ≡ size ++ (payload ++ (sum ++ rest)) =
        append_assoc size (payload ++ sum) rest
        ∙ ap (λ l. size ++ l) (append_assoc payload sum rest) in
      ap (λ l. read_uint 4 l >>= λ p. read_body p.0 p.1) shape
      ∙ ap (λ r. r >>= λ p. read_body p.0 p.1)
          (read_uint-be 4 (length payload) (payload ++ (sum ++ rest)) (omega arith))
      ∙ read_body-frame payload rest

  read_body_torn :
      (payload : List ℕ) (k : ℕ)
      → k < length payload + 4
      → (e : ReadError) × (read_body (length payload) (take k (payload ++ be 4 (crc.sum payload)))
          ≡ err e)
  unfolding read_body read_uint
  read_body_torn payload k h =
      let sum = be 4 (crc.sum payload) in
      elim (dec_lt k (length payload)) [
        | yes short ↦
            let (e, p) =
              read_full_short (length payload) (take k (payload ++ sum))
                (omega (arith, length-take k (payload ++ sum))) in
            (unexpected_eof, rw p)
        | no long ↦
            let rest = take (k - length payload) sum in
            let (e, p) =
              read_full_short 4 rest (omega (arith, length-take (k - length payload) sum)) in
            (
              unexpected_eof,
              simp (
                take_append_ge k payload sum (omega arith),
                read_full-append (length payload) payload rest refl,
                p,
              ),
            )
      ]

  -- A frame that was cut short is refused, wherever it was cut.
  pub read_frame_torn :
      (payload : List ℕ) (k : ℕ)
      → length payload < 2 ^ 32
      → k < length (frame payload)
      → (e : ReadError) × (read_frame (take k (frame payload)) ≡ err e)
  unfolding read_frame frame
  read_frame_torn payload k fits h =
      let size = be 4 (length payload) in
      let body = payload ++ be 4 (crc.sum payload) in
      elim (dec_lt k 4) [
        | yes short ↦
            let (e, p) =
              read_full_short 4 (take k (size ++ body))
                (omega (arith, length-take k (size ++ body))) in
            (e, unfold read_uint in rw p)
        | no long ↦
            let cut : take k (size ++ body) ≡ size ++ take (k - 4) body =
              take_append_ge k size body (omega (arith, length-be 4 (length payload)))
              ∙ ap (λ j. size ++ take (k - j) body) (length-be 4 (length payload)) in
            let (e, p) = read_body_torn payload (k - 4) (omega (arith, length-frame payload)) in
            (e, simp (cut, read_uint-be 4 (length payload) (take (k - 4) body) fits, p))
      ]

  -- A size that is not all there is refused too, whatever the bytes are.
  pub read_frame_starved :
      (size : ℕ) (input : List ℕ)
      → size < 2 ^ 32
      → length input < size
      → read_frame (be 4 size ++ input) ≡ err unexpected_eof
  unfolding read_frame read_body
  read_frame_starved size input fits h =
      let (e, p) = read_full_short size input h in simp (read_uint-be 4 size input fits, p)
