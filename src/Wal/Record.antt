-- ===== src/Wal/Record.antt =====
-- internal/storage/wal/record.go: one mutation, its payload and its frame.
use boiler_pulse.Prelude.{ℕ, ◌<◌, ◌^◌, ◌≡◌, List, ◌++◌, arith, length, length-append}
use boiler_pulse.Bytes.{
  Result, ok, corrupt, ◌>>=◌, or_fail, be, read_full, read_uint, read_uint-be, read_full-append,
  read_full_all, length-be,
}
use boiler_pulse.Bytes.Frame.{Checksum, frame, read_frame, read_frame-frame}

abbrev pub op_set : ℕ
op_set = 1

abbrev pub op_delete : ℕ
op_delete = 2

-- The two `int64` times are taken as the uint64 that they are written as.
pub record Record : Type 0 where
  pub seq : ℕ
  pub op : ℕ
  pub timestamp : ℕ
  pub expires_at_unix_nano : ℕ
  pub key : List ℕ
  pub consistency : List ℕ
  pub value : List ℕ

unfoldable pub encode_payload : Record → List ℕ
encode_payload r =
    be 8 r.seq
    ++ (be 1 r.op
        ++ (be 8 r.timestamp
            ++ (be 8 r.expires_at_unix_nano
                ++ (be 2 (length r.key)
                    ++ (r.key
                        ++ (be 1 (length r.consistency)
                            ++ (r.consistency ++ (be 4 (length r.value) ++ r.value))))))))

-- Whatever follows the value in the payload is ignored.
unfoldable pub decode_payload : List ℕ → Result Record
decode_payload payload = do
  (seq, in1) ← or_fail corrupt (read_uint 8 payload)
  (op, in2) ← or_fail corrupt (read_uint 1 in1)
  (timestamp, in3) ← or_fail corrupt (read_uint 8 in2)
  (expires, in4) ← or_fail corrupt (read_uint 8 in3)
  (key_len, in5) ← or_fail corrupt (read_uint 2 in4)
  (key, in6) ← or_fail corrupt (read_full key_len in5)
  (cons_len, in7) ← or_fail corrupt (read_uint 1 in6)
  (consistency, in8) ← or_fail corrupt (read_full cons_len in7)
  (value_len, in9) ← or_fail corrupt (read_uint 4 in8)
  (value, in10) ← or_fail corrupt (read_full value_len in9)
  ok (record {
    seq = seq;
    op = op;
    timestamp = timestamp;
    expires_at_unix_nano = expires;
    key = key;
    consistency = consistency;
    value = value;
  })

-- The ranges of the fields in Go, and the lengths that the format has room for.
pub record IsEncodable (r : Record) : Type 0 where
  pub seq : r.seq < 2 ^ 64
  pub op : r.op < 2 ^ 8
  pub timestamp : r.timestamp < 2 ^ 64
  pub expires : r.expires_at_unix_nano < 2 ^ 64
  pub key : length r.key < 2 ^ 16
  pub consistency : length r.consistency < 2 ^ 8
  pub value : length r.value < 2 ^ 31

pub decode_payload-encode_payload :
    (r : Record) → IsEncodable r → decode_payload (encode_payload r) ≡ ok r
unfolding decode_payload encode_payload
decode_payload-encode_payload r v =
    simp (read_uint-be, read_full-append, v.seq, v.op, v.timestamp, v.expires, v.key, v.consistency)
      (simp (read_uint-be, read_full_all, value_fits))
  where
    value_fits : length r.value < 256 ^ 4
    value_fits = omega (arith, v.value)

module _ (crc : Checksum) where
  unfoldable pub encode : Record → List ℕ
  encode r = frame crc (encode_payload r)

  -- The record, and what follows its frame.
  unfoldable pub decode : List ℕ → Result (Record × List ℕ)
  decode input = do (payload, rest) ← read_frame crc input; r ← decode_payload payload; ok (r, rest)

  pub payload_bound : (r : Record) → IsEncodable r → length (encode_payload r) < 2 ^ 32
  unfolding encode_payload
  payload_bound r v = simp (length-append, length-be) (omega (arith, v.key, v.consistency, v.value))

  -- A record whose fields fit the format is decoded from its encoding, with what follows the frame
  -- left over.
  pub decode-encode :
      (r : Record) (rest : List ℕ) → IsEncodable r → decode (encode r ++ rest) ≡ ok (r, rest)
  unfolding decode encode
  decode-encode r rest v =
      simp (read_frame-frame, payload_bound r v, decode_payload-encode_payload r v)
