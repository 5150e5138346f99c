-- ===== src/Raft/EntryCodec.antt =====
-- internal/raft/logentry_codec.go: the frame of a persisted log entry.
use boiler_pulse.Prelude.{ℕ, ◌+◌, ◌<◌, ◌^◌, ◌≡◌, List, ◌++◌, arith, length, take, length-append}
use boiler_pulse.Bytes.{
  Result, ReadError, ok, err, corrupt, ◌>>=◌, or_fail, be, read_full, read_uint, read_uint-be,
  read_full_all, length-be,
}
use boiler_pulse.Bytes.Frame.{
  Checksum, frame, read_frame, read_frame-frame, length-frame, read_frame_torn,
}
use boiler_pulse.Bytes.LogCodec.{LogCodec}
use boiler_pulse.Raft.Types.{LogEntry}

unfoldable pub encode_payload : LogEntry → List ℕ
encode_payload e = be 8 e.term ++ (be 8 e.index ++ (be 4 (length e.command) ++ e.command))

unfoldable pub decode_log_entry_payload : List ℕ → Result LogEntry
decode_log_entry_payload payload = do
  (term, in1) ← or_fail corrupt (read_uint 8 payload)
  (index, in2) ← or_fail corrupt (read_uint 8 in1)
  (size, in3) ← or_fail corrupt (read_uint 4 in2)
  (command, in4) ← or_fail corrupt (read_full size in3)
  ok (record { term = term; index = index; command = command })

pub record IsEncodable (e : LogEntry) : Type 0 where
  pub term : e.term < 2 ^ 64
  pub index : e.index < 2 ^ 64
  pub command : length e.command < 2 ^ 31

decode_payload-encode_payload :
    (e : LogEntry) → IsEncodable e → decode_log_entry_payload (encode_payload e) ≡ ok e
unfolding decode_log_entry_payload encode_payload
decode_payload-encode_payload e v =
    simp (read_uint-be, read_full_all, v.term, v.index, command_fits)
  where
    command_fits : length e.command < 256 ^ 4
    command_fits = omega (arith, v.command)

pub length-encode_payload : (e : LogEntry) → length (encode_payload e) ≡ 20 + length e.command
unfolding encode_payload
length-encode_payload e = simp (length-append, length-be) (omega arith)

payload_bound : (e : LogEntry) → IsEncodable e → length (encode_payload e) < 2 ^ 32
payload_bound e v = omega (arith, v.command, length-encode_payload e)

module _ (crc : Checksum) where
  unfoldable pub encode_log_entry : LogEntry → List ℕ
  encode_log_entry e = frame crc (encode_payload e)

  -- The entry, the number of bytes that its frame takes, and what follows the frame.
  unfoldable pub decode_log_entry : List ℕ → Result (LogEntry × ℕ × List ℕ)
  decode_log_entry input = do
    (payload, rest) ← read_frame crc input
    e ← decode_log_entry_payload payload
    ok (e, 4 + length payload + 4, rest)

  -- A log entry whose fields fit the format is decoded from its encoding, with the size of its
  -- frame and what follows it.
  pub decode_log_entry-encode_log_entry :
      (e : LogEntry) (rest : List ℕ)
      → IsEncodable e
      → decode_log_entry (encode_log_entry e ++ rest) ≡ ok (e, length (encode_log_entry e), rest)
  unfolding decode_log_entry encode_log_entry
  decode_log_entry-encode_log_entry e rest v =
      simp (read_frame-frame, payload_bound e v, decode_payload-encode_payload e v, length-frame)

  pub decode_log_entry_torn :
      (e : LogEntry) (k : ℕ)
      → IsEncodable e
      → k < length (encode_log_entry e)
      → (x : ReadError) × (decode_log_entry (take k (encode_log_entry e)) ≡ err x)
  unfolding decode_log_entry encode_log_entry
  decode_log_entry_torn e k v h =
      let (x, p) = read_frame_torn crc (encode_payload e) k (payload_bound e v) h in (x, rw p)

  pub encode_pos : (e : LogEntry) → 0 < length (encode_log_entry e)
  unfolding encode_log_entry
  encode_pos e = omega (arith, length-frame crc (encode_payload e))

  abbrev pub decode_entry : List ℕ → Result (LogEntry × List ℕ)
  decode_entry input = do (e, size, rest) ← decode_log_entry input; ok (e, rest)

  pub round_trip :
      (e : LogEntry) (rest : List ℕ)
      → IsEncodable e
      → decode_entry (encode_log_entry e ++ rest) ≡ ok (e, rest)
  round_trip e rest v = rw (decode_log_entry-encode_log_entry e rest v)

  pub torn :
      (e : LogEntry) (k : ℕ)
      → IsEncodable e
      → k < length (encode_log_entry e)
      → (x : ReadError) × (decode_entry (take k (encode_log_entry e)) ≡ err x)
  torn e k v h = let (x, p) = decode_log_entry_torn e k v h in (x, rw p)

  abbrev pub codec : LogCodec LogEntry
  codec = record {
    encode = encode_log_entry;
    decode = decode_entry;
    Fits = IsEncodable;
    encode_pos = encode_pos;
    round_trip = round_trip;
    torn = torn;
  }
