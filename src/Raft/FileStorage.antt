-- ===== src/Raft/FileStorage.antt =====
-- internal/raft/filestorage.go: the durable storage of a node. The log file is its bytes; the two
-- JSON files are what they hold, `none` for a missing file. Every write here succeeds: a failure
-- before a rename leaves the file as it was, which is the state before the operation.
-- `cursor` is the file's offset. A file opened with O_APPEND, as `DiscardLogThrough` does, starts at
-- offset 0, writes at its end, and moves its offset there.
pub mod Recovery
pub mod Truncation
mod Runs
use boiler_pulse.Prelude.{
  ℕ, zero, suc, ◌+◌, ◌-◌, String, Bool, true, false, List, [], ◌∷◌, ◌++◌, Option, none, some, ltb,
  leb, if◌then◌else◌, length, get_elem?, take, drop,
}
use boiler_pulse.Bytes.{ok, err}
use boiler_pulse.Bytes.Frame.{Checksum}
use boiler_pulse.Bytes.LogCodec.{write_all}
use boiler_pulse.Raft.Types.{LogEntry}
use boiler_pulse.Raft.Interfaces.{Storage, SnapshotData}
use boiler_pulse.Raft.EntryCodec.{encode_log_entry, decode_log_entry, codec}

pub record FileStorage : Type 0 where
  pub log_file : List ℕ
  pub cursor : ℕ
  pub append_only : Bool
  pub state_file : Option (ℕ × String)
  pub snapshot_file : Option SnapshotData
  pub offsets : List ℕ
  pub loaded : List LogEntry
  pub base_index : ℕ

-- What `replayLogFile` returns.
pub record Replayed : Type 0 where
  pub entries : List LogEntry
  pub offsets : List ℕ
  pub valid_length : ℕ

abbrev pub prepend : LogEntry → ℕ → Replayed → Replayed
prepend e offset r = record {
  entries = e ∷ r.entries;
  offsets = offset ∷ r.offsets;
  valid_length = r.valid_length;
}

abbrev pub get_or_zero : Option ℕ → ℕ
get_or_zero none = 0
get_or_zero (some x) = x

abbrev pub base_of : Option SnapshotData → ℕ
base_of none = 0
base_of (some s) = s.last_included_index

-- The position of `index` among the retained entries.
unfoldable pub position : ℕ → FileStorage → Option ℕ
position index fs =
    if leb index fs.base_index
    then none
    else let pos = index - fs.base_index - 1 in
      if leb (length fs.loaded) pos then none else some pos

-- `cutOffset` is `offsets[pos]`, which is there for every entry that is loaded.
unfoldable pub truncate_from : ℕ → FileStorage → FileStorage
unfolding position
truncate_from index fs = elim (position index fs) [
  | none ↦ fs
  | some pos ↦ record fs {
    log_file = take (get_or_zero (get_elem? fs.offsets pos)) fs.log_file;
    cursor = get_or_zero (get_elem? fs.offsets pos);
    offsets = take pos fs.offsets;
    loaded = take pos fs.loaded;
  }
]

unfoldable pub save_snapshot : SnapshotData → FileStorage → FileStorage
save_snapshot s fs = record fs { snapshot_file = some s }

unfoldable pub save_term_and_vote : ℕ → String → FileStorage → FileStorage
save_term_and_vote term voted_for fs = record fs { state_file = some (term, voted_for) }

unfoldable pub load_term_and_vote : FileStorage → ℕ × String
load_term_and_vote fs = elim fs.state_file [ none ↦ (0, "") | some s ↦ s ]

-- `bytes` over what is in the file from `start` on.
unfoldable pub write_at : ℕ → List ℕ → List ℕ → List ℕ
write_at start bytes file = take start file ++ (bytes ++ drop (start + length bytes) file)

module _ (crc : Checksum) where
  -- The loop of `replayLogFile` from `offset` on, on fuel.
  unfoldable pub replay_loop : ℕ → ℕ → List ℕ → Replayed
  replay_loop zero offset input = record { entries = []; offsets = []; valid_length = offset }
  replay_loop (suc fuel) offset input = elim (decode_log_entry crc input) [
    | err e ↦ record { entries = []; offsets = []; valid_length = offset }
    | ok (e, size, rest) ↦ prepend e offset (replay_loop fuel (offset + size) rest)
  ]

  unfoldable pub replay_log_file : List ℕ → Replayed
  unfolding replay_loop
  replay_log_file file = replay_loop (suc (length file)) 0 file

  -- `OpenFileStorage` on the three files.
  unfoldable pub open_file_storage :
      List ℕ → Option (ℕ × String) → Option SnapshotData → FileStorage
  unfolding replay_log_file
  open_file_storage file state snap =
      let r = replay_log_file file in
      record {
        log_file = take r.valid_length file;
        cursor = length (take r.valid_length file);
        append_only = false;
        state_file = state;
        snapshot_file = snap;
        offsets = r.offsets;
        loaded = r.entries;
        base_index = base_of snap;
      }

  unfoldable pub append_entry : LogEntry → FileStorage → FileStorage
  unfolding write_at
  append_entry e fs =
      let frame = encode_log_entry crc e in
      let start = if fs.append_only then length fs.log_file else fs.cursor in
      record fs {
        log_file = write_at start frame fs.log_file;
        cursor = start + length frame;
        offsets = fs.offsets ++ fs.cursor ∷ [];
        loaded = fs.loaded ++ e ∷ [];
      }

  unfoldable pub append_entries : List LogEntry → FileStorage → FileStorage
  unfolding append_entry
  append_entries [] fs = fs
  append_entries (e ∷ es) fs = append_entries es (append_entry e fs)

  -- The new file is written entry by entry, with the offsets counted along.
  unfoldable pub rewrite_offsets : ℕ → List LogEntry → List ℕ
  rewrite_offsets offset [] = []
  rewrite_offsets offset (e ∷ es) =
      offset ∷ rewrite_offsets (offset + length (encode_log_entry crc e)) es

  unfoldable pub discard_log_through : ℕ → FileStorage → FileStorage
  unfolding rewrite_offsets write_all
  discard_log_through index fs =
      if leb index fs.base_index
      then fs
      else let keep = drop (index - fs.base_index) fs.loaded in
        record fs {
          log_file = write_all (codec crc) keep;
          cursor = 0;
          append_only = true;
          offsets = rewrite_offsets 0 keep;
          loaded = keep;
          base_index = index;
        }

  -- The interface that the node is given.
  abbrev pub file_storage : Storage FileStorage
  file_storage = record {
    save_term_and_vote = λ term voted_for fs. (save_term_and_vote term voted_for fs, true);
    load_term_and_vote = λ fs. some (load_term_and_vote fs);
    append_entries = λ es fs. (append_entries es fs, true);
    truncate_from = λ index fs. (truncate_from index fs, true);
    load_log = λ fs. some fs.loaded;
    save_snapshot = λ s fs. (save_snapshot s fs, true);
    load_snapshot = λ fs. some fs.snapshot_file;
    discard_log_through = λ index fs. (discard_log_through index fs, true);
  }
