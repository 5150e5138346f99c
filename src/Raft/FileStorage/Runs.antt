-- ===== src/Raft/FileStorage/Runs.antt =====
-- internal/raft/{logentry_codec,filestorage}.go: the theorems at concrete inputs, with a checksum
-- that is always 0.
use boiler_pulse.Prelude.{
  ℕ, ◌+◌, ◌-◌, ◌≡◌, ◌≢◌, refl, ap, List, [], ◌∷◌, ◌++◌, none, some, arith, length, take, drop, true,
  false,
}
use boiler_pulse.Bytes.{err, eof, read_uint, read_full}
use boiler_pulse.Bytes.Frame.{Checksum, read_frame}
use boiler_pulse.Bytes.LogCodec.{write_all}
use boiler_pulse.Raft.Types.{LogEntry, State, default_options}
use boiler_pulse.Raft.Interfaces.{SnapshotData, StateMachine}
use boiler_pulse.Raft.Node.{Node}
use boiler_pulse.Raft.Apply.{new_node}
use boiler_pulse.Raft.Log.Dense.{IsDense}
use boiler_pulse.Raft.EntryCodec.{IsEncodable, decode_log_entry, codec}
use boiler_pulse.Raft.FileStorage.{
  FileStorage, rewrite_offsets, load_term_and_vote, open_file_storage, truncate_from,
  discard_log_through, append_entry, save_snapshot, file_storage,
}
use boiler_pulse.Raft.FileStorage.Recovery.{IsConsistent, open_file_storage_recovers}
use boiler_pulse.Raft.FileStorage.Truncation.{
  truncate_from-IsConsistent, truncate_from_after_discard, new_node_before_discard,
}

abbrev zero_sum : Checksum
zero_sum = record { sum = λ bs. 0; sum-lt = λ bs. omega arith }

abbrev command_at : ℕ → LogEntry
command_at index = record { term = 1; index = index; command = index ∷ [] }

abbrev first : LogEntry
first = command_at 1

abbrev second : LogEntry
second = command_at 2

first_fits : IsEncodable first
first_fits = record { term = omega arith; index = omega arith; command = omega arith }

second_fits : IsEncodable second
second_fits = record { term = omega arith; index = omega arith; command = omega arith }

-- A tail that is not even a size.
torn_tail : decode_log_entry zero_sum [] ≡ err eof
unfolding decode_log_entry read_frame read_uint read_full
torn_tail = refl

abbrev reopened : FileStorage
reopened =
    open_file_storage zero_sum (write_all (codec zero_sum) (first ∷ second ∷ []) ++ []) none none

open_file_storage_recovers_example :
    (reopened.loaded ≡ first ∷ second ∷ []) × IsConsistent zero_sum reopened
open_file_storage_recovers_example =
    open_file_storage_recovers zero_sum (first ∷ second ∷ []) [] eof none none
      (first_fits, (second_fits, tt)) torn_tail

reopened-IsConsistent : IsConsistent zero_sum reopened
reopened-IsConsistent =
    (open_file_storage_recovers zero_sum (first ∷ second ∷ []) [] eof none none
      (first_fits, (second_fits, tt)) torn_tail).1

-- A storage that holds both entries, written out.
abbrev stored : FileStorage
stored = record {
  log_file = write_all (codec zero_sum) (first ∷ second ∷ []);
  cursor = length (write_all (codec zero_sum) (first ∷ second ∷ []));
  append_only = false;
  state_file = none;
  snapshot_file = none;
  offsets = rewrite_offsets zero_sum 0 (first ∷ second ∷ []);
  loaded = first ∷ second ∷ [];
  base_index = 0;
}

stored-IsConsistent : IsConsistent zero_sum stored
stored-IsConsistent = record { file = refl; offsets = refl; at_end = refl }

truncate_from-IsConsistent_example :
    IsConsistent zero_sum (truncate_from (0 + 1 + 1) stored)
    × ((truncate_from (0 + 1 + 1) stored).loaded ≡ take 1 (first ∷ second ∷ []))
truncate_from-IsConsistent_example =
    truncate_from-IsConsistent zero_sum 1 stored stored-IsConsistent (omega arith)

truncate_from_after_discard_example :
    (let kept = drop (1 - 0) (first ∷ second ∷ []) in
      let after =
        truncate_from
          (1 + length kept + 1)
          (append_entry zero_sum (command_at 3) (discard_log_through zero_sum 1 stored)) in
      (after.log_file ≡ []) × (after.loaded ≡ kept))
truncate_from_after_discard_example =
    truncate_from_after_discard zero_sum 1 (command_at 3) stored (omega arith)

-- A state machine that keeps the last command.
abbrev machine : StateMachine (List ℕ)
machine = record { apply = λ c m. (c, true); snapshot = λ m. some m; restore = λ c m. (c, true) }

abbrev at_first : SnapshotData
at_first = record { last_included_index = 1; last_included_term = 1; contents = 1 ∷ [] }

-- The node that starts from the snapshot and the whole log.
abbrev restarted : Node FileStorage (List ℕ)
restarted = record {
  id = "n1";
  peers = [];
  disk = save_snapshot at_first stored;
  machine = 1 ∷ [];
  opts = default_options;
  current_term = 0;
  voted_for = "";
  log = first ∷ second ∷ [];
  log_base_index = 1;
  log_base_term = 1;
  state = State.follower;
  commit_index = 1;
  last_applied = 1;
  leader_id = "";
  next_index = λ _. 0;
  match_index = λ _. 0;
  election_reset_at = 0;
  election_timeout = 0;
  last_heartbeat_sent = 0;
  apply_notify = false;
  replicate_ch = λ _. false;
}

restarts :
    new_node
      (file_storage zero_sum)
      machine
      "n1"
      []
      default_options
      (save_snapshot at_first stored)
      []
    ≡ some restarted
unfolding new_node save_snapshot load_term_and_vote
restarts = refl

stored_some : stored.loaded ≢ []
stored_some e = absurd (nonempty e)
  where
    nonempty : first ∷ second ∷ [] ≡ [] → ⊥
    nonempty h = omega (arith, ap length h)

new_node_before_discard_example :
    (restarted.log_base_index ≡ 1)
    × (restarted.log ≡ first ∷ second ∷ [])
    × ¬ IsDense restarted.log_base_index restarted.log
new_node_before_discard_example =
    new_node_before_discard zero_sum machine "n1" [] default_options stored at_first [] restarted
      (refl, (refl, tt)) stored_some (omega arith) restarts
