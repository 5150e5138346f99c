-- ===== src/Raft/Runs.antt =====
-- internal/raft: tests, and the theorems at concrete inputs, over an abstract disk kept in memory.
use boiler_pulse.Prelude.{
  ltb, ℕ, ◌≤◌, ◌-◌, ◌≡◌, refl, ◌↔◌, ◌⊎◌, true, false, List, [], ◌∷◌, ◌++◌, none, some, String,
  arith, take, drop, get_elem?, eq_iff,
}
use mathlib.Core.Bool.{false≢true}
use boiler_pulse.Raft.Types.{
  State, LogEntry, RequestVoteArgs, AppendEntriesArgs, InstallSnapshotArgs, default_options,
}
use boiler_pulse.Raft.Interfaces.{Storage, StateMachine}
use boiler_pulse.Raft.Node.{Node, Env, become_follower}
use boiler_pulse.Raft.Log.{last_log_index, last_log_term, term_at, append_log, truncate_log_from}
use boiler_pulse.Raft.Log.Dense.{IsDense}
use boiler_pulse.Raft.Election.{handle_request_vote, decide_vote}
use boiler_pulse.Raft.Election.Votes.{handle_request_vote-granted_iff, UpToDate, Free}
use boiler_pulse.Raft.Replication.{
  handle_append_entries, check_entries, accept_entries, store_entries, follow_leader, follow_commit,
  maybe_advance_commit_index,
}
use boiler_pulse.Raft.Replication.Handler.{Consistent, handle_append_entries-success_iff}
use boiler_pulse.Raft.Replication.Outcome.{merged, log-handle_append_entries}
use boiler_pulse.Raft.Replication.Theorems.{
  handle_append_entries-IsDense, handle_append_entries_keeps,
}
use boiler_pulse.Raft.Apply.{ApplyRound, apply_round, apply_pending}
use boiler_pulse.Raft.Snapshot.{finish_install, handle_install_snapshot}
use boiler_pulse.Raft.Rpc.{
  Rate, Faults, let_through, passes, send_request_vote, send_append_entries, send_install_snapshot,
}
use boiler_pulse.Raft.Rpc.Delivery.{send-delivers, direct, answered_if}
use boiler_pulse.Raft.Replication.Compacted.{
  apply_round-finish_install, log-handle_append_entries_from_start,
}
use boiler_pulse.Raft.Apply.Pending.{run_commands, apply_pending_applies}
use boiler_pulse.Raft.Replication.Commit.{Stays, Advances, maybe_advance_commit_index_cases}
use boiler_pulse.Raft.Steps.{here}
use boiler_pulse.Raft.Steps.Terms.{one_vote_per_term}

-- Only the log is kept; every write succeeds.
abbrev disk : Storage (List LogEntry)
disk = record {
  save_term_and_vote = λ t v d. (d, true);
  load_term_and_vote = λ d. some (0, "");
  append_entries = λ es d. (d ++ es, true);
  truncate_from = λ i d. (take (i - 1) d, true);
  load_log = λ d. some d;
  save_snapshot = λ s d. (d, true);
  load_snapshot = λ d. some none;
  discard_log_through = λ i d. (drop i d, true);
}

-- A state machine that keeps the last command.
abbrev machine : StateMachine (List ℕ)
machine = record { apply = λ c m. (c, true); snapshot = λ m. some m; restore = λ c m. (c, true) }

abbrev entry : ℕ → ℕ → LogEntry
entry term index = record { term = term; index = index; command = index ∷ [] }

abbrev node : State → List LogEntry → Node (List LogEntry) (List ℕ)
node state log = record {
  id = "n1";
  peers = "n2" ∷ "n3" ∷ [];
  disk = log;
  machine = [];
  opts = default_options;
  current_term = 2;
  voted_for = "";
  log = log;
  log_base_index = 0;
  log_base_term = 0;
  state = state;
  commit_index = 1;
  last_applied = 1;
  leader_id = "";
  next_index = λ p. 1;
  match_index = λ p. 2;
  election_reset_at = 0;
  election_timeout = 300;
  last_heartbeat_sent = 0;
  apply_notify = false;
  replicate_ch = λ p. false;
}

abbrev old_log : List LogEntry
old_log = entry 1 1 ∷ entry 1 2 ∷ entry 1 3 ∷ []

abbrev env : Env
env = record { now = 1000; int63n = λ k. 0 }

abbrev ask : String → RequestVoteArgs
ask who = record { term = 3; candidate_id = who; last_log_index = 3; last_log_term = 1 }

-- Entry 2 of term 2 takes the place of the entries 2 and 3 of term 1.
abbrev push : AppendEntriesArgs
push = record {
  term = 2;
  leader_id = "n2";
  prev_log_index = 1;
  prev_log_term = 1;
  entries = entry 2 2 ∷ [];
  leader_commit = 2;
}

pushed :
    (handle_append_entries disk env push (node State.follower old_log)).0.log
    ≡ entry 1 1 ∷ entry 2 2 ∷ []
unfolding handle_append_entries check_entries accept_entries store_entries follow_leader
    follow_commit term_at last_log_index append_log truncate_log_from
pushed = refl

push-Consistent : Consistent push (node State.follower old_log)
unfolding term_at last_log_index
push-Consistent p = (omega arith, omega arith, refl)

handle_append_entries-success_iff_example :
    ((handle_append_entries disk env push (node State.follower old_log)).1.success ≡ true)
    ↔ ((2 ≤ 2) × Consistent push (node State.follower old_log))
handle_append_entries-success_iff_example =
    handle_append_entries-success_iff disk env push (node State.follower old_log)

log-handle_append_entries_example :
    (handle_append_entries disk env push (node State.follower old_log)).0.log
    ≡ merged 0 1 old_log (entry 2 2 ∷ [])
log-handle_append_entries_example =
    log-handle_append_entries disk env push (node State.follower old_log) (omega arith)
      (omega arith) push-Consistent (omega arith) (omega arith)

handle_append_entries-IsDense_example :
    IsDense 0 (handle_append_entries disk env push (node State.follower old_log)).0.log
handle_append_entries-IsDense_example =
    handle_append_entries-IsDense disk env push (node State.follower old_log) (omega arith)
      (omega arith) push-Consistent (omega arith) (omega arith) (omega arith)

handle_append_entries_keeps_example :
    get_elem? (handle_append_entries disk env push (node State.follower old_log)).0.log 0
    ≡ some (entry 1 1)
handle_append_entries_keeps_example =
    handle_append_entries_keeps disk env push (node State.follower old_log) (omega arith)
      (omega arith) push-Consistent (omega arith) (omega arith) 1 0 (λ i a b. absurd (omega arith))
      (omega arith) (omega arith)

maybe_advance_commit_index_cases_example :
    Stays
      (last_log_index (node State.leader old_log))
      (node State.leader old_log)
      (maybe_advance_commit_index (node State.leader old_log))
    ⊎ ((c : ℕ) × Advances
          (last_log_index (node State.leader old_log))
          (node State.leader old_log)
          (maybe_advance_commit_index (node State.leader old_log))
          c)
maybe_advance_commit_index_cases_example =
    maybe_advance_commit_index_cases (node State.leader old_log) refl

handle_request_vote-granted_iff_example :
    ((handle_request_vote disk env (ask "n2") (node State.follower old_log)).1.vote_granted ≡ true)
    ↔ ((2 ≤ 3)
        × Free (ask "n2") (node State.follower old_log)
        × UpToDate (ask "n2") (node State.follower old_log))
handle_request_vote-granted_iff_example =
    handle_request_vote-granted_iff disk env (ask "n2") (node State.follower old_log)

voted :
    (handle_request_vote disk env (ask "n2") (node State.follower old_log)).1.vote_granted ≡ true
unfolding handle_request_vote become_follower decide_vote last_log_index last_log_term
voted = refl

voted_again :
    (handle_request_vote disk env
      (ask "n2")
      (handle_request_vote disk env (ask "n2") (node State.follower old_log)).0).1.vote_granted
    ≡ true
unfolding handle_request_vote become_follower decide_vote last_log_index last_log_term
voted_again = refl

one_vote_per_term_example : ◌≡◌ {A = String} "n2" "n2"
one_vote_per_term_example =
    one_vote_per_term disk machine env env (ask "n2") (ask "n2") (node State.follower old_log)
      (handle_request_vote disk env (ask "n2") (node State.follower old_log)).0 here voted
      voted_again refl (λ e. false≢true ((eq_iff "n2" "").1 e))

-- A node with two committed entries that are not applied yet.
abbrev behind : Node (List LogEntry) (List ℕ)
behind = record (node State.follower old_log) { commit_index = 3 }

apply_pending_applies_example :
    apply_pending machine 3 behind
    ≡ some (record behind {
      last_applied = 3;
      machine = run_commands machine (entry 1 2 ∷ entry 1 3 ∷ []) [];
    })
apply_pending_applies_example =
    apply_pending_applies machine behind (omega arith) (omega arith) (omega arith) (omega arith)

-- A follower that has compacted its log up to entry 4.
abbrev compacted : Node (List LogEntry) (List ℕ)
compacted = record (node State.follower (entry 1 5 ∷ [])) {
  log_base_index = 4;
  log_base_term = 1;
  commit_index = 9;
  last_applied = 5;
}

abbrev install : InstallSnapshotArgs
install = record {
  term = 2;
  leader_id = "n2";
  last_included_index = 7;
  last_included_term = 1;
  contents = [];
}

apply_round-finish_install_example :
    apply_round machine (finish_install disk install compacted).0 ≡ ApplyRound.panicked
apply_round-finish_install_example =
    apply_round-finish_install disk machine install compacted (omega arith) (omega arith)
      (omega arith)

log-handle_append_entries_from_start_example :
    (handle_append_entries disk env (record push { prev_log_index = 0 }) compacted).0.log
    ≡ entry 1 5 ∷ entry 2 2 ∷ []
log-handle_append_entries_from_start_example =
    log-handle_append_entries_from_start disk env (record push { prev_log_index = 0 }) (entry 2 2)
      [] compacted (refl, tt) (omega arith) (omega arith) refl refl (λ e. absurd (omega (arith, e)))

-- A roll of the dice, and faults, of whole numbers.
abbrev dice : Rate ℕ
dice = record { zero_rate = 0; one_rate = 1; less = λ a b. ltb a b }

abbrev lossy : Faults ℕ
lossy = record { partitioned = false; latency = 0; drop_rate = 1 }

send-delivers_example :
    ((args : RequestVoteArgs)
      → send_request_vote dice
          (direct dice disk machine env (some lossy) 3)
          (λ p. some p)
          none
          0
          "n1"
          args
          (node State.follower old_log)
        ≡ answered_if true
            (handle_request_vote disk env args (node State.follower old_log))
            (node State.follower old_log))
    × ((args : AppendEntriesArgs)
        → send_append_entries dice
            (direct dice disk machine env (some lossy) 3)
            (λ p. some p)
            none
            0
            "n1"
            args
            (node State.follower old_log)
          ≡ answered_if true
              (handle_append_entries disk env args (node State.follower old_log))
              (node State.follower old_log))
    × ((args : InstallSnapshotArgs)
        → send_install_snapshot dice
            (direct dice disk machine env (some lossy) 3)
            (λ p. some p)
            none
            0
            "n1"
            args
            (node State.follower old_log)
          ≡ answered_if true
              (handle_install_snapshot disk machine env args (node State.follower old_log))
              (node State.follower old_log))
unfolding let_through passes
send-delivers_example =
    send-delivers dice disk machine env (some lossy) 3 none (λ p. some p) 0 "n1" "n1" refl
      (node State.follower old_log)
