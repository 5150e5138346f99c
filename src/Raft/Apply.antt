-- ===== src/Raft/Apply.antt =====
-- internal/raft/apply.go: proposals, the apply loop and the snapshots that a node takes itself;
-- and from node.go what starts a node and reports on it.
pub mod Pending
use boiler_pulse.Prelude.{
  ℕ, zero, suc, ◌+◌, ◌-◌, String, Bool, false, not, List, [], ◌∷◌, Option, none, some, ltb, leb,
  ◌==◌, ◌&&◌, ◌||◌, if◌then◌else◌, get_elem?, str_eq, u64, sub64,
}
use boiler_pulse.Raft.Types.{State, LogEntry, Options, Status}
use boiler_pulse.Raft.Interfaces.{Storage, StateMachine, SnapshotData}
use boiler_pulse.Raft.Node.{Node, Env, is_leader, reset_election_timer}
use boiler_pulse.Raft.Log.{last_log_index, term_at, append_log, discard_log_prefix}

abbrev pub max_append_batch_size : ℕ
max_append_batch_size = 64

pub data ProposeResult : Type 0 where
  accepted : LogEntry → ProposeResult
  err_not_leader : ProposeResult

-- One round of `waitForApply`; `waiting` sleeps until the next tick.
pub data Poll : Type 0 where
  done overtaken waiting : Poll

-- One round of `applyPending`; `panicked` is an index out of range.
pub data ApplyRound (N : Type 0) : Type 0 where
  caught_up panicked : ApplyRound N
  applied : N → ApplyRound N

abbrev pub snapshot_index : Option SnapshotData → ℕ
snapshot_index none = 0
snapshot_index (some s) = s.last_included_index

abbrev pub snapshot_term : Option SnapshotData → ℕ
snapshot_term none = 0
snapshot_term (some s) = s.last_included_term

-- The entries of a batch, in the order of arrival.
unfoldable pub number_entries : ℕ → ℕ → List (List ℕ) → List LogEntry
number_entries term next [] = []
number_entries term next (c ∷ cs) =
    record { term = term; index = next; command = c } ∷ number_entries term (u64 (next + 1)) cs

unfoldable pub accept_all : List LogEntry → List ProposeResult
accept_all [] = []
accept_all (e ∷ es) = accepted e ∷ accept_all es

unfoldable pub reject_all : List (List ℕ) → List ProposeResult
reject_all [] = []
reject_all (c ∷ cs) = err_not_leader ∷ reject_all cs

module _ {D M : Type 0} where
  unfoldable pub wait_poll : ℕ → ℕ → Node D M → Poll
  wait_poll index proposed_term n =
      if leb index (last_log_index n) && not (term_at n index == proposed_term)
      then overtaken
      else if leb index n.last_applied
      then done
      else if is_leader n.state
      then waiting
      else overtaken

  -- The first critical section of `maybeSnapshot`: the index and the term of the snapshot to take.
  unfoldable pub snapshot_point : Node D M → Option (ℕ × ℕ)
  snapshot_point n =
      if n.opts.snapshot_threshold == 0
      then none
      else if leb n.last_applied n.log_base_index
          || ltb (n.last_applied - n.log_base_index) n.opts.snapshot_threshold
      then none
      else some (n.last_applied, term_at n n.last_applied)

  unfoldable pub status : Node D M → Status
  status n = record {
    id = n.id;
    state = n.state;
    term = n.current_term;
    leader_id = n.leader_id;
    commit_index = n.commit_index;
    last_applied = n.last_applied;
    last_log_index = last_log_index n;
  }

  -- The best known leader, if any.
  unfoldable pub known_leader : Node D M → String × Bool
  known_leader n = (n.leader_id, not (str_eq n.leader_id ""))

  -- The state that `Start` sets up before it starts the goroutines.
  unfoldable pub start : Env → Node D M → Node D M
  start env n = record (reset_election_timer env n) { last_heartbeat_sent = env.now }

module _ {D M : Type 0} (st : Storage D) where
  -- A batch holds at most `max_append_batch_size` commands, which `appendLoop` sees to.
  unfoldable pub append_batch : List (List ℕ) → Node D M → Node D M × List ProposeResult
  append_batch batch n =
      let entries = number_entries n.current_term (u64 (last_log_index n + 1)) batch in
      if is_leader n.state
      then (append_log st entries n, accept_all entries)
      else (n, reject_all batch)

module _ {D M : Type 0} (sm : StateMachine M) where
  -- An error of `Apply` is logged and ignored.
  unfoldable pub apply_round : Node D M → ApplyRound (Node D M)
  apply_round n =
      if leb n.commit_index n.last_applied
      then caught_up
      else let next = u64 (n.last_applied + 1) in
        elim (get_elem? n.log (sub64 (sub64 next n.log_base_index) 1)) [
          | none ↦ panicked
          | some e ↦
              applied (record n { last_applied = next; machine = (sm.apply e.command n.machine).0 })
        ]

  -- The loop of `applyPending` when no other step runs in between, on fuel; `none` is a panic or
  -- the end of the fuel.
  unfoldable pub apply_pending : ℕ → Node D M → Option (Node D M)
  apply_pending zero n = none
  apply_pending (suc fuel) n = elim (apply_round n) [
    | caught_up ↦ some n
    | panicked ↦ none
    | applied n1 ↦ apply_pending fuel n1
  ]

module _ {D M : Type 0} (st : Storage D) (sm : StateMachine M) where
  -- The part of `maybeSnapshot` with no lock held; `false`: it failed, and the log stays.
  unfoldable pub save_own_snapshot : ℕ → ℕ → Node D M → Node D M × Bool
  save_own_snapshot index term n = elim (sm.snapshot n.machine) [
    | none ↦ (n, false)
    | some contents ↦
        let (saved, ok) =
          st.save_snapshot
            (record { last_included_index = index; last_included_term = term; contents = contents })
            n.disk in
        (record n { disk = saved }, ok)
  ]

  abbrev compact_at : Option (ℕ × ℕ) → Node D M → Node D M
  compact_at none n = n
  compact_at (some (index, term)) n =
      let (n1, ok) = save_own_snapshot index term n in
      if ok then discard_log_prefix st index term n1 else n1

  -- The whole of `maybeSnapshot` when nothing else runs in between.
  unfoldable pub maybe_snapshot : Node D M → Node D M
  unfolding save_own_snapshot snapshot_point
  maybe_snapshot n = compact_at (snapshot_point n) n

  abbrev recovered :
      String
      → List String
      → Options
      → D
      → ℕ × String
      → Option SnapshotData
      → M
      → List LogEntry
      → Node D M
  recovered id peers opts disk (term, voted_for) snap machine entries = record {
    id = id;
    peers = peers;
    disk = disk;
    machine = machine;
    opts = opts;
    current_term = term;
    voted_for = voted_for;
    log = entries;
    log_base_index = snapshot_index snap;
    log_base_term = snapshot_term snap;
    state = State.follower;
    commit_index = snapshot_index snap;
    last_applied = snapshot_index snap;
    leader_id = "";
    next_index = λ _. 0;
    match_index = λ _. 0;
    election_reset_at = 0;
    election_timeout = 0;
    last_heartbeat_sent = 0;
    apply_notify = false;
    replicate_ch = λ _. false;
  }

  -- The state machine with the snapshot restored; `none` is an error.
  abbrev restore_machine : Option SnapshotData → M → Option M
  restore_machine none machine = some machine
  restore_machine (some s) machine =
      let (restored, ok) = sm.restore s.contents machine in if ok then some restored else none

  infixl 5 ◌>>=◌
  abbrev ◌>>=◌ : {A B : Type 0} → Option A → (A → Option B) → Option B
  none >>= f = none
  some a >>= f = f a

  -- `none` is an error of the storage or of the state machine.
  unfoldable pub new_node : String → List String → Options → D → M → Option (Node D M)
  new_node id peers opts disk machine = do
    vote ← st.load_term_and_vote disk
    snap ← st.load_snapshot disk
    restored ← restore_machine snap machine
    entries ← st.load_log disk
    some (recovered id peers opts disk vote snap restored entries)
