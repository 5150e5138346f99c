-- ===== src/Raft/Node.antt =====
-- internal/raft/node.go: the state of a node and the transitions that every handler shares.
-- Every function is one critical section under `mu`, so it is a function on the state. The logger
-- is left out; the stop and done channels belong to the goroutines, which are not modelled.
use boiler_pulse.Prelude.{
  ℕ, ◌+◌, ◌-◌, ◌/◌, String, Bool, true, false, List, ltb, leb, if◌then◌else◌, length, str_eq,
}
use boiler_pulse.Raft.Types.{State, LogEntry, Options}
use boiler_pulse.Raft.Interfaces.{Storage}

-- `D` and `M` are the states of the storage and of the state machine. A Go map of `uint64` reads 0
-- at a missing key: it is a function. A channel of capacity 1 that carries no value is a flag.
pub record Node (D M : Type 0) : Type 0 where
  pub id : String
  pub peers : List String
  pub disk : D
  pub machine : M
  pub opts : Options
  pub current_term : ℕ
  pub voted_for : String
  pub log : List LogEntry
  pub log_base_index : ℕ
  pub log_base_term : ℕ
  pub state : State
  pub commit_index : ℕ
  pub last_applied : ℕ
  pub leader_id : String
  pub next_index : String → ℕ
  pub match_index : String → ℕ
  pub election_reset_at : ℕ
  pub election_timeout : ℕ
  pub last_heartbeat_sent : ℕ
  pub apply_notify : Bool
  pub replicate_ch : String → Bool

-- What a handler reads from outside: `time.Now()` and `rand.Int63n`.
pub record Env : Type 0 where
  pub now : ℕ
  pub int63n : ℕ → ℕ

abbrev pub is_leader : State → Bool
is_leader State.leader = true
is_leader _ = false

abbrev pub is_candidate : State → Bool
is_candidate State.candidate = true
is_candidate _ = false

abbrev pub update {ℓ} : {A : Type ℓ} → (String → A) → String → A → String → A
update m key value k = if str_eq k key then value else m k

-- election.go: the durations are at most 2 ^ 63, and the sum stays below `hi`.
unfoldable pub random_duration : Env → ℕ → ℕ → ℕ
random_duration env lo hi = if leb hi lo then lo else lo + env.int63n (hi - lo)

module _ {D M : Type 0} where
  unfoldable pub majority : Node D M → ℕ
  majority n = (length n.peers + 1) / 2 + 1

  unfoldable pub reset_election_timer : Env → Node D M → Node D M
  reset_election_timer env n = record n {
    election_reset_at = env.now;
    election_timeout = random_duration env n.opts.min_election_timeout n.opts.max_election_timeout;
  }

module _ {D M : Type 0} (st : Storage D) where
  -- An error of the storage is logged and ignored.
  unfoldable pub persist_term_and_vote : Node D M → Node D M
  persist_term_and_vote n = record n {
    disk = (st.save_term_and_vote n.current_term n.voted_for n.disk).0;
  }

  unfoldable pub become_follower : ℕ → Node D M → Node D M
  unfolding persist_term_and_vote
  become_follower term n =
      let n1 = record n { state = State.follower; leader_id = "" } in
      if ltb n.current_term term
      then persist_term_and_vote (record n1 { current_term = term; voted_for = "" })
      else n1
