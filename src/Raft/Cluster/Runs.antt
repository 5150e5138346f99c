-- ===== src/Raft/Cluster/Runs.antt =====
-- internal/raft: an election among three nodes, and the theorems on it.
use boiler_pulse.Prelude.{
  ℕ, ◌-◌, ◌≡◌, ◌≢◌, refl, sym, ap, Bool, true, false, String, List, [], ◌∷◌, ◌++◌, none, some,
  arith, if◌then◌else◌, str_eq, take, drop, eq_iff,
}
use mathlib.Core.Bool.{false≢true}
use boiler_pulse.Raft.Types.{State, LogEntry, RequestVoteArgs, default_options}
use boiler_pulse.Raft.Interfaces.{Storage, StateMachine}
use boiler_pulse.Raft.Node.{
  Node, Env, majority, reset_election_timer, persist_term_and_vote, random_duration,
  become_follower,
}
use boiler_pulse.Raft.Log.{last_log_index, last_log_term}
use boiler_pulse.Raft.Election.{
  tick, start_election, handle_request_vote, handle_vote_reply, decide_vote, become_leader,
}
use boiler_pulse.Raft.Cluster.{Cluster, unasked, elect, deliver, tally, Run, here, next}
use boiler_pulse.Raft.Cluster.Counting.{count, Mem, first, later}
use boiler_pulse.Raft.Cluster.Safety.{Fresh, election_safety}

-- Only the log is kept; every write succeeds.
abbrev disk : Storage (List LogEntry)
disk = record {
  save_term_and_vote = λ t v d. (d, true);
  load_term_and_vote = λ d. some (0, "");
  append_entries = λ es d. (d ++ es, true);
  truncate_from = λ i d. (take (i - 1) d, true);
  load_log = λ d. some d;
  save_snapshot = λ s d. (d, true);
  load_snapshot = λ d. some none;
  discard_log_through = λ i d. (drop i d, true);
}

-- A state machine that keeps the last command.
abbrev machine : StateMachine (List ℕ)
machine = record { apply = λ c m. (c, true); snapshot = λ m. some m; restore = λ c m. (c, true) }

abbrev others : String → List String
others v =
    if str_eq v "n1"
    then "n2" ∷ "n3" ∷ []
    else (if str_eq v "n2" then "n1" ∷ "n3" ∷ [] else "n1" ∷ "n2" ∷ [])

abbrev follower : String → Node (List LogEntry) (List ℕ)
follower v = record {
  id = v;
  peers = others v;
  disk = [];
  machine = [];
  opts = default_options;
  current_term = 2;
  voted_for = "";
  log = [];
  log_base_index = 0;
  log_base_term = 0;
  state = State.follower;
  commit_index = 0;
  last_applied = 0;
  leader_id = "";
  next_index = λ p. 0;
  match_index = λ p. 0;
  election_reset_at = 0;
  election_timeout = 300;
  last_heartbeat_sent = 0;
  apply_notify = false;
  replicate_ch = λ p. false;
}

abbrev members : List String
members = "n1" ∷ "n2" ∷ "n3" ∷ []

abbrev quiet : Cluster (List LogEntry) (List ℕ)
quiet = record {
  node = follower;
  ballot = λ c t. record { term = 0; votes = 0 };
  status = λ c t v. unasked;
  granted = λ v t. none;
}

is_follower : State → Bool
is_follower State.leader = false
is_follower _ = true

quiet-Fresh : Fresh members quiet
unfolding count is_follower
quiet-Fresh = record {
  ids = λ v. refl;
  config = shares;
  no_leader = λ c h. false≢true (sym (ap is_follower h));
  no_ballot = λ c t. refl;
  no_request = λ c v t. refl;
  no_grant = λ v t. refl;
}
  where
    shares :
        (c : String)
        → Mem c members
        → (p : String → Bool) → count p (c ∷ others c) ≡ count p members
    shares c first p = refl
    shares c (later first) p = ground arith
    shares c (later (later first)) p = ground arith
    shares c (later (later (later m))) p = elim m [ ]

abbrev env : Env
env = record { now = 1000; int63n = λ k. 0 }

abbrev ask : RequestVoteArgs
ask = record { term = 3; candidate_id = "n1"; last_log_index = 0; last_log_term = 0 }

named : ◌≢◌ {A = String} "n1" ""
named h = false≢true ((eq_iff "n1" "").1 h)

-- n1 calls an election, n2 grants its vote, and n1 counts it.
elected :
    (k : Cluster (List LogEntry) (List ℕ)) × Run disk machine quiet k
    × ((k.node "n1").state ≡ State.leader)
unfolding tick start_election persist_term_and_vote reset_election_timer random_duration
    handle_request_vote become_follower decide_vote last_log_index last_log_term handle_vote_reply
    majority become_leader
elected = (
  _,
  next
      (next
        (next here (elect "n1" env ask (record { term = 3; votes = 1 }) named (omega arith) refl))
        (deliver "n1" "n2" env ask (omega arith) refl first refl))
      (tally "n1" "n2" 3 (record { term = 3; vote_granted = true }) first refl),
  refl,
)

election_safety_example : ◌≡◌ {A = String} "n1" "n1"
election_safety_example =
    election_safety disk machine quiet elected.0 quiet-Fresh elected.1 "n1" "n1" first first
      elected.2 elected.2 refl
