-- ===== src/Raft/Cluster.antt =====
-- internal/raft: a cluster whose nodes run elections. Each node takes its own critical sections in
-- any order; a request for a vote reaches a peer at most once for each election and peer, as the
-- goroutines of `startElectionLocked` send it, and its reply comes at most once, or never.
pub mod Counting
pub mod Invariant
pub mod Stages
pub mod Moves
pub mod Safety
mod Runs
use boiler_pulse.Prelude.{
  ℕ, ◌+◌, ◌≡◌, ◌≢◌, ◌<◌, ◌^◌, ◌&&◌, ◌==◌, Bool, true, false, String, List, Option, none, some,
  if◌then◌else◌, str_eq,
}
use boiler_pulse.Raft.Types.{RequestVoteArgs, RequestVoteReply}
use boiler_pulse.Raft.Interfaces.{Storage, StateMachine}
use boiler_pulse.Raft.Node.{Node, Env, update}
use boiler_pulse.Raft.Election.{Ballot, tick, handle_vote_reply, handle_request_vote}
use boiler_pulse.Raft.Steps.{Step}
use boiler_pulse.Raft.Steps.Roles.{IsLocal}
use Counting.{Mem}

-- What has become of the request to a peer; `heard` is whether the reply granted the vote.
pub data PeerStatus : Type 0 where
  unasked : PeerStatus
  answered : RequestVoteReply → PeerStatus
  heard : Bool → PeerStatus

abbrev pub at {ℓ} : {A : Type ℓ} → (String → ℕ → A) → String → ℕ → A → String → ℕ → A
at f c t x d u = if str_eq d c && u == t then x else f d u

-- The ballots and the statuses are of the elections of a candidate in a term. `granted` is kept
-- for the proofs alone: the candidate that a voter has granted its vote in a term, itself included.
pub record Cluster (D M : Type 0) : Type 0 where
  pub node : String → Node D M
  pub ballot : String → ℕ → Ballot
  pub status : String → ℕ → String → PeerStatus
  pub granted : String → ℕ → Option String

pub data Move {D M : Type 0} (st : Storage D) (sm : StateMachine M) (k : Cluster D M)
    : Cluster D M → Type 0 where
  local :
      (v : String) (m : Node D M) (s : Step st sm (k.node v) m)
      → IsLocal st sm s
      → Move st sm k (record k { node = update k.node v m })
  elect :
      (c : String) (env : Env) (args : RequestVoteArgs) (b : Ballot)
      → c ≢ ""
      → (k.node c).current_term + 1 < 2 ^ 64
      → (tick st env (k.node c)).1 ≡ some (args, b)
      → Move st sm k (record k {
        node = update k.node c (tick st env (k.node c)).0;
        ballot = at k.ballot c b.term b;
        granted = at k.granted c b.term (some c);
      })
  deliver :
      (c v : String) (env : Env) (args : RequestVoteArgs)
      → 0 < (k.ballot c args.term).votes
      → args.candidate_id ≡ c
      → Mem v (k.node c).peers
      → k.status c args.term v ≡ unasked
      → Move st sm k (record k {
        node = update k.node v (handle_request_vote st env args (k.node v)).0;
        status = at k.status c args.term (
            update
              (k.status c args.term)
              v
              (answered (handle_request_vote st env args (k.node v)).1));
        granted =
            if (handle_request_vote st env args (k.node v)).1.vote_granted
            then at k.granted v args.term (some c)
            else k.granted;
      })
  tally :
      (c v : String) (t : ℕ) (reply : RequestVoteReply)
      → Mem v (k.node c).peers
      → k.status c t v ≡ answered reply
      → Move st sm k (record k {
        node = update k.node c (handle_vote_reply st (k.ballot c t) reply (k.node c)).0;
        ballot = at k.ballot c t (handle_vote_reply st (k.ballot c t) reply (k.node c)).1;
        status = at k.status c t (update (k.status c t) v (heard reply.vote_granted));
      })

pub data Run {D M : Type 0} (st : Storage D) (sm : StateMachine M) (k : Cluster D M)
    : Cluster D M → Type 0 where
  here : Run st sm k k
  next : {l m : Cluster D M} → Run st sm k l → Move st sm l m → Run st sm k m
