-- ===== src/Raft/Rpc.antt =====
-- internal/raft/rpc: faults.go, client.go and server.go. gRPC is a parameter that carries the
-- messages of raftpb between a client and an address; a float64 is one with `<`. A latency only
-- delays, and the context of a call is left out.
pub mod Delivery
use boiler_pulse.Prelude.{
  ℕ, ◌+◌, String, Bool, true, false, not, List, [], ◌∷◌, Option, none, some, if◌then◌else◌, ltb,
  ◌&&◌, str_eq,
}
use boiler_pulse.Raft.Types.{
  LogEntry, RequestVoteArgs, RequestVoteReply, AppendEntriesArgs, AppendEntriesReply,
  InstallSnapshotArgs, InstallSnapshotReply,
}
use boiler_pulse.Raft.Interfaces.{Storage, StateMachine}
use boiler_pulse.Raft.Node.{Node, Env}
use boiler_pulse.Raft.Election.{handle_request_vote}
use boiler_pulse.Raft.Replication.{handle_append_entries}
use boiler_pulse.Raft.Snapshot.{handle_install_snapshot}

-- 0, 1 and `<` of float64.
pub record Rate (F : Type 0) : Type 0 where
  pub zero_rate : F
  pub one_rate : F
  pub less : F → F → Bool

pub record Faults (F : Type 0) : Type 0 where
  pub partitioned : Bool
  pub latency : ℕ
  pub drop_rate : F

module _ {F : Type 0} where
  unfoldable pub set_partitioned : Bool → Faults F → Faults F
  set_partitioned p f = record f { partitioned = p }

  unfoldable pub set_latency : ℕ → Faults F → Faults F
  set_latency d f = record f { latency = d }

module _ {F : Type 0} (fl : Rate F) where
  unfoldable pub new_faults : Faults F
  new_faults = record { partitioned = false; latency = 0; drop_rate = fl.zero_rate }

  unfoldable pub set_drop_rate : F → Faults F → Faults F
  set_drop_rate rate f =
      let low = if fl.less rate fl.zero_rate then fl.zero_rate else rate in
      record f { drop_rate = if fl.less fl.one_rate low then fl.one_rate else low }

  unfoldable pub reset : Faults F → Faults F
  unfolding new_faults
  reset f = new_faults

  -- `apply`, for a roll of the dice; `false` drops the message.
  unfoldable pub passes : F → Faults F → Bool
  passes roll f =
      if f.partitioned
      then false
      else not (fl.less fl.zero_rate f.drop_rate && fl.less roll f.drop_rate)

  -- Where the faults are nil, nothing is dropped.
  unfoldable pub let_through : F → Option (Faults F) → Bool
  unfolding passes
  let_through roll none = true
  let_through roll (some f) = passes roll f

-- The messages of raftpb.
pub record RequestVoteRequest : Type 0 where
  pub term : ℕ
  pub candidate_id : String
  pub last_log_index : ℕ
  pub last_log_term : ℕ

pub record RequestVoteResponse : Type 0 where
  pub term : ℕ
  pub vote_granted : Bool

pub record WireEntry : Type 0 where
  pub term : ℕ
  pub index : ℕ
  pub command : List ℕ

pub record AppendEntriesRequest : Type 0 where
  pub term : ℕ
  pub leader_id : String
  pub prev_log_index : ℕ
  pub prev_log_term : ℕ
  pub entries : List WireEntry
  pub leader_commit : ℕ

pub record AppendEntriesResponse : Type 0 where
  pub term : ℕ
  pub success : Bool
  pub conflict_index : ℕ

pub record InstallSnapshotRequest : Type 0 where
  pub term : ℕ
  pub leader_id : String
  pub last_included_index : ℕ
  pub last_included_term : ℕ
  pub contents : List ℕ

pub record InstallSnapshotResponse : Type 0 where
  pub term : ℕ

-- Calls to an address; `none` is an error.
pub record Grpc (W : Type 0) : Type 0 where
  pub request_vote : String → RequestVoteRequest → W → W × Option RequestVoteResponse
  pub append_entries : String → AppendEntriesRequest → W → W × Option AppendEntriesResponse
  pub install_snapshot : String → InstallSnapshotRequest → W → W × Option InstallSnapshotResponse

unfoldable pub to_wire : List LogEntry → List WireEntry
to_wire [] = []
to_wire (e ∷ es) = record { term = e.term; index = e.index; command = e.command } ∷ to_wire es

unfoldable pub from_wire : List WireEntry → List LogEntry
from_wire [] = []
from_wire (e ∷ es) = record { term = e.term; index = e.index; command = e.command } ∷ from_wire es

module _ {W F : Type 0} (fl : Rate F) (grpc : Grpc W) (addrs : String → Option String)
    (faults : Option (Faults F)) where
  -- A call to a peer: dropped, without an address, or carried. Connections are made when needed.
  unfoldable pub call : {A : Type 0} → F → String → (String → W → W × Option A) → W → W × Option A
  unfolding let_through
  call roll peer carry w =
      if let_through fl roll faults
      then elim (addrs peer) [ none ↦ (w, none) | some addr ↦ carry addr w ]
      else (w, none)

  unfoldable pub send_request_vote : F → String → RequestVoteArgs → W → W × Option RequestVoteReply
  unfolding call
  send_request_vote roll peer args = call roll peer (λ addr w.
      let (w1, response) =
        grpc.request_vote addr
          (record {
            term = args.term;
            candidate_id = args.candidate_id;
            last_log_index = args.last_log_index;
            last_log_term = args.last_log_term;
          })
          w in
      (
        w1,
        elim response [
          | none ↦ none
          | some r ↦ some (record { term = r.term; vote_granted = r.vote_granted })
        ],
      ))

  unfoldable pub send_append_entries :
      F → String → AppendEntriesArgs → W → W × Option AppendEntriesReply
  unfolding call to_wire
  send_append_entries roll peer args = call roll peer (λ addr w.
      let (w1, response) =
        grpc.append_entries addr
          (record {
            term = args.term;
            leader_id = args.leader_id;
            prev_log_index = args.prev_log_index;
            prev_log_term = args.prev_log_term;
            entries = to_wire args.entries;
            leader_commit = args.leader_commit;
          })
          w in
      (
        w1,
        elim response [
          | none ↦ none
          | some r ↦
              some
                (record { term = r.term; success = r.success; conflict_index = r.conflict_index })
        ],
      ))

  unfoldable pub send_install_snapshot :
      F → String → InstallSnapshotArgs → W → W × Option InstallSnapshotReply
  unfolding call
  send_install_snapshot roll peer args = call roll peer (λ addr w.
      let (w1, response) =
        grpc.install_snapshot addr
          (record {
            term = args.term;
            leader_id = args.leader_id;
            last_included_index = args.last_included_index;
            last_included_term = args.last_included_term;
            contents = args.contents;
          })
          w in
      (w1, elim response [ none ↦ none | some r ↦ some (record { term = r.term }) ]))

module _ {D M F : Type 0} (fl : Rate F) (st : Storage D) (sm : StateMachine M) (env : Env)
    (faults : Option (Faults F)) where
  -- `Server.RequestVote` on the server's node.
  unfoldable pub serve_request_vote :
      F → RequestVoteRequest → Node D M → Node D M × Option RequestVoteResponse
  unfolding let_through handle_request_vote
  serve_request_vote roll req n =
      if let_through fl roll faults
      then (let (n1, reply) =
            handle_request_vote st env
              (record {
                term = req.term;
                candidate_id = req.candidate_id;
                last_log_index = req.last_log_index;
                last_log_term = req.last_log_term;
              })
              n in
          (n1, some (record { term = reply.term; vote_granted = reply.vote_granted })))
      else (n, none)

  unfoldable pub serve_append_entries :
      F → AppendEntriesRequest → Node D M → Node D M × Option AppendEntriesResponse
  unfolding let_through from_wire handle_append_entries
  serve_append_entries roll req n =
      if let_through fl roll faults
      then (let (n1, reply) =
            handle_append_entries st env
              (record {
                term = req.term;
                leader_id = req.leader_id;
                prev_log_index = req.prev_log_index;
                prev_log_term = req.prev_log_term;
                entries = from_wire req.entries;
                leader_commit = req.leader_commit;
              })
              n in
          (
            n1,
            some (record {
              term = reply.term;
              success = reply.success;
              conflict_index = reply.conflict_index;
            }),
          ))
      else (n, none)

  unfoldable pub serve_install_snapshot :
      F → InstallSnapshotRequest → Node D M → Node D M × Option InstallSnapshotResponse
  unfolding let_through handle_install_snapshot
  serve_install_snapshot roll req n =
      if let_through fl roll faults
      then (let (n1, reply) =
            handle_install_snapshot st sm env
              (record {
                term = req.term;
                leader_id = req.leader_id;
                last_included_index = req.last_included_index;
                last_included_term = req.last_included_term;
                contents = req.contents;
              })
              n in
          (n1, some (record { term = reply.term })))
      else (n, none)
