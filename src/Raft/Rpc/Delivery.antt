-- ===== src/Raft/Rpc/Delivery.antt =====
-- internal/raft/rpc: what a call to a peer does to the peer's node.
use boiler_pulse.Prelude.{
  ◌≡◌, refl, ap, String, Bool, true, false, List, [], ◌∷◌, Option, none, some, ◌&&◌, inl, inr,
  Bool-cases,
}
use boiler_pulse.Raft.Types.{LogEntry, RequestVoteArgs, AppendEntriesArgs, InstallSnapshotArgs}
use boiler_pulse.Raft.Interfaces.{Storage, StateMachine}
use boiler_pulse.Raft.Node.{Node, Env}
use boiler_pulse.Raft.Election.{handle_request_vote}
use boiler_pulse.Raft.Replication.{handle_append_entries}
use boiler_pulse.Raft.Snapshot.{handle_install_snapshot}
use boiler_pulse.Raft.Rpc.{
  Rate, Faults, let_through, Grpc, to_wire, from_wire, call, send_request_vote, send_append_entries,
  send_install_snapshot, serve_request_vote, serve_append_entries, serve_install_snapshot,
}

from_wire-to_wire : (es : List LogEntry) → from_wire (to_wire es) ≡ es
unfolding from_wire to_wire
from_wire-to_wire [] = refl
from_wire-to_wire (e ∷ es) = ap (◌∷◌ e) (from_wire-to_wire es)

-- A reply that arrived, or the state as it was.
abbrev pub answered_if : {S R : Type 0} → Bool → S × R → S → S × Option R
answered_if true (s1, r) s = (s1, some r)
answered_if false result s = (s, none)

module _ {D M F : Type 0} (fl : Rate F) (st : Storage D) (sm : StateMachine M) (env : Env)
    (there : Option (Faults F)) (roll : F) where
  -- gRPC that hands each call to the server of one node.
  unfoldable pub direct : Grpc (Node D M)
  unfolding serve_request_vote serve_append_entries serve_install_snapshot
  direct = record {
    request_vote = λ addr req n. serve_request_vote fl st sm env there roll req n;
    append_entries = λ addr req n. serve_append_entries fl st sm env there roll req n;
    install_snapshot = λ addr req n. serve_install_snapshot fl st sm env there roll req n;
  }

  -- Over a gRPC that hands each call to the server of one node, a call to a peer with an address
  -- is, for each of the three requests, the node's handler on the same arguments with its reply,
  -- if neither the faults of the sender nor those of the server drop it, and otherwise leaves the
  -- node as it was without a reply.
  pub send-delivers :
      (here : Option (Faults F)) (addrs : String → Option String) (own : F) (peer addr : String)
      → addrs peer ≡ some addr
      → (n : Node D M)
      → ((args : RequestVoteArgs)
          → send_request_vote fl direct addrs here own peer args n
            ≡ answered_if
                (let_through fl own here && let_through fl roll there)
                (handle_request_vote st env args n)
                n)
        × ((args : AppendEntriesArgs)
            → send_append_entries fl direct addrs here own peer args n
              ≡ answered_if
                  (let_through fl own here && let_through fl roll there)
                  (handle_append_entries st env args n)
                  n)
        × ((args : InstallSnapshotArgs)
            → send_install_snapshot fl direct addrs here own peer args n
              ≡ answered_if
                  (let_through fl own here && let_through fl roll there)
                  (handle_install_snapshot st sm env args n)
                  n)
  unfolding direct send_request_vote send_append_entries send_install_snapshot call
      serve_request_vote serve_append_entries serve_install_snapshot
  send-delivers here addrs own peer addr at n = elim (Bool-cases (let_through fl own here)) [
    | inr stopped ↦ (λ args. rw stopped refl, λ args. rw stopped refl, λ args. rw stopped refl)
    | inl sent ↦ elim (Bool-cases (let_through fl roll there)) [
      | inr lost ↦ (
        λ args. rw (sent, at, lost) refl,
        λ args. rw (sent, at, lost) refl,
        λ args. rw (sent, at, lost) refl,
      )
      | inl got ↦ (
        λ args. rw (sent, at, got) refl,
        λ args. rw (sent, at, got, from_wire-to_wire args.entries) refl,
        λ args. rw (sent, at, got) refl,
      )
    ]
  ]
