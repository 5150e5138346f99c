-- ===== src/Gateway/Leader.antt =====
-- internal/gateway/leader.go: the polls of the nodes, and the leader that they name.
use boiler_pulse.Prelude.{
  ℕ, String, Bool, true, false, List, [], ◌∷◌, Option, none, some, leb, ◌&&◌, if◌then◌else◌, str_eq,
}
use boiler_pulse.Raft.Node.{update}

pub record GatewayNode : Type 0 where
  pub id : String
  pub addr : String

pub record NodeStatus : Type 0 where
  pub reachable : Bool
  pub role : String
  pub term : ℕ

-- The body of `/v1/cluster`: a term, and the ID and the role of each node.
pub record PollResponse : Type 0 where
  pub term : ℕ
  pub nodes : List (String × String)

abbrev pub unreachable : NodeStatus
unreachable = record { reachable = false; role = ""; term = 0 }

unfoldable pub own_status : String → ℕ → List (String × String) → NodeStatus
own_status id term [] = record { reachable = true; role = ""; term = 0 }
own_status id term ((other, role) ∷ nodes) =
    let rest = own_status id term nodes in
    if str_eq other id then record { reachable = true; role = role; term = term } else rest

-- `pollNode`, on what the request yields; `false` is a node that did not answer.
unfoldable pub poll_node : GatewayNode → Option PollResponse → NodeStatus × Bool
unfolding own_status
poll_node n none = (unreachable, false)
poll_node n (some p) = (own_status n.id p.term p.nodes, true)

-- What `refresh` has gathered.
pub record Best : Type 0 where
  pub statuses : String → NodeStatus
  pub best_term : ℕ
  pub best_leader_id : String

unfoldable pub note_poll : GatewayNode → NodeStatus × Bool → Best → Best
note_poll n (status, ok) b =
    let seen = record b { statuses = update b.statuses n.id status } in
    if ok && str_eq status.role "LEADER" && leb b.best_term status.term
    then record seen { best_term = status.term; best_leader_id = n.id }
    else seen

unfoldable pub note_polls : List (GatewayNode × (NodeStatus × Bool)) → Best → Best
unfolding note_poll
note_polls [] b = b
note_polls ((n, s) ∷ polls) b = note_polls polls (note_poll n s b)

unfoldable pub addr_for : String → List GatewayNode → String
addr_for id [] = ""
addr_for id (n ∷ nodes) = let rest = addr_for id nodes in if str_eq n.id id then n.addr else rest
