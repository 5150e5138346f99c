-- ===== src/Gateway.antt =====
-- internal/gateway: gateway.go, leader.go, cluster.go and proxy.go. The network is a state `W`: a
-- poll of a node and a forwarded request are functions on it. JSON decoding of a body is a
-- parameter, with `none` for an error. The handlers of predictions and of the admin proxy, and the
-- headers, are left out.
mod Leader
pub mod Refresh
pub mod Reads
pub mod CacheRule
pub mod RateLimit
mod Runs
unfoldable pub use Leader.*
use boiler_pulse.Prelude.{
  ℕ, zero, suc, ◌+◌, ◌-◌, ◌%◌, ◌^◌, String, Bool, true, false, not, List, [], ◌∷◌, Option, none,
  some, ltb, leb, ◌==◌, ◌&&◌, if◌then◌else◌, str_eq, length, get_elem?, u64, drop,
}
use boiler_pulse.Bytes.{bytes_eq}
use boiler_pulse.Storage.{has_prefix}
use boiler_pulse.Storage.Table.{Key}
use boiler_pulse.Cache
use boiler_pulse.Cache.{Lru}
use boiler_pulse.Workload
use boiler_pulse.Workload.{Rates}
use boiler_pulse.Raft.Node.{update}

pub record Request : Type 0 where
  pub method : String
  pub path : List ℕ
  pub raw_query : List ℕ
  pub body : List ℕ

pub record Response : Type 0 where
  pub status : ℕ
  pub body : List ℕ

-- A read is forwarded without its body.
abbrev pub without_body : Request → Request
without_body r = record r { body = [] }

-- errors.go of internal/api.
pub data ErrorCode : Type 0 where
  key_not_found invalid_request internal_error leader_unavailable quorum_unavailable : ErrorCode
  node_unavailable rate_limited unauthorized : ErrorCode

-- What the client gets; `panicked` is an index out of range.
pub data Reply : Type 0 where
  failed : ℕ → ErrorCode → Reply
  proxied : Response → Reply
  cached : List ℕ → Reply
  panicked : Reply

pub record Gateway (F : Type 0) : Type 0 where
  pub nodes : List GatewayNode
  pub cache : Lru
  pub workload : Workload.Engine F
  pub critical_hold_duration : ℕ
  pub leader_id : String
  pub leader_addr : String
  pub node_status : String → NodeStatus
  pub read_counter : ℕ

-- "/v1/kv/" and "/v1/events".
abbrev pub kv_key_prefix : List ℕ
kv_key_prefix = 47 ∷ 118 ∷ 49 ∷ 47 ∷ 107 ∷ 118 ∷ 47 ∷ []

abbrev pub events_path : List ℕ
events_path = 47 ∷ 118 ∷ 49 ∷ 47 ∷ 101 ∷ 118 ∷ 101 ∷ 110 ∷ 116 ∷ 115 ∷ []

unfoldable pub kv_key_from_path : List ℕ → Key
kv_key_from_path path =
    if has_prefix kv_key_prefix path then drop (length kv_key_prefix) path else []

-- A counter past 2 ^ 63 is negative as an `int`, and so is its remainder, unless it is 0.
unfoldable pub read_start : ℕ → ℕ → Option ℕ
read_start counter n =
    if ltb counter (2 ^ 63)
    then some (counter % n)
    else (if (2 ^ 64 - counter) % n == 0 then some 0 else none)

module _ {F : Type 0} where
  -- The last part of `refresh`: no leader seen leaves the one that is known.
  unfoldable pub settle : Best → Gateway F → Gateway F
  unfolding addr_for
  settle b g =
      let g1 = record g { node_status = b.statuses } in
      if str_eq b.best_leader_id "" then g1 else record g1 {
        leader_id = b.best_leader_id;
        leader_addr = addr_for b.best_leader_id g.nodes;
      }

  -- cluster.go: `handleCluster`.
  unfoldable pub cluster_view : List GatewayNode → Gateway F → List (GatewayNode × NodeStatus)
  cluster_view [] g = []
  cluster_view (n ∷ nodes) g = (n, g.node_status n.id) ∷ cluster_view nodes g

  unfoldable pub current_leader : Gateway F → Option String
  current_leader g = if str_eq g.leader_id "" then none else some g.leader_addr

-- The network, the decoding of bodies, and the rates of the workload engine.
pub record Outside (W F : Type 0) : Type 0 where
  pub poll : GatewayNode → W → W × Option PollResponse
  pub exchange : Request → String → W → W × Option Response
  pub consistency_of : List ℕ → Option String
  pub urgency_of : List ℕ → Option String
  pub rates : Rates F

module _ {W F : Type 0} (o : Outside W F) where
  unfoldable pub poll_all : List GatewayNode → W → W × List (GatewayNode × (NodeStatus × Bool))
  unfolding poll_node
  poll_all [] w = (w, [])
  poll_all (n ∷ nodes) w =
      let (w1, answer) = o.poll n w in
      let (w2, polls) = poll_all nodes w1 in (w2, (n, poll_node n answer) ∷ polls)

  unfoldable pub refresh : W → Gateway F → W × Gateway F
  unfolding poll_all note_polls settle
  refresh w g =
      let (w1, polls) = poll_all g.nodes w in
      (
        w1,
        settle
            (note_polls polls
              (record { statuses = λ _. unreachable; best_term = 0; best_leader_id = "" }))
            g,
      )

  -- `none`: not delivered, an answer of 503 included.
  unfoldable pub proxy_request : Request → String → W → W × Option Response
  proxy_request r addr w =
      let (w1, answer) = o.exchange r addr w in
      (w1, elim answer [ none ↦ none | some p ↦ if p.status == 503 then none else some p ])

  unfoldable pub is_cacheable_consistency : List ℕ → Bool
  is_cacheable_consistency body = elim (o.consistency_of body) [
    | none ↦ false
    | some c ↦ not (str_eq c "CRITICAL")
  ]

  unfoldable pub maybe_signal_critical : ℕ → List ℕ → Gateway F → Gateway F
  unfolding Workload.signal_critical
  maybe_signal_critical now body g = elim (o.urgency_of body) [
    | none ↦ g
    | some u ↦
        if str_eq u "CRITICAL"
        then record g {
          workload = Workload.signal_critical now g.critical_hold_duration g.workload;
        }
        else g
  ]

  unfoldable pub note_request : ℕ → Request → Gateway F → Gateway F
  unfolding kv_key_from_path Workload.record_request
  note_request now r g = record g {
    workload = Workload.record_request o.rates (kv_key_from_path r.path) now g.workload;
  }

  -- What `handleWrite` does after its response.
  unfoldable pub finish_write : ℕ → Request → Response → Gateway F → Gateway F
  unfolding Cache.delete maybe_signal_critical
  finish_write now r p g =
      let g1 =
        if has_prefix kv_key_prefix r.path
        then record g { cache = Cache.delete r.path g.cache }
        else g in
      if bytes_eq r.path events_path && p.status == 201
      then maybe_signal_critical now p.body g1
      else g1

  -- One attempt at the leader that is known; `none` if it was not delivered.
  unfoldable pub attempt : Request → String → W → W × Option Response
  unfolding proxy_request
  attempt r addr w = proxy_request r addr w

  -- After the refresh that follows a failed attempt.
  unfoldable pub retry_write : ℕ → Request → W → Gateway F → W × Gateway F × Reply
  unfolding current_leader finish_write
  retry_write now r w g = elim (current_leader g) [
    | none ↦ (w, g, failed 503 quorum_unavailable)
    | some addr ↦
        (let (w1, answer) = attempt r addr w in
          elim answer [
            | none ↦ (w1, g, failed 503 quorum_unavailable)
            | some p ↦ (w1, finish_write now r p g, proxied p)
          ])
  ]

  unfoldable pub write_to : ℕ → Request → String → W → Gateway F → W × Gateway F × Reply
  unfolding refresh retry_write
  write_to now r addr w g =
      let (w1, answer) = attempt r addr w in
      elim answer [
        | some p ↦ (w1, finish_write now r p g, proxied p)
        | none ↦ (let (w2, g2) = refresh w1 g in retry_write now r w2 g2)
      ]

  -- `handleWrite`, for a body that was read.
  unfoldable pub handle_write : ℕ → Request → W → Gateway F → W × Gateway F × Reply
  unfolding note_request write_to
  handle_write now r w g =
      let g1 = note_request now r g in
      elim (current_leader g1) [
        | some addr ↦ write_to now r addr w g1
        | none ↦
            (let (w2, g2) = refresh w g1 in
              elim (current_leader g2) [
                | none ↦ (w2, g2, failed 503 quorum_unavailable)
                | some addr ↦ write_to now r addr w2 g2
              ])
      ]

  -- The loop over the nodes: `k` of them are left, and the next one is `i` past the start.
  unfoldable pub try_nodes : ℕ → ℕ → ℕ → Request → List GatewayNode → W → W × Option Response
  try_nodes zero start i r nodes w = (w, none)
  try_nodes (suc k) start i r nodes w = elim (get_elem? nodes ((start + i) % length nodes)) [
    | none ↦ (w, none)
    | some n ↦
        (let (w1, answer) = proxy_request r n.addr w in
          elim answer [ some p ↦ (w1, some p) | none ↦ try_nodes k start (i + 1) r nodes w1 ])
  ]

  unfoldable pub finish_read : Request → Response → Gateway F → Gateway F
  unfolding is_cacheable_consistency Cache.set
  finish_read r p g =
      if has_prefix kv_key_prefix r.path && p.status == 200 && is_cacheable_consistency p.body
      then record g { cache = Cache.set r.path p.body g.cache }
      else g

  unfoldable pub read_nodes : Request → W → Gateway F → W × Gateway F × Reply
  unfolding read_start try_nodes finish_read
  read_nodes r w g =
      if length g.nodes == 0
      then (w, g, failed 503 node_unavailable)
      else (let g1 = record g { read_counter = u64 (g.read_counter + 1) } in
          elim (read_start g1.read_counter (length g.nodes)) [
            | none ↦ (w, g1, panicked)
            | some start ↦
                (let (w1, answer) = try_nodes (length g.nodes) start 0 (without_body r) g.nodes w in
                  elim answer [
                    | none ↦ (w1, g1, failed 503 node_unavailable)
                    | some p ↦ (w1, finish_read r p g1, proxied p)
                  ])
          ])

  -- `handleRead` after the request is recorded.
  unfoldable pub serve_read : Request → W → Gateway F → W × Gateway F × Reply
  unfolding Cache.get read_nodes
  serve_read r w g =
      if has_prefix kv_key_prefix r.path
      then (let (c, found) = Cache.get r.path g.cache in
          elim found [
            | some body ↦ (w, record g { cache = c }, cached body)
            | none ↦ read_nodes r w (record g { cache = c })
          ])
      else read_nodes r w g

  unfoldable pub handle_read : ℕ → Request → W → Gateway F → W × Gateway F × Reply
  unfolding note_request serve_read
  handle_read now r w g = serve_read r w (note_request now r g)
