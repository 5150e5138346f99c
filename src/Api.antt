-- ===== src/Api.antt =====
-- internal/api: kv_handlers.go and events_handlers.go, the handlers of one node. A world `W` has the
-- storage engine and, if there is one, the proposer (proposer.go), which takes a write through
-- consensus. JSON is a parameter. Log lines and the messages of errors are left out.
pub mod Writes
mod Runs
use boiler_pulse.Prelude.{
  ℕ, ◌^◌, ◌++◌, String, Bool, true, false, not, List, [], ◌∷◌, Option, none, some, if◌then◌else◌,
  ltb, leb, ◌==◌, ◌&&◌,
}
use boiler_pulse.Bytes.{bytes_eq}
use boiler_pulse.Storage.{Entry}
use boiler_pulse.Storage.Table.{Key}
use boiler_pulse.Storage.StateMachine.{
  Command, command_set, command_delete, duration_of, Deleted, deleted, key_not_found, delete_failed,
}
use boiler_pulse.Gateway.{ErrorCode}
use boiler_pulse.Events.{Event, Numbers, Urgency, critical, high, scheduled_spike, normalize}

pub data Body (F : Type 0) : Type 0 where
  empty : Body F
  value_of : List ℕ → List ℕ → Body F
  created_event : Event F → Body F
  event_list : List (Event F) → Body F
  error_of : ErrorCode → Body F

pub record Answer (F : Type 0) : Type 0 where
  pub status : ℕ
  pub body : Body F

abbrev pub write_error : {F : Type 0} → ℕ → ErrorCode → Answer F
write_error status code = record { status = status; body = error_of code }

-- What a read of the engine gives: an entry, ErrKeyNotFound, or another error.
pub data Lookup : Type 0 where
  found : Entry → Lookup
  missing unreadable : Lookup

-- "STRONG", "EVENTUAL" and "CRITICAL".
abbrev pub strong : List ℕ
strong = 83 ∷ 84 ∷ 82 ∷ 79 ∷ 78 ∷ 71 ∷ []

abbrev pub eventual : List ℕ
eventual = 69 ∷ 86 ∷ 69 ∷ 78 ∷ 84 ∷ 85 ∷ 65 ∷ 76 ∷ []

abbrev pub critical_consistency : List ℕ
critical_consistency = 67 ∷ 82 ∷ 73 ∷ 84 ∷ 73 ∷ 67 ∷ 65 ∷ 76 ∷ []

-- "event:".
abbrev pub event_key_prefix : List ℕ
event_key_prefix = 101 ∷ 118 ∷ 101 ∷ 110 ∷ 116 ∷ 58 ∷ []

pub record PutRequest : Type 0 where
  pub value : List ℕ
  pub consistency : List ℕ
  pub ttl_seconds : ℕ

pub record RaftStatus : Type 0 where
  pub state : String
  pub term : ℕ
  pub leader_id : String
  pub is_leader : Bool

pub record Proposer (W : Type 0) : Type 0 where
  pub status : W → RaftStatus
  pub propose : Command → W → W × Bool

pub record Server (W F : Type 0) : Type 0 where
  pub get : Key → W → Lookup
  pub put : Key → List ℕ → List ℕ → ℕ → W → W × Bool
  pub delete : Key → W → Deleted W
  pub scan : Key → W → Option (List (Key × Entry))
  pub proposer : Option (Proposer W)
  pub decode_put : List ℕ → Option PutRequest
  pub decode_event : List ℕ → Option (Event F)
  pub encode_event : Event F → Option (List ℕ)
  pub numbers : Numbers F

-- The consistency that a request asks for; `none` is one that is not known.
unfoldable pub requested_consistency : List ℕ → Option (List ℕ)
requested_consistency [] = some eventual
requested_consistency (x ∷ xs) =
    if bytes_eq (x ∷ xs) strong
    then some strong
    else (if bytes_eq (x ∷ xs) eventual
        then some eventual
        else (if bytes_eq (x ∷ xs) critical_consistency then some critical_consistency else none))

unfoldable pub consistency_for_urgency : Urgency → List ℕ
consistency_for_urgency critical = critical_consistency
consistency_for_urgency high = strong
consistency_for_urgency scheduled_spike = strong
consistency_for_urgency u = eventual

-- The command of a PUT whose body was decoded; `none` is an invalid request.
unfoldable pub put_command : Key → PutRequest → Option Command
unfolding requested_consistency
put_command key req =
    if bytes_eq req.value []
    then none
    else (if leb (2 ^ 63) req.ttl_seconds
        then none
        else elim (requested_consistency req.consistency) [
          | none ↦ none
          | some c ↦ some (record {
            op = command_set;
            key = key;
            value = req.value;
            consistency = c;
            ttl_seconds = req.ttl_seconds;
          })
        ])

module _ {W F : Type 0} (s : Server W F) where
  -- `none` for a write that was accepted, or the error that is sent.
  unfoldable pub write_through_raft : Proposer W → Command → W → W × Option (Answer F)
  write_through_raft p cmd w =
      if not (p.status w).is_leader
      then (w, some (write_error 503 ErrorCode.leader_unavailable))
      else (let (w1, committed) = p.propose cmd w in
          (w1, if committed then none else some (write_error 503 ErrorCode.leader_unavailable)))

  unfoldable pub put_locally : Command → W → W × Option (Answer F)
  unfolding duration_of
  put_locally cmd w =
      let (w1, stored) = s.put cmd.key cmd.value cmd.consistency (duration_of cmd.ttl_seconds) w in
      (w1, if stored then none else some (write_error 500 ErrorCode.internal_error))

  unfoldable pub apply_write : Command → W → W × Option (Answer F)
  unfolding write_through_raft put_locally
  apply_write cmd w = elim s.proposer [
    | some p ↦ write_through_raft p cmd w
    | none ↦
        if cmd.op == command_set
        then put_locally cmd w
        else (if cmd.op == command_delete
            then elim (s.delete cmd.key w) [
              | deleted w1 ↦ (w1, none)
              | key_not_found ↦ (w, some (write_error 500 ErrorCode.internal_error))
              | delete_failed w1 ↦ (w1, some (write_error 500 ErrorCode.internal_error))
            ]
            else (w, none))
  ]

  -- An error, or the answer of a write that was accepted.
  abbrev pub or_answer : Answer F → W × Option (Answer F) → W × Answer F
  or_answer a (w, none) = (w, a)
  or_answer a (w, some err) = (w, err)

  unfoldable pub handle_put : Key → List ℕ → W → W × Answer F
  unfolding put_command put_locally write_through_raft
  handle_put key body w = elim (s.decode_put body) [
    | none ↦ (w, write_error 400 ErrorCode.invalid_request)
    | some req ↦ elim (put_command key req) [
      | none ↦ (w, write_error 400 ErrorCode.invalid_request)
      | some cmd ↦
          or_answer (record { status = 204; body = empty })
            (elim s.proposer [ some p ↦ write_through_raft p cmd w | none ↦ put_locally cmd w ])
    ]
  ]

  unfoldable pub handle_get : Key → W → Answer F
  handle_get key w = elim (s.get key w) [
    | found e ↦ record { status = 200; body = value_of e.value e.consistency }
    | missing ↦ write_error 404 ErrorCode.key_not_found
    | unreadable ↦ write_error 500 ErrorCode.internal_error
  ]

  unfoldable pub delete_command : Key → Command
  delete_command key = record {
    op = command_delete;
    key = key;
    value = [];
    consistency = [];
    ttl_seconds = 0;
  }

  unfoldable pub handle_delete : Key → W → W × Answer F
  unfolding write_through_raft delete_command
  handle_delete key w = elim s.proposer [
    | some p ↦ elim (s.get key w) [
      | missing ↦ (w, write_error 404 ErrorCode.key_not_found)
      | unreadable ↦ (w, write_error 500 ErrorCode.internal_error)
      | found e ↦
          or_answer (record { status = 204; body = empty })
            (write_through_raft p (delete_command key) w)
    ]
    | none ↦ elim (s.delete key w) [
      | deleted w1 ↦ (w1, record { status = 204; body = empty })
      | key_not_found ↦ (w, write_error 404 ErrorCode.key_not_found)
      | delete_failed w1 ↦ (w1, write_error 500 ErrorCode.internal_error)
    ]
  ]

  unfoldable pub event_command : List ℕ → Event F → Command
  unfolding consistency_for_urgency
  event_command value e = record {
    op = command_set;
    key = event_key_prefix ++ e.id;
    value = value;
    consistency = consistency_for_urgency e.urgency;
    ttl_seconds = 0;
  }

  unfoldable pub handle_post_event : ℕ → List ℕ → List ℕ → W → W × Answer F
  unfolding normalize event_command apply_write
  handle_post_event now hex body w = elim (s.decode_event body) [
    | none ↦ (w, write_error 400 ErrorCode.invalid_request)
    | some raw ↦ elim (normalize s.numbers now hex raw) [
      | none ↦ (w, write_error 400 ErrorCode.invalid_request)
      | some e ↦ elim (s.encode_event e) [
        | none ↦ (w, write_error 500 ErrorCode.internal_error)
        | some value ↦
            or_answer (record { status = 201; body = created_event e })
              (apply_write (event_command value e) w)
      ]
    ]
  ]

  -- The stored events that decode.
  unfoldable pub decode_all : List (Key × Entry) → List (Event F)
  decode_all [] = []
  decode_all ((k, entry) ∷ entries) =
      let rest = decode_all entries in
      elim (s.decode_event entry.value) [ none ↦ rest | some e ↦ e ∷ rest ]

  unfoldable pub place_event : Event F → List (Event F) → List (Event F)
  place_event e [] = e ∷ []
  place_event e (f ∷ fs) =
      let rest = place_event e fs in if ltb f.start_time e.start_time then f ∷ rest else e ∷ f ∷ fs

  -- By start time; `sort.Slice` keeps no order among equal times, here they keep theirs.
  unfoldable pub by_start_time : List (Event F) → List (Event F)
  unfolding place_event
  by_start_time [] = []
  by_start_time (e ∷ es) = place_event e (by_start_time es)

  unfoldable pub handle_list_events : W → Answer F
  unfolding decode_all by_start_time
  handle_list_events w = elim (s.scan event_key_prefix w) [
    | none ↦ write_error 500 ErrorCode.internal_error
    | some entries ↦ record { status = 200; body = event_list (by_start_time (decode_all entries)) }
  ]
