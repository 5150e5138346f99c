-- ===== src/Api/Runs.antt =====
-- internal/api: the theorems on a node that leads. The world is the list of the commands that were
-- committed.
use boiler_pulse.Prelude.{ℕ, ◌+◌, ◌/◌, ◌^◌, ◌<◌, ◌≡◌, refl, true, List, [], ◌∷◌, ◌++◌, some, ltb}
use boiler_pulse.Bytes.{bytes_eq}
use boiler_pulse.Storage.StateMachine.{Command, deleted}
use boiler_pulse.Events.{Event, emergency, unset, normalize, validate, is_known}
use boiler_pulse.Api.{
  Server, Proposer, missing, critical_consistency, handle_put, handle_post_event, put_command,
  requested_consistency, write_through_raft, apply_write,
}
use boiler_pulse.Api.Writes.{Committed, IsKnown, handle_put-Committed, handle_post_event-emergency}

abbrev World : Type 0
World = List Command

abbrev leader : Proposer World
leader = record {
  status = λ w. record { state = "LEADER"; term = 1; leader_id = "n1"; is_leader = true };
  propose = λ c w. (w ++ c ∷ [], true);
}

abbrev alarm : Event ℕ
alarm = record {
  id = 49 ∷ [];
  kind = emergency;
  title = "Alarm";
  description = "";
  location = record { name = "Hall"; latitude = 0; longitude = 0 };
  start_time = 50;
  end_time = 0;
  expected_attendance = 0;
  expected_traffic_multiplier = 0;
  urgency = unset;
  audience = [];
  source = "";
  created_at = 0;
  confidence = 0;
}

-- Every body asks for the value 1, or is the alarm.
abbrev server : Server World ℕ
server = record {
  get = λ k w. missing;
  put = λ k v c ttl w. (w, true);
  delete = λ k w. deleted w;
  scan = λ k w. some [];
  proposer = some leader;
  decode_put = λ body. some (record { value = 1 ∷ []; consistency = []; ttl_seconds = 9 });
  decode_event = λ body. some alarm;
  encode_event = λ e. some (1 ∷ []);
  numbers = record {
    of_nat = λ n. n;
    add = λ a b. a + b;
    over = λ a b. a / b;
    less = λ a b. ltb a b;
    seven_tenths = 0;
  };
}

handle_put-Committed_example :
    (cmd : Command) × IsKnown cmd.consistency
    × (cmd.key ≡ 107 ∷ [])
    × (cmd.ttl_seconds < 2 ^ 63)
    × Committed leader cmd [] (handle_put server (107 ∷ []) [] []).0
handle_put-Committed_example = handle_put-Committed server leader (107 ∷ []) [] [] refl accepted
  where
    accepted : (handle_put server (107 ∷ []) [] []).1.status ≡ 204
    accepted =
        (unfold handle_put put_command requested_consistency write_through_raft bytes_eq in refl)

handle_post_event-emergency_example :
    (cmd : Command) × (cmd.consistency ≡ critical_consistency)
    × Committed leader cmd [] (handle_post_event server 5 [] [] []).0
handle_post_event-emergency_example =
    handle_post_event-emergency server leader 5 [] [] [] alarm refl refl refl refl accepted
  where
    accepted : (handle_post_event server 5 [] [] []).1.status ≡ 201
    accepted =
        (unfold handle_post_event normalize validate is_known apply_write write_through_raft in
          refl)
