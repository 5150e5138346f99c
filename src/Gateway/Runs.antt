-- ===== src/Gateway/Runs.antt =====
-- internal/gateway: the theorems on a gateway with three nodes, of which the second answers.
use mathlib.Core.Bool.{false≢true}
use boiler_pulse.Prelude.{
  ◌≢◌, sym, ◌∙◌, eq_iff, false, str_eq, String, ◌⊎◌, ℕ, suc, ◌+◌, ◌≡◌, refl, false, String, List,
  [], ◌∷◌, Option, none, some, arith, All, ltb, leb, str_eq, if◌then◌else◌, ◌*◌, ◌-◌, ◌/◌, min,
}
use boiler_pulse.Cache
use boiler_pulse.Workload
use boiler_pulse.Gateway.{
  Gateway, Outside, Request, proxy_request, poll_all, refresh, addr_for, handle_read,
}
use boiler_pulse.Gateway.Refresh.{NoneClaims, Claimed, AllUpTo, refresh_chooses}
use boiler_pulse.Gateway.Reads.{IsAnswered, handle_read-IsAnswered}
use boiler_pulse.Gateway.CacheRule.{
  KeepsRule, FromCache, read, write, serve_all, serve_all-FromCache,
}
use boiler_pulse.Gateway.RateLimit.{
  Floats, RateLimitOptions, IsExact, admitted, admitted_burst, RateLimiter, requests_of,
}
use boiler_pulse.Storage.Table.{lookup}
use boiler_pulse.Bytes.{bytes_eq}

-- The query of a request is echoed; the state counts them. A body that starts with 0 is at CRITICAL consistency.
abbrev outside : Outside ℕ ℕ
outside = record {
  poll = λ n w. (
    w,
    if str_eq n.id "n2" then some (record { term = 3; nodes = ("n2", "LEADER") ∷ [] }) else none,
  );
  exchange = λ r addr w.
      (w + 1, if str_eq addr "b" then some (record { status = 200; body = r.raw_query }) else none);
  consistency_of = first_byte;
  urgency_of = λ body. none;
  rates = record { zero_rate = 0; per_second = λ n window. n; at_least = λ a b. leb b a };
}
  where
    first_byte : List ℕ → Option String
    first_byte [] = none
    first_byte (x ∷ body) = if leb x 0 then some "CRITICAL" else some "EVENTUAL"

abbrev gateway : Gateway ℕ
gateway = record {
  nodes =
      record { id = "n1"; addr = "a" }
      ∷ record { id = "n2"; addr = "b" }
      ∷ record { id = "n3"; addr = "c" }
      ∷ [];
  cache = Cache.new_lru 2;
  workload =
      Workload.new_engine (record { elevated_rps = 20; high_traffic_rps = 50; critical_rps = 100 });
  critical_hold_duration = 30;
  leader_id = "";
  leader_addr = "";
  node_status = λ id. record { reachable = false; role = ""; term = 0 };
  read_counter = 4;
}

-- "/v1/kv/k".
abbrev get_k : List ℕ → Request
get_k query = record {
  method = "GET";
  path = 47 ∷ 118 ∷ 49 ∷ 47 ∷ 107 ∷ 118 ∷ 47 ∷ 107 ∷ [];
  raw_query = query;
  body = [];
}

handle_read-IsAnswered_example :
    IsAnswered outside (handle_read outside 7 (get_k (1 ∷ [])) 0 gateway).2
handle_read-IsAnswered_example =
    handle_read-IsAnswered outside 7 (get_k (1 ∷ [])) 0 gateway 1 refl
      (λ w. (record { status = 200; body = 1 ∷ [] }, (unfold proxy_request in refl))) (omega arith)

serve_all-FromCache_example : All (FromCache outside) (
    serve_all outside
      (0, gateway)
      (read 7 (get_k (0 ∷ []))
        ∷ read 8 (get_k (1 ∷ []))
        ∷ read 9 (get_k (1 ∷ []))
        ∷ write 10 (get_k (1 ∷ []))
        ∷ []))
serve_all-FromCache_example =
    serve_all-FromCache outside 0 gateway
      (read 7 (get_k (0 ∷ []))
        ∷ read 8 (get_k (1 ∷ []))
        ∷ read 9 (get_k (1 ∷ []))
        ∷ write 10 (get_k (1 ∷ []))
        ∷ [])
      (unfold KeepsRule Cache.new_lru in tt)

-- The numbers of the limiter as natural numbers.
abbrev whole : Floats ℕ
whole = record {
  of_nat = λ n. n;
  seconds = λ t. t / 1_000_000_000;
  add = λ a b. a + b;
  sub = λ a b. a - b;
  mul = λ a b. a * b;
  less = λ a b. ltb a b;
  at_most = λ a b. leb a b;
}

abbrev options : RateLimitOptions ℕ
options = record { requests_per_second = 50; burst = 100 }

whole-IsExact : IsExact whole options.requests_per_second
whole-IsExact = record {
  less_iff = λ a b h k. refl;
  sub_one = λ a h. (let e : suc a - 1 ≡ a = omega arith in e);
  add_none = λ a h. (let e : a + 0 ≡ a = omega arith in e);
}

-- A limiter that another client has used up.
abbrev limiter : RateLimiter ℕ
limiter = record { opts = options; buckets = (50 ∷ [], record { tokens = 0; last_fill = 4 }) ∷ [] }

admitted_burst_example :
    admitted whole ((50 ∷ []) ∷ (49 ∷ []) ∷ (50 ∷ []) ∷ (49 ∷ []) ∷ []) (49 ∷ []) 5 limiter
    ≡ min (requests_of (49 ∷ []) ((50 ∷ []) ∷ (49 ∷ []) ∷ (50 ∷ []) ∷ (49 ∷ []) ∷ [])) 100
unfolding lookup bytes_eq
admitted_burst_example =
    admitted_burst whole ((50 ∷ []) ∷ (49 ∷ []) ∷ (50 ∷ []) ∷ (49 ∷ []) ∷ []) (49 ∷ []) 5 limiter
      refl whole-IsExact (omega arith) refl

named : (id : String) → str_eq id "" ≡ false → id ≢ ""
named id h e = false≢true (sym h ∙ (eq_iff id "").1 e)

refresh_chooses_example :
    (NoneClaims (poll_all outside gateway.nodes 0).1
      × ((refresh outside 0 gateway).1.leader_id ≡ gateway.leader_id)
      × ((refresh outside 0 gateway).1.leader_addr ≡ gateway.leader_addr))
    ⊎ ((term : ℕ) × Claimed
          (refresh outside 0 gateway).1.leader_id
          term
          (poll_all outside gateway.nodes 0).1
        × AllUpTo term (poll_all outside gateway.nodes 0).1
        × ((refresh outside 0 gateway).1.leader_addr
            ≡ addr_for (refresh outside 0 gateway).1.leader_id gateway.nodes))
refresh_chooses_example =
    refresh_chooses outside 0 gateway (named "n1" refl, (named "n2" refl, (named "n3" refl, tt)))
