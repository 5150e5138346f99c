-- ===== src/Admin/Runs.antt =====
-- internal/admin/server.go: a test, and the theorem on two requests with a wrong token.
use boiler_pulse.Prelude.{ℕ, ◌≡◌, refl, sym, ap, true, false, [], ◌∷◌, ◌++◌, none, some, ltb, inr}
use mathlib.Core.Bool.{false≢true}
use boiler_pulse.Bytes.{bytes_eq}
use boiler_pulse.Raft.Rpc.{Rate, set_partitioned}
use boiler_pulse.Admin.{
  AdminServer, FaultRequest, kill, fault, bearer, handle, inject, authenticated,
}
use boiler_pulse.Admin.Access.{serve_all, serve_all_refuses}

abbrev dice : Rate ℕ
dice = record { zero_rate = 0; one_rate = 1; less = λ a b. ltb a b }

abbrev server : AdminServer ℕ
server = record {
  token = 49 ∷ [];
  faults = record { partitioned = false; latency = 0; drop_rate = 0 };
  exiting = false;
}

abbrev cut_off : FaultRequest ℕ
cut_off = record { partitioned = some true; latency_ms = none; drop_rate = none }

partitioned :
    (authenticated dice
      (λ b. some cut_off)
      (bearer ++ 49 ∷ [])
      (fault [])
      server).0.faults.partitioned
    ≡ true
unfolding authenticated handle inject set_partitioned bytes_eq
partitioned = refl

serve_all_refuses_example :
    serve_all dice (λ b. some cut_off) (([], kill) ∷ (bearer ++ 50 ∷ [], fault []) ∷ []) server
    ≡ server
serve_all_refuses_example =
    serve_all_refuses dice (λ b. some cut_off) (([], kill) ∷ (bearer ++ 50 ∷ [], fault []) ∷ [])
      server (inr (λ e. cc, (λ e. absurd (differ e), tt)))
  where
    differ : (bearer ++ 50 ∷ []) ≡ bearer ++ 49 ∷ [] → ⊥
    differ e = (unfold bytes_eq in false≢true (ap (λ l. bytes_eq l (bearer ++ 50 ∷ [])) (sym e)))
