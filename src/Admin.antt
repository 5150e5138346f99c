-- ===== src/Admin.antt =====
-- internal/admin/server.go: the endpoints that inject faults into a node. Decoding JSON is a
-- parameter. Headers and tokens are their bytes; the report of the Raft state is left out.
pub mod Access
mod Runs
use boiler_pulse.Prelude.{
  ℕ, ◌*◌, ◌^◌, Bool, true, false, not, List, [], ◌∷◌, ◌++◌, Option, none, some, if◌then◌else◌, ltb,
  u64,
}
use boiler_pulse.Bytes.{bytes_eq}
use boiler_pulse.Raft.Rpc
use boiler_pulse.Raft.Rpc.{Rate, Faults, set_partitioned, set_latency, set_drop_rate}

-- `exiting` is set by a kill, after which the process ends.
pub record AdminServer (F : Type 0) : Type 0 where
  pub token : List ℕ
  pub faults : Faults F
  pub exiting : Bool

-- A latency in milliseconds is an int64 in two's complement.
pub record FaultRequest (F : Type 0) : Type 0 where
  pub partitioned : Option Bool
  pub latency_ms : Option ℕ
  pub drop_rate : Option F

pub data Endpoint : Type 0 where
  kill restore status : Endpoint
  fault : List ℕ → Endpoint

pub data Answer (F : Type 0) : Type 0 where
  killing : Answer F
  faults_are : Faults F → Answer F
  refused : ℕ → Answer F

-- "Bearer ".
abbrev pub bearer : List ℕ
bearer = 66 ∷ 101 ∷ 97 ∷ 114 ∷ 101 ∷ 114 ∷ 32 ∷ []

-- A product of int64; a latency that is not positive does not delay.
unfoldable pub milliseconds : ℕ → ℕ
milliseconds ms = let d = u64 (ms * 1_000_000) in if ltb d (2 ^ 63) then d else 0

module _ {F : Type 0} (fl : Rate F) (decode : List ℕ → Option (FaultRequest F)) where
  -- A field that is there is set; the others stay.
  unfoldable pub inject : FaultRequest F → Faults F → Faults F
  unfolding set_partitioned set_latency set_drop_rate milliseconds
  inject req f =
      let f1 : Faults F = elim req.partitioned [ none ↦ f | some p ↦ set_partitioned p f ] in
      let f2 : Faults F = elim req.latency_ms [
        | none ↦ f1
        | some ms ↦ set_latency (milliseconds ms) f1
      ] in
      elim req.drop_rate [ none ↦ f2 | some rate ↦ set_drop_rate fl rate f2 ]

  unfoldable pub handle : Endpoint → AdminServer F → AdminServer F × Answer F
  unfolding inject Rpc.reset
  handle kill s = (record s { exiting = true }, killing)
  handle status s = (s, faults_are s.faults)
  handle restore s =
      (record s { faults = Rpc.reset fl s.faults }, faults_are (Rpc.reset fl s.faults))
  handle (fault body) s = elim (decode body) [
    | none ↦ (s, refused 400)
    | some req ↦ (record s { faults = inject req s.faults }, faults_are (inject req s.faults))
  ]

  -- `authenticated` around an endpoint, for the value of the Authorization header.
  unfoldable pub authenticated : List ℕ → Endpoint → AdminServer F → AdminServer F × Answer F
  unfolding handle
  authenticated header e s =
      if bytes_eq s.token []
      then (s, refused 503)
      else (if not (bytes_eq header (bearer ++ s.token)) then (s, refused 401) else handle e s)
