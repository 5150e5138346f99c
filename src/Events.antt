-- ===== src/Events.antt =====
-- internal/events: event.go, normalize.go and ingest.go. A float64 is a parameter, of which the
-- code's own arithmetic is used. Times are in nanoseconds, and 0 is the zero time; an `int` is in
-- two's complement. A type or an urgency that the code does not name is kept as it is.
pub mod Normalize
mod Runs
use boiler_pulse.Prelude.{
  ℕ, ◌^◌, String, Bool, true, false, not, List, [], ◌∷◌, ◌++◌, Option, none, some, if◌then◌else◌,
  ltb, leb, ◌==◌, ◌&&◌, ◌||◌, str_eq,
}

pub data EventType : Type 0 where
  academic athletics student_org campus_event dining transportation weather emergency system :
      EventType
  other_type : String → EventType

pub data Urgency : Type 0 where
  unset normal high critical scheduled_spike : Urgency
  other_urgency : String → Urgency

unfoldable pub is_known : EventType → Bool
is_known (other_type name) = false
is_known t = true

pub record Location (F : Type 0) : Type 0 where
  pub name : String
  pub latitude : F
  pub longitude : F

pub record Event (F : Type 0) : Type 0 where
  pub id : List ℕ
  pub kind : EventType
  pub title : String
  pub description : String
  pub location : Location F
  pub start_time : ℕ
  pub end_time : ℕ
  pub expected_attendance : ℕ
  pub expected_traffic_multiplier : F
  pub urgency : Urgency
  pub audience : List String
  pub source : String
  pub created_at : ℕ
  pub confidence : F

-- What the code does with float64: a conversion, a sum, a quotient, `<`, and the literal 0.7.
pub record Numbers (F : Type 0) : Type 0 where
  pub of_nat : ℕ → F
  pub add : F → F → F
  pub over : F → F → F
  pub less : F → F → Bool
  pub seven_tenths : F

abbrev pub is_negative : ℕ → Bool
is_negative a = leb (2 ^ 63) a

-- "evt_" before the digits of the random bytes.
unfoldable pub generate_id : List ℕ → List ℕ
generate_id hex = 101 ∷ 118 ∷ 116 ∷ 95 ∷ hex

unfoldable pub urgency_at : ℕ → ℕ → Urgency
urgency_at threshold attendance =
    if leb threshold attendance && not (is_negative attendance) then high else normal

-- The urgency that `classify` gives.
unfoldable pub urgency_for : EventType → ℕ → Urgency
unfolding urgency_at
urgency_for emergency a = critical
urgency_for weather a = critical
urgency_for athletics a = urgency_at 5000 a
urgency_for campus_event a = urgency_at 2000 a
urgency_for t a = normal

abbrev pub if_unset : Urgency → Urgency → Urgency
if_unset unset v = v
if_unset u v = u

abbrev pub if_empty : List ℕ → List ℕ → List ℕ
if_empty [] v = v
if_empty (x ∷ xs) v = x ∷ xs

module _ {F : Type 0} where
  -- `true` for an event without an error.
  unfoldable pub validate : Event F → Bool
  unfolding is_known
  validate e =
      not (str_eq e.title "")
      && (is_known e.kind
          && (not (e.start_time == 0)
              && (not (not (e.end_time == 0) && ltb e.end_time e.start_time)
                  && not (is_negative e.expected_attendance))))

  unfoldable pub classify : Event F → Event F
  unfolding urgency_for
  classify e = record e { urgency = if_unset e.urgency (urgency_for e.kind e.expected_attendance) }

  -- The ID and the time of an event that has none.
  unfoldable pub identify : ℕ → List ℕ → Event F → Event F
  unfolding generate_id
  identify now hex e = record e {
    id = if_empty e.id (generate_id hex);
    created_at = if e.created_at == 0 then now else e.created_at;
  }

module _ {F : Type 0} (fl : Numbers F) where
  unfoldable pub cap : F → F
  cap m = if fl.less (fl.of_nat 15) m then fl.of_nat 15 else m

  -- The multiplier that `estimateTraffic` gives.
  unfoldable pub multiplier_for : Urgency → ℕ → F
  unfolding cap
  multiplier_for critical a = fl.of_nat 20
  multiplier_for u a =
      if not (a == 0) && not (is_negative a)
      then cap (fl.add (fl.of_nat 1) (fl.over (fl.of_nat a) (fl.of_nat 1000)))
      else fl.of_nat 1

  unfoldable pub estimate_traffic : Event F → Event F
  unfolding multiplier_for
  estimate_traffic e = record e {
    expected_traffic_multiplier =
        if fl.less (fl.of_nat 0) e.expected_traffic_multiplier
        then e.expected_traffic_multiplier
        else multiplier_for e.urgency e.expected_attendance;
  }

  unfoldable pub confidence_for : String → F
  confidence_for source = if str_eq source "SIMULATOR" then fl.of_nat 1 else fl.seven_tenths

  -- `Normalize` for an event that is valid.
  unfoldable pub completed : ℕ → List ℕ → Event F → Event F
  unfolding identify classify estimate_traffic confidence_for
  completed now hex e =
      let n = estimate_traffic (classify (identify now hex e)) in
      record n { confidence = confidence_for n.source }

  -- `none` is ErrInvalidEvent.
  unfoldable pub normalize : ℕ → List ℕ → Event F → Option (Event F)
  unfolding validate completed
  normalize now hex e = if validate e then some (completed now hex e) else none

  unfoldable pub with_source : String → Event F → Event F
  with_source name e = record e { source = if str_eq e.source "" then name else e.source }

  -- ingest.go: `FetchAndNormalize` on what was fetched, each event with the time and the random
  -- digits of its turn.
  unfoldable pub normalize_all : String → List (ℕ × List ℕ × Event F) → List (Event F)
  unfolding normalize with_source
  normalize_all name [] = []
  normalize_all name ((now, hex, e) ∷ es) =
      let rest = normalize_all name es in
      elim (normalize now hex (with_source name e)) [ none ↦ rest | some n ↦ n ∷ rest ]
