-- ===== src/Events/Runs.antt =====
-- internal/events: a test, and the theorems on one event. A float is a natural number.
use boiler_pulse.Prelude.{ℕ, ◌+◌, ◌/◌, ◌≡◌, refl, [], ◌∷◌, some, arith, ltb, length}
use boiler_pulse.Events.{
  Event, Numbers, campus_event, other_type, unset, validate, completed, normalize, normalize_all,
  is_known, with_source,
}
use boiler_pulse.Events.Normalize.{IsPositive, normalize-normalize}

abbrev whole : Numbers ℕ
whole = record {
  of_nat = λ n. n;
  add = λ a b. a + b;
  over = λ a b. a / b;
  less = λ a b. ltb a b;
  seven_tenths = 0;
}

abbrev concert : Event ℕ
concert = record {
  id = [];
  kind = campus_event;
  title = "Concert";
  description = "";
  location = record { name = "Hall"; latitude = 0; longitude = 0 };
  start_time = 50;
  end_time = 60;
  expected_attendance = 3000;
  expected_traffic_multiplier = 0;
  urgency = unset;
  audience = [];
  source = "";
  created_at = 0;
  confidence = 0;
}

-- What is left of a round with one event of an unknown type.
round_of :
    length (
      normalize_all whole "CALENDAR"
        ((5, [], record concert { kind = other_type "PARTY" }) ∷ (6, [], concert) ∷ []))
    ≡ 1
unfolding normalize_all normalize with_source validate is_known
round_of = refl

whole-IsPositive : IsPositive whole
whole-IsPositive = record { literal = λ n. ground arith; sum = λ a. ground arith }

normalize-normalize_example :
    normalize whole 9 (50 ∷ []) (completed whole 5 (49 ∷ []) concert)
    ≡ some (completed whole 5 (49 ∷ []) concert)
normalize-normalize_example =
    normalize-normalize whole 5 9 (49 ∷ []) (50 ∷ []) concert (completed whole 5 (49 ∷ []) concert)
      whole-IsPositive (omega arith) accepted
  where
    accepted : normalize whole 5 (49 ∷ []) concert ≡ some (completed whole 5 (49 ∷ []) concert)
    accepted = (unfold normalize validate is_known in refl)
