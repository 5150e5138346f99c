-- ===== src/Events/Normalize.antt =====
-- internal/events/normalize.go: an event that is normalized stays as it is.
use boiler_pulse.Prelude.{
  ℕ, ◌+◌, ◌<◌, ◌≡◌, ◌≢◌, refl, sym, ap, ◌∙◌, subst, true, List, [], ◌∷◌, none, some, arith,
  if◌then◌else◌, ◌==◌, inl, inr, Bool-cases,
}
use boiler_pulse.Events.{
  EventType, Urgency, unset, normal, high, critical, scheduled_spike, other_urgency, Event, Numbers,
  generate_id, urgency_for, urgency_at, validate, if_unset, if_empty, classify, identify, cap,
  multiplier_for, estimate_traffic, completed, normalize, emergency, weather, academic, athletics,
  student_org, campus_event, dining, transportation, system, other_type,
}

if_unset_twice : (u v w : Urgency) → v ≢ unset → if_unset (if_unset u v) w ≡ if_unset u v
if_unset_twice unset unset w h = absurd (h refl)
if_unset_twice unset normal w h = refl
if_unset_twice unset high w h = refl
if_unset_twice unset critical w h = refl
if_unset_twice unset scheduled_spike w h = refl
if_unset_twice unset (other_urgency s) w h = refl
if_unset_twice normal v w h = refl
if_unset_twice high v w h = refl
if_unset_twice critical v w h = refl
if_unset_twice scheduled_spike v w h = refl
if_unset_twice (other_urgency s) v w h = refl

urgency_for_set : (t : EventType) (a : ℕ) → urgency_for t a ≢ unset
unfolding urgency_for urgency_at
urgency_for_set academic a h = cc
urgency_for_set athletics a h = ground (arith, h)
urgency_for_set student_org a h = cc
urgency_for_set campus_event a h = ground (arith, h)
urgency_for_set dining a h = cc
urgency_for_set transportation a h = cc
urgency_for_set weather a h = cc
urgency_for_set emergency a h = cc
urgency_for_set system a h = cc
urgency_for_set (other_type s) a h = cc

if_empty_twice :
    (x : List ℕ) (y : ℕ) (ys z : List ℕ) → if_empty (if_empty x (y ∷ ys)) z ≡ if_empty x (y ∷ ys)
if_empty_twice [] y ys z = refl
if_empty_twice (x ∷ xs) y ys z = refl

module _ {F : Type 0} (fl : Numbers F) where
  -- What is known of the numbers that the multiplier is made of.
  pub record IsPositive : Type 0 where
    pub literal : (n : ℕ) → fl.less (fl.of_nat 0) (fl.of_nat (n + 1)) ≡ true
    pub sum :
        (a : ℕ)
        → fl.less (fl.of_nat 0) (fl.add (fl.of_nat 1) (fl.over (fl.of_nat a) (fl.of_nat 1000)))
          ≡ true

  multiplier_for_positive :
      IsPositive → (u : Urgency) (a : ℕ) → fl.less (fl.of_nat 0) (multiplier_for fl u a) ≡ true
  unfolding multiplier_for cap
  multiplier_for_positive p critical a = p.literal 19
  multiplier_for_positive p unset a = ground (arith, p.literal 14, p.literal 0, p.sum a)
  multiplier_for_positive p normal a = ground (arith, p.literal 14, p.literal 0, p.sum a)
  multiplier_for_positive p high a = ground (arith, p.literal 14, p.literal 0, p.sum a)
  multiplier_for_positive p scheduled_spike a = ground (arith, p.literal 14, p.literal 0, p.sum a)
  multiplier_for_positive p (other_urgency s) a = ground (arith, p.literal 14, p.literal 0, p.sum a)

  completed_twice :
      (now later : ℕ) (hex hex2 : List ℕ) (e : Event F)
      → IsPositive
      → 0 < now
      → completed fl later hex2 (completed fl now hex e) ≡ completed fl now hex e
  unfolding completed identify classify estimate_traffic generate_id
  completed_twice now later hex hex2 e p past =
      let id = if_empty_twice e.id 101 (118 ∷ 116 ∷ 95 ∷ hex) (generate_id hex2) in
      let time : (if (if e.created_at == 0 then now else e.created_at) == 0
            then later
            else (if e.created_at == 0 then now else e.created_at))
          ≡ (if e.created_at == 0 then now else e.created_at) =
        ground (arith, past) in
      let u =
        if_unset_twice e.urgency (urgency_for e.kind e.expected_attendance)
          (urgency_for e.kind e.expected_attendance)
          (urgency_for_set e.kind e.expected_attendance) in
      let pos : fl.less (fl.of_nat 0) (
            if fl.less (fl.of_nat 0) e.expected_traffic_multiplier
            then e.expected_traffic_multiplier
            else multiplier_for fl (if_unset e.urgency (urgency_for e.kind e.expected_attendance))
                e.expected_attendance)
          ≡ true =
        ground (
          arith,
          multiplier_for_positive p (if_unset e.urgency (urgency_for e.kind e.expected_attendance))
              e.expected_attendance,
        ) in
      rw (id, time, u, pos) refl

  validate-completed :
      (now : ℕ) (hex : List ℕ) (e : Event F) → validate (completed fl now hex e) ≡ validate e
  unfolding completed validate identify classify estimate_traffic
  validate-completed now hex e = refl

  -- An event that Normalize accepted and completed is accepted again and stays as it is, at any
  -- later time and for any new random digits, if the first time is not the zero time and the
  -- multipliers that are estimated are above 0.
  pub normalize-normalize :
      (now later : ℕ) (hex hex2 : List ℕ) (e n : Event F)
      → IsPositive
      → 0 < now
      → normalize fl now hex e ≡ some n
      → normalize fl later hex2 n ≡ some n
  unfolding normalize
  normalize-normalize now later hex hex2 e n p past h = elim (Bool-cases (validate e)) [
    | inr refused ↦ absurd (let no : none ≡ some n = ground (arith, h, refused) in cc)
    | inl valid ↦
        let same : completed fl now hex e ≡ n = ground (arith, h, valid) in
        subst (λ v. normalize fl later hex2 v ≡ some v) same
          (rw (validate-completed now hex e, valid, completed_twice now later hex hex2 e p past)
            refl)
  ]

  -- An emergency without an urgency of its own becomes critical.
  pub urgency-normalize_emergency :
      (now : ℕ) (hex : List ℕ) (e n : Event F)
      → e.kind ≡ emergency
      → e.urgency ≡ unset
      → normalize fl now hex e ≡ some n
      → n.urgency ≡ critical
  unfolding normalize
  urgency-normalize_emergency now hex e n kind new h = elim (Bool-cases (validate e)) [
    | inr refused ↦ absurd (let no : none ≡ some n = ground (arith, h, refused) in cc)
    | inl valid ↦
        let same : completed fl now hex e ≡ n = ground (arith, h, valid) in
        ap (λ v. v.urgency) (sym same)
        ∙ (unfold completed estimate_traffic classify identify urgency_for in rw (kind, new) refl)
  ]
