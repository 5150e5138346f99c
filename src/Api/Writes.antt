-- ===== src/Api/Writes.antt =====
-- internal/api: a write that the client sees accepted went through consensus.
use boiler_pulse.Prelude.{
  ℕ, ◌<◌, ◌^◌, ◌≡◌, ◌≢◌, refl, sym, ap, subst, true, List, [], ◌∷◌, none, some, arith, inl, inr,
  Bool-cases, Option-cases, ◌⊎◌,
}
use boiler_pulse.Bytes.{bytes_eq}
use boiler_pulse.Storage.Table.{Key}
use boiler_pulse.Storage.StateMachine.{Command}
use boiler_pulse.Events.{Event, emergency, unset, normalize}
use boiler_pulse.Events.Normalize.{urgency-normalize_emergency}
use boiler_pulse.Api.{
  Answer, empty, Server, Proposer, PutRequest, strong, eventual, critical_consistency,
  requested_consistency, put_command, write_through_raft, or_answer, handle_put, created_event,
  handle_post_event, apply_write, event_command, consistency_for_urgency,
}

-- The node led, and its proposer committed the command.
pub record Committed {W : Type 0} (p : Proposer W) (cmd : Command) (w after : W) : Type 0 where
  pub leads : (p.status w).is_leader ≡ true
  pub proposed : p.propose cmd w ≡ (after, true)

abbrev pub IsKnown : List ℕ → Type 0
IsKnown c = (c ≡ strong) ⊎ ((c ≡ eventual) ⊎ (c ≡ critical_consistency))

module _ {W F : Type 0} where
  through :
      (s : Server W F) (p : Proposer W) (cmd : Command) (a : Answer F) (w : W)
      → a.status ≢ 503
      → (or_answer s a (write_through_raft s p cmd w)).1.status ≡ a.status
      → Committed p cmd w (or_answer s a (write_through_raft s p cmd w)).0
  unfolding write_through_raft
  through s p cmd a w other h = elim (Bool-cases (p.status w).is_leader) [
    | inr follows ↦ absurd (other (sym (let e : 503 ≡ a.status = ground (arith, h, follows) in e)))
    | inl leads ↦ elim (Bool-cases (p.propose cmd w).1) [
      | inr lost ↦
          absurd (other (sym (let e : 503 ≡ a.status = ground (arith, h, leads, lost) in e)))
      | inl won ↦
          rw (leads, won, write_through_raft)
            (record { leads = leads; proposed = ap (λ b. ((p.propose cmd w).0, b)) won })
    ]
  ]

requested_IsKnown : (x c : List ℕ) → requested_consistency x ≡ some c → IsKnown c
unfolding requested_consistency
requested_IsKnown [] c h = inr (inl (let e : c ≡ eventual = cc in e))
requested_IsKnown (x ∷ xs) c h = elim (Bool-cases (bytes_eq (x ∷ xs) strong)) [
  | inl a ↦ inl (let e : c ≡ strong = ground (arith, h, a) in e)
  | inr a ↦ elim (Bool-cases (bytes_eq (x ∷ xs) eventual)) [
    | inl b ↦ inr (inl (let e : c ≡ eventual = ground (arith, h, a, b) in e))
    | inr b ↦ elim (Bool-cases (bytes_eq (x ∷ xs) critical_consistency)) [
      | inl d ↦ inr (inr (let e : c ≡ critical_consistency = ground (arith, h, a, b, d) in e))
      | inr d ↦ absurd (let no : none ≡ some c = ground (arith, h, a, b, d) in cc)
    ]
  ]
]

put_command-IsKnown :
    (key : Key) (req : PutRequest) (cmd : Command)
    → put_command key req ≡ some cmd
    → IsKnown cmd.consistency
      × (cmd.key ≡ key)
      × (cmd.value ≡ req.value)
      × (cmd.ttl_seconds < 2 ^ 63)
unfolding put_command
put_command-IsKnown key req cmd h = elim (Option-cases (requested_consistency req.consistency)) [
  | inl e ↦ absurd (let no : none ≡ some cmd = ground (arith, h, e) in cc)
  | inr (c, e) ↦
      let same : c ≡ cmd.consistency = ground (arith, h, e) in
      (
        subst IsKnown same (requested_IsKnown req.consistency c e),
        ground (arith, h, e),
        ground (arith, h, e),
        ground (arith, h, e),
      )
]

module _ {W F : Type 0} (s : Server W F) (p : Proposer W) where
  -- On a node with a proposer, a PUT that is answered with 204 was proposed while the node led and
  -- was committed, as a command for its key with one of the three consistencies and a time to live
  -- that is not negative.
  pub handle_put-Committed :
      (key : Key) (body : List ℕ) (w : W)
      → s.proposer ≡ some p
      → (handle_put s key body w).1.status ≡ 204
      → (cmd : Command) × IsKnown cmd.consistency
        × (cmd.key ≡ key)
        × (cmd.ttl_seconds < 2 ^ 63)
        × Committed p cmd w (handle_put s key body w).0
  unfolding handle_put
  handle_put-Committed key body w on h = elim (Option-cases (s.decode_put body)) [
    | inl e ↦ absurd (let no : ◌≡◌ {A = ℕ} 400 204 = ground (arith, h, e) in omega (arith, no))
    | inr (req, e) ↦ elim (Option-cases (put_command key req)) [
      | inl f ↦ absurd (let no : ◌≡◌ {A = ℕ} 400 204 = ground (arith, h, e, f) in omega (arith, no))
      | inr (cmd, f) ↦
          let (known, of_key, of_value, bounded) = put_command-IsKnown key req cmd f in
          rw (e, f, on, handle_put)
            (
              cmd,
              known,
              of_key,
              bounded,
              through s p cmd (record { status = 204; body = empty }) w (λ no. omega (arith, no))
                  (let done : (or_answer s (record { status = 204; body = empty })
                          (write_through_raft s p cmd w)).1.status
                        ≡ 204 =
                      rw (e, f, on, handle_put) at h in
                    done),
            )
    ]
  ]

  -- On a node with a proposer, an event of type EMERGENCY without an urgency that is answered with
  -- 201 was proposed while the node led and was committed, as a command at CRITICAL consistency.
  pub handle_post_event-emergency :
      (now : ℕ) (hex body : List ℕ) (w : W) (raw : Event F)
      → s.proposer ≡ some p
      → s.decode_event body ≡ some raw
      → raw.kind ≡ emergency
      → raw.urgency ≡ unset
      → (handle_post_event s now hex body w).1.status ≡ 201
      → (cmd : Command) × (cmd.consistency ≡ critical_consistency)
        × Committed p cmd w (handle_post_event s now hex body w).0
  unfolding handle_post_event apply_write
  handle_post_event-emergency now hex body w raw on read kind new h =
      elim (Option-cases (normalize s.numbers now hex raw)) [
        | inl e ↦
            absurd (let no : ◌≡◌ {A = ℕ} 400 201 = ground (arith, h, read, e) in omega (arith, no))
        | inr (n, e) ↦ elim (Option-cases (s.encode_event n)) [
          | inl f ↦
              absurd
                (let no : ◌≡◌ {A = ℕ} 500 201 = ground (arith, h, read, e, f) in omega (arith, no))
          | inr (value, f) ↦
              rw (read, e, f, on, handle_post_event)
                (
                  event_command s value n,
                  (unfold event_command consistency_for_urgency in
                      rw (urgency-normalize_emergency s.numbers now hex raw n kind new e) refl),
                  through s p (event_command s value n)
                      (record { status = 201; body = created_event n }) w (λ no. omega (arith, no))
                      (let done : (or_answer s (record { status = 201; body = created_event n })
                              (write_through_raft s p (event_command s value n) w)).1.status
                            ≡ 201 =
                          rw (read, e, f, on, handle_post_event) at h in
                        done),
                )
        ]
      ]
