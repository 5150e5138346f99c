-- ===== src/Gateway/Refresh.antt =====
-- internal/gateway/leader.go: the leader that a refresh chooses.
use boiler_pulse.Prelude.{
  ℕ, ◌≤◌, ◌<◌, subst, ◌≡◌, ◌≢◌, ◌⊎◌, refl, sym, ◌∙◌, Bool, true, false, List, [], ◌∷◌, arith,
  String, leb, ◌&&◌, str_eq, eq_iff, inl, inr, Bool-cases, All,
}
use boiler_pulse.Gateway.{
  GatewayNode, NodeStatus, Gateway, Outside, Best, note_poll, note_polls, poll_all, settle, refresh,
  addr_for, unreachable,
}

abbrev pub Poll : Type 0
Poll = GatewayNode × (NodeStatus × Bool)

abbrev pub term_of : Poll → ℕ
term_of (n, (status, ok)) = status.term

-- A node that answered, and that takes itself for the leader.
abbrev pub claims : Poll → Bool
claims (n, (status, ok)) = ok && str_eq status.role "LEADER"

-- A node of this ID claims to lead at this term.
abbrev pub Claimed : String → ℕ → List Poll → Type 0
Claimed id term [] = ⊥
Claimed id term ((n, p) ∷ polls) =
    ((n.id ≡ id) × (term_of (n, p) ≡ term) × (claims (n, p) ≡ true)) ⊎ Claimed id term polls

abbrev pub NoneClaims : List Poll → Type 0
NoneClaims polls = All (λ p. claims p ≡ false) polls

-- No node claims to lead at a term above this one.
abbrev pub AllUpTo : ℕ → List Poll → Type 0
AllUpTo term polls = All (λ p. claims p ≡ true → term_of p ≤ term) polls

-- What is gathered after some polls, from what was gathered before: the leader stays if every claim
-- is below the term that it has.
record Gathered (polls : List Poll) (before after : Best) : Type 0 where
  grows : before.best_term ≤ after.best_term
  up_to : AllUpTo after.best_term polls
  chosen :
      ((after.best_leader_id ≡ before.best_leader_id)
        × (after.best_term ≡ before.best_term)
        × All (λ p. claims p ≡ true → term_of p < before.best_term) polls)
      ⊎ Claimed after.best_leader_id after.best_term polls

note_polls-Gathered : (polls : List Poll) (b : Best) → Gathered polls b (note_polls polls b)
unfolding note_polls
note_polls-Gathered [] b = record { grows = omega arith; up_to = tt; chosen = inl (refl, refl, tt) }
note_polls-Gathered ((n, (status, ok)) ∷ polls) b =
    let rest = note_polls-Gathered polls (note_poll n (status, ok) b) in
    elim (Bool-cases (ok && str_eq status.role "LEADER" && leb b.best_term status.term)) [
      | inl e ↦
          let taken : (note_poll n (status, ok) b).best_term ≡ status.term =
            (unfold note_poll in rw e refl) in
          let who : (note_poll n (status, ok) b).best_leader_id ≡ n.id =
            (unfold note_poll in rw e refl) in
          record {
            grows = ground (arith, rest.grows, taken, e);
            up_to = (λ c. omega (arith, rest.grows, taken), rest.up_to);
            chosen = elim rest.chosen [
              | inl (same, at, below) ↦
                  inr (inl (sym (same ∙ who), sym (at ∙ taken), ground (arith, e)))
              | inr later ↦ inr (inr later)
            ];
          }
      | inr e ↦
          let stays : (note_poll n (status, ok) b).best_term ≡ b.best_term =
            (unfold note_poll in rw e refl) in
          let who : (note_poll n (status, ok) b).best_leader_id ≡ b.best_leader_id =
            (unfold note_poll in rw e refl) in
          record {
            grows = omega (arith, rest.grows, stays);
            up_to = (λ c. ground (arith, rest.grows, stays, e, c), rest.up_to);
            chosen = elim rest.chosen [
              | inl (same, at, below) ↦ inl (
                same ∙ who,
                at ∙ stays,
                (
                  λ c. ground (arith, e, c),
                  subst (λ t. All (λ p. claims p ≡ true → term_of p < t) polls) stays below,
                ),
              )
              | inr later ↦ inr (inr later)
            ];
          }
    ]

-- No claim is below term 0.
none_below :
    (polls : List Poll) → All (λ p. claims p ≡ true → term_of p < 0) polls → NoneClaims polls
none_below [] h = tt
none_below (p ∷ polls) (a, h) = (
  elim (Bool-cases (claims p)) [ inl c ↦ absurd (omega (arith, a c)) | inr c ↦ c ],
  none_below polls h,
)

abbrev pub IsNamed : GatewayNode → Type 0
IsNamed n = n.id ≢ ""

Claimed-IsNamed :
    (id : String) (term : ℕ) (polls : List Poll)
    → All (λ p. IsNamed p.0) polls
    → Claimed id term polls
    → id ≢ ""
Claimed-IsNamed id term [] h c e = c
Claimed-IsNamed id term ((n, p) ∷ polls) (a, h) (inl c) e = a (c.0 ∙ e)
Claimed-IsNamed id term ((n, p) ∷ polls) (a, h) (inr c) e = Claimed-IsNamed id term polls h c e

named_test : (id : String) → id ≢ "" → str_eq id "" ≡ false
named_test id h = elim (Bool-cases (str_eq id "")) [
  | inl e ↦ absurd (h ((eq_iff id "").0 e))
  | inr e ↦ e
]

module _ {W F : Type 0} (o : Outside W F) where
  poll_all-IsNamed :
      (nodes : List GatewayNode) (w : W)
      → All IsNamed nodes
      → All (λ p. IsNamed p.0) (poll_all o nodes w).1
  unfolding poll_all
  poll_all-IsNamed [] w h = tt
  poll_all-IsNamed (n ∷ nodes) w (a, h) = (a, poll_all-IsNamed nodes (o.poll n w).0 h)

  -- If the configured nodes have IDs: a refresh keeps the known leader and its address if no node
  -- that answers takes itself for one; otherwise the leader becomes a node that takes itself for
  -- the leader at a term that no other such answer exceeds, with the configured address of its ID.
  pub refresh_chooses :
      (w : W) (g : Gateway F)
      → All IsNamed g.nodes
      → (NoneClaims (poll_all o g.nodes w).1
          × ((refresh o w g).1.leader_id ≡ g.leader_id)
          × ((refresh o w g).1.leader_addr ≡ g.leader_addr))
        ⊎ ((term : ℕ) × Claimed (refresh o w g).1.leader_id term (poll_all o g.nodes w).1
            × AllUpTo term (poll_all o g.nodes w).1
            × ((refresh o w g).1.leader_addr ≡ addr_for (refresh o w g).1.leader_id g.nodes))
  unfolding refresh settle
  refresh_chooses w g ids =
      let start : Best = record {
        statuses = λ id. unreachable;
        best_term = 0;
        best_leader_id = "";
      } in
      let polls = (poll_all o g.nodes w).1 in
      let best = note_polls polls start in
      let x = note_polls-Gathered polls start in
      elim x.chosen [
        | inl (same, at, below) ↦
            rw ((eq_iff best.best_leader_id "").1 same) (inl (none_below polls below, refl, refl))
        | inr claimed ↦
            let named =
              Claimed-IsNamed best.best_leader_id best.best_term polls
                (poll_all-IsNamed g.nodes w ids) claimed in
            rw (named_test best.best_leader_id named) (inr (best.best_term, claimed, x.up_to, refl))
      ]
