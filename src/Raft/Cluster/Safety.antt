-- ===== src/Raft/Cluster/Safety.antt =====
-- internal/raft: two leaders of one term are one node.
use boiler_pulse.Prelude.{
  ℕ, ◌+◌, ◌≤◌, ◌≡◌, ◌≢◌, sym, ap, ◌∙◌, subst, Bool, true, false, String, List, ◌∷◌, Option, none,
  some, arith, str_eq, length, inl, inr, Bool-cases, eq_iff,
}
use mathlib.Core.Bool.{false≢true}
use boiler_pulse.Raft.Types.{State, RequestVoteReply}
use boiler_pulse.Raft.Interfaces.{Storage, StateMachine}
use boiler_pulse.Raft.Node.{majority}
use boiler_pulse.Raft.Cluster.{Cluster, PeerStatus, unasked, answered, Run}
use boiler_pulse.Raft.Cluster.Counting.{count, count-true, count-disjoint, Mem}
use boiler_pulse.Raft.Cluster.Invariant.{gives, has_vote, Inv}
use boiler_pulse.Raft.Cluster.Moves.{Run-Inv}

-- A cluster before its first election.
pub record Fresh {D M : Type 0} (members : List String) (k : Cluster D M) : Type 0 where
  pub ids : (v : String) → (k.node v).id ≡ v
  pub config :
      (c : String)
      → Mem c members
      → (p : String → Bool) → count p (c ∷ (k.node c).peers) ≡ count p members
  pub no_leader : (c : String) → (k.node c).state ≢ State.leader
  pub no_ballot : (c : String) (t : ℕ) → (k.ballot c t).votes ≡ 0
  pub no_request : (c v : String) (t : ℕ) → k.status c t v ≡ unasked
  pub no_grant : (v : String) (t : ℕ) → k.granted v t ≡ none

not_granted : {a : String} → none ≡ some a → ⊥
not_granted h = false≢true (ap is_none h)
  where
    is_none : Option String → Bool
    is_none none = false
    is_none (some a) = true

module _ {D M : Type 0} (st : Storage D) (sm : StateMachine M) {members : List String} where
  Fresh-Inv : (k : Cluster D M) → Fresh members k → Inv members k
  Fresh-Inv k f = record {
    ids = f.ids;
    config = f.config;
    past = λ v t c g. absurd (not_granted (sym (f.no_grant v t) ∙ g));
    named = λ v t c g. absurd (not_granted (sym (f.no_grant v t) ∙ g));
    ballot_term = λ c t p. absurd (omega (arith, p, f.no_ballot c t));
    own = λ c t p. absurd (omega (arith, p, f.no_ballot c t));
    running = λ c v t r h. absurd (asked r (sym (f.no_request c v t) ∙ h));
    backed = λ c v t h. absurd (false≢true (sym (ap has_vote (f.no_request c v t)) ∙ h));
    tallied = λ c t. omega (arith, f.no_ballot c t);
    won = λ c i l. absurd (f.no_leader c l);
  }
    where
      is_unasked : PeerStatus → Bool
      is_unasked unasked = true
      is_unasked _ = false

      asked : (r : RequestVoteReply) → unasked ≡ answered r → ⊥
      asked r h = false≢true (sym (ap is_unasked h))

  -- Two nodes of a cluster that lead in the same term are one node, after any run of the nodes'
  -- own steps, elections, delivered requests for votes and counted replies, from a start in which
  -- no node leads, no vote was granted or counted and no request for one was sent, if each node's
  -- peers are the other members.
  pub election_safety :
      (start now : Cluster D M)
      → Fresh members start
      → Run st sm start now
      → (c d : String) → Mem c members
      → Mem d members
      → (now.node c).state ≡ State.leader
      → (now.node d).state ≡ State.leader
      → (now.node c).current_term ≡ (now.node d).current_term
      → c ≡ d
  unfolding majority
  election_safety start now fresh run c d ic id lc ld same = elim (Bool-cases (str_eq c d)) [
    | inl e ↦ (eq_iff c d).0 e
    | inr differ ↦
        let inv = Run-Inv st sm (Fresh-Inv start fresh) run in
        let t = (now.node c).current_term in
        let for_c = λ (v : String). gives (now.granted v t) c in
        let for_d = λ (v : String). gives (now.granted v t) d in
        let most_d : majority (now.node d) ≤ count for_d members =
          subst (λ u. majority (now.node d) ≤ count (λ v. gives (now.granted v u) d) members)
            (sym same) (inv.won d id ld) in
        absurd (
          omega (
            arith,
            inv.won c ic lc,
            most_d,
            count-disjoint for_c for_d members (λ v. apart differ (now.granted v t)),
            size now inv c ic,
            size now inv d id,
          ))
  ]
    where
      apart : str_eq c d ≡ false → (o : Option String) → gives o c ≡ true → gives o d ≡ false
      apart differ none h = absurd (false≢true h)
      apart differ (some e) h = subst (λ x. str_eq x d ≡ false) (sym ((eq_iff e c).0 h)) differ

      size :
          (k : Cluster D M)
          → Inv members k
          → (a : String) → Mem a members
          → 1 + length (k.node a).peers ≡ length members
      size k inv a i =
          (let e : 1 + length (k.node a).peers ≡ length (a ∷ (k.node a).peers) = omega arith in e)
          ∙ sym (count-true (a ∷ (k.node a).peers))
          ∙ inv.config a i (λ v. true)
          ∙ count-true members
