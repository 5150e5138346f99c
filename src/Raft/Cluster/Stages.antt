-- ===== src/Raft/Cluster/Stages.antt =====
-- internal/raft: the parts of a cluster's moves, and that each keeps the invariant.
use boiler_pulse.Prelude.{
  ℕ, ◌+◌, ◌≤◌, ◌<◌, ◌≡◌, ◌≢◌, sym, ap, ◌∙◌, subst, Bool, true, false, String, List, ◌∷◌, none, some,
  arith, if◌then◌else◌, str_eq, ◌==◌, ◌&&◌, inl, inr, Bool-cases, eq_iff, eq_refl,
}
use mathlib.Core.Bool.{false≢true}
use native.Mathlib.Decide.{dec_lt}
use boiler_pulse.Raft.Types.{State, RequestVoteReply}
use boiler_pulse.Raft.Node.{Node, majority, update}
use boiler_pulse.Raft.Election.{Ballot}
use boiler_pulse.Raft.Frame.{VoteKept}
use boiler_pulse.Raft.Cluster.{Cluster, PeerStatus, answered, at}
use boiler_pulse.Raft.Cluster.Counting.{count, count-le, Mem}
use boiler_pulse.Raft.Cluster.Invariant.{gives, is_heard, has_vote, Past, Inv, gives-some}

-- A family over an updated function holds at the new value and at the old ones.
pub update-ind {ℓ} :
    {A : Type 0} (P : String → A → Type ℓ) (m : String → A) (v : String) (x : A)
    → P v x
    → ((u : String) → P u (m u))
    → (u : String) → P u (update m v x u)
update-ind P m v x new old u = elim (Bool-cases (str_eq u v)) [
  | inl same ↦
      subst (λ b. P u (if b then x else m u)) (sym same)
        (subst (λ w. P w x) (sym ((eq_iff u v).0 same)) new)
  | inr other ↦ subst (λ b. P u (if b then x else m u)) (sym other) (old u)
]

pub at-ind {ℓ} :
    {A : Type 0} (P : String → ℕ → A → Type ℓ) (f : String → ℕ → A) (c : String) (t : ℕ) (x : A)
    → P c t x
    → ((d : String) (u : ℕ) → P d u (f d u))
    → (d : String) (u : ℕ) → P d u (at f c t x d u)
at-ind P f c t x new old d u = elim (Bool-cases (str_eq d c && u == t)) [
  | inl same ↦
      subst (λ b. P d u (if b then x else f d u)) (sym same)
        (subst (λ w. P w u x) (sym (names same)) (subst (λ w. P c w x) (sym (terms same)) new))
  | inr other ↦ subst (λ b. P d u (if b then x else f d u)) (sym other) (old d u)
]
  where
    names : (str_eq d c && u == t) ≡ true → d ≡ c
    names h = (eq_iff d c).0 (ground (arith, h))

    terms : (str_eq d c && u == t) ≡ true → u ≡ t
    terms h = ground (arith, h)

module _ {D M : Type 0} {members : List String} (k : Cluster D M) (inv : Inv members k) where
  pub Past-kept :
      (n m : Node D M) (t : ℕ) (c : String) → VoteKept n m → c ≢ "" → Past n t c → Past m t c
  Past-kept n m t c kept named (inl older) = inl (omega (arith, older, kept.grows))
  Past-kept n m t c kept named (inr (same, vote)) = elim (dec_lt n.current_term m.current_term) [
    | yes newer ↦ inl (omega (arith, same, newer))
    | no still ↦
        let e : m.current_term ≡ n.current_term = omega (arith, kept.grows, still) in
        inr (same ∙ sym e, kept.keeps e (λ z. named (sym vote ∙ z)) ∙ vote)
  ]

  -- One node takes a step that keeps its vote; a leader afterwards has its majority.
  pub Inv-node :
      (v : String) (m : Node D M)
      → m.id ≡ (k.node v).id
      → m.peers ≡ (k.node v).peers
      → VoteKept (k.node v) m
      → (Mem v members
          → m.state ≡ State.leader
          → majority m ≤ count (λ u. gives (k.granted u m.current_term) v) members)
      → Inv members (record k { node = update k.node v m })
  Inv-node v m same_id same_peers kept leads = record {
    ids = update-ind (λ u n. n.id ≡ u) k.node v m (same_id ∙ inv.ids v) inv.ids;
    config =
        update-ind
          (λ u n. Mem u members → (p : String → Bool) → count p (u ∷ n.peers) ≡ count p members)
          k.node v m (λ i p. ap (λ ps. count p (v ∷ ps)) same_peers ∙ inv.config v i p) inv.config;
    past =
        update-ind (λ u n. (t : ℕ) (c : String) → k.granted u t ≡ some c → Past n t c) k.node v m
          (λ t c g. Past-kept (k.node v) m t c kept (inv.named v t c g) (inv.past v t c g))
          inv.past;
    named = inv.named;
    ballot_term = inv.ballot_term;
    own = inv.own;
    running = inv.running;
    backed = inv.backed;
    tallied =
        update-ind
          (λ u n.
            (t : ℕ) → (k.ballot u t).votes ≤ 1 + count (λ w. is_heard (k.status u t w)) n.peers)
          k.node v m
          (λ t.
            subst (λ ps. (k.ballot v t).votes ≤ 1 + count (λ w. is_heard (k.status v t w)) ps)
              (sym same_peers) (inv.tallied v t))
          inv.tallied;
    won =
        update-ind
          (λ u n.
            Mem u members
            → n.state ≡ State.leader
            → majority n ≤ count (λ w. gives (k.granted w n.current_term) u) members)
          k.node v m leads inv.won;
  }

  -- A vote is put on record.
  pub Inv-grant :
      (v : String) (t : ℕ) (c : String)
      → Past (k.node v) t c
      → c ≢ ""
      → ((d : String) → k.granted v t ≡ some d → d ≡ c)
      → Inv members (record k { granted = at k.granted v t (some c) })
  Inv-grant v t c past named only = record {
    ids = inv.ids;
    config = inv.config;
    past =
        at-ind (λ u s o. (d : String) → o ≡ some d → Past (k.node u) s d) k.granted v t (some c)
          (λ d g. subst (Past (k.node v) t) (some-inj g) past) inv.past;
    named =
        at-ind (λ u s o. (d : String) → o ≡ some d → d ≢ "") k.granted v t (some c)
          (λ d g. subst (λ e. e ≢ "") (some-inj g) named) inv.named;
    ballot_term = inv.ballot_term;
    own = λ d u h. extends d u d (inv.own d u h);
    running = inv.running;
    backed = λ d w u h. extends w u d (inv.backed d w u h);
    tallied = inv.tallied;
    won = λ d i l.
        let n = k.node d in
        omega (
          arith,
          inv.won d i l,
          count-le (λ w. gives (k.granted w n.current_term) d)
              (λ w. gives (at k.granted v t (some c) w n.current_term) d) members
              (λ w _ g.
                given w n.current_term d
                  (extends w n.current_term d (gives-some (k.granted w n.current_term) d g))),
        );
  }
    where
      some-inj : {a b : String} → some a ≡ some b → a ≡ b
      some-inj {a} h = ap (λ o. elim o [ none ↦ a | some x ↦ x ]) h

      extends :
          (w : String) (u : ℕ) (d : String)
          → k.granted w u ≡ some d
          → at k.granted v t (some c) w u ≡ some d
      extends =
          at-ind (λ w u o. (d : String) → k.granted w u ≡ some d → o ≡ some d) k.granted v t
            (some c) (λ d g. ap some (sym (only d g))) (λ w u d g. g)

      given :
          (w : String) (u : ℕ) (d : String)
          → at k.granted v t (some c) w u ≡ some d
          → gives (at k.granted v t (some c) w u) d ≡ true
      given w u d h = ap (λ o. gives o d) h ∙ eq_refl d

  -- An election is opened, or a vote is counted in it.
  pub Inv-ballot :
      (c : String) (t : ℕ) (b : Ballot)
      → b.term ≡ t
      → k.granted c t ≡ some c
      → (k.ballot c t).votes ≤ b.votes
      → b.votes ≤ 1 + count (λ w. is_heard (k.status c t w)) (k.node c).peers
      → Inv members (record k { ballot = at k.ballot c t b })
  Inv-ballot c t b same own grows bounded = record {
    ids = inv.ids;
    config = inv.config;
    past = inv.past;
    named = inv.named;
    ballot_term =
        at-ind (λ d u x. 0 < x.votes → x.term ≡ u) k.ballot c t b (λ _. same) inv.ballot_term;
    own = at-ind (λ d u x. 0 < x.votes → k.granted d u ≡ some d) k.ballot c t b (λ _. own) inv.own;
    running = λ d w u r h.
        (at-ind (λ e s x. 0 < (k.ballot e s).votes → 0 < x.votes) k.ballot c t b
            (λ p. omega (arith, p, grows)) (λ e s p. p))
          d u (inv.running d w u r h);
    backed = inv.backed;
    tallied =
        at-ind (λ d u x. x.votes ≤ 1 + count (λ w. is_heard (k.status d u w)) (k.node d).peers)
          k.ballot c t b bounded inv.tallied;
    won = inv.won;
  }

  -- What has become of the request to one peer.
  pub Inv-status :
      (c v : String) (t : ℕ) (s : PeerStatus)
      → 0 < (k.ballot c t).votes
      → (has_vote s ≡ true → k.granted v t ≡ some c)
      → is_heard (k.status c t v) ≡ false
      → Inv members (record k { status = at k.status c t (update (k.status c t) v s) })
  Inv-status c v t s open_election backed quiet = record {
    ids = inv.ids;
    config = inv.config;
    past = inv.past;
    named = inv.named;
    ballot_term = inv.ballot_term;
    own = inv.own;
    running = λ d w u r h. running_at d u w r h;
    backed = λ d w u h. backed_at d u w h;
    tallied = λ d u. omega (
      arith,
      inv.tallied d u,
      count-le (λ w. is_heard (k.status d u w))
          (λ w. is_heard (at k.status c t (update (k.status c t) v s) d u w)) (k.node d).peers
          (λ w _. heard_at d u w),
    );
    won = inv.won;
  }
    where
      running_at :
          (d : String) (u : ℕ) (w : String) (r : RequestVoteReply)
          → at k.status c t (update (k.status c t) v s) d u w ≡ answered r
          → 0 < (k.ballot d u).votes
      running_at =
          at-ind
            (λ d u f.
              (w : String) (r : RequestVoteReply) → f w ≡ answered r → 0 < (k.ballot d u).votes)
            k.status c t (update (k.status c t) v s) (λ w r h. open_election)
            (λ d u w r h. inv.running d w u r h)

      backed_at :
          (d : String) (u : ℕ) (w : String)
          → has_vote (at k.status c t (update (k.status c t) v s) d u w) ≡ true
          → k.granted w u ≡ some d
      backed_at =
          at-ind (λ d u f. (w : String) → has_vote (f w) ≡ true → k.granted w u ≡ some d) k.status c
            t (update (k.status c t) v s)
            (update-ind (λ w x. has_vote x ≡ true → k.granted w t ≡ some c) (k.status c t) v s
              backed (λ w h. inv.backed c w t h))
            (λ d u w h. inv.backed d w u h)

      heard_at :
          (d : String) (u : ℕ) (w : String)
          → is_heard (k.status d u w) ≡ true
          → is_heard (at k.status c t (update (k.status c t) v s) d u w) ≡ true
      heard_at =
          at-ind (λ d u f. (w : String) → is_heard (k.status d u w) ≡ true → is_heard (f w) ≡ true)
            k.status c t (update (k.status c t) v s)
            (update-ind (λ w x. is_heard (k.status c t w) ≡ true → is_heard x ≡ true) (k.status c t)
              v s (λ h. absurd (false≢true (sym quiet ∙ h))) (λ w h. h))
            (λ d u w h. h)
