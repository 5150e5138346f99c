-- ===== src/Raft/Cluster/Moves.antt =====
-- internal/raft: every move of a cluster keeps its invariant.
use boiler_pulse.Prelude.{
  ℕ, suc, ◌+◌, ◌/◌, ◌≤◌, ◌<◌, ◌^◌, ◌≡◌, ◌≢◌, refl, sym, ap, ◌∙◌, subst, Bool, true, false, String,
  List, ◌∷◌, some, arith, if◌then◌else◌, ◌==◌, ◌&&◌, length, inl, inr, eq_refl,
}
use mathlib.Core.Bool.{false≢true}
use native.Mathlib.Decide.{dec_lt}
use boiler_pulse.Raft.Types.{State, RequestVoteArgs, RequestVoteReply}
use boiler_pulse.Raft.Interfaces.{Storage, StateMachine}
use boiler_pulse.Raft.Node.{Node, Env, majority, update}
use boiler_pulse.Raft.Election.{Ballot, tick, handle_request_vote, handle_vote_reply}
use boiler_pulse.Raft.Election.Votes.{
  tick-VoteKept, handle_request_vote-VoteKept, handle_request_vote-recorded,
  handle_vote_reply-VoteKept,
}
use boiler_pulse.Raft.Steps.Terms.{Step-VoteKept}
use boiler_pulse.Raft.Steps.SameRole.{RoleKept}
use boiler_pulse.Raft.Steps.Roles.{
  Step-RoleKept, tick-RoleKept, handle_request_vote-RoleKept, handle_vote_reply-Counted,
}
use boiler_pulse.Raft.Cluster.{
  Cluster, PeerStatus, unasked, answered, heard, at, Move, local, elect, deliver, tally, Run, here,
  next,
}
use boiler_pulse.Raft.Cluster.Counting.{count, count-le, count-lt, Mem}
use boiler_pulse.Raft.Cluster.Invariant.{gives, is_heard, has_vote, Past, Inv, update_same}
use boiler_pulse.Raft.Cluster.Stages.{
  update-ind, Past-kept, Inv-node, Inv-grant, Inv-ballot, Inv-status,
}

at_same : {A : Type 0} (f : String → ℕ → A) (c : String) (t : ℕ) (x : A) → at f c t x c t ≡ x
at_same {A} f c t x = ap (λ b. if b && t == t then x else f c t) (eq_refl c) ∙ same_term (f c t)
  where
    same_term : (y : A) → (if true && t == t then x else y) ≡ x
    same_term y = ground arith

module _ {D M : Type 0} (st : Storage D) where
  tick-elects :
      (env : Env) (n : Node D M) (args : RequestVoteArgs) (b : Ballot)
      → n.current_term + 1 < 2 ^ 64
      → (tick st env n).1 ≡ some (args, b)
      → ((tick st env n).0.current_term ≡ n.current_term + 1)
        × (b.term ≡ n.current_term + 1)
        × ((tick st env n).0.voted_for ≡ n.id)
        × (b.votes ≡ 1)
  unfolding tick
  tick-elects env n args b fits h =
      (ground (arith, h), ground (arith, h), ground (arith, h), ground (arith, h))

module _ {D M : Type 0} {members : List String} (k : Cluster D M) (inv : Inv members k) where
  -- The votes counted in an election are on record, with the candidate's own.
  votes-le-tally :
      (c : String) (t : ℕ)
      → Mem c members
      → 0 < (k.ballot c t).votes
      → (k.ballot c t).votes ≤ count (λ v. gives (k.granted v t) c) members
  votes-le-tally c t i opened =
      let peers = (k.node c).peers in
      let given = λ (v : String). gives (k.granted v t) c in
      let self : given c ≡ true = ap (λ o. gives o c) (inv.own c t opened) ∙ eq_refl c in
      let all : count given (c ∷ peers) ≡ suc (count given peers) =
        (unfold count in ap (λ b. if b then suc (count given peers) else count given peers) self) in
      omega (
        arith,
        all,
        inv.config c i given,
        inv.tallied c t,
        count-le (λ v. is_heard (k.status c t v)) given peers
            (λ v _ h.
              ap (λ o. gives o c) (inv.backed c v t (voted (k.status c t v) h)) ∙ eq_refl c),
      )
    where
      voted : (s : PeerStatus) → is_heard s ≡ true → has_vote s ≡ true
      voted unasked h = h
      voted (answered r) h = absurd (false≢true h)
      voted (heard b) h = h

  leads-kept :
      (v : String) (m : Node D M)
      → RoleKept (k.node v) m
      → Mem v members
      → m.state ≡ State.leader
      → majority m ≤ count (λ u. gives (k.granted u m.current_term) v) members
  unfolding majority
  leads-kept v m role i l =
      let (led, term) = role.leads l in
      subst
        (λ ps. (length ps + 1) / 2 + 1 ≤ count (λ u. gives (k.granted u m.current_term) v) members)
        (sym role.peers)
        (subst (λ t. majority (k.node v) ≤ count (λ u. gives (k.granted u t) v) members) (sym term)
          (inv.won v i led))

module _ {D M : Type 0} (st : Storage D) (sm : StateMachine M) {members : List String} where
  elect-Inv :
      (k : Cluster D M)
      → Inv members k
      → (c : String) (env : Env) (args : RequestVoteArgs) (b : Ballot) → c ≢ ""
      → (k.node c).current_term + 1 < 2 ^ 64
      → (tick st env (k.node c)).1 ≡ some (args, b)
      → Inv members (record k {
        node = update k.node c (tick st env (k.node c)).0;
        ballot = at k.ballot c b.term b;
        granted = at k.granted c b.term (some c);
      })
  elect-Inv k inv c env args b named fits h =
      let n = k.node c in
      let m = (tick st env n).0 in
      let role = tick-RoleKept st env n in
      let (up, term, vote, one) = tick-elects st env n args b fits h in
      let fresh : (d : String) → k.granted c b.term ≡ some d → ⊥ =
        λ d g. not_past n b.term d (omega (arith, term)) (inv.past c b.term d g) in
      let k1 = record k { node = update k.node c m } in
      let inv1 : Inv members k1 =
        Inv-node k inv c m role.id role.peers (tick-VoteKept st env n fits)
          (leads-kept k inv c m role) in
      let inv2 =
        Inv-grant k1 inv1 c b.term c
          (subst (λ x. Past x b.term c) (sym (update_same k.node c m))
            (inr (term ∙ sym up, vote ∙ inv.ids c)))
          named (λ d g. absurd (fresh d g)) in
      Inv-ballot (record k1 { granted = at k.granted c b.term (some c) }) inv2 c b.term b refl
        (at_same k.granted c b.term (some c))
        (elim (dec_lt 0 (k.ballot c b.term).votes) [
          | yes opened ↦ absurd (fresh c (inv.own c b.term opened))
          | no none_yet ↦ omega arith
        ])
        (omega (arith, one))
    where
      not_past : (n : Node D M) (t : ℕ) (d : String) → n.current_term < t → Past n t d → ⊥
      not_past n t d newer (inl older) = omega (arith, newer, older)
      not_past n t d newer (inr (same, _)) = omega (arith, newer, same)

  deliver-Inv :
      (k : Cluster D M)
      → Inv members k
      → (c v : String) (env : Env) (args : RequestVoteArgs) → 0 < (k.ballot c args.term).votes
      → args.candidate_id ≡ c
      → k.status c args.term v ≡ unasked
      → (granted : Bool) → (handle_request_vote st env args (k.node v)).1.vote_granted ≡ granted
      → Inv members (record k {
        node = update k.node v (handle_request_vote st env args (k.node v)).0;
        status = at k.status c args.term (
            update
              (k.status c args.term)
              v
              (answered (handle_request_vote st env args (k.node v)).1));
        granted = if granted then at k.granted v args.term (some c) else k.granted;
      })
  deliver-Inv k inv c v env args opened from fresh true yes_vote =
      let n = k.node v in
      let m = (handle_request_vote st env args n).0 in
      let role = handle_request_vote-RoleKept st env args n in
      let kept = handle_request_vote-VoteKept st env args n in
      let (vote, term, _) = handle_request_vote-recorded st env args n yes_vote in
      let k1 = record k { node = update k.node v m } in
      let inv1 : Inv members k1 =
        Inv-node k inv v m role.id role.peers kept (leads-kept k inv v m role) in
      let inv2 =
        Inv-grant k1 inv1 v args.term c
          (subst (λ x. Past x args.term c) (sym (update_same k.node v m))
            (inr (sym term, vote ∙ from)))
          (inv.named c args.term c (inv.own c args.term opened))
          (λ d g. same_vote m d args.term (omega (arith, term)) (sym (vote ∙ from)) (
            Past-kept k inv n m args.term d kept (inv.named v args.term d g)
              (inv.past v args.term d g))) in
      Inv-status (record k1 { granted = at k.granted v args.term (some c) }) inv2 c v args.term
        (answered (handle_request_vote st env args n).1) opened
        (λ _. at_same k.granted v args.term (some c)) (ap is_heard fresh)
    where
      same_vote :
          (m : Node D M) (d : String) (t : ℕ)
          → m.current_term ≤ t
          → c ≡ m.voted_for
          → Past m t d
          → d ≡ c
      same_vote m d t now vote (inl older) = absurd (omega (arith, now, older))
      same_vote m d t now vote (inr (_, voted)) = sym voted ∙ sym vote
  deliver-Inv k inv c v env args opened from fresh false no_vote =
      let n = k.node v in
      let m = (handle_request_vote st env args n).0 in
      let role = handle_request_vote-RoleKept st env args n in
      let kept = handle_request_vote-VoteKept st env args n in
      Inv-status (record k { node = update k.node v m })
        (Inv-node k inv v m role.id role.peers kept (leads-kept k inv v m role)) c v args.term
        (answered (handle_request_vote st env args n).1) opened
        (λ g. absurd (false≢true (sym no_vote ∙ g))) (ap is_heard fresh)

  tally-Inv :
      (k : Cluster D M)
      → Inv members k
      → (c v : String) (t : ℕ) (reply : RequestVoteReply) → Mem v (k.node c).peers
      → k.status c t v ≡ answered reply
      → Inv members (record k {
        node = update k.node c (handle_vote_reply st (k.ballot c t) reply (k.node c)).0;
        ballot = at k.ballot c t (handle_vote_reply st (k.ballot c t) reply (k.node c)).1;
        status = at k.status c t (update (k.status c t) v (heard reply.vote_granted));
      })
  unfolding majority
  tally-Inv k inv c v t reply peer h =
      let n = k.node c in
      let b = k.ballot c t in
      let m = (handle_vote_reply st b reply n).0 in
      let after = (handle_vote_reply st b reply n).1 in
      let cnt = handle_vote_reply-Counted st b reply n in
      let opened = inv.running c v t reply h in
      let heard_now = update (k.status c t) v (heard reply.vote_granted) in
      let k1 = record k { status = at k.status c t heard_now } in
      let inv1 : Inv members k1 =
        Inv-status k inv c v t (heard reply.vote_granted) opened
          (λ g. inv.backed c v t (ap has_vote h ∙ g)) (ap is_heard h) in
      let bounded : after.votes ≤ 1 + count (λ w. is_heard (k1.status c t w)) n.peers =
        subst (λ s. after.votes ≤ 1 + count (λ w. is_heard (s w)) n.peers)
          (sym (at_same k.status c t heard_now))
          (one_more (k.status c t) v n.peers reply.vote_granted b.votes after.votes peer
            (ap is_heard h) (inv.tallied c t) cnt.one_more) in
      let k2 = record k1 { ballot = at k.ballot c t after } in
      let inv2 : Inv members k2 =
        Inv-ballot k1 inv1 c t after (cnt.term ∙ inv.ballot_term c t opened) (inv.own c t opened)
          cnt.grows bounded in
      let votes : (k2.ballot c t).votes ≡ after.votes =
        ap (λ (x : Ballot). x.votes) (at_same k.ballot c t after) in
      Inv-node k2 inv2 c m cnt.id cnt.peers (handle_vote_reply-VoteKept st b reply n) (λ i l.
        elim (cnt.leads l) [
          | inl (led, term) ↦
              leads-kept k inv c m
                (record { id = cnt.id; peers = cnt.peers; leads = λ _. (led, term) }) i l
          | inr (term, enough) ↦
              let e : m.current_term ≡ t = term ∙ inv.ballot_term c t opened in
              let most : majority m ≤ after.votes =
                subst (λ ps. (length ps + 1) / 2 + 1 ≤ after.votes) (sym cnt.peers) enough in
              subst (λ u. majority m ≤ count (λ w. gives (k.granted w u) c) members) (sym e)
                (omega (
                  arith,
                  most,
                  votes,
                  votes-le-tally k2 inv2 c t i (omega (arith, votes, cnt.grows, opened)),
                ))
        ])
    where
      one_more :
          (s : String → PeerStatus) (v : String) (ps : List String) (g : Bool) (before after : ℕ)
          → Mem v ps
          → is_heard (s v) ≡ false
          → before ≤ 1 + count (λ w. is_heard (s w)) ps
          → after ≤ before + (if g then 1 else 0)
          → after ≤ 1 + count (λ w. is_heard (update s v (heard g) w)) ps
      one_more s v ps true before after i quiet le le2 = omega (
        arith,
        le,
        le2,
        count-lt (λ w. is_heard (s w)) (λ w. is_heard (update s v (heard true) w)) ps v i
            (update-ind (λ w x. is_heard (s w) ≡ true → is_heard x ≡ true) s v (heard true)
              (λ _. refl) (λ w p. p))
            quiet (ap is_heard (update_same s v (heard true))),
      )
      one_more s v ps false before after i quiet le le2 = omega (
        arith,
        le,
        le2,
        count-le (λ w. is_heard (s w)) (λ w. is_heard (update s v (heard false) w)) ps
            (λ w _.
              update-ind (λ w x. is_heard (s w) ≡ true → is_heard x ≡ true) s v (heard false)
                (λ p. absurd (false≢true (sym quiet ∙ p))) (λ w p. p) w),
      )

  pub Move-Inv :
      (k : Cluster D M) {l : Cluster D M} → Inv members k → Move st sm k l → Inv members l
  Move-Inv k inv (local v m s quiet) =
      let role = Step-RoleKept st sm s quiet in
      Inv-node k inv v m role.id role.peers (Step-VoteKept st sm s) (leads-kept k inv v m role)
  Move-Inv k inv (elect c env args b named fits h) = elect-Inv k inv c env args b named fits h
  Move-Inv k inv (deliver c v env args opened from peer fresh) =
      deliver-Inv k inv c v env args opened from fresh
        (handle_request_vote st env args (k.node v)).1.vote_granted refl
  Move-Inv k inv (tally c v t reply peer h) = tally-Inv k inv c v t reply peer h

  pub Run-Inv : {k l : Cluster D M} → Inv members k → Run st sm k l → Inv members l
  Run-Inv inv here = inv
  Run-Inv inv (next {l} r s) = Move-Inv l (Run-Inv inv r) s
