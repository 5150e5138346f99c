-- ===== src/Raft/Cluster/Invariant.antt =====
-- internal/raft: what holds of a cluster in every state that its moves reach.
use boiler_pulse.Prelude.{
  ℕ, ◌+◌, ◌≤◌, ◌<◌, ◌≡◌, ◌≢◌, ap, Bool, true, false, String, List, ◌∷◌, Option, none, some, arith,
  if◌then◌else◌, str_eq, ◌⊎◌, eq_iff, eq_refl,
}
use boiler_pulse.Raft.Types.{State, RequestVoteReply}
use boiler_pulse.Raft.Node.{Node, majority, update}
use boiler_pulse.Raft.Cluster.{Cluster, PeerStatus, unasked, answered, heard}
use boiler_pulse.Raft.Cluster.Counting.{count, Mem}

abbrev pub gives : Option String → String → Bool
gives none c = false
gives (some d) c = str_eq d c

abbrev pub is_heard : PeerStatus → Bool
is_heard (heard b) = b
is_heard _ = false

-- A status that says that the peer has granted its vote.
abbrev pub has_vote : PeerStatus → Bool
has_vote unasked = false
has_vote (answered r) = r.vote_granted
has_vote (heard b) = b

-- A vote that was granted in a term is in the past of the voter, or the one it has now.
abbrev pub Past : {D M : Type 0} → Node D M → ℕ → String → Type 0
Past n t c = (t < n.current_term) ⊎ ((t ≡ n.current_term) × (n.voted_for ≡ c))

pub record Inv {D M : Type 0} (members : List String) (k : Cluster D M) : Type 0 where
  pub ids : (v : String) → (k.node v).id ≡ v
  pub config :
      (c : String)
      → Mem c members
      → (p : String → Bool) → count p (c ∷ (k.node c).peers) ≡ count p members
  pub past : (v : String) (t : ℕ) (c : String) → k.granted v t ≡ some c → Past (k.node v) t c
  pub named : (v : String) (t : ℕ) (c : String) → k.granted v t ≡ some c → c ≢ ""
  pub ballot_term : (c : String) (t : ℕ) → 0 < (k.ballot c t).votes → (k.ballot c t).term ≡ t
  pub own : (c : String) (t : ℕ) → 0 < (k.ballot c t).votes → k.granted c t ≡ some c
  pub running :
      (c v : String) (t : ℕ) (r : RequestVoteReply)
      → k.status c t v ≡ answered r
      → 0 < (k.ballot c t).votes
  pub backed : (c v : String) (t : ℕ) → has_vote (k.status c t v) ≡ true → k.granted v t ≡ some c
  pub tallied :
      (c : String) (t : ℕ)
      → (k.ballot c t).votes ≤ 1 + count (λ v. is_heard (k.status c t v)) (k.node c).peers
  pub won :
      (c : String)
      → Mem c members
      → (k.node c).state ≡ State.leader
      → majority (k.node c) ≤ count (λ v. gives (k.granted v (k.node c).current_term) c) members

-- Every grant that is on record stays on record.
abbrev pub Extends : {D M : Type 0} → Cluster D M → Cluster D M → Type 0
Extends k l = (v : String) (t : ℕ) (c : String) → k.granted v t ≡ some c → l.granted v t ≡ some c

pub update_same : {A : Type 0} (m : String → A) (v : String) (x : A) → update m v x v ≡ x
update_same m v x = ap (λ b. if b then x else m v) (eq_refl v)

pub update_other :
    {A : Type 0} (m : String → A) (v u : String) (x : A) → str_eq u v ≡ false → update m v x u ≡ m u
update_other m v u x h = ap (λ b. if b then x else m u) h

pub gives-some : (o : Option String) (c : String) → gives o c ≡ true → o ≡ some c
gives-some none c h = ground (arith, h)
gives-some (some d) c h = ap some ((eq_iff d c).0 h)
