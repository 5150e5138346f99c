-- ===== src/Gateway/Reads.antt =====
-- internal/gateway/proxy.go: a read tries every node.
use boiler_pulse.Prelude.{
  ℕ, zero, suc, ◌+◌, ◌-◌, ◌%◌, ◌^◌, ◌<◌, ◌≡◌, refl, ap, ◌∙◌, true, false, List, [], ◌∷◌, some,
  arith, length, ltb, ◌==◌, u64, inl, inr, Bool-cases, Option-cases, get_elem?, get_elem?-some,
  lt→ltb,
}
use native.Mathlib.Nat.{mod-lt, mod-eq_of_lt, add-mod_right}
use boiler_pulse.Storage.{has_prefix}
use boiler_pulse.Cache
use boiler_pulse.Gateway.{
  Gateway, GatewayNode, Outside, Request, Response, Reply, failed, proxied, cached, panicked,
  proxy_request, kv_key_prefix, without_body, serve_read, handle_read, read_nodes, read_start,
  try_nodes, note_request,
}

-- A node in range is reached from each start.
reach : (start i n : ℕ) → start < n → i < n → (j : ℕ) × (j < n) × ((start + j) % n ≡ i)
reach start i n s h = elim (Bool-cases (ltb i start)) [
  | inr after ↦ (
    i - start,
    omega (arith, h),
    ap (λ k. k % n) (let e : start + (i - start) ≡ i = ground (arith, after) in e) ∙ mod-eq_of_lt h,
  )
  | inl before ↦ (
    i + n - start,
    ground (arith, before, s),
    ap (λ k. k % n) (let e : start + (i + n - start) ≡ i + n = omega (arith, s) in e)
        ∙ (add-mod_right i n ∙ mod-eq_of_lt h),
  )
]

module _ {W F : Type 0} (o : Outside W F) where
  -- A node that delivers the answer to a request whatever the state of the network.
  abbrev pub Delivers : Request → GatewayNode → Type 0
  Delivers r n = (w : W) → (p : Response) × ((proxy_request o r n.addr w).1 ≡ some p)

  try_nodes-finds :
      (k start i d : ℕ) (r : Request) (nodes : List GatewayNode) (w : W) {n : GatewayNode}
      → 0 < length nodes
      → d < k
      → get_elem? nodes ((start + (i + d)) % length nodes) ≡ some n
      → Delivers r n
      → (p : Response) × ((try_nodes o k start i r nodes w).1 ≡ some p)
  unfolding try_nodes
  try_nodes-finds zero start i d r nodes w more below at good = elim below [ ]
  try_nodes-finds (suc k) start i zero r nodes w {n} more below at good =
      let same : start + i ≡ start + (i + 0) = omega arith in
      let found : get_elem? nodes ((start + i) % length nodes) ≡ some n =
        ap (λ j. get_elem? nodes (j % length nodes)) same ∙ at in
      let (p, e) = good w in rw (found, e, try_nodes) (p, refl)
  try_nodes-finds (suc k) start i (suc d) r nodes w {n} more below at good =
      let (m, here) = get_elem?-some ((start + i) % length nodes) nodes (mod-lt (start + i) more) in
      let same : start + (i + 1 + d) ≡ start + (i + suc d) = omega arith in
      let rest =
        try_nodes-finds k start (i + 1) d r nodes (proxy_request o r m.addr w).0 more
          (omega (arith, below)) (ap (λ j. get_elem? nodes (j % length nodes)) same ∙ at) good in
      rw (here, try_nodes)
        (elim (Option-cases (proxy_request o r m.addr w).1) [
          | inr (p, e) ↦ rw (e, try_nodes) (p, refl)
          | inl e ↦ rw (e, try_nodes) rest
        ])

  -- An answer of a node or of the cache.
  unfoldable pub IsAnswered : Reply → Type 0
  IsAnswered (proxied p) = Unit {0}
  IsAnswered (cached body) = Unit {0}
  IsAnswered (failed status code) = ⊥
  IsAnswered panicked = ⊥

  in_range :
      (nodes : List GatewayNode) (i : ℕ) {n : GatewayNode}
      → get_elem? nodes i ≡ some n
      → i < length nodes
  in_range [] i h = cc
  in_range (x ∷ nodes) zero h = omega arith
  in_range (x ∷ nodes) (suc i) h = omega (arith, in_range nodes i h)

  read_nodes-IsAnswered :
      (r : Request) (w : W) (g : Gateway F) (i : ℕ) {n : GatewayNode}
      → get_elem? g.nodes i ≡ some n
      → Delivers (without_body r) n
      → g.read_counter + 1 < 2 ^ 63
      → IsAnswered (read_nodes o r w g).2
  unfolding read_nodes read_start IsAnswered
  read_nodes-IsAnswered r w g i at good small =
      let below = in_range g.nodes i at in
      let more : 0 < length g.nodes = omega (arith, below) in
      let some_nodes : (length g.nodes == 0) ≡ false = ground (arith, more) in
      let counter : u64 (g.read_counter + 1) ≡ g.read_counter + 1 = ground (arith, small) in
      let start = u64 (g.read_counter + 1) % length g.nodes in
      let sure : ltb (u64 (g.read_counter + 1)) (2 ^ 63) ≡ true = rw counter (lt→ltb _ _ small) in
      let (d, near, hits) =
        reach start i (length g.nodes) (mod-lt (u64 (g.read_counter + 1)) more) below in
      let zero_on : start + (0 + d) ≡ start + d = omega arith in
      let (p, e) =
        try_nodes-finds (length g.nodes) start 0 d (without_body r) g.nodes w more near
          (ap (λ k. get_elem? g.nodes (k % length g.nodes)) zero_on
            ∙ (ap (get_elem? g.nodes) hits ∙ at))
          good in
      rw (some_nodes, sure, e, read_nodes) tt

  serve_read-IsAnswered :
      (r : Request) (w : W) (g : Gateway F) (i : ℕ) {n : GatewayNode}
      → get_elem? g.nodes i ≡ some n
      → Delivers (without_body r) n
      → g.read_counter + 1 < 2 ^ 63
      → IsAnswered (serve_read o r w g).2
  unfolding serve_read IsAnswered
  serve_read-IsAnswered r w g i at good small =
      elim (Bool-cases (has_prefix kv_key_prefix r.path)) [
        | inr e ↦ rw (e, serve_read) (read_nodes-IsAnswered r w g i at good small)
        | inl e ↦
            rw (e, serve_read)
              (elim (Option-cases (Cache.get r.path g.cache).1) [
                | inr (body, f) ↦ rw (f, serve_read) tt
                | inl f ↦
                    rw (f, serve_read)
                      (read_nodes-IsAnswered r w (record g { cache = (Cache.get r.path g.cache).0 })
                        i at good small)
              ])
      ]

  -- If some configured node answers a read whatever the state of the network, the reply is that of
  -- a node or of the cache, whichever node the round robin starts with and whatever the others do,
  -- as long as the read counter stays below 2^63.
  pub handle_read-IsAnswered :
      (now : ℕ) (r : Request) (w : W) (g : Gateway F) (i : ℕ) {n : GatewayNode}
      → get_elem? g.nodes i ≡ some n
      → Delivers (without_body r) n
      → g.read_counter + 1 < 2 ^ 63
      → IsAnswered (handle_read o now r w g).2
  unfolding handle_read note_request
  handle_read-IsAnswered now r w g i at good small =
      serve_read-IsAnswered r w (note_request o now r g) i at good small
