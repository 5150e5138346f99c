-- ===== src/Gateway/CacheRule.antt =====
-- internal/gateway/proxy.go: what the read cache holds.
use boiler_pulse.Prelude.{
  ℕ, ◌+◌, ◌≡◌, true, List, [], ◌∷◌, arith, if◌then◌else◌, length, str_eq, String, ◌&&◌, ◌==◌, u64,
  All, inl, inr, ◌≢◌, eq_iff, some, Bool-cases, Option-cases,
}
use boiler_pulse.Bytes.{bytes_eq}
use boiler_pulse.Storage.{has_prefix}
use boiler_pulse.Cache
use boiler_pulse.Cache.{Lru, move_to_front, drop_last, evict}
use boiler_pulse.Gateway.{
  Gateway, Outside, Request, Response, Reply, cached, is_cacheable_consistency, kv_key_prefix,
  finish_read, finish_write, maybe_signal_critical, handle_read, handle_write, without_body,
  poll_all, note_polls, settle, unreachable, attempt, serve_read, read_nodes, read_start, try_nodes,
  refresh, retry_write, write_to, note_request, current_leader, events_path,
}
use boiler_pulse.Cache.Bodies.{AllBodies, AllBodies-remove, AllBodies-set, AllBodies-get}

-- A request to handleRead or to handleWrite, with its time.
pub data Call : Type 0 where
  read : ℕ → Request → Call
  write : ℕ → Request → Call

module _ {W F : Type 0} (o : Outside W F) where
  -- A body from which a consistency is read, other than CRITICAL.
  abbrev pub NotCritical : List ℕ → Type 0
  NotCritical body = (c : String) × (o.consistency_of body ≡ some c) × (c ≢ "CRITICAL")

  is_cacheable_consistency-NotCritical :
      (body : List ℕ) → is_cacheable_consistency o body ≡ true → NotCritical body
  unfolding is_cacheable_consistency
  is_cacheable_consistency-NotCritical body h = elim (Option-cases (o.consistency_of body)) [
    | inl e ↦ absurd (ground (arith, e, h))
    | inr (c, e) ↦ (c, e, λ same. ground (arith, e, h, (eq_iff c "CRITICAL").1 same))
  ]

  -- No body in the cache is at CRITICAL consistency.
  unfoldable pub KeepsRule : Gateway F → Type 0
  KeepsRule g = AllBodies NotCritical g.cache.order

  -- A reply that is served from the cache is not at CRITICAL consistency.
  unfoldable pub FromCache : Reply → Type 0
  FromCache (cached body) = NotCritical body
  FromCache reply = Unit {0}

  finish_read-KeepsRule :
      (r : Request) (p : Response) (g : Gateway F) → KeepsRule g → KeepsRule (finish_read o r p g)
  unfolding KeepsRule finish_read
  finish_read-KeepsRule r p g h =
      elim (Bool-cases
        (has_prefix kv_key_prefix r.path && p.status == 200 && is_cacheable_consistency o p.body)) [
          | inl e ↦ rw e (
              AllBodies-set NotCritical r.path p.body g.cache
                (is_cacheable_consistency-NotCritical p.body (ground (arith, e))) h)
          | inr e ↦ rw e h
        ]

  signal-KeepsRule :
      (now : ℕ) (body : List ℕ) (g : Gateway F)
      → KeepsRule g
      → KeepsRule (maybe_signal_critical o now body g)
  unfolding KeepsRule maybe_signal_critical
  signal-KeepsRule now body g h = elim (Option-cases (o.urgency_of body)) [
    | inl e ↦ rw (e, maybe_signal_critical) h
    | inr (u, e) ↦
        rw (e, maybe_signal_critical)
          (elim (Bool-cases (str_eq u "CRITICAL")) [ inl c ↦ rw c h | inr c ↦ rw c h ])
  ]

  finish_write-KeepsRule :
      (now : ℕ) (r : Request) (p : Response) (g : Gateway F)
      → KeepsRule g
      → KeepsRule (finish_write o now r p g)
  unfolding finish_write
  finish_write-KeepsRule now r p g h =
      elim (Bool-cases (bytes_eq r.path events_path && p.status == 201)) [
        | inl e ↦ rw e (signal-KeepsRule now p.body (dropped r g) (dropped_lem r g h))
        | inr e ↦ rw e (dropped_lem r g h)
      ]
    where
      dropped : Request → Gateway F → Gateway F
      dropped r g =
          if has_prefix kv_key_prefix r.path
          then record g { cache = Cache.delete r.path g.cache }
          else g

      dropped_lem : (r : Request) (g : Gateway F) → KeepsRule g → KeepsRule (dropped r g)
      dropped_lem r g h =
          (unfold KeepsRule Cache.delete in
            elim (Bool-cases (has_prefix kv_key_prefix r.path)) [
              | inl e ↦ rw e (AllBodies-remove NotCritical r.path g.cache.order h)
              | inr e ↦ rw e h
            ])

  refresh-KeepsRule : (w : W) (g : Gateway F) → KeepsRule g → KeepsRule (refresh o w g).1
  unfolding KeepsRule refresh settle
  refresh-KeepsRule w g h =
      let b =
        note_polls (poll_all o g.nodes w).1
          (record { statuses = λ _. unreachable; best_term = 0; best_leader_id = "" }) in
      elim (Bool-cases (str_eq b.best_leader_id "")) [
        | inl e ↦ rw (e, refresh) h
        | inr e ↦ rw (e, refresh) h
      ]

  note_request-KeepsRule :
      (now : ℕ) (r : Request) (g : Gateway F) → KeepsRule g → KeepsRule (note_request o now r g)
  unfolding KeepsRule note_request
  note_request-KeepsRule now r g h = h

  abbrev IsSound : (W × Gateway F × Reply) → Type 0
  IsSound (w, g, reply) = KeepsRule g × FromCache reply

  retry_write-IsSound :
      (now : ℕ) (r : Request) (w : W) (g : Gateway F)
      → KeepsRule g
      → IsSound (retry_write o now r w g)
  unfolding retry_write FromCache
  retry_write-IsSound now r w g h = elim (Option-cases (current_leader g)) [
    | inl e ↦ rw (e, retry_write) (h, tt)
    | inr (addr, e) ↦
        rw (e, retry_write)
          (elim (Option-cases (attempt o r addr w).1) [
            | inl f ↦ rw (f, retry_write) (h, tt)
            | inr (p, f) ↦ rw (f, retry_write) (finish_write-KeepsRule now r p g h, tt)
          ])
  ]

  write_to-IsSound :
      (now : ℕ) (r : Request) (addr : String) (w : W) (g : Gateway F)
      → KeepsRule g
      → IsSound (write_to o now r addr w g)
  unfolding write_to FromCache
  write_to-IsSound now r addr w g h =
      let sent = attempt o r addr w in
      elim (Option-cases sent.1) [
        | inl f ↦
            rw (f, write_to)
              (let next = refresh o sent.0 g in
                retry_write-IsSound now r next.0 next.1 (refresh-KeepsRule sent.0 g h))
        | inr (p, f) ↦ rw (f, write_to) (finish_write-KeepsRule now r p g h, tt)
      ]

  handle_write-IsSound :
      (now : ℕ) (r : Request) (w : W) (g : Gateway F)
      → KeepsRule g
      → IsSound (handle_write o now r w g)
  unfolding handle_write FromCache
  handle_write-IsSound now r w g h =
      let g1 = note_request o now r g in
      let h1 : KeepsRule g1 = note_request-KeepsRule now r g h in
      elim (Option-cases (current_leader g1)) [
        | inr (addr, e) ↦ rw (e, handle_write) (write_to-IsSound now r addr w g1 h1)
        | inl e ↦
            rw (e, handle_write)
              (let next = refresh o w g1 in
                let h2 = refresh-KeepsRule w g1 h1 in
                elim (Option-cases (current_leader next.1)) [
                  | inl f ↦ rw (f, handle_write) (h2, tt)
                  | inr (addr, f) ↦
                      rw (f, handle_write) (write_to-IsSound now r addr next.0 next.1 h2)
                ])
      ]

  read_nodes-IsSound :
      (r : Request) (w : W) (g : Gateway F) → KeepsRule g → IsSound (read_nodes o r w g)
  unfolding read_nodes FromCache
  read_nodes-IsSound r w g h = elim (Bool-cases (length g.nodes == 0)) [
    | inl e ↦ rw (e, read_nodes) (h, tt)
    | inr e ↦
        let g1 = record g { read_counter = u64 (g.read_counter + 1) } in
        let h1 : KeepsRule g1 = (unfold KeepsRule in h) in
        rw (e, read_nodes)
          (elim (Option-cases (read_start g1.read_counter (length g.nodes))) [
            | inl f ↦ rw (f, read_nodes) (h1, tt)
            | inr (start, f) ↦
                rw (f, read_nodes)
                  (elim (Option-cases
                    (try_nodes o (length g.nodes) start 0 (without_body r) g.nodes w).1) [
                      | inl a ↦ rw (a, read_nodes) (h1, tt)
                      | inr (p, a) ↦ rw (a, read_nodes) (finish_read-KeepsRule r p g1 h1, tt)
                    ])
          ])
  ]

  serve_read-IsSound :
      (r : Request) (w : W) (g : Gateway F) → KeepsRule g → IsSound (serve_read o r w g)
  unfolding KeepsRule serve_read FromCache
  serve_read-IsSound r w g h = elim (Bool-cases (has_prefix kv_key_prefix r.path)) [
    | inr e ↦ rw (e, serve_read) (read_nodes-IsSound r w g h)
    | inl e ↦
        let (kept, found) = AllBodies-get NotCritical r.path g.cache h in
        rw (e, serve_read)
          (elim (Option-cases (Cache.get r.path g.cache).1) [
            | inr (body, f) ↦ rw (f, serve_read) (kept, found body f)
            | inl f ↦
                rw (f, serve_read)
                  (read_nodes-IsSound r w (record g { cache = (Cache.get r.path g.cache).0 }) kept)
          ])
  ]

  unfoldable pub serve : W × Gateway F → Call → W × Gateway F × Reply
  unfolding handle_read handle_write
  serve (w, g) (read now r) = handle_read o now r w g
  serve (w, g) (write now r) = handle_write o now r w g

  unfoldable pub serve_all : W × Gateway F → List Call → List Reply
  unfolding serve
  serve_all s [] = []
  serve_all s (c ∷ cs) = let (w, g, reply) = serve s c in reply ∷ serve_all (w, g) cs

  serve-IsSound : (w : W) (g : Gateway F) (c : Call) → KeepsRule g → IsSound (serve (w, g) c)
  unfolding serve handle_read FromCache
  serve-IsSound w g (read now r) h =
      serve_read-IsSound r w (note_request o now r g) (note_request-KeepsRule now r g h)
  serve-IsSound w g (write now r) h = handle_write-IsSound now r w g h

  -- In any sequence of reads and writes on a gateway, if every body that is cached at first says a
  -- consistency other than CRITICAL, so does every reply that comes from the cache.
  pub serve_all-FromCache :
      (w : W) (g : Gateway F) (cs : List Call) → KeepsRule g → All FromCache (serve_all (w, g) cs)
  unfolding serve_all
  serve_all-FromCache w g [] h = tt
  serve_all-FromCache w g (c ∷ cs) h =
      let (w1, g1, reply) = serve (w, g) c in
      let (kept, fit) = serve-IsSound w g c h in (fit, serve_all-FromCache w1 g1 cs kept)
