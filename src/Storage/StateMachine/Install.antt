-- ===== src/Storage/StateMachine/Install.antt =====
-- internal/storage/statemachine.go: what Restore makes of a snapshot.
use boiler_pulse.Prelude.{
  ℕ, Option-cases, sym, suc, ◌^◌, ◌+◌, ◌-◌, ◌≤◌, ◌<◌, ◌≡◌, refl, ap, ◌∙◌, subst, List, Option, none,
  some, arith, if◌then◌else◌, ◌==◌, inl, inr, ◌⊎◌,
}
use boiler_pulse.Storage.{Entry, checked_entry, expired}
use boiler_pulse.Storage.Table.{Key, lookup, IsDistinct}
use boiler_pulse.Storage.MemStore
use boiler_pulse.Storage.MemStore.{MemStore, new_mem_store, new_entry, scan, lookup-scan_mem}
use boiler_pulse.Storage.Contract.{view}
use boiler_pulse.Storage.StateMachine.{Json, mem_engine, snapshot, restore, time_until}
use boiler_pulse.Storage.StateMachine.Replay.{seen}
use boiler_pulse.Storage.StateMachine.Restore.{
  after_at, after_entry, restored, as_kept, taken, seen-restore,
}

-- The expiry with which Put stores an entry, at the readings `t0` and `t1` of the clock.
moved : ℕ → ℕ → ℕ → ℕ
moved t0 t1 x = if x == 0 then 0 else t1 + time_until x t0

-- The expiry `x` is put off by at most `d`, and no expiry stays none.
abbrev pub PutOff : ℕ → ℕ → ℕ → Type 0
PutOff d x x' = (x ≤ x') × (x' ≤ x + d) × (x ≡ 0 → x' ≡ 0)

moved-PutOff :
    (start at t0 t1 x : ℕ)
    → start ≤ t0
    → t0 ≤ t1
    → t1 ≤ at
    → x < start + 2 ^ 63
    → (x ≡ 0) ⊎ (t0 < x)
    → PutOff (at - start) x (moved t0 t1 x)
unfolding moved time_until
moved-PutOff start at t0 t1 x s le a h c = (ground arith, ground arith, λ z. ground (arith, z))

-- A key that the engine has when the snapshot is taken, read from the restored one.
survives :
    (now start at t0 t1 later : ℕ) (e : Entry) (v c : List ℕ) (x : ℕ)
    → now ≤ start
    → start ≤ t0
    → t0 ≤ t1
    → t1 ≤ at
    → at < later
    → e.expires_at < now + 2 ^ 63
    → view (checked_entry later e) ≡ some (v, c, x)
    → (x ≡ e.expires_at)
      × (((x ≡ 0) ⊎ (t0 < x))
          × (after_entry t0 t1 later (as_kept (checked_entry now e)) none
              ≡ some (v, c, moved t0 t1 x)))
unfolding after_entry as_kept checked_entry expired restored moved time_until
survives now start at t0 t1 later e v c x n s le a h far read =
    (ground (arith, read), (ground (arith, read), ground (arith, read)))

-- What is read from the restored engine was there when the snapshot was taken.
was_there :
    (now t0 t1 later : ℕ) (e : Entry) (v c : List ℕ) (x' : ℕ)
    → after_entry t0 t1 later (as_kept (checked_entry now e)) none ≡ some (v, c, x')
    → (view (checked_entry now e) ≡ some (v, c, e.expires_at))
      × (((e.expires_at ≡ 0) ⊎ (t0 < e.expires_at)) × (x' ≡ moved t0 t1 e.expires_at))
unfolding after_entry as_kept checked_entry expired restored moved time_until
was_there now t0 t1 later e v c x' read =
    (ground (arith, read), (ground (arith, read), ground (arith, read)))

module _ (json : Json) where
  -- A snapshot is taken of an engine in memory, and restored into an empty one during a span of
  -- time that does not begin before, with a clock that does not go back. After that span a key
  -- that the first engine still has is found in the second one, and a key that is found in the
  -- second one was in the first when the snapshot was taken, in both cases with the same value and
  -- consistency, an expiry that is later by at most the span, and none if it had none. The keys do
  -- not repeat, the JSON of the snapshot's entries decodes to them, and the key's expiry is less
  -- than 2^63 ns after the snapshot.
  pub restore-snapshot :
      (now start at later : ℕ) (clock : ℕ → ℕ) (k : Key) (contents : List ℕ) (m : MemStore)
      → (json.encode_snapshot (taken now m) ≡ some contents
          → json.decode_snapshot contents ≡ some (taken now m))
      → now ≤ start
      → ((i : ℕ) → start ≤ clock i)
      → ((i : ℕ) → clock i ≤ clock (suc i))
      → ((i : ℕ) → clock i ≤ at)
      → at < later
      → IsDistinct m.entries
      → ((e : Entry) → lookup k m.entries ≡ some e → e.expires_at < now + 2 ^ 63)
      → snapshot json mem_engine now m ≡ some contents
      → (v c : List ℕ)
      → ((x : ℕ)
          → seen later k m ≡ some (v, c, x)
          → (x' : ℕ) × ((seen later k (restore json mem_engine clock contents new_mem_store).0
                ≡ some (v, c, x'))
              × PutOff (at - start) x x'))
        × ((x' : ℕ)
            → seen later k (restore json mem_engine clock contents new_mem_store).0
              ≡ some (v, c, x')
            → (x : ℕ) × ((view (MemStore.get now k m) ≡ some (v, c, x)) × PutOff (at - start) x x'))
  restore-snapshot now start at later clock k contents m codec n low mono high lt d far written v
        c =
      let (i, all) = seen-restore json now clock later k contents m new_mem_store codec d written in
      let same = all ∙ empty i in
      elim (Option-cases (lookup k m.entries)) [
        | inl absent ↦ (
          λ x read. absurd (ground (arith, absent_read absent later, read)),
          λ x' read. absurd (ground (arith, absent_after i absent, same, read)),
        )
        | inr (e, found) ↦ (
          λ x read.
              let (own, (since, there)) =
                survives now start at (clock i) (clock (suc i)) later e v c x n (low i) (mono i)
                  (high (suc i)) lt (far e found) (sym (here_read e found later) ∙ read) in
              (
                moved (clock i) (clock (suc i)) x,
                (
                  same ∙ (after_found i e found ∙ there),
                  moved-PutOff start at (clock i) (clock (suc i)) x (low i) (mono i) (high (suc i))
                      (bound e found x own) since,
                ),
              ),
          λ x' read.
              let (live, (since, own)) =
                was_there now (clock i) (clock (suc i)) later e v c x'
                  (sym (same ∙ after_found i e found) ∙ read) in
              (
                e.expires_at,
                (
                  here_read e found now ∙ live,
                  subst (PutOff (at - start) e.expires_at) (sym own) (
                      moved-PutOff start at (clock i) (clock (suc i)) e.expires_at (low i) (mono i)
                        (high (suc i)) (bound e found e.expires_at refl) since),
                ),
              ),
        )
      ]
    where
      empty :
          (i : ℕ)
          → after_at clock i later (as_kept (MemStore.get now k m)) (seen later k new_mem_store)
            ≡ after_at clock i later (as_kept (MemStore.get now k m)) none
      empty i = (unfold MemStore.get lookup in refl)

      absent_read : lookup k m.entries ≡ none → (t : ℕ) → seen t k m ≡ none
      absent_read absent t =
          (unfold MemStore.get in
            ap
              (λ o.
                view (elim o as (λ _. Option Entry) [ none ↦ none | some e ↦ checked_entry t e ]))
              absent)

      absent_after :
          (i : ℕ)
          → lookup k m.entries ≡ none
          → after_at clock i later (as_kept (MemStore.get now k m)) none ≡ none
      absent_after i absent =
          (unfold MemStore.get as_kept after_entry in
            ap
              (λ o.
                after_at clock i later
                  (as_kept
                    (elim o as (λ _. Option Entry) [ none ↦ none | some e ↦ checked_entry now e ]))
                  none)
              absent)

      here_read :
          (e : Entry)
          → lookup k m.entries ≡ some e
          → (t : ℕ) → seen t k m ≡ view (checked_entry t e)
      here_read e found t =
          (unfold MemStore.get in
            ap
              (λ o.
                view (elim o as (λ _. Option Entry) [ none ↦ none | some e ↦ checked_entry t e ]))
              found)

      after_found :
          (i : ℕ) (e : Entry)
          → lookup k m.entries ≡ some e
          → after_at clock i later (as_kept (MemStore.get now k m)) none
            ≡ after_at clock i later (as_kept (checked_entry now e)) none
      after_found i e found =
          (unfold MemStore.get in
            ap
              (λ o.
                after_at clock i later
                  (as_kept
                    (elim o as (λ _. Option Entry) [ none ↦ none | some e ↦ checked_entry now e ]))
                  none)
              found)

      bound :
          (e : Entry)
          → lookup k m.entries ≡ some e
          → (x : ℕ) → x ≡ e.expires_at
          → x < start + 2 ^ 63
      bound e found x own = omega (arith, far e found, own, n)

  -- A key that is not found in the engine of which a snapshot is taken reads, after the snapshot
  -- is restored into another engine, as it did in that one, so Restore does not remove it,
  -- whatever the clock; the JSON of the snapshot's entries decodes to them, and the keys do not
  -- repeat.
  pub restore_keeps :
      (now : ℕ) (clock : ℕ → ℕ) (later : ℕ) (k : Key) (contents : List ℕ) (m target : MemStore)
      → (json.encode_snapshot (taken now m) ≡ some contents
          → json.decode_snapshot contents ≡ some (taken now m))
      → IsDistinct m.entries
      → snapshot json mem_engine now m ≡ some contents
      → MemStore.get now k m ≡ none
      → seen later k (restore json mem_engine clock contents target).0 ≡ seen later k target
  restore_keeps now clock later k contents m target codec d written gone =
      let (n, all) = seen-restore json now clock later k contents m target codec d written in
      all
      ∙ (ap (λ x. after_at clock n later (as_kept x) (seen later k target)) gone
          ∙ (unfold after_entry as_kept in refl))
