-- ===== src/Storage/StateMachine/Restore.antt =====
-- internal/storage/statemachine.go: Restore, entry by entry.
use boiler_pulse.Prelude.{
  ℕ, suc, ◌+◌, ◌≡◌, refl, ap, ◌∙◌, subst, Bool, true, false, List, [], ◌∷◌, Option, none, some,
  arith, if◌then◌else◌, ltb, ◌==◌, inl, inr, Bool-cases,
}
use boiler_pulse.Bytes.{bytes_eq, bytes_eq_sound}
use boiler_pulse.Storage.{Entry, checked_entry, expired, has_prefix}
use boiler_pulse.Storage.Table.{Key, lookup, IsDistinct, select, lookup-select}
use boiler_pulse.Storage.Table.Overlay.{sort, lookup-sort, sort-IsDistinct}
use boiler_pulse.Storage.MemStore
use boiler_pulse.Storage.MemStore.{MemStore, new_mem_store, new_entry, scan, lookup-scan_mem}
use boiler_pulse.Storage.Contract.{view}
use boiler_pulse.Storage.StateMachine.{
  Json, SnapshotEntry, mem_engine, restore_entry, restore_entries, snapshot_entries, snapshot,
  restore, time_until,
}
use boiler_pulse.Storage.StateMachine.Replay.{seen, seen-put}

abbrev pub Reading : Type 0
Reading = Option (List ℕ × List ℕ × ℕ)

-- What a restored entry is to read as, where the key was read as `x` before.
unfoldable pub restored : ℕ → ℕ → ℕ → SnapshotEntry → Reading → Reading
restored t0 t1 later e x =
    if e.expires_at == 0
    then some (e.value, e.consistency, 0)
    else (if time_until e.expires_at t0 == 0
        then x
        else (if ltb (t1 + time_until e.expires_at t0) later
            then none
            else some (e.value, e.consistency, t1 + time_until e.expires_at t0)))

seen-restore_entry :
    (clock : ℕ → ℕ) (i later : ℕ) (key k : Key) (e : SnapshotEntry) (m : MemStore)
    → seen later k (restore_entry mem_engine clock i key e m).0 ≡ (
        if bytes_eq key k
        then restored (clock i) (clock (suc i)) later e (seen later k m)
        else seen later k m)
unfolding restore_entry restored
seen-restore_entry clock i later key k e m = elim (Bool-cases (e.expires_at == 0)) [
  | inl never ↦ rw never (stays 0 ∙ fresh (bytes_eq key k))
  | inr ever ↦ rw ever (elim (Bool-cases (time_until e.expires_at (clock i) == 0)) [
    | inl past ↦ rw past (same (bytes_eq key k))
    | inr ahead ↦
        rw ahead (stays (time_until e.expires_at (clock i)) ∙ ends ever ahead (bytes_eq key k))
  ])
]
  where
    stays :
        (ttl : ℕ)
        → seen later k (mem_engine.put (clock (suc i)) key e.value e.consistency ttl m).0 ≡ (
            if bytes_eq key k
            then view (checked_entry later (new_entry (clock (suc i)) e.value e.consistency ttl 0))
            else seen later k m)
    stays ttl =
        (unfold mem_engine in seen-put (clock (suc i)) later key k e.value e.consistency ttl m)

    fresh :
        (b : Bool)
        → (if b
            then view (checked_entry later (new_entry (clock (suc i)) e.value e.consistency 0 0))
            else seen later k m)
          ≡ (if b then some (e.value, e.consistency, 0) else seen later k m)
    fresh true = (unfold checked_entry expired new_entry in refl)
    fresh false = refl

    ends :
        (e.expires_at == 0) ≡ false
        → (time_until e.expires_at (clock i) == 0) ≡ false
        → (b : Bool)
        → (if b
            then view (
                checked_entry later (
                  new_entry
                    (clock (suc i))
                    e.value
                    e.consistency
                    (time_until e.expires_at (clock i))
                    0))
            else seen later k m)
          ≡ (if b
              then (if ltb (clock (suc i) + time_until e.expires_at (clock i)) later
                  then none
                  else some
                      (e.value, e.consistency, clock (suc i) + time_until e.expires_at (clock i)))
              else seen later k m)
    ends ever ahead true = (unfold checked_entry expired new_entry in ground (arith, ahead))
    ends ever ahead false = refl

    same : (b : Bool) → seen later k m ≡ (if b then seen later k m else seen later k m)
    same true = refl
    same false = refl

done :
    (clock : ℕ → ℕ) (i : ℕ) (key : Key) (e : SnapshotEntry) (m : MemStore)
    → (restore_entry mem_engine clock i key e m).1 ≡ true
unfolding restore_entry mem_engine
done clock i key e m = ground arith

-- What is read after an entry, if the snapshot has one.
unfoldable pub after_entry : ℕ → ℕ → ℕ → Option SnapshotEntry → Reading → Reading
after_entry t0 t1 later none x = x
after_entry t0 t1 later (some e) x = restored t0 t1 later e x

abbrev pub after_at : (ℕ → ℕ) → ℕ → ℕ → Option SnapshotEntry → Reading → Reading
after_at clock n later o x = after_entry (clock n) (clock (suc n)) later o x

-- For each key, one reading counts and the one after it.
seen-restore_entries :
    (clock : ℕ → ℕ) (i later : ℕ) (k : Key) (es : List (Key × SnapshotEntry)) (m : MemStore)
    → IsDistinct es
    → (n : ℕ) × (seen later k (restore_entries mem_engine clock i es m).0
        ≡ after_at clock n later (lookup k es) (seen later k m))
unfolding restore_entries
seen-restore_entries clock i later k [] m h = (i, (unfold lookup after_entry in refl))
seen-restore_entries clock i later k ((j, e) ∷ es) m (a, h) =
    let (n, rest) =
      seen-restore_entries clock (i + 2) later k es (restore_entry mem_engine clock i j e m).0 h in
    let all =
      rest ∙ ap (after_at clock n later (lookup k es)) (seen-restore_entry clock i later j k e m) in
    elim (Bool-cases (bytes_eq j k)) [
      | inl same ↦ (i, rw (done clock i j e m) (all ∙ here n same))
      | inr other ↦ (n, rw (done clock i j e m) (all ∙ elsewhere n other))
    ]
  where
    both : ℕ → Reading
    both n = after_at clock n later (lookup k es) (
        if bytes_eq j k
        then restored (clock i) (clock (suc i)) later e (seen later k m)
        else seen later k m)

    here :
        (n : ℕ)
        → bytes_eq j k ≡ true
        → both n ≡ after_at clock i later (lookup k ((j, e) ∷ es)) (seen later k m)
    here n same =
        let gone : lookup k es ≡ none =
          subst (λ l. lookup l es ≡ none) (bytes_eq_sound j k same) a in
        (unfold lookup after_entry in rw (same, gone) refl)

    elsewhere :
        (n : ℕ)
        → bytes_eq j k ≡ false
        → both n ≡ after_at clock n later (lookup k ((j, e) ∷ es)) (seen later k m)
    elsewhere n other = (unfold lookup in rw other refl)

-- An entry as the snapshot has it.
unfoldable pub as_kept : Option Entry → Option SnapshotEntry
as_kept none = none
as_kept (some e) =
    some (record { value = e.value; consistency = e.consistency; expires_at = e.expires_at })

lookup-snapshot_entries :
    (k : Key) (es : List (Key × Entry)) → lookup k (snapshot_entries es) ≡ as_kept (lookup k es)
unfolding lookup snapshot_entries as_kept
lookup-snapshot_entries k [] = refl
lookup-snapshot_entries k ((j, e) ∷ es) = elim (Bool-cases (bytes_eq j k)) [
  | inl same ↦ rw same refl
  | inr other ↦ rw other (lookup-snapshot_entries k es)
]

snapshot_entries-IsDistinct :
    (es : List (Key × Entry)) → IsDistinct es → IsDistinct (snapshot_entries es)
unfolding snapshot_entries
snapshot_entries-IsDistinct [] h = tt
snapshot_entries-IsDistinct ((k, e) ∷ es) (a, h) = (
  lookup-snapshot_entries k es ∙ ap as_kept a ∙ (unfold as_kept in refl),
  snapshot_entries-IsDistinct es h,
)

select-IsDistinct :
    (p : Key → Entry → Bool) (m : List (Key × Entry)) → IsDistinct m → IsDistinct (select p m)
unfolding select
select-IsDistinct p [] h = tt
select-IsDistinct p ((k, e) ∷ m) (a, h) = elim (Bool-cases (p k e)) [
  | inl kept ↦ rw kept (lookup-select p k m h ∙ rw a refl, select-IsDistinct p m h)
  | inr left ↦ rw left (select-IsDistinct p m h)
]

-- What a snapshot has of an engine in memory.
abbrev pub taken : ℕ → MemStore → List (Key × SnapshotEntry)
taken now m = sort (snapshot_entries (scan now [] m))

-- What is read after a snapshot, taken at `now` of `m`, is restored into `target`.
pub seen-restore :
    (json : Json) (now : ℕ) (clock : ℕ → ℕ) (later : ℕ) (k : Key) (contents : List ℕ)
    (m target : MemStore)
    → (json.encode_snapshot (taken now m) ≡ some contents
        → json.decode_snapshot contents ≡ some (taken now m))
    → IsDistinct m.entries
    → snapshot json mem_engine now m ≡ some contents
    → (n : ℕ) × (seen later k (restore json mem_engine clock contents target).0
        ≡ after_at clock n later (as_kept (MemStore.get now k m)) (seen later k target))
unfolding snapshot restore mem_engine
seen-restore json now clock later k contents m target codec d written =
    let found = scan now [] m in
    let kept : IsDistinct found = (unfold scan in select-IsDistinct _ m.entries d) in
    let same : lookup k (taken now m) ≡ as_kept (MemStore.get now k m) =
      lookup-sort (snapshot_entries found) k (snapshot_entries-IsDistinct found kept)
      ∙ (lookup-snapshot_entries k found
          ∙ ap as_kept (lookup-scan_mem now [] k m d ∙ (unfold has_prefix in refl))) in
    let (n, all) =
      seen-restore_entries clock 0 later k (taken now m) target
        (sort-IsDistinct (snapshot_entries found) (snapshot_entries-IsDistinct found kept)) in
    (
      n,
      rw (codec written, restore)
          (all ∙ ap (λ x. after_at clock n later x (seen later k target)) same),
    )
