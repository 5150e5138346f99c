-- ===== src/Storage/Lsm/Scan.antt =====
-- internal/storage/lsm/engine.go: `Scan`, and that it finds what `Get` finds.
use boiler_pulse.Prelude.{
  ℕ, ◌≡◌, refl, sym, ap, ◌∙◌, Bool, true, false, List, [], ◌∷◌, Option, none, some, arith, inl, inr,
  Bool-cases, if◌then◌else◌,
}
use mathlib.Core.Bool.{false≢true}
use boiler_pulse.Bytes.{bytes_eq, bytes_eq_sound}
use boiler_pulse.Storage.{Entry, checked_entry, has_prefix, is_live}
use boiler_pulse.Storage.Table.{
  Key, lookup, insert, IsDistinct, select, lookup-select, lookup-insert,
}
use boiler_pulse.Storage.Table.Overlay.{
  overlay, or_else, lookup-overlay, lookup-overlay_distinct, overlay-IsDistinct,
}
use boiler_pulse.Storage.SsTable
use boiler_pulse.Storage.SsTable.{SstEntry, SsTable}
use boiler_pulse.Storage.Lsm.{Engine, search, to_storage_entry, find_entry, check_found, get}
use boiler_pulse.Storage.Lsm.Lookup.{or_else_assoc, select-IsDistinct}

unfoldable pub to_storage_entries : List (Key × SstEntry) → List (Key × Entry)
to_storage_entries [] = []
to_storage_entries ((k, e) ∷ es) = (k, to_storage_entry e) ∷ to_storage_entries es

abbrev pub matching : {V : Type 0} → Key → List (Key × V) → List (Key × V)
matching prefix es = select (λ k e. has_prefix prefix k) es

-- The entries of the tables, a newer one over an older one.
unfoldable pub scan_tables : Key → List SsTable → List (Key × Entry) → List (Key × Entry)
unfolding to_storage_entries
scan_tables prefix [] m = m
scan_tables prefix (t ∷ ts) m =
    scan_tables prefix ts (overlay (to_storage_entries (matching prefix t.entries)) m)

unfoldable pub scan : ℕ → Key → Engine → List (Key × Entry)
unfolding scan_tables
scan now prefix e =
    select (is_live now)
      (overlay (matching prefix e.memtable.entries) (scan_tables prefix e.sstables []))

abbrev converted : Option SstEntry → Option Entry
converted none = none
converted (some e) = some (to_storage_entry e)

abbrev only : Bool → Option Entry → Option Entry
only b x = if b then x else none

overlay_cons :
    {V : Type 0} (j k : Key) (v : V) (es : List (Key × V))
    → lookup k (overlay ((j, v) ∷ es) [])
      ≡ or_else (lookup k (overlay es [])) (if bytes_eq j k then some v else none)
unfolding overlay lookup insert
overlay_cons j k v es =
    lookup-overlay es k (insert j v [])
    ∙ ap (or_else (lookup k (overlay es []))) (lookup-insert j k v [])

only-none : (h : Bool) → none ≡ only h none
only-none true = refl
only-none false = refl

-- Of one table, the scan finds what a lookup finds, for the keys with the prefix.
lookup-matching :
    (prefix k : Key) (es : List (Key × SstEntry))
    → lookup k (overlay (to_storage_entries (matching prefix es)) [])
      ≡ only (has_prefix prefix k) (converted (lookup k (overlay es [])))
unfolding to_storage_entries select lookup or_else overlay
lookup-matching prefix k [] = only-none (has_prefix prefix k)
lookup-matching prefix k ((j, v) ∷ es) = elim (Bool-cases (has_prefix prefix j)) [
  | inl in_range ↦
      ap
        (λ b. lookup k (
          overlay
            (to_storage_entries (if b then (j, v) ∷ matching prefix es else matching prefix es))
            []))
        in_range
      ∙ (overlay_cons j k (to_storage_entry v) (to_storage_entries (matching prefix es))
          ∙ (ap (λ x. or_else x (if bytes_eq j k then some (to_storage_entry v) else none))
                (lookup-matching prefix k es)
              ∙ (kept (has_prefix prefix k) (bytes_eq j k) (lookup k (overlay es []))
                    (λ same. sym (ap (has_prefix prefix) (bytes_eq_sound j k same)) ∙ in_range)
                  ∙ sym (
                      ap (λ x. only (has_prefix prefix k) (converted x)) (overlay_cons j k v es)))))
  | inr out ↦
      ap
        (λ b. lookup k (
          overlay
            (to_storage_entries (if b then (j, v) ∷ matching prefix es else matching prefix es))
            []))
        out
      ∙ (lookup-matching prefix k es
          ∙ (skipped (has_prefix prefix k) (bytes_eq j k) (lookup k (overlay es []))
                (λ same. sym (ap (has_prefix prefix) (bytes_eq_sound j k same)) ∙ out)
              ∙ sym (ap (λ x. only (has_prefix prefix k) (converted x)) (overlay_cons j k v es))))
]
  where
    kept :
        (h b : Bool) (x : Option SstEntry)
        → (b ≡ true → h ≡ true)
        → or_else (only h (converted x)) (if b then some (to_storage_entry v) else none)
          ≡ only h (converted (or_else x (if b then some v else none)))
    kept true true none f = refl
    kept true true (some e) f = refl
    kept true false none f = refl
    kept true false (some e) f = refl
    kept false true x f = absurd (false≢true (f refl))
    kept false false none f = refl
    kept false false (some e) f = refl

    skipped :
        (h b : Bool) (x : Option SstEntry)
        → (b ≡ true → h ≡ false)
        → only h (converted x) ≡ only h (converted (or_else x (if b then some v else none)))
    skipped true true x f = absurd (false≢true (sym (f refl)))
    skipped true false none f = refl
    skipped true false (some e) f = refl
    skipped false b x f = refl

only-or_else :
    (h : Bool) (x y : Option SstEntry)
    → or_else (only h (converted x)) (only h (converted y)) ≡ only h (converted (or_else x y))
unfolding or_else
only-or_else false x y = refl
only-or_else true none y = refl
only-or_else true (some e) y = refl

lookup-scan_tables :
    (prefix k : Key) (ts : List SsTable) (m : List (Key × Entry))
    → lookup k (scan_tables prefix ts m)
      ≡ or_else (only (has_prefix prefix k) (converted (search k ts))) (lookup k m)
unfolding scan_tables search SsTable.get
lookup-scan_tables prefix k [] m = base (has_prefix prefix k)
  where
    base : (h : Bool) → lookup k m ≡ or_else (only h none) (lookup k m)
    base true = (unfold or_else in refl)
    base false = (unfold or_else in refl)
lookup-scan_tables prefix k (t ∷ ts) m =
    let here = to_storage_entries (matching prefix t.entries) in
    let h = has_prefix prefix k in
    lookup-scan_tables prefix k ts (overlay here m)
    ∙ (ap (or_else (only h (converted (search k ts)))) (
          lookup-overlay here k m
          ∙ ap (λ x. or_else x (lookup k m)) (lookup-matching prefix k t.entries))
        ∙ (sym (
              or_else_assoc (only h (converted (search k ts)))
                (only h (converted (SsTable.get k t))) (lookup k m))
            ∙ ap (λ x. or_else x (lookup k m)) (only-or_else h (search k ts) (SsTable.get k t))))

scan_tables-IsDistinct :
    (prefix : Key) (ts : List SsTable) (m : List (Key × Entry))
    → IsDistinct m
    → IsDistinct (scan_tables prefix ts m)
unfolding scan_tables
scan_tables-IsDistinct prefix [] m h = h
scan_tables-IsDistinct prefix (t ∷ ts) m h =
    scan_tables-IsDistinct prefix ts (overlay (to_storage_entries (matching prefix t.entries)) m)
      (overlay-IsDistinct (to_storage_entries (matching prefix t.entries)) m h)

-- For a memtable without repeated keys, a scan finds a key exactly if it has the prefix and Get
-- finds it at that time, with the same entry.
pub lookup-scan :
    (now : ℕ) (prefix k : Key) (e : Engine)
    → IsDistinct e.memtable.entries
    → lookup k (scan now prefix e) ≡ (if has_prefix prefix k then get now k e else none)
unfolding scan get find_entry check_found is_live checked_entry or_else lookup
lookup-scan now prefix k e d =
    let below = scan_tables prefix e.sstables [] in
    let mem = matching prefix e.memtable.entries in
    let distinct = overlay-IsDistinct mem below (scan_tables-IsDistinct prefix e.sstables [] tt) in
    let found : lookup k (overlay mem below)
        ≡ or_else
            (elim (lookup k e.memtable.entries) [
              | none ↦ none
              | some x ↦ if has_prefix prefix k then some x else none
            ])
            (or_else (only (has_prefix prefix k) (converted (search k e.sstables))) (lookup k [])) =
      lookup-overlay mem k below
      ∙ (ap (λ x. or_else x (lookup k below))
            (lookup-overlay_distinct mem k
                (select-IsDistinct (λ i x. has_prefix prefix i) e.memtable.entries d)
              ∙ lookup-select (λ i x. has_prefix prefix i) k e.memtable.entries d)
          ∙ ap
              (or_else (elim (lookup k e.memtable.entries) [
                | none ↦ none
                | some x ↦ if has_prefix prefix k then some x else none
              ]))
              (lookup-scan_tables prefix k e.sstables [])) in
    lookup-select (is_live now) k (overlay mem below) distinct
    ∙ (ap (λ y. elim y [ none ↦ none | some x ↦ if is_live now k x then some x else none ]) found
        ∙ merged (has_prefix prefix k) (lookup k e.memtable.entries) (search k e.sstables))
  where
    merged :
        (h : Bool) (x : Option Entry) (y : Option SstEntry)
        → elim (or_else
            (elim x [ none ↦ none | some v ↦ if h then some v else none ])
            (or_else (only h (converted y)) none)) [
              | none ↦ none
              | some v ↦ if is_live now k v then some v else none
            ]
          ≡ (if h
              then check_found now (elim x [
                | some v ↦ some v
                | none ↦ elim y [ some v ↦ some (to_storage_entry v) | none ↦ none ]
              ])
              else none)
    merged h x y = ground arith
