-- ===== src/Storage/StateMachine/Replay.antt =====
-- internal/storage/statemachine.go: commands that are applied again.
use boiler_pulse.Prelude.{
  ℕ, ◌+◌, ◌≡◌, refl, ap, ◌∙◌, Bool, true, false, List, [], ◌∷◌, Option, none, some, arith,
  if◌then◌else◌, ◌==◌, u64,
}
use boiler_pulse.Bytes.{bytes_eq}
use boiler_pulse.Storage.{checked_entry, expired}
use boiler_pulse.Storage.Table.{Key}
use boiler_pulse.Storage.MemStore
use boiler_pulse.Storage.MemStore.{MemStore, new_entry, get-put_mem}
use boiler_pulse.Storage.Contract.{view}
use boiler_pulse.Storage.StateMachine.{
  Command, command_set, command_delete, Json, duration_of, mem_engine, apply,
}

abbrev Seen : Type 0
Seen = Option (List ℕ × List ℕ × ℕ)

-- What a reader sees of a key.
abbrev pub seen : ℕ → Key → MemStore → Seen
seen later k m = view (MemStore.get later k m)

-- What a set leaves to read.
written : ℕ → ℕ → Command → Seen
written now later c =
    view (checked_entry later (new_entry now c.value c.consistency (duration_of c.ttl_seconds) 0))

-- What a command makes of what is read of a key.
effect : ℕ → ℕ → Key → Command → Seen → Seen
effect now later k c x =
    if bytes_eq c.key k
    then (if c.op == command_set
        then written now later c
        else (if c.op == command_delete then none else x))
    else x

pub seen-put :
    (now later : ℕ) (key k : Key) (value consistency : List ℕ) (ttl : ℕ) (m : MemStore)
    → seen later k (MemStore.put now key value consistency ttl m) ≡ (
        if bytes_eq key k
        then view (checked_entry later (new_entry now value consistency ttl 0))
        else seen later k m)
seen-put now later key k value consistency ttl m =
    ap view (get-put_mem now later key k value consistency ttl m) ∙ same (bytes_eq key k)
  where
    same :
        (b : Bool)
        → view (
            if b
            then checked_entry later (new_entry now value consistency ttl (u64 (m.version + 1)))
            else MemStore.get later k m)
          ≡ (if b
              then view (checked_entry later (new_entry now value consistency ttl 0))
              else seen later k m)
    same true = (unfold checked_entry expired new_entry in ground arith)
    same false = refl

module _ (json : Json) where
  -- The commands of a log, applied in order at one time; the loop of a node stops at no error.
  unfoldable pub apply_log : ℕ → List (List ℕ) → MemStore → MemStore
  unfolding apply
  apply_log now [] m = m
  apply_log now (command ∷ commands) m =
      apply_log now commands (apply json mem_engine now command m).0

  effect_of : ℕ → ℕ → Key → List ℕ → Seen → Seen
  effect_of now later k command x = elim (json.decode_command command) [
    | none ↦ x
    | some c ↦ effect now later k c x
  ]

  effects : ℕ → ℕ → Key → List (List ℕ) → Seen → Seen
  effects now later k [] x = x
  effects now later k (command ∷ commands) x =
      effects now later k commands (effect_of now later k command x)
