-- ===== src/Workload.antt =====
-- internal/workload: request counts over a sliding window, hot keys, and the workload mode. Times
-- and durations are in nanoseconds, and each operation reads the clock once. A rate is a float64,
-- of which only the quotient and the comparison are used.
pub mod Window
pub mod Modes
mod Runs
use boiler_pulse.Prelude.{
  ℕ, ◌+◌, ◌-◌, ◌*◌, ◌/◌, Bool, true, false, not, List, [], ◌∷◌, Option, none, some, ltb, leb, ◌==◌,
  ◌&&◌, ◌||◌, if◌then◌else◌,
}
use boiler_pulse.Storage.Table.{Key, lookup, insert, remove}
use boiler_pulse.Storage.Table.Overlay.{key_lt}

-- monitor.go and hotkeys.go: the count for each millisecond.
abbrev pub Buckets : Type 0
Buckets = List (ℕ × ℕ)

-- `m[ms]++`.
unfoldable pub bump : ℕ → Buckets → Buckets
bump ms [] = (ms, 1) ∷ []
bump ms ((t, c) ∷ b) = let rest = bump ms b in if t == ms then (t, c + 1) ∷ b else (t, c) ∷ rest

-- The buckets that are not before the cutoff.
unfoldable pub prune : ℕ → Buckets → Buckets
prune cutoff [] = []
prune cutoff ((t, c) ∷ b) =
    let rest = prune cutoff b in if ltb t cutoff then rest else (t, c) ∷ rest

unfoldable pub total : Buckets → ℕ
total [] = 0
total ((t, c) ∷ b) = c + total b

-- `UnixMilli` and `Milliseconds`.
abbrev pub millis : ℕ → ℕ
millis t = t / 1_000_000

-- A clock that is past the window: the difference does not stop at 0.
abbrev pub cutoff_at : ℕ → ℕ → ℕ
cutoff_at window now = millis now - millis window

-- `RequestMonitor.Record`.
unfoldable pub record_at : ℕ → ℕ → Buckets → Buckets
unfolding bump prune
record_at window now b = prune (cutoff_at window now) (bump (millis now) b)

-- hotkeys.go: `HotKeyTracker`.
pub record HotKeyTracker : Type 0 where
  pub window : ℕ
  pub threshold : ℕ
  pub key_hits : List (Key × Buckets)

abbrev pub buckets_of : Option Buckets → Buckets
buckets_of none = []
buckets_of (some b) = b

unfoldable pub all_zero : Buckets → Bool
all_zero [] = true
all_zero ((t, c) ∷ b) = c == 0 && all_zero b

unfoldable pub prune_key : Key → ℕ → HotKeyTracker → HotKeyTracker
unfolding prune all_zero
prune_key key now h =
    let kept = prune (cutoff_at h.window now) (buckets_of (lookup key h.key_hits)) in
    record h {
      key_hits = if all_zero kept then remove key h.key_hits else insert key kept h.key_hits;
    }

unfoldable pub record_key : Key → ℕ → HotKeyTracker → HotKeyTracker
unfolding prune_key bump
record_key [] now h = h
record_key (x ∷ key) now h = prune_key (x ∷ key) now (record h {
  key_hits =
      insert (x ∷ key) (bump (millis now) (buckets_of (lookup (x ∷ key) h.key_hits))) h.key_hits;
})

pub record KeyStat : Type 0 where
  pub key : Key
  pub count : ℕ

-- The order of the report: more requests first, then by key.
unfoldable pub ranks_before : KeyStat → KeyStat → Bool
ranks_before a b = if not (a.count == b.count) then ltb b.count a.count else key_lt a.key b.key

unfoldable pub rank : KeyStat → List KeyStat → List KeyStat
unfolding ranks_before
rank s [] = s ∷ []
rank s (r ∷ rs) = let rest = rank s rs in if ranks_before s r then s ∷ r ∷ rs else r ∷ rest

unfoldable pub hot_among : ℕ → ℕ → List (Key × Buckets) → List KeyStat
unfolding rank total prune
hot_among threshold cutoff [] = []
hot_among threshold cutoff ((k, b) ∷ m) =
    let rest = hot_among threshold cutoff m in
    let sum = total (prune cutoff b) in
    if ltb sum threshold then rest else rank (record { key = k; count = sum }) rest

unfoldable pub hot_keys : ℕ → HotKeyTracker → List KeyStat
unfolding hot_among
hot_keys now h = hot_among h.threshold (cutoff_at h.window now) h.key_hits

-- mode.go.
pub data Mode : Type 0 where
  normal elevated high_traffic critical : Mode

-- What the engine uses of float64: a count over the seconds of a window, 0, and `>=`.
pub record Rates (F : Type 0) : Type 0 where
  pub zero_rate : F
  pub per_second : ℕ → ℕ → F
  pub at_least : F → F → Bool

pub record Thresholds (F : Type 0) : Type 0 where
  pub elevated_rps : F
  pub high_traffic_rps : F
  pub critical_rps : F

-- engine.go.
pub record Engine (F : Type 0) : Type 0 where
  pub window : ℕ
  pub requests : Buckets
  pub hot : HotKeyTracker
  pub thresholds : Thresholds F
  pub mode : Mode
  pub critical_until : ℕ

unfoldable pub new_engine : {F : Type 0} → Thresholds F → Engine F
new_engine thresholds = record {
  window = 10_000_000_000;
  requests = [];
  hot = record { window = 10_000_000_000; threshold = 20; key_hits = [] };
  thresholds = thresholds;
  mode = normal;
  critical_until = 0;
}

unfoldable pub signal_critical : {F : Type 0} → ℕ → ℕ → Engine F → Engine F
signal_critical now hold e = record e {
  critical_until = if ltb e.critical_until (now + hold) then now + hold else e.critical_until;
  mode = critical;
}

module _ {F : Type 0} (fl : Rates F) where
  -- `RPS` on buckets that it has pruned.
  unfoldable pub rps : ℕ → Buckets → F
  rps window b = if window == 0 then fl.zero_rate else fl.per_second (total b) window

  unfoldable pub mode_for : Thresholds F → F → Mode
  mode_for t r =
      if fl.at_least r t.critical_rps
      then critical
      else (if fl.at_least r t.high_traffic_rps
          then high_traffic
          else (if fl.at_least r t.elevated_rps then elevated else normal))

  unfoldable pub recompute_mode : ℕ → Engine F → Engine F
  unfolding rps mode_for
  recompute_mode now e =
      let kept = prune (cutoff_at e.window now) e.requests in
      record e {
        requests = kept;
        mode =
            if ltb now e.critical_until
            then critical
            else mode_for e.thresholds (rps e.window kept);
      }

  unfoldable pub record_request : Key → ℕ → Engine F → Engine F
  unfolding record_at record_key recompute_mode
  record_request key now e =
      recompute_mode now
        (record e { requests = record_at e.window now e.requests; hot = record_key key now e.hot })
