-- ===== src/Workload/Window.antt =====
-- internal/workload/monitor.go: the buckets count the requests of the window.
use boiler_pulse.Prelude.{
  ℕ, ◌+◌, ◌≤◌, ◌≡◌, refl, ◌∙◌, List, [], ◌∷◌, arith, ltb, if◌then◌else◌, All,
}
use boiler_pulse.Workload.{Buckets, bump, prune, total, record_at, millis, cutoff_at}

-- The requests at or after a cutoff, one by one.
unfoldable pub count_since : ℕ → List ℕ → ℕ
count_since cutoff [] = 0
count_since cutoff (t ∷ ts) =
    let rest = count_since cutoff ts in if ltb (millis t) cutoff then rest else rest + 1

-- The monitor after requests at these times, the latest first.
unfoldable pub monitor : ℕ → List ℕ → Buckets
unfolding record_at
monitor window [] = []
monitor window (t ∷ ts) = record_at window t (monitor window ts)

total-prune-bump :
    (cutoff ms : ℕ) (b : Buckets)
    → total (prune cutoff (bump ms b)) ≡ total (prune cutoff b) + (if ltb ms cutoff then 0 else 1)
unfolding total prune bump
total-prune-bump cutoff ms [] = ground arith
total-prune-bump cutoff ms ((t, c) ∷ b) = ground (arith, total-prune-bump cutoff ms b)

total-prune-prune :
    (cutoff earlier : ℕ) (b : Buckets)
    → earlier ≤ cutoff
    → total (prune cutoff (prune earlier b)) ≡ total (prune cutoff b)
unfolding total prune
total-prune-prune cutoff earlier [] h = refl
total-prune-prune cutoff earlier ((t, c) ∷ b) h =
    ground (arith, total-prune-prune cutoff earlier b h)

-- The buckets of the monitor, pruned at a time that no request is after, count exactly the
-- requests whose millisecond is in the window, one by one.
pub total-monitor :
    (window now : ℕ) (ts : List ℕ)
    → All (λ t. t ≤ now) ts
    → total (prune (cutoff_at window now) (monitor window ts))
      ≡ count_since (cutoff_at window now) ts
unfolding monitor record_at count_since
total-monitor window now [] h = (unfold total prune in refl)
total-monitor window now (t ∷ ts) (le, h) =
    let c = cutoff_at window now in
    total-prune-prune c (cutoff_at window t) (bump (millis t) (monitor window ts))
      (omega (arith, le))
    ∙ (total-prune-bump c (millis t) (monitor window ts)
        ∙ ground (arith, total-monitor window now ts h))
