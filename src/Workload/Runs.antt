-- ===== src/Workload/Runs.antt =====
-- internal/workload: the theorems on some concrete runs. A rate is the count itself.
use boiler_pulse.Prelude.{ℕ, ◌≡◌, List, [], ◌∷◌, arith, leb}
use boiler_pulse.Workload.{
  Rates, Thresholds, critical, new_engine, signal_critical, prune, total, cutoff_at,
}
use boiler_pulse.Workload.Window.{monitor, count_since, total-monitor}
use boiler_pulse.Workload.Modes.{requested, signalled, calls, calls-signal_critical}

abbrev counts : Rates ℕ
counts = record { zero_rate = 0; per_second = λ n window. n; at_least = λ a b. leb b a }

abbrev limits : Thresholds ℕ
limits = record { elevated_rps = 20; high_traffic_rps = 50; critical_rps = 100 }

abbrev at_times : List ℕ
at_times = 12_000_000_000 ∷ 11_000_000_000 ∷ 500_000_000 ∷ []

total-monitor_example :
    total (prune (cutoff_at 10_000_000_000 12_500_000_000) (monitor 10_000_000_000 at_times))
    ≡ count_since (cutoff_at 10_000_000_000 12_500_000_000) at_times
total-monitor_example =
    total-monitor 10_000_000_000 12_500_000_000 at_times
      (omega arith, (omega arith, (omega arith, tt)))

calls-signal_critical_example :
    (calls counts
      (signal_critical 5 10 (new_engine limits))
      (requested (107 ∷ []) 9 ∷ signalled 11 2 ∷ [])).mode
    ≡ critical
calls-signal_critical_example =
    calls-signal_critical counts 5 10 (new_engine limits)
      (requested (107 ∷ []) 9 ∷ signalled 11 2 ∷ []) (omega arith, (omega arith, tt))
