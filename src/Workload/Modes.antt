-- ===== src/Workload/Modes.antt =====
-- internal/workload/engine.go: how the mode follows the rate, and that CRITICAL is held.
use boiler_pulse.Prelude.{ℕ, ◌+◌, ◌≤◌, ◌<◌, ◌≡◌, refl, true, List, [], ◌∷◌, arith}
use boiler_pulse.Storage.Table.{Key}
use boiler_pulse.Workload.{
  Mode, normal, elevated, high_traffic, critical, Rates, Thresholds, Engine, signal_critical,
  mode_for, recompute_mode, record_request,
}

abbrev pub severity : Mode → ℕ
severity normal = 0
severity elevated = 1
severity high_traffic = 2
severity critical = 3

-- A request or a signal, with its time.
pub data Call : Type 0 where
  requested : Key → ℕ → Call
  signalled : ℕ → ℕ → Call

abbrev pub time_of : Call → ℕ
time_of (requested key now) = now
time_of (signalled now hold) = now

module _ {F : Type 0} (fl : Rates F) where
  -- A rate that reaches every limit that another reaches gives a mode that is at least as severe.
  pub severity-mode_for :
      (t : Thresholds F) (r s : F)
      → ((x : F) → fl.at_least r x ≡ true → fl.at_least s x ≡ true)
      → severity (mode_for fl t r) ≤ severity (mode_for fl t s)
  unfolding mode_for
  severity-mode_for t r s rises =
      ground (arith, rises t.critical_rps, rises t.high_traffic_rps, rises t.elevated_rps)

  unfoldable pub call : Engine F → Call → Engine F
  unfolding record_request signal_critical
  call e (requested key now) = record_request fl key now e
  call e (signalled now hold) = signal_critical now hold e

  unfoldable pub calls : Engine F → List Call → Engine F
  unfolding call
  calls e [] = e
  calls e (c ∷ cs) = calls (call e c) cs

  abbrev Held : ℕ → Engine F → Type 0
  Held until e = (e.mode ≡ critical) × (until ≤ e.critical_until)

  call-Held :
      (until : ℕ) (e : Engine F) (c : Call)
      → time_of c < until
      → Held until e
      → Held until (call e c)
  unfolding call record_request recompute_mode signal_critical
  call-Held until e (requested key now) before (m, u) = (ground (arith, before, u), u)
  call-Held until e (signalled now hold) before (m, u) = (refl, ground (arith, u))

  abbrev pub AllBefore : ℕ → List Call → Type 0
  AllBefore until [] = Unit {0}
  AllBefore until (c ∷ cs) = (time_of c < until) × AllBefore until cs

  calls-Held :
      (until : ℕ) (e : Engine F) (cs : List Call)
      → AllBefore until cs
      → Held until e
      → Held until (calls e cs)
  unfolding calls
  calls-Held until e [] b h = h
  calls-Held until e (c ∷ cs) (b, bs) h =
      calls-Held until (call e c) cs bs (call-Held until e c b h)

  -- After a signal with a hold, the mode is CRITICAL whatever requests and signals follow, as long
  -- as they come before the end of the hold.
  pub calls-signal_critical :
      (now hold : ℕ) (e : Engine F) (cs : List Call)
      → AllBefore (now + hold) cs
      → (calls (signal_critical now hold e) cs).mode ≡ critical
  calls-signal_critical now hold e cs b =
      (calls-Held (now + hold) (signal_critical now hold e) cs b held).0
    where
      held : Held (now + hold) (signal_critical now hold e)
      held = (unfold signal_critical in (refl, ground arith))
