-- ===== src/Gateway/RateLimit.antt =====
-- internal/gateway/ratelimit.go: the token buckets. A float64 is a parameter: what the code uses of
-- it is its comparisons, sum, difference and product, and the conversions. A call reads the clock
-- once, and the clock does not go back.
use boiler_pulse.Prelude.{
  ℕ, zero, suc, ◌-◌, ◌^◌, ◌≤◌, ◌≡◌, refl, ap, ◌∙◌, Bool, true, false, List, [], Option, none, some,
  arith, if◌then◌else◌, min, ltb, ◌∷◌, ◌&&◌, Bool-cases, inl, inr, subst, sym,
}
use boiler_pulse.Bytes.{bytes_eq, bytes_eq_iff, bytes_eq_sound}
use boiler_pulse.Storage.Table.{Key, lookup, insert, lookup-insert}

pub record Floats (F : Type 0) : Type 0 where
  pub of_nat : ℕ → F
  pub seconds : ℕ → F
  pub add : F → F → F
  pub sub : F → F → F
  pub mul : F → F → F
  pub less : F → F → Bool
  pub at_most : F → F → Bool

pub record RateLimitOptions (F : Type 0) : Type 0 where
  pub requests_per_second : F
  pub burst : ℕ

pub record Bucket (F : Type 0) : Type 0 where
  pub tokens : F
  pub last_fill : ℕ

-- Times are in nanoseconds; the buckets are under the bytes of the client's address.
pub record RateLimiter (F : Type 0) : Type 0 where
  pub opts : RateLimitOptions F
  pub buckets : List (Key × Bucket F)

-- How many of the requests are a client's.
unfoldable pub requests_of : Key → List Key → ℕ
requests_of key [] = 0
requests_of key (j ∷ js) =
    let rest = requests_of key js in if bytes_eq j key then suc rest else rest

module _ {F : Type 0} (fl : Floats F) where
  unfoldable pub new_rate_limiter : RateLimitOptions F → RateLimiter F
  new_rate_limiter opts = record { opts = opts; buckets = [] }

  unfoldable pub refill : RateLimitOptions F → ℕ → Bucket F → Bucket F
  refill opts now b =
      let full =
        fl.add b.tokens (fl.mul (fl.seconds (now - b.last_fill)) opts.requests_per_second) in
      record {
        tokens = if fl.less (fl.of_nat opts.burst) full then fl.of_nat opts.burst else full;
        last_fill = now;
      }

  unfoldable pub take_token : Bucket F → Bucket F × Bool
  take_token b =
      if fl.less b.tokens (fl.of_nat 1)
      then (b, false)
      else (record b { tokens = fl.sub b.tokens (fl.of_nat 1) }, true)

  unfoldable pub bucket_for : RateLimitOptions F → ℕ → Option (Bucket F) → Bucket F
  bucket_for opts now none = record { tokens = fl.of_nat opts.burst; last_fill = now }
  bucket_for opts now (some b) = b

  -- `Allow`.
  unfoldable pub allow : Key → ℕ → RateLimiter F → RateLimiter F × Bool
  unfolding refill take_token bucket_for
  allow key now rl =
      if fl.at_most rl.opts.requests_per_second (fl.of_nat 0)
      then (rl, true)
      else (let (b, allowed) =
            take_token (refill rl.opts now (bucket_for rl.opts now (lookup key rl.buckets))) in
          (record rl { buckets = insert key b rl.buckets }, allowed))

  -- How many of the requests of a client pass, among those of all clients at one time.
  unfoldable pub admitted : List Key → Key → ℕ → RateLimiter F → ℕ
  unfolding allow
  admitted [] key now rl = 0
  admitted (j ∷ js) key now rl =
      let (rl1, allowed) = allow j now rl in
      let rest = admitted js key now rl1 in if bytes_eq j key && allowed then suc rest else rest

  -- What IEEE 754 says of whole numbers up to 2^53 and of a product with 0 seconds.
  pub record IsExact (rate : F) : Type 0 where
    pub less_iff :
        (a b : ℕ) → a ≤ 2 ^ 53 → b ≤ 2 ^ 53 → fl.less (fl.of_nat a) (fl.of_nat b) ≡ ltb a b
    pub sub_one : (a : ℕ) → suc a ≤ 2 ^ 53 → fl.sub (fl.of_nat (suc a)) (fl.of_nat 1) ≡ fl.of_nat a
    pub add_none :
        (a : ℕ) → a ≤ 2 ^ 53 → fl.add (fl.of_nat a) (fl.mul (fl.seconds 0) rate) ≡ fl.of_nat a

  full_at : ℕ → ℕ → Bucket F
  full_at now k = record { tokens = fl.of_nat k; last_fill = now }

  refill-full_at :
      (opts : RateLimitOptions F) (now k : ℕ)
      → IsExact opts.requests_per_second
      → k ≤ opts.burst
      → opts.burst ≤ 2 ^ 53
      → refill opts now (full_at now k) ≡ full_at now k
  unfolding refill full_at
  refill-full_at opts now k x le fits =
      let still : now - now ≡ 0 = omega arith in
      let sum =
        ap (λ d. fl.add (fl.of_nat k) (fl.mul (fl.seconds d) opts.requests_per_second)) still
        ∙ x.add_none k (omega (arith, le, fits)) in
      let within : fl.less (fl.of_nat opts.burst) (fl.of_nat k) ≡ false =
        x.less_iff opts.burst k fits (omega (arith, le, fits)) ∙ ground (arith, le) in
      rw (sum, within) refl

  take_token-full_at :
      (opts : RateLimitOptions F) (now k : ℕ)
      → IsExact opts.requests_per_second
      → k ≤ 2 ^ 53
      → take_token (full_at now k) ≡ (full_at now (k - 1), ltb 0 k)
  unfolding take_token full_at
  take_token-full_at opts now zero x fits = rw (x.less_iff 0 1 (omega arith) (omega arith)) refl
  take_token-full_at opts now (suc k) x fits =
      let has : fl.less (fl.of_nat (suc k)) (fl.of_nat 1) ≡ false =
        x.less_iff (suc k) 1 fits (omega arith) ∙ ground arith in
      let same : suc k - 1 ≡ k = omega arith in
      let positive : true ≡ ltb 0 (suc k) = ground arith in
      rw (has, x.sub_one k fits, same) (ap (λ b. (full_at now k, b)) positive)

  abbrev Holds : Key → ℕ → ℕ → RateLimiter F → Type 0
  Holds key now k rl = bucket_for rl.opts now (lookup key rl.buckets) ≡ full_at now k

  allow-Holds :
      (key : Key) (now k : ℕ) (rl : RateLimiter F)
      → IsExact rl.opts.requests_per_second
      → k ≤ rl.opts.burst
      → rl.opts.burst ≤ 2 ^ 53
      → fl.at_most rl.opts.requests_per_second (fl.of_nat 0) ≡ false
      → Holds key now k rl
      → allow key now rl
        ≡ (record rl { buckets = insert key (full_at now (k - 1)) rl.buckets }, ltb 0 k)
  unfolding allow
  allow-Holds key now k rl x le fits on h =
      let taken =
        ap (λ b. take_token (refill rl.opts now b)) h
        ∙ (ap take_token (refill-full_at rl.opts now k x le fits)
            ∙ take_token-full_at rl.opts now k x (omega (arith, le, fits))) in
      rw (on, taken) refl

  insert-Holds :
      (key : Key) (now k : ℕ) (rl : RateLimiter F)
      → Holds key now k (record rl { buckets = insert key (full_at now k) rl.buckets })
  insert-Holds key now k rl =
      let found =
        lookup-insert key key (full_at now k) rl.buckets
        ∙ ap (λ b. if b then some (full_at now k) else lookup key rl.buckets)
            ((bytes_eq_iff key key).1 refl) in
      (unfold bucket_for in rw found refl)

  -- A request of another client leaves a client's bucket alone.
  other-Holds :
      (j key : Key) (now k : ℕ) (rl : RateLimiter F)
      → fl.at_most rl.opts.requests_per_second (fl.of_nat 0) ≡ false
      → bytes_eq j key ≡ false
      → Holds key now k rl
      → Holds key now k (allow j now rl).0 × ((allow j now rl).0.opts ≡ rl.opts)
  unfolding allow
  other-Holds j key now k rl on other h =
      let b = (take_token (refill rl.opts now (bucket_for rl.opts now (lookup j rl.buckets)))).0 in
      rw on (
        ap (bucket_for rl.opts now) (
              lookup-insert j key b rl.buckets
              ∙ ap (λ t. if t then some b else lookup key rl.buckets) other)
            ∙ h,
        refl,
      )

  admitted-Holds :
      (js : List Key) (key : Key) (now k : ℕ) (rl : RateLimiter F)
      → IsExact rl.opts.requests_per_second
      → k ≤ rl.opts.burst
      → rl.opts.burst ≤ 2 ^ 53
      → fl.at_most rl.opts.requests_per_second (fl.of_nat 0) ≡ false
      → Holds key now k rl
      → admitted js key now rl ≡ min (requests_of key js) k
  unfolding admitted requests_of
  admitted-Holds [] key now k rl x le fits on h = omega arith
  admitted-Holds (j ∷ js) key now k rl x le fits on h = elim (Bool-cases (bytes_eq j key)) [
    | inl same ↦
        let own : j ≡ key = bytes_eq_sound j key same in
        let rl1 = record rl { buckets = insert j (full_at now (k - 1)) rl.buckets } in
        let next : Holds key now (k - 1) rl1 =
          subst (λ i. Holds i now (k - 1) rl1) own (insert-Holds j now (k - 1) rl) in
        let rest = admitted-Holds js key now (k - 1) rl1 x (omega (arith, le)) fits on next in
        let passed =
          allow-Holds j now k rl x le fits on (subst (λ i. Holds i now k rl) (sym own) h) in
        rw (same, passed, rest) (ground arith)
    | inr other ↦
        let (still, opts) = other-Holds j key now k rl on other h in
        let rl1 = (allow j now rl).0 in
        let rest =
          admitted-Holds js key now k rl1 (subst (λ p. IsExact p.requests_per_second) (sym opts) x)
            (subst (λ p. k ≤ p.burst) (sym opts) le) (subst (λ p. p.burst ≤ 2 ^ 53) (sym opts) fits)
            (subst (λ p. fl.at_most p.requests_per_second (fl.of_nat 0) ≡ false) (sym opts) on)
            still in
        rw (other, rest) refl
  ]

  -- Among requests of any clients at one moment, on a limiter that has no bucket for a client and
  -- any buckets for others, exactly the smaller of the number of that client's requests and the
  -- burst pass of them, if the limiter is on, the burst is at most 2^53 and the arithmetic on
  -- whole numbers up to there is exact.
  pub admitted_burst :
      (js : List Key) (key : Key) (now : ℕ) (rl : RateLimiter F)
      → lookup key rl.buckets ≡ none
      → IsExact rl.opts.requests_per_second
      → rl.opts.burst ≤ 2 ^ 53
      → fl.at_most rl.opts.requests_per_second (fl.of_nat 0) ≡ false
      → admitted js key now rl ≡ min (requests_of key js) rl.opts.burst
  admitted_burst js key now rl new x fits on =
      admitted-Holds js key now rl.opts.burst rl x (omega arith) fits on
        (unfold bucket_for full_at in rw new refl)
