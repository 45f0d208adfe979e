-- ===== src/Transport/Connect/Attempts.antt =====
-- The attempts of `connect_with_retry`, and the delays between them.
use bluesdp.Prelude.{
  ℕ, zero, suc, ◌+◌, ◌<◌, ◌≤◌, ◌≡◌, ◌≢◌, refl, ◌∙◌, Result, ok, err, out_of_fuel, arith, ◌⊎◌, inl,
  inr, ltb, true, false,
}
use bluesdp.Io.{Io}
use bluesdp.Transport.Connect.{
  retries_exhausted, retry_delay, max_connect_attempts, connect_loop, connect_with_retry,
}

not_ok :
    {X T : Type 0} (r : Result X T)
    → ((v : T) → r ≢ ok v)
    → ((e : X) × (r ≡ err e)) ⊎ (r ≡ out_of_fuel)
not_ok (ok v) h = absurd (h v refl)
not_ok (err e) h = inl (e, refl)
not_ok out_of_fuel h = inr refl

module _ {W X T : Type 0} (sleep : ℕ → W → W) (connect : Io W X T) where
  -- What a failed attempt that is not the last leaves behind.
  abbrev pub retry : W → W
  retry w = sleep retry_delay (connect w).1

  -- The state before the attempt number `k`, from 0, if those before it failed.
  abbrev pub before : ℕ → W → W
  before zero w = w
  before (suc k) w = before k (retry w)

  -- The first `k` attempts fail.
  abbrev pub Fails : ℕ → W → Type 0
  Fails zero w = Unit {0}
  Fails (suc k) w = ((v : T) → (connect w).0 ≢ ok v) × Fails k (retry w)

  loop_retry :
      (left attempt : ℕ) (w : W)
      → attempt + 1 < max_connect_attempts
      → ((v : T) → (connect w).0 ≢ ok v)
      → connect_loop sleep connect (suc left) attempt w
        ≡ connect_loop sleep connect left (attempt + 1) (retry w)
  unfolding connect_loop
  loop_retry left attempt w h fails =
      let again : ltb (attempt + 1) max_connect_attempts ≡ true = ground arith in
      elim (not_ok (connect w).0 fails) [
        | inl (e, p) ↦ rw (p, connect_loop, again)
        | inr p ↦ rw (p, connect_loop, again)
      ]

  loop_last :
      (attempt : ℕ) (w : W)
      → max_connect_attempts ≤ attempt + 1
      → ((v : T) → (connect w).0 ≢ ok v)
      → connect_loop sleep connect 1 attempt w ≡ (err retries_exhausted, (connect w).1)
  unfolding connect_loop
  loop_last attempt w h fails =
      let over : ltb (attempt + 1) max_connect_attempts ≡ false = ground arith in
      elim (not_ok (connect w).0 fails) [
        | inl (e, p) ↦ rw (p, connect_loop, over)
        | inr p ↦ rw (p, connect_loop, over)
      ]

  loop_connects :
      (left attempt : ℕ) (w : W) (v : T)
      → (connect w).0 ≡ ok v
      → connect_loop sleep connect (suc left) attempt w ≡ (ok v, (connect w).1)
  unfolding connect_loop
  loop_connects left attempt w v h = rw (h, connect_loop)

  -- `k` failures and then a success, within the attempts that are left.
  loop_succeeds :
      (k left attempt : ℕ) (w : W) (v : T)
      → attempt + left ≡ max_connect_attempts
      → k < left
      → Fails k w
      → (connect (before k w)).0 ≡ ok v
      → connect_loop sleep connect left attempt w ≡ (ok v, (connect (before k w)).1)
  loop_succeeds k zero attempt w v sum h fails success = absurd (omega arith)
  loop_succeeds zero (suc left) attempt w v sum h fails success =
      loop_connects left attempt w v success
  loop_succeeds (suc k) (suc left) attempt w v sum h fails success =
      loop_retry left attempt w (omega arith) fails.0
      ∙ loop_succeeds k left (attempt + 1) (retry w) v (omega arith) (omega arith) fails.1 success

  loop-Fails :
      (k attempt : ℕ) (w : W)
      → attempt + suc k ≡ max_connect_attempts
      → Fails (suc k) w
      → connect_loop sleep connect (suc k) attempt w
        ≡ (err retries_exhausted, (connect (before k w)).1)
  loop-Fails zero attempt w sum fails = loop_last attempt w (omega arith) fails.0
  loop-Fails (suc k) attempt w sum fails =
      loop_retry (suc k) attempt w (omega arith) fails.0
      ∙ loop-Fails k (attempt + 1) (retry w) (omega arith) fails.1

  -- If the first success is one of the first five attempts, it is returned, with one delay
  -- between two attempts and no attempt after it.
  pub connect_with_retry-succeeds :
      (k : ℕ) (w : W) (v : T)
      → k < max_connect_attempts
      → Fails k w
      → (connect (before k w)).0 ≡ ok v
      → connect_with_retry sleep connect w ≡ (ok v, (connect (before k w)).1)
  unfolding connect_with_retry
  connect_with_retry-succeeds k w v = loop_succeeds k max_connect_attempts 0 w v refl

  -- If five attempts fail there is no sixth and no fifth delay: the state is that after the fifth
  -- attempt, which four delays precede.
  pub connect_with_retry-Fails :
      (w : W)
      → Fails max_connect_attempts w
      → connect_with_retry sleep connect w ≡ (err retries_exhausted, (connect (before 4 w)).1)
  unfolding connect_with_retry
  connect_with_retry-Fails w = loop-Fails 4 0 w refl

  -- One of the first `k` attempts is the first success.
  pub record Succeeds (k : ℕ) (w : W) : Type 0 where
    pub failures : ℕ
    pub value : T
    pub in_time : failures < k
    pub fails : Fails failures w
    pub connects : (connect (before failures w)).0 ≡ ok value

  outcome : (r : Result X T) → ((v : T) × (r ≡ ok v)) ⊎ ((v : T) → r ≢ ok v)
  outcome (ok v) = inl (v, refl)
  outcome (err e) = inr (λ v p. cc)
  outcome out_of_fuel = inr (λ v p. cc)

  one_more :
      (k : ℕ) (w : W) → ((v : T) → (connect w).0 ≢ ok v) → Succeeds k (retry w) → Succeeds (suc k) w
  one_more k w failed later = record {
    failures = suc later.failures;
    value = later.value;
    in_time = omega (arith, later.in_time);
    fails = (failed, later.fails);
    connects = later.connects;
  }

  Succeeds-or_Fails : (k : ℕ) (w : W) → Succeeds k w ⊎ Fails k w
  Succeeds-or_Fails zero w = inr tt
  Succeeds-or_Fails (suc k) w = elim (outcome (connect w).0) [
    | inl (v, connected) ↦ inl (record {
      failures = 0;
      value = v;
      in_time = omega arith;
      fails = tt;
      connects = connected;
    })
    | inr failed ↦ elim (Succeeds-or_Fails k (retry w)) [
      | inl later ↦ inl (one_more k w failed later)
      | inr others ↦ inr (failed, others)
    ]
  ]

  -- Every run of the loop is one of the two: the first success among the first five attempts, with
  -- the state that it leaves, or the error, with the state after five failures.
  pub connect_with_retry_cases :
      (w : W)
      → ((s : Succeeds max_connect_attempts w) × (connect_with_retry sleep connect w
            ≡ (ok s.value, (connect (before s.failures w)).1)))
        ⊎ (Fails max_connect_attempts w
            × (connect_with_retry sleep connect w
                ≡ (err retries_exhausted, (connect (before 4 w)).1)))
  connect_with_retry_cases w = elim (Succeeds-or_Fails max_connect_attempts w) [
    | inl s ↦ inl (s, connect_with_retry-succeeds s.failures w s.value s.in_time s.fails s.connects)
    | inr fails ↦ inr (fails, connect_with_retry-Fails w fails)
  ]
