-- ===== src/Backend/Probes.antt =====
-- Health changes after runs of probes.
use thttpd_rs.Base.{
  ℕ, suc, zero, ◌+◌, ◌^◌, ◌≡◌, refl, ◌≤◌, ◌<◌, Bool, true, false, arith, leb, Bool-cases, inl, inr,
  String, ◌∙◌,
}
use thttpd_rs.Backend.{
  Backend, BackendConfig, new, HealthConfig, healthy, unhealthy, update_health, is_routable,
}

-- The backend after `n` probes with one outcome.
unfoldable pub probes : HealthConfig → Bool → ℕ → Backend → Backend
probes cfg success zero b = b
probes cfg success (suc n) b = probes cfg success n (update_health cfg success b)

module _ (cfg : HealthConfig) where
  stays_unhealthy :
      (n : ℕ) (b : Backend) → b.health ≡ unhealthy → (probes cfg false n b).health ≡ unhealthy
  unfolding probes update_health
  stays_unhealthy zero b h = h
  stays_unhealthy (suc n) b h = stays_unhealthy n (update_health cfg false b) (ground arith)

  stays_healthy :
      (n : ℕ) (b : Backend) → b.health ≡ healthy → (probes cfg true n b).health ≡ healthy
  unfolding probes update_health
  stays_healthy zero b h = h
  stays_healthy (suc n) b h = stays_healthy n (update_health cfg true b) (ground arith)

  failing_step :
      (b : Backend)
      → b.consecutive_failures + 1 < 2 ^ 32
      → ((update_health cfg false b).consecutive_failures ≡ b.consecutive_failures + 1)
        × (cfg.failure_threshold ≤ b.consecutive_failures + 1
            → (update_health cfg false b).health ≡ unhealthy)
        × (b.consecutive_failures + 1 < cfg.failure_threshold
            → (update_health cfg false b).health ≡ b.health)
  unfolding update_health
  failing_step b r = (ground arith, λ h. ground arith, λ h. ground arith)

  -- From a count below the threshold, a run of `n` such probes changes the health exactly if it takes
  -- the count to the threshold.
  pub failing :
      (n : ℕ) (b : Backend)
      → b.consecutive_failures < cfg.failure_threshold
      → b.consecutive_failures + n < 2 ^ 32
      → (cfg.failure_threshold ≤ b.consecutive_failures + n
          → (probes cfg false n b).health ≡ unhealthy)
        × (b.consecutive_failures + n < cfg.failure_threshold
            → (probes cfg false n b).health ≡ b.health)
  unfolding probes
  failing zero b f r = (λ h. absurd (omega arith), λ h. refl)
  failing (suc n) b f r =
      let (count, over, under) = failing_step b (omega arith) in
      let b' = update_health cfg false b in
      elim (Bool-cases (leb cfg.failure_threshold (b.consecutive_failures + 1))) [
        | inl e ↦ (λ h. stays_unhealthy n b' (over (ground arith)), λ h. absurd (ground arith))
        | inr e ↦
            let (later, never) = failing n b' (ground arith) (omega arith) in
            (λ h. later (omega arith), λ h. never (omega arith) ∙ under (omega arith))
      ]

  succeeding_step :
      (b : Backend)
      → b.consecutive_successes + 1 < 2 ^ 32
      → ((update_health cfg true b).consecutive_successes ≡ b.consecutive_successes + 1)
        × (cfg.success_threshold ≤ b.consecutive_successes + 1
            → (update_health cfg true b).health ≡ healthy)
        × (b.consecutive_successes + 1 < cfg.success_threshold
            → (update_health cfg true b).health ≡ b.health)
  unfolding update_health
  succeeding_step b r = (ground arith, λ h. ground arith, λ h. ground arith)

  -- From a count below the threshold, a run of `n` such probes changes the health exactly if it takes
  -- the count to the threshold.
  pub succeeding :
      (n : ℕ) (b : Backend)
      → b.consecutive_successes < cfg.success_threshold
      → b.consecutive_successes + n < 2 ^ 32
      → (cfg.success_threshold ≤ b.consecutive_successes + n
          → (probes cfg true n b).health ≡ healthy)
        × (b.consecutive_successes + n < cfg.success_threshold
            → (probes cfg true n b).health ≡ b.health)
  unfolding probes
  succeeding zero b f r = (λ h. absurd (omega arith), λ h. refl)
  succeeding (suc n) b f r =
      let (count, over, under) = succeeding_step b (omega arith) in
      let b' = update_health cfg true b in
      elim (Bool-cases (leb cfg.success_threshold (b.consecutive_successes + 1))) [
        | inl e ↦ (λ h. stays_healthy n b' (over (ground arith)), λ h. absurd (ground arith))
        | inr e ↦
            let (later, never) = succeeding n b' (ground arith) (omega arith) in
            (λ h. later (omega arith), λ h. never (omega arith) ∙ under (omega arith))
      ]

failures_reset :
    (cfg : HealthConfig) (n : ℕ) (b : Backend)
    → b.consecutive_successes ≡ 0
    → (probes cfg false n b).consecutive_successes ≡ 0
unfolding probes update_health
failures_reset cfg zero b h = h
failures_reset cfg (suc n) b h = failures_reset cfg n (update_health cfg false b) refl

-- A new backend, after `n` failed probes and then `m` good ones, each number below 2 ^ 32: it is
-- routable before the failures reach their threshold, is not once they have, and is again exactly
-- when the good probes have reached theirs.
pub probes-is_routable :
    (cfg : HealthConfig) (name : String) (config : BackendConfig) (n m : ℕ)
    → 0 < cfg.failure_threshold
    → 0 < cfg.success_threshold
    → n < 2 ^ 32
    → m < 2 ^ 32
    → (n < cfg.failure_threshold → is_routable (probes cfg false n (new name config)) ≡ true)
      × (cfg.failure_threshold ≤ n
          → (m < cfg.success_threshold
              → is_routable (probes cfg true m (probes cfg false n (new name config))) ≡ false)
            × (cfg.success_threshold ≤ m
                → is_routable (probes cfg true m (probes cfg false n (new name config))) ≡ true))
unfolding is_routable
probes-is_routable cfg name config n m p q rn rm =
    let b = new name config in
    let down = probes cfg false n b in
    let fails : (cfg.failure_threshold ≤ 0 + n → down.health ≡ unhealthy)
        × (0 + n < cfg.failure_threshold → down.health ≡ healthy) =
      unfold new in failing cfg n b p (omega arith) in
    let none_good : down.consecutive_successes ≡ 0 = unfold new in failures_reset cfg n b refl in
    let goods = succeeding cfg m down (rw none_good q) (rw none_good (omega arith)) in
    (
      λ few. rw (fails.1 (omega arith)) refl,
      λ many. (
        λ less. rw (goods.1 (rw none_good (omega arith)), fails.0 (omega arith)) refl,
        λ enough. rw (goods.0 (rw none_good (omega arith))) refl,
      ),
    )
