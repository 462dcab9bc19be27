-- ===== src/Circuit/Trips.antt =====
-- When counting outcomes opens a closed breaker.
use thttpd_rs.Base.{
  ℕ, ◌≡◌, refl, ◌≤◌, ◌<◌, ◌+◌, Bool, true, false, some, List, [], ◌∷◌, length, arith,
}
use thttpd_rs.Circuit.{
  closed, open_state, CircuitConfig, Breaker, new, counted, over_threshold, record_outcome,
}

-- A closed breaker records an outcome: with the new window over the threshold it opens, with an empty
-- window; else it stays closed and holds the new window. The threshold is the minimum volume and the
-- error rate together.
pub record_outcome-closed :
    (now : ℕ) (success : Bool) (b : Breaker)
    → b.state ≡ closed
    → (over_threshold b.cfg (counted now success b.cfg b.window) ≡ true
        → ((record_outcome now success b).state ≡ open_state)
          × ((record_outcome now success b).opened_at ≡ some now)
          × ((record_outcome now success b).window.total ≡ 0))
      × (over_threshold b.cfg (counted now success b.cfg b.window) ≡ false
          → ((record_outcome now success b).state ≡ closed)
            × ((record_outcome now success b).window ≡ counted now success b.cfg b.window))
unfolding record_outcome
record_outcome-closed now success b h = (λ e. ground arith, λ e. ground arith)

-- The breaker after a run of outcomes, each with its time.
unfoldable pub outcomes : List (ℕ × Bool) → Breaker → Breaker
outcomes [] b = b
outcomes ((now, success) ∷ rest) b = outcomes rest (record_outcome now success b)

counted-total-le :
    (now : ℕ) (success : Bool) (b : Breaker)
    → (counted now success b.cfg b.window).total ≤ b.window.total + 1
unfolding counted
counted-total-le now success b = ground arith

quiet :
    (now : ℕ) (success : Bool) (b : Breaker)
    → b.state ≡ closed
    → b.window.total + 1 < b.cfg.min_requests
    → ((record_outcome now success b).state ≡ closed)
      × ((record_outcome now success b).cfg ≡ b.cfg)
      × ((record_outcome now success b).window.total ≤ b.window.total + 1)
unfolding record_outcome
quiet now success b h few = ground arith

outcomes_quiet :
    (run : List (ℕ × Bool)) (b : Breaker)
    → b.state ≡ closed
    → b.window.total + length run < b.cfg.min_requests
    → (outcomes run b).state ≡ closed
unfolding outcomes
outcomes_quiet [] b h few = h
outcomes_quiet ((now, success) ∷ rest) b h few =
    let (c, k, t) = quiet now success b h (omega arith) in
    outcomes_quiet rest (record_outcome now success b) c (rw k (omega arith))

-- Fewer outcomes than the minimum volume, all failures or not, never open a new breaker.
pub below_min_requests :
    (start : ℕ) (cfg : CircuitConfig) (run : List (ℕ × Bool))
    → length run < cfg.min_requests
    → (outcomes run (new start cfg)).state ≡ closed
unfolding new
below_min_requests start cfg run few = outcomes_quiet run (new start cfg) refl (omega arith)
