-- ===== src/Circuit/Invariant.antt =====
-- What holds of a breaker between method calls, and that every method keeps it.
use thttpd_rs.Base.{ℕ, Bool, true, false, Option, none, some, arith}
use thttpd_rs.Circuit.{
  State, closed, open_state, half_open, CircuitConfig, Breaker, new, release_probe, record_outcome,
  try_admit, allows,
}

-- The probe slot is taken exactly while the state is half-open, and the time of opening is kept
-- exactly while the state is not closed.
abbrev Fits : State → Option ℕ → Bool → Type 0
Fits closed none false = Unit
Fits open_state (some t) false = Unit
Fits half_open (some t) true = Unit
Fits _ _ _ = ⊥

pub record IsSound (b : Breaker) : Type 0 where
  pub fits : Fits b.state b.opened_at b.probe_in_flight

-- One method call at a time `now`.
pub data Step (b : Breaker) : Breaker → Type 0 where
  recorded : (now : ℕ) (success : Bool) → Step b (record_outcome now success b)
  released : (now : ℕ) → Step b (release_probe now b)
  admitted : (now : ℕ) → Step b (try_admit now b).0
  allowed : (now : ℕ) → Step b (allows now b).0

pub data Reach (cfg : CircuitConfig) : Breaker → Type 0 where
  created : (now : ℕ) → Reach cfg (new now cfg)
  called : {b c : Breaker} → Reach cfg b → Step b c → Reach cfg c

-- The branch of `record` that counts leaves the state or opens the breaker.
record_outcome-IsSound :
    (now : ℕ) (success : Bool) (b : Breaker) → IsSound b → IsSound (record_outcome now success b)
unfolding record_outcome
record_outcome-IsSound now success b h = ground arith

release_probe-IsSound : (now : ℕ) (b : Breaker) → IsSound b → IsSound (release_probe now b)
unfolding release_probe
release_probe-IsSound now b h = ground arith

try_admit-IsSound : (now : ℕ) (b : Breaker) → IsSound b → IsSound (try_admit now b).0
unfolding try_admit
try_admit-IsSound now b h = ground arith

Step-IsSound : {b c : Breaker} → Step b c → IsSound b → IsSound c
unfolding allows
Step-IsSound {b} (recorded now success) h = record_outcome-IsSound now success b h
Step-IsSound {b} (released now) h = release_probe-IsSound now b h
Step-IsSound {b} (admitted now) h = try_admit-IsSound now b h
Step-IsSound {b} (allowed now) h = try_admit-IsSound now b h

-- Whatever methods are called on a new breaker, one after the other: the probe slot is taken exactly
-- while the breaker is half-open, and the time of opening is there exactly while it is not closed.
pub Reach-IsSound : (cfg : CircuitConfig) {b : Breaker} → Reach cfg b → IsSound b
unfolding new
Reach-IsSound cfg (created now) = record { fits = tt }
Reach-IsSound cfg (called r s) = Step-IsSound s (Reach-IsSound cfg r)
