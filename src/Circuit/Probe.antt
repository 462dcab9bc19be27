-- ===== src/Circuit/Probe.antt =====
-- Candidate checks and probe admission.
use thttpd_rs.Base.{ℕ, ◌≡◌, refl, ◌≤◌, ◌<◌, ◌+◌, Bool, true, false, some, List, [], ◌∷◌, All, arith}
use thttpd_rs.Circuit.{
  closed, open_state, half_open, Breaker, record_outcome, try_admit, can_route, cool_off,
}

-- The check that changes nothing foretells the admission at the same time, in every state.
pub can_route-try_admit : (now : ℕ) (b : Breaker) → can_route now b ≡ (try_admit now b).1
unfolding can_route try_admit
can_route-try_admit now b = ground arith

-- A run of admission attempts, each at its own time: the breaker after it, and the grants.
unfoldable pub attempts : List ℕ → Breaker → Breaker × List Bool
attempts [] b = (b, [])
attempts (now ∷ times) b =
    let (b', granted) = try_admit now b in
    let (b'', others) = attempts times b' in (b'', granted ∷ others)

abbrev pub Refused : List Bool → Type 0
Refused = All (λ granted. granted ≡ false)

-- Where each single attempt is refused, the run of them is.
attempts-Refused :
    (P : ℕ → Type 0) (b : Breaker)
    → ((now : ℕ) → P now → try_admit now b ≡ (b, false))
    → (times : List ℕ) → All P times
    → ((attempts times b).0 ≡ b) × Refused (attempts times b).1
unfolding attempts
attempts-Refused P b refuse [] h = (refl, tt)
attempts-Refused P b refuse (now ∷ times) (p, h) =
    let (same, others) = attempts-Refused P b refuse times h in
    rw (refuse now p) (same, (refl, others))

half_open_refused : (now : ℕ) (b : Breaker) → b.state ≡ half_open → try_admit now b ≡ (b, false)
unfolding try_admit
half_open_refused now b h = ground arith

early_refused :
    (t now : ℕ) (b : Breaker)
    → b.state ≡ open_state
    → b.opened_at ≡ some t
    → now < t + cool_off
    → try_admit now b ≡ (b, false)
unfolding try_admit
early_refused t now b o e h = ground arith

All-Unit : (times : List ℕ) → All (λ _. Unit {0}) times
All-Unit [] = tt
All-Unit (now ∷ times) = (tt, All-Unit times)

-- The cycle of one probe that is granted at `now`.
pub record ProbeCycle (now : ℕ) (b : Breaker) : Type 0 where
  pub granted : (try_admit now b).1 ≡ true
  pub single :
      (times : List ℕ)
      → ((attempts times (try_admit now b).0).0 ≡ (try_admit now b).0)
        × Refused (attempts times (try_admit now b).0).1
  pub success :
      (later : ℕ)
      → ((record_outcome later true (try_admit now b).0).state ≡ closed)
        × ((record_outcome later true (try_admit now b).0).window.total ≡ 0)
        × ((record_outcome later true (try_admit now b).0).window.errors ≡ 0)
  pub failure :
      (later : ℕ) (times : List ℕ)
      → All (λ n. n < later + cool_off) times
      → ((record_outcome later false (try_admit now b).0).state ≡ open_state)
        × ((record_outcome later false (try_admit now b).0).opened_at ≡ some later)
        × ((record_outcome later false (try_admit now b).0).probe_in_flight ≡ false)
        × Refused (attempts times (record_outcome later false (try_admit now b).0)).1

-- An open breaker whose cool-off has passed, with no probe under way, grants one probe, and every
-- later attempt is refused with the breaker unchanged until an outcome is recorded. A success closes
-- it, with no request and no error in its window; a failure opens it again at its time, with no probe
-- under way, and no attempt is granted for the whole cool-off.
pub try_admit-ProbeCycle :
    (now t : ℕ) (b : Breaker)
    → b.state ≡ open_state
    → b.opened_at ≡ some t
    → b.probe_in_flight ≡ false
    → t + cool_off ≤ now
    → ProbeCycle now b
unfolding try_admit record_outcome
try_admit-ProbeCycle now t b o e p h = record {
  granted = ground arith;
  single = λ times.
      attempts-Refused (λ _. Unit) (try_admit now b).0
        (λ n _. half_open_refused n (try_admit now b).0 (ground arith)) times (All-Unit times);
  success = λ later. ground arith;
  failure = λ later times early. (
    ground arith,
    ground arith,
    ground arith,
    (attempts-Refused (λ n. n < later + cool_off) (record_outcome later false (try_admit now b).0)
        (λ n e'.
          early_refused later n (record_outcome later false (try_admit now b).0) (ground arith)
            (ground arith) e')
        times early).1,
  );
}
