-- ===== src/Circuit.antt =====
-- rust/crates/thttpd-migrate/src/circuit.rs: the circuit breaker of one backend.
-- Times are in nanoseconds. A method that reads the clock takes the reading as its argument `now`.
-- `exceeds errors total` stands for `errors as f64 / total as f64 > error_rate_threshold`.
pub mod Invariant
pub mod Probe
pub mod Trips
use thttpd_rs.Base.{
  ℕ, ◌+◌, ◌-◌, ◌*◌, ◌%◌, ◌^◌, Bool, true, false, not, ◌&&◌, Option, none, some, leb, ltb,
  if◌then◌else◌,
}

pub data State : Type 0 where
  closed open_state half_open : State

pub record CircuitConfig : Type 0 where
  pub window_secs : ℕ
  pub min_requests : ℕ
  pub exceeds : ℕ → ℕ → Bool

pub record Window : Type 0 where
  pub errors : ℕ
  pub total : ℕ
  pub started : ℕ

pub record Breaker : Type 0 where
  pub state : State
  pub opened_at : Option ℕ
  pub probe_in_flight : Bool
  pub window : Window
  pub cfg : CircuitConfig

abbrev pub nanos : ℕ
nanos = 1_000_000_000

abbrev pub cool_off : ℕ
cool_off = 5 * nanos

-- `Window { errors: 0, total: 0, started: Instant::now() }`
fresh : ℕ → Window
fresh now = record { errors = 0; total = 0; started = now }

unfoldable pub new : ℕ → CircuitConfig → Breaker
unfolding fresh
new now cfg = record {
  state = closed;
  opened_at = none;
  probe_in_flight = false;
  window = fresh now;
  cfg = cfg;
}

-- `t.elapsed()`: the clock is monotonic, and the subtraction saturates.
elapsed : ℕ → ℕ → ℕ
elapsed now t = now - t

trip : ℕ → Breaker → Breaker
unfolding fresh
trip now b = record b { state = open_state; opened_at = some now; window = fresh now }

close : ℕ → Breaker → Breaker
unfolding fresh
close now b = record b { state = closed; opened_at = none; window = fresh now }

unfoldable pub release_probe : ℕ → Breaker → Breaker
unfolding trip
release_probe now b = elim b.state [
  | half_open ↦ trip now (record b { probe_in_flight = false })
  | _ ↦ b
]

-- The window after one more outcome; it starts afresh once it is older than `window_secs`.
-- The counters are `u32` and wrap.
unfoldable pub counted : ℕ → Bool → CircuitConfig → Window → Window
unfolding elapsed fresh
counted now success cfg w =
    let w' = if ltb (cfg.window_secs * nanos) (elapsed now w.started) then fresh now else w in
    record w' {
      total = (w'.total + 1) % 2 ^ 32;
      errors = if success then w'.errors else (w'.errors + 1) % 2 ^ 32;
    }

-- The last test of `record`.
unfoldable pub over_threshold : CircuitConfig → Window → Bool
over_threshold cfg w = leb cfg.min_requests w.total && cfg.exceeds w.errors w.total

record_counted : ℕ → Bool → Breaker → Breaker
unfolding counted over_threshold trip
record_counted now success b =
    let w = counted now success b.cfg b.window in
    if over_threshold b.cfg w then trip now (record b { window = w }) else record b { window = w }

unfoldable pub record_outcome : ℕ → Bool → Breaker → Breaker
unfolding record_counted trip close
record_outcome now success b = elim b.state [
  | half_open ↦
      if success
      then close now (record b { probe_in_flight = false })
      else trip now (record b { probe_in_flight = false })
  | _ ↦ record_counted now success b
]

cooled : ℕ → Breaker → Bool
unfolding elapsed
cooled now b = elim b.opened_at [ none ↦ false | some t ↦ leb cool_off (elapsed now t) ]

unfoldable pub can_route : ℕ → Breaker → Bool
unfolding cooled
can_route now b = elim b.state [
  | closed ↦ true
  | open_state ↦ cooled now b && not b.probe_in_flight
  | half_open ↦ false
]

-- The compare-exchange on `probe_in_flight` and what follows it.
claim : Breaker → Breaker × Bool
claim b =
    if b.probe_in_flight
    then (b, false)
    else (record b { probe_in_flight = true; state = half_open }, true)

unfoldable pub try_admit : ℕ → Breaker → Breaker × Bool
unfolding cooled claim
try_admit now b = elim b.state [
  | closed ↦ (b, true)
  | open_state ↦ if cooled now b then claim b else (b, false)
  | half_open ↦ (b, false)
]

unfoldable pub allows : ℕ → Breaker → Breaker × Bool
unfolding try_admit
allows now b = try_admit now b
