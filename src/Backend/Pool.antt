-- ===== src/Backend/Pool.antt =====
-- Lookups in the pool, and what an admission changes of it.
use text.Mathlib.Text.{◌==◌ as str_eq}
use text.Mathlib.TextEquality.{eq_iff}
use thttpd_rs.Base.{
  ℕ, ◌≡◌, ◌≢◌, refl, some, List, [], ◌∷◌, String, inl, inr, arith, Bool-cases, Option-cases,
}
use thttpd_rs.Circuit
use thttpd_rs.Circuit.{Breaker}
use thttpd_rs.Backend.{
  Backend, BackendPool, find, get, find_breaker, breaker, store_breaker, put_breaker, breaker_admit,
}

find-name :
    (name : String) (bs : List Backend) (b : Backend) → find name bs ≡ some b → b.name ≡ name
unfolding find
find-name name [] b h = absurd (cc)
find-name name (c ∷ bs) b h = elim (Bool-cases (str_eq c.name name)) [
  | inl e ↦ ground (arith, eq_iff c.name name)
  | inr e ↦ find-name name bs b (rw e at h)
]

-- A backend is found under its own name.
pub get-name :
    (pool : BackendPool) (name : String) (b : Backend) → get pool name ≡ some b → b.name ≡ name
unfolding get
get-name pool name b h = find-name name pool.backends b h

store_breaker-other :
    (name other : String) (v : Breaker) (bs : List (String × Breaker))
    → name ≢ other
    → find_breaker other (store_breaker name v bs) ≡ find_breaker other bs
unfolding find_breaker store_breaker
store_breaker-other name other v [] d = refl
store_breaker-other name other v ((n, b) ∷ bs) d =
    ground (arith, eq_iff n name, eq_iff n other, store_breaker-other name other v bs d)

-- An admission changes no other backend's breaker.
pub breaker_admit-other :
    (now : ℕ) (pool : BackendPool) (name other : String)
    → name ≢ other
    → breaker (breaker_admit now pool name).0 other ≡ breaker pool other
unfolding breaker_admit put_breaker breaker
breaker_admit-other now pool name other d = elim (Option-cases (breaker pool name)) [
  | inl e ↦ rw (e, breaker_admit) refl
  | inr (b, e) ↦
      rw (e, breaker_admit)
        (store_breaker-other name other (Circuit.try_admit now b).0 pool.breakers d)
]

-- Nor a backend.
pub breaker_admit-backends :
    (now : ℕ) (pool : BackendPool) (name : String)
    → (breaker_admit now pool name).0.backends ≡ pool.backends
unfolding breaker_admit put_breaker
breaker_admit-backends now pool name = ground arith
