-- ===== src/Router/Shadow.antt =====
-- Shadow mode: the primary serves, and the mirror claims nothing.
use text.Mathlib.Text.{◌==◌ as str_eq}
use text.Mathlib.TextEquality.{eq_iff}
use thttpd_rs.Base.{
  ℕ, ◌≡◌, ◌≢◌, sym, ap, true, not, ◌&&◌, Option, none, some, List, String, inl, inr, arith,
  Bool-cases, Option-cases, &&-eq-true,
}
use thttpd_rs.Circuit.{Breaker}
use thttpd_rs.Backend
use thttpd_rs.Backend.{Backend, BackendPool, is_routable, breaker_can_route, breaker_admit}
use thttpd_rs.Backend.Pool.{get-name, breaker_admit-other}
use thttpd_rs.Router.{
  RoutingConfig, RoutingDecision, Surroundings, RoutingMode, primary, mirror, decided, finish,
  decide,
}

-- What a decision in shadow mode is about.
abbrev MirrorOf : ℕ → BackendPool → Option String → Backend → Option Backend → Type 0
MirrorOf now pool configured chosen none = Unit
MirrorOf now pool configured chosen (some m) =
    (configured ≡ some m.name)
    × (m.name ≢ chosen.name)
    × (is_routable m ≡ true)
    × (breaker_can_route now pool m.name ≡ true)

abbrev pub Mirrored :
    ℕ → BackendPool → RoutingConfig → BackendPool × Option RoutingDecision → Type 0
Mirrored now pool routing (after, none) = Unit
Mirrored now pool routing (after, some d) =
    (routing.primary_backend ≡ some d.backend.name)
    × (is_routable d.backend ≡ true)
    × MirrorOf now after routing.shadow_backend d.backend d.shadow
    × ((other : String)
        → other ≢ d.backend.name
        → Backend.breaker after other ≡ Backend.breaker pool other)

names_differ : (a b : String) → not (str_eq a b) ≡ true → a ≢ b
names_differ a b h = ground (arith, eq_iff a b)

mirror-MirrorOf :
    (s : Surroundings) (pool : BackendPool) (routing : RoutingConfig) (chosen : Backend)
    → MirrorOf s.now pool routing.shadow_backend chosen (mirror s pool routing chosen)
unfolding mirror
mirror-MirrorOf s pool routing chosen = elim (Option-cases routing.shadow_backend) [
  | inl e ↦ rw (e, mirror) tt
  | inr (name, e) ↦ elim (Option-cases (Backend.get pool name)) [
    | inl g ↦ rw (e, mirror, g) tt
    | inr (m, g) ↦
        let ok =
          not (str_eq m.name chosen.name) && is_routable m && breaker_can_route s.now pool m.name in
        elim (Bool-cases ok) [
          | inl t ↦
              let (p, route) =
                &&-eq-true (not (str_eq m.name chosen.name) && is_routable m)
                  (breaker_can_route s.now pool m.name) t in
              let (differ, routable) =
                &&-eq-true (not (str_eq m.name chosen.name)) (is_routable m) p in
              rw (mirror, e, g, t)
                (
                  ap some (sym (get-name pool name m g)),
                  names_differ m.name chosen.name differ,
                  routable,
                  route,
                )
          | inr f ↦ rw (mirror, e, g, f) tt
        ]
  ]
]

-- The primary's result: it is the configured one, routable, and no other breaker has changed.
abbrev Primary : BackendPool → RoutingConfig → BackendPool × Option Backend → Type 0
Primary pool routing (after, none) = Unit
Primary pool routing (after, some b) =
    (routing.primary_backend ≡ some b.name)
    × (is_routable b ≡ true)
    × ((other : String) → other ≢ b.name → Backend.breaker after other ≡ Backend.breaker pool other)

primary-Primary :
    (s : Surroundings) (pool : BackendPool) (routing : RoutingConfig)
    → ((k : ℕ) (bs : List (String × Breaker)) → s.interfere k bs ≡ bs)
    → Primary pool routing (primary s pool routing)
unfolding primary
primary-Primary s pool routing quiet = elim (Option-cases routing.primary_backend) [
  | inl e ↦ rw (primary, e) tt
  | inr (name, e) ↦ elim (Option-cases (Backend.get pool name)) [
    | inl g ↦ rw (primary, e, g) tt
    | inr (b, g) ↦
        let open_ = is_routable b && breaker_can_route s.now pool b.name in
        elim (Bool-cases open_) [
          | inr f ↦ rw (primary, e, g, f) tt
          | inl t ↦ elim (Bool-cases (breaker_admit s.now pool b.name).1) [
            | inr refused ↦ rw (primary, e, g, t, quiet 0 pool.breakers, refused) tt
            | inl granted ↦
                rw (primary, e, g, t, quiet 0 pool.breakers, granted)
                  (
                    ap some (sym (get-name pool name b g)),
                    (&&-eq-true _ _ t).0,
                    λ other d. breaker_admit-other s.now pool b.name other (λ q. d (sym q)),
                  )
          ]
        ]
  ]
]

finish-Mirrored :
    (s : Surroundings) (pool : BackendPool) (routing : RoutingConfig)
    (r : BackendPool × Option Backend)
    → routing.mode ≡ RoutingMode.shadow
    → Primary pool routing r
    → Mirrored s.now pool routing (finish s routing r)
unfolding finish
finish-Mirrored s pool routing (after, none) mode h = tt
finish-Mirrored s pool routing (after, some b) mode h =
    rw (mode, finish) (unfold decided in (h.0, h.1, mirror-MirrorOf s after routing b, h.2))

-- In shadow mode, with no other task at work: a decision serves the configured primary, which is
-- routable; a mirror is the configured shadow backend, another one than the primary, routable and let
-- through by its breaker; and no breaker but the primary's has changed, so that no probe of the
-- mirror is claimed.
pub decide-Mirrored :
    (s : Surroundings) (pool : BackendPool) (routing : RoutingConfig)
    → routing.mode ≡ RoutingMode.shadow
    → ((k : ℕ) (bs : List (String × Breaker)) → s.interfere k bs ≡ bs)
    → Mirrored s.now pool routing (decide s pool routing)
unfolding decide
decide-Mirrored s pool routing mode quiet =
    rw (mode, decide)
      (finish-Mirrored s pool routing (primary s pool routing) mode
        (primary-Primary s pool routing quiet))
