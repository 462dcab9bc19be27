-- ===== src/Live/Rollback.antt =====
-- What a rollback makes of the weights, and whom the router then chooses.
use text.Mathlib.Text.{◌==◌ as str_eq}
use text.Mathlib.TextEquality.{eq_iff}
use thttpd_rs.Base.{
  ℕ, ◌≡◌, ◌≢◌, ◌<◌, refl, sym, ◌∙◌, ap, ap₂, subst, true, false, List, [], ◌∷◌, Option, none, some,
  String, ◌⊎◌, inl, inr, map, All, arith, Bool-cases,
}
use thttpd_rs.Backend
use thttpd_rs.Backend.{Backend, BackendPool, get, weight, set_weight}
use thttpd_rs.Router.{RoutingConfig, RoutingDecision, RoutingMode, Surroundings, decide}
use thttpd_rs.Router.Draw.{All-Among}
use thttpd_rs.Router.Chosen.{Draws, Sound, decide-Sound}
use thttpd_rs.Live.{
  LiveState, ProxyConfig, Weights, set_named, apply_weights, applied, rollback_weight,
  rollback_weights, rollback, promoted, other_than, first_other, or_else, names,
}

Mentioned : String → Weights → Type 0
Mentioned name [] = ⊥
Mentioned name ((n, _) ∷ ws) = (n ≡ name) ⊎ Mentioned name ws

-- It has the weight that the code gives its name.
abbrev Given : String → Backend → Type 0
Given target b = weight b ≡ rollback_weight target b.name

-- The target has weight 100, and every other backend weight 0.
abbrev pub RolledBack : String → Backend → Type 0
RolledBack target b = (b.name ≡ target → weight b ≡ 100) × (b.name ≢ target → weight b ≡ 0)

Given-RolledBack : (target : String) (b : Backend) → Given target b → RolledBack target b
unfolding rollback_weight
Given-RolledBack target b g =
    let same = eq_iff b.name target in
    elim (Bool-cases (str_eq b.name target)) [
      | inl e ↦ (λ n. rw e at g, λ n. absurd (n (same.0 e)))
      | inr e ↦ (λ n. absurd (cc (e, same.1 n)), λ n. rw e at g)
    ]

-- It has its weight, or a later entry of the map gives it.
Settles : String → Weights → Backend → Type 0
unfolding Mentioned
Settles target ws b = Given target b ⊎ Mentioned b.name ws

All-map :
    (P Q : Backend → Type 0) (f : Backend → Backend) (bs : List Backend)
    → ((b : Backend) → P b → Q (f b))
    → All P bs
    → All Q (map f bs)
All-map P Q f [] g h = tt
All-map P Q f (b ∷ bs) g (a, h) = (g b a, All-map P Q f bs g h)

All-imp :
    (P Q : Backend → Type 0) (bs : List Backend) → ((b : Backend) → P b → Q b) → All P bs → All Q bs
All-imp P Q [] g h = tt
All-imp P Q (b ∷ bs) g (a, h) = (g b a, All-imp P Q bs g h)

set_named-Settles :
    (target name : String) (w : ℕ) (ws : Weights) (b : Backend)
    → w ≡ rollback_weight target name
    → Settles target ((name, w) ∷ ws) b
    → Settles target ws (set_named name w b)
unfolding set_named Settles Mentioned set_weight
set_named-Settles target name w ws b v s = elim (Bool-cases (str_eq b.name name)) [
  | inl e ↦ rw e (inl (v ∙ ap (rollback_weight target) (sym ((eq_iff b.name name).0 e))))
  | inr e ↦ rw e (elim s [
    | inl done ↦ inl done
    | inr m ↦ elim m [
      | inl n ↦ absurd (cc (e, (eq_iff b.name name).1 (sym n)))
      | inr later ↦ inr later
    ]
  ])
]

apply_weights-Given :
    (target : String) (ws : Weights) (bs : List Backend)
    → All (λ p. p.1 ≡ rollback_weight target p.0) ws
    → All (Settles target ws) bs
    → All (Given target) (apply_weights ws bs)
unfolding apply_weights Settles Mentioned
apply_weights-Given target [] bs v h =
    All-imp (Settles target []) (Given target) bs
      (λ b s. elim s [ inl done ↦ done | inr m ↦ absurd m ]) h
apply_weights-Given target ((name, w) ∷ ws) bs (a, v) h =
    apply_weights-Given target ws (map (set_named name w) bs) v (
      All-map (Settles target ((name, w) ∷ ws)) (Settles target ws) (set_named name w) bs
        (λ b s. set_named-Settles target name w ws b a s) h)

rollback_weights-values :
    (target : String) (bs : List Backend)
    → All (λ p. p.1 ≡ rollback_weight target p.0) (rollback_weights target bs)
unfolding rollback_weights
rollback_weights-values target [] = tt
rollback_weights-values target (b ∷ bs) = (refl, rollback_weights-values target bs)

rollback_weights-Settles :
    (target : String) (bs : List Backend) → All (Settles target (rollback_weights target bs)) bs
unfolding rollback_weights Settles Mentioned
rollback_weights-Settles target [] = tt
rollback_weights-Settles target (b ∷ bs) = (
  inr (inl refl),
  All-imp (Settles target (rollback_weights target bs))
      (Settles target (rollback_weights target (b ∷ bs))) bs
      (λ c s. elim s [ inl done ↦ inl done | inr m ↦ inr (inr m) ])
      (rollback_weights-Settles target bs),
)

set_weight-name : (name : String) (w : ℕ) (b : Backend) → (set_named name w b).name ≡ b.name
unfolding set_named set_weight
set_weight-name name w b = ground arith

names-map :
    (name : String) (w : ℕ) (bs : List Backend)
    → map (λ b. b.name) (map (set_named name w) bs) ≡ map (λ b. b.name) bs
names-map name w [] = refl
names-map name w (b ∷ bs) = ap₂ (λ n ns. n ∷ ns) (set_weight-name name w b) (names-map name w bs)

names-apply_weights :
    (ws : Weights) (bs : List Backend)
    → map (λ b. b.name) (apply_weights ws bs) ≡ map (λ b. b.name) bs
unfolding apply_weights
names-apply_weights [] bs = refl
names-apply_weights ((name, w) ∷ ws) bs =
    names-apply_weights ws (map (set_named name w) bs) ∙ names-map name w bs

-- A rollback to a backend of the pool is accepted; the pool keeps its backends by their names, the
-- target has weight 100 and every other backend weight 0.
pub rollback-RolledBack :
    (s : LiveState) (pool : BackendPool) (target : String) (b : Backend)
    → get pool target ≡ some b
    → ((rollback s pool target).1 ≡ none)
      × (map (λ b. b.name) (rollback s pool target).0.1.backends ≡ map (λ b. b.name) pool.backends)
      × All (RolledBack target) (rollback s pool target).0.1.backends
unfolding rollback applied
rollback-RolledBack s pool target b h =
    let ws = rollback_weights target pool.backends in
    rw (h, rollback)
      (
        refl,
        names-apply_weights ws pool.backends,
        All-imp (Given target) (RolledBack target) (apply_weights ws pool.backends)
            (Given-RolledBack target)
            (apply_weights-Given target ws pool.backends
              (rollback_weights-values target pool.backends)
              (rollback_weights-Settles target pool.backends)),
      )

weighty-target :
    (target : String) (b : Backend) → RolledBack target b → 0 < weight b → b.name ≡ target
weighty-target target b r w = elim (Bool-cases (str_eq b.name target)) [
  | inl e ↦ (eq_iff b.name target).0 e
  | inr e ↦
      let empty = r.1 (λ n. cc (e, (eq_iff b.name target).1 n)) in absurd (omega (arith, empty))
]

some-injective {ℓ} : {A : Type ℓ} {a b : A} → some a ≡ some b → a ≡ b
some-injective e = cc

Sound-target :
    (target : String) (now : ℕ) (pool : BackendPool) (r : BackendPool × Option RoutingDecision)
    (d : RoutingDecision)
    → All (RolledBack target) pool.backends
    → Sound now pool r
    → r.1 ≡ some d
    → d.backend.name ≡ target
Sound-target target now pool (after, none) d h s e = absurd (cc)
Sound-target target now pool (after, some c) d h s e =
    let settled : RolledBack target c.backend =
      All-Among (RolledBack target) pool.backends c.backend h s.0.member in
    subst (λ x. x.backend.name ≡ target) (some-injective e)
      (weighty-target target c.backend settled s.0.weighty)

-- After a rollback, a decision in active-active or canary mode on the pool that it left chooses the
-- target, whatever is drawn and whatever happens to the breakers.
pub decide-rollback :
    (around : Surroundings) (s : LiveState) (pool : BackendPool) (target : String) (b : Backend)
    (routing : RoutingConfig) (d : RoutingDecision)
    → get pool target ≡ some b
    → Draws routing.mode
    → (decide around (rollback s pool target).0.1 routing).1 ≡ some d
    → d.backend.name ≡ target
decide-rollback around s pool target b routing d known mode h =
    Sound-target target around.now (rollback s pool target).0.1
      (decide around (rollback s pool target).0.1 routing) d
      (rollback-RolledBack s pool target b known).2
      (decide-Sound around (rollback s pool target).0.1 routing mode) h

distinct-some : (target n : String) → str_eq n target ≡ false → some n ≢ some target
distinct-some target n h e = absurd (cc (h, (eq_iff n target).1 (some-injective e)))

other_than-differs : (target : String) (o : Option String) → other_than target o ≢ some target
unfolding other_than
other_than-differs target none = λ e. absurd (cc)
other_than-differs target (some n) = elim (Bool-cases (str_eq n target)) [
  | inl e ↦ rw e (λ h. absurd (cc))
  | inr e ↦ rw e (distinct-some target n e)
]

first_other-differs :
    (target : String) (cs : List (String × Backend.BackendConfig))
    → first_other target cs ≢ some target
unfolding first_other
first_other-differs target [] = λ e. absurd (cc)
first_other-differs target ((n, _) ∷ cs) = elim (Bool-cases (str_eq n target)) [
  | inl e ↦ rw e (first_other-differs target cs)
  | inr e ↦ rw e (distinct-some target n e)
]

or_else-differs :
    (target : String) (a b : Option String)
    → a ≢ some target
    → b ≢ some target
    → or_else a b ≢ some target
or_else-differs target none b p q = q
or_else-differs target (some n) b p q = p

names-none : (target : String) (o : Option String) → names o target ≡ true → o ≡ some target
unfolding names
names-none target none h = absurd (cc)
names-none target (some n) h = ap some ((eq_iff n target).0 h)

promoted_primary :
    (target : String) (cfg : ProxyConfig)
    → cfg.routing.mode ≡ RoutingMode.shadow
    → ((promoted target cfg).routing.primary_backend ≡ some target)
      × (cfg.routing.primary_backend ≢ some target
          → (promoted target cfg).routing.shadow_backend ≢ some target)
promoted_primary target cfg mode = elim (Bool-cases (names cfg.routing.primary_backend target)) [
  | inl e ↦
      let already = names-none target cfg.routing.primary_backend e in
      unfold promoted in rw (mode, e) (already, λ d. absurd (d already))
  | inr e ↦
      unfold promoted in
      rw (mode, e)
        (
          refl,
          λ _.
              or_else-differs target (other_than target cfg.routing.primary_backend) _
                (other_than-differs target cfg.routing.primary_backend)
                (or_else-differs target (other_than target cfg.routing.shadow_backend) _
                  (other_than-differs target cfg.routing.shadow_backend)
                  (first_other-differs target cfg.backends)),
        )
]

-- In shadow mode the rollback makes the target the primary, and where it was not, mirrors to another
-- backend or none.
pub rollback_primary :
    (s : LiveState) (pool : BackendPool) (target : String) (b : Backend)
    → get pool target ≡ some b
    → s.config.routing.mode ≡ RoutingMode.shadow
    → ((rollback s pool target).0.0.config.routing.primary_backend ≡ some target)
      × (s.config.routing.primary_backend ≢ some target
          → (rollback s pool target).0.0.config.routing.shadow_backend ≢ some target)
unfolding rollback applied
rollback_primary s pool target b known mode =
    rw (known, rollback)
      (promoted_primary target (applied (rollback_weights target pool.backends) s pool).0.config
        mode)
