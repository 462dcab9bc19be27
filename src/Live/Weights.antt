-- ===== src/Live/Weights.antt =====
-- What a change of weights makes of the pool.
use text.Mathlib.Text.{◌==◌ as str_eq}
use text.Mathlib.TextEquality.{eq_iff}
use thttpd_rs.Base.{
  ℕ, ◌+◌, ◌≡◌, ◌≢◌, ◌<◌, refl, sym, ◌∙◌, ap, true, false, List, [], ◌∷◌, Option, none, some, String,
  inl, inr, map, All, arith, ltb, Bool-cases,
}
use thttpd_rs.Backend.{Backend, BackendPool, weight, set_weight}
use thttpd_rs.Router.Draw.{sum_weights}
use thttpd_rs.Live.{
  LiveState, Weights, Refusal, lookup, all_known, prospective, prospective_total, set_named,
  apply_weights, applied, set_weights,
}

-- The names of a map are its keys.
abbrev pub Unique : Weights → Type 0
Unique [] = Unit
Unique ((n, _) ∷ ws) = All (λ p. p.0 ≢ n) ws × Unique ws

lookup-fresh : (name : String) (ws : Weights) → All (λ p. p.0 ≢ name) ws → lookup name ws ≡ none
unfolding lookup
lookup-fresh name [] h = refl
lookup-fresh name ((n, w) ∷ ws) (d, h) = elim (Bool-cases (str_eq n name)) [
  | inl e ↦ absurd (d ((eq_iff n name).0 e))
  | inr e ↦ rw e (lookup-fresh name ws h)
]

str_eq_sym : (a b : String) → str_eq a b ≡ false → str_eq b a ≡ false
str_eq_sym a b h = elim (Bool-cases (str_eq b a)) [
  | inl e ↦ absurd (cc (h, (eq_iff a b).1 (sym ((eq_iff b a).0 e))))
  | inr e ↦ e
]

prospective-none :
    (ws : Weights) (b : Backend) → lookup b.name ws ≡ none → prospective ws b ≡ weight b
unfolding prospective
prospective-none ws b h = rw (h, prospective) refl

prospective-some :
    (w : ℕ) (ws : Weights) (b : Backend) → lookup b.name ws ≡ some w → prospective ws b ≡ w
unfolding prospective
prospective-some w ws b h = rw (h, prospective) refl

prospective_same :
    (ws vs : Weights) (b : Backend)
    → lookup b.name ws ≡ lookup b.name vs
    → prospective ws b ≡ prospective vs b
unfolding prospective
prospective_same ws vs b h = rw (h, prospective) refl

prospective-set_named :
    (name : String) (w : ℕ) (ws : Weights) (b : Backend)
    → All (λ p. p.0 ≢ name) ws
    → prospective ws (set_named name w b) ≡ prospective ((name, w) ∷ ws) b
unfolding set_named set_weight
prospective-set_named name w ws b h = elim (Bool-cases (str_eq b.name name)) [
  | inl e ↦
      let same = (eq_iff b.name name).0 e in
      let fresh : lookup b.name ws ≡ none = rw same (lookup-fresh name ws h) in
      let found : str_eq name b.name ≡ true = (eq_iff name b.name).1 (sym same) in
      let here : lookup b.name ((name, w) ∷ ws) ≡ some w = unfold lookup in rw found refl in
      rw e (
        prospective-none ws (set_weight w b) fresh
        ∙ sym (prospective-some w ((name, w) ∷ ws) b here))
  | inr e ↦
      let passed : lookup b.name ((name, w) ∷ ws) ≡ lookup b.name ws =
        unfold lookup in rw (str_eq_sym b.name name e) refl in
      rw e (prospective_same ws ((name, w) ∷ ws) b (sym passed))
]

map-map_named :
    (name : String) (w : ℕ) (ws : Weights) (bs : List Backend)
    → All (λ p. p.0 ≢ name) ws
    → map (prospective ws) (map (set_named name w) bs) ≡ map (prospective ((name, w) ∷ ws)) bs
map-map_named name w ws [] h = refl
map-map_named name w ws (b ∷ bs) h =
    rw (prospective-set_named name w ws b h, map-map_named name w ws bs h) refl

prospective-nil : (bs : List Backend) → map weight bs ≡ map (prospective []) bs
unfolding prospective lookup
prospective-nil [] = refl
prospective-nil (b ∷ bs) = ap (λ r. weight b ∷ r) (prospective-nil bs)

apply_weights-prospective :
    (ws : Weights) (bs : List Backend)
    → Unique ws
    → map weight (apply_weights ws bs) ≡ map (prospective ws) bs
unfolding apply_weights
apply_weights-prospective [] bs u = prospective-nil bs
apply_weights-prospective ((name, w) ∷ ws) bs (d, u) =
    apply_weights-prospective ws (map (set_named name w) bs) u ∙ map-map_named name w ws bs d

sum_of : List ℕ → ℕ
sum_of [] = 0
sum_of (n ∷ ns) = n + sum_of ns

sum_weights-sum_of : (bs : List Backend) → sum_weights bs ≡ sum_of (map weight bs)
unfolding sum_of
sum_weights-sum_of [] = refl
sum_weights-sum_of (b ∷ bs) = ap (λ r. weight b + r) (sum_weights-sum_of bs)

prospective_total-positive :
    (ws : Weights) (bs : List Backend)
    → 0 < prospective_total ws bs
    → 0 < sum_of (map (prospective ws) bs)
unfolding prospective_total sum_of
prospective_total-positive ws [] h = h
prospective_total-positive ws (b ∷ bs) h = elim (Bool-cases (ltb 0 (prospective_total ws bs))) [
  | inl e ↦ omega (arith, prospective_total-positive ws bs (ground arith))
  | inr e ↦
      let nothing : prospective_total ws bs ≡ 0 = ground arith in omega (arith, rw nothing at h)
]

-- What a change of weights promises of its answer.
abbrev pub Changed :
    LiveState → BackendPool → Weights → (LiveState × BackendPool) × Option Refusal → Type 0
Changed s pool ws (after, some r) = after ≡ (s, pool)
Changed s pool ws (after, none) =
    (map weight after.1.backends ≡ map (prospective ws) pool.backends)
    × (0 < sum_weights after.1.backends)

-- A change of weights that is refused leaves the state and the pool as they were. One that is accepted
-- gives each backend its new weight, or the old one where the map does not name it, and the weights
-- do not add up to zero.
pub set_weights-Changed :
    (s : LiveState) (pool : BackendPool) (ws : Weights)
    → Unique ws
    → Changed s pool ws (set_weights s pool ws)
unfolding set_weights applied
set_weights-Changed s pool ws u = elim (Bool-cases (all_known pool ws)) [
  | inl k ↦ elim (Bool-cases (ltb 0 (prospective_total ws pool.backends))) [
    | inl t ↦
        let weights = apply_weights-prospective ws pool.backends u in
        rw (k, t)
          (
            weights,
            rw (sum_weights-sum_of (apply_weights ws pool.backends), weights)
                (prospective_total-positive ws pool.backends (ground arith)),
          )
    | inr t ↦ rw (k, t) refl
  ]
  | inr k ↦ rw k refl
]
