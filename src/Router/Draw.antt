-- ===== src/Router/Draw.antt =====
-- The weighted draw: how the picks are shared out.
use thttpd_rs.Base.{
  ℕ, ◌+◌, ◌%◌, ◌^◌, ◌≡◌, ◌≤◌, ◌<◌, refl, ◌∙◌, false, some, List, [], ◌∷◌, ◌++◌, Any, All,
  Option-cases, subst, inl, inr, arith, ltb, Bool-cases,
}
use thttpd_rs.Backend.{Backend, weight}
use thttpd_rs.Router.{total_weight, draw, selected, last, or_else}

-- The sum of the weights as a number, with no wrap-around.
abbrev pub sum_weights : List Backend → ℕ
sum_weights [] = 0
sum_weights (b ∷ bs) = weight b + sum_weights bs

pub total_weight-sum :
    (bs : List Backend) → sum_weights bs < 2 ^ 32 → total_weight bs ≡ sum_weights bs
unfolding total_weight
total_weight-sum [] h = refl
total_weight-sum (b ∷ bs) h = omega (arith, total_weight-sum bs (omega arith))

draw_at :
    (pre : List Backend) (b : Backend) (post : List Backend) (pick acc : ℕ)
    → acc + sum_weights (pre ++ b ∷ post) < 2 ^ 32
    → acc + sum_weights pre ≤ pick
    → pick < acc + sum_weights pre + weight b
    → draw pick acc (pre ++ b ∷ post) ≡ some b
unfolding draw
draw_at [] b post pick acc fits lo hi = ground arith
draw_at (p ∷ pre) b post pick acc fits lo hi =
    let next : (acc + weight p) % 2 ^ 32 ≡ acc + weight p = omega arith in
    let not_yet : ltb pick (acc + weight p) ≡ false = ground arith in
    rw (next, not_yet)
      (draw_at pre b post pick (acc + weight p) (omega arith) (omega arith) (omega arith))

-- Where the weights add up to a `u32`, a backend is selected by each pick from the sum of the weights
-- before it on, as many picks as its weight says.
pub selected-share :
    (pre : List Backend) (b : Backend) (post : List Backend) (pick : ℕ)
    → sum_weights (pre ++ b ∷ post) < 2 ^ 32
    → sum_weights pre ≤ pick
    → pick < sum_weights pre + weight b
    → selected pick (pre ++ b ∷ post) ≡ some b
unfolding selected
selected-share pre b post pick fits lo hi =
    rw (draw_at pre b post pick 0 (omega arith) (omega arith) (omega arith))

-- A backend stands in a list.
abbrev pub Among : Backend → List Backend → Type 0
Among b = Any (λ c. c ≡ b)

some_inj : {a b : Backend} → some a ≡ some b → a ≡ b
some_inj e = cc

draw-Among :
    (bs : List Backend) (pick acc : ℕ) (b : Backend) → draw pick acc bs ≡ some b → Among b bs
unfolding draw
draw-Among [] pick acc b e = absurd (cc)
draw-Among (c ∷ bs) pick acc b e = elim (Bool-cases (ltb pick ((acc + weight c) % 2 ^ 32))) [
  | inl now ↦ inl (some_inj (rw now at e))
  | inr later ↦ inr (draw-Among bs pick ((acc + weight c) % 2 ^ 32) b (rw later at e))
]

last-Among : (bs : List Backend) (b : Backend) → last bs ≡ some b → Among b bs
unfolding last
last-Among [] b e = absurd (cc)
last-Among (c ∷ []) b e = inl (some_inj e)
last-Among (c ∷ d ∷ bs) b e = inr (last-Among (d ∷ bs) b e)

-- What is selected is one of the candidates.
pub selected-Among :
    (bs : List Backend) (pick : ℕ) (b : Backend) → selected pick bs ≡ some b → Among b bs
unfolding selected
selected-Among bs pick b e = elim (Option-cases (draw pick 0 bs)) [
  | inl missed ↦ last-Among bs b (rw (missed, or_else) at e)
  | inr (c, hit) ↦ draw-Among bs pick 0 b (hit ∙ rw (hit, or_else) at e)
]

last-some : (b : Backend) (bs : List Backend) → (c : Backend) × (last (b ∷ bs) ≡ some c)
unfolding last
last-some b [] = (b, refl)
last-some b (c ∷ bs) = last-some c bs

-- From one candidate on, some candidate is selected, whatever the pick.
pub selected-some :
    (b : Backend) (bs : List Backend) (pick : ℕ) → (c : Backend) × (selected pick (b ∷ bs) ≡ some c)
unfolding selected
selected-some b bs pick = elim (Option-cases (draw pick 0 (b ∷ bs))) [
  | inl missed ↦ let (c, e) = last-some b bs in (c, rw (missed, or_else) e)
  | inr (c, hit) ↦ (c, rw (hit, or_else) refl)
]

pub All-Among :
    (P : Backend → Type 0) (bs : List Backend) (b : Backend) → All P bs → Among b bs → P b
All-Among P [] b h m = absurd m
All-Among P (c ∷ bs) b h (inl e) = subst P e h.0
All-Among P (c ∷ bs) b h (inr m) = All-Among P bs b h.1 m
