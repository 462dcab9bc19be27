-- ===== src/Timers/Order.antt =====
-- The heap's order, and how it is kept.
use thttpd_rs.Base.{ℕ, ◌≡◌, ◌≤◌, true, false, List, [], ◌∷◌, All, inl, inr, arith, Bool-cases}
use thttpd_rs.Timers.{TimerEntry, before, push}

-- By deadline alone: what the loops of the wheel depend on.
abbrev pub Sorted : List TimerEntry → Type 0
Sorted [] = Unit
Sorted (e ∷ es) = All (λ x. e.deadline ≤ x.deadline) es × Sorted es

pub push-All :
    (P : TimerEntry → Type 0) (e : TimerEntry) (es : List TimerEntry)
    → P e
    → All P es
    → All P (push e es)
unfolding push
push-All P e [] p h = (p, tt)
push-All P e (x ∷ xs) p (a, h) = elim (Bool-cases (before e x)) [
  | inl b ↦ rw b (p, (a, h))
  | inr b ↦ rw b (a, push-All P e xs p h)
]

All-le_trans :
    (a b : ℕ) (es : List TimerEntry)
    → a ≤ b
    → All (λ x. b ≤ x.deadline) es
    → All (λ x. a ≤ x.deadline) es
All-le_trans a b [] h t = tt
All-le_trans a b (x ∷ xs) h (c, t) = (omega arith, All-le_trans a b xs h t)

before-le : (e x : TimerEntry) → before e x ≡ true → e.deadline ≤ x.deadline
unfolding before
before-le e x h = ground arith

before-ge : (e x : TimerEntry) → before e x ≡ false → x.deadline ≤ e.deadline
unfolding before
before-ge e x h = ground arith

pub push-Sorted : (e : TimerEntry) (es : List TimerEntry) → Sorted es → Sorted (push e es)
unfolding push
push-Sorted e [] h = (tt, tt)
push-Sorted e (x ∷ xs) (a, h) = elim (Bool-cases (before e x)) [
  | inl b ↦
      rw b ((before-le e x b, All-le_trans e.deadline x.deadline xs (before-le e x b) a), (a, h))
  | inr b ↦
      rw b (push-All (λ y. x.deadline ≤ y.deadline) e xs (before-ge e x b) a, push-Sorted e xs h)
]
