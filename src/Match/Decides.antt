-- ===== src/Match/Decides.antt =====
-- The matcher decides what its patterns mean.
use thttpd_rs.Base.{
  ℕ, ◌≡◌, ◌≢◌, refl, ◌↔◌, ◌⊎◌, inl, inr, Bool, true, false, not, List, [], ◌∷◌, Bytes, ◌==◌,
  is_empty, contains, split, Any, arith, Bool-cases, ==_iff, sym, ◌∙◌,
}
use mathlib.Core.Bool.{false≢true}
use thttpd_rs.Match.{one, try_all, try_run, double_star, match_single, any_single, match_pattern}
use thttpd_rs.Match.Spec.{
  Item, lit, one_byte, star, globstar, item_of, item_of-star, items, Matches, nothing, same,
  any_one, leave, take, leave_all, take_all,
}

-- `next` answers the question that the items `p` pose.
abbrev Answers : (Bytes → Bool) → List Item → Type 0
Answers next p = (s : Bytes) → (next s ≡ true) ↔ Matches p s

is_empty-Answers : Answers is_empty []
is_empty-Answers [] = (λ e. nothing, λ d. refl)
is_empty-Answers (x ∷ s) = (λ e. cc, λ d. elim d [ ])

module _ {p : List Item} where
  star_inv :
      {x : ℕ} {s : Bytes}
      → Matches (star ∷ p) (x ∷ s)
      → Matches p (x ∷ s) ⊎ ((x ≢ b'/') × Matches (star ∷ p) s)
  star_inv (leave d) = inl d
  star_inv (take h d) = inr (h, d)

  star_nil : Matches (star ∷ p) [] → Matches p []
  star_nil (leave d) = d

  globstar_inv :
      {x : ℕ} {s : Bytes}
      → Matches (globstar ∷ p) (x ∷ s)
      → Matches p (x ∷ s) ⊎ Matches (globstar ∷ p) s
  globstar_inv (leave_all d) = inl d
  globstar_inv (take_all d) = inr d

  globstar_nil : Matches (globstar ∷ p) [] → Matches p []
  globstar_nil (leave_all d) = d

  lit_inv : {c x : ℕ} {s : Bytes} → Matches (lit c ∷ p) (x ∷ s) → (x ≡ c) × Matches p s
  lit_inv (same e d) = (e, d)

  one_inv : {x : ℕ} {s : Bytes} → Matches (one_byte ∷ p) (x ∷ s) → Matches p s
  one_inv (any_one d) = d

module _ (next : Bytes → Bool) (p : List Item) (h : Answers next p) where
  try_all-Answers : Answers (try_all next) (globstar ∷ p)
  unfolding try_all
  try_all-Answers [] = (λ e. leave_all ((h []).0 e), λ d. (h []).1 (globstar_nil d))
  try_all-Answers (x ∷ s) = (
    λ e. elim (Bool-cases (next (x ∷ s))) [
      | inl now ↦ leave_all ((h (x ∷ s)).0 now)
      | inr later ↦ take_all ((try_all-Answers s).0 (ground arith))
    ],
    λ d. elim (globstar_inv d) [
      | inl now ↦ rw ((h (x ∷ s)).1 now)
      | inr later ↦ ground (arith, (try_all-Answers s).1 later)
    ],
  )

  try_run-Answers : Answers (try_run next) (star ∷ p)
  unfolding try_run
  try_run-Answers [] = (λ e. leave ((h []).0 e), λ d. (h []).1 (star_nil d))
  try_run-Answers (x ∷ s) = (
    λ e. elim (Bool-cases (next (x ∷ s))) [
      | inl now ↦ leave ((h (x ∷ s)).0 now)
      | inr later ↦ take (ground arith) ((try_run-Answers s).0 (ground arith))
    ],
    λ d. elim (star_inv d) [
      | inl now ↦ rw ((h (x ∷ s)).1 now)
      | inr (slash, later) ↦ ground (arith, (try_run-Answers s).1 later)
    ],
  )

  one-Answers-any : Answers (one b'?' next) (one_byte ∷ p)
  unfolding one
  one-Answers-any [] = (λ e. cc, λ d. elim d [ ])
  one-Answers-any (x ∷ s) = (λ e. any_one ((h s).0 e), λ d. (h s).1 (one_inv d))

  one-Answers-lit : (c : ℕ) → c ≢ b'?' → Answers (one c next) (lit c ∷ p)
  unfolding one
  one-Answers-lit c q [] = (λ e. cc, λ d. elim d [ ])
  one-Answers-lit c q (x ∷ s) = (
    λ e. same (ground arith) ((h s).0 (ground arith)),
    λ d. ground (arith, (lit_inv d).0, (h s).1 (lit_inv d).1),
  )

contains_iff : Answers (λ s. not (contains b'/' s)) (star ∷ [])
contains_iff [] = (λ e. leave nothing, λ d. refl)
contains_iff (x ∷ s) = (
  λ e. take (ground arith) ((contains_iff s).0 (ground arith)),
  λ d. elim (star_inv d) [
    | inl now ↦ elim now [ ]
    | inr (slash, later) ↦ ground (arith, (contains_iff s).1 later)
  ],
)

trailing_globstar : (s : Bytes) → Matches (globstar ∷ []) s
trailing_globstar [] = leave_all nothing
trailing_globstar (x ∷ s) = take_all (trailing_globstar s)

double_star-Answers :
    (p : Bytes) (next : Bytes → Bool)
    → Answers next (items p)
    → Answers (double_star p next) (globstar ∷ items p)
unfolding double_star items
double_star-Answers [] next h s = (λ e. trailing_globstar s, λ d. refl)
double_star-Answers (c ∷ p) next h s = try_all-Answers next (items (c ∷ p)) h s

-- One byte of the pattern that is no star.
one-Answers :
    (c : ℕ) (next : Bytes → Bool) (p : List Item)
    → (c == b'*') ≡ false
    → Answers next p
    → Answers (one c next) (item_of c ∷ p)
unfolding item_of
one-Answers c next p no_star h = elim (Bool-cases (c == b'?')) [
  | inl e ↦ rw ((==_iff c b'?').0 e) (one-Answers-any next p h)
  | inr e ↦ rw (e, no_star) (one-Answers-lit next p h c (λ q. ground arith))
]

-- The matcher answers true exactly on the names that match the pattern's items.
pub match_single-Matches : (p s : Bytes) → (match_single p s ≡ true) ↔ Matches (items p) s
unfolding match_single items
match_single-Matches [] s = is_empty-Answers s
match_single-Matches (c ∷ []) s = elim (Bool-cases (c == b'*')) [
  | inl e ↦ rw ((==_iff c b'*').0 e, item_of-star) (contains_iff s)
  | inr e ↦ rw e (one-Answers c (match_single []) [] e (match_single-Matches []) s)
]
match_single-Matches (c ∷ d ∷ p) s = elim (Bool-cases (c == b'*')) [
  | inl e ↦ elim (Bool-cases (d == b'*')) [
    | inl e' ↦ rw (e, e') (double_star-Answers p (match_single p) (match_single-Matches p) s)
    | inr e' ↦
        rw ((==_iff c b'*').0 e, e', item_of-star)
          (try_run-Answers (match_single (d ∷ p)) (items (d ∷ p)) (match_single-Matches (d ∷ p)) s)
  ]
  | inr e ↦
      rw e (one-Answers c (match_single (d ∷ p)) (items (d ∷ p)) e (match_single-Matches (d ∷ p)) s)
]

any_single-Matches :
    (subs : List Bytes) (s : Bytes)
    → (any_single subs s ≡ true) ↔ Any (λ sub. Matches (items sub) s) subs
unfolding any_single
any_single-Matches [] s = (λ e. cc, λ d. absurd d)
any_single-Matches (sub ∷ subs) s = elim (Bool-cases (match_single sub s)) [
  | inl e ↦ rw e (λ _. inl ((match_single-Matches sub s).0 e), λ _. refl)
  | inr e ↦ rw e (
    λ h. inr ((any_single-Matches subs s).0 h),
    λ d. elim d [
      | inl m ↦ absurd (false≢true (sym e ∙ (match_single-Matches sub s).1 m))
      | inr m ↦ (any_single-Matches subs s).1 m
    ],
  )
]

-- A pattern matches a name exactly if one of its alternatives, the pieces between bars, does.
pub match_pattern-Matches :
    (pattern filename : Bytes)
    → (match_pattern pattern filename ≡ true)
      ↔ Any (λ sub. Matches (items sub) filename) (split b'|' pattern)
unfolding match_pattern
match_pattern-Matches pattern filename = any_single-Matches (split b'|' pattern) filename
