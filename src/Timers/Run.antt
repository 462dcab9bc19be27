-- ===== src/Timers/Run.antt =====
-- What a run of the wheel fires, and that it ends.
use thttpd_rs.Base.{
  ℕ, ◌+◌, ◌≡◌, ◌≢◌, ◌≤◌, ◌<◌, refl, sym, ap, false, ◌||◌, List, [], ◌∷◌, some, ◌==◌, ==_iff, leb,
  if◌then◌else◌, All, inl, inr, arith, Bool-cases, length,
}
use thttpd_rs.Timers.{TimerEntry, before, push, member, remove}
use thttpd_rs.Timers.Order.{push-All}

abbrev pub Distinct : List TimerEntry → Type 0
Distinct [] = Unit
Distinct (e ∷ es) = All (λ x. e.id ≢ x.id) es × Distinct es

-- A periodic timer has a period above zero.
abbrev pub Ticks : TimerEntry → Type 0
Ticks e = (p : ℕ) → e.period ≡ some p → 0 < p

-- The callbacks of the timers that are due and not cancelled, in the order of the heap.
unfoldable pub due : ℕ → List ℕ → List TimerEntry → List ℕ
due now cancelled [] = []
due now cancelled (e ∷ es) =
    let rest = due now cancelled es in
    if member e.id cancelled then rest else if leb e.deadline now then e.callback ∷ rest else rest

-- An entry that the loop has still to take.
unfoldable pub pending : ℕ → List ℕ → TimerEntry → ℕ
pending now cancelled e = if member e.id cancelled || leb e.deadline now then 1 else 0

unfoldable pub count : ℕ → List ℕ → List TimerEntry → ℕ
unfolding pending
count now cancelled [] = 0
count now cancelled (e ∷ es) = pending now cancelled e + count now cancelled es

member-remove_other : (x id : ℕ) (c : List ℕ) → id ≢ x → member x (remove id c) ≡ member x c
unfolding member remove
member-remove_other x id [] d = refl
member-remove_other x id (y ∷ c) d = elim (Bool-cases (y == id)) [
  | inl e ↦
      let other : (y == x) ≡ false = ground (arith, ==_iff y id) in
      rw (e, other) (member-remove_other x id c d)
  | inr e ↦ rw e (ap (λ r. y == x || r) (member-remove_other x id c d))
]

pub due-remove :
    (now id : ℕ) (c : List ℕ) (es : List TimerEntry)
    → All (λ x. id ≢ x.id) es
    → due now (remove id c) es ≡ due now c es
unfolding due
due-remove now id c [] h = refl
due-remove now id c (e ∷ es) (d, h) =
    rw (member-remove_other e.id id c d, due-remove now id c es h) refl

pub count-remove :
    (now id : ℕ) (c : List ℕ) (es : List TimerEntry)
    → All (λ x. id ≢ x.id) es
    → count now (remove id c) es ≡ count now c es
unfolding count
count-remove now id c [] h = refl
count-remove now id c (e ∷ es) (d, h) =
    rw (member-remove_other e.id id c d, count-remove now id c es h) refl

-- An entry that is neither due nor cancelled changes neither list nor count.
pub due-push :
    (now : ℕ) (c : List ℕ) (e : TimerEntry) (es : List TimerEntry)
    → now < e.deadline
    → due now c (push e es) ≡ due now c es
unfolding due push
due-push now c e [] h = ground arith
due-push now c e (x ∷ xs) h = elim (Bool-cases (before e x)) [
  | inl b ↦ rw b (ground arith)
  | inr b ↦ rw (b, due-push now c e xs h) refl
]

pub count-push :
    (now : ℕ) (c : List ℕ) (e : TimerEntry) (es : List TimerEntry)
    → now < e.deadline
    → member e.id c ≡ false
    → count now c (push e es) ≡ count now c es
unfolding count push
count-push now c e [] h m = ground arith
count-push now c e (x ∷ xs) h m = elim (Bool-cases (before e x)) [
  | inl b ↦ rw b (ground arith)
  | inr b ↦ rw (b, count-push now c e xs h m) refl
]

pub count-length : (now : ℕ) (c : List ℕ) (es : List TimerEntry) → count now c es ≤ length es
unfolding count
count-length now c [] = omega arith
count-length now c (e ∷ es) = let rest = count-length now c es in ground arith

pub due-later :
    (now : ℕ) (c : List ℕ) (es : List TimerEntry)
    → All (λ x. now < x.deadline) es
    → due now c es ≡ []
unfolding due
due-later now c [] h = refl
due-later now c (e ∷ es) (l, h) = let rest = due-later now c es h in ground arith

pub push-Distinct :
    (e : TimerEntry) (es : List TimerEntry)
    → All (λ x. e.id ≢ x.id) es
    → Distinct es
    → Distinct (push e es)
unfolding push
push-Distinct e [] a h = (tt, tt)
push-Distinct e (x ∷ xs) (d, a) (b, h) = elim (Bool-cases (before e x)) [
  | inl t ↦ rw t ((d, a), (b, h))
  | inr t ↦ rw t (push-All (λ y. x.id ≢ y.id) e xs (λ s. d (sym s)) b, push-Distinct e xs a h)
]

pub later_trans :
    (now d : ℕ) (es : List TimerEntry)
    → now < d
    → All (λ x. d ≤ x.deadline) es
    → All (λ x. now < x.deadline) es
later_trans now d [] h t = tt
later_trans now d (x ∷ xs) h (c, t) = (omega arith, later_trans now d xs h t)
