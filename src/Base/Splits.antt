-- ===== src/Base/Splits.antt =====
-- What the operations of `Scan` say of the texts: equal texts, prefixes and the first separator.
use Prim.Native.Nat.{ℕ}
use mathlib.Core.Path.{◌≡◌, refl, ap}
use mathlib.Core.Bool.{true, false}
use mathlib.Core.Option.{Option, none, some, some-injective}
use mathlib.Core.Logic.{inl, inr}
use mathlib.Core.List.{[], ◌∷◌, ◌++◌}
use native.Mathlib.Omega.{arith}
use thttpd_rs.Base.Tests.{◌==◌, Bool-cases}
use thttpd_rs.Base.Lists.{Bytes, contains}
use thttpd_rs.Base.Number.{◌>>=◌}
use thttpd_rs.Base.Scan.{eq_bytes, strip_prefix, split_first}

pub eq_bytes-eq : (s t : Bytes) → eq_bytes s t ≡ true → s ≡ t
unfolding eq_bytes
eq_bytes-eq [] [] h = refl
eq_bytes-eq [] (b ∷ t) h = absurd (cc)
eq_bytes-eq (a ∷ s) [] h = absurd (cc)
eq_bytes-eq (a ∷ s) (b ∷ t) h = let rest = eq_bytes-eq s t in grind (arith, rest)

pub eq_bytes_refl : (s : Bytes) → eq_bytes s s ≡ true
unfolding eq_bytes
eq_bytes_refl [] = refl
eq_bytes_refl (a ∷ s) = let rest = eq_bytes_refl s in ground (arith, rest)

pub strip_prefix-eq : (p s r : Bytes) → strip_prefix p s ≡ some r → s ≡ p ++ r
unfolding strip_prefix
strip_prefix-eq [] s r h = some-injective _ _ h
strip_prefix-eq (a ∷ p) [] r h = absurd (cc)
strip_prefix-eq (a ∷ p) (b ∷ s) r h = let rest = strip_prefix-eq p s r in grind (arith, rest)

pub strip_prefix-append : (p r : Bytes) → strip_prefix p (p ++ r) ≡ some r
unfolding strip_prefix
strip_prefix-append [] r = refl
strip_prefix-append (a ∷ p) r = let rest = strip_prefix-append p r in ground (arith, rest)

pub split_first-eq :
    (c : ℕ) (s rest : Bytes)
    → (split_first (λ x. x == c) s).1 ≡ some rest
    → (s ≡ (split_first (λ x. x == c) s).0 ++ c ∷ rest)
      × (contains c (split_first (λ x. x == c) s).0 ≡ false)
unfolding split_first
split_first-eq c [] rest h = absurd (cc)
split_first-eq c (x ∷ s) rest h =
    let later = split_first-eq c s rest in
    elim (Bool-cases (x == c)) [
      | inl e ↦
          let same : x ≡ c = ground (arith, e) in
          let behind : s ≡ rest = some-injective _ _ (rw (e, split_first) at h) in
          rw (e, split_first) (rw (same, behind) refl, refl)
      | inr e ↦
          let (eq, free) = later (rw (e, split_first) at h) in
          rw (e, split_first) (ap (λ t. x ∷ t) eq, rw e free)
    ]

pub split_first-append :
    (c : ℕ) (a b : Bytes)
    → contains c a ≡ false
    → split_first (λ x. x == c) (a ++ c ∷ b) ≡ (a, some b)
unfolding split_first
split_first-append c [] b h = ground arith
split_first-append c (x ∷ a) b h =
    let rest = split_first-append c a b in
    elim (Bool-cases (x == c)) [
      | inl e ↦ absurd (ground (arith, e))
      | inr e ↦ let tail = rest (ground (arith, e)) in rw (e, split_first) (rw tail refl)
    ]

pub >>=-eq-some {ℓ κ} :
    {A : Type ℓ} {B : Type κ} (m : Option A) (f : A → Option B) {b : B}
    → (m >>= f) ≡ some b
    → (a : A) × (m ≡ some a) × (f a ≡ some b)
>>=-eq-some (some a) f h = (a, refl, h)
>>=-eq-some none f h = absurd (cc)
