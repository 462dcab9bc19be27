-- ===== src/Base/Number.antt =====
-- Numbers in texts: `parse` and the printing of decimals.
use Prim.Native.Nat.{ℕ, zero, suc, ◌+◌, ◌-◌, ◌*◌, ◌/◌, ◌%◌, ◌^◌, ◌≤◌, ◌<◌}
use mathlib.Core.Path.{◌≡◌, refl, ◌∙◌, ap}
use mathlib.Core.Bool.{Bool, true, false, ◌&&◌}
use mathlib.Core.Logic.{inl, inr}
use mathlib.Core.Option.{Option, none, some}
use mathlib.Core.List.{[], ◌∷◌}
use native.Mathlib.Omega.{arith}
use thttpd_rs.Base.Tests.{◌==◌, leb, ltb, if◌then◌else◌, Bool-cases}
use thttpd_rs.Base.Lists.{Bytes, is_empty, All}
use thttpd_rs.Base.Int.{ℤ, pos, negsuc, sub_ℕ}

infixl 5 ◌>>=◌
abbrev pub ◌>>=◌ {ℓ κ} : {A : Type ℓ} {B : Type κ} → Option A → (A → Option B) → Option B
none >>= f = none
some a >>= f = f a

unfoldable pub digits : ℕ → Bytes → Option ℕ
digits n [] = some n
digits n (c ∷ s) =
    let rest = digits (n * 10 + (c - b'0')) s in if leb b'0' c && leb c b'9' then rest else none

unfoldable pub in_range : ℤ → Option ℤ
in_range (pos n) = if ltb n (2 ^ 63) then some (pos n) else none
in_range (negsuc n) = if ltb n (2 ^ 63) then some (negsuc n) else none

unfoldable pub number : Bool → Bytes → Option ℤ
unfolding digits in_range
number negative s =
    if is_empty s
    then none
    else digits 0 s >>= λ n. in_range (if negative then sub_ℕ 0 n else pos n)

-- `str::parse::<i64>`: an optional sign and decimal digits, in range.
unfoldable pub parse_i64 : Bytes → Option ℤ
unfolding number digits in_range
parse_i64 [] = none
parse_i64 (c ∷ s) =
    if c == b'-' then number true s else if c == b'+' then number false s else number false (c ∷ s)

-- `str::parse` of an unsigned type below `limit`: an optional plus and decimal digits, in range.
unfoldable pub parse_below : ℕ → Bytes → Option ℕ
unfolding digits
parse_below limit [] = none
parse_below limit (c ∷ s) =
    let body = if c == b'+' then s else c ∷ s in
    if is_empty body then none else digits 0 body >>= λ n. if ltb n limit then some n else none

-- The digits of a number before the digits `acc`, on fuel; a number has fewer digits than its value,
-- but for zero.
unfoldable pub decimal_from : ℕ → ℕ → Bytes → Bytes
decimal_from zero n acc = acc
decimal_from (suc fuel) n acc =
    let acc' = (b'0' + n % 10) ∷ acc in
    let rest = decimal_from fuel (n / 10) acc' in if ltb n 10 then acc' else rest

-- `{}` of an unsigned number
unfoldable pub decimal : ℕ → Bytes
unfolding decimal_from
decimal n = decimal_from (suc n) n []

-- `{}` of a signed number
unfoldable pub decimal_ℤ : ℤ → Bytes
unfolding decimal
decimal_ℤ (pos n) = decimal n
decimal_ℤ (negsuc n) = b'-' ∷ decimal (suc n)

abbrev pub IsDigit : ℕ → Type 0
IsDigit c = (b'0' ≤ c) × (c ≤ b'9')

-- What the digits behind a number say of it.
digits-cons : (m d : ℕ) (s : Bytes) → d < 10 → digits m ((b'0' + d) ∷ s) ≡ digits (m * 10 + d) s
unfolding digits
digits-cons m d s h =
    let value : b'0' + d - b'0' ≡ d = omega arith in
    let low : leb b'0' (b'0' + d) ≡ true = ground arith in
    let high : leb (b'0' + d) b'9' ≡ true = ground arith in rw (low, high, value) refl

digits-decimal_from :
    (fuel n : ℕ) (acc : Bytes) → n < fuel → digits 0 (decimal_from fuel n acc) ≡ digits n acc
unfolding decimal_from
digits-decimal_from zero n acc h = absurd (omega arith)
digits-decimal_from (suc fuel) n acc h = elim (Bool-cases (ltb n 10)) [
  | inl e ↦
      let small : n % 10 ≡ n = ground arith in
      let alone : 0 * 10 + n ≡ n = omega arith in
      rw (e, small) (digits-cons 0 n acc (ground arith) ∙ ap (λ k. digits k acc) alone)
  | inr e ↦
      let parts : n / 10 * 10 + n % 10 ≡ n = omega arith in
      let big : 10 ≤ n = ground arith in
      rw e (
        digits-decimal_from fuel (n / 10) ((b'0' + n % 10) ∷ acc) (omega arith)
        ∙ digits-cons (n / 10) (n % 10) acc (omega arith)
        ∙ ap (λ k. digits k acc) parts)
]

-- A number that is printed reads as itself.
pub digits-decimal : (n : ℕ) → digits 0 (decimal n) ≡ some n
unfolding decimal
digits-decimal n = digits-decimal_from (suc n) n [] (omega arith) ∙ unfold digits in refl

decimal_from-IsDigit :
    (fuel n : ℕ) (acc : Bytes) → All IsDigit acc → All IsDigit (decimal_from fuel n acc)
unfolding decimal_from
decimal_from-IsDigit zero n acc h = h
decimal_from-IsDigit (suc fuel) n acc h =
    let digit : IsDigit (b'0' + n % 10) = (omega arith, omega arith) in
    elim (Bool-cases (ltb n 10)) [
      | inl e ↦ rw e (digit, h)
      | inr e ↦ rw e (decimal_from-IsDigit fuel (n / 10) ((b'0' + n % 10) ∷ acc) (digit, h))
    ]

pub decimal-IsDigit : (n : ℕ) → All IsDigit (decimal n)
unfolding decimal
decimal-IsDigit n = decimal_from-IsDigit (suc n) n [] tt
