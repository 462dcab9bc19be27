-- ===== src/Loop/Header.antt =====
-- The header that the response builder writes is the one that the loop finds.
use thttpd_rs.Base.{
  ℕ, suc, ◌+◌, ◌≡◌, refl, sym, ◌∙◌, ap, true, false, ◌||◌, some, List, [], ◌∷◌, ◌++◌, Bytes, codes,
  All, arith, inl, inr, Bool-cases, ◌==◌, length, length-append, contains, starts_with, find_sub,
  decimal, decimal_ℤ, decimal-IsDigit, IsDigit,
}
use mathlib.Core.List.{append_assoc}
use thttpd_rs.Base.Int.{ℤ, pos, negsuc}
use thttpd_rs.Response.{crlf, Headers, header_line, header_lines}

-- No carriage return.
abbrev pub IsLine : Bytes → Type 0
IsLine s = contains 13 s ≡ false

pub contains-append : (c : ℕ) (s t : Bytes) → contains c (s ++ t) ≡ contains c s || contains c t
contains-append c [] t = refl
contains-append c (x ∷ s) t = elim (Bool-cases (x == c)) [
  | inl e ↦ rw e refl
  | inr e ↦ rw e (contains-append c s t)
]

pub append-IsLine : (s t : Bytes) → IsLine s → IsLine t → IsLine (s ++ t)
append-IsLine s t a b = contains-append 13 s t ∙ rw (a, b) refl

pub digits-IsLine : (s : Bytes) → All IsDigit s → IsLine s
digits-IsLine [] h = refl
digits-IsLine (c ∷ s) (d, h) =
    let rest = digits-IsLine s h in
    let other : (c == 13) ≡ false = ground arith in rw (other, rest) refl

pub decimal_ℤ-IsLine : (a : ℤ) → IsLine (decimal_ℤ a)
unfolding decimal_ℤ
decimal_ℤ-IsLine (pos n) = digits-IsLine (decimal n) (decimal-IsDigit n)
decimal_ℤ-IsLine (negsuc n) = digits-IsLine (decimal (suc n)) (decimal-IsDigit (suc n))

-- Lines, each with its end.
unfoldable pub block : List Bytes → Bytes
block [] = []
block (l ∷ ls) = l ++ (crlf ++ block ls)

abbrev pub blank : Bytes
blank = 13 ∷ 10 ∷ 13 ∷ 10 ∷ []

-- A line that is not empty and has no carriage return in it.
unfoldable pub Full : Bytes → Type 0
Full [] = ⊥
Full (c ∷ s) = IsLine (c ∷ s)

pub find_sub-skip :
    (p s : Bytes) (c n : ℕ)
    → starts_with p (c ∷ s) ≡ false
    → find_sub p s ≡ some n
    → find_sub p (c ∷ s) ≡ some (suc n)
unfolding find_sub
find_sub-skip p s c n e f = rw (e, f) refl

pub find_sub-here :
    (p s : Bytes) (c : ℕ) → starts_with p (c ∷ s) ≡ true → find_sub p (c ∷ s) ≡ some 0
unfolding find_sub
find_sub-here p s c e = rw e refl

find_sub-line :
    (l t : Bytes) (n : ℕ)
    → IsLine l
    → find_sub blank t ≡ some n
    → find_sub blank (l ++ t) ≡ some (length l + n)
find_sub-line [] t n h e = e ∙ ap some (omega arith)
find_sub-line (c ∷ l) t n h e =
    let other : (13 == c) ≡ false = ground arith in
    let rest : IsLine l = ground arith in
    find_sub-skip blank (l ++ t) c (length l + n) (unfold starts_with in rw other refl)
      (find_sub-line l t n rest e)
    ∙ ap some (omega arith)

-- The end of a line, where another one follows.
find_sub-crlf :
    (l t : Bytes) (n : ℕ)
    → Full l
    → find_sub blank (l ++ t) ≡ some n
    → find_sub blank (crlf ++ (l ++ t)) ≡ some (suc (suc n))
unfolding Full
find_sub-crlf [] t n f e = absurd f
find_sub-crlf (c ∷ l) t n f e =
    let other : (13 == c) ≡ false = ground arith in
    find_sub-skip blank (10 ∷ c ∷ (l ++ t)) 13 (suc n) (unfold starts_with in rw other refl)
      (find_sub-skip blank (c ∷ (l ++ t)) 10 n (unfold starts_with in refl) e)

pub Full-IsLine : (l : Bytes) → Full l → IsLine l
unfolding Full
Full-IsLine [] f = absurd f
Full-IsLine (c ∷ l) f = f

-- Behind lines the blank line begins with the end of the last one.
pub find_sub-block :
    (l : Bytes) (ls : List Bytes) (t : Bytes)
    → All Full (l ∷ ls)
    → (n : ℕ) × ((find_sub blank (block (l ∷ ls) ++ (crlf ++ t)) ≡ some n)
        × (n + 4 ≡ length (block (l ∷ ls) ++ crlf)))
unfolding block
find_sub-block l [] t (f, _) = (
  length l,
  (
    ap (find_sub blank) (append_assoc l crlf (crlf ++ t))
        ∙ find_sub-line l (crlf ++ (crlf ++ t)) 0 (Full-IsLine l f)
            (find_sub-here blank (10 ∷ 13 ∷ 10 ∷ t) 13 (unfold starts_with in refl))
        ∙ ap some (omega arith),
    omega (arith, length-append (l ++ crlf) crlf, length-append l crlf),
  ),
)
find_sub-block l (k ∷ ls) t (f, g) =
    let (n, (e, len)) = find_sub-block k ls t g in
    let rest = block (k ∷ ls) ++ (crlf ++ t) in
    let opened : find_sub blank (k ++ ((crlf ++ block ls) ++ (crlf ++ t))) ≡ some n =
      sym (ap (find_sub blank) (append_assoc k (crlf ++ block ls) (crlf ++ t))) ∙ e in
    let next : find_sub blank (crlf ++ rest) ≡ some (suc (suc n)) =
      ap (λ r. find_sub blank (crlf ++ r)) (append_assoc k (crlf ++ block ls) (crlf ++ t))
      ∙ find_sub-crlf k ((crlf ++ block ls) ++ (crlf ++ t)) n g.0 opened in
    (
      length l + suc (suc n),
      (
        ap (find_sub blank) (append_assoc l (crlf ++ block (k ∷ ls)) (crlf ++ t))
            ∙ find_sub-line l (crlf ++ rest) (suc (suc n)) (Full-IsLine l f) next,
        omega (
          arith,
          len,
          length-append (l ++ (crlf ++ block (k ∷ ls))) crlf,
          length-append l (crlf ++ block (k ∷ ls)),
          length-append (block (k ∷ ls)) crlf,
        ),
      ),
    )

-- Headers as lines.
unfoldable pub lines_of : Headers → List Bytes
lines_of [] = []
lines_of ((name, value) ∷ hs) = (name ++ (codes ": " ++ value)) ∷ lines_of hs

pub header_lines-block : (hs : Headers) → header_lines hs ≡ block (lines_of hs)
unfolding header_lines header_line block lines_of
header_lines-block [] = refl
header_lines-block ((name, value) ∷ hs) = rw (header_lines-block hs) (
    append_assoc (name ++ codes ": " ++ value) crlf (block (lines_of hs))
    ∙ ap (λ r. r ++ (crlf ++ block (lines_of hs))) (append_assoc name (codes ": ") value))

-- Names and values without a carriage return.
abbrev pub IsHeaders : Headers → Type 0
IsHeaders = All (λ h. IsLine h.0 × IsLine h.1)

pub Full-append : (s t : Bytes) (c : ℕ) → IsLine s → IsLine (c ∷ t) → Full (s ++ (c ∷ t))
unfolding Full
Full-append [] t c a b = b
Full-append (d ∷ s) t c a b = append-IsLine (d ∷ s) (c ∷ t) a b

pub lines_of-Full : (hs : Headers) → IsHeaders hs → All Full (lines_of hs)
unfolding lines_of
lines_of-Full [] h = tt
lines_of-Full ((name, value) ∷ hs) ((a, b), h) =
    (Full-append name (32 ∷ value) 58 a b, lines_of-Full hs h)

pub append-IsHeaders : (hs ks : Headers) → IsHeaders hs → IsHeaders ks → IsHeaders (hs ++ ks)
append-IsHeaders [] ks a b = b
append-IsHeaders (h ∷ hs) ks (a, r) b = (a, append-IsHeaders hs ks r b)
