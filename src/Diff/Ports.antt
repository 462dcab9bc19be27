-- ===== src/Diff/Ports.antt =====
-- What the normalizers take out of a text.
use thttpd_rs.Base.{
  ◌≡◌, refl, sym, ap, ap₂, ◌∙◌, ℕ, suc, ◌+◌, ◌-◌, true, false, some, [], ◌∷◌, ◌++◌, Bytes, codes,
  All, arith, ◌==◌, length, length-append, drop, contains, starts_with, replace_all, replace_from,
  find_sub, is_empty,
}
use mathlib.Core.List.{append_assoc}
use thttpd_rs.Diff.{
  run_length, Tail, digit, accepts, is_ascii_digit, replace_runs, split_pattern,
  unescape_regex_literal, regex_replace, normalize_pwd,
}

-- The text does not begin with a digit.
abbrev pub NoDigit : Bytes → Type 0
NoDigit [] = Unit
NoDigit (c ∷ s) = is_ascii_digit c ≡ false

abbrev pub IsDigit : ℕ → Type 0
IsDigit c = is_ascii_digit c ≡ true

length-run :
    (ds rest : Bytes)
    → All IsDigit ds
    → NoDigit rest
    → run_length (accepts digit) (ds ++ rest) ≡ length ds
unfolding run_length
length-run [] [] h n = refl
length-run [] (c ∷ rest) h n = rw n refl
length-run (d ∷ ds) rest (h, hs) n = rw h (ap suc (length-run ds rest hs n))

starts_with-append : (p s : Bytes) → starts_with p (p ++ s) ≡ true
unfolding starts_with
starts_with-append [] s = refl
starts_with-append (c ∷ p) s = ground (arith, starts_with-append p s)

drop-append : (p s : Bytes) → drop (length p) (p ++ s) ≡ s
drop-append [] s = refl
drop-append (c ∷ p) s = drop-append p s

passed :
    (head : Bytes) (tail : Tail) (by xs rest : Bytes)
    → replace_runs head tail by (length xs) (xs ++ rest) ≡ replace_runs head tail by 0 rest
unfolding replace_runs
passed head tail by [] rest = refl
passed head tail by (x ∷ xs) rest = passed head tail by xs rest

some_length : (ds : Bytes) → is_empty ds ≡ false → (length ds == 0) ≡ false
some_length [] h = absurd (cc)
some_length (d ∷ ds) h = ground arith

replaced :
    (c : ℕ) (head by ds rest : Bytes)
    → All IsDigit ds
    → is_empty ds ≡ false
    → NoDigit rest
    → replace_runs (c ∷ head) digit by 0 ((c ∷ head) ++ (ds ++ rest))
      ≡ by ++ replace_runs (c ∷ head) digit by 0 rest
unfolding replace_runs
replaced c head by ds rest h some_digit n =
    let same : (c == c) ≡ true = ground arith in
    let found = starts_with-append head (ds ++ rest) in
    let run : run_length (accepts digit) (drop (length head) (head ++ (ds ++ rest))) ≡ length ds =
      ap (run_length (accepts digit)) (drop-append head (ds ++ rest)) ∙ length-run ds rest h n in
    let skip : suc (length head) + length ds - 1 ≡ length (head ++ ds) =
      omega (arith, length-append head ds) in
    rw (same, found, run, some_length ds some_digit)
      (ap (λ t. by ++ t)
        (ap₂ (replace_runs (c ∷ head) digit by) skip (sym (append_assoc head ds rest))
          ∙ passed (c ∷ head) digit by (head ++ ds) rest))

regex_replace-digit :
    (pattern raw head by : Bytes)
    → split_pattern pattern ≡ some (raw, digit)
    → unescape_regex_literal raw ≡ head
    → (s : Bytes) → regex_replace s pattern by ≡ replace_runs head digit by 0 s
unfolding regex_replace
regex_replace-digit pattern raw head by p u s =
    rw (p, regex_replace) (ap (λ h. replace_runs h digit by 0 s) u)

-- A number behind the head of a pattern is taken out whole, whatever its digits are.
pub regex_replace-digits :
    (pattern raw head by ds rest : Bytes) (c : ℕ)
    → split_pattern pattern ≡ some (raw, digit)
    → unescape_regex_literal raw ≡ c ∷ head
    → All IsDigit ds
    → is_empty ds ≡ false
    → NoDigit rest
    → regex_replace ((c ∷ head) ++ (ds ++ rest)) pattern by ≡ by ++ regex_replace rest pattern by
regex_replace-digits pattern raw head by ds rest c p u h some_digit n =
    regex_replace-digit pattern raw (c ∷ head) by p u ((c ∷ head) ++ (ds ++ rest))
    ∙ (replaced c head by ds rest h some_digit n
        ∙ ap (λ t. by ++ t) (sym (regex_replace-digit pattern raw (c ∷ head) by p u rest)))

starts_with-contains :
    (c : ℕ) (p s : Bytes) → contains c p ≡ true → contains c s ≡ false → starts_with p s ≡ false
unfolding starts_with
starts_with-contains c [] s h k = absurd (cc)
starts_with-contains c (x ∷ p) [] h k = refl
starts_with-contains c (x ∷ p) (y ∷ s) h k =
    let rest = starts_with-contains c p s in ground (arith, rest)

absent_pattern :
    (c : ℕ) (p by s : Bytes)
    → contains c p ≡ true
    → contains c s ≡ false
    → replace_from p by 0 s ≡ s
unfolding replace_from
absent_pattern c p by [] h k = refl
absent_pattern c p by (x ∷ s) h k =
    let behind : contains c s ≡ false = ground arith in
    rw (starts_with-contains c p (x ∷ s) h k) (ap (λ t. x ∷ t) (absent_pattern c p by s h behind))

-- The normalizer of `PWD` changes no text without an opening bracket.
pub normalize_pwd_id : (value : Bytes) → contains b'[' value ≡ false → normalize_pwd value ≡ value
unfolding normalize_pwd regex_replace split_pattern find_sub starts_with replace_all
normalize_pwd_id value h =
    absent_pattern b'[' (codes "PWD=/[^\n]*") (codes "PWD=NORMALIZED") value refl h
