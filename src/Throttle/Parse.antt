-- ===== src/Throttle/Parse.antt =====
-- rust/crates/thttpd-core/src/throttle.rs: `parse_line`, and `load` on the lines of the file. A text
-- is the list of its code points.
use thttpd_rs.Base.{
  ◌≡◌, refl, ◌∙◌, inl, inr, Bool, false, ◌||◌, ◌&&◌, List, [], ◌∷◌, Bytes, arith, All, Option, none,
  some, Option-cases, Bool-cases, ◌==◌, if◌then◌else◌, is_empty, contains, ◌>>=◌, parse_i64,
  is_whitespace, trim, trim_start, trim_end, split_first,
}
use thttpd_rs.Base.Int.{ℤ, pos}
use thttpd_rs.Throttle.{ThrottleEntry, Table, new_entry}
use thttpd_rs.Throttle.Walk.{Countable}

-- `replace("|/", "|")`: one pass from the left.
replace_bar : Bytes → Bytes
replace_bar [] = []
replace_bar (c ∷ []) = c ∷ []
replace_bar (c ∷ d ∷ s) =
    let after_both = c ∷ replace_bar s in
    let after_one = c ∷ replace_bar (d ∷ s) in
    if c == b'|' && d == b'/' then after_both else after_one

split_pattern : Bytes → Bytes × Option Bytes
split_pattern [] = ([], none)
split_pattern (c ∷ s) =
    if c == b'"' then split_first (λ d. d == b'"') s else split_first is_whitespace (c ∷ s)

-- The pattern and the rest of a line: a quoted pattern ends at the closing quote.
pattern_and_rest : Bytes → Option (Bytes × Bytes)
unfolding split_pattern
pattern_and_rest line =
    let (pattern_, behind) = split_pattern line in
    behind >>= λ rest. some (pattern_, trim_start is_whitespace rest)

-- `min-max` or `max`
rates_of : Bytes → Option Bytes → Option (ℤ × ℤ)
rates_of first none = parse_i64 first >>= λ most. some (pos 0, most)
rates_of first (some max_str) =
    parse_i64 (trim first) >>= λ least. parse_i64 (trim max_str) >>= λ most. some (least, most)

rates : Bytes → Option (ℤ × ℤ)
unfolding rates_of trim
rates spec = let (first, behind) = split_first (λ c. c == b'-') spec in rates_of first behind

entry_of : Bytes → ℤ × ℤ → Option ThrottleEntry
entry_of pattern_ (least, most) =
    if is_empty pattern_ then none else some (new_entry pattern_ most least)

clean_pattern : Bytes → Bytes
clean_pattern pattern_ = replace_bar (trim_start (λ c. c == b'/') pattern_)

unfoldable pub parse_line : Bytes → Option ThrottleEntry
unfolding pattern_and_rest clean_pattern rates entry_of trim_start trim_end split_first replace_bar
    parse_i64
parse_line line = pattern_and_rest line >>= λ (pattern_, rest).
    rates (split_first is_whitespace rest).0 >>= λ limits. entry_of (clean_pattern pattern_) limits

-- One line of the file: a comment, an empty line and a line that does not parse give no entry.
load_line : Bytes → Option ThrottleEntry
load_line raw =
    let line = trim_end (λ c. c == b' ' || c == 9 || c == 10 || c == 13) raw in
    let code = (split_first (λ c. c == b'#') line).0 in
    if contains b'#' line
    then (if is_empty (trim code) then none else parse_line (trim_end is_whitespace code))
    else if is_empty line
    then none
    else parse_line line

push_line : Option ThrottleEntry → Table → Table
push_line none es = es
push_line (some e) es = e ∷ es

-- `load`, given the lines of the file.
unfoldable pub load : List Bytes → Table
unfolding load_line push_line parse_line
load [] = []
load (raw ∷ lines) = push_line (load_line raw) (load lines)

pub starts_with_slash : Bytes → Bool
starts_with_slash [] = false
starts_with_slash (c ∷ s) = c == b'/'

replace_bar-first : (s : Bytes) → starts_with_slash (replace_bar s) ≡ starts_with_slash s
unfolding replace_bar starts_with_slash
replace_bar-first [] = refl
replace_bar-first (c ∷ []) = refl
replace_bar-first (c ∷ d ∷ s) = ground arith

clean_pattern-relative : (p : Bytes) → starts_with_slash (clean_pattern p) ≡ false
unfolding clean_pattern starts_with_slash trim_start
clean_pattern-relative p = replace_bar-first (trim_start (λ c. c == b'/') p) ∙ trimmed p
  where
    trimmed : (t : Bytes) → starts_with_slash (trim_start (λ c. c == b'/') t) ≡ false
    trimmed [] = refl
    trimmed (c ∷ t) = elim (Bool-cases (c == b'/')) [
      | inl e ↦ rw (e, trim_start) (trimmed t)
      | inr e ↦ rw (e, trim_start) e
    ]

-- What a parsed line says of its entry.
pub record Loaded (e : ThrottleEntry) : Type 0 where
  pub some_pattern : is_empty e.pattern ≡ false
  pub relative : starts_with_slash e.pattern ≡ false
  pub idle : (e.rate ≡ pos 0) × (e.bytes_since_avg ≡ pos 0) × (e.num_sending ≡ pos 0)

entry_of-Loaded :
    (p : Bytes) (limits : ℤ × ℤ) (e : ThrottleEntry)
    → starts_with_slash p ≡ false
    → entry_of p limits ≡ some e
    → Loaded e
unfolding entry_of new_entry
entry_of-Loaded p limits e s h = ground arith

bind-some {ℓ κ} :
    {A : Type ℓ} {B : Type κ} (m : Option A) (f : A → Option B) {b : B}
    → (m >>= f) ≡ some b
    → (a : A) × (f a ≡ some b)
bind-some none f h = cc
bind-some (some a) f h = (a, h)

parse_line-Loaded : (line : Bytes) (e : ThrottleEntry) → parse_line line ≡ some e → Loaded e
unfolding parse_line
parse_line-Loaded line e h =
    let (parts, h') = bind-some (pattern_and_rest line) _ h in
    let (limits, h'') = bind-some (rates (split_first is_whitespace parts.1).0) _ h' in
    entry_of-Loaded (clean_pattern parts.0) limits e (clean_pattern-relative parts.0) h''

load_line-Loaded : (raw : Bytes) (e : ThrottleEntry) → load_line raw ≡ some e → Loaded e
unfolding load_line
load_line-Loaded raw e h =
    let line = trim_end (λ c. c == b' ' || c == 9 || c == 10 || c == 13) raw in
    let code = (split_first (λ c. c == b'#') line).0 in
    elim (Bool-cases (contains b'#' line)) [
      | inl comment ↦ elim (Bool-cases (is_empty (trim code))) [
        | inl blank ↦ absurd (none≢some (rw (comment, blank) at h))
        | inr text ↦ parse_line-Loaded (trim_end is_whitespace code) e (rw (comment, text) at h)
      ]
      | inr plain ↦ elim (Bool-cases (is_empty line)) [
        | inl blank ↦ absurd (none≢some (rw (plain, blank) at h))
        | inr text ↦ parse_line-Loaded line e (rw (plain, text) at h)
      ]
    ]
  where
    none≢some : none ≡ some e → ⊥
    none≢some q = cc

Loaded-Countable : (e : ThrottleEntry) → Loaded e → Countable e
Loaded-Countable e h = record { senders = 0; counted = h.idle.2; room = omega arith }

-- Every entry of a loaded table has a pattern that is not empty and does not begin with a slash, no
-- rate, no bytes and no senders: the table is one on which admission is balanced.
pub load-Loaded : (lines : List Bytes) → All (λ e. Loaded e × Countable e) (load lines)
unfolding load
load-Loaded [] = tt
load-Loaded (raw ∷ lines) = elim (Option-cases (load_line raw)) [
  | inl e ↦ rw (e, push_line) (load-Loaded lines)
  | inr (entry, e) ↦
      let loaded = load_line-Loaded raw entry e in
      rw (e, push_line) ((loaded, Loaded-Countable entry loaded), load-Loaded lines)
]
