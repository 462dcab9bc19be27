-- ===== src/Match.antt =====
-- rust/crates/thttpd-match/src/lib.rs: shell-style matching on byte strings. An index into a slice
-- is the suffix that starts there.
pub mod Spec
pub mod Decides
use thttpd_rs.Base.{
  ℕ, Bool, true, false, not, ◌&&◌, ◌||◌, List, [], ◌∷◌, Bytes, ◌==◌, if◌then◌else◌, is_empty,
  contains, split,
}

-- The branches `?` and `_`, with the rest of the loop as `next`: both take one byte.
one : ℕ → (Bytes → Bool) → Bytes → Bool
one c next [] = false
one c next (x ∷ s) = if c == b'?' then next s else if c == x then next s else false

-- `for try_fi in fi..=filename.len()` after `**`
try_all : (Bytes → Bool) → Bytes → Bool
try_all next [] = next []
try_all next (x ∷ s) = next (x ∷ s) || try_all next s

-- the same loop after `*`, which breaks behind a slash
try_run : (Bytes → Bool) → Bytes → Bool
try_run next [] = next []
try_run next (x ∷ s) = next (x ∷ s) || (not (x == b'/') && try_run next s)

-- `**`: at the end of the pattern everything matches
double_star : Bytes → (Bytes → Bool) → Bytes → Bool
double_star [] next s = true
double_star (_ ∷ _) next s = try_all next s

unfoldable pub match_single : Bytes → Bytes → Bool
unfolding one try_all try_run double_star
match_single [] s = is_empty s
match_single (c ∷ []) s = if c == b'*' then not (contains b'/' s) else one c (match_single []) s
match_single (c ∷ d ∷ p) s =
    if c == b'*'
    then if d == b'*' then double_star p (match_single p) s else try_run (match_single (d ∷ p)) s
    else one c (match_single (d ∷ p)) s

any_single : List Bytes → Bytes → Bool
any_single [] s = false
any_single (sub ∷ subs) s = if match_single sub s then true else any_single subs s

unfoldable pub match_pattern : Bytes → Bytes → Bool
unfolding any_single match_single split
match_pattern pattern filename = any_single (split b'|' pattern) filename
