-- ===== src/Base/Scan.antt =====
-- `str` and slice methods on bytes: trimming, searching, splitting, replacing and letter case.
use Prim.Native.Nat.{ℕ, zero, suc, ◌+◌, ◌-◌}
use mathlib.Core.Bool.{Bool, true, false, ◌&&◌, ◌||◌}
use mathlib.Core.Option.{Option, none, some}
use mathlib.Core.List.{List, [], ◌∷◌, ◌++◌, map}
use thttpd_rs.Base.Tests.{◌==◌, leb, if◌then◌else◌}
use thttpd_rs.Base.Lists.{Bytes, length, is_empty}

-- `char::is_whitespace`
abbrev pub is_whitespace : ℕ → Bool
is_whitespace c =
    c == b' '
    || (leb 9 c && leb c 13)
    || c == 0x85
    || c == 0xa0
    || c == 0x1680
    || (leb 0x2000 c && leb c 0x200a)
    || c == 0x2028
    || c == 0x2029
    || c == 0x202f
    || c == 0x205f
    || c == 0x3000

unfoldable pub trim_start : (ℕ → Bool) → Bytes → Bytes
trim_start p [] = []
trim_start p (c ∷ s) = let rest = trim_start p s in if p c then rest else c ∷ s

unfoldable pub trim_end : (ℕ → Bool) → Bytes → Bytes
trim_end p [] = []
trim_end p (c ∷ s) = let rest = trim_end p s in if is_empty rest && p c then [] else c ∷ rest

-- `str::trim`
unfoldable pub trim : Bytes → Bytes
unfolding trim_start trim_end
trim s = trim_start is_whitespace (trim_end is_whitespace s)

-- The text before the first character of a kind, and the text behind it if there is one.
unfoldable pub split_first : (ℕ → Bool) → Bytes → Bytes × Option Bytes
split_first p [] = ([], none)
split_first p (c ∷ s) =
    let (before, behind) = split_first p s in if p c then ([], some s) else (c ∷ before, behind)

unfoldable pub eq_bytes : Bytes → Bytes → Bool
eq_bytes [] [] = true
eq_bytes [] (_ ∷ _) = false
eq_bytes (_ ∷ _) [] = false
eq_bytes (a ∷ s) (b ∷ t) = a == b && eq_bytes s t

-- `s.strip_prefix(p)`, with the prefix first
unfoldable pub strip_prefix : Bytes → Bytes → Option Bytes
strip_prefix [] s = some s
strip_prefix (_ ∷ _) [] = none
strip_prefix (a ∷ p) (b ∷ s) = let rest = strip_prefix p s in if a == b then rest else none

-- `s.starts_with(p)`, with the prefix first
unfoldable pub starts_with : Bytes → Bytes → Bool
starts_with [] s = true
starts_with (_ ∷ _) [] = false
starts_with (a ∷ p) (b ∷ s) = a == b && starts_with p s

-- `s.windows(p.len()).position(|w| w == p)`, and `s.find(p)`, for a pattern that is not empty
unfoldable pub find_sub : Bytes → Bytes → Option ℕ
unfolding starts_with
find_sub p [] = none
find_sub p (c ∷ s) =
    let rest = find_sub p s in
    if starts_with p (c ∷ s) then some 0 else elim rest [ none ↦ none | some n ↦ some (suc n) ]

-- `s.contains(p)` for a pattern that is not empty
unfoldable pub contains_sub : Bytes → Bytes → Bool
unfolding starts_with
contains_sub p [] = false
contains_sub p (c ∷ s) = starts_with p (c ∷ s) || contains_sub p s

-- The replacement of a pattern, where `skip` bytes of a match are still to be passed over.
unfoldable pub replace_from : Bytes → Bytes → ℕ → Bytes → Bytes
unfolding starts_with
replace_from p by skip [] = []
replace_from p by (suc skip) (c ∷ s) = replace_from p by skip s
replace_from p by zero (c ∷ s) =
    let matched = replace_from p by (length p - 1) s in
    let onward = replace_from p by 0 s in
    if starts_with p (c ∷ s) then by ++ matched else c ∷ onward

-- `s.replace(p, by)` for a pattern that is not empty
unfoldable pub replace_all : Bytes → Bytes → Bytes → Bytes
unfolding replace_from
replace_all p by s = replace_from p by 0 s

-- `to_ascii_lowercase`
abbrev pub lower : ℕ → ℕ
lower c = if leb b'A' c && leb c b'Z' then c + 32 else c

-- `eq_ignore_ascii_case`
unfoldable pub eq_ignore_case : Bytes → Bytes → Bool
unfolding eq_bytes
eq_ignore_case s t = eq_bytes (map lower s) (map lower t)

-- A line of `str::lines` ends without its carriage return.
unfoldable pub drop_cr : Bytes → Bytes
drop_cr [] = []
drop_cr (c ∷ []) = if c == 13 then [] else c ∷ []
drop_cr (c ∷ d ∷ s) = c ∷ drop_cr (d ∷ s)

-- `str::lines`: the line being read first; a last line that is empty is none.
unfoldable pub lines_from : Bytes → Bytes → List Bytes
unfolding drop_cr
lines_from line [] = if is_empty line then [] else line ∷ []
lines_from line (c ∷ s) =
    let ended = lines_from [] s in
    let longer = lines_from (line ++ c ∷ []) s in if c == 10 then drop_cr line ∷ ended else longer

unfoldable pub lines : Bytes → List Bytes
unfolding lines_from
lines s = lines_from [] s
