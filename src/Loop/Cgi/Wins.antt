-- ===== src/Loop/Cgi/Wins.antt =====
-- Which header gives the status of a script's answer.
use thttpd_rs.Base.{
  ◌≡◌, refl, ap, ◌∙◌, ℕ, ◌^◌, true, false, some, Option-cases, inl, inr, List, [], ◌∷◌, ◌++◌, Bytes,
  codes, All, eq_ignore_case, trim_text, parse_below,
}
use thttpd_rs.Loop.Cgi.{
  Found, before_colon, behind_colon, leading_digits, read_header, read_line, read_lines,
}

-- The line is a status header that begins with this number.
pub record GivesStatus (code : ℕ) (line : Bytes) : Type 0 where
  pub value : Bytes
  pub behind : behind_colon line ≡ some value
  pub named : eq_ignore_case (trim_text (before_colon line)) (codes "status") ≡ true
  pub number : parse_below (2 ^ 16) (leading_digits (trim_text value)) ≡ some code

-- The line is no status header.
abbrev pub IsOther : Bytes → Type 0
IsOther line = eq_ignore_case (trim_text (before_colon line)) (codes "status") ≡ false

read_line_gives :
    (code : ℕ) (line : Bytes) (found : Found)
    → GivesStatus code line
    → read_line line found ≡ (code, true)
unfolding read_line read_header
read_line_gives code line found g = rw (g.behind, g.named, g.number, read_line, read_header) refl

read_line_other :
    (code : ℕ) (line : Bytes) → IsOther line → read_line line (code, true) ≡ (code, true)
unfolding read_line read_header
read_line_other code line o = elim (Option-cases (behind_colon line)) [
  | inl e ↦ rw (e, read_line) refl
  | inr (value, e) ↦ rw (e, o, read_line, read_header) refl
]

read_lines_others :
    (code : ℕ) (ls : List Bytes) → All IsOther ls → read_lines ls (code, true) ≡ (code, true)
unfolding read_lines
read_lines_others code [] o = refl
read_lines_others code (line ∷ ls) (o, os) =
    rw (read_line_other code line o) (read_lines_others code ls os)

-- The last status header with a number gives the status, whatever stands before it and with or without
-- headers of other names behind it, a location among them.
pub read_lines-GivesStatus :
    (code : ℕ) (before : List Bytes) (line : Bytes) (behind : List Bytes) (found : Found)
    → GivesStatus code line
    → All IsOther behind
    → read_lines (before ++ line ∷ behind) found ≡ (code, true)
unfolding read_lines
read_lines-GivesStatus code [] line behind found g o =
    ap (read_lines behind) (read_line_gives code line found g) ∙ read_lines_others code behind o
read_lines-GivesStatus code (b ∷ before) line behind found g o =
    read_lines-GivesStatus code before line behind (read_line b found) g o
