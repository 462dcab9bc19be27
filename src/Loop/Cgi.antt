-- ===== src/Loop/Cgi.antt =====
-- rust/crates/thttpd-core/src/eventloop.rs: `extract_cgi_status`, the status of what a script printed.
pub mod Wins
use thttpd_rs.Base.{
  ◌≡◌, refl, ℕ, ◌+◌, ◌^◌, Bool, true, false, not, ◌&&◌, Option, none, some, List, [], ◌∷◌, ◌++◌,
  Bytes, codes, arith, if◌then◌else◌, ◌==◌, leb, take, find_sub, lines, split_first, eq_ignore_case,
  trim_text, parse_below,
}

abbrev pub before_colon : Bytes → Bytes
before_colon line = (split_first (λ c. c == b':') line).0

abbrev pub behind_colon : Bytes → Option Bytes
behind_colon line = (split_first (λ c. c == b':') line).1

-- The status and whether a header has set it.
abbrev pub Found : Type 0
Found = ℕ × Bool

unfoldable pub leading_digits : Bytes → Bytes
leading_digits [] = []
leading_digits (c ∷ s) =
    let rest = leading_digits s in if leb b'0' c && leb c b'9' then c ∷ rest else []

-- The header of a line with a colon.
unfoldable pub read_header : Bytes → Bytes → Found → Found
unfolding eq_ignore_case trim_text leading_digits parse_below
read_header name value (status, is_set) =
    if eq_ignore_case (trim_text name) (codes "status")
    then elim (parse_below (2 ^ 16) (leading_digits (trim_text value))) [
      | none ↦ (status, is_set)
      | some code ↦ (code, true)
    ]
    else if not is_set && eq_ignore_case (trim_text name) (codes "location")
    then (302, true)
    else (status, is_set)

unfoldable pub read_line : Bytes → Found → Found
unfolding split_first read_header
read_line line found = elim (behind_colon line) [
  | none ↦ found
  | some value ↦ read_header (before_colon line) value found
]

-- The loop over the lines.
unfoldable pub read_lines : List Bytes → Found → Found
unfolding read_line
read_lines [] found = found
read_lines (line ∷ rest) found = read_lines rest (read_line line found)

unfoldable pub title_of : ℕ → Bytes
title_of status =
    if status == 200
    then codes "OK"
    else if status == 302
    then codes "Found"
    else if status == 304
    then codes "Not Modified"
    else if status == 400
    then codes "Bad Request"
    else if status == 401
    then codes "Unauthorized"
    else if status == 403
    then codes "Forbidden"
    else if status == 404
    then codes "Not Found"
    else if status == 408
    then codes "Request Timeout"
    else if status == 500
    then codes "Internal Error"
    else if status == 501
    then codes "Not Implemented"
    else if status == 503
    then codes "Service Unavailable"
    else codes "Something"

-- Where the headers end.
unfoldable pub header_end : Bytes → Option ℕ
unfolding find_sub
header_end output = elim (find_sub (13 ∷ 10 ∷ 13 ∷ 10 ∷ []) output) [
  | some n ↦ some n
  | none ↦ find_sub (10 ∷ 10 ∷ []) output
]

unfoldable pub extract_cgi_status : (Bytes → Bytes) → Bytes → ℕ × Bytes
unfolding header_end read_lines title_of lines
extract_cgi_status lossy output = elim (header_end output) [
  | none ↦ (200, codes "OK")
  | some n ↦
      let status = (read_lines (lines (lossy (take n output))) (200, false)).0 in
      (status, title_of status)
]
