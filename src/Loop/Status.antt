-- ===== src/Loop/Status.antt =====
-- rust/crates/thttpd-core/src/eventloop.rs: what the loop reads off the bytes of a response.
use thttpd_rs.Base.{
  ℕ, ◌+◌, ◌^◌, Bool, Option, none, some, List, [], ◌∷◌, Bytes, codes, if◌then◌else◌, ltb,
  starts_with, find_sub, words, parse_below, take,
}
use thttpd_rs.Base.Int.{ℤ, pos, max_ℤ, ◌-ℤ◌}
use thttpd_rs.Conn.{HttpConn}

unfoldable pub header_end_offset : Bytes → Option ℕ
header_end_offset response = elim (find_sub (13 ∷ 10 ∷ 13 ∷ 10 ∷ []) response) [
  | some at ↦ some (at + 4)
  | none ↦ elim (find_sub (10 ∷ 10 ∷ []) response) [ none ↦ none | some at ↦ some (at + 2) ]
]

unfoldable pub entity_bytes_sent : ℤ → ℕ → ℤ
entity_bytes_sent bytes_sent header_len = max_ℤ (bytes_sent -ℤ pos header_len) (pos 0)

-- The code behind the protocol in the words of a status line.
unfoldable pub code_of_words : List Bytes → Option ℕ
code_of_words [] = none
code_of_words (protocol ∷ []) = none
code_of_words (protocol ∷ code ∷ rest) =
    if starts_with (codes "HTTP/") protocol then parse_below (2 ^ 16) code else none

-- `is_utf8` is the test of `str::from_utf8`.
unfoldable pub status_code_from_response : (Bytes → Bool) → Bytes → Option ℕ
unfolding code_of_words
status_code_from_response is_utf8 response = elim (find_sub (13 ∷ 10 ∷ []) response) [
  | none ↦ none
  | some end ↦
      if is_utf8 (take end response) then code_of_words (words (take end response)) else none
]

unfoldable pub logged_status_code : (Bytes → Bool) → HttpConn → ℕ
unfolding status_code_from_response
logged_status_code is_utf8 http =
    if ltb 0 http.status_code
    then http.status_code
    else elim (status_code_from_response is_utf8 http.response) [ none ↦ 0 | some code ↦ code ]
