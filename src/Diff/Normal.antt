-- ===== src/Diff/Normal.antt =====
-- rust/crates/thttpd-migrate/src/diff.rs: the normalizers. A text is a list of characters, or of the bytes
-- of its UTF-8: every pattern is ASCII, so both give the same.
use thttpd_rs.Base.{
  ℕ, zero, suc, ◌+◌, ◌-◌, ◌%◌, ◌^◌, Bool, true, false, not, ◌&&◌, ◌||◌, Option, none, some, [], ◌∷◌,
  ◌++◌, Bytes, codes, map, if◌then◌else◌, ◌==◌, leb, length, take, drop, find_sub, starts_with,
  replace_all, eq_bytes,
}

abbrev pub is_ascii_digit : ℕ → Bool
is_ascii_digit c = leb b'0' c && leb c b'9'

abbrev pub is_ascii_uppercase : ℕ → Bool
is_ascii_uppercase c = leb b'A' c && leb c b'Z'

abbrev pub is_ascii_lowercase : ℕ → Bool
is_ascii_lowercase c = leb b'a' c && leb c b'z'

abbrev pub is_ascii_alphanumeric : ℕ → Bool
is_ascii_alphanumeric c = is_ascii_digit c || is_ascii_uppercase c || is_ascii_lowercase c

-- `is_ascii_whitespace`: no vertical tab.
abbrev pub is_ascii_whitespace : ℕ → Bool
is_ascii_whitespace c = c == 32 || c == 9 || c == 10 || c == 12 || c == 13

unfoldable pub all_of : (ℕ → Bool) → Bytes → Bool
all_of p [] = true
all_of p (c ∷ s) = p c && all_of p s

-- The bytes from an index up to another are all of a kind, or are this text.
abbrev pub all_between : (ℕ → Bool) → ℕ → ℕ → Bytes → Bool
all_between p start end s = all_of p (take (end - start) (drop start s))

abbrev pub reads : Bytes → ℕ → ℕ → Bytes → Bool
reads t start end s = eq_bytes t (take (end - start) (drop start s))

-- `Tue, 09 Jun 2026 03:20:35 GMT`
unfoldable pub is_timestamp : Bytes → Bool
unfolding all_of eq_bytes
is_timestamp value =
    length value == 29
    && reads (codes ", ") 3 5 value
    && reads (codes " ") 7 8 value
    && reads (codes " ") 11 12 value
    && reads (codes " ") 16 17 value
    && reads (codes " ") 25 26 value
    && reads (codes ":") 19 20 value
    && reads (codes ":") 22 23 value
    && reads (codes "GMT") 26 29 value
    && all_between is_ascii_digit 5 7 value
    && all_between is_ascii_digit 12 16 value
    && all_between is_ascii_digit 17 19 value
    && all_between is_ascii_digit 20 22 value
    && all_between is_ascii_digit 23 25 value
    && all_between is_ascii_uppercase 0 1 value
    && all_between is_ascii_lowercase 1 3 value
    && all_between is_ascii_uppercase 8 9 value
    && all_between is_ascii_lowercase 9 11 value

-- How far a loop over characters of a kind goes.
unfoldable pub run_length : (ℕ → Bool) → Bytes → ℕ
run_length p [] = 0
run_length p (c ∷ s) = let rest = run_length p s in if p c then suc rest else 0

abbrev pub golden : Bytes
golden = codes "/tmp/thttpd_golden_"

abbrev pub diff : Bytes
diff = codes "/tmp/thttpd_diff_"

abbrev pub pytest : Bytes
pytest = codes "/tmp/pytest-"

abbrev pub is_identifier : ℕ → Bool
is_identifier c = is_ascii_alphanumeric c || c == b'_'

abbrev pub is_path_part : ℕ → Bool
is_path_part c = not (c == b'/' || is_ascii_whitespace c)

-- The prefix of a path of a run: its length, what goes with it, and what is put in its place.
abbrev pub RunPath : Type 0
RunPath = ℕ × (ℕ → Bool) × Bytes

unfoldable pub path_at : Bytes → Option RunPath
unfolding starts_with
path_at s =
    if starts_with golden s
    then some (length golden, is_identifier, codes "/tmp/thttpd_NORMALIZED")
    else if starts_with diff s
    then some (length diff, is_identifier, codes "/tmp/thttpd_NORMALIZED")
    else if starts_with pytest s
    then some (length pytest, is_path_part, codes "/tmp/pytest_NORMALIZED")
    else none

-- The loop, where `skip` characters of a match are still to be passed over.
unfoldable pub paths_from : ℕ → Bytes → Bytes
unfolding path_at run_length
paths_from skip [] = []
paths_from (suc skip) (c ∷ s) = paths_from skip s
paths_from zero (c ∷ s) =
    let onward = paths_from 0 s in
    elim (path_at (c ∷ s)) [
      | none ↦ c ∷ onward
      | some (n, p, by) ↦ by ++ paths_from (n + run_length p (drop n (c ∷ s)) - 1) s
    ]

unfoldable pub normalize_paths : Bytes → Bytes
unfolding paths_from
normalize_paths value = paths_from 0 value

pub data Tail : Type 0 where
  digit any nonl : Tail

abbrev pub accepts : Tail → ℕ → Bool
accepts digit c = is_ascii_digit c
accepts any c = true
accepts nonl c = not (c == 10)

abbrev pub is_digit_tail : Tail → Bool
is_digit_tail digit = true
is_digit_tail _ = false

-- The head of a pattern and the class of its tail; `none` for a pattern without one.
unfoldable pub split_pattern : Bytes → Option (Bytes × Tail)
unfolding find_sub
split_pattern pattern = elim (find_sub (codes "\\d+") pattern) [
  | some i ↦ some (take i pattern, digit)
  | none ↦ elim (find_sub (codes ".*") pattern) [
    | some i ↦ some (take i pattern, any)
    | none ↦ elim (find_sub (codes "[^\\n]*") pattern) [
      | some i ↦ some (take i pattern, nonl)
      | none ↦ none
    ]
  ]
]

unfoldable pub unescape_regex_literal : Bytes → Bytes
unfolding replace_all
unescape_regex_literal s = replace_all (codes "\\.") (codes ".") s

-- The loop for a head that is not empty, where `skip` characters of a match are still to be passed over.
unfoldable pub replace_runs : Bytes → Tail → Bytes → ℕ → Bytes → Bytes
unfolding run_length starts_with
replace_runs head tail by skip [] = []
replace_runs head tail by (suc skip) (c ∷ s) = replace_runs head tail by skip s
replace_runs head tail by zero (c ∷ s) =
    let n = run_length (accepts tail) (drop (length head) (c ∷ s)) in
    let matched = replace_runs head tail by (length head + n - 1) s in
    let onward = replace_runs head tail by 0 s in
    if starts_with head (c ∷ s) && not (is_digit_tail tail && n == 0)
    then by ++ matched
    else c ∷ onward

unfoldable pub regex_replace : Bytes → Bytes → Bytes → Bytes
unfolding split_pattern unescape_regex_literal replace_runs replace_all
regex_replace haystack pattern replacement = elim (split_pattern pattern) [
  | none ↦ replace_all pattern replacement haystack
  | some (head, tail) ↦ replace_runs (unescape_regex_literal head) tail replacement 0 haystack
]

unfoldable pub normalize_cgi_output : Bytes → Bytes
unfolding regex_replace
normalize_cgi_output value =
    let value1 = regex_replace value (codes "SERVER_PORT=\\d+") (codes "SERVER_PORT=PORT") in
    let value2 =
      regex_replace value1 (codes "HTTP_HOST=127\\.0\\.0\\.1:\\d+")
        (codes "HTTP_HOST=127.0.0.1:PORT") in
    let value3 =
      regex_replace value2 (codes "Host: 127\\.0\\.0\\.1:\\d+") (codes "Host: 127.0.0.1:PORT") in
    regex_replace value3 (codes "Host=127\\.0\\.0\\.1:\\d+") (codes "Host=127.0.0.1:PORT")

-- The pattern has a line feed between `^` and `]`, not a backslash and an `n`.
unfoldable pub normalize_pwd : Bytes → Bytes
unfolding regex_replace
normalize_pwd value = regex_replace value (codes "PWD=/[^\n]*") (codes "PWD=NORMALIZED")

unfoldable pub normalize_value : Bytes → Bytes
unfolding normalize_paths normalize_cgi_output normalize_pwd
normalize_value value = normalize_pwd (normalize_cgi_output (normalize_paths value))

-- A byte is the character with its number.
unfoldable pub bytes_to_latin1 : Bytes → Bytes
bytes_to_latin1 bytes = map (λ b. b) bytes

unfoldable pub latin1_to_bytes : Bytes → Bytes
latin1_to_bytes s = map (λ c. c % 2 ^ 8) s

unfoldable pub normalize_body_bytes : Bytes → Bytes
unfolding bytes_to_latin1 latin1_to_bytes normalize_paths normalize_cgi_output normalize_pwd
normalize_body_bytes body =
    latin1_to_bytes (normalize_pwd (normalize_cgi_output (normalize_paths (bytes_to_latin1 body))))
