-- ===== src/Parse.antt =====
-- rust/crates/thttpd-http/src/parse.rs: the byte-at-a-time detection of a complete request.
pub mod State
pub mod Method
pub mod Feed
pub mod Incremental
pub mod Accepts
use State.{
  GotRequest, no_request, bad_request, ParseState, first_word, first_ws, second_word, second_ws,
  third_word, third_ws, lf, cr, crlf, crlfcr, line, bogus,
}
use thttpd_rs.Base.{
  ℕ, zero, suc, ◌+◌, ◌-◌, Bool, ◌||◌, Option, none, some, Bytes, ◌==◌, if◌then◌else◌, get_elem?,
}

-- One round of the loop: the next state, or an early return with how far the index moves.
pub data Round : Type 0 where
  go : ParseState → Round
  stop : GotRequest → ℕ → ParseState → Round

abbrev is_blank : ℕ → Bool
is_blank c = c == b' ' || c == 9

abbrev is_end : ℕ → Bool
is_end c = c == 13 || c == 10

bad : Round
bad = stop bad_request 0 bogus

complete : Round
complete = stop GotRequest.got_request 1 ParseState.got_request

-- The transition table: `13` is a carriage return, `10` a line feed.
unfoldable pub step : ParseState → ℕ → Round
unfolding bad complete
step first_word c = if is_blank c then go first_ws else if is_end c then bad else go first_word
step first_ws c = if is_blank c then go first_ws else if is_end c then bad else go second_word
step second_word c =
    if is_blank c then go second_ws else if is_end c then complete else go second_word
step second_ws c = if is_blank c then go second_ws else if is_end c then bad else go third_word
step third_word c =
    if is_blank c
    then go third_ws
    else if c == 13
    then go cr
    else if c == 10
    then go lf
    else go third_word
step third_ws c =
    if is_blank c then go third_ws else if c == 13 then go cr else if c == 10 then go lf else bad
step lf c = if c == 13 then go cr else if c == 10 then complete else go line
step cr c = if c == 10 then go crlf else if c == 13 then complete else go line
step crlf c = if c == 13 then go crlfcr else if c == 10 then complete else go line
step line c = if c == 13 then go cr else if c == 10 then go lf else go line
step crlfcr c = if is_end c then complete else go line
step ParseState.got_request c = stop no_request 0 ParseState.got_request
step bogus c = stop no_request 0 bogus

abbrev pub Answer : Type 0
Answer = GotRequest × ℕ × ParseState

-- What the loop does after the match, with the rest of the loop as `rest`.
continue : Round → ℕ → (ParseState → Option Answer) → Option Answer
continue (go state) i rest = rest state
continue (stop r advance state) i rest = some (r, i + advance, state)

-- `rounds` is `read_idx - checked_idx`; `none` is the panic of an index beyond the buffer.
scan : ℕ → Bytes → ℕ → ParseState → Option Answer
unfolding continue step
scan zero read_buf i state = some (no_request, i, state)
scan (suc rounds) read_buf i state =
    let rest = scan rounds read_buf (i + 1) in
    elim (get_elem? read_buf i) [ none ↦ none | some c ↦ continue (step state c) i rest ]

unfoldable pub got_request : Bytes → ℕ → ℕ → ParseState → Option Answer
unfolding scan
got_request read_buf checked_idx read_idx initial_state =
    scan (read_idx - checked_idx) read_buf checked_idx initial_state
