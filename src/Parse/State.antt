-- ===== src/Parse/State.antt =====
-- rust/crates/thttpd-http/src/parse_state.rs: the states and the answers of request detection.
use thttpd_rs.Base.{Bool, true, false}

pub data GotRequest : Type 0 where
  no_request got_request bad_request : GotRequest

pub data ParseState : Type 0 where
  first_word first_ws second_word second_ws third_word third_ws : ParseState
  lf cr crlf crlfcr line got_request bogus : ParseState

abbrev pub initial : ParseState
initial = ParseState.first_word

unfoldable pub is_terminal : ParseState → Bool
is_terminal ParseState.got_request = true
is_terminal ParseState.bogus = true
is_terminal _ = false
