-- ===== src/Samples/Http.antt =====
-- Samples of glob matching, request detection and connection state.
use thttpd_rs.Base.{
  ◌≡◌, refl, ◌↔◌, true, false, List, [], ◌∷◌, ◌++◌, Bytes, codes, Any, some, split, arith,
}
use thttpd_rs.Match.{match_single, match_pattern}
use thttpd_rs.Match.Spec.{items, Matches}
use thttpd_rs.Match.Decides.{match_single-Matches, match_pattern-Matches}
use thttpd_rs.Parse.{got_request}
use thttpd_rs.Parse.State.{GotRequest, no_request, ParseState, initial, is_terminal, second_word}
use thttpd_rs.Parse.Method
use thttpd_rs.Parse.Incremental.{got_request_resumes}
use thttpd_rs.Parse.Accepts.{Header, RequestLine, request_bytes, got_request_complete}

star_stays_in_directory :
    (match_pattern (codes "*.cgi") (codes "test.cgi") ≡ true)
    × (match_pattern (codes "*.cgi") (codes "sub/test.cgi") ≡ false)
    × (match_pattern (codes "/cgi-bin/*|/jef/**") (codes "/jef/sub/deep/file") ≡ true)
unfolding match_pattern
star_stays_in_directory = (refl, refl, refl)

match_single-Matches_example :
    (match_single (codes "a*") (codes "ab") ≡ true) ↔ Matches (items (codes "a*")) (codes "ab")
match_single-Matches_example = match_single-Matches (codes "a*") (codes "ab")

match_pattern-Matches_example :
    (match_pattern (codes "*.cgi|*.sh") (codes "t.sh") ≡ true)
    ↔ Any (λ sub. Matches (items sub) (codes "t.sh")) (split b'|' (codes "*.cgi|*.sh"))
match_pattern-Matches_example = match_pattern-Matches (codes "*.cgi|*.sh") (codes "t.sh")

abbrev get_line : Bytes
get_line = codes "GET /"

open_after_target : got_request get_line 0 5 initial ≡ some (no_request, 5, second_word)
unfolding got_request
open_after_target = refl

got_request_resumes_example :
    got_request (codes "GET / HTTP/1.0") 5 14 second_word
    ≡ got_request (codes "GET / HTTP/1.0") 0 14 initial
unfolding is_terminal
got_request_resumes_example =
    got_request_resumes [] get_line (codes " HTTP/1.0") [] [] 5 initial second_word refl
      open_after_target

abbrev sample_line : RequestLine
sample_line = record {
  method = codes "GET";
  target_first = b'/';
  target = [];
  version_first = b'H';
  version = codes "TTP/1.0";
}

abbrev sample_headers : List Header
sample_headers = record { first = b'H'; rest = codes "ost: a" } ∷ []

got_request_complete_example :
    got_request (request_bytes sample_line sample_headers ++ codes "GET") 0 27 initial
    ≡ some (GotRequest.got_request, 27, ParseState.got_request)
got_request_complete_example =
    got_request_complete sample_line sample_headers (codes "GET") (ground arith) (ground arith)

methods :
    (Method.parse_method (codes "HEAD / HTTP/1.0") 15 ≡ some Method.head)
    × (Method.parse_method (codes "get /") 5 ≡ some Method.unknown)
unfolding Method.parse_method
methods = (refl, refl)
