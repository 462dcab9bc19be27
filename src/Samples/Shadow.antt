-- ===== src/Samples/Shadow.antt =====
-- Samples of the comparison of two responses and of the check of a configuration.
use thttpd_rs.Base.{
  ◌≡◌, refl, true, false, [], ◌∷◌, ◌++◌, some, codes, arith, Bytes, eq_bytes, find_sub, starts_with,
  replace_all,
}
use thttpd_rs.Router.{shadow}
use thttpd_rs.Backend.{BackendConfig}
use thttpd_rs.Live.{ProxyConfig}
use thttpd_rs.Diff
use thttpd_rs.Diff.{
  Response, RequestContext, diff_responses, regex_replace, normalize_pwd, split_pattern,
  unescape_regex_literal, is_timestamp, normalize_header_value, normalize_body_bytes,
}
use thttpd_rs.Diff.Ports.{regex_replace-digits, normalize_pwd_id}
use thttpd_rs.Diff.Agrees.{Alike, diff_responses-Alike}
use thttpd_rs.Forward.{
  Frame, Headers, read_capped, read_frame, write_frame, forwarded_headers, rebuilt_headers,
}
use thttpd_rs.Forward.Bodies.{data_of, Whole, read_capped-Whole}
use thttpd_rs.Forward.Frames.{read_frame-write_frame}
use thttpd_rs.Config
use thttpd_rs.Config.Valid.{IsValid, validate-IsValid}

-- Two ports, the same text.
regex_replace-digits_example :
    regex_replace
      (codes "SERVER_PORT=8081 ok")
      (codes "SERVER_PORT=\\d+")
      (codes "SERVER_PORT=PORT")
    ≡ codes "SERVER_PORT=PORT"
      ++ regex_replace (codes " ok") (codes "SERVER_PORT=\\d+") (codes "SERVER_PORT=PORT")
unfolding split_pattern find_sub starts_with unescape_regex_literal replace_all
regex_replace-digits_example =
    regex_replace-digits (codes "SERVER_PORT=\\d+") (codes "SERVER_PORT=") (codes "ERVER_PORT=")
      (codes "SERVER_PORT=PORT") (codes "8081") (codes " ok") b'S' refl refl
      (refl, (refl, (refl, (refl, tt)))) refl refl

-- A directory stays in the text.
normalize_pwd_id_example : normalize_pwd (codes "PWD=/srv/cgi-bin") ≡ codes "PWD=/srv/cgi-bin"
normalize_pwd_id_example = normalize_pwd_id (codes "PWD=/srv/cgi-bin") refl

abbrev first_date : Bytes
first_date = codes "Tue, 09 Jun 2026 03:20:35 GMT"

abbrev next_date : Bytes
next_date = codes "Tue, 09 Jun 2026 03:20:36 GMT"

abbrev answer_of : Bytes → Bytes → Response
answer_of name date = record {
  status = 200;
  headers = (name, date) ∷ [];
  body = codes "hello";
  truncated = false;
}

abbrev context : RequestContext
context = record { path = codes "/"; method = codes "GET"; request_id = codes "1" }

diff_responses-Alike_example :
    diff_responses
      (λ s. s)
      (answer_of (codes "Date") first_date)
      (answer_of (codes "date") next_date)
      context
    ≡ []
unfolding normalize_header_value is_timestamp Diff.all_of eq_bytes
diff_responses-Alike_example =
    diff_responses-Alike (λ s. s) (answer_of (codes "Date") first_date)
      (answer_of (codes "date") next_date) context refl refl refl
      (Alike.one (codes "Date") first_date (codes "date") next_date [] [] refl refl Alike.none) refl

abbrev backend_at : Bytes → BackendConfig
backend_at address = record { address = address; weight = 1; health_path = codes "/" }

abbrev config : ProxyConfig
config = record {
  listen = codes "127.0.0.1:8080";
  metrics_listen = codes "127.0.0.1:9100";
  backends =
      ("legacy", backend_at (codes "127.0.0.1:8081"))
      ∷ ("rust", backend_at (codes "[::1]:82"))
      ∷ [];
  routing = record { mode = shadow; primary_backend = some "legacy"; shadow_backend = some "rust" };
}

abbrev parsers : Config.Parsers
parsers = record { is_uri = λ s. true; is_socket_addr = λ s. true }

validate-IsValid_example : IsValid parsers config
unfolding Config.validate Config.validate_addresses
validate-IsValid_example = validate-IsValid parsers config refl

capped_hello :
    read_capped (Frame.chunk (codes "he") ∷ Frame.chunk (codes "llo") ∷ Frame.trailers ∷ []) 3
    ≡ some (codes "hel", (some (codes "lo"), (true, Frame.trailers ∷ [])))
unfolding read_capped
capped_hello = refl

read_capped-Whole_example :
    Whole 3 (codes "hello") (codes "hel", (some (codes "lo"), (true, Frame.trailers ∷ [])))
unfolding data_of
read_capped-Whole_example =
    read_capped-Whole (Frame.chunk (codes "he") ∷ Frame.chunk (codes "llo") ∷ Frame.trailers ∷ []) 3
      (codes "hel", (some (codes "lo"), (true, Frame.trailers ∷ []))) capped_hello

read_frame-write_frame_example :
    read_frame (write_frame (codes "hello") ++ codes "next") ≡ some (codes "hello", codes "next")
read_frame-write_frame_example = read_frame-write_frame (codes "hello") (codes "next") (omega arith)

-- A client that names a header of its own as per-hop.
abbrev sent : Headers
sent =
    (codes "connection", codes "close, X-Hop")
    ∷ (codes "x-hop", codes "1")
    ∷ (codes "accept", codes "*/*")
    ∷ []

one_goes_on :
    rebuilt_headers (forwarded_headers (λ v. some v) sent) (codes "127.0.0.1:8081")
    ≡ (codes "accept", codes "*/*") ∷ (codes "host", codes "127.0.0.1:8081") ∷ []
unfolding rebuilt_headers forwarded_headers
one_goes_on = refl
