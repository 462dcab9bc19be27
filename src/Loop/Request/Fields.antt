-- ===== src/Loop/Request/Fields.antt =====
-- rust/crates/thttpd-core/src/eventloop.rs: what `process_request` reads off the bytes of a request.
use thttpd_rs.Base.{
  Bool, true, false, not, ◌&&◌, Option, none, some, List, [], ◌∷◌, ◌++◌, Bytes, codes,
  if◌then◌else◌, ◌==◌, is_empty, length, contains, drop, split_first, starts_with, lines, words,
  trim_text, eq_ignore_case, parse_i64,
}
use thttpd_rs.Base.Int.{ℤ, pos, negsuc, ltb_ℤ}
use thttpd_rs.Parse.Method.{Method}
use thttpd_rs.Conn.{HttpConn}
use thttpd_rs.Url.{percent_decode}
use thttpd_rs.Loop.{Env}

-- The text before the first carriage return.
unfoldable pub request_line : Env → Bytes → Bytes
request_line env buf = env.lossy (split_first (λ c. c == 13) buf).0

-- The bytes behind the first line; all of them if there is none.
unfoldable pub headers_bytes : Bytes → Bytes
headers_bytes buf = elim (split_first (λ c. c == 10) buf).1 [ none ↦ buf | some rest ↦ rest ]

unfoldable pub find_header : (Bytes → Bytes) → Bytes → List Bytes → Option Bytes
find_header lowercase search [] = none
find_header lowercase search (line ∷ lines) =
    if starts_with (lowercase search) (lowercase line)
    then some (trim_text (drop (length search) line))
    else find_header lowercase search lines

-- The first line that begins with the name and a colon, in any case.
unfoldable pub extract_header : Env → Bytes → Bytes → Option Bytes
unfolding find_header
extract_header env headers name =
    find_header env.lowercase (name ++ codes ":") (lines (env.lossy headers))

abbrev pub url_of : List Bytes → Bytes
url_of (_ ∷ url ∷ _) = url
url_of _ = codes "/"

abbrev pub version_of : List Bytes → Option Bytes
version_of (_ ∷ _ ∷ version ∷ _) = some version
version_of _ = none

-- The fields of the request line and the host; what follows a `?` in the decoded URL is the query.
unfoldable pub with_request_line : Env → Bytes → Method → HttpConn → HttpConn
unfolding request_line headers_bytes extract_header
with_request_line env buf method http =
    let parts = words (request_line env buf) in
    let version : Bytes = elim (version_of parts) [ none ↦ codes "HTTP/0.9" | some v ↦ v ] in
    let has_version : Bool = elim (version_of parts) [ none ↦ false | some _ ↦ true ] in
    let decoded = split_first (λ c. c == b'?') (percent_decode env.lossy (url_of parts)) in
    record http {
      method = method;
      http_version = version;
      one_one =
          has_version && not (is_empty version) && not (eq_ignore_case version (codes "HTTP/1.0"));
      encoded_url = url_of parts;
      host = elim (extract_header env (headers_bytes buf) (codes "Host")) [
        | none ↦ []
        | some h ↦ h
      ];
      mime_flag = has_version;
      decoded_url = decoded.0;
      query = elim decoded.1 [ none ↦ http.query | some q ↦ q ];
    }

-- The end of a range, if it is there; a negative one is none.
unfoldable pub with_last_byte : Bytes → HttpConn → HttpConn
with_last_byte last http = if is_empty last then http else elim (parse_i64 last) [
  | none ↦ http
  | some n ↦ record http { last_byte_index = if ltb_ℤ n (pos 0) then negsuc 0 else n }
]

-- What stands behind the `=` of a range: its beginning is not empty.
unfoldable pub with_range_spec : Bytes → HttpConn → HttpConn
unfolding with_last_byte
with_range_spec spec http = elim (split_first (λ c. c == b'-') spec).1 [
  | none ↦ http
  | some last ↦
      let first = (split_first (λ c. c == b'-') spec).0 in
      if is_empty first then http else elim (parse_i64 first) [
        | none ↦ http
        | some n ↦ with_last_byte last (record http {
          got_range = true;
          first_byte_index = if ltb_ℤ n (pos 0) then pos 0 else n;
        })
      ]
]

-- A single range of bytes.
unfoldable pub with_range : Bytes → HttpConn → HttpConn
unfolding with_range_spec
with_range range http =
    if contains b',' range then http else elim (split_first (λ c. c == b'=') range).1 [
      | none ↦ http
      | some spec ↦ with_range_spec spec http
    ]

-- A length that is no negative number.
unfoldable pub parse_content_length : Bytes → Option ℤ
parse_content_length v = elim (parse_i64 (trim_text v)) [
  | none ↦ none
  | some n ↦ if ltb_ℤ n (pos 0) then none else some n
]

-- The first of the addresses, unless it is empty.
unfoldable pub with_forwarded_for : Bytes → HttpConn → HttpConn
with_forwarded_for xff http =
    let first = trim_text (split_first (λ c. c == b',') xff).0 in
    if is_empty first then http else record http { x_forwarded_for = first }

-- A header that is there sets its field.
unfoldable pub set : Env → Bytes → Bytes → (Bytes → HttpConn → HttpConn) → HttpConn → HttpConn
unfolding extract_header
set env headers name f http = elim (extract_header env headers name) [
  | none ↦ http
  | some v ↦ f v http
]

unfoldable pub with_headers : Env → Bytes → HttpConn → HttpConn
unfolding headers_bytes set with_range parse_content_length with_forwarded_for
with_headers env buf http =
    let headers = headers_bytes buf in
    let h1 =
      set env headers (codes "If-Modified-Since")
        (λ v h. record h { if_modified_since = env.parse_http_date v }) http in
    let h2 = set env headers (codes "Range") with_range h1 in
    let h3 = set env headers (codes "Content-Type") (λ v h. record h { content_type = v }) h2 in
    let h4 =
      set env headers (codes "Content-Length")
        (λ v h. record h { content_length = parse_content_length v }) h3 in
    let h5 = set env headers (codes "User-Agent") (λ v h. record h { user_agent = v }) h4 in
    let h6 = set env headers (codes "Referer") (λ v h. record h { referer = v }) h5 in
    let h7 = set env headers (codes "Accept") (λ v h. record h { accept = v }) h6 in
    let h8 =
      set env headers (codes "Accept-Encoding") (λ v h. record h { accept_encoding = v }) h7 in
    let h9 =
      set env headers (codes "Accept-Language") (λ v h. record h { accept_language = v }) h8 in
    let h10 = set env headers (codes "Cookie") (λ v h. record h { cookie = v }) h9 in
    let h11 = set env headers (codes "Authorization") (λ v h. record h { authorization = v }) h10 in
    set env headers (codes "X-Forwarded-For") with_forwarded_for h11
