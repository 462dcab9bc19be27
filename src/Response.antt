-- ===== src/Response.antt =====
-- rust/crates/thttpd-http/src/response.rs and error.rs: responses as bytes. A text is its bytes. The
-- clock and the printed dates are arguments.
pub mod Page
use thttpd_rs.Base.{
  ℕ, ◌+◌, ◌-◌, ◌/◌, Bool, true, false, not, ◌&&◌, ◌||◌, Option, none, some, List, [], ◌∷◌, ◌++◌,
  Bytes, codes, ◌==◌, leb, ltb, if◌then◌else◌, zero, suc, is_empty, length, take, get_elem?,
  starts_with, contains_sub, replace_all, eq_ignore_case, decimal, decimal_ℤ,
}
use thttpd_rs.Base.Int.{ℤ, pos, negsuc, ltb_ℤ, eqb_ℤ, ◌+ℤ◌, ◌-ℤ◌}
use thttpd_rs.Conn.{HttpConn}

abbrev pub server_software : Bytes
server_software = codes "sthttpd/2.27.0 03oct2014"

abbrev pub server_address : Bytes
server_address = codes "http://localhost"

abbrev pub crlf : Bytes
crlf = 13 ∷ 10 ∷ []

pub data HttpError : Type 0 where
  bad_request forbidden not_found request_timeout internal_server_error not_implemented
        service_unavailable :
      HttpError
  unauthorized : Bytes → HttpError

unfoldable pub status_code : HttpError → ℕ
status_code bad_request = 400
status_code (unauthorized _) = 401
status_code forbidden = 403
status_code not_found = 404
status_code request_timeout = 408
status_code internal_server_error = 500
status_code not_implemented = 501
status_code service_unavailable = 503

unfoldable pub status_text : HttpError → Bytes
status_text bad_request = codes "Bad Request"
status_text (unauthorized _) = codes "Unauthorized"
status_text forbidden = codes "Forbidden"
status_text not_found = codes "Not Found"
status_text request_timeout = codes "Request Timeout"
status_text internal_server_error = codes "Internal Server Error"
status_text not_implemented = codes "Not Implemented"
status_text service_unavailable = codes "Service Unavailable"

-- The same text for every error.
unfoldable pub title : HttpError → Bytes
unfolding status_text
title e = status_text e

abbrev pub Headers : Type 0
Headers = List (Bytes × Bytes)

pub record ResponseBuilder : Type 0 where
  pub code : ℕ
  pub text : Bytes
  pub headers : Headers
  pub content : Bytes

unfoldable pub new : ResponseBuilder
new = record { code = 200; text = codes "OK"; headers = []; content = [] }

unfoldable pub status : ℕ → Bytes → ResponseBuilder → ResponseBuilder
status code text b = record b { code = code; text = text }

unfoldable pub header : Bytes → Bytes → ResponseBuilder → ResponseBuilder
header name value b = record b { headers = b.headers ++ (name, value) ∷ [] }

unfoldable pub body : Bytes → ResponseBuilder → ResponseBuilder
body content b = record b { content = content }

-- `{}: {}\r\n`
unfoldable pub header_line : Bytes → Bytes → Bytes
header_line name value = name ++ codes ": " ++ value ++ crlf

unfoldable pub header_lines : Headers → Bytes
unfolding header_line
header_lines [] = []
header_lines ((name, value) ∷ hs) = header_line name value ++ header_lines hs

unfoldable pub build : ResponseBuilder → Bytes
unfolding header_lines
build b =
    codes "HTTP/1.0 "
    ++ decimal b.code
    ++ codes " "
    ++ b.text
    ++ crlf
    ++ header_lines b.headers
    ++ crlf
    ++ b.content

-- A range of the file is asked for and given, not the whole of it.
unfoldable pub is_partial : HttpConn → ℕ → ℤ → ℤ → Bool
is_partial http status_ len mod_time =
    http.got_range
    && status_ == 200
    && not (ltb_ℤ http.last_byte_index http.first_byte_index)
    && (not (eqb_ℤ http.last_byte_index (len -ℤ pos 1))
        || not (eqb_ℤ http.first_byte_index (pos 0)))
    && elim http.range_if [ none ↦ true | some t ↦ eqb_ℤ t mod_time ]

unfoldable pub fixed_type : HttpConn → Bytes → Bytes
fixed_type http content_type =
    let charset = if is_empty http.charset then codes "iso-8859-1" else http.charset in
    if starts_with (codes "text/") content_type
      && not (contains_sub (codes "charset=") content_type)
    then content_type ++ codes "; charset=" ++ charset
    else content_type

-- The extra headers that are, or are not, a content encoding.
unfoldable pub pick_headers : Bool → Headers → Headers
pick_headers wanted [] = []
pick_headers wanted ((name, value) ∷ hs) =
    let rest = pick_headers wanted hs in
    let is_encoding = eq_ignore_case name (codes "Content-Encoding") in
    if wanted
    then (if is_encoding then (codes "Content-Encoding", value) ∷ rest else rest)
    else if is_encoding
    then rest
    else (name, value) ∷ rest

-- The headers in front of the extra ones, in order.
unfoldable pub standard_headers : Bytes → Bytes → Bytes → ℕ → Headers
standard_headers content_type now_str mod_str final_status =
    let s100 = final_status / 100 in
    (codes "Server", server_software)
    ∷ (codes "Content-Type", content_type)
    ∷ (codes "Date", now_str)
    ∷ (codes "Last-Modified", mod_str)
    ∷ (codes "Accept-Ranges", codes "bytes")
    ∷ (codes "Connection", codes "close")
    ∷ (if s100 == 2 || s100 == 3
        then []
        else (codes "Cache-Control", codes "no-cache,no-store") ∷ [])

unfoldable pub length_headers : HttpConn → Bool → ℤ → Headers
length_headers http partial len =
    if partial
    then (
      codes "Content-Range",
      codes "bytes "
          ++ decimal_ℤ http.first_byte_index
          ++ codes "-"
          ++ decimal_ℤ http.last_byte_index
          ++ codes "/"
          ++ decimal_ℤ len,
    )
      ∷ (codes "Content-Length", decimal_ℤ (http.last_byte_index -ℤ http.first_byte_index +ℤ pos 1))
      ∷ []
    else if ltb_ℤ len (pos 0)
    then []
    else (codes "Content-Length", decimal_ℤ len) ∷ []

-- The version of the request, or the default one.
unfoldable pub protocol_of : HttpConn → Bytes
protocol_of http = if is_empty http.http_version then codes "HTTP/1.0" else http.http_version

unfoldable pub status_line : Bytes → ℕ → Bytes → Bytes
status_line protocol code text = protocol ++ codes " " ++ decimal code ++ codes " " ++ text ++ crlf

-- `now_ts` is the clock and `date` is `format_http_date`.
unfoldable pub build_full_response :
    ℤ → (ℤ → Bytes) → HttpConn → ℕ → Bytes → Bytes → ℤ → ℤ → Headers → Bytes
unfolding is_partial fixed_type pick_headers standard_headers length_headers protocol_of status_line
    header_lines
build_full_response now_ts date http status_ text content_type len mtime extra =
    let mod_time = if eqb_ℤ mtime (pos 0) then now_ts else mtime in
    let partial = is_partial http status_ len mod_time in
    let final_status = if partial then 206 else status_ in
    let final_text = if partial then codes "Partial Content" else text in
    if http.mime_flag
    then status_line (protocol_of http) final_status final_text
      ++ header_lines (
          standard_headers (fixed_type http content_type) (date now_ts) (date mod_time) final_status
          ++ pick_headers true extra
          ++ length_headers http partial len
          ++ pick_headers false extra)
      ++ crlf
    else []

-- A byte at which a character may begin.
unfoldable pub is_char_start : ℕ → Bool
is_char_start b = ltb b 0x80 || leb 0xc0 b

unfoldable pub is_char_boundary : Bytes → ℕ → Bool
is_char_boundary s i =
    i == 0 || elim (get_elem? s i) [ none ↦ i == length s | some b ↦ is_char_start b ]

-- The loop down to a character boundary.
unfoldable pub floor_from : Bytes → ℕ → ℕ
unfolding is_char_boundary
floor_from s zero = 0
floor_from s (suc i) =
    let rest = floor_from s i in if is_char_boundary s (suc i) then suc i else rest

unfoldable pub floor_char_boundary : Bytes → ℕ → ℕ
unfolding floor_from
floor_char_boundary s index = if leb (length s) index then length s else floor_from s index

unfoldable pub defang : Bytes → Bytes
defang [] = []
defang (c ∷ s) =
    let rest = defang s in
    if c == b'<' then codes "&lt;" ++ rest else if c == b'>' then codes "&gt;" ++ rest else c ∷ rest

-- The argument as a page shows it: escaped, and cut at 80 bytes.
unfoldable pub shown : Bytes → Bytes
unfolding defang floor_char_boundary
shown arg =
    let defanged = defang arg in
    if ltb 80 (length defanged) then take (floor_char_boundary defanged 80) defanged else defanged

unfoldable pub body_message : Bytes → Bytes → Bytes
unfolding shown
body_message form arg =
    if contains_sub (codes "%.80s") form then replace_all (codes "%.80s") (shown arg) form else form

unfoldable pub repeat : ℕ → Bytes → Bytes
repeat zero s = []
repeat (suc n) s = s ++ repeat n s

abbrev pub padding : Bytes
padding = codes "Padding so that MSIE deigns to show this error instead of its own canned one.\n"

unfoldable pub msie_padding : Option Bytes → Bytes
unfolding repeat
msie_padding none = []
msie_padding (some agent) =
    if contains_sub (codes "MSIE") agent
    then codes "<!--\n" ++ repeat 6 padding ++ codes "-->\n"
    else []

unfoldable pub error_page : ℕ → Bytes → Bytes → Bytes → Option Bytes → Bytes
unfolding body_message msie_padding
error_page code title_ form arg user_agent =
    codes "<HTML>\n<HEAD><TITLE>"
    ++ decimal code
    ++ codes " "
    ++ title_
    ++ codes
        "</TITLE></HEAD>\n<BODY BGCOLOR=\"#cc9999\" TEXT=\"#000000\" LINK=\"#2020ff\" VLINK=\"#4040cc\">\n<H2>"
    ++ decimal code
    ++ codes " "
    ++ title_
    ++ codes "</H2>\n"
    ++ body_message form arg
    ++ msie_padding user_agent
    ++ codes "<HR>\n<ADDRESS><A HREF=\""
    ++ server_address
    ++ codes "\">"
    ++ server_software
    ++ codes "</A></ADDRESS>\n</BODY>\n</HTML>\n"
