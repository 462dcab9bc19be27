-- ===== src/Loop/Request.antt =====
-- rust/crates/thttpd-core/src/eventloop.rs: `process_request`. Its parts are the reading of the request
-- line and of the headers, the path that a request resolves to, and the answers that are errors.
pub mod Fields
pub mod Place
use thttpd_rs.Base.{
  ℕ, ◌+◌, ◌-◌, Bool, true, false, not, ◌&&◌, ◌||◌, Option, none, some, List, [], ◌∷◌, ◌++◌, Bytes,
  codes, if◌then◌else◌, ◌==◌, ltb, is_empty, length, take, eq_bytes, words,
}
use thttpd_rs.Base.Int.{ℤ, pos, negsuc}
use thttpd_rs.Parse.Method.{Method, unknown, parse_method}
use thttpd_rs.Conn.{HttpConn}
use thttpd_rs.Url.{normalize_path, has_double_slash}
use thttpd_rs.Slot.{ConnSlot}
use thttpd_rs.Response.{error_page, build_full_response}
use thttpd_rs.Loop.{Env, Shared, After, transition_to_sending}
use thttpd_rs.Loop.Request.Fields.{request_line, with_request_line, with_headers}
use thttpd_rs.Loop.Request.Place.{place, file_path, is_script}

abbrev pub max_url_length : ℕ
max_url_length = 10000

-- Where a request goes that is no error: a file by its path below the directory, where `none` is a
-- panic, or a script.
pub record Stages : Type 0 where
  pub serve_static : Bytes → ConnSlot → Shared → Option After
  pub dispatch_cgi : ConnSlot → Shared → After

-- The full response with an error page, without a header for a client that sent no version.
unfoldable pub error_response : Env → ℕ → Bytes → Bytes → Bytes → HttpConn → Bytes
error_response env code text form arg http =
    let page = error_page code text form arg (some http.user_agent) in
    let response =
      build_full_response env.now_ts env.format_date http code text (codes "text/html") (negsuc 0)
        (pos 0) [] in
    if http.mime_flag then response ++ page else page

unfoldable pub answer_error : Env → ℕ → ℕ → ℕ → Bytes → Bytes → Bytes → ConnSlot → Shared → After
unfolding error_response
answer_error env now key code text form arg slot sh =
    let response = error_response env code text form arg slot.http in
    transition_to_sending env now key
      (record slot {
        http = record slot.http { response = response; response_len = length response };
      })
      sh

abbrev pub bad_form : Bytes
bad_form = codes "Your request has bad syntax or is inherently impossible to satisfy.\n"

abbrev pub unimplemented_form : Bytes
unimplemented_form = codes "The requested method '%.80s' is not implemented by this server.\n"

abbrev pub unusual_form : Bytes
unusual_form = codes "There was an unusual problem serving the requested URL '%.80s'.\n"

abbrev pub not_found_form : Bytes
not_found_form = codes "The requested URL '%.80s' was not found on this server.\n"

abbrev pub path_info_form : Bytes
path_info_form =
    codes
      "The requested URL '%.80s' resolves to a file plus CGI-style pathinfo, but the file is not a valid CGI file.\n"

-- A request whose path is resolved.
unfoldable pub located : Env → Stages → ℕ → ℕ → Bytes → ConnSlot → Shared → Option After
unfolding place is_script file_path
located env stages now key path slot sh =
    let slot1 = record slot { http = place env path slot.http } in
    let url = slot1.http.encoded_url in
    if is_script env slot1.http.orig_filename
    then some (stages.dispatch_cgi slot1 sh)
    else if not (is_empty slot1.http.path_info)
    then some (answer_error env now key 403 (codes "Forbidden") path_info_form url slot1 sh)
    else stages.serve_static (file_path env path slot.http) slot1 sh

-- The answer to a path that cannot be normalised.
unfoldable pub refused_path : Env → ℕ → ℕ → ConnSlot → Shared → After
refused_path env now key slot sh =
    let decoded = slot.http.decoded_url in
    if has_double_slash decoded
    then answer_error env now key 400 (codes "Bad Request") bad_form decoded slot sh
    else answer_error env now key 404 (codes "Not Found") not_found_form decoded slot sh

-- A request whose headers are read.
unfoldable pub routed : Env → Stages → ℕ → ℕ → ConnSlot → Shared → Option After
unfolding located
routed env stages now key slot sh =
    let url = slot.http.encoded_url in
    if ltb max_url_length (length url)
    then some (answer_error env now key 500 (codes "Internal Error") unusual_form url slot sh)
    else elim (normalize_path slot.http.decoded_url) [
      | some path ↦ located env stages now key path slot sh
      | none ↦ some (refused_path env now key slot sh)
    ]

abbrev pub is_unknown : Method → Bool
is_unknown unknown = true
is_unknown _ = false

-- The first word of the request line, as it is shown for an unknown method.
abbrev pub method_word : List Bytes → Bytes
method_word [] = codes "UNKNOWN"
method_word (word ∷ _) = word

-- A request whose line is read: a version above 1.0 wants a host.
unfoldable pub started_request : Env → Stages → ℕ → ℕ → Bytes → ConnSlot → Shared → Option After
started_request env stages now key buf slot sh =
    let version = slot.http.http_version in
    let word = method_word (words (request_line env buf)) in
    if slot.http.one_one && is_empty slot.http.host
    then some (answer_error env now key 400 (codes "Bad Request") bad_form version slot sh)
    else if is_unknown slot.http.method
    then some
        (answer_error env now key 501 (codes "Not Implemented") unimplemented_form word slot sh)
    else routed env stages now key (record slot { http = with_headers env buf slot.http }) sh

-- `none` is a panic: the checked bytes are not in the buffer, or the file cannot be served.
unfoldable pub process_request : Env → Stages → ℕ → ℕ → ConnSlot → Shared → Option After
unfolding with_request_line started_request
process_request env stages now key slot sh =
    let buf = take slot.http.checked_idx slot.http.read_buf in
    elim (parse_method slot.http.read_buf slot.http.checked_idx) [
      | none ↦ none
      | some method ↦
          started_request env stages now key buf
            (record slot { http = with_request_line env buf method slot.http }) sh
    ]
