-- ===== src/Loop/Static.antt =====
-- rust/crates/thttpd-core/src/eventloop.rs: `serve_static`. Its first part decides whether a file may be
-- served; each refusal is an error page.
mod Content
pub mod Ranges
pub mod Panics
pub mod Safe
pub mod Senders
unfoldable pub use Content.*
use thttpd_rs.Base.{
  ℕ, ◌+◌, ◌-◌, ◌/◌, ◌%◌, Bool, true, false, not, ◌&&◌, ◌||◌, Option, none, some, List, [], ◌∷◌,
  ◌++◌, Bytes, codes, if◌then◌else◌, ◌==◌, ltb, length, is_empty, split,
}
use thttpd_rs.Base.Int.{ℤ, pos, negsuc}
use thttpd_rs.Auth.{
  AuthResult, no_auth_file, ok, unauthorized, forbidden, err_401_title, err_401_form, auth_check2,
}
use thttpd_rs.Conn.{HttpConn}
use thttpd_rs.Slot.{ConnSlot}
use thttpd_rs.Response.{build_full_response, error_page}
use thttpd_rs.Loop.{Env, Shared, After}
use thttpd_rs.Loop.Request.{answer_error, unusual_form, not_found_form, path_info_form}
use thttpd_rs.Loop.Request.Place.{last_slash}

abbrev pub outside_form : Bytes
outside_form =
    codes
      "The requested URL '%.80s' resolves to a file outside the permitted web server directory tree.\n"

abbrev pub inaccessible_form : Bytes
inaccessible_form = codes "The requested URL '%.80s' is not accessible.\n"

abbrev pub not_readable_form : Bytes
not_readable_form =
    codes "The requested URL '%.80s' resolves to a file that is not world-readable.\n"

abbrev pub executable_form : Bytes
executable_form =
    codes
      "The requested URL '%.80s' resolves to a file which is marked executable but is not a CGI file; retrieving it is forbidden.\n"

pub data Resolved : Type 0 where
  no_root outside : Resolved
  at : Bytes → Resolved

-- The path behind its symbolic links; one that cannot be resolved stays.
unfoldable pub resolved : Files → Bytes → Resolved
resolved files path = if files.no_symlink_check then at path else elim files.root [
  | none ↦ no_root
  | some root ↦ elim (files.canonicalize path) [
    | none ↦ at path
    | some canonical ↦ if files.begins_with canonical root then at canonical else outside
  ]
]

-- A component of more than 255 bytes.
unfoldable pub has_long_name : List Bytes → Bool
has_long_name [] = false
has_long_name (name ∷ names) = ltb 255 (length name) || has_long_name names

-- `s.trim_start_matches('/')`
unfoldable pub drop_slashes : Bytes → Bytes
drop_slashes [] = []
drop_slashes (c ∷ s) = let rest = drop_slashes s in if c == b'/' then rest else c ∷ s

-- The directory of the URL.
unfoldable pub realm_of : Bytes → Bytes
unfolding drop_slashes
realm_of url = elim (last_slash url) [ none ↦ [] | some (dir, _) ↦ drop_slashes dir ]

-- The page that asks for a password.
unfoldable pub unauthorized_response : Env → HttpConn → Bytes
unfolding realm_of
unauthorized_response env http =
    let page = error_page 401 err_401_title err_401_form http.encoded_url (some http.user_agent) in
    let realm = codes "Basic realm=\"" ++ realm_of http.encoded_url ++ codes "\"" in
    let response =
      build_full_response env.now_ts env.format_date http 401 err_401_title (codes "text/html")
        (negsuc 0) (pos 0) ((codes "WWW-Authenticate", realm) ∷ []) in
    if http.mime_flag then response ++ page else page

-- A page of the names in a directory.
unfoldable pub listing_response : Env → Metadata → Bytes → HttpConn → Bytes
listing_response env m page http =
    let response =
      build_full_response env.now_ts env.format_date http 200 (codes "OK") (codes "text/html")
        (negsuc 0) (mtime m) [] in
    if http.mime_flag then response ++ page else page

-- The last three bits of a mode are the rights of all others.
abbrev pub is_world_readable : ℕ → Bool
is_world_readable mode = not (mode / 4 % 2 == 0)

abbrev pub is_world_executable : ℕ → Bool
is_world_executable mode = not (mode % 2 == 0)

-- A file or directory that the client may see.
unfoldable pub serve_found :
    Env → Files → ℕ → ℕ → Bytes → Metadata → ConnSlot → Shared → Option After
unfolding listing_response serve_file
serve_found env files now key path m slot sh =
    let refuse = λ (form : Bytes).
      some (answer_error env now key 403 (codes "Forbidden") form slot.http.encoded_url slot sh) in
    if m.is_dir
    then elim (files.listing path slot.http.orig_filename) [
      | some page ↦ some (answer env now key (listing_response env m page slot.http) slot sh)
      | none ↦ some (
          answer_error env now key 500 (codes "Internal Error") unusual_form (env.lossy path) slot
            sh)
    ]
    else if not (is_world_readable m.mode)
    then refuse not_readable_form
    else if is_world_executable m.mode
    then refuse executable_form
    else if not (is_empty slot.http.path_info)
    then refuse path_info_form
    else serve_file env files now key path m slot sh

-- What follows the check of the password.
unfoldable pub serve_checked :
    AuthResult → Env → Files → ℕ → ℕ → Bytes → Metadata → ConnSlot → Shared → Option After
unfolding unauthorized_response serve_found
serve_checked no_auth_file env files now key path m slot sh =
    serve_found env files now key path m slot sh
serve_checked ok env files now key path m slot sh = serve_found env files now key path m slot sh
serve_checked unauthorized env files now key path m slot sh =
    some (answer env now key (unauthorized_response env slot.http) slot sh)
serve_checked forbidden env files now key path m slot sh = some (
    answer_error env now key 403 (codes "Forbidden") inaccessible_form slot.http.encoded_url slot
      sh)

-- What follows the reading of the metadata.
unfoldable pub serve_stat : Stat → Env → Files → ℕ → ℕ → Bytes → ConnSlot → Shared → Option After
unfolding has_long_name serve_checked
serve_stat not_found env files now key path slot sh =
    some (
      answer_error env now key 404 (codes "Not Found") not_found_form slot.http.encoded_url slot sh)
serve_stat unreadable env files now key path slot sh =
    let url = slot.http.encoded_url in
    some (
      if has_long_name (split b'/' path)
      then answer_error env now key 500 (codes "Internal Error") unusual_form url slot sh
      else answer_error env now key 403 (codes "Forbidden") inaccessible_form url slot sh)
serve_stat (found m) env files now key path slot sh =
    serve_checked (auth_check2 files.auth path slot.http.authorization) env files now key path m
      slot sh

unfoldable pub serve_resolved : Resolved → Env → Files → ℕ → ℕ → ConnSlot → Shared → Option After
unfolding serve_stat
serve_resolved no_root env files now key slot sh =
    some (answer_error env now key 500 (codes "Internal Error") unusual_form files.dir_text slot sh)
serve_resolved outside env files now key slot sh =
    some
      (answer_error env now key 403 (codes "Forbidden") outside_form slot.http.encoded_url slot sh)
serve_resolved (at path) env files now key slot sh =
    serve_stat (files.stat path) env files now key path slot sh

-- `none` is a panic.
unfoldable pub serve_static : Env → Files → ℕ → ℕ → Bytes → ConnSlot → Shared → Option After
unfolding resolved serve_resolved
serve_static env files now key path slot sh =
    serve_resolved (resolved files path) env files now key
      (record slot { http = record slot.http { charset = files.charset } }) sh
