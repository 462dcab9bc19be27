-- ===== src/Loop/Static/Content.antt =====
-- rust/crates/thttpd-core/src/eventloop.rs: the second part of `serve_static`, from a file that may be
-- served to its response.
use thttpd_rs.Base.{
  ℕ, ◌+◌, ◌-◌, ◌^◌, ◌%◌, Bool, true, false, not, ◌&&◌, ◌||◌, Option, none, some, [], ◌∷◌, ◌++◌,
  Bytes, codes, if◌then◌else◌, ltb, leb, length, take, drop,
}
use thttpd_rs.Base.Int.{ℤ, pos, negsuc, ltb_ℤ, eqb_ℤ, to_i64, ◌-ℤ◌}
use thttpd_rs.Cache
use thttpd_rs.Cache.{Opening, Mapping, mapped, failed}
use thttpd_rs.Parse.Method.{Method, head}
use thttpd_rs.Mime.{MimeInfo, figure_mime}
use thttpd_rs.Auth.{AuthEnv}
use thttpd_rs.Conn.{HttpConn}
use thttpd_rs.Slot.{ConnSlot}
use thttpd_rs.Throttle.{ThrottleDecision, unlimited, reject, allow, check_request}
use thttpd_rs.Response.{Headers, build_full_response}
use thttpd_rs.Loop.{Env, Shared, After, throttle_match_path, over_limit_form, transition_to_sending}
use thttpd_rs.Loop.Send.{to_usize}
use thttpd_rs.Loop.Request.{answer_error, error_response, not_found_form}

-- What `metadata` says of a path: the time is in seconds, if the system tells one behind 1970.
pub record Metadata : Type 0 where
  pub is_dir : Bool
  pub mode : ℕ
  pub len : ℕ
  pub modified : Option ℕ

pub data Stat : Type 0 where
  not_found unreadable : Stat
  found : Metadata → Stat

-- The file system below the handler, and the configuration of the server: the directory as text, its
-- resolved path, the resolution of a path and whether a path begins with another; the content of a
-- mapping by its handle.
pub record Files : Type 0 where
  pub no_symlink_check : Bool
  pub charset : Bytes
  pub dir_text : Bytes
  pub root : Option Bytes
  pub canonicalize : Bytes → Option Bytes
  pub begins_with : Bytes → Bytes → Bool
  pub stat : Bytes → Stat
  pub auth : AuthEnv
  pub listing : Bytes → Bytes → Option Bytes
  pub open_file : Bytes → Opening
  pub fresh : Bytes → Option ℕ
  pub content : ℕ → Bytes
  pub file_name : Bytes → Option Bytes

unfoldable pub mtime : Metadata → ℤ
mtime m = elim m.modified [ none ↦ pos 0 | some t ↦ to_i64 (pos t) ]

unfoldable pub file_size : Metadata → ℤ
file_size m = to_i64 (pos m.len)

unfoldable pub filled_last : Bool → ℤ → ℤ → ℤ
filled_last got_range size last =
    if got_range && (eqb_ℤ last (negsuc 0) || not (ltb_ℤ last size)) then size -ℤ pos 1 else last

-- An end of a range that is missing or behind the file is the last byte of the file.
unfoldable pub with_last_byte_filled : ℤ → HttpConn → HttpConn
unfolding filled_last
with_last_byte_filled size http = record http {
  last_byte_index = filled_last http.got_range size http.last_byte_index;
}

-- The response of a slot that begins to send.
unfoldable pub answer : Env → ℕ → ℕ → Bytes → ConnSlot → Shared → After
answer env now key response slot sh =
    transition_to_sending env now key
      (record slot {
        http = record slot.http { response = response; response_len = length response };
      })
      sh

unfoldable pub with_status : ℕ → ConnSlot → ConnSlot
with_status code slot = record slot { http = record slot.http { status_code = code } }

-- The check of the throttles: the table after it, and the decision.
unfoldable pub precheck : ConnSlot → Shared → Shared × ThrottleDecision
precheck slot sh = elim sh.throttles [
  | none ↦ (sh, unlimited)
  | some es ↦
      let r = check_request (throttle_match_path slot.http.orig_filename) es in
      (record sh { throttles = some r.0 }, r.1)
]

unfoldable pub encoding_header : MimeInfo → Headers
encoding_header info = elim info.encoding [
  | none ↦ []
  | some enc ↦ (codes "Content-Encoding", enc) ∷ []
]

-- The header of a file.
unfoldable pub file_header : Env → Files → ℕ → Bytes → ℤ → ℤ → Bytes → HttpConn → Bytes
unfolding encoding_header
file_header env files code text len time path http =
    let info = figure_mime files.file_name (env.lossy path) in
    build_full_response env.now_ts env.format_date http code text info.mime_type len time
      (encoding_header info)

-- The bytes from one index up to another. `none` is a panic: the end is before the beginning.
unfoldable pub slice : ℕ → ℕ → Bytes → Option Bytes
slice start end content =
    if ltb end start then none else some (take (end - start) (drop start content))

-- The bytes of a mapped file that are sent: those of the range where it lies in the file, else all.
-- Numbers wrap around as in a release build.
unfoldable pub body_of : Bool → ℤ → ℤ → Bytes → Option Bytes
unfolding slice
body_of got_range first last content =
    let start = to_usize first in
    let end = (to_usize last + 1) % 2 ^ 64 in
    if got_range && ltb start (length content) && leb end (length content)
    then slice start end content
    else some content

-- The slot with the response to a mapping, and its header before it for a client that sent a version.
unfoldable pub mapped_slot : ℕ → Bytes → Bytes → ConnSlot → ConnSlot
mapped_slot handle header body slot =
    let full = if slot.http.mime_flag then header ++ body else body in
    record slot {
      http = record slot.http {
        file_address = some handle;
        response = full;
        response_len = length full;
        response_header_len = if slot.http.mime_flag then length header else 0;
        bytes_sent = pos 0;
        status_code = if slot.http.got_range then 206 else 200;
      };
    }

-- What follows the mapping of the file.
unfoldable pub serve_mapped :
    Mapping → Env → Files → ℕ → ℕ → Bytes → Metadata → ConnSlot → Shared → Option After
unfolding file_header mapped_slot
serve_mapped (failed error) env files now key path m slot sh =
    some (
      answer_error env now key 404 (codes "Not Found") not_found_form slot.http.encoded_url slot sh)
serve_mapped (mapped handle) env files now key path m slot sh =
    let http = slot.http in
    let header = file_header env files 200 (codes "OK") (file_size m) (mtime m) path http in
    elim (body_of http.got_range http.first_byte_index http.last_byte_index
      (files.content handle)) [
        | none ↦ none
        | some body ↦
            some (transition_to_sending env now key (mapped_slot handle header body slot) sh)
      ]

abbrev pub is_head : Method → Bool
is_head head = true
is_head _ = false

-- The file is not younger than the client's copy.
unfoldable pub not_modified : Metadata → HttpConn → Bool
not_modified m http = elim http.if_modified_since [
  | none ↦ false
  | some ims ↦ not (ltb_ℤ ims (mtime m))
]

-- A header without a body, which is nothing for a client that sent no version.
unfoldable pub answer_header : Env → ℕ → ℕ → ℕ → Bytes → ConnSlot → Shared → After
unfolding answer with_status
answer_header env now key code header slot sh =
    answer env now key (if slot.http.mime_flag then header else []) (with_status code slot) sh

-- A request that the throttles let through.
unfoldable pub serve_content :
    Env → Files → ℕ → ℕ → Bytes → Metadata → ConnSlot → Shared → Option After
unfolding answer_header file_header not_modified serve_mapped
serve_content env files now key path m slot sh =
    let whole = file_header env files 200 (codes "OK") (file_size m) (mtime m) path slot.http in
    let unchanged =
      file_header env files 304 (codes "Not Modified") (negsuc 0) (mtime m) path slot.http in
    let r = Cache.map_file now (files.open_file path) (files.fresh path) sh.mmc in
    if is_head slot.http.method
    then some (answer_header env now key 200 whole slot sh)
    else if not_modified m slot.http
    then some (answer_header env now key 304 unchanged slot sh)
    else serve_mapped r.1 env files now key path m slot (record sh { mmc = r.0 })

-- The slot with what the throttles decided.
unfoldable pub decided : ThrottleDecision → ConnSlot → ConnSlot
decided unlimited slot = record slot { throttle = record slot.throttle { checked = true } }
decided reject slot = record slot {
  throttle = record slot.throttle { checked = true };
  http = record slot.http { status_code = 503 };
}
decided (allow tnums max_limit min_limit) slot = record slot {
  throttle = record slot.throttle {
    tnums = tnums;
    max_limit = max_limit;
    min_limit = min_limit;
    checked = true;
  };
}

abbrev pub is_reject : ThrottleDecision → Bool
is_reject reject = true
is_reject _ = false

-- A file that may be served: the throttles are asked before any answer.
unfoldable pub serve_file :
    Env → Files → ℕ → ℕ → Bytes → Metadata → ConnSlot → Shared → Option After
unfolding with_last_byte_filled precheck decided answer serve_content
serve_file env files now key path m slot sh =
    let slot1 = record slot { http = with_last_byte_filled (file_size m) slot.http } in
    let r = precheck slot1 sh in
    let refusal =
      error_response env 503 (codes "Service Unavailable") over_limit_form slot1.http.orig_filename
        slot1.http in
    if is_reject r.1
    then some (answer env now key refusal (decided r.1 slot1) r.0)
    else serve_content env files now key path m (decided r.1 slot1) r.0
