-- ===== src/Conn.antt =====
-- rust/crates/thttpd-http/src/conn.rs: the state of one HTTP connection, made new and reset for reuse.
-- A text is its bytes; a mapped file is the number of its mapping.
use thttpd_rs.Base.{
  ℕ, ◌≡◌, refl, Bool, true, false, Option, none, List, [], Bytes, codes, replicate,
}
use thttpd_rs.Base.Int.{ℤ, pos, negsuc}
use thttpd_rs.Parse.State.{ParseState, initial}
use thttpd_rs.Parse.Method.{Method, unknown}

pub data ConnState : Type 0 where
  free reading sending pausing lingering : ConnState

pub record HttpConn : Type 0 where
  pub read_buf : Bytes
  pub read_idx : ℕ
  pub checked_idx : ℕ
  pub parse_state : ParseState
  pub method : Method
  pub http_version : Bytes
  pub one_one : Bool
  pub vhost_dir : Bytes
  pub encoded_url : Bytes
  pub decoded_url : Bytes
  pub path_info : Bytes
  pub query : Bytes
  pub fragment : Bytes
  pub orig_filename : Bytes
  pub expn_filename : Bytes
  pub host : Bytes
  pub x_forwarded_for : Bytes
  pub content_type : Bytes
  pub content_length : Option ℤ
  pub referer : Bytes
  pub user_agent : Bytes
  pub cookie : Bytes
  pub authorization : Bytes
  pub charset : Bytes
  pub accept : Bytes
  pub accept_encoding : Bytes
  pub accept_language : Bytes
  pub if_modified_since : Option ℤ
  pub mime_flag : Bool
  pub got_range : Bool
  pub first_byte_index : ℤ
  pub last_byte_index : ℤ
  pub range_if : Option ℤ
  pub response : Bytes
  pub response_len : ℕ
  pub response_header_len : ℕ
  pub status_code : ℕ
  pub status_text : Bytes
  pub headers : List (Bytes × Bytes)
  pub file_address : Option ℕ
  pub bytes_sent : ℤ
  pub state : ConnState
  pub keep_alive : Bool
  pub should_linger : Bool

abbrev default_charset : Bytes
default_charset = codes "iso-8859-1"

unfoldable pub new : HttpConn
new = record {
  read_buf = replicate 60000 0;
  read_idx = 0;
  checked_idx = 0;
  parse_state = initial;
  method = unknown;
  http_version = [];
  one_one = false;
  vhost_dir = [];
  encoded_url = [];
  decoded_url = [];
  path_info = [];
  query = [];
  fragment = [];
  orig_filename = [];
  expn_filename = [];
  host = [];
  x_forwarded_for = [];
  content_type = [];
  content_length = none;
  referer = [];
  user_agent = [];
  cookie = [];
  authorization = [];
  charset = default_charset;
  accept = [];
  accept_encoding = [];
  accept_language = [];
  if_modified_since = none;
  mime_flag = true;
  got_range = false;
  first_byte_index = pos 0;
  last_byte_index = negsuc 0;
  range_if = none;
  response = [];
  response_len = 0;
  response_header_len = 0;
  status_code = 0;
  status_text = [];
  headers = [];
  file_address = none;
  bytes_sent = pos 0;
  state = reading;
  keep_alive = false;
  should_linger = false;
}

-- `reset` sets every field but the read buffer.
unfoldable pub reset : HttpConn → HttpConn
reset c = record c {
  read_idx = 0;
  checked_idx = 0;
  parse_state = initial;
  method = unknown;
  http_version = [];
  one_one = false;
  vhost_dir = [];
  encoded_url = [];
  decoded_url = [];
  path_info = [];
  query = [];
  fragment = [];
  orig_filename = [];
  expn_filename = [];
  host = [];
  x_forwarded_for = [];
  content_type = [];
  content_length = none;
  referer = [];
  user_agent = [];
  cookie = [];
  authorization = [];
  charset = default_charset;
  accept = [];
  accept_encoding = [];
  accept_language = [];
  if_modified_since = none;
  mime_flag = true;
  got_range = false;
  first_byte_index = pos 0;
  last_byte_index = negsuc 0;
  range_if = none;
  response = [];
  response_len = 0;
  response_header_len = 0;
  status_code = 0;
  status_text = [];
  headers = [];
  file_address = none;
  bytes_sent = pos 0;
  state = reading;
  keep_alive = false;
  should_linger = false;
}

-- A connection that is reset is a new one but for the bytes in its read buffer, of which it counts
-- none as read: nothing else of the request before it remains.
pub reset-new : (c : HttpConn) → reset c ≡ record new { read_buf = c.read_buf }
unfolding reset new
reset-new c = refl
