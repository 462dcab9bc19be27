-- ===== src/Loop.antt =====
-- rust/crates/thttpd-core/src/eventloop.rs: the connection table and its handlers. What the sockets
-- answer is an argument of each handler; the calls of the poll are kept in order, the latest first.
-- Times are in nanoseconds.
pub mod Status
pub mod Header
pub mod Served
pub mod Send
pub mod Accept
pub mod Request
pub mod Read
pub mod Static
pub mod Cgi
pub mod Owed
pub mod Events
use thttpd_rs.Base.{
  ℕ, zero, suc, ◌+◌, ◌-◌, ◌*◌, ◌/◌, ◌^◌, Bool, true, false, not, ◌&&◌, ◌||◌, Option, none, some,
  List, [], ◌∷◌, ◌++◌, Bytes, codes, if◌then◌else◌, ◌==◌, ltb, leb, is_empty, length, min, max,
  strip_prefix, drop,
}
use thttpd_rs.Base.Int.{ℤ, pos, negsuc, ◌+ℤ◌, ◌-ℤ◌, ◌*ℤ◌, ltb_ℤ, max_ℤ}
use thttpd_rs.Parse.Method.{as_str}
use thttpd_rs.Conn.{ConnState, HttpConn, free, reading, sending, pausing, lingering}
use thttpd_rs.Slot.{ConnThrottle, ConnSlot, is_throttled}
use thttpd_rs.Throttle.{
  Table, ThrottleDecision, unlimited, reject, allow, check_request, clear, add_bytes,
  fair_share_for,
}
use thttpd_rs.Response.{error_page, build_full_response}
use thttpd_rs.Cache
use thttpd_rs.Cache.{MmapCache}
use thttpd_rs.Watch.{conn_token}
use thttpd_rs.Loop.Status.{header_end_offset, entity_bytes_sent, logged_status_code}

abbrev pub nanos : ℕ
nanos = 1000000000

-- What the handlers take from outside: the clock in seconds and the printing of dates for a response,
-- the test for UTF-8 and the printing of an address, `from_utf8_lossy`, `to_lowercase`, the reading of a
-- date, and, of the configuration, virtual hosts, the pattern of scripts, and whether a path below its
-- directory exists.
pub record Env : Type 0 where
  pub now_ts : ℤ
  pub format_date : ℤ → Bytes
  pub is_utf8 : Bytes → Bool
  pub ip_text : ℕ → Bytes
  pub lossy : Bytes → Bytes
  pub lowercase : Bytes → Bytes
  pub parse_http_date : Bytes → Option ℤ
  pub vhost : Bool
  pub cgi_pattern : Option Bytes
  pub exists : Bytes → Bool

pub data Interest : Type 0 where
  readable writable : Interest

-- A call of the poll's registry for a stream; its error is passed over.
pub data PollCall : Type 0 where
  register reregister : ℕ → ℕ → Interest → PollCall
  deregister : ℕ → PollCall

pub record LogEntry : Type 0 where
  pub remote_addr : Bytes
  pub remote_user : Bytes
  pub method : Bytes
  pub url : Bytes
  pub protocol : Bytes
  pub status : ℕ
  pub bytes_sent : ℤ
  pub referer : Bytes
  pub user_agent : Bytes

-- The server beside its connections; the counters are `u64` and stay in range.
pub record Shared : Type 0 where
  pub throttles : Option Table
  pub requests : ℕ
  pub bytes_sent : ℕ
  pub log : List LogEntry
  pub polls : List PollCall
  pub mmc : MmapCache

-- A slot as a handler leaves it; `none` is one that is removed from the table.
abbrev pub After : Type 0
After = Option ConnSlot × Shared

unfoldable pub throttle_match_path : Bytes → Bytes
throttle_match_path path = elim (strip_prefix (codes "/") path) [ none ↦ path | some rest ↦ rest ]

-- A poll call for the stream of a slot, if it has one.
unfoldable pub polled : ConnSlot → (ℕ → PollCall) → Shared → Shared
polled slot call sh = elim slot.stream [
  | none ↦ sh
  | some stream ↦ record sh { polls = call stream ∷ sh.polls }
]

unfoldable pub log_entry : Env → ConnSlot → LogEntry
log_entry env slot = record {
  remote_addr =
      if is_empty slot.http.x_forwarded_for
      then elim slot.peer_addr [ none ↦ codes "-" | some a ↦ env.ip_text a ]
      else slot.http.x_forwarded_for;
  remote_user = codes "-";
  method = as_str slot.http.method;
  url = slot.http.encoded_url;
  protocol = if slot.http.mime_flag then slot.http.http_version else [];
  status = logged_status_code env.is_utf8 slot.http;
  bytes_sent = entity_bytes_sent slot.http.bytes_sent slot.http.response_header_len;
  referer = slot.http.referer;
  user_agent = slot.http.user_agent;
}

-- The table of a server that has one.
unfoldable pub with_table : (Table → Table) → Shared → Shared
with_table f sh = elim sh.throttles [ none ↦ sh | some es ↦ record sh { throttles = some (f es) } ]

unfoldable pub logged : Env → ConnSlot → Shared → Shared
unfolding log_entry
logged env slot sh =
    if ltb 0 (logged_status_code env.is_utf8 slot.http)
    then record sh { log = log_entry env slot ∷ sh.log }
    else sh

unfoldable pub released : ConnSlot → Shared → Shared
unfolding with_table
released slot sh =
    if is_throttled slot.throttle then with_table (clear slot.throttle.tnums) sh else sh

-- The slot is freed; its mapping goes with it.
unfoldable pub close_connection : Env → ConnSlot → Shared → After
unfolding logged released polled
close_connection env slot sh = (none, polled slot deregister (released slot (logged env slot sh)))

unfoldable pub transition_to_lingering : ℕ → ConnSlot → Shared → After
unfolding polled
transition_to_lingering key slot sh =
    let unmapped : MmapCache = elim slot.http.file_address [
      | none ↦ sh.mmc
      | some handle ↦ Cache.unmap handle sh.mmc
    ] in
    (
      some (record slot { state = lingering; http = record slot.http { file_address = none } }),
      polled slot (λ stream. reregister stream (conn_token key) readable)
          (record sh { mmc = unmapped }),
    )

-- The header length of a response that did not set it.
unfoldable pub with_header_len : ConnSlot → ConnSlot
with_header_len slot =
    if not slot.is_cgi && slot.http.mime_flag && slot.http.response_header_len == 0
    then elim (header_end_offset slot.http.response) [
      | none ↦ slot
      | some end ↦ record slot { http = record slot.http { response_header_len = end } }
    ]
    else slot

-- The admission, where it was not made before: the table after it, and the decision.
unfoldable pub admission : ConnSlot → Shared → Shared × ThrottleDecision
admission slot sh =
    if not slot.is_cgi && not slot.throttle.checked
    then elim sh.throttles [
      | none ↦ (sh, unlimited)
      | some es ↦
          let (after, d) = check_request (throttle_match_path slot.http.orig_filename) es in
          (record sh { throttles = some after }, d)
    ]
    else (sh, unlimited)

-- The times of a throttled transfer that begins.
unfoldable pub started : ℕ → ConnSlot → ConnSlot
started now slot = record slot {
  throttle = record slot.throttle {
    header_len = slot.http.response_header_len;
    started_at = some now;
    active_at = some now;
  };
}

abbrev pub over_limit_form : Bytes
over_limit_form = codes "The requested URL '%.80s' is temporarily over its bandwidth limit.\n"

-- The answer to a request that is refused.
unfoldable pub unavailable : Env → ConnSlot → ConnSlot
unavailable env slot =
    let page =
      error_page 503 (codes "Service Unavailable") over_limit_form slot.http.orig_filename
        (some slot.http.user_agent) in
    let response =
      build_full_response env.now_ts env.format_date slot.http 503 (codes "Service Unavailable")
        (codes "text/html") (negsuc 0) (pos 0) [] in
    let full = if slot.http.mime_flag then response ++ page else page in
    let end : ℕ = elim (header_end_offset full) [ none ↦ 0 | some n ↦ n ] in
    record slot {
      http = record slot.http {
        response = full;
        response_len = length full;
        status_code = 503;
        response_header_len = end;
      };
    }

unfoldable pub decided_slot : Env → ℕ → ThrottleDecision → ConnSlot → ConnSlot
unfolding started unavailable
decided_slot env now unlimited slot = slot
decided_slot env now reject slot = unavailable env slot
decided_slot env now (allow tnums max_limit min_limit) slot = started now (record slot {
  throttle = record slot.throttle { tnums = tnums; max_limit = max_limit; min_limit = min_limit };
})

-- The slot as it begins to send.
unfoldable pub begun : ℕ → ConnSlot → ConnSlot
unfolding started
begun now slot =
    let opened = record slot { state = sending; http = record slot.http { bytes_sent = pos 0 } } in
    if slot.throttle.checked && is_throttled slot.throttle then started now opened else opened

unfoldable pub transition_to_sending : Env → ℕ → ℕ → ConnSlot → Shared → After
unfolding with_header_len admission begun decided_slot polled
transition_to_sending env now key slot sh =
    let slot1 = with_header_len slot in
    let (sh1, d) = admission slot1 sh in
    let slot2 = decided_slot env now d (begun now slot1) in
    let sh2 = polled slot2 (λ stream. reregister stream (conn_token key) writable) sh1 in
    (some slot2, record sh2 { requests = sh2.requests + 1 })
