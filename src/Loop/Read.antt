-- ===== src/Loop/Read.antt =====
-- rust/crates/thttpd-core/src/eventloop.rs: reading a request. `none` is a panic.
use thttpd_rs.Base.{
  ℕ, ◌+◌, ◌-◌, Bool, true, false, Option, none, some, [], ◌++◌, Bytes, codes, if◌then◌else◌, ◌==◌,
  ltb, leb, length, take, drop, decimal,
}
use thttpd_rs.Base.Int.{pos, negsuc}
use thttpd_rs.Parse.State.{GotRequest, no_request, got_request, bad_request}
use thttpd_rs.Parse
use thttpd_rs.Slot.{ConnSlot}
use thttpd_rs.Response
use thttpd_rs.Response.{error_page, build, header, body, status}
use thttpd_rs.Loop.{Env, Shared, After, close_connection, transition_to_sending}
use thttpd_rs.Loop.Request.{Stages, process_request}

abbrev pub read_buf_size : ℕ
read_buf_size = 60000

-- What `stream.read` answers: the end, some bytes, that it would block, or another error.
pub data Received : Type 0 where
  eof would_block failed : Received
  got : Bytes → Received

unfoldable pub build_error_response : ℕ → Bytes → Bytes → Option Bytes → Bytes
build_error_response code text extra user_agent =
    let form = codes "Your request has bad syntax or is inherently impossible to satisfy.\n" in
    let page = error_page code text form extra user_agent in
    build (
      body page (
        header (codes "Content-Length") (decimal (length page))
          (header (codes "Content-Type") (codes "text/html") (status code text Response.new))))

unfoldable pub answer_bad_request : Env → ℕ → ℕ → ConnSlot → Shared → After
unfolding build_error_response
answer_bad_request env now key slot sh =
    let response = build_error_response 400 (codes "Bad Request") [] (some slot.http.user_agent) in
    transition_to_sending env now key
      (record slot {
        http = record slot.http { response = response; response_len = length response };
      })
      sh

-- The bytes that were read stand in the buffer behind those before them.
unfoldable pub with_data : Bytes → ConnSlot → ConnSlot
with_data data_ slot =
    let i = slot.http.read_idx in
    record slot {
      http = record slot.http {
        read_buf = take i slot.http.read_buf ++ data_ ++ drop (i + length data_) slot.http.read_buf;
        read_idx = i + length data_;
      };
    }

-- The whole body of a script's request is in the buffer.
unfoldable pub body_complete : ConnSlot → Bool
body_complete slot = elim slot.http.content_length [
  | none ↦ true
  | some cl ↦ elim cl [
    | pos n ↦ if n == 0 then true else leb (slot.http.checked_idx + n) slot.http.read_idx
    | negsuc _ ↦ true
  ]
]

-- What comes of a detection.
unfoldable pub detected : GotRequest → Env → ℕ → ℕ → Stages → ConnSlot → Shared → Option After
unfolding answer_bad_request process_request
detected no_request env now key stages slot sh = some (some slot, sh)
detected bad_request env now key stages slot sh = some (answer_bad_request env now key slot sh)
detected got_request env now key stages slot sh = process_request env stages now key slot sh

-- The detection of a request in the buffer.
unfoldable pub detect : Env → ℕ → ℕ → Stages → ConnSlot → Shared → Option After
unfolding detected
detect env now key stages slot sh =
    let http = slot.http in
    elim (Parse.got_request http.read_buf http.checked_idx http.read_idx http.parse_state) [
      | none ↦ none
      | some (result, checked, state) ↦
          detected result env now key stages
            (record slot { http = record http { checked_idx = checked; parse_state = state } }) sh
    ]

unfoldable pub after_read : Env → ℕ → ℕ → Stages → ConnSlot → Shared → Option After
unfolding body_complete detect
after_read env now key stages slot sh =
    if slot.pending_cgi_body
    then if body_complete slot
      then some (stages.dispatch_cgi (record slot { pending_cgi_body = false }) sh)
      else some (some slot, sh)
    else detect env now key stages slot sh

-- What follows the answer of the stream.
unfoldable pub received : Received → Env → ℕ → ℕ → Stages → ConnSlot → Shared → Option After
unfolding with_data after_read
received eof env now key stages slot sh = some (close_connection env slot sh)
received (got data_) env now key stages slot sh =
    after_read env now key stages (with_data data_ slot) sh
received would_block env now key stages slot sh = some (some slot, sh)
received failed env now key stages slot sh = some (close_connection env slot sh)

-- `read` is the answer of the stream to a buffer of a length.
unfoldable pub handle_read :
    Env → ℕ → ℕ → (ℕ → Received) → Stages → ConnSlot → Shared → Option After
unfolding received
handle_read env now key read stages slot sh =
    let room = read_buf_size - slot.http.read_idx in
    let space = length slot.http.read_buf - slot.http.read_idx in
    if ltb read_buf_size slot.http.read_idx
    then none
    else if room == 0
    then some (answer_bad_request env now key slot sh)
    else elim slot.stream [
      | none ↦ some (close_connection env slot sh)
      | some _ ↦ received (read space) env now key stages slot sh
    ]
