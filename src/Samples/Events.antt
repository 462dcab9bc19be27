-- ===== src/Samples/Events.antt =====
-- Samples of the connection table and its handlers.
use thttpd_rs.Base.{
  ◌≡◌, refl, ◌++◌, true, false, [], ◌∷◌, codes, none, some, arith, max, length, All, ◌≤◌,
}
use thttpd_rs.Base.Int.{pos, ◌-ℤ◌, ◌*ℤ◌}
use thttpd_rs.Cache
use thttpd_rs.Conn
use thttpd_rs.Conn.{HttpConn, sending, reading}
use thttpd_rs.Slot
use thttpd_rs.Slot.{ConnSlot}
use thttpd_rs.Response.{build_full_response, shown}
use thttpd_rs.Response.Page.{IsPlain, shown-IsPlain}
use thttpd_rs.Throttle.{ThrottleEntry}
use thttpd_rs.Throttle.Walk.{Countable}
use thttpd_rs.Loop.{Env, Shared, transition_to_sending}
use thttpd_rs.Loop.Status.{header_end_offset}
use thttpd_rs.Loop.Served.{header_end_offset-build_full_response}
use thttpd_rs.Loop.Request.{Stages}
use thttpd_rs.Loop.Send.{wrote, after_write, handle_send}
use thttpd_rs.Loop.Send.Bounds.{IsSendable, Honest, Returns, handle_send-Returns}
use thttpd_rs.Loop.Send.Budget.{IsMetered, allowed, handle_send-Spends}
use thttpd_rs.Loop.Send.Spent.{Spends}
use thttpd_rs.Loop.Read
use thttpd_rs.Loop.Events.{Event, handle_slot}
use thttpd_rs.Loop.Events.Diagram.{◌⟶◌, answer, phase, transition_to_sending-phase}
use thttpd_rs.Loop.Events.Begun.{Follow}
use thttpd_rs.Loop.Owed.Steps.{IsNew}

abbrev pub env : Env
env = record {
  now_ts = pos 784111777;
  format_date = λ t. codes "Sun";
  is_utf8 = λ s. true;
  ip_text = λ a. codes "10.0.0.1";
  lossy = λ s. s;
  lowercase = λ s. s;
  parse_http_date = λ s. none;
  vhost = false;
  cgi_pattern = none;
  exists = λ s. true;
}

abbrev pub entry : ThrottleEntry
entry = record {
  pattern = codes "**";
  max_limit = pos 3;
  min_limit = pos 0;
  rate = pos 0;
  bytes_since_avg = pos 0;
  num_sending = pos 1;
}

abbrev pub shared : Shared
shared = record {
  throttles = some (entry ∷ []);
  requests = 0;
  bytes_sent = 0;
  log = [];
  polls = [];
  mmc = Cache.with_max_size 100;
}

abbrev answering : HttpConn
answering = record Conn.new { response = codes "hello"; response_len = 5; bytes_sent = pos 2 }

-- A connection of one entry, two bytes into its second.
abbrev pub slot : ConnSlot
slot = record Slot.new_slot {
  state = sending;
  stream = some 7;
  http = answering;
  throttle = record Slot.new_throttle {
    tnums = 0 ∷ [];
    max_limit = pos 3;
    body_bytes = pos 2;
    started_at = some 0;
  };
}

answering-IsSendable : IsSendable answering
answering-IsSendable = record {
  sent = 2;
  counted = refl;
  within = omega arith;
  whole = refl;
  small = omega arith;
}

all_written : Honest wrote
all_written k n e = ground arith

handle_send-Returns_example : Returns (handle_send env 0 4 wrote slot shared)
handle_send-Returns_example =
    handle_send-Returns env 0 4 wrote slot shared all_written answering-IsSendable

slot-IsMetered : IsMetered 3 0 slot
unfolding Slot.is_throttled Slot.new_throttle answering-IsSendable
slot-IsMetered = record {
  sendable = answering-IsSendable;
  throttled = refl;
  rate = refl;
  some_rate = omega arith;
  started = refl;
  spent = refl;
  header_small = omega arith;
}

handle_send-Spends_example :
    Spends (max 2 (allowed 3 0 0)) 0 2 shared.bytes_sent (handle_send env 0 4 wrote slot shared)
unfolding slot-IsMetered answering-IsSendable Slot.new_throttle
handle_send-Spends_example =
    handle_send-Spends env 0 4 3 0 wrote slot shared slot-IsMetered all_written (omega arith)

abbrev pub stages : Stages
stages = record {
  serve_static = λ path slot1 sh. some (transition_to_sending env 0 4 slot1 sh);
  dispatch_cgi = λ slot1 sh. transition_to_sending env 0 4 slot1 sh;
}

stages-Follow : Follow stages
stages-Follow slot1 sh h =
    let sent : reading ⟶ phase (transition_to_sending env 0 4 slot1 sh) =
      rw (transition_to_sending-phase env 0 4 slot1 sh) answer in
    (λ path. sent, sent)

abbrev pub event : Event
event = record { now = 0; read = λ room. Read.eof; write = wrote }

-- One byte is left of the second.
one_byte : handle_slot env stages 4 event slot shared ≡ some (after_write 0 4 1 slot shared)
unfolding handle_slot Slot.is_throttled ◌-ℤ◌ Slot.new_throttle ◌*ℤ◌
one_byte = refl

pub entry-Countable : Countable entry
entry-Countable = record { senders = 1; counted = refl; room = omega arith }

abbrev pub asking : ConnSlot
asking = record Slot.new_slot { state = reading; stream = some 7; http = answering }

pub asking-IsNew : IsNew asking
unfolding Slot.new_slot
asking-IsNew = record { own = refl; unchecked = refl; unheld = refl }

header_end_offset-build_full_response_example :
    header_end_offset (
      build_full_response
        (pos 1)
        (λ t. codes "Sun")
        (record Conn.new {
          mime_flag = true;
          http_version = codes "HTTP/1.0";
          charset = codes "utf-8";
        })
        200
        (codes "OK")
        (codes "text/html")
        (pos 5)
        (pos 1)
        []
      ++ codes "hello")
    ≡ some (
        length (
          build_full_response
            (pos 1)
            (λ t. codes "Sun")
            (record Conn.new {
              mime_flag = true;
              http_version = codes "HTTP/1.0";
              charset = codes "utf-8";
            })
            200
            (codes "OK")
            (codes "text/html")
            (pos 5)
            (pos 1)
            []))
header_end_offset-build_full_response_example =
    header_end_offset-build_full_response (pos 1) (λ t. codes "Sun")
      (record Conn.new {
        mime_flag = true;
        http_version = codes "HTTP/1.0";
        charset = codes "utf-8";
      })
      200 (codes "OK") (codes "text/html") (pos 5) (pos 1) [] (codes "hello") refl refl refl refl
      refl (λ t. refl) tt

tag_shown : shown (codes "<b>") ≡ codes "&lt;b&gt;"
unfolding shown
tag_shown = refl

shown-IsPlain_example : All IsPlain (shown (codes "<b>")) × (length (shown (codes "<b>")) ≤ 80)
shown-IsPlain_example = shown-IsPlain (codes "<b>")
