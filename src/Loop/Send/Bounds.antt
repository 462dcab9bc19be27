-- ===== src/Loop/Send/Bounds.antt =====
-- rust/crates/thttpd-core/src/eventloop.rs: how much a connection sends.
use thttpd_rs.Base.{
  ltb, arith, ℕ, ◌+◌, ◌-◌, ◌*◌, ◌^◌, ◌≤◌, ◌<◌, length, min, ◌≡◌, refl, Bool, true, false, Option,
  none, some, ap, sym, subst, if◌then◌else◌, ◌∙◌,
}
use thttpd_rs.Base.Int.{ℤ, pos, ◌+ℤ◌, ltb_ℤ, +ℤ-pos, *ℤ-pos, -ℤ-cut, -ℤ-pos}
use thttpd_rs.Conn.{HttpConn}
use thttpd_rs.Slot.{ConnThrottle, ConnSlot}
use thttpd_rs.Watch.{conn_token}
use thttpd_rs.Loop.{
  reregister, writable, polled, Env, Shared, After, close_connection, transition_to_lingering,
}
use thttpd_rs.Loop.Send.{
  to_usize, Written, wrote, would_block, failed, elapsed_secs, allowed_body_bytes,
  remaining_header_bytes, write_limit, paused, body_delta, charged, after_write, answered,
  write_some, handle_send,
}

-- A response of which some bytes are sent, and no more than there are.
pub record IsSendable (http : HttpConn) : Type 0 where
  pub sent : ℕ
  pub counted : http.bytes_sent ≡ pos sent
  pub within : sent ≤ http.response_len
  pub whole : http.response_len ≡ length http.response
  pub small : http.response_len < 2 ^ 62

-- A stream that writes no more than it is given.
abbrev pub Honest : (ℕ → Written) → Type 0
Honest write = (k n : ℕ) → write k ≡ wrote n → n ≤ k

pub allowed_body_bytes-cut :
    (now m c : ℕ) (t : ConnThrottle)
    → t.max_limit ≡ pos m
    → t.body_bytes ≡ pos c
    → m * elapsed_secs now t.started_at < 2 ^ 63
    → c < 2 ^ 63
    → allowed_body_bytes now t ≡ pos (m * elapsed_secs now t.started_at - c)
unfolding allowed_body_bytes
allowed_body_bytes-cut now m c t a b h k =
    rw (a, b, *ℤ-pos m (elapsed_secs now t.started_at) h)
      (-ℤ-cut (m * elapsed_secs now t.started_at) c h k)

pub body_delta-cut :
    (slot : ConnSlot) (b n : ℕ)
    → b + n < 2 ^ 63
    → slot.throttle.header_len < 2 ^ 63
    → body_delta slot (pos b) (pos (b + n))
      ≡ pos ((b + n - slot.throttle.header_len) - (b - slot.throttle.header_len))
unfolding body_delta
body_delta-cut slot b n h k =
    let l = slot.throttle.header_len in
    rw (-ℤ-cut (b + n) l h k, -ℤ-cut b l (omega arith) k)
      (-ℤ-pos (b + n - l) (b - l) (omega arith) (omega arith))

abbrev pub Keeps : After → Type 0
Keeps (none, sh) = Unit
Keeps (some slot, sh) = IsSendable slot.http

charged-http :
    (now : ℕ) (delta : ℤ) (slot : ConnSlot) (sh : Shared)
    → (charged now delta slot sh).0.http ≡ slot.http
unfolding charged
charged-http now delta slot sh = ground arith

sent_more :
    (http : HttpConn) (n : ℕ) (h : IsSendable http)
    → n ≤ length http.response - h.sent
    → IsSendable (record http { bytes_sent = http.bytes_sent +ℤ pos n })
sent_more http n h k = record {
  sent = h.sent + n;
  counted = ap (λ b. b +ℤ pos n) h.counted ∙ +ℤ-pos h.sent n (omega arith);
  within = omega arith;
  whole = h.whole;
  small = h.small;
}

finished : (http : HttpConn) → IsSendable http → IsSendable (record http { file_address = none })
finished http h = record {
  sent = h.sent;
  counted = h.counted;
  within = h.within;
  whole = h.whole;
  small = h.small;
}

settled-Keeps :
    (left : Bool) (key : ℕ) (slot : ConnSlot) (sh sh1 : Shared)
    → IsSendable slot.http
    → Keeps (if left then (some slot, sh1) else transition_to_lingering key slot sh)
unfolding transition_to_lingering
settled-Keeps true key slot sh sh1 h = h
settled-Keeps false key slot sh sh1 h = finished slot.http h

after_write-Keeps :
    (now key n : ℕ) (slot : ConnSlot) (sh : Shared) (h : IsSendable slot.http)
    → n ≤ length slot.http.response - h.sent
    → Keeps (after_write now key n slot sh)
unfolding after_write
after_write-Keeps now key n slot sh h k =
    let before = slot.http.bytes_sent in
    let slot1 = record slot { http = record slot.http { bytes_sent = before +ℤ pos n } } in
    let delta = body_delta slot before (before +ℤ pos n) in
    let sh1 = record sh { bytes_sent = sh.bytes_sent + n } in
    let r = charged now delta slot1 sh1 in
    settled-Keeps (ltb_ℤ r.0.http.bytes_sent (pos r.0.http.response_len)) key r.0 r.1
      (polled r.0 (λ stream. reregister stream (conn_token key) writable) r.1)
      (subst IsSendable (sym (charged-http now delta slot1 sh1)) (sent_more slot.http n h k))

pub header_bytes-cut :
    (slot : ConnSlot) (h : IsSendable slot.http)
    → slot.throttle.header_len < 2 ^ 63
    → remaining_header_bytes slot ≡ pos (slot.throttle.header_len - h.sent)
unfolding remaining_header_bytes
header_bytes-cut slot h k = rw (h.counted) (-ℤ-cut slot.throttle.header_len h.sent k (omega arith))

-- What a handler gives that does not panic.
abbrev pub Returns : Option After → Type 0
Returns none = ⊥
Returns (some after) = Keeps after

answered-Returns :
    (w : Written) (env : Env) (now key : ℕ) (slot : ConnSlot) (sh : Shared)
    (h : IsSendable slot.http)
    → ((n : ℕ) → w ≡ wrote n → n ≤ length slot.http.response - h.sent)
    → Returns (answered w env now key slot sh)
unfolding answered close_connection
answered-Returns (wrote n) env now key slot sh h k =
    after_write-Keeps now key n slot sh h (k n refl)
answered-Returns would_block env now key slot sh h k = h
answered-Returns failed env now key slot sh h k = tt

write_some-Returns :
    (env : Env) (now key : ℕ) (write : ℕ → Written) (slot : ConnSlot) (sh : Shared)
    → Honest write
    → IsSendable slot.http
    → Returns (write_some env now key write slot sh)
unfolding write_some close_connection
write_some-Returns env now key write slot sh w h =
    let r = slot.http.response in
    let start : to_usize slot.http.bytes_sent ≡ h.sent = ap to_usize h.counted in
    let room : ltb (length r) (to_usize slot.http.bytes_sent) ≡ false = rw start (ground arith) in
    let rest = length r - to_usize slot.http.bytes_sent in
    let fits : (n : ℕ) → write (min (write_limit now slot) rest) ≡ wrote n → n ≤ length r - h.sent =
      λ n e. let le = w (min (write_limit now slot) rest) n e in omega arith in
    let step =
      answered-Returns (write (min (write_limit now slot) rest)) env now key slot sh h fits in
    ground arith

-- A slot whose response is all there, and of which no more is sent than there is, is handled without
-- a panic by the handler of a send, and is left in such a state, if it is left, whatever a stream
-- answers that writes no more than it is given.
pub handle_send-Returns :
    (env : Env) (now key : ℕ) (write : ℕ → Written) (slot : ConnSlot) (sh : Shared)
    → Honest write
    → IsSendable slot.http
    → Returns (handle_send env now key write slot sh)
unfolding handle_send paused transition_to_lingering
handle_send-Returns env now key write slot sh w h =
    let step = write_some-Returns env now key write slot sh w h in
    let end = finished slot.http h in ground arith
