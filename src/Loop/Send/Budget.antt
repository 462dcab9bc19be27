-- ===== src/Loop/Send/Budget.antt =====
-- rust/crates/thttpd-core/src/eventloop.rs: the bandwidth of a throttled connection.
use thttpd_rs.Base.{
  Option-cases, inl, inr, not, ◌==◌, ap₂, ltb, ◌&&◌, arith, ℕ, ◌+◌, ◌-◌, ◌*◌, ◌/◌, ◌∙◌, ◌^◌, ◌≤◌,
  ◌<◌, length, max, min, ◌≡◌, refl, Bool, true, false, Option, some, ap, sym, subst, if◌then◌else◌,
}
use thttpd_rs.Base.Int.{pos, ◌+ℤ◌, ltb_ℤ, +ℤ-pos}
use thttpd_rs.Slot.{ConnSlot, is_throttled}
use thttpd_rs.Loop.{
  deregister, polled, Env, Shared, After, close_connection, transition_to_lingering,
}
use thttpd_rs.Loop.Send.Spent.{Spends, Charged, charged-Charged, polled-bytes_sent, settled-Spends}
use thttpd_rs.Conn.{pausing}
use thttpd_rs.Loop.{nanos}
use thttpd_rs.Loop.Send.{
  to_usize, Written, wrote, would_block, failed, elapsed_secs, write_limit, paused, body_delta,
  charged, after_write, answered, write_some, handle_send,
}
use thttpd_rs.Loop.Send.Bounds.{
  IsSendable, Honest, allowed_body_bytes-cut, body_delta-cut, header_bytes-cut,
}

-- A throttled transfer at a rate of `m` bytes a second since `t`, with all the bytes that it has sent of
-- its body in its count.
pub record IsMetered (m t : ℕ) (slot : ConnSlot) : Type 0 where
  pub sendable : IsSendable slot.http
  pub throttled : is_throttled slot.throttle ≡ true
  pub rate : slot.throttle.max_limit ≡ pos m
  pub some_rate : 0 < m
  pub started : slot.throttle.started_at ≡ some t
  pub spent : slot.throttle.body_bytes ≡ pos (sendable.sent - slot.throttle.header_len)
  pub header_small : slot.throttle.header_len < 2 ^ 62

-- What a rate of `m` allows at `now`: its bytes for each whole second since `t`, one second at least.
abbrev pub allowed : ℕ → ℕ → ℕ → ℕ
allowed m t now = m * max ((now - t) / 1000000000) 1

-- What a metered slot may come to have sent of its body.
abbrev pub budget : (m t now : ℕ) (slot : ConnSlot) → IsMetered m t slot → ℕ
budget m t now slot h = max (h.sendable.sent - slot.throttle.header_len) (allowed m t now)

-- The handler keeps to the budget.
abbrev pub Keeps :
    (m t now : ℕ) (slot : ConnSlot) → Shared → IsMetered m t slot → Option After → Type 0
Keeps m t now slot sh h r =
    Spends (budget m t now slot h) slot.throttle.header_len h.sendable.sent sh.bytes_sent r

write_limit-metered :
    (now m t : ℕ) (slot : ConnSlot) (h : IsMetered m t slot)
    → allowed m t now < 2 ^ 62
    → write_limit now slot
      ≡ (slot.throttle.header_len - h.sendable.sent)
        + (allowed m t now - (h.sendable.sent - slot.throttle.header_len))
unfolding write_limit elapsed_secs
write_limit-metered now m t slot h small =
    let th = slot.throttle in
    let c = h.sendable.sent - th.header_len in
    let metered : (is_throttled th && ltb_ℤ (pos 0) th.max_limit) ≡ true =
      rw (h.throttled, h.rate) (ground (arith, h.some_rate)) in
    let since : m * elapsed_secs now th.started_at ≡ allowed m t now = rw (h.started) refl in
    let spent_small : c < 2 ^ 63 = omega (arith, h.sendable.within, h.sendable.small) in
    let cut =
      allowed_body_bytes-cut now m c th h.rate h.spent (omega (arith, since, small)) spent_small in
    let head = header_bytes-cut slot h.sendable (omega (arith, h.header_small)) in
    rw metered (
      ap₂ (λ a b. to_usize a + to_usize b) head cut
      ∙ ap (λ n. (th.header_len - h.sendable.sent) + (n - c)) since)

after_write-Keeps :
    (now key m t n : ℕ) (slot : ConnSlot) (sh : Shared) (h : IsMetered m t slot)
    → allowed m t now < 2 ^ 62
    → n ≤ write_limit now slot
    → n ≤ length slot.http.response - h.sendable.sent
    → Keeps m t now slot sh h (some (after_write now key n slot sh))
unfolding after_write
after_write-Keeps now key m t n slot sh h small k l =
    let b = h.sendable.sent in
    let head = slot.throttle.header_len in
    let before = slot.http.bytes_sent in
    let slot1 = record slot { http = record slot.http { bytes_sent = before +ℤ pos n } } in
    let sh1 = record sh { bytes_sent = sh.bytes_sent + n } in
    let r = charged now (body_delta slot before (before +ℤ pos n)) slot1 sh1 in
    let in_range : b + n < 2 ^ 63 =
      omega (arith, h.sendable.whole, h.sendable.small, h.sendable.within) in
    let after : before +ℤ pos n ≡ pos (b + n) = rw (h.sendable.counted) (+ℤ-pos b n in_range) in
    let delta : body_delta slot before (before +ℤ pos n) ≡ pos ((b + n - head) - (b - head)) =
      rw (h.sendable.counted, +ℤ-pos b n in_range)
        (body_delta-cut slot b n in_range (omega (arith, h.header_small))) in
    let c : Charged (b + n) head r sh1 =
      subst (λ x. Charged (b + n) head (charged now x slot1 sh1) sh1) (sym delta)
        (charged-Charged now b (b + n) head slot1 sh1 h.throttled after refl h.spent (omega arith)
          in_range) in
    let fits : b + n - head ≤ budget m t now slot h =
      let limit = k in let w = write_limit-metered now m t slot h small in omega (arith, w) in
    settled-Spends (ltb_ℤ r.0.http.bytes_sent (pos r.0.http.response_len)) key
      (budget m t now slot h) head b sh.bytes_sent r.0 r.1
      (record {
        sent = b + n;
        counted = c.at;
        header = c.header;
        within = fits;
        spent = c.spent;
        totalled = omega (arith, c.total);
      })

-- a slot as it was, but for its state
same-Keeps :
    (m t now : ℕ) (slot slot1 : ConnSlot) (sh sh1 : Shared) (h : IsMetered m t slot)
    → slot1.http.bytes_sent ≡ slot.http.bytes_sent
    → slot1.throttle.header_len ≡ slot.throttle.header_len
    → slot1.throttle.body_bytes ≡ slot.throttle.body_bytes
    → sh1.bytes_sent ≡ sh.bytes_sent
    → Keeps m t now slot sh h (some (some slot1, sh1))
same-Keeps m t now slot slot1 sh sh1 h a b c d = record {
  sent = h.sendable.sent;
  counted = a ∙ h.sendable.counted;
  header = b;
  within = omega arith;
  spent = c ∙ h.spent;
  totalled = ap (λ n. n + h.sendable.sent) d;
}

answered-Keeps :
    (w : Written) (env : Env) (now key m t : ℕ) (slot : ConnSlot) (sh : Shared)
    (h : IsMetered m t slot)
    → allowed m t now < 2 ^ 62
    → ((n : ℕ)
        → w ≡ wrote n
        → (n ≤ write_limit now slot) × (n ≤ length slot.http.response - h.sendable.sent))
    → Keeps m t now slot sh h (answered w env now key slot sh)
unfolding answered close_connection
answered-Keeps (wrote n) env now key m t slot sh h small k =
    after_write-Keeps now key m t n slot sh h small (k n refl).0 (k n refl).1
answered-Keeps would_block env now key m t slot sh h small k =
    same-Keeps m t now slot slot sh sh h refl refl refl refl
answered-Keeps failed env now key m t slot sh h small k = tt

write_some-Keeps :
    (env : Env) (now key m t : ℕ) (write : ℕ → Written) (slot : ConnSlot) (sh : Shared)
    (h : IsMetered m t slot)
    → Honest write
    → allowed m t now < 2 ^ 62
    → Keeps m t now slot sh h (write_some env now key write slot sh)
unfolding write_some close_connection
write_some-Keeps env now key m t write slot sh h w small =
    let r = slot.http.response in
    let limit = write_limit now slot in
    let start : to_usize slot.http.bytes_sent ≡ h.sendable.sent = ap to_usize h.sendable.counted in
    let rest = length r - to_usize slot.http.bytes_sent in
    let room : ltb (length r) (to_usize slot.http.bytes_sent) ≡ false =
      rw start (ground (arith, h.sendable.within, h.sendable.whole)) in
    let fits : (n : ℕ)
        → write (min limit rest) ≡ wrote n
        → (n ≤ limit) × (n ≤ length r - h.sendable.sent) =
      λ n e. let le = w (min limit rest) n e in (omega arith, omega arith) in
    let step = answered-Keeps (write (min limit rest)) env now key m t slot sh h small fits in
    elim (Option-cases slot.stream) [
      | inl e ↦ rw (e, write_some) tt
      | inr (stream, e) ↦ rw (e, room, write_some) step
    ]

if-Keeps :
    (m t now : ℕ) (slot : ConnSlot) (sh : Shared) (h : IsMetered m t slot) (b : Bool)
    (x y : Option After)
    → Keeps m t now slot sh h x
    → Keeps m t now slot sh h y
    → Keeps m t now slot sh h (if b then x else y)
if-Keeps m t now slot sh h true x y p q = p
if-Keeps m t now slot sh h false x y p q = q

-- A throttled connection at a rate of `m` bytes a second since `t`, not zero, whose response is all
-- there and whose count is what it has sent of its body, with a header, and an allowance of its rate
-- for the whole seconds since `t` (one at least), below 2 ^ 62: after the handler of a send, which does
-- not panic, the slot that is left has sent no more bytes of its body than it had, or than the
-- allowance, whatever a stream answers that writes no more than it is given; its count is again what
-- it has sent of its body, and the server's count has grown by what it has sent since.
pub handle_send-Spends :
    (env : Env) (now key m t : ℕ) (write : ℕ → Written) (slot : ConnSlot) (sh : Shared)
    (h : IsMetered m t slot)
    → Honest write
    → allowed m t now < 2 ^ 62
    → Spends
        (max (h.sendable.sent - slot.throttle.header_len) (allowed m t now))
        slot.throttle.header_len
        h.sendable.sent
        sh.bytes_sent
        (handle_send env now key write slot sh)
unfolding handle_send paused transition_to_lingering
handle_send-Spends env now key m t write slot sh h w small =
    let pauses : ConnSlot = record slot {
      state = pausing;
      throttle = record slot.throttle { pause_until = some (now + nanos) };
    } in
    if-Keeps m t now slot sh h (not (ltb_ℤ slot.http.bytes_sent (pos slot.http.response_len))) _ _
      (same-Keeps m t now slot _ sh _ h refl refl refl (polled-bytes_sent slot _ _))
      (if-Keeps m t now slot sh h (write_limit now slot == 0) _ _
        (same-Keeps m t now slot pauses sh (polled pauses deregister sh) h refl refl refl
          (polled-bytes_sent pauses deregister sh))
        (write_some-Keeps env now key m t write slot sh h w small))
