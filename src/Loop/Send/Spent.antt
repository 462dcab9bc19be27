-- ===== src/Loop/Send/Spent.antt =====
-- rust/crates/thttpd-core/src/eventloop.rs: what a slot and the server have counted after a write.
use thttpd_rs.Base.{
  Bool-cases, inl, inr, arith, ℕ, ◌+◌, ◌-◌, ◌∙◌, ◌^◌, ◌≤◌, ◌<◌, ◌≡◌, refl, Bool, true, false,
  Option, none, some, ap, if◌then◌else◌,
}
use thttpd_rs.Base.Int.{pos, ◌+ℤ◌, ltb_ℤ, +ℤ-pos}
use thttpd_rs.Slot.{ConnSlot, is_throttled}
use thttpd_rs.Watch.{conn_token}
use thttpd_rs.Loop.{
  PollCall, with_table, reregister, writable, polled, Shared, After, transition_to_lingering,
}
use thttpd_rs.Loop.Send.{charged}

-- A slot whose header ends at `head`, in a server that had sent `total` bytes when the slot had sent
-- `before`: it has sent at most `k` bytes of its body, all of them are in its count, and the server has
-- counted what it has sent since.
pub record Spent (k head before total : ℕ) (slot : ConnSlot) (sh : Shared) : Type 0 where
  pub sent : ℕ
  pub counted : slot.http.bytes_sent ≡ pos sent
  pub header : slot.throttle.header_len ≡ head
  pub within : sent - head ≤ k
  pub spent : slot.throttle.body_bytes ≡ pos (sent - head)
  pub totalled : sh.bytes_sent + before ≡ total + sent

-- What a handler leaves that does not panic.
abbrev pub Spends : ℕ → ℕ → ℕ → ℕ → Option After → Type 0
Spends k head before total none = ⊥
Spends k head before total (some (none, sh)) = Unit
Spends k head before total (some (some slot, sh)) = Spent k head before total slot sh

-- The count after a write up to byte `b` of the response.
pub record Charged (b head : ℕ) (r : ConnSlot × Shared) (sh : Shared) : Type 0 where
  pub at : r.0.http.bytes_sent ≡ pos b
  pub header : r.0.throttle.header_len ≡ head
  pub spent : r.0.throttle.body_bytes ≡ pos (b - head)
  pub total : r.1.bytes_sent ≡ sh.bytes_sent

pub charged-Charged :
    (now a b head : ℕ) (slot : ConnSlot) (sh : Shared)
    → is_throttled slot.throttle ≡ true
    → slot.http.bytes_sent ≡ pos b
    → slot.throttle.header_len ≡ head
    → slot.throttle.body_bytes ≡ pos (a - head)
    → a ≤ b
    → b < 2 ^ 63
    → Charged b head (charged now (pos ((b - head) - (a - head))) slot sh) sh
unfolding charged with_table
charged-Charged now a b head slot sh on at e c le small =
    let d = (b - head) - (a - head) in
    let more : slot.throttle.body_bytes +ℤ pos d ≡ pos (b - head) =
      rw c (+ℤ-pos (a - head) d (omega arith) ∙ ap pos (omega arith)) in
    elim (Bool-cases (ltb_ℤ (pos 0) (pos d))) [
      | inl some_body ↦
          rw (on, some_body) (record { at = at; header = e; spent = more; total = ground arith })
      | inr no_body ↦
          let same : a - head ≡ b - head = ground arith in
          rw (on, no_body) (record { at = at; header = e; spent = c ∙ ap pos same; total = refl })
    ]

pub polled-bytes_sent :
    (slot : ConnSlot) (call : ℕ → PollCall) (sh : Shared)
    → (polled slot call sh).bytes_sent ≡ sh.bytes_sent
unfolding polled
polled-bytes_sent slot call sh = ground arith

pub settled-Spends :
    (left : Bool) (key k head before total : ℕ) (slot : ConnSlot) (sh : Shared)
    → Spent k head before total slot sh
    → Spends k head before total (
        some (
          if left
          then (some slot, polled slot (λ stream. reregister stream (conn_token key) writable) sh)
          else transition_to_lingering key slot sh))
unfolding transition_to_lingering
settled-Spends true key k head before total slot sh h = record {
  sent = h.sent;
  counted = h.counted;
  header = h.header;
  within = h.within;
  spent = h.spent;
  totalled = ap (λ n. n + before) (polled-bytes_sent slot _ sh) ∙ h.totalled;
}
settled-Spends false key k head before total slot sh h = record {
  sent = h.sent;
  counted = h.counted;
  header = h.header;
  within = h.within;
  spent = h.spent;
  totalled = ap (λ n. n + before) (polled-bytes_sent slot _ _) ∙ h.totalled;
}
