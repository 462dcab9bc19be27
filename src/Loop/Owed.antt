-- ===== src/Loop/Owed.antt =====
-- rust/crates/thttpd-core/src/eventloop.rs: the counts of senders that a connection holds in the table.
pub mod Steps
pub mod Life
use thttpd_rs.Base.{
  arith, ℕ, zero, suc, ◌+◌, ◌≡◌, refl, sym, ap, ◌∙◌, Bool, true, false, Option, none, some, List,
  [], ◌∷◌, Bytes, All, map, modify, is_empty, if◌then◌else◌,
}
use thttpd_rs.Base.Int.{ℤ, pos, ◌+ℤ◌, ◌-ℤ◌, ltb_ℤ}
use thttpd_rs.Slot.{ConnSlot, is_throttled}
use thttpd_rs.Throttle.{
  Table, ThrottleEntry, ThrottleDecision, unlimited, reject, allow, check_request, drop_sender,
  clear, add_bytes,
}
use thttpd_rs.Throttle.Walk.{Countable, Balanced, check_request-Balanced}
use thttpd_rs.Loop.{
  Env, Shared, After, released, close_connection, transition_to_lingering, transition_to_sending,
  with_table,
}
use thttpd_rs.Loop.Send.{charged}

-- The senders of each entry.
abbrev pub senders : Table → List ℤ
senders es = map (λ e. e.num_sending) es

-- The senders of the table once a connection with the entries `tnums` is gone.
abbrev pub senders_without : List ℕ → Option Table → List ℤ
senders_without tnums none = []
senders_without tnums (some es) = senders (clear tnums es)

-- The senders of the table once the connection of a handler is gone, if it is not gone already.
abbrev pub owed : After → List ℤ
owed (none, sh) = senders_without [] sh.throttles
owed (some slot, sh) = senders_without slot.throttle.tnums sh.throttles

less : ℤ → ℤ
less n = n -ℤ pos 1

less_each : List ℕ → List ℤ → List ℤ
less_each [] ns = ns
less_each (t ∷ ts) ns = less_each ts (modify less ns t)

senders-modify :
    (f : ThrottleEntry → ThrottleEntry) (g : ℤ → ℤ) (es : Table) (t : ℕ)
    → ((e : ThrottleEntry) → (f e).num_sending ≡ g e.num_sending)
    → senders (modify f es t) ≡ modify g (senders es) t
senders-modify f g [] t h = refl
senders-modify f g (e ∷ es) zero h = ap (λ n. n ∷ senders es) (h e)
senders-modify f g (e ∷ es) (suc t) h = ap (λ ns. e.num_sending ∷ ns) (senders-modify f g es t h)

modify_id : (ns : List ℤ) (t : ℕ) → modify (λ n. n) ns t ≡ ns
modify_id [] t = refl
modify_id (n ∷ ns) zero = refl
modify_id (n ∷ ns) (suc t) = ap (λ ms. n ∷ ms) (modify_id ns t)

senders-clear : (ts : List ℕ) (es : Table) → senders (clear ts es) ≡ less_each ts (senders es)
unfolding clear drop_sender less_each less
senders-clear [] es = refl
senders-clear (t ∷ ts) es =
    senders-clear ts (modify drop_sender es t)
    ∙ ap (less_each ts) (senders-modify drop_sender less es t (λ e. refl))

senders-add_bytes : (ts : List ℕ) (n : ℤ) (es : Table) → senders (add_bytes ts n es) ≡ senders es
unfolding add_bytes
senders-add_bytes [] n es = refl
senders-add_bytes (t ∷ ts) n es =
    senders-add_bytes ts n _
    ∙ (senders-modify _ (λ m. m) es t (λ e. refl) ∙ modify_id (senders es) t)

-- bytes that are charged leave the senders alone
pub owed-add_bytes :
    (ts us : List ℕ) (n : ℤ) (es : Table)
    → senders (clear ts (add_bytes us n es)) ≡ senders (clear ts es)
owed-add_bytes ts us n es =
    senders-clear ts (add_bytes us n es)
    ∙ (ap (less_each ts) (senders-add_bytes us n es) ∙ sym (senders-clear ts es))
