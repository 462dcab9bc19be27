-- ===== src/Loop/Static/Senders.antt =====
-- A connection that is served a file, from its request to its end.
use thttpd_rs.Base.{
  ◌≡◌, ◌≢◌, refl, sym, ap, ◌∙◌, subst, ℕ, true, none, some, List, [], Bytes, All, arith,
}
use mathlib.Core.Option.{some-injective}
use thttpd_rs.Conn.{reading}
use thttpd_rs.Slot.{ConnSlot}
use thttpd_rs.Throttle.{Table, ThrottleDecision, unlimited, reject, allow, check_request, clear}
use thttpd_rs.Throttle.Walk.{Countable, Balanced, check_request-Balanced}
use thttpd_rs.Watch.{conn_token}
use thttpd_rs.Loop.{
  Env, Shared, After, admission, begun, decided_slot, with_header_len, reregister, writable,
  transition_to_sending, throttle_match_path,
}
use thttpd_rs.Loop.Request.{Stages}
use thttpd_rs.Loop.Events.{Event, handle_slot}
use thttpd_rs.Loop.Events.Diagram.{◌⟶◌, answer, phase, MayLead, transition_to_sending-phase}
use thttpd_rs.Loop.Events.Phases.{handle_slot-⟶}
use thttpd_rs.Loop.Owed.{senders, owed, senders_without}
use thttpd_rs.Loop.Owed.Steps.{
  Owes, IsNew, begun-tnums, with_header_len-throttle, polled-throttles, transition_to_sending-owed,
}
use thttpd_rs.Loop.Owed.Life.{later, later-Owes, then-Owes}
use thttpd_rs.Loop.Static.{serve_static}
use thttpd_rs.Loop.Static.Content.{Files, precheck, decided}
use thttpd_rs.Loop.Static.Safe.{Alike, static_P}

-- The stages of a server that has these files and runs its scripts so.
abbrev pub file_stages : Env → Files → ℕ → ℕ → (ConnSlot → Shared → After) → Stages
file_stages env files now key run_script = record {
  serve_static = λ path slot sh. serve_static env files now key path slot sh;
  dispatch_cgi = run_script;
}

static-MayLead :
    (env : Env) (files : Files) (now key : ℕ) (path : Bytes) (slot : ConnSlot) (sh : Shared)
    → MayLead reading (serve_static env files now key path slot sh)
static-MayLead env files now key path slot sh =
    let sent = λ (slot1 : ConnSlot) (sh1 : Shared).
      subst (λ x. reading ⟶ x) (sym (transition_to_sending-phase env now key slot1 sh1)) answer in
    static_P (MayLead reading) env now key tt files path slot sh (λ slot1 sh1 a. sent slot1 sh1)
      (λ slot1 sh1 a slot2 sh2 b. sent slot2 sh2)

-- The handler of an event moves a slot along an edge of the diagram or takes it out of the table where
-- the diagram allows it, whatever the sockets, the file system and the password files answer, so far
-- as it does not panic and the start of a script keeps to the edges from `reading`: a lingering slot
-- only closes, no slot goes back to reading, and only sending and paused slots come to pause or to
-- linger.
pub file_slot-⟶ :
    (env : Env) (files : Files) (now key : ℕ) (run_script : ConnSlot → Shared → After) (ev : Event)
    (slot : ConnSlot) (sh : Shared) (after : After)
    → ((slot1 : ConnSlot) (sh1 : Shared)
        → slot1.state ≡ reading
        → reading ⟶ phase (run_script slot1 sh1))
    → handle_slot env (file_stages env files now key run_script) key ev slot sh ≡ some after
    → slot.state ⟶ phase after
file_slot-⟶ env files now key run_script ev slot sh after f e =
    handle_slot-⟶ env (file_stages env files now key run_script) key ev slot sh after
      (λ slot1 sh1 h. (λ path. static-MayLead env files now key path slot1 sh1, f slot1 sh1 h)) e

-- a slot with a decision is not asked again
admission-checked :
    (slot : ConnSlot) (sh : Shared)
    → slot.throttle.checked ≡ true
    → admission slot sh ≡ (sh, unlimited)
unfolding admission
admission-checked slot sh h = rw h (ground arith)

checked-owed :
    (env : Env) (now key : ℕ) (slot : ConnSlot) (sh : Shared)
    → slot.throttle.checked ≡ true
    → owed (transition_to_sending env now key slot sh) ≡ owed (some slot, sh)
unfolding transition_to_sending decided_slot
checked-owed env now key slot sh h =
    let s0 = with_header_len slot in
    let admitted =
      admission-checked s0 sh (ap (λ x. x.checked) (with_header_len-throttle slot) ∙ h) in
    rw admitted (
      ap (λ t. senders_without (begun now s0).throttle.tnums t)
        (polled-throttles (begun now s0) (λ stream. reregister stream (conn_token key) writable) sh)
      ∙ ap (λ ts. senders_without ts sh.throttles)
          (begun-tnums now s0 ∙ ap (λ x. x.tnums) (with_header_len-throttle slot)))

decided-checked :
    (d : ThrottleDecision) (slot : ConnSlot) → (decided d slot).throttle.checked ≡ true
unfolding decided
decided-checked unlimited slot = refl
decided-checked reject slot = refl
decided-checked (allow tnums most least) slot = refl

decided-without :
    (d : ThrottleDecision) (slot : ConnSlot) (es after : Table)
    → slot.throttle.tnums ≡ []
    → Balanced es (after, d)
    → senders_without (decided d slot).throttle.tnums (some after) ≡ senders es
unfolding decided clear
decided-without unlimited slot es after h b = rw h (ap senders b)
decided-without reject slot es after h b = rw h (ap senders b)
decided-without (allow tnums most least) slot es after h b = ap senders b

precheck-owed :
    (slot : ConnSlot) (sh : Shared) (es : Table)
    → slot.throttle.tnums ≡ []
    → sh.throttles ≡ some es
    → All Countable es
    → senders_without
        (decided (precheck slot sh).1 slot).throttle.tnums
        (precheck slot sh).0.throttles
      ≡ senders es
unfolding precheck
precheck-owed slot sh es h t c =
    let path = throttle_match_path slot.http.orig_filename in
    rw t (
      decided-without (check_request path es).1 slot es (check_request path es).0 h
        (check_request-Balanced path es c))

Alike-IsNew :
    {slot slot1 : ConnSlot} {sh sh1 : Shared} → IsNew slot → Alike slot sh slot1 sh1 → IsNew slot1
Alike-IsNew h a = record {
  own = a.cgi ∙ h.own;
  unchecked = ap (λ x. x.checked) a.held ∙ h.unchecked;
  unheld = ap (λ x. x.tnums) a.held ∙ h.unheld;
}

static-Owes :
    (env : Env) (files : Files) (now key : ℕ) (path : Bytes) (slot : ConnSlot) (sh : Shared)
    (es : Table)
    → IsNew slot
    → sh.throttles ≡ some es
    → All Countable es
    → Owes (senders es) (serve_static env files now key path slot sh)
static-Owes env files now key path slot sh es h t c =
    static_P (Owes (senders es)) env now key tt files path slot sh
      (λ slot1 sh1 a.
        transition_to_sending-owed env now key slot1 sh1 es (Alike-IsNew h a) (a.table ∙ t) c)
      (λ slot1 sh1 a slot2 sh2 b.
        checked-owed env now key slot2 sh2
          (ap (λ x. x.checked) b.held ∙ decided-checked (precheck slot1 sh1).1 slot1)
        ∙ (ap (λ x. senders_without x.tnums sh2.throttles) b.held
            ∙ (ap (senders_without (decided (precheck slot1 sh1).1 slot1).throttle.tnums) b.table
                ∙ precheck-owed slot1 sh1 es (Alike-IsNew h a).unheld (a.table ∙ t) c)))

static-departed :
    (env : Env) (files : Files) (now key : ℕ) (path : Bytes) (slot : ConnSlot) (sh : Shared)
    (after : After)
    → serve_static env files now key path slot sh ≡ some after
    → phase after ≢ some reading
static-departed env files now key path slot sh after e =
    static_P (λ r. r ≡ some after → phase after ≢ some reading) env now key (λ e. cc) files path
      slot sh
      (λ slot1 sh1 a e k.
        cc (some-injective _ _ e, transition_to_sending-phase env now key slot1 sh1, k))
      (λ slot1 sh1 a slot2 sh2 b e k.
        cc (some-injective _ _ e, transition_to_sending-phase env now key slot2 sh2, k))
      e

-- A connection that is new to the table, no script's, and asks for a file, in a server with a table
-- whose counts of senders are no negative numbers and can go up by one: whatever the file system and
-- the password files answer and whatever events follow, as long as none panics, closing the
-- connection then gives each entry the count of senders that it had before the request; and where
-- the connection is closed already, the entries have these counts.
pub served_file-senders :
    (env : Env) (files : Files) (stages : Stages) (now key : ℕ) (evs : List Event) (path : Bytes)
    (slot : ConnSlot) (sh : Shared) (es : Table)
    → IsNew slot
    → sh.throttles ≡ some es
    → All Countable es
    → Owes (senders es) (elim (serve_static env files now key path slot sh) [
      | none ↦ none
      | some after ↦ later env stages key evs after
    ])
served_file-senders env files stages now key evs path slot sh es h t c =
    let r = serve_static env files now key path slot sh in
    then-Owes env stages key evs (senders es) r
      (static-Owes env files now key path slot sh es h t c)
      (λ after e.
        later-Owes env stages key evs after
          (static-departed env files now key path slot sh after e))
