-- ===== src/Loop/Events/Begun.antt =====
-- rust/crates/thttpd-core/src/eventloop.rs: where a slot that reads goes.
use thttpd_rs.Base.{words, codes, true, take, false, Bytes, ℕ, Bool, Option, none, some, ◌≡◌}
use thttpd_rs.Base.{if◌then◌else◌}
use thttpd_rs.Parse.State.{GotRequest, no_request, got_request, bad_request}
use thttpd_rs.Conn.{reading}
use thttpd_rs.Slot.{ConnSlot}
use thttpd_rs.Loop.{Env, Shared, After, close_connection, transition_to_sending}
use thttpd_rs.Loop.Request.{
  Stages, answer_error, method_word, is_unknown, bad_form, unimplemented_form, refused_path,
  located, routed, started_request, process_request,
}
use thttpd_rs.Parse.Method.{Method, parse_method}
use thttpd_rs.Url.{normalize_path}
use thttpd_rs.Loop.Request.Fields.{with_headers, with_request_line, request_line}
use thttpd_rs.Loop.Request.Place.{place, file_path}
use thttpd_rs.Loop.Read.{
  Received, answer_bad_request, with_data, detected, detect, after_read, handle_read,
}
use thttpd_rs.Loop.Events.Diagram.{
  ◌⟶◌, wait, answer, hang_up, phase, MayLead, transition_to_sending-phase,
}
use thttpd_rs.Base.{◌-◌, length, Bool-cases, inl, inr}
use thttpd_rs.Parse
use thttpd_rs.Parse.State.{ParseState}
use thttpd_rs.Url.{has_double_slash}
use thttpd_rs.Loop.Read.{eof, got, would_block, failed, body_complete, received}

-- What the file and the script of a request do to a slot that reads.
abbrev pub Follow : Stages → Type 0
Follow stages =
    (slot : ConnSlot) (sh : Shared)
    → slot.state ≡ reading
    → ((path : Bytes) → MayLead reading (stages.serve_static path slot sh))
      × (reading ⟶ phase (stages.dispatch_cgi slot sh))

-- The edge from reading, kept shut.
unfoldable pub Begins : Option After → Type 0
Begins r = MayLead reading r

pub if-Begins : (b : Bool) (x y : Option After) → Begins x → Begins y → Begins (if b then x else y)
if-Begins true x y h k = h
if-Begins false x y h k = k

pub option-Begins {ℓ} :
    {A : Type ℓ} (o : Option A) (x : Option After) (f : A → Option After)
    → Begins x
    → ((a : A) → Begins (f a))
    → Begins (elim o [ none ↦ x | some a ↦ f a ])
option-Begins none x f h k = h
option-Begins (some a) x f h k = k a

pub sending-Begins :
    (env : Env) (now key : ℕ) (slot : ConnSlot) (sh : Shared)
    → Begins (some (transition_to_sending env now key slot sh))
unfolding Begins
sending-Begins env now key slot sh = rw (transition_to_sending-phase) answer

pub error-Begins :
    (env : Env) (now key code : ℕ) (text form arg : Bytes) (slot : ConnSlot) (sh : Shared)
    → Begins (some (answer_error env now key code text form arg slot sh))
unfolding answer_error
error-Begins env now key code text form arg slot sh = sending-Begins env now key _ sh

closed-Begins :
    (env : Env) (slot : ConnSlot) (sh : Shared) → Begins (some (close_connection env slot sh))
unfolding Begins close_connection
closed-Begins env slot sh = hang_up

waiting-Begins :
    (slot : ConnSlot) (sh : Shared) → slot.state ≡ reading → Begins (some (some slot, sh))
unfolding Begins
waiting-Begins slot sh h = rw h wait

served-Begins :
    (stages : Stages) (path : Bytes) (slot : ConnSlot) (sh : Shared)
    → Follow stages
    → slot.state ≡ reading
    → Begins (stages.serve_static path slot sh)
unfolding Begins
served-Begins stages path slot sh f h = (f slot sh h).0 path

scripted-Begins :
    (stages : Stages) (slot : ConnSlot) (sh : Shared)
    → Follow stages
    → slot.state ≡ reading
    → Begins (some (stages.dispatch_cgi slot sh))
unfolding Begins
scripted-Begins stages slot sh f h = (f slot sh h).1

located-Begins :
    (env : Env) (stages : Stages) (now key : ℕ) (path : Bytes) (slot : ConnSlot) (sh : Shared)
    → Follow stages
    → slot.state ≡ reading
    → Begins (located env stages now key path slot sh)
unfolding located
located-Begins env stages now key path slot sh f h =
    let slot1 = record slot { http = place env path slot.http } in
    if-Begins _ _ _ (scripted-Begins stages slot1 sh f h) (
      if-Begins _ _ _ (error-Begins _ _ _ _ _ _ _ _ _)
        (served-Begins stages (file_path env path slot.http) slot1 sh f h))

refused_path-Begins :
    (env : Env) (now key : ℕ) (slot : ConnSlot) (sh : Shared)
    → Begins (some (refused_path env now key slot sh))
unfolding refused_path
refused_path-Begins env now key slot sh =
    elim (Bool-cases (has_double_slash slot.http.decoded_url)) [
      | inl e ↦ rw e (error-Begins _ _ _ _ _ _ _ _ _)
      | inr e ↦ rw e (error-Begins _ _ _ _ _ _ _ _ _)
    ]

routed-Begins :
    (env : Env) (stages : Stages) (now key : ℕ) (slot : ConnSlot) (sh : Shared)
    → Follow stages
    → slot.state ≡ reading
    → Begins (routed env stages now key slot sh)
unfolding routed
routed-Begins env stages now key slot sh f h = if-Begins _ _ _ (error-Begins _ _ _ _ _ _ _ _ _) (
    option-Begins (normalize_path slot.http.decoded_url) (some (refused_path env now key slot sh))
      (λ path. located env stages now key path slot sh) (refused_path-Begins env now key slot sh)
      (λ path. located-Begins env stages now key path slot sh f h))

started_request-Begins :
    (env : Env) (stages : Stages) (now key : ℕ) (buf : Bytes) (slot : ConnSlot) (sh : Shared)
    → Follow stages
    → slot.state ≡ reading
    → Begins (started_request env stages now key buf slot sh)
unfolding started_request
started_request-Begins env stages now key buf slot sh f h =
    let slot1 = record slot { http = with_headers env buf slot.http } in
    let word = method_word (words (request_line env buf)) in
    let version = slot.http.http_version in
    if-Begins _ _ _ (error-Begins env now key 400 (codes "Bad Request") bad_form version slot sh) (
      if-Begins (is_unknown slot.http.method) _ _
        (error-Begins env now key 501 (codes "Not Implemented") unimplemented_form word slot sh)
        (routed-Begins env stages now key slot1 sh f h))

process_request-Begins :
    (env : Env) (stages : Stages) (now key : ℕ) (slot : ConnSlot) (sh : Shared)
    → Follow stages
    → slot.state ≡ reading
    → Begins (process_request env stages now key slot sh)
unfolding process_request Begins
process_request-Begins env stages now key slot sh f h =
    let buf = take slot.http.checked_idx slot.http.read_buf in
    let started =
      λ (method : Method). record slot { http = with_request_line env buf method slot.http } in
    option-Begins (parse_method slot.http.read_buf slot.http.checked_idx) none
      (λ method. started_request env stages now key buf (started method) sh) tt
      (λ method. started_request-Begins env stages now key buf (started method) sh f h)

detected-Begins :
    (result : GotRequest) (env : Env) (now key : ℕ) (stages : Stages) (slot : ConnSlot)
    (sh : Shared)
    → Follow stages
    → slot.state ≡ reading
    → Begins (detected result env now key stages slot sh)
unfolding detected answer_bad_request
detected-Begins no_request env now key stages slot sh f h = waiting-Begins slot sh h
detected-Begins bad_request env now key stages slot sh f h = sending-Begins env now key _ sh
detected-Begins got_request env now key stages slot sh f h =
    process_request-Begins env stages now key slot sh f h

detect-Begins :
    (env : Env) (now key : ℕ) (stages : Stages) (slot : ConnSlot) (sh : Shared)
    → Follow stages
    → slot.state ≡ reading
    → Begins (detect env now key stages slot sh)
unfolding detect Begins
detect-Begins env now key stages slot sh f h =
    let http = slot.http in
    let checked_slot = λ (r : GotRequest × ℕ × ParseState). record slot {
      http = record http { checked_idx = r.1; parse_state = r.2 };
    } in
    option-Begins (Parse.got_request http.read_buf http.checked_idx http.read_idx http.parse_state)
      none (λ r. detected r.0 env now key stages (checked_slot r) sh) tt
      (λ r. detected-Begins r.0 env now key stages (checked_slot r) sh f h)

after_read-Begins :
    (env : Env) (now key : ℕ) (stages : Stages) (slot : ConnSlot) (sh : Shared)
    → Follow stages
    → slot.state ≡ reading
    → Begins (after_read env now key stages slot sh)
unfolding after_read
after_read-Begins env now key stages slot sh f h =
    if-Begins slot.pending_cgi_body _ _
      (if-Begins (body_complete slot) _ _
        (scripted-Begins stages (record slot { pending_cgi_body = false }) sh f h)
        (waiting-Begins slot sh h))
      (detect-Begins env now key stages slot sh f h)

received-Begins :
    (r : Received) (env : Env) (now key : ℕ) (stages : Stages) (slot : ConnSlot) (sh : Shared)
    → Follow stages
    → slot.state ≡ reading
    → Begins (received r env now key stages slot sh)
unfolding received
received-Begins eof env now key stages slot sh f h = closed-Begins env slot sh
received-Begins (got d) env now key stages slot sh f h =
    after_read-Begins env now key stages (with_data d slot) sh f (unfold with_data in h)
received-Begins would_block env now key stages slot sh f h = waiting-Begins slot sh h
received-Begins failed env now key stages slot sh f h = closed-Begins env slot sh

panic-Begins : Begins none
unfolding Begins
panic-Begins = tt

bad_request-Begins :
    (env : Env) (now key : ℕ) (slot : ConnSlot) (sh : Shared)
    → Begins (some (answer_bad_request env now key slot sh))
unfolding answer_bad_request
bad_request-Begins env now key slot sh = sending-Begins env now key _ sh

handle_read-Begins :
    (env : Env) (now key : ℕ) (read : ℕ → Received) (stages : Stages) (slot : ConnSlot)
    (sh : Shared)
    → Follow stages
    → slot.state ≡ reading
    → Begins (handle_read env now key read stages slot sh)
unfolding handle_read
handle_read-Begins env now key read stages slot sh f h =
    let space = length slot.http.read_buf - slot.http.read_idx in
    if-Begins _ none _ panic-Begins (
      if-Begins _ _ _ (bad_request-Begins env now key slot sh) (
        option-Begins slot.stream (some (close_connection env slot sh))
          (λ stream. received (read space) env now key stages slot sh) (closed-Begins env slot sh)
          (λ stream. received-Begins (read space) env now key stages slot sh f h)))

-- reading waits, answers or hangs up
pub handle_read-MayLead :
    (env : Env) (now key : ℕ) (read : ℕ → Received) (stages : Stages) (slot : ConnSlot)
    (sh : Shared)
    → Follow stages
    → slot.state ≡ reading
    → MayLead reading (handle_read env now key read stages slot sh)
unfolding Begins
handle_read-MayLead env now key read stages slot sh f h =
    handle_read-Begins env now key read stages slot sh f h
