-- ===== src/Loop/Static/Safe.antt =====
-- What `serve_static` does to a connection: it begins to send, with the throttles asked once, or the
-- handler panics.
use thttpd_rs.Base.{
  ◌≡◌, refl, subst, ◌∙◌, ℕ, Bool, true, false, not, Option, none, some, Bytes, codes, if◌then◌else◌,
  split, is_empty,
}
use thttpd_rs.Cache.{Mapping, mapped, failed}
use thttpd_rs.Slot.{ConnSlot}
use thttpd_rs.Auth.{AuthResult, no_auth_file, ok, unauthorized, forbidden, auth_check2}
use thttpd_rs.Loop.{Env, Shared, After, transition_to_sending}
use thttpd_rs.Loop.Request.{answer_error}
use thttpd_rs.Loop.Static.{
  Resolved, no_root, outside, at, resolved, has_long_name, is_world_readable, is_world_executable,
  serve_found, serve_checked, serve_stat, serve_resolved, serve_static,
}
use thttpd_rs.Loop.Static.Content.{
  Files, Metadata, Stat, not_found, unreadable, found, answer, answer_header, mapped_slot,
  serve_mapped, with_status, serve_content, serve_file, body_of, is_head, not_modified, is_reject,
  precheck, decided, with_last_byte_filled, file_size,
}

if_elim : {A : Type 0} (P : A → Type 0) (b : Bool) (x y : A) → P x → P y → P (if b then x else y)
if_elim P true x y h k = h
if_elim P false x y h k = k

option_elim :
    {A B : Type 0} (P : B → Type 0) (o : Option A) (x : B) (f : A → B)
    → P x
    → ((a : A) → P (f a))
    → P (elim o [ none ↦ x | some a ↦ f a ])
option_elim P none x f h k = h
option_elim P (some a) x f h k = k a

some_if : (b : Bool) (x y : After) → (if b then some x else some y) ≡ some (if b then x else y)
some_if true x y = refl
some_if false x y = refl

-- A slot and the table beside it, as far as the counts of senders go.
pub record Alike (slot : ConnSlot) (sh : Shared) (slot1 : ConnSlot) (sh1 : Shared) : Type 0 where
  pub held : slot1.throttle ≡ slot.throttle
  pub cgi : slot1.is_cgi ≡ slot.is_cgi
  pub table : sh1.throttles ≡ sh.throttles

module _ (P : Option After → Type 0) (env : Env) (now key : ℕ) (panics : P none) where
  -- Any such slot may begin to send.
  abbrev Sends : ConnSlot → Shared → Type 0
  Sends slot sh =
      (slot1 : ConnSlot) (sh1 : Shared)
      → Alike slot sh slot1 sh1
      → P (some (transition_to_sending env now key slot1 sh1))

  -- So may any such slot that the throttles have let through or refused.
  abbrev Asked : ConnSlot → Shared → Type 0
  Asked slot sh =
      (slot1 : ConnSlot) (sh1 : Shared)
      → Alike slot sh slot1 sh1
      → Sends (decided (precheck slot1 sh1).1 slot1) (precheck slot1 sh1).0

  alike : {slot : ConnSlot} {sh : Shared} → Alike slot sh slot sh
  alike = record { held = refl; cgi = refl; table = refl }

  answer_P :
      (response : Bytes) (slot : ConnSlot) (sh : Shared)
      → Sends slot sh
      → P (some (answer env now key response slot sh))
  unfolding answer
  answer_P response slot sh s = s _ sh (record { held = refl; cgi = refl; table = refl })

  error_P :
      (code : ℕ) (text form arg : Bytes) (slot : ConnSlot) (sh : Shared)
      → Sends slot sh
      → P (some (answer_error env now key code text form arg slot sh))
  unfolding answer_error
  error_P code text form arg slot sh s = s _ sh (record { held = refl; cgi = refl; table = refl })

  header_P :
      (code : ℕ) (header : Bytes) (slot : ConnSlot) (sh : Shared)
      → Sends slot sh
      → P (some (answer_header env now key code header slot sh))
  unfolding answer_header answer with_status
  header_P code header slot sh s = s _ sh (record { held = refl; cgi = refl; table = refl })

  mapped_P :
      (r : Mapping) (files : Files) (path : Bytes) (m : Metadata) (slot : ConnSlot)
      (sh sh1 : Shared)
      → sh1.throttles ≡ sh.throttles
      → Sends slot sh
      → P (serve_mapped r env files now key path m slot sh1)
  unfolding serve_mapped mapped_slot
  mapped_P (failed e) files path m slot sh sh1 t s =
      error_P _ _ _ _ slot sh1
        (λ slot2 sh2 a. s slot2 sh2 (record { held = a.held; cgi = a.cgi; table = a.table ∙ t }))
  mapped_P (mapped handle) files path m slot sh sh1 t s =
      option_elim P
        (body_of slot.http.got_range slot.http.first_byte_index slot.http.last_byte_index
          (files.content handle))
        none _ panics (λ body. s _ sh1 (record { held = refl; cgi = refl; table = t }))

  content_P :
      (files : Files) (path : Bytes) (m : Metadata) (slot : ConnSlot) (sh : Shared)
      → Sends slot sh
      → P (serve_content env files now key path m slot sh)
  unfolding serve_content
  content_P files path m slot sh s =
      if_elim P (is_head slot.http.method) _ _ (header_P 200 _ slot sh s) (
        if_elim P (not_modified m slot.http) _ _ (header_P 304 _ slot sh s)
          (mapped_P _ files path m slot sh _ refl s))

  file_P :
      (files : Files) (path : Bytes) (m : Metadata) (slot : ConnSlot) (sh : Shared)
      → Asked slot sh
      → P (serve_file env files now key path m slot sh)
  unfolding serve_file
  file_P files path m slot sh asked =
      let slot1 = record slot { http = with_last_byte_filled (file_size m) slot.http } in
      let r = precheck slot1 sh in
      let sent : Sends (decided r.1 slot1) r.0 =
        asked slot1 sh (record { held = refl; cgi = refl; table = refl }) in
      if_elim P (is_reject r.1) _ _ (answer_P _ (decided r.1 slot1) r.0 sent)
        (content_P files path m (decided r.1 slot1) r.0 sent)

  found_P :
      (files : Files) (path : Bytes) (m : Metadata) (slot : ConnSlot) (sh : Shared)
      → Sends slot sh
      → Asked slot sh
      → P (serve_found env files now key path m slot sh)
  unfolding serve_found
  found_P files path m slot sh s asked =
      let refused =
        λ (form : Bytes). error_P 403 (codes "Forbidden") form slot.http.encoded_url slot sh s in
      if_elim P m.is_dir _ _
        (option_elim P (files.listing path slot.http.orig_filename) _ _ (error_P _ _ _ _ slot sh s)
          (λ page. answer_P _ slot sh s))
        (if_elim P (not (is_world_readable m.mode)) _ _ (refused _) (
          if_elim P (is_world_executable m.mode) _ _ (refused _) (
            if_elim P (not (is_empty slot.http.path_info)) _ _ (refused _)
              (file_P files path m slot sh asked))))

  checked_P :
      (r : AuthResult) (files : Files) (path : Bytes) (m : Metadata) (slot : ConnSlot) (sh : Shared)
      → Sends slot sh
      → Asked slot sh
      → P (serve_checked r env files now key path m slot sh)
  unfolding serve_checked
  checked_P no_auth_file files path m slot sh s asked = found_P files path m slot sh s asked
  checked_P ok files path m slot sh s asked = found_P files path m slot sh s asked
  checked_P unauthorized files path m slot sh s asked = answer_P _ slot sh s
  checked_P forbidden files path m slot sh s asked = error_P _ _ _ _ slot sh s

  stat_P :
      (st : Stat) (files : Files) (path : Bytes) (slot : ConnSlot) (sh : Shared)
      → Sends slot sh
      → Asked slot sh
      → P (serve_stat st env files now key path slot sh)
  unfolding serve_stat
  stat_P not_found files path slot sh s asked = error_P _ _ _ _ slot sh s
  stat_P unreadable files path slot sh s asked =
      let test = has_long_name (split b'/' path) in
      subst P (some_if test _ _)
        (if_elim P test _ _ (error_P _ _ _ _ slot sh s) (error_P _ _ _ _ slot sh s))
  stat_P (found m) files path slot sh s asked =
      checked_P (auth_check2 files.auth path slot.http.authorization) files path m slot sh s asked

  resolved_P :
      (r : Resolved) (files : Files) (slot : ConnSlot) (sh : Shared)
      → Sends slot sh
      → Asked slot sh
      → P (serve_resolved r env files now key slot sh)
  unfolding serve_resolved
  resolved_P no_root files slot sh s asked = error_P _ _ _ _ slot sh s
  resolved_P outside files slot sh s asked = error_P _ _ _ _ slot sh s
  resolved_P (at path) files slot sh s asked = stat_P (files.stat path) files path slot sh s asked

  -- what holds of every slot that begins to send holds of the answer
  pub static_P :
      (files : Files) (path : Bytes) (slot : ConnSlot) (sh : Shared)
      → Sends slot sh
      → Asked slot sh
      → P (serve_static env files now key path slot sh)
  unfolding serve_static
  static_P files path slot sh s asked =
      let slot1 = record slot { http = record slot.http { charset = files.charset } } in
      resolved_P (resolved files path) files slot1 sh
        (λ slot2 sh2 a. s slot2 sh2 (record { held = a.held; cgi = a.cgi; table = a.table }))
        (λ slot2 sh2 a. asked slot2 sh2 (record { held = a.held; cgi = a.cgi; table = a.table }))
