-- ===== src/Loop/Static/Panics.antt =====
-- Which ranges stop the server.
use thttpd_rs.Base.{
  ◌↔◌, ◌≡◌, refl, sym, ◌∙◌, ℕ, ◌+◌, ◌<◌, ◌^◌, ◌%◌, true, false, Option, none, some, Bytes, arith,
  length,
}
use thttpd_rs.Base.Int.{pos}
use thttpd_rs.Cache
use thttpd_rs.Cache.{Mapping, mapped}
use thttpd_rs.Slot.{ConnSlot}
use thttpd_rs.Loop.{Env, Shared}
use thttpd_rs.Loop.Static.Content.{
  Files, Metadata, body_of, slice, serve_mapped, serve_content, is_head, not_modified,
}

body_of-none :
    (a b : ℕ) (content : Bytes)
    → a < 2 ^ 63
    → b < 2 ^ 63
    → (body_of true (pos a) (pos b) content ≡ none) ↔ ((b + 1 < a) × (a < length content))
unfolding body_of slice
body_of-none a b content ha hb =
    let end : (b + 1) % 2 ^ 64 ≡ b + 1 = omega arith in
    (λ e. ground (arith, end), λ h. ground (arith, end))

option-none :
    {A B : Type 0} (o : Option A) (f : A → B)
    → ((elim o [ none ↦ none | some a ↦ some (f a) ]) ≡ none) ↔ (o ≡ none)
option-none none f = (λ e. refl, λ e. refl)
option-none (some a) f = (λ e. absurd (cc), λ e. absurd (cc))

mapped-none :
    (env : Env) (files : Files) (now key : ℕ) (path : Bytes) (m : Metadata) (slot : ConnSlot)
    (sh : Shared) (handle : ℕ)
    → (serve_mapped (mapped handle) env files now key path m slot sh ≡ none) ↔ (
        body_of slot.http.got_range slot.http.first_byte_index slot.http.last_byte_index
          (files.content handle)
        ≡ none)
unfolding serve_mapped
mapped-none env files now key path m slot sh handle = option-none _ _

-- A request for a range, of which neither the method nor a date makes a header without a body, for a
-- file that is mapped: the server panics exactly if the range ends more than one byte before it begins
-- and begins inside the mapped bytes.
pub serve_content-panics :
    (env : Env) (files : Files) (now key : ℕ) (path : Bytes) (m : Metadata) (slot : ConnSlot)
    (sh : Shared) (handle a b : ℕ)
    → is_head slot.http.method ≡ false
    → not_modified m slot.http ≡ false
    → (Cache.map_file now (files.open_file path) (files.fresh path) sh.mmc).1 ≡ mapped handle
    → slot.http.got_range ≡ true
    → slot.http.first_byte_index ≡ pos a
    → slot.http.last_byte_index ≡ pos b
    → a < 2 ^ 63
    → b < 2 ^ 63
    → (serve_content env files now key path m slot sh ≡ none)
      ↔ ((b + 1 < a) × (a < length (files.content handle)))
unfolding serve_content
serve_content-panics env files now key path m slot sh handle a b get fresh found g f l ha hb =
    let none_body : body_of slot.http.got_range slot.http.first_byte_index slot.http.last_byte_index
          (files.content handle)
        ≡ body_of true (pos a) (pos b) (files.content handle) =
      rw (g, f, l) refl in
    let r = Cache.map_file now (files.open_file path) (files.fresh path) sh.mmc in
    let opened = mapped-none env files now key path m slot (record sh { mmc = r.0 }) handle in
    let cut = body_of-none a b (files.content handle) ha hb in
    rw (get, fresh, found)
      (λ e. cut.0 (sym none_body ∙ opened.0 e), λ h. opened.1 (none_body ∙ cut.1 h))
