-- ===== src/Auth/Given.antt =====
-- rust/crates/thttpd-auth/src/lib.rs: what the credentials of a request, a line of a password file and a
-- password that fits its hash look like.
use thttpd_rs.Base.{
  ◌≡◌, refl, sym, ap, ◌∙◌, Bool, true, false, ◌||◌, some, ◌∷◌, ◌++◌, Bytes, codes, inl, inr,
  Bool-cases, Option-cases, &&-eq-true, contains, trim_text, >>=-eq-some, eq_bytes-eq,
  eq_bytes_refl, strip_prefix, strip_prefix-eq, strip_prefix-append, split_first, split_first-eq,
  split_first-append, ◌==◌, arith,
}
use mathlib.Core.Option.{some-injective}
use mathlib.Core.Path.{fst_path, snd_path}
use thttpd_rs.Auth.{AuthEnv, split_colon, utf8_only, parse_basic_auth, verify_password}

pub split_colon-eq :
    (s a b : Bytes) → split_colon s ≡ some (a, b) → (s ≡ a ++ b':' ∷ b) × (contains b':' a ≡ false)
unfolding split_colon
split_colon-eq s a b h = elim (Option-cases (split_first (λ c. c == b':') s).1) [
  | inl e ↦ absurd (cc (rw (e, split_colon) at h))
  | inr (rest, e) ↦
      let (whole, free) = split_first-eq b':' s rest e in
      let both = some-injective _ _ (rw (e, split_colon) at h) in
      rw (sym (fst_path both), sym (snd_path both)) (whole, free)
]

pub split_colon-append :
    (a b : Bytes) → contains b':' a ≡ false → split_colon (a ++ b':' ∷ b) ≡ some (a, b)
unfolding split_colon
split_colon-append a b h =
    let found = split_first-append b':' a b h in
    rw (found, split_colon) (ap (λ name. some (name, b)) (fst_path found))

-- The request gives a user and a password, behind `Basic` in base64.
pub record Given (env : AuthEnv) (authorization user pass : Bytes) : Type 0 where
  pub b64 : Bytes
  pub scheme : trim_text authorization ≡ codes "Basic " ++ b64
  pub decoded : env.decode_base64 (trim_text b64) ≡ some (user ++ b':' ∷ pass)
  pub text : env.is_utf8 (user ++ b':' ∷ pass) ≡ true
  pub one_user : contains b':' user ≡ false

-- The password hashed like the hash is the hash, and both are C strings.
pub record Fits (env : AuthEnv) (pass hash : Bytes) : Type 0 where
  pub hashed : env.crypt pass hash ≡ some hash
  pub text : env.is_utf8 hash ≡ true
  pub pass_has_no_zero : contains 0 pass ≡ false
  pub hash_has_no_zero : contains 0 hash ≡ false

utf8_only-some :
    (is_utf8 : Bytes → Bool) (s t : Bytes)
    → utf8_only is_utf8 s ≡ some t
    → (s ≡ t) × (is_utf8 t ≡ true)
unfolding utf8_only
utf8_only-some is_utf8 s t h = elim (Bool-cases (is_utf8 s)) [
  | inl e ↦ let same = some-injective _ _ (rw e at h) in (same, ap is_utf8 (sym same) ∙ e)
  | inr e ↦ absurd (cc (rw e at h))
]

pub parse_basic_auth-Given :
    (env : AuthEnv) (authorization user pass : Bytes)
    → parse_basic_auth env authorization ≡ some (user, pass)
    → Given env authorization user pass
unfolding parse_basic_auth
parse_basic_auth-Given env authorization user pass h =
    let (b64, p, h1) = >>=-eq-some (strip_prefix (codes "Basic ") (trim_text authorization)) _ h in
    let (raw, q, h2) = >>=-eq-some (env.decode_base64 (trim_text b64)) _ h1 in
    let (text, r, h3) = >>=-eq-some (utf8_only env.is_utf8 raw) _ h2 in
    let (valid, is_text) = utf8_only-some env.is_utf8 raw text r in
    let (whole, free) = split_colon-eq text user pass h3 in
    record {
      b64 = b64;
      scheme = strip_prefix-eq _ _ _ p;
      decoded = q ∙ ap some (valid ∙ whole);
      text = ap env.is_utf8 (sym whole) ∙ is_text;
      one_user = free;
    }

pub Given-parse_basic_auth :
    (env : AuthEnv) (authorization user pass : Bytes)
    → Given env authorization user pass
    → parse_basic_auth env authorization ≡ some (user, pass)
unfolding parse_basic_auth utf8_only
Given-parse_basic_auth env authorization user pass g =
    rw
      (
        g.scheme,
        strip_prefix-append (codes "Basic ") g.b64,
        g.decoded,
        g.text,
        split_colon-append user pass g.one_user,
      )
      refl

pub verify_password-Fits :
    (env : AuthEnv) (pass hash : Bytes) → verify_password env pass hash ≡ true → Fits env pass hash
unfolding verify_password
verify_password-Fits env pass hash h = elim (Bool-cases (contains 0 pass || contains 0 hash)) [
  | inl e ↦ absurd (cc (rw e at h))
  | inr e ↦ elim (Option-cases (env.crypt pass hash)) [
    | inl q ↦ absurd (cc (rw (e, q) at h))
    | inr (result, q) ↦
        let (text, same) = &&-eq-true _ _ (rw (e, q) at h) in
        let eq = eq_bytes-eq result hash same in
        record {
          hashed = q ∙ ap some eq;
          text = ap env.is_utf8 (sym eq) ∙ text;
          pass_has_no_zero = ground (arith, e);
          hash_has_no_zero = ground (arith, e);
        }
  ]
]

pub Fits-verify_password :
    (env : AuthEnv) (pass hash : Bytes) → Fits env pass hash → verify_password env pass hash ≡ true
unfolding verify_password
Fits-verify_password env pass hash f =
    rw (f.pass_has_no_zero, f.hash_has_no_zero, f.hashed, f.text, eq_bytes_refl hash) refl
