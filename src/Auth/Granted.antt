-- ===== src/Auth/Granted.antt =====
-- When a request for a file below a password file is let through.
use thttpd_rs.Base.{
  ◌↔◌, ◌≡◌, refl, Bool, true, false, Option, none, some, List, [], ◌∷◌, Bytes, inl, inr, Bool-cases,
  Option-cases, if◌then◌else◌, lines, eq_bytes, trim_end_text, contains, ◌++◌, ◌≢◌, ap, eq_bytes-eq,
  eq_bytes_refl,
}
use mathlib.Core.Option.{some-injective}
use mathlib.Core.Path.{fst_path, sym, ◌∙◌}
use thttpd_rs.Auth.Given.{
  Given, Fits, split_colon-eq, split_colon-append, parse_basic_auth-Given, Given-parse_basic_auth,
  verify_password-Fits, Fits-verify_password,
}
use thttpd_rs.Auth.{
  AuthEnv, PasswordFile, absent, unreadable, readable, AuthResult, ok, unauthorized, Credentials,
  split_colon, parse_basic_auth, verify_password, verdict, check_lines, check_content,
  check_htpasswd, is_absent, check_dirs, auth_check2,
}

-- The first of the directories that has a password file has this one.
pub data Nearest (env : AuthEnv) (file : PasswordFile) : List Bytes → Type 0 where
  here :
      (dir : Bytes) (above : List Bytes)
      → env.password_file dir ≡ file
      → is_absent file ≡ false
      → Nearest env file (dir ∷ above)
  above :
      (dir : Bytes) (dirs : List Bytes)
      → env.password_file dir ≡ absent
      → Nearest env file dirs
      → Nearest env file (dir ∷ dirs)

-- The line is the user, a colon and the hash.
abbrev pub Names : Bytes → Bytes → Bytes → Type 0
Names user hash line = trim_end_text line ≡ user ++ b':' ∷ hash

-- The line is not the user, a colon and some text.
abbrev pub NamesOther : Bytes → Bytes → Type 0
NamesOther user line = (hash : Bytes) → trim_end_text line ≢ user ++ b':' ∷ hash

-- The first of the lines that names the user gives it this hash.
pub data Entry (user hash : Bytes) : List Bytes → Type 0 where
  here : (line : Bytes) (rest : List Bytes) → Names user hash line → Entry user hash (line ∷ rest)
  later :
      (line : Bytes) (rest : List Bytes)
      → NamesOther user line
      → Entry user hash rest
      → Entry user hash (line ∷ rest)

-- The request gives a user whom the file names with a hash that the password fits.
pub record Passes (env : AuthEnv) (authorization : Bytes) (dirs : List Bytes) : Type 0 where
  pub content : Bytes
  pub nearest : Nearest env (readable content) dirs
  pub user : Bytes
  pub pass : Bytes
  pub given : Given env authorization user pass
  pub hash : Bytes
  pub entry : Entry user hash (lines content)
  pub fits : Fits env pass hash

abbrev LinesPass : AuthEnv → Bytes → Bytes → List Bytes → Type 0
LinesPass env user pass ls = (hash : Bytes) × Entry user hash ls × Fits env pass hash

verdict-ok : (b : Bool) → verdict b ≡ ok → b ≡ true
verdict-ok true e = refl
verdict-ok false e = absurd (cc)

passed_over :
    (env : AuthEnv) (user pass line : Bytes) (rest : List Bytes)
    → NamesOther user line
    → LinesPass env user pass rest
    → LinesPass env user pass (line ∷ rest)
passed_over env user pass line rest o (hash, entry, fits) = (hash, later line rest o entry, fits)

-- What the first line decides.
line-ok :
    (env : AuthEnv) (user pass line : Bytes) (rest : List Bytes) (o : Option (Bytes × Bytes))
    (others : AuthResult)
    → contains b':' user ≡ false
    → split_colon (trim_end_text line) ≡ o
    → (others ≡ ok → LinesPass env user pass rest)
    → (elim o [
      | none ↦ others
      | some (name, hash) ↦
          if eq_bytes name user then verdict (verify_password env pass hash) else others
    ])
      ≡ ok
    → LinesPass env user pass (line ∷ rest)
line-ok env user pass line rest none others free q ih e =
    passed_over env user pass line rest
      (λ hash r. absurd (cc (q, ap split_colon r, split_colon-append user hash free))) (ih e)
line-ok env user pass line rest (some (name, hash)) others free q ih e =
    let whole = (split_colon-eq _ name hash q).0 in
    elim (Bool-cases (eq_bytes name user)) [
      | inl same ↦
          let is_user = ap (λ n. n ++ b':' ∷ hash) (eq_bytes-eq name user same) in
          let fits = verify_password-Fits env pass hash (verdict-ok _ (rw same at e)) in
          (hash, here line rest (whole ∙ is_user), fits)
      | inr other ↦
          let differs : NamesOther user line = λ h r.
            let found = sym q ∙ (ap split_colon r ∙ split_colon-append user h free) in
            absurd (cc (rw (fst_path (some-injective _ _ found)) at other, eq_bytes_refl user)) in
          passed_over env user pass line rest differs (ih (rw other at e))
    ]

check_lines-ok :
    (env : AuthEnv) (user pass : Bytes) (ls : List Bytes)
    → contains b':' user ≡ false
    → check_lines env user pass ls ≡ ok
    → LinesPass env user pass ls
unfolding check_lines
check_lines-ok env user pass [] free e = absurd (cc)
check_lines-ok env user pass (line ∷ rest) free e =
    line-ok env user pass line rest (split_colon (trim_end_text line))
      (check_lines env user pass rest) free refl (check_lines-ok env user pass rest free) e

Entry-ok :
    (env : AuthEnv) (user pass hash : Bytes) {ls : List Bytes}
    → contains b':' user ≡ false
    → Entry user hash ls
    → Fits env pass hash
    → check_lines env user pass ls ≡ ok
unfolding check_lines
Entry-ok env user pass hash free (here line rest q) fits =
    rw
      (
        q,
        split_colon-append user hash free,
        eq_bytes_refl user,
        Fits-verify_password env pass hash fits,
        check_lines,
      )
      refl
Entry-ok env user pass hash free (later line rest other entry) fits =
    let found = Entry-ok env user pass hash free entry fits in
    elim (Option-cases (split_colon (trim_end_text line))) [
      | inl q ↦ rw (q, check_lines) found
      | inr ((name, h), q) ↦ elim (Bool-cases (eq_bytes name user)) [
        | inl same ↦
            let whole = (split_colon-eq _ name h q).0 in
            absurd (other h (whole ∙ ap (λ n. n ++ b':' ∷ h) (eq_bytes-eq name user same)))
        | inr differs ↦ rw (q, differs, check_lines) found
      ]
    ]

content-ok :
    (env : AuthEnv) (authorization : Bytes) (dirs : List Bytes) (o : Option Credentials)
    (file : PasswordFile)
    → parse_basic_auth env authorization ≡ o
    → Nearest env file dirs
    → (elim o [ none ↦ unauthorized | some creds ↦ check_content env creds file ]) ≡ ok
    → Passes env authorization dirs
content-ok env authorization dirs none file q n e = absurd (cc)
content-ok env authorization dirs (some (user, pass)) (readable content) q n e =
    let given = parse_basic_auth-Given env authorization user pass q in
    let (hash, entry, fits) = check_lines-ok env user pass (lines content) given.one_user e in
    record {
      content = content;
      nearest = n;
      user = user;
      pass = pass;
      given = given;
      hash = hash;
      entry = entry;
      fits = fits;
    }
content-ok env authorization dirs (some (user, pass)) absent q n e = absurd (cc)
content-ok env authorization dirs (some (user, pass)) unreadable q n e = absurd (cc)

higher :
    (env : AuthEnv) (authorization dir : Bytes) (dirs : List Bytes)
    → env.password_file dir ≡ absent
    → Passes env authorization dirs
    → Passes env authorization (dir ∷ dirs)
higher env authorization dir dirs h p = record {
  content = p.content;
  nearest = above dir dirs h p.nearest;
  user = p.user;
  pass = p.pass;
  given = p.given;
  hash = p.hash;
  entry = p.entry;
  fits = p.fits;
}

is_absent-eq : (file : PasswordFile) → is_absent file ≡ true → file ≡ absent
is_absent-eq absent e = refl
is_absent-eq unreadable e = absurd (cc)
is_absent-eq (readable content) e = absurd (cc)

check_dirs-ok :
    (env : AuthEnv) (authorization : Bytes) (dirs : List Bytes)
    → check_dirs env authorization dirs ≡ ok
    → Passes env authorization dirs
unfolding check_dirs check_htpasswd
check_dirs-ok env authorization [] e = absurd (cc)
check_dirs-ok env authorization (dir ∷ dirs) e =
    elim (Bool-cases (is_absent (env.password_file dir))) [
      | inl gone ↦
          higher env authorization dir dirs (is_absent-eq (env.password_file dir) gone)
            (check_dirs-ok env authorization dirs (rw gone at e))
      | inr there ↦
          content-ok env authorization (dir ∷ dirs) (parse_basic_auth env authorization)
            (env.password_file dir) refl (here dir dirs refl there) (rw there at e)
    ]

Nearest-check :
    (env : AuthEnv) (authorization : Bytes) {file : PasswordFile} {dirs : List Bytes}
    → Nearest env file dirs
    → check_dirs env authorization dirs ≡ check_htpasswd env file authorization
unfolding check_dirs
Nearest-check env authorization (here dir dirs q there) = rw (q, there) refl
Nearest-check env authorization (above dir dirs q n) = rw q (Nearest-check env authorization n)

-- A request is let through by a password file exactly if the nearest one above the file is readable;
-- the request gives, but for white space around them, `Basic ` and the base64 of a UTF-8 text, whose
-- first colon ends the user and starts the password; the first line of the file that is the user, a
-- colon and some text has a hash there, which is UTF-8; `crypt` of the password with the hash is the
-- hash; and neither has a zero byte.
pub auth_check2-Passes :
    (env : AuthEnv) (path authorization : Bytes)
    → (auth_check2 env path authorization ≡ ok) ↔ Passes env authorization (env.parents path)
unfolding auth_check2 check_htpasswd
auth_check2-Passes env path authorization = (
  check_dirs-ok env authorization (env.parents path),
  λ p.
      let parsed = Given-parse_basic_auth env authorization p.user p.pass p.given in
      let found = Entry-ok env p.user p.pass p.hash p.given.one_user p.entry p.fits in
      Nearest-check env authorization p.nearest ∙ rw (parsed, check_htpasswd) found,
)
