-- ===== src/Auth.antt =====
-- rust/crates/thttpd-auth/src/lib.rs: basic authentication against the nearest password file. The
-- directories above a file, what stands there under the name of a password file, the decoding of
-- base64, the test for UTF-8 and `crypt` come from outside.
pub mod Given
pub mod Granted
use thttpd_rs.Base.{
  Bool, true, false, ◌&&◌, ◌||◌, Option, none, some, List, [], ◌∷◌, ◌++◌, Bytes, codes,
  if◌then◌else◌, ◌==◌, is_empty, eq_bytes, contains, lines, trim_text, trim_end_text, split_first,
  starts_with, strip_prefix, ◌>>=◌,
}

-- What stands at the password file of a directory.
pub data PasswordFile : Type 0 where
  absent unreadable : PasswordFile
  readable : Bytes → PasswordFile

pub record AuthEnv : Type 0 where
  -- The parents of a path, the nearest first.
  pub parents : Bytes → List Bytes
  pub password_file : Bytes → PasswordFile
  pub decode_base64 : Bytes → Option Bytes
  pub is_utf8 : Bytes → Bool
  pub crypt : Bytes → Bytes → Option Bytes

pub data AuthResult : Type 0 where
  no_auth_file ok unauthorized forbidden : AuthResult

abbrev pub auth_file : Bytes
auth_file = codes ".htpasswd"

abbrev pub err_401_title : Bytes
err_401_title = codes "Unauthorized"

abbrev pub err_401_form : Bytes
err_401_form = codes "Authorization required for the URL '%.80s'.\n"

abbrev pub Credentials : Type 0
Credentials = Bytes × Bytes

-- `s.split_once(':')`
unfoldable pub split_colon : Bytes → Option (Bytes × Bytes)
split_colon s = elim (split_first (λ c. c == b':') s).1 [
  | none ↦ none
  | some rest ↦ some ((split_first (λ c. c == b':') s).0, rest)
]

unfoldable pub utf8_only : (Bytes → Bool) → Bytes → Option Bytes
utf8_only is_utf8 s = if is_utf8 s then some s else none

unfoldable pub parse_basic_auth : AuthEnv → Bytes → Option Credentials
unfolding split_colon utf8_only
parse_basic_auth env authorization = do
  b64 ← strip_prefix (codes "Basic ") (trim_text authorization)
  decoded ← env.decode_base64 (trim_text b64)
  text ← utf8_only env.is_utf8 decoded
  split_colon text

-- A text with a zero byte is no C string.
unfoldable pub verify_password : AuthEnv → Bytes → Bytes → Bool
verify_password env password stored_hash =
    if contains 0 password || contains 0 stored_hash
    then false
    else elim (env.crypt password stored_hash) [
      | none ↦ false
      | some result ↦ env.is_utf8 result && eq_bytes result stored_hash
    ]

abbrev pub verdict : Bool → AuthResult
verdict true = ok
verdict false = unauthorized

-- The loop over the lines of the file: the first line of the user decides.
unfoldable pub check_lines : AuthEnv → Bytes → Bytes → List Bytes → AuthResult
check_lines env user pass [] = unauthorized
check_lines env user pass (line ∷ rest) =
    let others = check_lines env user pass rest in
    elim (split_colon (trim_end_text line)) [
      | none ↦ others
      | some (line_user, line_hash) ↦
          if eq_bytes line_user user then verdict (verify_password env pass line_hash) else others
    ]

abbrev pub check_content : AuthEnv → Credentials → PasswordFile → AuthResult
check_content env (user, pass) (readable content) = check_lines env user pass (lines content)
check_content env creds _ = forbidden

unfoldable pub check_htpasswd : AuthEnv → PasswordFile → Bytes → AuthResult
check_htpasswd env file authorization = elim (parse_basic_auth env authorization) [
  | none ↦ unauthorized
  | some creds ↦ check_content env creds file
]

abbrev pub is_absent : PasswordFile → Bool
is_absent absent = true
is_absent _ = false

-- The walk up from the directory of the file.
unfoldable pub check_dirs : AuthEnv → Bytes → List Bytes → AuthResult
check_dirs env authorization [] = no_auth_file
check_dirs env authorization (dir ∷ above) =
    let others = check_dirs env authorization above in
    if is_absent (env.password_file dir)
    then others
    else check_htpasswd env (env.password_file dir) authorization

unfoldable pub auth_check2 : AuthEnv → Bytes → Bytes → AuthResult
unfolding check_dirs
auth_check2 env path authorization = check_dirs env authorization (env.parents path)
