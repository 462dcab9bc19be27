-- ===== src/Loop/Request/Place.antt =====
-- rust/crates/thttpd-core/src/eventloop.rs: the file that `process_request` finds for a path.
use thttpd_rs.Base.{
  ℕ, zero, suc, Bool, false, not, ◌&&◌, ◌||◌, Option, none, some, [], ◌∷◌, ◌++◌, Bytes, codes,
  if◌then◌else◌, ◌==◌, is_empty, length, drop, eq_bytes,
}
use thttpd_rs.Conn.{HttpConn}
use thttpd_rs.Match.{match_pattern}
use thttpd_rs.Loop.{Env}

-- The path below the directory of the server; the path is not empty.
unfoldable pub on_disk : Bytes → Bytes
on_disk path = if eq_bytes path (codes "/") then codes "index.html" else drop 1 path

-- `rfind('/')`: what stands before and behind the last slash.
unfoldable pub last_slash : Bytes → Option (Bytes × Bytes)
last_slash [] = none
last_slash (c ∷ s) = elim (last_slash s) [
  | some (before, behind) ↦ some (c ∷ before, behind)
  | none ↦ if c == b'/' then some ([], s) else none
]

-- The loop that moves components from the end of a path that does not exist to the path information,
-- on fuel.
unfoldable pub strip_path_info : (Bytes → Bool) → ℕ → Bytes → Bytes → Bytes × Bytes
unfolding on_disk last_slash
strip_path_info exists zero test info = (test, info)
strip_path_info exists (suc fuel) test info =
    if exists (on_disk test) then (test, info) else elim (last_slash test) [
      | none ↦ (test, info)
      | some (before, behind) ↦
          if is_empty before
          then (test, info)
          else strip_path_info exists fuel before (b'/' ∷ behind ++ info)
    ]

-- The loop over the shorter prefixes of a path, on fuel.
unfoldable pub prefix_matches : Bytes → ℕ → Bytes → Bool
unfolding last_slash
prefix_matches pattern zero test = false
prefix_matches pattern (suc fuel) test = elim (last_slash test) [
  | none ↦ false
  | some (before, behind) ↦
      if is_empty before
      then false
      else match_pattern pattern before || prefix_matches pattern fuel before
]

unfoldable pub is_script : Env → Bytes → Bool
unfolding prefix_matches
is_script env orig = elim env.cgi_pattern [
  | none ↦ false
  | some pattern ↦ match_pattern pattern orig || prefix_matches pattern (length orig) orig
]

unfoldable pub has_vhost : Env → HttpConn → Bool
has_vhost env http = env.vhost && not (is_empty http.host)

-- The path with the host in front.
unfoldable pub host_path : Env → Bytes → HttpConn → Bytes
host_path env path http = b'/' ∷ env.lowercase http.host ++ path

unfoldable pub with_vhost : Env → Bytes → HttpConn → HttpConn
unfolding has_vhost host_path
with_vhost env path http =
    if has_vhost env http
    then record http {
      orig_filename = host_path env path http;
      vhost_dir = env.lowercase http.host;
    }
    else record http { orig_filename = path }

unfoldable pub with_path_info : Env → HttpConn → HttpConn
unfolding strip_path_info
with_path_info env http =
    let orig = http.orig_filename in
    let (test, info) = strip_path_info env.exists (length orig) orig [] in
    if env.vhost && not (is_empty http.vhost_dir)
    then http
    else if is_empty info
    then http
    else record http { path_info = info; orig_filename = test }

unfoldable pub place : Env → Bytes → HttpConn → HttpConn
unfolding with_vhost with_path_info
place env path http = with_path_info env (with_vhost env path http)

-- The file of a request, which the loop over the path information leaves as it is.
unfoldable pub file_path : Env → Bytes → HttpConn → Bytes
unfolding has_vhost host_path on_disk
file_path env path http =
    if has_vhost env http then on_disk (host_path env path http) else on_disk path
