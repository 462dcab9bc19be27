-- ===== src/Samples/Files.antt =====
-- Samples of the files that are served, their types and the passwords that guard them.
use thttpd_rs.Base.{
  split, eq_bytes, strip_prefix, trim_text, split_first, lines, ◌↔◌, ◌≡◌, refl, arith, ◌+◌, ◌<◌,
  ◌==◌, true, false, Option, none, some, [], ◌∷◌, Bytes, codes, length, if◌then◌else◌,
}
use thttpd_rs.Base.Int.{pos, ◌-ℤ◌, ◌*ℤ◌}
use thttpd_rs.Cache
use thttpd_rs.Cache.{opened}
use thttpd_rs.Conn
use thttpd_rs.Conn.{HttpConn, reading, sending}
use thttpd_rs.Slot
use thttpd_rs.Slot.{ConnSlot}
use thttpd_rs.Mime.{
  look_up, types, info_of, lookup_encoding, figure_mime, extensions, lookup_type, walk, join_commas,
}
use thttpd_rs.Mime.Tables.{here, look_up-Unlisted}
use thttpd_rs.Mime.Walk.{Described, figure_mime-typed}
use thttpd_rs.Auth.{
  check_htpasswd, check_lines, AuthEnv, readable, absent, ok, auth_check2, verify_password,
  split_colon, parse_basic_auth,
}
use thttpd_rs.Auth.Granted.{auth_check2-Passes, Passes}
use thttpd_rs.Loop.{Shared, After, transition_to_sending}
use thttpd_rs.Loop.Events.{handle_slot}
use thttpd_rs.Loop.Events.Diagram.{◌⟶◌, phase, answer, transition_to_sending-phase}
use thttpd_rs.Loop.Static.{
  not_modified, serve_static, Files, Metadata, found, serve_content, with_last_byte_filled,
}
use thttpd_rs.Loop.Static.Ranges.{between, Announced, served-Announced}
use thttpd_rs.Loop.Static.Panics.{serve_content-panics}
use thttpd_rs.Loop.Send.{after_write}
use thttpd_rs.Loop.Owed.{senders}
use thttpd_rs.Loop.Owed.Steps.{Owes}
use thttpd_rs.Loop.Owed.Life.{later}
use thttpd_rs.Loop.Static.Senders.{file_stages, file_slot-⟶, served_file-senders}
use thttpd_rs.Samples.Events.{
  env, shared, slot, event, stages, entry, entry-Countable, asking, asking-IsNew,
}

abbrev whole_name : Bytes → Option Bytes
whole_name s = some s

figure_mime-typed_example :
    Described
      (codes "text/html")
      (codes "gz" ∷ codes "html" ∷ [])
      (figure_mime whole_name (codes "page.html.gz"))
unfolding extensions split look_up eq_bytes
figure_mime-typed_example =
    figure_mime-typed whole_name (codes "page.html.gz") (codes "page.html.gz") (codes "html")
      (codes "text/html") [] (codes "gz" ∷ []) refl refl
      (look_up-Unlisted (codes "gz") types refl, tt) (here _)

gzipped : (figure_mime whole_name (codes "page.html.gz")).encoding ≡ some (codes "gzip")
unfolding figure_mime info_of lookup_encoding extensions split lookup_type eq_bytes walk join_commas
gzipped = refl

abbrev auth : AuthEnv
auth = record {
  parents = λ path. codes "/www/a" ∷ codes "/www" ∷ [];
  password_file = λ dir. if length dir == 4 then readable (codes "bob:no\nann:xy\n") else absent;
  decode_base64 = λ s. some (codes "ann:pw");
  is_utf8 = λ s. true;
  crypt = λ password salt. some (codes "xy");
}

ann_passes : auth_check2 auth (codes "/www/a/f") (codes "Basic z") ≡ ok
unfolding auth_check2 split_colon parse_basic_auth verify_password check_htpasswd strip_prefix
    trim_text split_first check_lines lines eq_bytes
ann_passes = refl

auth_check2-Passes_example :
    (auth_check2 auth (codes "/www/a/f") (codes "Basic z") ≡ ok)
    ↔ Passes auth (codes "Basic z") (codes "/www/a" ∷ codes "/www" ∷ [])
auth_check2-Passes_example = auth_check2-Passes auth (codes "/www/a/f") (codes "Basic z")

-- The second and the third byte.
abbrev ranged : HttpConn
ranged = record Conn.new { got_range = true; first_byte_index = pos 1; last_byte_index = pos 2 }

served-Announced_example : Announced (pos 0) (with_last_byte_filled (pos 5) ranged) (codes "hello")
unfolding Conn.new
served-Announced_example =
    served-Announced (pos 0) ranged (codes "hello") (between 1 2 (omega arith)) refl (omega arith)
      (omega arith)

abbrev metadata : Metadata
metadata = record { is_dir = false; mode = 4; len = 5; modified = none }

-- A server with one file.
abbrev files : Files
files = record {
  no_symlink_check = true;
  charset = codes "utf-8";
  dir_text = codes "/www";
  root = some (codes "/www");
  canonicalize = λ path. some path;
  begins_with = λ path root. true;
  stat = λ path. found metadata;
  auth = auth;
  listing = λ path url. none;
  open_file =
      λ path. opened (record { dev = 1; ino = 2; size = 5; ctime_sec = pos 0; ctime_nsec = pos 0 });
  fresh = λ path. some 9;
  content = λ handle. codes "hello";
  file_name = whole_name;
}

abbrev reversed : ConnSlot
reversed = record asking {
  http = record Conn.new { got_range = true; first_byte_index = pos 3; last_byte_index = pos 1 };
}

serve_content-panics_example :
    (serve_content env files 0 4 (codes "/www/f") metadata reversed shared ≡ none)
    ↔ ((1 + 1 < 3) × (3 < length (codes "hello")))
unfolding Conn.new not_modified Cache.map_file Cache.with_max_size
serve_content-panics_example =
    serve_content-panics env files 0 4 (codes "/www/f") metadata reversed shared 9 3 1 refl refl
      refl refl refl refl (omega arith) (omega arith)

served_file-senders_example :
    Owes (senders (entry ∷ [])) (elim (serve_static env files 0 4 (codes "/www/f") asking shared) [
      | none ↦ none
      | some after ↦ later env stages 4 (event ∷ event ∷ []) after
    ])
served_file-senders_example =
    served_file-senders env files stages 0 4 (event ∷ event ∷ []) (codes "/www/f") asking shared
      (entry ∷ []) asking-IsNew refl (entry-Countable, tt)

-- A script that answers at once.
abbrev run_script : ConnSlot → Shared → After
run_script slot1 sh = transition_to_sending env 0 4 slot1 sh

run_script-⟶ :
    (slot1 : ConnSlot) (sh : Shared) → slot1.state ≡ reading → reading ⟶ phase (run_script slot1 sh)
run_script-⟶ slot1 sh h = rw (transition_to_sending-phase env 0 4 slot1 sh) answer

one_byte_of_file :
    handle_slot env (file_stages env files 0 4 run_script) 4 event slot shared
    ≡ some (after_write 0 4 1 slot shared)
unfolding handle_slot Slot.is_throttled ◌-ℤ◌ Slot.new_throttle ◌*ℤ◌
one_byte_of_file = refl

file_slot-⟶_example : sending ⟶ phase (after_write 0 4 1 slot shared)
file_slot-⟶_example =
    file_slot-⟶ env files 0 4 run_script event slot shared (after_write 0 4 1 slot shared)
      run_script-⟶ one_byte_of_file
