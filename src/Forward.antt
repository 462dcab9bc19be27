-- ===== src/Forward.antt =====
-- rust/crates/thttpd-migrate/src/forwarder.rs, shadow.rs, server.rs and control.rs: the headers and the
-- bodies that the proxy passes on, and the frames of its control socket. A body is the frames that its
-- stream gives; a map of headers is their list.
pub mod Bodies
pub mod Frames
pub mod Headers
pub mod Named
use thttpd_rs.Base.{
  ℕ, zero, suc, ◌+◌, ◌-◌, ◌*◌, ◌/◌, ◌%◌, ◌^◌, Bool, true, false, not, ◌&&◌, ◌||◌, Option, none,
  some, List, [], ◌∷◌, ◌++◌, Bytes, codes, map, if◌then◌else◌, ◌==◌, ltb, leb, length, take, drop,
  is_empty, eq_bytes, eq_ignore_case, lower, split, trim_text, starts_with, decimal,
}

abbrev pub Headers : Type 0
Headers = List (Bytes × Bytes)

abbrev pub hop_by_hop : List Bytes
hop_by_hop =
    codes "connection"
    ∷ codes "keep-alive"
    ∷ codes "proxy-authenticate"
    ∷ codes "proxy-authorization"
    ∷ codes "te"
    ∷ codes "trailer"
    ∷ codes "transfer-encoding"
    ∷ codes "upgrade"
    ∷ []

unfoldable pub any_ignoring_case : Bytes → List Bytes → Bool
unfolding eq_ignore_case
any_ignoring_case name [] = false
any_ignoring_case name (h ∷ hs) = eq_ignore_case h name || any_ignoring_case name hs

unfoldable pub is_hop_by_hop : Bytes → Bool
unfolding any_ignoring_case
is_hop_by_hop name = any_ignoring_case name hop_by_hop

-- The tokens of a value that are not empty, in lower case.
unfoldable pub tokens_of : List Bytes → List Bytes
unfolding trim_text
tokens_of [] = []
tokens_of (t ∷ ts) =
    let token = map lower (trim_text t) in
    let others = tokens_of ts in if is_empty token then others else token ∷ others

-- `readable` gives the text of a value, if it is one.
unfoldable pub connection_tokens : (Bytes → Option Bytes) → Headers → List Bytes
unfolding eq_ignore_case tokens_of split
connection_tokens readable [] = []
connection_tokens readable ((name, value) ∷ hs) =
    let others = connection_tokens readable hs in
    if eq_ignore_case name (codes "connection")
    then elim (readable value) [ none ↦ others | some text ↦ tokens_of (split b',' text) ++ others ]
    else others

unfoldable pub mem : Bytes → List Bytes → Bool
unfolding eq_bytes
mem t [] = false
mem t (u ∷ us) = eq_bytes t u || mem t us

-- `unwrap_or_default`
abbrev pub or_empty : Option Bytes → Bytes
or_empty none = []
or_empty (some text) = text

unfoldable pub keep_end_to_end : (Bytes → Option Bytes) → List Bytes → Headers → Headers
unfolding is_hop_by_hop mem
keep_end_to_end readable tokens [] = []
keep_end_to_end readable tokens ((name, value) ∷ hs) =
    let others = keep_end_to_end readable tokens hs in
    if not (is_hop_by_hop name) && not (mem (map lower name) tokens)
    then (name, or_empty (readable value)) ∷ others
    else others

unfoldable pub forwarded_headers : (Bytes → Option Bytes) → Headers → Headers
unfolding connection_tokens keep_end_to_end
forwarded_headers readable hs = keep_end_to_end readable (connection_tokens readable hs) hs

-- The loop over the headers: those that are passed on, and whether one is the host.
unfoldable pub passed_on : Headers → Headers × Bool
unfolding is_hop_by_hop eq_ignore_case
passed_on [] = ([], false)
passed_on ((k, v) ∷ hs) =
    let (rest, had_host) = passed_on hs in
    if is_hop_by_hop k
    then (rest, had_host)
    else ((k, v) ∷ rest, eq_ignore_case k (codes "host") || had_host)

-- The headers of the request to a backend.
unfoldable pub rebuilt_headers : Headers → Bytes → Headers
unfolding passed_on
rebuilt_headers hs backend_addr =
    let (kept, had_host) = passed_on hs in
    if had_host then kept else kept ++ (codes "host", backend_addr) ∷ []

unfoldable pub without_framing : Headers → Headers
unfolding eq_ignore_case
without_framing [] = []
without_framing ((k, v) ∷ hs) =
    let others = without_framing hs in
    if not (eq_ignore_case k (codes "content-length"))
      && not (eq_ignore_case k (codes "transfer-encoding"))
    then (k, v) ∷ others
    else others

unfoldable pub shadow_headers_for_body : Headers → ℕ → Headers
unfolding without_framing
shadow_headers_for_body hs body_len =
    without_framing hs ++ (codes "content-length", decimal body_len) ∷ []

pub data Frame : Type 0 where
  chunk : Bytes → Frame
  trailers : Frame
  broken : Frame

-- What `read_capped` leaves: the prefix, the tail, the mark, and the frames still in the stream. `none`
-- is an error of the stream.
abbrev pub Capped : Type 0
Capped = Bytes × (Option Bytes × (Bool × List Frame))

unfoldable pub read_from : Bytes → List Frame → ℕ → Option Capped
read_from buf [] max_bytes = some (buf, (none, (false, [])))
read_from buf (broken ∷ fs) max_bytes = none
read_from buf (trailers ∷ fs) max_bytes = read_from buf fs max_bytes
read_from buf (chunk s ∷ fs) max_bytes =
    let onward = read_from (buf ++ s) fs max_bytes in
    let remaining = max_bytes - length buf in
    if leb (length buf + length s) max_bytes
    then onward
    else some (buf ++ take remaining s, (some (drop remaining s), (true, fs)))

unfoldable pub read_capped : List Frame → ℕ → Option Capped
unfolding read_from
read_capped frames max_bytes = read_from [] frames max_bytes

unfoldable pub filter_full : List Bytes → List Bytes
filter_full [] = []
filter_full (c ∷ cs) = let rest = filter_full cs in if is_empty c then rest else c ∷ rest

unfoldable pub chunk_frames : List Bytes → List Frame
chunk_frames [] = []
chunk_frames (c ∷ cs) = chunk c ∷ chunk_frames cs

-- The frames that a chained body gives: its chunks, then those of the rest.
unfoldable pub chained : List Bytes → List Frame → List Frame
unfolding filter_full chunk_frames
chained chunks rest = chunk_frames (filter_full chunks) ++ rest

-- The body that goes on after a capped read.
unfoldable pub full_body : Capped → List Frame
unfolding chained
full_body (buf, (tail, (true, rest))) = chained (buf ∷ or_empty tail ∷ []) rest
full_body (buf, (tail, (false, rest))) = chunk buf ∷ []

-- `p.strip_suffix('*')`
unfoldable pub strip_star : Bytes → Option Bytes
strip_star [] = none
strip_star (c ∷ []) = if c == b'*' then some [] else none
strip_star (c ∷ d ∷ s) = elim (strip_star (d ∷ s)) [ none ↦ none | some r ↦ some (c ∷ r) ]

unfoldable pub is_excluded : Bytes → List Bytes → Bool
unfolding strip_star starts_with eq_bytes
is_excluded path [] = false
is_excluded path (p ∷ ps) =
    (elim (strip_star p) [ none ↦ eq_bytes path p | some prefix ↦ starts_with prefix path ])
    || is_excluded path ps

-- `u32::to_be_bytes`
unfoldable pub to_be_bytes : ℕ → Bytes
to_be_bytes n = n / 2 ^ 24 % 256 ∷ n / 2 ^ 16 % 256 ∷ n / 2 ^ 8 % 256 ∷ n % 256 ∷ []

-- The bytes that go out.
unfoldable pub write_frame : Bytes → Bytes
write_frame bytes = to_be_bytes (length bytes % 2 ^ 32) ++ bytes

-- `read_exact`: the bytes, and what is left in the stream.
unfoldable pub read_exact : ℕ → Bytes → Option (Bytes × Bytes)
read_exact n s = if ltb (length s) n then none else some (take n s, drop n s)

abbrev pub from_be_bytes : Bytes → ℕ
from_be_bytes [] = 0
from_be_bytes (a ∷ s) = a * 2 ^ (8 * length s) + from_be_bytes s

abbrev pub max_frame : ℕ
max_frame = 16 * 1024 * 1024

-- What follows the length. `none` is an error: the stream ends, or the frame is too large.
unfoldable pub read_sized : Option (Bytes × Bytes) → Option (Bytes × Bytes)
read_sized none = none
read_sized (some (len_buf, rest)) =
    if ltb max_frame (from_be_bytes len_buf) then none else read_exact (from_be_bytes len_buf) rest

unfoldable pub read_frame : Bytes → Option (Bytes × Bytes)
unfolding read_sized
read_frame s = read_sized (read_exact 4 s)
