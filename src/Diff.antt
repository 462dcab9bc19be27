-- ===== src/Diff.antt =====
-- rust/crates/thttpd-migrate/src/diff.rs: the comparison of the responses of two backends. The digest is
-- an argument.
mod Normal
pub mod Ports
pub mod Keys
pub mod Agrees
unfoldable pub use Normal.*
use thttpd_rs.Base.{
  ℕ, ◌+◌, ◌-◌, ◌/◌, ◌%◌, Bool, true, false, not, ◌&&◌, ◌||◌, Option, none, some, List, [], ◌∷◌,
  ◌++◌, Bytes, codes, map, if◌then◌else◌, ◌==◌, ltb, is_empty, eq_bytes, lower, decimal,
}

pub data Field : Type 0 where
  status headers body content_length connection_lifecycle : Field

unfoldable pub as_str : Field → Bytes
as_str status = codes "status"
as_str headers = codes "headers"
as_str body = codes "body"
as_str content_length = codes "content_length"
as_str connection_lifecycle = codes "connection_lifecycle"

pub record RequestContext : Type 0 where
  pub path : Bytes
  pub method : Bytes
  pub request_id : Bytes

pub record Divergence : Type 0 where
  pub field : Field
  pub expected : Bytes
  pub actual : Bytes
  pub path : Bytes
  pub method : Bytes
  pub truncated : Bool

unfoldable pub new : Field → Bytes → Bytes → RequestContext → Divergence
new field expected actual ctx = record {
  field = field;
  expected = expected;
  actual = actual;
  path = ctx.path;
  method = ctx.method;
  truncated = false;
}

-- The arguments for one response.
pub record Response : Type 0 where
  pub status : ℕ
  pub headers : List (Bytes × Bytes)
  pub body : Bytes
  pub truncated : Bool

unfoldable pub normalize_header_value : Bytes → Bytes → Bytes
unfolding eq_bytes is_timestamp normalize_value
normalize_header_value name value =
    if (eq_bytes name (codes "date") || eq_bytes name (codes "last-modified")) && is_timestamp value
    then codes "<timestamp>"
    else normalize_value value

-- The order of strings, by their bytes.
unfoldable pub before : Bytes → Bytes → Bool
before [] [] = false
before [] (_ ∷ _) = true
before (_ ∷ _) [] = false
before (a ∷ s) (b ∷ t) = ltb a b || (a == b && before s t)

-- A `BTreeMap` is the list of its entries in the order of their keys.
abbrev pub Grouped : Type 0
Grouped = List (Bytes × List Bytes)

-- `entry(key).or_default().push(value)`
unfoldable pub push_entry : Bytes → Bytes → Grouped → Grouped
unfolding eq_bytes before
push_entry key value [] = (key, value ∷ []) ∷ []
push_entry key value ((k, vs) ∷ rest) =
    let later = push_entry key value rest in
    if eq_bytes key k
    then (k, vs ++ value ∷ []) ∷ rest
    else if before key k
    then (key, value ∷ []) ∷ (k, vs) ∷ rest
    else (k, vs) ∷ later

unfoldable pub insert_value : Bytes → List Bytes → List Bytes
unfolding before
insert_value v [] = v ∷ []
insert_value v (w ∷ ws) =
    let rest = insert_value v ws in if before w v then w ∷ rest else v ∷ w ∷ ws

unfoldable pub sort : List Bytes → List Bytes
unfolding insert_value
sort [] = []
sort (v ∷ vs) = insert_value v (sort vs)

unfoldable pub group : List (Bytes × Bytes) → Grouped → Grouped
unfolding push_entry normalize_header_value
group [] grouped = grouped
group ((name, value) ∷ hs) grouped =
    let key = map lower name in group hs (push_entry key (normalize_header_value key value) grouped)

unfoldable pub grouped_normalized_headers : List (Bytes × Bytes) → Grouped
unfolding group sort
grouped_normalized_headers hs = map (λ (key, values). (key, sort values)) (group hs [])

unfoldable pub get : Bytes → Grouped → Option (List Bytes)
unfolding eq_bytes
get key [] = none
get key ((k, vs) ∷ rest) = let found = get key rest in if eq_bytes k key then some vs else found

unfoldable pub remove : Bytes → Grouped → Grouped
unfolding eq_bytes
remove key [] = []
remove key ((k, vs) ∷ rest) =
    let left = remove key rest in if eq_bytes k key then rest else (k, vs) ∷ left

-- A `BTreeSet` is the list of its keys in their order.
unfoldable pub insert_key : Bytes → List Bytes → List Bytes
unfolding eq_bytes before
insert_key key [] = key ∷ []
insert_key key (k ∷ ks) =
    let later = insert_key key ks in
    if eq_bytes key k then k ∷ ks else if before key k then key ∷ k ∷ ks else k ∷ later

unfoldable pub keys_into : Grouped → List Bytes → List Bytes
unfolding insert_key
keys_into [] keys = keys
keys_into ((k, _) ∷ rest) keys = keys_into rest (insert_key k keys)

unfoldable pub eq_values : List Bytes → List Bytes → Bool
unfolding eq_bytes
eq_values [] [] = true
eq_values [] (_ ∷ _) = false
eq_values (_ ∷ _) [] = false
eq_values (v ∷ vs) (w ∷ ws) = eq_bytes v w && eq_values vs ws

abbrev pub HeaderMismatch : Type 0
HeaderMismatch = Bytes × Option (List Bytes) × Option (List Bytes)

abbrev pub matching : Option (List Bytes) → Option (List Bytes) → Bool
matching (some e) (some a) = eq_values e a
matching _ _ = false

-- The loop over the keys, which takes them out of the first map.
unfoldable pub mismatches : List Bytes → Grouped → Grouped → List HeaderMismatch
unfolding get remove eq_values
mismatches [] exp act = []
mismatches (key ∷ keys) exp act =
    let rest = mismatches keys (remove key exp) act in
    if matching (get key exp) (get key act) then rest else (key, get key exp, get key act) ∷ rest

unfoldable pub normalize_header_values :
    List (Bytes × Bytes) → List (Bytes × Bytes) → List HeaderMismatch
unfolding grouped_normalized_headers keys_into mismatches
normalize_header_values expected actual =
    let exp = grouped_normalized_headers expected in
    let act = grouped_normalized_headers actual in
    mismatches (keys_into act (keys_into exp [])) exp act

-- `names.join(", ")`
unfoldable pub names : List HeaderMismatch → Bytes
names [] = []
names ((k, _, _) ∷ []) = k
names ((k, _, _) ∷ m ∷ ms) = k ++ (codes ", " ++ names (m ∷ ms))

-- `{:x}` of a number below 16
abbrev pub hex_digit : ℕ → ℕ
hex_digit n = if ltb n 10 then b'0' + n else b'a' + n - 10

unfoldable pub hex_encode : Bytes → Bytes
hex_encode [] = []
hex_encode (b ∷ bytes) = hex_digit (b / 16) ∷ hex_digit (b % 16) ∷ hex_encode bytes

unfoldable pub sha256_hex : (Bytes → Bytes) → Bytes → Bytes
unfolding hex_encode
sha256_hex sha256 data_bytes = hex_encode (sha256 data_bytes)

abbrev pub body_hash : (Bytes → Bytes) → Response → Bytes
body_hash sha256 r = sha256_hex sha256 (normalize_body_bytes r.body)

unfoldable pub diff_responses :
    (Bytes → Bytes) → Response → Response → RequestContext → List Divergence
unfolding new normalize_header_values names sha256_hex normalize_body_bytes eq_bytes
diff_responses sha256 primary shadow ctx =
    let cut = primary.truncated || shadow.truncated in
    let in_status : List Divergence =
      if primary.status == shadow.status
      then []
      else new status (decimal primary.status) (decimal shadow.status) ctx ∷ [] in
    let in_length : List Divergence =
      if cut
      then (record (new body (codes "full body") (codes "truncated at cap") ctx) {
        truncated = true;
      })
        ∷ []
      else [] in
    let differing = normalize_header_values primary.headers shadow.headers in
    let in_headers : List Divergence =
      if is_empty differing
      then []
      else new headers (codes "matching normalized headers") (names differing) ctx ∷ [] in
    let p = body_hash sha256 primary in
    let s = body_hash sha256 shadow in
    let in_body : List Divergence = if cut || eq_bytes p s then [] else new body p s ctx ∷ [] in
    in_status ++ (in_length ++ (in_headers ++ in_body))
