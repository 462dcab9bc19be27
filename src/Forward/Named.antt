-- ===== src/Forward/Named.antt =====
-- The headers that concern one hop: by their name, or named by a `Connection` header.
use thttpd_rs.Base.{
  ℕ, ◌≡◌, refl, true, false, Bool-cases, inl, inr, Option, List, [], ◌∷◌, ◌++◌, Bytes, codes, map,
  lower, All, Any, eq_ignore_case, ◌≢◌, some, Option-cases, trim_text, split, is_empty,
  eq_bytes_refl, arith,
}
use thttpd_rs.Forward.{Headers, mem, connection_tokens, tokens_of, any_ignoring_case}

-- The names of the headers that RFC 7230 takes to concern one hop only.
abbrev pub per_hop : List Bytes
per_hop = map codes (
    "connection" ∷ "keep-alive" ∷ "proxy-authenticate" ∷ "proxy-authorization" ∷ "te" ∷ "trailer"
    ∷ "transfer-encoding" ∷ "upgrade" ∷ [])

-- The token is the name, but for letter case and white space around it.
abbrev pub IsToken : Bytes → Bytes → Type 0
IsToken name token = (trim_text token ≢ []) × (map lower (trim_text token) ≡ map lower name)

-- One of the headers is a `Connection` header with the name between commas of its value.
pub data Named (readable : Bytes → Option Bytes) (name : Bytes) : Headers → Type 0 where
  here :
      (header value text : Bytes) (hs : Headers)
      → map lower header ≡ codes "connection"
      → readable value ≡ some text
      → Any (IsToken name) (split b',' text)
      → Named readable name ((header, value) ∷ hs)
  later : (h : Bytes × Bytes) {hs : Headers} → Named readable name hs → Named readable name (h ∷ hs)

-- The header concerns both ends, not one hop: neither is it one of those above, nor does one of the
-- headers `hs` name it.
abbrev pub IsEndToEnd : (Bytes → Option Bytes) → Headers → Bytes × Bytes → Type 0
IsEndToEnd readable hs (name, value) =
    ¬ Any (λ h. map lower name ≡ h) per_hop × ¬ Named readable name hs

mem-append : (t : Bytes) (us vs : List Bytes) → mem t us ≡ true → mem t (us ++ vs) ≡ true
unfolding mem
mem-append t [] vs h = absurd (cc)
mem-append t (u ∷ us) vs h = let rest = mem-append t us vs in ground (arith, rest)

append-mem : (t : Bytes) (us vs : List Bytes) → mem t vs ≡ true → mem t (us ++ vs) ≡ true
unfolding mem
append-mem t [] vs h = h
append-mem t (u ∷ us) vs h = let rest = append-mem t us vs h in ground (arith, rest)

is_empty-nil : (s : Bytes) → is_empty s ≡ true → s ≡ []
is_empty-nil [] h = refl
is_empty-nil (c ∷ s) h = absurd (cc)

map-nil : (f : ℕ → ℕ) (s : Bytes) → map f s ≡ [] → s ≡ []
map-nil f [] h = refl
map-nil f (c ∷ s) h = absurd (cc)

IsToken-tokens_of :
    (name : Bytes) (ts : List Bytes)
    → Any (IsToken name) ts
    → mem (map lower name) (tokens_of ts) ≡ true
unfolding tokens_of mem
IsToken-tokens_of name [] h = absurd h
IsToken-tokens_of name (t ∷ ts) (inl (some_text, same)) =
    elim (Bool-cases (is_empty (map lower (trim_text t)))) [
      | inl e ↦ absurd (some_text (map-nil lower (trim_text t) (is_empty-nil _ e)))
      | inr e ↦ rw (e, same, eq_bytes_refl (map lower name), mem) refl
    ]
IsToken-tokens_of name (t ∷ ts) (inr h) =
    let rest = IsToken-tokens_of name ts h in
    elim (Bool-cases (is_empty (map lower (trim_text t)))) [
      | inl e ↦ rw e rest
      | inr e ↦ ground (arith, e, rest)
    ]

pub Named-connection_tokens :
    (readable : Bytes → Option Bytes) (name : Bytes) {hs : Headers}
    → Named readable name hs
    → mem (map lower name) (connection_tokens readable hs) ≡ true
unfolding connection_tokens eq_ignore_case
Named-connection_tokens readable name (here header value text hs is_connection e h) =
    rw (is_connection, eq_bytes_refl (codes "connection"), e, connection_tokens)
      (mem-append _ (tokens_of (split b',' text)) _ (IsToken-tokens_of name (split b',' text) h))
Named-connection_tokens readable name (later (header, value) {hs} h) =
    let rest = Named-connection_tokens readable name h in
    elim (Bool-cases (eq_ignore_case header (codes "connection"))) [
      | inl e ↦ elim (Option-cases (readable value)) [
        | inl q ↦ rw (e, q) rest
        | inr (text, q) ↦ rw (e, q) (append-mem _ (tokens_of (split b',' text)) _ rest)
      ]
      | inr e ↦ rw e rest
    ]

pub not_among :
    (name : Bytes) (hs : List Bytes)
    → All (λ h. map lower h ≡ h) hs
    → any_ignoring_case name hs ≡ false
    → ¬ Any (λ h. map lower name ≡ h) hs
unfolding any_ignoring_case eq_ignore_case
not_among name [] l e a = a
not_among name (h ∷ hs) (low, l) e (inl same) = absurd (cc (rw (same, low, eq_bytes_refl h) at e))
not_among name (h ∷ hs) (low, l) e (inr a) = not_among name hs l (ground (arith, e)) a

pub per_hop-lower : All (λ h. map lower h ≡ h) per_hop
per_hop-lower = (refl, (refl, (refl, (refl, (refl, (refl, (refl, (refl, tt))))))))
