-- ===== src/Diff/Agrees.antt =====
-- When the comparison finds nothing.
use thttpd_rs.Base.{◌≡◌, refl, true, false, ◌==◌, List, [], ◌∷◌, Bytes, arith, lower, map}
use thttpd_rs.Diff.{
  Response, RequestContext, Grouped, diff_responses, normalize_header_values,
  normalize_header_value, normalize_body_bytes, sha256_hex, group, grouped_normalized_headers,
  push_entry,
}
use thttpd_rs.Base.{eq_bytes_refl}
use thttpd_rs.Diff.Keys.{mismatches_self}

-- The headers of two responses, one by one: the names differ in the case of their letters only, and the
-- values are the same once normalized.
pub data Alike : List (Bytes × Bytes) → List (Bytes × Bytes) → Type 0 where
  none : Alike [] []
  one :
      (name value name1 value1 : Bytes) (hs hs1 : List (Bytes × Bytes))
      → map lower name ≡ map lower name1
      → normalize_header_value (map lower name1) value
        ≡ normalize_header_value (map lower name1) value1
      → Alike hs hs1
      → Alike ((name, value) ∷ hs) ((name1, value1) ∷ hs1)

Alike-group :
    {hs hs1 : List (Bytes × Bytes)} (g : Grouped) → Alike hs hs1 → group hs g ≡ group hs1 g
unfolding group
Alike-group g none = refl
Alike-group g (one name value name1 value1 hs hs1 k v a) =
    rw (k, v)
      (Alike-group
        (push_entry (map lower name1) (normalize_header_value (map lower name1) value1) g) a)

Alike-normalize_header_values :
    {hs hs1 : List (Bytes × Bytes)} → Alike hs hs1 → normalize_header_values hs hs1 ≡ []
unfolding normalize_header_values grouped_normalized_headers
Alike-normalize_header_values {hs} {hs1} a =
    rw (Alike-group [] a) (mismatches_self (grouped_normalized_headers hs1))

-- Two responses that were read whole, of one status, with headers that come in pairs, alike but for the
-- case of their names and what the normalizers take out, and with bodies that are the same once
-- normalized, have no divergence, whatever the digest is.
pub diff_responses-Alike :
    (sha256 : Bytes → Bytes) (primary shadow : Response) (ctx : RequestContext)
    → primary.status ≡ shadow.status
    → primary.truncated ≡ false
    → shadow.truncated ≡ false
    → Alike primary.headers shadow.headers
    → normalize_body_bytes primary.body ≡ normalize_body_bytes shadow.body
    → diff_responses sha256 primary shadow ctx ≡ []
unfolding diff_responses
diff_responses-Alike sha256 primary shadow ctx s p q a b =
    let same : (shadow.status == shadow.status) ≡ true = ground arith in
    rw
      (
        s,
        p,
        q,
        Alike-normalize_header_values a,
        b,
        same,
        eq_bytes_refl (sha256_hex sha256 (normalize_body_bytes shadow.body)),
      )
      refl
