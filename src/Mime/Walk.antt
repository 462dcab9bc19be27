-- ===== src/Mime/Walk.antt =====
-- Which extensions of a name count.
use thttpd_rs.Base.{
  ◌≡◌, ◌∙◌, refl, ap, inl, inr, Option, Option-cases, none, some, List, [], ◌∷◌, ◌++◌, Bytes, All,
  join,
}
use mathlib.Core.List.{reverse, reverse-append, append_assoc}
use thttpd_rs.Mime.Tables.{
  Listed, Unlisted, Listed-look_up, look_up-Listed, Unlisted-look_up, look_up-Unlisted,
}
use thttpd_rs.Mime.{
  look_up, pushed, encodings, types, MimeInfo, walk, lookup_type, lookup_encoding, figure_mime,
  extensions, info_of, join_commas,
}

-- The encodings of those of the extensions that the table of encodings knows, in their order.
pub data Encoded : List Bytes → List Bytes → Type 0 where
  none_left : Encoded [] []
  known :
      (ext enc : Bytes) {exts encs : List Bytes}
      → Listed ext enc encodings
      → Encoded exts encs
      → Encoded (ext ∷ exts) (enc ∷ encs)
  unknown :
      (ext : Bytes) {exts encs : List Bytes}
      → Unlisted ext encodings
      → Encoded exts encs
      → Encoded (ext ∷ exts) encs

-- The encodings with commas between them, if there are any.
abbrev pub listed : List Bytes → Option Bytes
listed [] = none
listed (enc ∷ encs) = some (join b',' (enc ∷ encs))

-- The type is `t`, and the encodings are those of the extensions.
pub record Described (t : Bytes) (exts : List Bytes) (info : MimeInfo) : Type 0 where
  pub encs : List Bytes
  pub encoded : Encoded exts encs
  pub is_type : info.mime_type ≡ t
  pub is_listed : info.encoding ≡ listed encs

-- The table of types does not know the extension.
abbrev pub Untyped : Bytes → Type 0
Untyped ext = Unlisted ext types

join_commas-join : (ws : List Bytes) → join_commas ws ≡ join b',' ws
unfolding join_commas join
join_commas-join [] = refl
join_commas-join (w ∷ []) = refl
join_commas-join (w ∷ v ∷ ws) = ap (λ s. w ++ b',' ∷ s) (join_commas-join (v ∷ ws))

info_of-Described :
    (t : Bytes) {exts : List Bytes} (encs : List Bytes)
    → Encoded exts encs
    → Described t exts (info_of (encs, t))
unfolding info_of
info_of-Described t [] h = record { encs = []; encoded = h; is_type = refl; is_listed = refl }
info_of-Described t (e ∷ encs) h = record {
  encs = e ∷ encs;
  encoded = h;
  is_type = refl;
  is_listed = ap some (join_commas-join (e ∷ encs));
}

-- The encodings with those of one extension more.
pushed-Encoded :
    (ext : Bytes) {exts : List Bytes} (encs : List Bytes)
    → Encoded exts encs
    → Encoded (ext ∷ exts) (pushed (lookup_encoding ext) encs)
unfolding lookup_encoding
pushed-Encoded ext encs h = elim (Option-cases (look_up ext encodings)) [
  | inl q ↦ rw q (unknown ext (look_up-Unlisted ext encodings q) h)
  | inr (enc, q) ↦ rw q (known ext enc (look_up-Listed ext enc encodings q) h)
]

walk-Untyped :
    (exts : List Bytes) (ext t : Bytes) (rest : List Bytes)
    → All Untyped exts
    → Listed ext t types
    → (encs : List Bytes) × Encoded (exts ++ ext ∷ []) encs
      × (walk (exts ++ ext ∷ rest) ≡ (encs, t))
unfolding walk lookup_type
walk-Untyped [] ext t rest h e = (
  pushed (lookup_encoding ext) [],
  pushed-Encoded ext [] none_left,
  rw (Listed-look_up ext t e, walk) refl,
)
walk-Untyped (x ∷ exts) ext t rest (u, h) e =
    let (encs, encoded, walked) = walk-Untyped exts ext t rest h e in
    (
      pushed (lookup_encoding x) encs,
      pushed-Encoded x encs encoded,
      rw (Unlisted-look_up x types u, walked, walk) refl,
    )

-- A name with an extension that the table of types knows, and none of those behind it known to the
-- table: the type is that extension's, and the encoding lists, with commas between them and from the
-- right, what the table of encodings has for those behind it and for it, if it has any; no extension
-- before it counts.
pub figure_mime-typed :
    (file_name : Bytes → Option Bytes) (filename name ext t : Bytes) (before behind : List Bytes)
    → file_name filename ≡ some name
    → extensions (some name) ≡ before ++ (ext ∷ behind)
    → All Untyped (reverse behind)
    → Listed ext t types
    → Described t (reverse behind ++ ext ∷ []) (figure_mime file_name filename)
unfolding figure_mime
figure_mime-typed file_name filename name ext t before behind f x u e =
    let turned : reverse (before ++ (ext ∷ behind)) ≡ reverse behind ++ (ext ∷ reverse before) =
      reverse-append before (ext ∷ behind)
      ∙ (ap (λ r. r ++ reverse before) (reverse-append (ext ∷ []) behind)
          ∙ append_assoc (reverse behind) (ext ∷ []) (reverse before)) in
    let (encs, encoded, walked) = walk-Untyped (reverse behind) ext t (reverse before) u e in
    rw (f, x, turned, walked) (info_of-Described t encs encoded)
