-- ===== src/Mime.antt =====
-- rust/crates/thttpd-mime/src/types.rs: the type and the encodings of a file by the extensions of its
-- name. `file_name` is `Path::file_name`.
pub mod Tables
pub mod Walk
use thttpd_rs.Base.{
  Bool, true, false, Option, none, some, List, [], ◌∷◌, ◌++◌, Bytes, codes, if◌then◌else◌, is_empty,
  eq_bytes, split,
}
use mathlib.Core.List.{reverse}

pub record MimeInfo : Type 0 where
  pub mime_type : Bytes
  pub encoding : Option Bytes

-- A `match` on a text.
unfoldable pub look_up : Bytes → List (Bytes × Bytes) → Option Bytes
look_up ext [] = none
look_up ext ((key, value) ∷ rest) = if eq_bytes ext key then some value else look_up ext rest

abbrev pub encodings : List (Bytes × Bytes)
encodings =
    (codes "gz", codes "gzip") ∷ (codes "bz2", codes "x-bzip2") ∷ (codes "Z", codes "compress") ∷ []

unfoldable pub lookup_encoding : Bytes → Option Bytes
unfolding look_up
lookup_encoding ext = look_up ext encodings

abbrev pub types : List (Bytes × Bytes)
types =
    (codes "html", codes "text/html")
    ∷ (codes "htm", codes "text/html")
    ∷ (codes "css", codes "text/css")
    ∷ (codes "js", codes "application/javascript")
    ∷ (codes "txt", codes "text/plain")
    ∷ (codes "json", codes "application/json")
    ∷ (codes "xml", codes "application/xml")
    ∷ (codes "png", codes "image/png")
    ∷ (codes "jpg", codes "image/jpeg")
    ∷ (codes "jpeg", codes "image/jpeg")
    ∷ (codes "gif", codes "image/gif")
    ∷ (codes "svg", codes "image/svg+xml")
    ∷ (codes "ico", codes "image/x-icon")
    ∷ (codes "pdf", codes "application/pdf")
    ∷ (codes "zip", codes "application/zip")
    ∷ (codes "tar", codes "application/x-tar")
    ∷ (codes "mp3", codes "audio/mpeg")
    ∷ (codes "mp4", codes "video/mp4")
    ∷ (codes "webm", codes "video/webm")
    ∷ (codes "wav", codes "audio/wav")
    ∷ (codes "ogg", codes "audio/ogg")
    ∷ (codes "doc", codes "application/msword")
    ∷ (codes "xls", codes "application/vnd.ms-excel")
    ∷ (codes "ppt", codes "application/vnd.ms-powerpoint")
    ∷ (codes "swf", codes "application/x-shockwave-flash")
    ∷ (codes "wasm", codes "application/wasm")
    ∷ []

unfoldable pub lookup_type : Bytes → Option Bytes
unfolding look_up
lookup_type ext = look_up ext types

abbrev pub default_type : Bytes
default_type = codes "application/octet-stream"

abbrev pub pushed : Option Bytes → List Bytes → List Bytes
pushed none parts = parts
pushed (some enc) parts = enc ∷ parts

-- The loop over the extensions from the right: the encodings in the order in which they are met, and
-- the type, which ends the loop.
unfoldable pub walk : List Bytes → List Bytes × Bytes
walk [] = ([], default_type)
walk (ext ∷ exts) =
    let rest = walk exts in
    elim (lookup_type ext) [
      | some t ↦ (pushed (lookup_encoding ext) [], t)
      | none ↦ (pushed (lookup_encoding ext) rest.0, rest.1)
    ]

-- `parts.join(",")`
unfoldable pub join_commas : List Bytes → Bytes
join_commas [] = []
join_commas (w ∷ []) = w
join_commas (w ∷ v ∷ ws) = w ++ (codes "," ++ join_commas (v ∷ ws))

unfoldable pub info_of : List Bytes × Bytes → MimeInfo
unfolding join_commas
info_of (parts, t) = record {
  mime_type = t;
  encoding = if is_empty parts then none else some (join_commas parts);
}

-- What stands before the first dot is no extension.
unfoldable pub extensions : Option Bytes → List Bytes
extensions none = []
extensions (some name) = elim (split b'.' name) [ [] ↦ [] | _ ∷ exts ↦ exts ]

unfoldable pub figure_mime : (Bytes → Option Bytes) → Bytes → MimeInfo
unfolding walk info_of extensions lookup_encoding lookup_type
figure_mime file_name filename = info_of (walk (reverse (extensions (file_name filename))))

unfoldable pub mime_type : (Bytes → Option Bytes) → Bytes → Bytes
unfolding figure_mime
mime_type file_name filename = (figure_mime file_name filename).mime_type

unfoldable pub mime_encoding : (Bytes → Option Bytes) → Bytes → Option Bytes
unfolding figure_mime
mime_encoding file_name filename = (figure_mime file_name filename).encoding
