-- ===== src/Parse/Method.antt =====
-- rust/crates/thttpd-http/src/method.rs and `parse_method` of rust/crates/thttpd-http/src/parse.rs.
use thttpd_rs.Base.{
  ℕ, zero, suc, ◌==◌, Bool, true, false, ◌||◌, ◌&&◌, Option, none, some, [], ◌∷◌, Bytes, codes,
  if◌then◌else◌,
}

pub data Method : Type 0 where
  get head post unknown : Method

pub bytes_eq : Bytes → Bytes → Bool
bytes_eq [] [] = true
bytes_eq (x ∷ xs) (y ∷ ys) = x == y && bytes_eq xs ys
bytes_eq _ _ = false

unfoldable pub parse : Bytes → Method
unfolding bytes_eq
parse s =
    if bytes_eq s (codes "GET")
    then get
    else if bytes_eq s (codes "HEAD")
    then head
    else if bytes_eq s (codes "POST")
    then post
    else unknown

unfoldable pub as_str : Method → Bytes
as_str get = codes "GET"
as_str head = codes "HEAD"
as_str post = codes "POST"
as_str unknown = codes "UNKNOWN"

-- `read_buf[..end]`; `none` is the panic of an end beyond the buffer
prefix : Bytes → ℕ → Option Bytes
prefix xs zero = some []
prefix [] (suc n) = none
prefix (x ∷ xs) (suc n) = elim (prefix xs n) [ none ↦ none | some ys ↦ some (x ∷ ys) ]

-- `take_while(|b| b != ' ' && b != '\t')`
first_word_of : Bytes → Bytes
first_word_of [] = []
first_word_of (c ∷ s) = let rest = first_word_of s in if c == b' ' || c == 9 then [] else c ∷ rest

unfoldable pub parse_method : Bytes → ℕ → Option Method
unfolding prefix first_word_of parse
parse_method read_buf end = elim (prefix read_buf end) [
  | none ↦ none
  | some word ↦ some (parse (first_word_of word))
]
