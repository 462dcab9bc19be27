-- ===== src/Base/Utf8.antt =====
-- White space in the bytes of UTF-8, and the methods of `str` that look for it.
use Prim.Native.Nat.{ℕ, zero, suc, ◌-◌}
use mathlib.Core.Bool.{◌&&◌, ◌||◌}
use mathlib.Core.List.{List, [], ◌∷◌, ◌++◌}
use thttpd_rs.Base.Tests.{◌==◌, leb, if◌then◌else◌}
use thttpd_rs.Base.Lists.{Bytes, is_empty}

-- The length of the white space character that a text begins with, or zero.
unfoldable pub white_len : Bytes → ℕ
white_len [] = 0
white_len (a ∷ []) = if a == 32 || (leb 9 a && leb a 13) then 1 else 0
white_len (a ∷ b ∷ []) =
    if a == 32 || (leb 9 a && leb a 13)
    then 1
    else if a == 0xc2 && (b == 0x85 || b == 0xa0)
    then 2
    else 0
white_len (a ∷ b ∷ c ∷ s) =
    if a == 32 || (leb 9 a && leb a 13)
    then 1
    else if a == 0xc2 && (b == 0x85 || b == 0xa0)
    then 2
    else if (a == 0xe1 && b == 0x9a && c == 0x80)
        || (a == 0xe2
            && b == 0x80
            && ((leb 0x80 c && leb c 0x8a) || c == 0xa8 || c == 0xa9 || c == 0xaf))
        || (a == 0xe2 && b == 0x81 && c == 0x9f)
        || (a == 0xe3 && b == 0x80 && c == 0x80)
    then 3
    else 0

-- `str::split_whitespace`: `word` is the word being read, and `skip` bytes of a character are still to
-- be passed over.
unfoldable pub words_from : ℕ → Bytes → Bytes → List Bytes
unfolding white_len
words_from skip word [] = if is_empty word then [] else word ∷ []
words_from (suc skip) word (c ∷ s) = words_from skip word s
words_from zero word (c ∷ s) =
    let ended = words_from (white_len (c ∷ s) - 1) [] s in
    let longer = words_from 0 (word ++ c ∷ []) s in
    if white_len (c ∷ s) == 0 then longer else if is_empty word then ended else word ∷ ended

unfoldable pub words : Bytes → List Bytes
unfolding words_from
words s = words_from 0 [] s

-- `str::trim_start`
unfoldable pub trim_start_text : ℕ → Bytes → Bytes
unfolding white_len
trim_start_text skip [] = []
trim_start_text (suc skip) (c ∷ s) = trim_start_text skip s
trim_start_text zero (c ∷ s) =
    let rest = trim_start_text (white_len (c ∷ s) - 1) s in
    if white_len (c ∷ s) == 0 then c ∷ s else rest

-- `str::trim_end`: the text ends where only white space follows.
unfoldable pub trim_end_text : Bytes → Bytes
unfolding trim_start_text
trim_end_text [] = []
trim_end_text (c ∷ s) = if is_empty (trim_start_text 0 (c ∷ s)) then [] else c ∷ trim_end_text s

-- `str::trim`
unfoldable pub trim_text : Bytes → Bytes
unfolding trim_start_text trim_end_text
trim_text s = trim_start_text 0 (trim_end_text s)
