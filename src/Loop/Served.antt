-- ===== src/Loop/Served.antt =====
-- The header that the response builder writes is the one that the loop finds.
use mathlib.Core.List.{append_assoc}
use thttpd_rs.Base.{
  ℕ, ◌+◌, ◌/◌, ◌≡◌, refl, sym, ◌∙◌, ap, Bool, true, false, ◌||◌, some, [], ◌∷◌, ◌++◌, Bytes, codes,
  inl, inr, Bool-cases, ◌==◌, length, is_empty, find_sub, decimal, decimal-IsDigit, if◌then◌else◌,
  eq_ignore_case,
}
use thttpd_rs.Base.Int.{ℤ, pos, ltb_ℤ, eqb_ℤ, ◌+ℤ◌, ◌-ℤ◌}
use thttpd_rs.Conn.{HttpConn}
use thttpd_rs.Response.{
  crlf, Headers, header_lines, standard_headers, length_headers, pick_headers, fixed_type,
  protocol_of, status_line, build_full_response, is_partial,
}
use thttpd_rs.Loop.Status.{header_end_offset}
use thttpd_rs.Loop.Header.{
  IsLine, contains-append, append-IsLine, digits-IsLine, decimal_ℤ-IsLine, block, blank, Full,
  Full-append, IsHeaders, lines_of, lines_of-Full, append-IsHeaders, header_lines-block,
  find_sub-block,
}

Full-grow : (s t : Bytes) → Full s → IsLine t → Full (s ++ t)
unfolding Full
Full-grow [] t f h = absurd f
Full-grow (c ∷ s) t f h = append-IsLine (c ∷ s) t f h

-- A line and headers, with the blank line behind them.
header_of : Bytes → Headers → Bytes
header_of l hs = l ++ crlf ++ header_lines hs ++ crlf

header_end_offset-find_sub :
    (r : Bytes) (n : ℕ) → find_sub blank r ≡ some n → header_end_offset r ≡ some (n + 4)
unfolding header_end_offset
header_end_offset-find_sub r n e = rw (e, header_end_offset) refl

header_end_offset-header_of :
    (l : Bytes) (hs : Headers) (content : Bytes)
    → Full l
    → IsHeaders hs
    → header_end_offset (header_of l hs ++ content) ≡ some (length (header_of l hs))
unfolding header_of header_end_offset
header_end_offset-header_of l hs content f h =
    let whole : l ++ crlf ++ header_lines hs ≡ block (l ∷ lines_of hs) =
      rw (header_lines-block hs) (unfold block in append_assoc l crlf (block (lines_of hs))) in
    let (n, (e, len)) = find_sub-block l (lines_of hs) content (f, lines_of-Full hs h) in
    let found : find_sub blank (l ++ crlf ++ header_lines hs ++ crlf ++ content) ≡ some n =
      ap (find_sub blank) (append_assoc (l ++ crlf ++ header_lines hs) crlf content)
      ∙ ap (λ r. find_sub blank (r ++ (crlf ++ content))) whole
      ∙ e in
    header_end_offset-find_sub _ n found
    ∙ (ap some (len ∙ ap (λ r. length (r ++ crlf)) (sym whole)))

if-IsLine : (b : Bool) (s t : Bytes) → IsLine s → IsLine t → IsLine (if b then s else t)
if-IsLine true s t h k = h
if-IsLine false s t h k = k

cache_control-IsHeaders :
    (good : Bool)
    → IsHeaders (if good then [] else (codes "Cache-Control", codes "no-cache,no-store") ∷ [])
cache_control-IsHeaders true = tt
cache_control-IsHeaders false = ((refl, refl), tt)

standard_headers-IsHeaders :
    (content_type now_str mod_str : Bytes) (code : ℕ)
    → IsLine content_type
    → IsLine now_str
    → IsLine mod_str
    → IsHeaders (standard_headers content_type now_str mod_str code)
unfolding standard_headers
standard_headers-IsHeaders content_type now_str mod_str code a b c = (
  (refl, refl),
  (
    (refl, a),
    (
      (refl, b),
      (
        (refl, c),
        (
          (refl, refl),
          ((refl, refl), cache_control-IsHeaders (code / 100 == 2 || code / 100 == 3)),
        ),
      ),
    ),
  ),
)

length_headers-IsHeaders :
    (http : HttpConn) (partial : Bool) (len : ℤ) → IsHeaders (length_headers http partial len)
unfolding length_headers
length_headers-IsHeaders http true len =
    let first = decimal_ℤ-IsLine http.first_byte_index in
    let last = decimal_ℤ-IsLine http.last_byte_index in
    let whole = decimal_ℤ-IsLine len in
    (
      (refl, simp (contains-append, first, last, whole) refl),
      ((refl, decimal_ℤ-IsLine (http.last_byte_index -ℤ http.first_byte_index +ℤ pos 1)), tt),
    )
length_headers-IsHeaders http false len = elim (Bool-cases (ltb_ℤ len (pos 0))) [
  | inl e ↦ rw e tt
  | inr e ↦ rw e ((refl, decimal_ℤ-IsLine len), tt)
]

pick_headers-IsHeaders :
    (wanted : Bool) (hs : Headers) → IsHeaders hs → IsHeaders (pick_headers wanted hs)
unfolding pick_headers
pick_headers-IsHeaders wanted [] h = tt
pick_headers-IsHeaders true ((name, value) ∷ hs) ((a, b), h) =
    elim (Bool-cases (eq_ignore_case name (codes "Content-Encoding"))) [
      | inl e ↦ rw e ((refl, b), pick_headers-IsHeaders true hs h)
      | inr e ↦ rw e (pick_headers-IsHeaders true hs h)
    ]
pick_headers-IsHeaders false ((name, value) ∷ hs) ((a, b), h) =
    elim (Bool-cases (eq_ignore_case name (codes "Content-Encoding"))) [
      | inl e ↦ rw e (pick_headers-IsHeaders false hs h)
      | inr e ↦ rw e ((a, b), pick_headers-IsHeaders false hs h)
    ]

fixed_type-IsLine :
    (http : HttpConn) (content_type : Bytes)
    → IsLine http.charset
    → IsLine content_type
    → IsLine (fixed_type http content_type)
unfolding fixed_type
fixed_type-IsLine http content_type a b =
    let charset : Bytes = if is_empty http.charset then codes "iso-8859-1" else http.charset in
    let given : IsLine charset =
      if-IsLine (is_empty http.charset) (codes "iso-8859-1") http.charset refl a in
    if-IsLine _ (content_type ++ codes "; charset=" ++ charset) content_type
      (append-IsLine (content_type ++ codes "; charset=") charset
        (append-IsLine content_type (codes "; charset=") b refl) given)
      b

status_line-Full :
    (protocol text : Bytes) (code : ℕ)
    → IsLine protocol
    → IsLine text
    → Full (protocol ++ codes " " ++ decimal code ++ codes " " ++ text)
status_line-Full protocol text code a b =
    let number = digits-IsLine (decimal code) (decimal-IsDigit code) in
    let begun =
      Full-grow (protocol ++ codes " ") (decimal code) (Full-append protocol [] 32 a refl) number in
    let coded = Full-grow (protocol ++ codes " " ++ decimal code) (codes " ") begun refl in
    Full-grow (protocol ++ codes " " ++ decimal code ++ codes " ") text coded b

protocol_of-IsLine : (http : HttpConn) → IsLine http.http_version → IsLine (protocol_of http)
unfolding protocol_of
protocol_of-IsLine http h = elim (Bool-cases (is_empty http.http_version)) [
  | inl e ↦ rw e refl
  | inr e ↦ rw e h
]

-- The headers of a full response, in their order.
all_headers : ℤ → (ℤ → Bytes) → HttpConn → Bool → ℕ → Bytes → ℤ → ℤ → Headers → Headers
all_headers now_ts date http partial code content_type len mod_time extra =
    standard_headers (fixed_type http content_type) (date now_ts) (date mod_time) code
    ++ pick_headers true extra
    ++ length_headers http partial len
    ++ pick_headers false extra

all_headers-IsHeaders :
    (now_ts : ℤ) (date : ℤ → Bytes) (http : HttpConn) (partial : Bool) (code : ℕ)
    (content_type : Bytes) (len mod_time : ℤ) (extra : Headers)
    → IsLine http.charset
    → IsLine content_type
    → ((t : ℤ) → IsLine (date t))
    → IsHeaders extra
    → IsHeaders (all_headers now_ts date http partial code content_type len mod_time extra)
unfolding all_headers
all_headers-IsHeaders now_ts date http partial code content_type len mod_time extra a b c d =
    let start =
      standard_headers (fixed_type http content_type) (date now_ts) (date mod_time) code in
    let typed = fixed_type-IsLine http content_type a b in
    append-IsHeaders (start ++ pick_headers true extra ++ length_headers http partial len)
      (pick_headers false extra)
      (append-IsHeaders (start ++ pick_headers true extra) (length_headers http partial len)
        (append-IsHeaders start (pick_headers true extra)
          (standard_headers-IsHeaders (fixed_type http content_type) (date now_ts) (date mod_time)
            code typed (c now_ts) (c mod_time))
          (pick_headers-IsHeaders true extra d))
        (length_headers-IsHeaders http partial len))
      (pick_headers-IsHeaders false extra d)

given_header :
    (given : Bool) (r content : Bytes)
    → given ≡ true
    → header_end_offset (r ++ content) ≡ some (length r)
    → header_end_offset ((if given then r else []) ++ content)
      ≡ some (length (if given then r else []))
given_header true r content h e = e
given_header false r content h e = absurd (cc)

-- A full response to a client of HTTP/1.0 or later, built of texts without a carriage return: whatever
-- content follows it, the offset that the loop finds is its length, so that exactly the header is left
-- out of the accounting.
pub header_end_offset-build_full_response :
    (now_ts : ℤ) (date : ℤ → Bytes) (http : HttpConn) (code : ℕ) (text content_type : Bytes)
    (len mtime : ℤ) (extra : Headers) (content : Bytes)
    → http.mime_flag ≡ true
    → IsLine http.http_version
    → IsLine http.charset
    → IsLine text
    → IsLine content_type
    → ((t : ℤ) → IsLine (date t))
    → IsHeaders extra
    → header_end_offset
        (build_full_response now_ts date http code text content_type len mtime extra ++ content)
      ≡ some (length (build_full_response now_ts date http code text content_type len mtime extra))
unfolding build_full_response status_line header_of all_headers
header_end_offset-build_full_response now_ts date http code text content_type len mtime extra
      content mime v a t b c d =
    let mod_time = if eqb_ℤ mtime (pos 0) then now_ts else mtime in
    let partial = is_partial http code len mod_time in
    let final : ℕ = if partial then 206 else code in
    let final_text = if partial then codes "Partial Content" else text in
    let line = protocol_of http ++ codes " " ++ decimal final ++ codes " " ++ final_text in
    let hs = all_headers now_ts date http partial final content_type len mod_time extra in
    given_header http.mime_flag (header_of line hs) content mime (
      header_end_offset-header_of line hs content
        (status_line-Full (protocol_of http) final_text final (protocol_of-IsLine http v)
          (if-IsLine partial (codes "Partial Content") text refl t))
        (all_headers-IsHeaders now_ts date http partial final content_type len mod_time extra a b c
          d))
