-- ===== src/Parse/Accepts.antt =====
-- A well-formed request is complete exactly at its end.
use thttpd_rs.Base.{
  ℕ, ◌+◌, ◌≡◌, refl, ap, ◌∙◌, false, ◌||◌, some, List, [], ◌∷◌, ◌++◌, Bytes, length, arith, All,
  length-append,
}
use mathlib.Core.List.{append_assoc}
use thttpd_rs.Parse.{go, step, is_blank, is_end, got_request}
use thttpd_rs.Parse.State.{
  GotRequest, ParseState, initial, first_word, first_ws, second_word, second_ws, third_word, cr,
  crlf, line,
}
use thttpd_rs.Parse.Feed.{feed, got_request-feed_start}

-- A byte of a word of the request line, and a byte of a header line.
abbrev pub IsWordByte : ℕ → Type 0
IsWordByte c = (is_blank c || is_end c) ≡ false

abbrev pub IsLineByte : ℕ → Type 0
IsLineByte c = is_end c ≡ false

-- A header line that is not empty, with its line end.
pub record Header : Type 0 where
  pub first : ℕ
  pub rest : Bytes

abbrev pub crlf_bytes : Bytes
crlf_bytes = 13 ∷ 10 ∷ []

abbrev pub header_block : List Header → Bytes
header_block [] = []
header_block (h ∷ hs) = (h.first ∷ (h.rest ++ crlf_bytes)) ++ header_block hs

abbrev pub IsHeader : Header → Type 0
IsHeader h = IsLineByte h.first × All IsLineByte h.rest

-- `feed` reads `s` through and is then in the state `last`.
record Reaches (state : ParseState) (s : Bytes) (last : ParseState) : Type 0 where
  at : (i : ℕ) (more : Bytes) → feed state i (s ++ more) ≡ feed last (i + length s) more

-- A state that every byte of a kind keeps.
Reaches-All :
    (P : ℕ → Type 0) (state : ParseState)
    → ((c : ℕ) → P c → step state c ≡ go state)
    → (s : Bytes) → All P s
    → Reaches state s state
unfolding feed
Reaches-All P state keeps [] h = record { at = λ i more. ap (λ n. feed state n more) (omega arith) }
Reaches-All P state keeps (c ∷ s) (p, h) = record {
  at = λ i more.
      rw (keeps c p, feed)
        ((Reaches-All P state keeps s h).at (i + 1) more
          ∙ ap (λ n. feed state n more) (omega arith));
}

Reaches-one :
    (state next : ParseState) (c : ℕ) → step state c ≡ go next → Reaches state (c ∷ []) next
unfolding feed
Reaches-one state next c e = record { at = λ i more. rw (e, feed) refl }

Reaches-append :
    (a b : Bytes) (state mid last : ParseState)
    → Reaches state a mid
    → Reaches mid b last
    → Reaches state (a ++ b) last
Reaches-append a b state mid last p q = record {
  at = λ i more.
      ap (feed state i) (append_assoc a b more)
      ∙ p.at i (b ++ more)
      ∙ q.at (i + length a) more
      ∙ ap (λ n. feed last n more) (omega (arith, length-append a b));
}

Reaches-word :
    (state next : ParseState) (c : ℕ) (w : Bytes)
    → step state c ≡ go next
    → ((x : ℕ) → IsWordByte x → step next x ≡ go next)
    → All IsWordByte w
    → Reaches state (c ∷ w) next
Reaches-word state next c w e keeps h =
    Reaches-append (c ∷ []) w state next next (Reaches-one state next c e)
      (Reaches-All IsWordByte next keeps w h)

Reaches-crlf : Reaches line crlf_bytes crlf
unfolding step
Reaches-crlf =
    Reaches-append (13 ∷ []) (10 ∷ []) line cr crlf (Reaches-one line cr 13 refl)
      (Reaches-one cr crlf 10 refl)

Reaches-header : (h : Header) → IsHeader h → Reaches crlf (h.first ∷ (h.rest ++ crlf_bytes)) crlf
unfolding step
Reaches-header h (p, q) =
    Reaches-append (h.first ∷ []) (h.rest ++ crlf_bytes) crlf line crlf
      (Reaches-one crlf line h.first (ground arith))
      (Reaches-append h.rest crlf_bytes line line crlf
        (Reaches-All IsLineByte line (λ c e. ground arith) h.rest q) Reaches-crlf)

Reaches-headers : (hs : List Header) → All IsHeader hs → Reaches crlf (header_block hs) crlf
Reaches-headers [] h = record { at = λ i more. ap (λ n. feed crlf n more) (omega arith) }
Reaches-headers (x ∷ hs) (p, q) =
    Reaches-append (x.first ∷ (x.rest ++ crlf_bytes)) (header_block hs) crlf crlf crlf
      (Reaches-header x p) (Reaches-headers hs q)

-- A request line of three words: the second and the third have a first byte.
pub record RequestLine : Type 0 where
  pub method : Bytes
  pub target_first : ℕ
  pub target : Bytes
  pub version_first : ℕ
  pub version : Bytes

abbrev pub request_line : RequestLine → Bytes
request_line r =
    r.method
    ++ ((b' ' ∷ [])
        ++ ((r.target_first ∷ r.target)
            ++ ((b' ' ∷ []) ++ ((r.version_first ∷ r.version) ++ crlf_bytes))))

abbrev pub IsRequestLine : RequestLine → Type 0
IsRequestLine r =
    All IsWordByte r.method
    × IsWordByte r.target_first
    × All IsWordByte r.target
    × IsWordByte r.version_first
    × All IsWordByte r.version

Reaches-line : (r : RequestLine) → IsRequestLine r → Reaches first_word (request_line r) crlf
unfolding step
Reaches-line r (m, t, ts, v, vs) =
    Reaches-append r.method _ first_word first_word crlf
      (Reaches-All IsWordByte first_word (λ c e. ground arith) r.method m)
      (Reaches-append (b' ' ∷ []) _ first_word first_ws crlf
        (Reaches-one first_word first_ws b' ' refl)
        (Reaches-append (r.target_first ∷ r.target) _ first_ws second_word crlf
          (Reaches-word first_ws second_word r.target_first r.target (ground arith)
            (λ c e. ground arith) ts)
          (Reaches-append (b' ' ∷ []) _ second_word second_ws crlf
            (Reaches-one second_word second_ws b' ' refl)
            (Reaches-append (r.version_first ∷ r.version) _ second_ws third_word crlf
              (Reaches-word second_ws third_word r.version_first r.version (ground arith)
                (λ c e. ground arith) vs)
              (Reaches-append (13 ∷ []) (10 ∷ []) third_word cr crlf
                (Reaches-one third_word cr 13 refl) (Reaches-one cr crlf 10 refl))))))

-- The bytes of a whole request.
abbrev pub request_bytes : RequestLine → List Header → Bytes
request_bytes r hs = request_line r ++ header_block hs ++ crlf_bytes

feed-request :
    (r : RequestLine) (hs : List Header)
    → IsRequestLine r
    → All IsHeader hs
    → feed initial 0 (request_bytes r hs)
      ≡ (GotRequest.got_request, length (request_bytes r hs), ParseState.got_request)
unfolding feed step
feed-request r hs ok_line ok_headers =
    let head = request_line r ++ header_block hs in
    (Reaches-append (request_line r) (header_block hs) first_word crlf crlf (Reaches-line r ok_line)
        (Reaches-headers hs ok_headers)).at
      0 crlf_bytes
    ∙ ap (λ n. (GotRequest.got_request, n, ParseState.got_request))
        (omega (arith, length-append head crlf_bytes))

-- A request of a three-word request line and header lines, each ended by CR LF, then an empty line,
-- is answered as complete from the initial state, with the index just behind it, whatever follows.
pub got_request_complete :
    (r : RequestLine) (hs : List Header) (more : Bytes)
    → IsRequestLine r
    → All IsHeader hs
    → got_request (request_bytes r hs ++ more) 0 (length (request_bytes r hs)) initial
      ≡ some (GotRequest.got_request, length (request_bytes r hs), ParseState.got_request)
got_request_complete r hs more ok_line ok_headers =
    got_request-feed_start (request_bytes r hs) more initial
    ∙ ap some (feed-request r hs ok_line ok_headers)
