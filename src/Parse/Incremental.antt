-- ===== src/Parse/Incremental.antt =====
-- Detection over several reads gives the answer of one read.
use thttpd_rs.Base.{
  ℕ, zero, suc, ◌+◌, ◌-◌, ◌≡◌, ◌≤◌, ◌<◌, refl, ap, sym, ◌∙◌, ◌⊎◌, false, subst, subst₂, Option,
  none, some, [], ◌∷◌, ◌++◌, Bytes, length, get_elem?, arith, length-append,
}
use thttpd_rs.Parse.{Round, go, stop, step, Answer, continue, scan, got_request}
use thttpd_rs.Parse.State.{
  GotRequest, no_request, bad_request, ParseState, bogus, is_terminal, first_word,
}
use thttpd_rs.Parse.Feed.{feed, got_request-feed}

-- What one round does in a state where detection is not over.
abbrev Moves : ℕ → Round → Type 0
Moves c (go next) = is_terminal next ≡ false
Moves c (stop no_request advance last) = ⊥
Moves c (stop bad_request advance last) = (advance ≡ 0) × (last ≡ bogus)
Moves c (stop GotRequest.got_request advance last) =
    (advance ≡ 1) × (last ≡ ParseState.got_request) × ((c ≡ 13) ⊎ (c ≡ 10))

step-Moves : (state : ParseState) (c : ℕ) → is_terminal state ≡ false → Moves c (step state c)
unfolding step is_terminal
step-Moves first_word c h = ground arith
step-Moves _ c h = ground arith

-- The outcome of detection between the indexes `lo` and `hi`.
abbrev EndsLine : Option ℕ → Type 0
EndsLine none = ⊥
EndsLine (some c) = (c ≡ 13) ⊎ (c ≡ 10)

abbrev pub Outcome : Bytes → ℕ → ℕ → Option Answer → Type 0
Outcome buf lo hi none = ⊥
Outcome buf lo hi (some (no_request, j, last)) = (j ≡ hi) × (is_terminal last ≡ false)
Outcome buf lo hi (some (bad_request, j, last)) = (lo ≤ j) × (j < hi) × (last ≡ bogus)
Outcome buf lo hi (some (GotRequest.got_request, j, last)) =
    (lo < j) × (j ≤ hi) × (last ≡ ParseState.got_request) × EndsLine (get_elem? buf (j - 1))

get_elem?-some : (xs : Bytes) (i : ℕ) → i < length xs → (c : ℕ) × (get_elem? xs i ≡ some c)
get_elem?-some [] i h = elim h [ ]
get_elem?-some (x ∷ xs) zero h = (x, refl)
get_elem?-some (x ∷ xs) (suc i) h = get_elem?-some xs i (omega arith)

Outcome-weaken :
    (buf : Bytes) (lo hi hi' : ℕ) (a : Option Answer)
    → hi ≡ hi'
    → Outcome buf (lo + 1) hi a
    → Outcome buf lo hi' a
Outcome-weaken buf lo hi hi' none e h = h
Outcome-weaken buf lo hi hi' (some (no_request, j, last)) e h = (omega arith, h.1)
Outcome-weaken buf lo hi hi' (some (bad_request, j, last)) e h = (omega arith, omega arith, h.2)
Outcome-weaken buf lo hi hi' (some (GotRequest.got_request, j, last)) e h =
    (omega arith, omega arith, h.2, h.3)

continue-Outcome :
    (buf : Bytes) (i rounds c : ℕ) (rest : ParseState → Option Answer) (r : Round)
    → get_elem? buf i ≡ some c
    → ((next : ParseState)
        → is_terminal next ≡ false
        → Outcome buf (i + 1) (i + 1 + rounds) (rest next))
    → Moves c r
    → Outcome buf i (i + suc rounds) (continue r i rest)
unfolding continue
continue-Outcome buf i rounds c rest (go next) at ih m =
    Outcome-weaken buf i (i + 1 + rounds) (i + suc rounds) (rest next) (omega arith) (ih next m)
continue-Outcome buf i rounds c rest (stop no_request advance last) at ih m = absurd m
continue-Outcome buf i rounds c rest (stop bad_request advance last) at ih m =
    (omega arith, omega arith, m.1)
continue-Outcome buf i rounds c rest (stop GotRequest.got_request advance last) at ih m =
    let e : i + advance - 1 ≡ i = omega arith in (omega arith, omega arith, m.1, rw (e, at) m.2)

scan-Outcome :
    (rounds : ℕ) (buf : Bytes) (i : ℕ) (state : ParseState)
    → i + rounds ≤ length buf
    → is_terminal state ≡ false
    → Outcome buf i (i + rounds) (scan rounds buf i state)
unfolding scan
scan-Outcome zero buf i state fits h = (omega arith, h)
scan-Outcome (suc rounds) buf i state fits h =
    let (c, at) = get_elem?-some buf i (omega arith) in
    rw (at, scan)
      (continue-Outcome buf i rounds c (scan rounds buf (i + 1)) (step state c) at
        (λ next n. scan-Outcome rounds buf (i + 1) next (omega arith) n) (step-Moves state c h))

-- In a state that is not terminal, with the indexes in order and in the buffer, detection answers
-- (no index is out of range): it has consumed all bytes and may go on, or it stopped inside at a
-- malformed byte, or it completed a request just behind a carriage return or line feed.
pub got_request-Outcome :
    (read_buf : Bytes) (checked_idx read_idx : ℕ) (state : ParseState)
    → checked_idx ≤ read_idx
    → read_idx ≤ length read_buf
    → is_terminal state ≡ false
    → Outcome read_buf checked_idx read_idx (got_request read_buf checked_idx read_idx state)
unfolding got_request
got_request-Outcome read_buf lo hi state order fits h =
    let e : lo + (hi - lo) ≡ hi = omega arith in
    subst (λ n. Outcome read_buf lo n (scan (hi - lo) read_buf lo state)) e
      (scan-Outcome (hi - lo) read_buf lo state (omega arith) h)

-- The fold over two pieces, once the first leaves detection open.
abbrev Resumes : ParseState → ℕ → Bytes → Bytes → ℕ → ParseState → Type 0
Resumes state i old new j last =
    (j ≡ i + length old) × (feed last j new ≡ feed state i (old ++ new))

-- The rest of the fold behind one round.
abbrev onward : Round → ℕ → Bytes → Answer
onward (go next) i s = feed next (i + 1) s
onward (stop r advance last) i s = (r, i + advance, last)

feed-onward :
    (state : ParseState) (i c : ℕ) (s : Bytes) → feed state i (c ∷ s) ≡ onward (step state c) i s
unfolding feed
feed-onward state i c s = ground arith

onward-Resumes :
    (c i j : ℕ) (old new : Bytes) (last : ParseState) (r : Round)
    → Moves c r
    → ((next : ParseState)
        → is_terminal next ≡ false
        → feed next (i + 1) old ≡ (no_request, j, last)
        → Resumes next (i + 1) old new j last)
    → onward r i old ≡ (no_request, j, last)
    → (j ≡ i + suc (length old)) × (feed last j new ≡ onward r i (old ++ new))
onward-Resumes c i j old new last (go next) m ih e = let (p, q) = ih next m e in (omega arith, q)
onward-Resumes c i j old new last (stop no_request advance end) m ih e = absurd m
onward-Resumes c i j old new last (stop bad_request advance end) m ih e = absurd (cc)
onward-Resumes c i j old new last (stop GotRequest.got_request advance end) m ih e = absurd (cc)

feed-Resumes :
    (old new : Bytes) (i j : ℕ) (state last : ParseState)
    → is_terminal state ≡ false
    → feed state i old ≡ (no_request, j, last)
    → Resumes state i old new j last
unfolding feed
feed-Resumes [] new i j state last h e = (ground arith, ground arith)
feed-Resumes (c ∷ old) new i j state last h e =
    let (p, q) =
      onward-Resumes c i j old new last (step state c) (step-Moves state c h)
        (λ next n. feed-Resumes old new (i + 1) j next last n)
        (sym (feed-onward state i c old) ∙ e) in
    (p, q ∙ sym (feed-onward state i c (old ++ new)))

some-injective : {a b : Answer} → some a ≡ some b → a ≡ b
some-injective e = cc

-- Where the bytes `old` from `checked_idx` on leave detection open, whatever the buffer holds behind
-- them, a second call after `new` bytes were written there, from the index and the state that the
-- first call returned, gives the answer of one call on all the bytes.
pub got_request_resumes :
    (pre old new junk tail : Bytes) (j : ℕ) (state last : ParseState)
    → is_terminal state ≡ false
    → got_request (pre ++ (old ++ junk)) (length pre) (length pre + length old) state
      ≡ some (no_request, j, last)
    → got_request ((pre ++ old) ++ (new ++ tail)) j (length pre + length old + length new) last
      ≡ got_request
          (pre ++ ((old ++ new) ++ tail))
          (length pre)
          (length pre + length (old ++ new))
          state
got_request_resumes pre old new junk tail j state last h first =
    let open_at : feed state (length pre) old ≡ (no_request, j, last) =
      some-injective (sym (got_request-feed pre old junk state) ∙ first) in
    let (p, q) = feed-Resumes old new (length pre) j state last h open_at in
    let at : length (pre ++ old) ≡ j = length-append pre old ∙ sym p in
    let upto : length (pre ++ old) + length new ≡ length pre + length old + length new =
      omega (arith, length-append pre old) in
    let second : got_request ((pre ++ old) ++ (new ++ tail)) j
          (length pre + length old + length new) last
        ≡ some (feed last j new) =
      subst₂ (λ a b. got_request ((pre ++ old) ++ (new ++ tail)) a b last ≡ some (feed last a new))
        at upto (got_request-feed (pre ++ old) new tail last) in
    second ∙ ap some q ∙ sym (got_request-feed pre (old ++ new) tail state)
