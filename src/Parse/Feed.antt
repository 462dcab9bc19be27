-- ===== src/Parse/Feed.antt =====
-- Request detection as a fold over the bytes that have arrived, and the loop as a refinement of it.
use thttpd_rs.Base.{
  ℕ, ◌+◌, ◌-◌, ◌≡◌, refl, ap, subst, Option, some, [], ◌∷◌, ◌++◌, Bytes, length, get_elem?, arith,
  length-append,
}
use thttpd_rs.Parse.{Round, go, stop, step, Answer, continue, scan, got_request}
use thttpd_rs.Parse.State.{no_request, ParseState}

-- The answer after the bytes `s`, which begin at index `i`.
unfoldable pub feed : ParseState → ℕ → Bytes → Answer
feed state i [] = (no_request, i, state)
feed state i (c ∷ s) = elim (step state c) [
  | go next ↦ feed next (i + 1) s
  | stop r advance last ↦ (r, i + advance, last)
]

get_elem?-append :
    (pre : Bytes) (c : ℕ) (post : Bytes) → get_elem? (pre ++ c ∷ post) (length pre) ≡ some c
get_elem?-append [] c post = refl
get_elem?-append (x ∷ pre) c post = get_elem?-append pre c post

snoc-append : (pre : Bytes) (c : ℕ) (s : Bytes) → (pre ++ c ∷ []) ++ s ≡ pre ++ c ∷ s
snoc-append [] c s = refl
snoc-append (x ∷ pre) c s = ap (λ (t : Bytes). x ∷ t) (snoc-append pre c s)

length-snoc : (pre : Bytes) (c : ℕ) → length (pre ++ c ∷ []) ≡ length pre + 1
length-snoc pre c = omega (arith, length-append pre (c ∷ []))

-- One round, given that the rest of the loop is the rest of the fold.
continue-feed :
    (c : ℕ) (s : Bytes) (i : ℕ) (rest : ParseState → Option Answer) (r : Round)
    → ((next : ParseState) → rest next ≡ some (feed next (i + 1) s))
    → continue r i rest
      ≡ some (elim r [
        | go next ↦ feed next (i + 1) s
        | stop answer advance last ↦ (answer, i + advance, last)
      ])
unfolding continue
continue-feed c s i rest (go next) ih = ih next
continue-feed c s i rest (stop answer advance last) ih = refl

-- The loop over `s` in the middle of the buffer is the fold, and never indexes beyond it.
scan-feed :
    (pre s post : Bytes) (state : ParseState)
    → scan (length s) (pre ++ (s ++ post)) (length pre) state ≡ some (feed state (length pre) s)
unfolding scan feed
scan-feed pre [] post state = refl
scan-feed pre (c ∷ s) post state =
    rw (get_elem?-append pre c (s ++ post), scan)
      (continue-feed c s (length pre) _ (step state c) λ next.
        rw (snoc-append pre c (s ++ post), length-snoc) at (scan-feed (pre ++ c ∷ []) s post next))

-- `got_request` on a buffer whose unchecked part is `s` is the fold over `s`.
pub got_request-feed :
    (pre s post : Bytes) (state : ParseState)
    → got_request (pre ++ (s ++ post)) (length pre) (length pre + length s) state
      ≡ some (feed state (length pre) s)
unfolding got_request
got_request-feed pre s post state =
    let e : length pre + length s - length pre ≡ length s = omega arith in
    rw e (scan-feed pre s post state)

pub got_request-feed_start :
    (s post : Bytes) (state : ParseState)
    → got_request (s ++ post) 0 (length s) state ≡ some (feed state 0 s)
got_request-feed_start s post state =
    let e : 0 + length s ≡ length s = omega arith in
    subst (λ n. got_request (s ++ post) 0 n state ≡ some (feed state 0 s)) e
      (got_request-feed [] s post state)
