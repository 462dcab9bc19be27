-- ===== src/Forward/Frames.antt =====
-- The frames of the control socket.
use thttpd_rs.Base.{
  ◌≡◌, refl, ap, ◌∙◌, ℕ, ◌%◌, ◌^◌, ◌≤◌, false, some, [], ◌∷◌, ◌++◌, Bytes, arith, ltb, length,
  length-append, take, drop,
}
use mathlib.Core.List.{append_assoc}
use thttpd_rs.Forward.{
  to_be_bytes, from_be_bytes, write_frame, read_exact, read_sized, read_frame, max_frame,
}

take-append : (s rest : Bytes) → take (length s) (s ++ rest) ≡ s
take-append [] rest = refl
take-append (c ∷ s) rest = ap (λ t. c ∷ t) (take-append s rest)

drop-append : (s rest : Bytes) → drop (length s) (s ++ rest) ≡ rest
drop-append [] rest = refl
drop-append (c ∷ s) rest = drop-append s rest

read_exact-append : (s rest : Bytes) → read_exact (length s) (s ++ rest) ≡ some (s, rest)
unfolding read_exact
read_exact-append s rest =
    let enough : ltb (length (s ++ rest)) (length s) ≡ false =
      ground (arith, length-append s rest) in
    rw (enough, take-append s rest, drop-append s rest) refl

read_length : (n : ℕ) (s : Bytes) → read_exact 4 (to_be_bytes n ++ s) ≡ some (to_be_bytes n, s)
unfolding to_be_bytes
read_length n s = read_exact-append (to_be_bytes n) s

from_be_bytes-to_be_bytes : (n : ℕ) → n ≤ max_frame → from_be_bytes (to_be_bytes n) ≡ n
unfolding to_be_bytes
from_be_bytes-to_be_bytes n h = omega arith

-- A frame of at most 16 MiB is read back, and what follows it stays in the stream.
pub read_frame-write_frame :
    (bytes rest : Bytes)
    → length bytes ≤ max_frame
    → read_frame (write_frame bytes ++ rest) ≡ some (bytes, rest)
unfolding read_frame read_sized write_frame
read_frame-write_frame bytes rest h =
    let n : length bytes % 2 ^ 32 ≡ length bytes = omega arith in
    let fits : ltb max_frame (length bytes) ≡ false = ground arith in
    rw (n, append_assoc (to_be_bytes (length bytes)) bytes rest)
      (ap read_sized (read_length (length bytes) (bytes ++ rest))
        ∙ rw (from_be_bytes-to_be_bytes (length bytes) h, fits) (read_exact-append bytes rest))
