-- ===== src/Samples/Small.antt =====
-- Samples of URLs and timers.
use thttpd_rs.Base.{◌+◌, ◌≡◌, refl, [], ◌∷◌, codes, none, some, arith}
use thttpd_rs.Url.{percent_decode, url_encode, normalize_path}
use thttpd_rs.Url.Escapes.{percent_decode-url_encode}
use thttpd_rs.Url.Paths.{IsNormal, normalize_path-IsNormal}
use thttpd_rs.Timers.{TimerWheel, run, reset}
use thttpd_rs.Timers.Run.{due}
use thttpd_rs.Timers.Fires.{IsHeap, Fires, run-Fires}
use thttpd_rs.Base.Int.{pos, negsuc}
use thttpd_rs.Base.{◌*◌}
use thttpd_rs.Cache.{FileKey, MmapCache, mapped, nanos, map_key, cleanup, with_max_size}
use thttpd_rs.Cache.Keeps.{map_key-cleanup}
use thttpd_rs.Date.{Civil, civil_of, date_to_epoch}
use thttpd_rs.Date.Epoch.{IsDate, civil_of-date_to_epoch}

space_encoded : url_encode (codes "a b") ≡ codes "a%20b"
unfolding url_encode
space_encoded = refl

stray_percent : percent_decode (λ s. s) (codes "100%+%4") ≡ codes "100% %4"
unfolding percent_decode
stray_percent = refl

dots_resolved : normalize_path (codes "a/./b/../c") ≡ some (codes "/a/c")
unfolding normalize_path
dots_resolved = refl

above_root : normalize_path (codes "/a/../../b") ≡ none
unfolding normalize_path
above_root = refl

percent_decode-url_encode_example :
    percent_decode (λ s. s) (url_encode (codes "a b%")) ≡ codes "a b%"
percent_decode-url_encode_example =
    percent_decode-url_encode (λ s. s) (codes "a b%")
      (omega arith, (omega arith, (omega arith, (omega arith, tt)))) refl

normalize_path-IsNormal_example :
    IsNormal (codes "/a/c") × (normalize_path (codes "/a/c") ≡ some (codes "/a/c"))
normalize_path-IsNormal_example =
    normalize_path-IsNormal (codes "a/./b/../c") (codes "/a/c") dots_resolved

-- A timer that is due, one that is cancelled, one that repeats and one for later.
abbrev wheel : TimerWheel
wheel = record {
  heap =
      record { id = 0; deadline = 5; period = none; callback = 70 }
      ∷ record { id = 1; deadline = 6; period = none; callback = 71 }
      ∷ record { id = 2; deadline = 7; period = some 10; callback = 72 }
      ∷ record { id = 3; deadline = 30; period = none; callback = 73 }
      ∷ [];
  next_id = 4;
  cancelled = 1 ∷ [];
}

reset_revives : (reset 8 1 5 wheel).1 ≡ some 4
unfolding reset
reset_revives = refl

wheel-IsHeap : IsHeap wheel.heap
wheel-IsHeap = record {
  sorted = (
    (omega arith, (omega arith, (omega arith, tt))),
    ((omega arith, (omega arith, tt)), ((omega arith, tt), (tt, tt))),
  );
  distinct = (
    (
      (λ e. absurd (omega (arith, e))),
      ((λ e. absurd (omega (arith, e))), ((λ e. absurd (omega (arith, e))), tt)),
    ),
    (
      ((λ e. absurd (omega (arith, e))), ((λ e. absurd (omega (arith, e))), tt)),
      (((λ e. absurd (omega (arith, e))), tt), (tt, tt)),
    ),
  );
  ticks = (
    (λ p e. absurd (cc)),
    ((λ p e. absurd (cc)), ((λ p e. ground arith), ((λ p e. absurd (cc)), tt))),
  );
}

run-Fires_example : Fires 8 (due 8 (1 ∷ []) wheel.heap) (run 5 8 (λ k. 9 + k) wheel)
run-Fires_example = run-Fires 5 8 (λ k. 9 + k) wheel (λ k. omega arith) wheel-IsHeap (omega arith)

abbrev page : FileKey
page = record { dev = 1; ino = 2; size = 300; ctime_sec = pos 5; ctime_nsec = pos 0 }

abbrev cache : MmapCache
cache = record {
  entries = (page, record { mmap = 8; last_used = 0; size = 300 }) ∷ [];
  expire_age = 120 * nanos;
  max_size = 100;
}

-- Halved often enough, the age is zero, and doubling leaves it there.
age_stays_zero :
    (cleanup (λ h. 0) 0 (record cache { expire_age = 0; max_size = 1000 })).expire_age ≡ 0
unfolding cleanup
age_stays_zero = refl

map_key-cleanup_example :
    (map_key 9 page none (cleanup (λ h. 1) 7 (map_key 3 page (some 8) (with_max_size 100)).0)).1
    ≡ mapped 8
map_key-cleanup_example =
    map_key-cleanup 3 7 9 8 page (some 8) none (λ h. 1) (with_max_size 100)
      (unfold map_key with_max_size in refl) (omega arith)

-- Sun, 06 Nov 1994 08:49:37 GMT
abbrev sunday : Civil
sunday = record { year = 1994; month = 10; day = 6; hour = 8; min = 49; sec = 37 }

sunday_date : civil_of 40 784111777 ≡ some sunday
unfolding civil_of
sunday_date = refl

before_1970 :
    date_to_epoch
      (record sunday { year = 1969; month = 11; day = 31; hour = 23; min = 59; sec = 59 })
    ≡ negsuc 0
unfolding date_to_epoch
before_1970 = refl

-- The day before the first of a month wraps around to the end of the `u32` range.
day_zero :
    date_to_epoch (record sunday { year = 1970; month = 0; day = 0; hour = 0; min = 0; sec = 0 })
    ≡ pos (4294967295 * 86400)
unfolding date_to_epoch
day_zero = refl

civil_of-date_to_epoch_example :
    (c : Civil) × ((civil_of 40 784111777 ≡ some c) × IsDate c × (date_to_epoch c ≡ pos 784111777))
civil_of-date_to_epoch_example = civil_of-date_to_epoch 40 784111777 (omega arith) (omega arith)
