-- ===== src/Samples/Limits.antt =====
-- Samples of the throttle table.
use thttpd_rs.Base.{◌≡◌, refl, true, [], ◌∷◌, codes, All, some, arith}
use thttpd_rs.Base.Int.{pos, ◌+ℤ◌, ◌*ℤ◌, quot}
use thttpd_rs.Slot.{ConnThrottle}
use thttpd_rs.Throttle.{ThrottleEntry, allow, new_entry, check_request, fair_share_for}
use thttpd_rs.Throttle.Parse.{parse_line, load, Loaded, load-Loaded}
use thttpd_rs.Throttle.Walk.{Countable, Balanced, check_request-Balanced}
use thttpd_rs.Throttle.Admission.{Decides, matching, check_request-Decides}
use thttpd_rs.Match.{match_pattern}

abbrev pages : ThrottleEntry
pages = record {
  pattern = codes "*.html";
  max_limit = pos 10000;
  min_limit = pos 0;
  rate = pos 5000;
  bytes_since_avg = pos 4000;
  num_sending = pos 1;
}

second_sender :
    check_request (codes "page.html") (pages ∷ [])
    ≡ (record pages { num_sending = pos 2 } ∷ [], allow (0 ∷ []) (pos 5000) (pos 0))
unfolding check_request match_pattern ◌*ℤ◌ ◌+ℤ◌ quot
second_sender = refl

min_and_max :
    parse_line (codes "/cgi-bin/** 1000-10000")
    ≡ some (new_entry (codes "cgi-bin/**") (pos 10000) (pos 1000))
unfolding parse_line
min_and_max = refl

-- One pass over the pattern leaves a slash behind the bar where there were two.
double_slash_behind_bar :
    parse_line (codes "a|//b 10") ≡ some (new_entry (codes "a|/b") (pos 10) (pos 0))
unfolding parse_line
double_slash_behind_bar = refl

-- More senders than bytes: the share is zero, which stands for no limit where it is used.
zero_share :
    fair_share_for (record pages { max_limit = pos 5; num_sending = pos 10 } ∷ []) (0 ∷ []) ≡ pos 0
unfolding fair_share_for quot
zero_share = refl

pages-Countable : Countable pages
pages-Countable = record { senders = 1; counted = refl; room = omega arith }

check_request-Balanced_example :
    Balanced (pages ∷ []) (check_request (codes "page.html") (pages ∷ []))
check_request-Balanced_example =
    check_request-Balanced (codes "page.html") (pages ∷ []) (pages-Countable, tt)

check_request-Decides_example :
    Decides
      (matching (codes "page.html") 10 0 (pages ∷ []))
      (check_request (codes "page.html") (pages ∷ [])).1
check_request-Decides_example = check_request-Decides (codes "page.html") (pages ∷ [])

load-Loaded_example :
    All (λ e. Loaded e × Countable e) (load (codes "*.html 1000" ∷ codes "# x" ∷ []))
load-Loaded_example = load-Loaded (codes "*.html 1000" ∷ codes "# x" ∷ [])

abbrev busy : ConnThrottle
busy = record {
  tnums = 0 ∷ [];
  max_limit = pos 5000;
  min_limit = pos 0;
  header_len = 200;
  body_bytes = pos 77;
  started_at = some 1;
  active_at = some 2;
  pause_until = some 3;
  checked = true;
}
