-- ===== src/Cache.antt =====
-- rust/crates/thttpd-mmc/src/lib.rs: the cache of mapped files. A mapping is the number of its handle,
-- and `refs` says how many clones of a handle the connections hold, so that the strong count is one
-- more. Times are in nanoseconds; what the operating system answers is an argument.
pub mod Keeps
use thttpd_rs.Base.{
  ℕ, ◌+◌, ◌-◌, ◌*◌, ◌/◌, ◌%◌, ◌^◌, Bool, true, false, ◌&&◌, ◌||◌, List, [], ◌∷◌, Option, none, some,
  ◌==◌, ltb, if◌then◌else◌,
}
use thttpd_rs.Base.Int.{ℤ, eqb_ℤ}

pub record FileKey : Type 0 where
  pub dev : ℕ
  pub ino : ℕ
  pub size : ℕ
  pub ctime_sec : ℤ
  pub ctime_nsec : ℤ

pub record CacheEntry : Type 0 where
  pub mmap : ℕ
  pub last_used : ℕ
  pub size : ℕ

pub record MmapCache : Type 0 where
  pub entries : List (FileKey × CacheEntry)
  pub expire_age : ℕ
  pub max_size : ℕ

pub data MmapError : Type 0 where
  file_not_found io : MmapError

-- What opening a path and reading its metadata give.
pub data Opening : Type 0 where
  no_file no_metadata : Opening
  opened : FileKey → Opening

pub data Mapping : Type 0 where
  failed : MmapError → Mapping
  mapped : ℕ → Mapping

abbrev pub nanos : ℕ
nanos = 1000000000

unfoldable pub with_max_size : ℕ → MmapCache
with_max_size max_size = record { entries = []; expire_age = 120 * nanos; max_size = max_size }

unfoldable pub new : MmapCache
unfolding with_max_size
new = with_max_size (64 * 1024 * 1024)

-- The derived equality.
unfoldable pub same_key : FileKey → FileKey → Bool
same_key a b =
    a.dev == b.dev
    && a.ino == b.ino
    && a.size == b.size
    && eqb_ℤ a.ctime_sec b.ctime_sec
    && eqb_ℤ a.ctime_nsec b.ctime_nsec

unfoldable pub find_entry : FileKey → List (FileKey × CacheEntry) → Option CacheEntry
unfolding same_key
find_entry key [] = none
find_entry key ((k, e) ∷ es) = if same_key k key then some e else find_entry key es

-- `get_mut` and the new time of use.
unfoldable pub touch : FileKey → ℕ → List (FileKey × CacheEntry) → List (FileKey × CacheEntry)
unfolding same_key
touch key now [] = []
touch key now ((k, e) ∷ es) =
    if same_key k key then (k, record e { last_used = now }) ∷ es else (k, e) ∷ touch key now es

-- `fresh` is the answer of the system's mapping call, made when the key is not in the cache.
unfoldable pub map_key : ℕ → FileKey → Option ℕ → MmapCache → MmapCache × Mapping
unfolding find_entry touch
map_key now key fresh c = elim (find_entry key c.entries) [
  | some e ↦ (record c { entries = touch key now c.entries }, mapped e.mmap)
  | none ↦ elim fresh [
    | none ↦ (c, failed io)
    | some handle ↦ (
      record c {
        entries = (key, record { mmap = handle; last_used = now; size = key.size }) ∷ c.entries;
      },
      mapped handle,
    )
  ]
]

unfoldable pub map_file : ℕ → Opening → Option ℕ → MmapCache → MmapCache × Mapping
unfolding map_key
map_file now no_file fresh c = (c, failed file_not_found)
map_file now no_metadata fresh c = (c, failed io)
map_file now (opened key) fresh c = map_key now key fresh c

-- The drop of the clone is the caller's.
unfoldable pub unmap : ℕ → MmapCache → MmapCache
unmap handle c = c

-- The test of `retain`.
unfoldable pub keeps : (ℕ → ℕ) → ℕ → ℕ → CacheEntry → Bool
keeps refs now expire_age e = ltb 1 (1 + refs e.mmap) || ltb (now - e.last_used) expire_age

unfoldable pub retain : (ℕ → ℕ) → ℕ → ℕ → List (FileKey × CacheEntry) → List (FileKey × CacheEntry)
unfolding keeps
retain refs now expire_age [] = []
retain refs now expire_age ((k, e) ∷ es) =
    let rest = retain refs now expire_age es in
    if keeps refs now expire_age e then (k, e) ∷ rest else rest

unfoldable pub total_size : List (FileKey × CacheEntry) → ℕ
total_size [] = 0
total_size ((_, e) ∷ es) = (e.size + total_size es) % 2 ^ 64

unfoldable pub adapted_age : ℕ → ℕ → ℕ → ℕ
adapted_age total max_size expire_age =
    if ltb max_size total
    then expire_age / 2
    else if ltb expire_age (120 * nanos)
    then expire_age * 2
    else expire_age

unfoldable pub cleanup : (ℕ → ℕ) → ℕ → MmapCache → MmapCache
unfolding retain total_size adapted_age
cleanup refs now c =
    let entries = retain refs now c.expire_age c.entries in
    record {
      entries = entries;
      expire_age = adapted_age (total_size entries) c.max_size c.expire_age;
      max_size = c.max_size;
    }
