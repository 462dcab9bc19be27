-- ===== src/Cache/Keeps.antt =====
-- What the clean-up keeps, and what a second request for a file gets.
use thttpd_rs.Base.{
  ℕ, ◌-◌, ◌*◌, ◌≡◌, ◌<◌, refl, ◌∙◌, ap, true, List, [], ◌∷◌, Option, some, ◌⊎◌, inl, inr, arith,
  ==_iff, Bool-cases, Option-cases, All,
}
use thttpd_rs.Base.Int.{ℤ, pos, negsuc, eqb_ℤ}
use thttpd_rs.Base.{◌==◌}
use thttpd_rs.Cache.{
  FileKey, CacheEntry, MmapCache, mapped, nanos, same_key, find_entry, touch, map_key, keeps,
  retain, adapted_age, cleanup,
}

pub IsKept : (ℕ → ℕ) → ℕ → ℕ → CacheEntry → Type 0
IsKept refs now age e = (0 < refs e.mmap) ⊎ (now - e.last_used < age)

keeps_kept :
    (refs : ℕ → ℕ) (now age : ℕ) (e : CacheEntry)
    → IsKept refs now age e
    → keeps refs now age e ≡ true
unfolding keeps IsKept
keeps_kept refs now age e h = ground arith

some-injective {ℓ} : {A : Type ℓ} {a b : A} → some a ≡ some b → a ≡ b
some-injective e = cc

find_entry-retain :
    (refs : ℕ → ℕ) (now age : ℕ) (key : FileKey) (e : CacheEntry) (es : List (FileKey × CacheEntry))
    → find_entry key es ≡ some e
    → IsKept refs now age e
    → find_entry key (retain refs now age es) ≡ some e
unfolding find_entry retain
find_entry-retain refs now age key e [] h k = absurd (cc)
find_entry-retain refs now age key e ((n, f) ∷ es) h k = elim (Bool-cases (same_key n key)) [
  | inl s ↦
      let same : f ≡ e = some-injective (rw s at h) in
      let kept : keeps refs now age f ≡ true = rw same (keeps_kept refs now age e k) in
      rw (kept, s) (rw s at h)
  | inr s ↦
      let rest : find_entry key es ≡ some e = rw s at h in
      elim (Bool-cases (keeps refs now age f)) [
        | inl t ↦ rw (t, s) (find_entry-retain refs now age key e es rest k)
        | inr t ↦ rw t (find_entry-retain refs now age key e es rest k)
      ]
]

keeps-IsKept :
    (refs : ℕ → ℕ) (now age : ℕ) (e : CacheEntry)
    → keeps refs now age e ≡ true
    → IsKept refs now age e
unfolding keeps IsKept
keeps-IsKept refs now age e h = ground arith

retain-IsKept :
    (refs : ℕ → ℕ) (now age : ℕ) (es : List (FileKey × CacheEntry))
    → All (λ p. IsKept refs now age p.1) (retain refs now age es)
unfolding retain
retain-IsKept refs now age [] = tt
retain-IsKept refs now age ((n, f) ∷ es) = elim (Bool-cases (keeps refs now age f)) [
  | inl e ↦ rw e (keeps-IsKept refs now age f e, retain-IsKept refs now age es)
  | inr e ↦ rw e (retain-IsKept refs now age es)
]

-- The clean-up keeps every entry that a connection holds or that has not expired, under its key, and
-- keeps no other.
pub cleanup-IsKept :
    (refs : ℕ → ℕ) (now : ℕ) (c : MmapCache)
    → ((key : FileKey) (e : CacheEntry)
        → find_entry key c.entries ≡ some e
        → IsKept refs now c.expire_age e
        → find_entry key (cleanup refs now c).entries ≡ some e)
      × All (λ p. IsKept refs now c.expire_age p.1) (cleanup refs now c).entries
unfolding cleanup
cleanup-IsKept refs now c = (
  λ key e h k. find_entry-retain refs now c.expire_age key e c.entries h k,
  retain-IsKept refs now c.expire_age c.entries,
)

eqb_ℤ_refl : (a : ℤ) → eqb_ℤ a a ≡ true
eqb_ℤ_refl (pos n) = ground arith
eqb_ℤ_refl (negsuc n) = ground arith

==_refl : (n : ℕ) → (n == n) ≡ true
==_refl n = (==_iff n n).1 refl

same_key_refl : (k : FileKey) → same_key k k ≡ true
unfolding same_key
same_key_refl k =
    rw
      (
        ==_refl k.dev,
        ==_refl k.ino,
        ==_refl k.size,
        eqb_ℤ_refl k.ctime_sec,
        eqb_ℤ_refl k.ctime_nsec,
      )
      refl

find_entry-touch :
    (key : FileKey) (now : ℕ) (e : CacheEntry) (es : List (FileKey × CacheEntry))
    → find_entry key es ≡ some e
    → find_entry key (touch key now es) ≡ some (record e { last_used = now })
unfolding find_entry touch
find_entry-touch key now e [] h = absurd (cc)
find_entry-touch key now e ((n, f) ∷ es) h = elim (Bool-cases (same_key n key)) [
  | inl s ↦ let same : f ≡ e = some-injective (rw s at h) in rw (s, s, same) refl
  | inr s ↦ rw (s, s) (find_entry-touch key now e es (rw s at h))
]

mapped-injective : {a b : ℕ} → mapped a ≡ mapped b → a ≡ b
mapped-injective e = cc

-- A key for which a mapping was returned is in the cache with it.
find_entry-map_key :
    (now : ℕ) (key : FileKey) (fresh : Option ℕ) (c : MmapCache) (handle : ℕ)
    → (map_key now key fresh c).1 ≡ mapped handle
    → (e : CacheEntry) × ((find_entry key (map_key now key fresh c).0.entries ≡ some e)
        × (e.mmap ≡ handle))
unfolding map_key
find_entry-map_key now key fresh c handle h = elim (Option-cases (find_entry key c.entries)) [
  | inr (e, f) ↦
      let same : e.mmap ≡ handle = mapped-injective (rw (f, map_key) at h) in
      (
        record e { last_used = now },
        (rw (f, map_key) (find_entry-touch key now e c.entries f), same),
      )
  | inl f ↦ elim (Option-cases fresh) [
    | inl g ↦ absurd (cc (rw (f, g, map_key) at h))
    | inr (hd, g) ↦
        let same : hd ≡ handle = mapped-injective (rw (f, g, map_key) at h) in
        (
          record { mmap = hd; last_used = now; size = key.size },
          (rw (f, g, map_key) (unfold find_entry in rw (same_key_refl key) refl), same),
        )
  ]
]

map_key-find_entry :
    (now : ℕ) (key : FileKey) (fresh : Option ℕ) (c : MmapCache) (e : CacheEntry)
    → find_entry key c.entries ≡ some e
    → (map_key now key fresh c).1 ≡ mapped e.mmap
unfolding map_key
map_key-find_entry now key fresh c e f = rw (f, map_key) refl

-- While a connection holds a mapping, a file with the same key is served from it, behind a clean-up at
-- any time, whatever the system would answer.
pub map_key-cleanup :
    (now later last handle : ℕ) (key : FileKey) (fresh other : Option ℕ) (refs : ℕ → ℕ)
    (c : MmapCache)
    → (map_key now key fresh c).1 ≡ mapped handle
    → 0 < refs handle
    → (map_key last key other (cleanup refs later (map_key now key fresh c).0)).1 ≡ mapped handle
map_key-cleanup now later last handle key fresh other refs c h used =
    let before = (map_key now key fresh c).0 in
    let (e, (found, same)) = find_entry-map_key now key fresh c handle h in
    let still =
      (cleanup-IsKept refs later before).0 key e found (unfold IsKept in inl (rw same used)) in
    map_key-find_entry last key other (cleanup refs later before) e still ∙ ap mapped same

-- The age at which entries expire stays under 240 seconds.
pub cleanup_age :
    (refs : ℕ → ℕ) (now : ℕ) (c : MmapCache)
    → c.expire_age < 240 * nanos
    → (cleanup refs now c).expire_age < 240 * nanos
unfolding cleanup adapted_age
cleanup_age refs now c h = ground arith
