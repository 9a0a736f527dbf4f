-- ===== src/Authn/Cache.antt =====
-- The negative cache of key ids (authn/validate.go: `knownBadKID`, `recordBadKID`). Times are
-- nanoseconds of one clock; the map's order of iteration is that of the list.
pub mod Bounded
use toolhive_core.Base.{
  ℕ, ◌+◌, Bool, true, false, ◌||◌, List, [], ◌∷◌, Option, none, some, String, str_eq, ltb, leb,
  if◌then◌else◌, length,
}
use toolhive_core.Base.Dict.{lookup, insert, delete}
use toolhive_core.Authn.Types.{negative_cache_ttl, negative_cache_max_entries}

abbrev pub Kids : Type 0
Kids = List (String × ℕ)

unfoldable pub known_bad_kid : Kids → String → ℕ → Bool
known_bad_kid kids kid now = elim (lookup kid kids) [ none ↦ false | some expiry ↦ ltb now expiry ]

-- One round of the loop that looks for the oldest entry: the oldest so far, and the next entry.
unfoldable pub older : String × ℕ → String × ℕ → String × ℕ
older (kid, oldest) (k, expiry) =
    if str_eq kid "" || ltb expiry oldest then (k, expiry) else (kid, oldest)

unfoldable pub oldest_from : String × ℕ → Kids → String × ℕ
oldest_from p [] = p
oldest_from p (q ∷ kids) = oldest_from (older p q) kids

-- The zero values of the two variables before the loop.
unfoldable pub oldest_kid : Kids → String
unfolding oldest_from
oldest_kid kids = (oldest_from ("", 0) kids).0

unfoldable pub record_bad_kid : Kids → String → ℕ → Kids
record_bad_kid kids kid now =
    let evicted =
      if leb negative_cache_max_entries (length kids)
      then delete (oldest_kid kids) kids
      else kids in
    insert kid (now + negative_cache_ttl) evicted
