-- ===== src/Authn/Lookup/Refresh.antt =====
-- How often the key set is fetched, and when cached keys are trusted.
use toolhive_core.Base.{
  ℕ, ◌+◌, ◌≤◌, ◌<◌, ◌≡◌, ◌≢◌, refl, true, false, List, [], ◌∷◌, Option, none, some, leb, ◌==◌,
  arith, Bool-cases, inl, inr,
}
use toolhive_core.Authn.Types.{Config, refresh_floor}
use toolhive_core.Authn.Lookup.{
  Outside, Validator, Refreshed, skipped, fetched, failed, since, refresh_once, fresh_after,
  jwks_fresh,
}

module _ (o : Outside) where
  -- The clock does not run backwards over a fetch: the reading after it is not below that before it.
  abbrev pub IsMonotone : Type 0
  IsMonotone = (w : o.World) → (o.now w).0 ≤ (o.now (o.fetch (o.now w).1).1).0

  -- The calls of `refreshOnce` over a validator's life, with the times at which those that fetched
  -- began, the latest first. The mutex puts the calls in a row; between two of them the rest of the
  -- validator and the world may change at will, but `lastRefresh` is written by `refreshOnce` alone.
  pub data Life (start : Validator o.World) : List ℕ → Validator o.World → Type 0 where
    born : Life start [] start
    other :
        {ts : List ℕ} {v : Validator o.World}
        → Life start ts v
        → (u : Validator o.World) → u.last_refresh ≡ v.last_refresh
        → Life start ts u
    skips :
        {ts : List ℕ} {v : Validator o.World}
        → Life start ts v
        → (refresh_once o v).0 ≡ skipped
        → Life start ts (refresh_once o v).1
    fetches :
        {ts : List ℕ} {v : Validator o.World}
        → Life start ts v
        → (refresh_once o v).0 ≢ skipped
        → Life start ((o.now v.world).0 ∷ ts) (refresh_once o v).1

  -- Each fetch begins at least a second after the one before it.
  abbrev pub AreSpaced : List ℕ → Type 0
  AreSpaced [] = Unit
  AreSpaced (t ∷ []) = Unit
  AreSpaced (t ∷ u ∷ ts) = (u + refresh_floor ≤ t) × AreSpaced (u ∷ ts)

  -- The last fetch began no later than `lastRefresh`.
  abbrev IsLogged : List ℕ → Option ℕ → Type 0
  IsLogged [] last = Unit
  IsLogged (t ∷ ts) none = ⊥
  IsLogged (t ∷ ts) (some last) = t ≤ last

  fresh_after_sound :
      (cfg : Config) (p : Refreshed × Validator o.World)
      → (fresh_after o cfg p).0 ≡ true
      → (w : o.World) × (since (fresh_after o cfg p).1.last_success (o.now w).0
          ≤ cfg.max_jwks_staleness)
        × ((fresh_after o cfg p).1.world ≡ (o.now w).1)
  unfolding fresh_after
  fresh_after_sound cfg (failed, v) h = cc
  fresh_after_sound cfg (skipped, v) h = (v.world, ground arith, refl)
  fresh_after_sound cfg (fetched, v) h = (v.world, ground arith, refl)

  -- With a staleness bound set, cached keys are trusted only if, at the last reading of the clock,
  -- the last successful fetch is no older than the bound.
  pub jwks_fresh_sound :
      (cfg : Config) (v : Validator o.World)
      → 0 < cfg.max_jwks_staleness
      → (jwks_fresh o cfg v).0 ≡ true
      → (w : o.World) × (since (jwks_fresh o cfg v).1.last_success (o.now w).0
          ≤ cfg.max_jwks_staleness)
        × ((jwks_fresh o cfg v).1.world ≡ (o.now w).1)
  unfolding jwks_fresh
  jwks_fresh_sound cfg v b h =
      let bounded : (cfg.max_jwks_staleness == 0) ≡ false = ground arith in
      elim (Bool-cases (leb (since v.last_success (o.now v.world).0) cfg.max_jwks_staleness)) [
        | inl young ↦ rw (bounded, young) (v.world, ground arith, refl)
        | inr old ↦ rw (bounded, old) (fresh_after_sound cfg _ (rw (bounded, old) at h))
      ]
