-- ===== src/Authn/Lookup.antt =====
-- Key lookup for a token (authn/validate.go: `verificationKeys` and what it calls). The JWKS cache,
-- the key provider and the clock are parameters, whose effects pass through a world; cancelled
-- contexts are among their errors.
pub mod Kept
pub mod Refresh
use toolhive_core.Base.{
  ℕ, ◌-◌, ◌^◌, Bool, true, false, not, ◌&&◌, List, [], ◌∷◌, Option, none, some, String, str_eq, ltb,
  leb, ◌==◌, if◌then◌else◌, Except, ok, err,
}
use toolhive_core.Authn.Types.{
  Error, error, invalid_token, unavailable, keys_stale, keys_unavailable, unknown_kid,
  key_unsupported, Config, KeyRejection, reject_none, is_none, refresh_floor,
}
use toolhive_core.Authn.Keys.{Jwk, CryptoKey, candidate_keys, export_candidates}
use toolhive_core.Authn.Provider.{PublicKey, provider_candidates}
use toolhive_core.Authn.Cache.{Kids, known_bad_kid, record_bad_kid}

-- `now` is `time.Now` on the monotonic clock, in nanoseconds; `fetch` is `jwksCache.Refresh`, and
-- whether it succeeds; `cached` is `jwksCache.Lookup`, and `public_keys` the host's provider, with
-- `none` for an error.
pub record Outside : Type 1 where
  pub World : Type 0
  pub now : World → ℕ × World
  pub fetch : World → Bool × World
  pub cached : World → Option (List Jwk) × World
  pub public_keys : World → Option (List PublicKey) × World

-- The mutable part of a `Validator`; `none` is the zero time. `has_jwks_cache` is
-- `jwksCache != nil`.
pub record Validator (World : Type 0) : Type 0 where
  pub has_jwks_cache : Bool
  pub last_refresh : Option ℕ
  pub last_success : Option ℕ
  pub negative_kids : Kids
  pub world : World

-- `time.Since`, which saturates at the zero time.
abbrev pub since : Option ℕ → ℕ → ℕ
since none now = 2 ^ 63 - 1
since (some t) now = now - t

-- What `refreshOnce` returns: (false, nil), (true, nil), or (true, err).
pub data Refreshed : Type 0 where
  skipped fetched failed : Refreshed

abbrev pub is_failed : Refreshed → Bool
is_failed failed = true
is_failed _ = false

abbrev pub is_fetched : Refreshed → Bool
is_fetched fetched = true
is_fetched _ = false

-- No key, for a reason, is an error; no key for no reason is left to the caller.
refuse_unusable : List Jwk × KeyRejection → Except Error (List Jwk)
refuse_unusable ([], why) =
    if not (is_none why) then err (error invalid_token key_unsupported) else ok []
refuse_unusable (k ∷ ks, why) = ok (k ∷ ks)

-- `lookupCandidates`, on what the cache answers.
candidates_of : String → String → Option (List Jwk) → Except Error (List Jwk)
unfolding refuse_unusable
candidates_of kid alg none = err (error unavailable keys_unavailable)
candidates_of kid alg (some set) = refuse_unusable (candidate_keys set kid alg)

-- `providerKeySet`, on what the provider answers; `ok none` is "not handled".
refuse_provided : Bool → List CryptoKey × KeyRejection → Except Error (Option (List CryptoKey))
refuse_provided has_cache (k ∷ ks, why) = ok (some (k ∷ ks))
refuse_provided has_cache ([], why) =
    if not (is_none why)
    then err (error invalid_token key_unsupported)
    else if not has_cache
    then err (error invalid_token unknown_kid)
    else ok none

provided_of :
    Bool → String → String → Option (List PublicKey) → Except Error (Option (List CryptoKey))
unfolding refuse_provided
provided_of has_cache kid alg none = err (error unavailable keys_unavailable)
provided_of has_cache kid alg (some keys) =
    refuse_provided has_cache (provider_candidates keys kid alg)

module _ (o : Outside) where
  -- Reading the clock.
  abbrev pub read_clock : Validator o.World → ℕ × Validator o.World
  read_clock v = let (t, w) = o.now v.world in (t, record v { world = w })

  -- The end of an attempt, at time `t`: `lastRefresh` always, `lastSuccess` only if it succeeded.
  attempted : Bool → ℕ → Validator o.World → Refreshed × Validator o.World
  attempted true t v = (fetched, record v { last_refresh = some t; last_success = some t })
  attempted false t v = (failed, record v { last_refresh = some t })

  fetch_now : Validator o.World → Refreshed × Validator o.World
  unfolding attempted
  fetch_now v =
      let (succeeded, w) = o.fetch v.world in
      let (t, v') = read_clock (record v { world = w }) in attempted succeeded t v'

  unfoldable pub refresh_once : Validator o.World → Refreshed × Validator o.World
  unfolding fetch_now
  refresh_once v =
      let (t, v') = read_clock v in
      if ltb (since v.last_refresh t) refresh_floor then (skipped, v') else fetch_now v'

  unfoldable pub staleness : Validator o.World → ℕ × Validator o.World
  staleness v = let (t, v') = read_clock v in (since v.last_success t, v')

  -- After the refresh: an error is not fresh, and otherwise the age is read again.
  fresh_after : Config → Refreshed × Validator o.World → Bool × Validator o.World
  unfolding staleness
  fresh_after cfg (failed, v) = (false, v)
  fresh_after cfg (_, v) = let (age, v') = staleness v in (leb age cfg.max_jwks_staleness, v')

  unfoldable pub jwks_fresh : Config → Validator o.World → Bool × Validator o.World
  unfolding staleness fresh_after
  jwks_fresh cfg v =
      if cfg.max_jwks_staleness == 0
      then (true, v)
      else (let (age, v') = staleness v in
          if leb age cfg.max_jwks_staleness then (true, v') else fresh_after cfg (refresh_once v'))

  unfoldable pub lookup_candidates :
      String → String → Validator o.World → Except Error (List Jwk) × Validator o.World
  unfolding candidates_of
  lookup_candidates kid alg v =
      let (set, w) = o.cached v.world in (candidates_of kid alg set, record v { world = w })

  unfoldable pub provider_key_set :
      String
      → String
      → Validator o.World
      → Except Error (Option (List CryptoKey)) × Validator o.World
  unfolding provided_of
  provider_key_set kid alg v =
      let (keys, w) = o.public_keys v.world in
      (provided_of v.has_jwks_cache kid alg keys, record v { world = w })

  abbrev Answer : Type 0
  Answer = Except Error (List CryptoKey) × Validator o.World

  -- After the look-up that follows a refresh; the flag says whether it fetched.
  after_second : String → String → Bool → Except Error (List Jwk) × Validator o.World → Answer
  after_second kid alg did_fetch (err e, v) = (err e, v)
  after_second kid alg did_fetch (ok (k ∷ ks), v) = (export_candidates (k ∷ ks) alg, v)
  after_second kid alg true (ok [], v) =
      let (t, v') = read_clock v in
      (
        err (error invalid_token unknown_kid),
        record v' { negative_kids = record_bad_kid v.negative_kids kid t },
      )
  after_second kid alg false (ok [], v) = (err (error invalid_token unknown_kid), v)

  -- After the refresh for an unknown key id.
  after_refresh : String → String → Refreshed × Validator o.World → Answer
  unfolding after_second
  after_refresh kid alg (failed, v) = (err (error unavailable keys_unavailable), v)
  after_refresh kid alg (fetched, v) = after_second kid alg true (lookup_candidates kid alg v)
  after_refresh kid alg (skipped, v) = after_second kid alg false (lookup_candidates kid alg v)

  unknown_key : String → String → Validator o.World → Answer
  unfolding after_refresh
  unknown_key kid alg v =
      let (t, v') = read_clock v in
      if known_bad_kid v.negative_kids kid t
      then (err (error invalid_token unknown_kid), v')
      else after_refresh kid alg (refresh_once v')

  after_first : String → String → Except Error (List Jwk) × Validator o.World → Answer
  unfolding unknown_key
  after_first kid alg (err e, v) = (err e, v)
  after_first kid alg (ok (k ∷ ks), v) = (export_candidates (k ∷ ks) alg, v)
  after_first kid alg (ok [], v) =
      if not (str_eq kid "") then unknown_key kid alg v else (export_candidates [] alg, v)

  after_fresh : String → String → Bool × Validator o.World → Answer
  unfolding after_first
  after_fresh kid alg (false, v) = (err (error unavailable keys_stale), v)
  after_fresh kid alg (true, v) = after_first kid alg (lookup_candidates kid alg v)

  -- The JWKS half of `verificationKeys`.
  unfoldable pub jwks_keys : Config → String → String → Validator o.World → Answer
  unfolding after_fresh
  jwks_keys cfg kid alg v = after_fresh kid alg (jwks_fresh cfg v)

  after_provider :
      Config → String → String → Except Error (Option (List CryptoKey)) × Validator o.World → Answer
  after_provider cfg kid alg (err e, v) = (err e, v)
  after_provider cfg kid alg (ok (some keys), v) = (ok keys, v)
  after_provider cfg kid alg (ok none, v) = jwks_keys cfg kid alg v

  unfoldable pub verification_keys : Config → String → String → Validator o.World → Answer
  unfolding after_provider
  verification_keys cfg kid alg v =
      if cfg.has_key_provider
      then after_provider cfg kid alg (provider_key_set kid alg v)
      else jwks_keys cfg kid alg v
