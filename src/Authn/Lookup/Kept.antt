-- ===== src/Authn/Lookup/Kept.antt =====
-- What every key look-up keeps: it answers only with keys that are strong enough for the token's
-- algorithm, at most eight, and leaves the negative cache bounded.
use toolhive_core.Base.{
  ℕ, ◌≤◌, ◌≡◌, ◌≢◌, refl, Bool, true, false, List, [], ◌∷◌, Option, none, some, String, str_eq,
  eq_iff, ltb, leb, ◌==◌, Except, ok, err, All, length, arith, ◌∙◌, Bool-cases, inl, inr,
  if◌then◌else◌,
}
use toolhive_core.Authn.Types.{
  Config, Error, KeyRejection, reject_none, refresh_floor, max_key_candidates,
}
use toolhive_core.Authn.Keys.{Jwk, CryptoKey, candidate_keys, export_candidates}
use toolhive_core.Authn.Keys.Strength.{IsStrongFor}
use toolhive_core.Authn.Keys.Candidates.{export-candidate_keys}
use toolhive_core.Authn.Provider.{PublicKey}
use toolhive_core.Authn.Provider.Strength.{provider_candidates_strong}
use toolhive_core.Authn.Cache.{known_bad_kid}
use toolhive_core.Authn.Cache.Bounded.{IsBounded, record_bad_kid-IsBounded}
use toolhive_core.Authn.Lookup.{
  Outside, Validator, Refreshed, skipped, fetched, failed, since, refuse_unusable, candidates_of,
  refuse_provided, provided_of, attempted, refresh_once, fresh_after, jwks_fresh, lookup_candidates,
  provider_key_set, after_second, after_refresh, unknown_key, after_first, after_fresh, jwks_keys,
  after_provider, verification_keys,
}

-- An answer that is not an error holds only strong keys, and at most eight.
abbrev pub AreStrong : String → Except Error (List CryptoKey) → Type 0
AreStrong alg (ok keys) = All (IsStrongFor alg) keys × (length keys ≤ max_key_candidates)
AreStrong alg (err e) = Unit

-- The candidates of a look-up are those of `candidateKeys` for some key set.
abbrev AreCandidates : String → String → Except Error (List Jwk) → Type 0
AreCandidates kid alg (ok keys) = (set : List Jwk) × (keys ≡ (candidate_keys set kid alg).0)
AreCandidates kid alg (err e) = Unit

refuse_unusable-AreCandidates :
    (set : List Jwk) (kid alg : String) (p : List Jwk × KeyRejection)
    → candidate_keys set kid alg ≡ p
    → AreCandidates kid alg (refuse_unusable p)
unfolding refuse_unusable
refuse_unusable-AreCandidates set kid alg (k ∷ ks, why) e = (set, rw e)
refuse_unusable-AreCandidates set kid alg ([], reject_none) e = (set, rw e)
refuse_unusable-AreCandidates set kid alg ([], why) e = tt

candidates_of-AreCandidates :
    (kid alg : String) (set : Option (List Jwk)) → AreCandidates kid alg (candidates_of kid alg set)
unfolding candidates_of
candidates_of-AreCandidates kid alg none = tt
candidates_of-AreCandidates kid alg (some set) = refuse_unusable-AreCandidates set kid alg _ refl

exported-AreStrong :
    (kid alg : String) (keys : List Jwk)
    → AreCandidates kid alg (ok keys)
    → AreStrong alg (export_candidates keys alg)
exported-AreStrong kid alg keys (set, e) =
    let (raws, same, strong, few) = export-candidate_keys set kid alg in rw (e, same) (strong, few)

module _ (o : Outside) where
  -- The two parts of what an answer keeps.
  abbrev Keeps : String → Except Error (List CryptoKey) × Validator o.World → Type 0
  Keeps alg p = AreStrong alg p.0 × IsBounded p.1.negative_kids

  attempted_kids :
      (b : Bool) (t : ℕ) (v : Validator o.World)
      → (attempted o b t v).1.negative_kids ≡ v.negative_kids
  unfolding attempted
  attempted_kids true t v = refl
  attempted_kids false t v = refl

  refresh_once_kids : (v : Validator o.World) → (refresh_once o v).1.negative_kids ≡ v.negative_kids
  unfolding refresh_once
  refresh_once_kids v =
      elim (Bool-cases (ltb (since v.last_refresh (o.now v.world).0) refresh_floor)) [
        | inl e ↦ rw e
        | inr e ↦ rw e (attempted_kids _ _ _)
      ]

  fresh_after_kids :
      (cfg : Config) (p : Refreshed × Validator o.World)
      → (fresh_after o cfg p).1.negative_kids ≡ p.1.negative_kids
  unfolding fresh_after
  fresh_after_kids cfg (failed, v) = refl
  fresh_after_kids cfg (skipped, v) = refl
  fresh_after_kids cfg (fetched, v) = refl

  jwks_fresh_kids :
      (cfg : Config) (v : Validator o.World)
      → (jwks_fresh o cfg v).1.negative_kids ≡ v.negative_kids
  unfolding jwks_fresh
  jwks_fresh_kids cfg v = elim (Bool-cases (cfg.max_jwks_staleness == 0)) [
    | inl e ↦ rw e
    | inr e ↦
        elim (Bool-cases (leb (since v.last_success (o.now v.world).0) cfg.max_jwks_staleness)) [
          | inl young ↦ rw (e, young)
          | inr old ↦ rw (e, old) (fresh_after_kids cfg _ ∙ refresh_once_kids _)
        ]
  ]

  after_second-Keeps :
      (kid alg : String) (did_fetch : Bool) (r : Except Error (List Jwk)) (v : Validator o.World)
      → kid ≢ ""
      → AreCandidates kid alg r
      → IsBounded v.negative_kids
      → Keeps alg (after_second o kid alg did_fetch (r, v))
  unfolding after_second
  after_second-Keeps kid alg b (err e) v ne c h = (tt, h)
  after_second-Keeps kid alg b (ok (k ∷ ks)) v ne c h = (exported-AreStrong kid alg (k ∷ ks) c, h)
  after_second-Keeps kid alg true (ok []) v ne c h =
      (tt, record_bad_kid-IsBounded v.negative_kids kid _ ne h)
  after_second-Keeps kid alg false (ok []) v ne c h = (tt, h)

  after_refresh-Keeps :
      (kid alg : String) (p : Refreshed × Validator o.World)
      → kid ≢ ""
      → IsBounded p.1.negative_kids
      → Keeps alg (after_refresh o kid alg p)
  unfolding after_refresh lookup_candidates
  after_refresh-Keeps kid alg (failed, v) ne h = (tt, h)
  after_refresh-Keeps kid alg (fetched, v) ne h =
      after_second-Keeps kid alg true _ _ ne (candidates_of-AreCandidates kid alg _) h
  after_refresh-Keeps kid alg (skipped, v) ne h =
      after_second-Keeps kid alg false _ _ ne (candidates_of-AreCandidates kid alg _) h

  unknown_key-Keeps :
      (kid alg : String) (v : Validator o.World)
      → kid ≢ ""
      → IsBounded v.negative_kids
      → Keeps alg (unknown_key o kid alg v)
  unfolding unknown_key
  unknown_key-Keeps kid alg v ne h =
      elim (Bool-cases (known_bad_kid v.negative_kids kid (o.now v.world).0)) [
        | inl e ↦ rw e (tt, h)
        | inr e ↦ rw e (after_refresh-Keeps kid alg _ ne (rw (refresh_once_kids _) h))
      ]

  after_first-Keeps :
      (kid alg : String) (r : Except Error (List Jwk)) (v : Validator o.World)
      → AreCandidates kid alg r
      → IsBounded v.negative_kids
      → Keeps alg (after_first o kid alg (r, v))
  unfolding after_first
  after_first-Keeps kid alg (err e) v c h = (tt, h)
  after_first-Keeps kid alg (ok (k ∷ ks)) v c h = (exported-AreStrong kid alg (k ∷ ks) c, h)
  after_first-Keeps kid alg (ok []) v c h = elim (Bool-cases (str_eq kid "")) [
    | inl e ↦ rw e (exported-AreStrong kid alg [] c, h)
    | inr e ↦ rw e (unknown_key-Keeps kid alg v (ground (arith, eq_iff kid "")) h)
  ]

  after_fresh-Keeps :
      (kid alg : String) (p : Bool × Validator o.World)
      → IsBounded p.1.negative_kids
      → Keeps alg (after_fresh o kid alg p)
  unfolding after_fresh lookup_candidates
  after_fresh-Keeps kid alg (false, v) h = (tt, h)
  after_fresh-Keeps kid alg (true, v) h =
      after_first-Keeps kid alg _ _ (candidates_of-AreCandidates kid alg _) h

  jwks_keys-Keeps :
      (cfg : Config) (kid alg : String) (v : Validator o.World)
      → IsBounded v.negative_kids
      → Keeps alg (jwks_keys o cfg kid alg v)
  unfolding jwks_keys
  jwks_keys-Keeps cfg kid alg v h = after_fresh-Keeps kid alg _ (rw (jwks_fresh_kids cfg v) h)

  -- What the provider offers for the token, if it is taken.
  abbrev AreOffered : String → Except Error (Option (List CryptoKey)) → Type 0
  AreOffered alg (ok (some keys)) = AreStrong alg (ok keys)
  AreOffered alg _ = Unit

  provided_of-AreOffered :
      (b : Bool) (kid alg : String) (keys : Option (List PublicKey))
      → AreOffered alg (provided_of b kid alg keys)
  unfolding provided_of
  provided_of-AreOffered b kid alg none = tt
  provided_of-AreOffered b kid alg (some keys) =
      offered b _ (provider_candidates_strong keys kid alg)
    where
      offered :
          (b : Bool) (p : List CryptoKey × KeyRejection)
          → All (IsStrongFor alg) p.0 × (length p.0 ≤ max_key_candidates)
          → AreOffered alg (refuse_provided b p)
      offered b (k ∷ ks, why) h = h
      offered true ([], reject_none) h = tt
      offered false ([], reject_none) h = tt
      offered b ([], why) h = tt

  after_provider-Keeps :
      (cfg : Config) (kid alg : String) (r : Except Error (Option (List CryptoKey)))
      (v : Validator o.World)
      → AreOffered alg r
      → IsBounded v.negative_kids
      → Keeps alg (after_provider o cfg kid alg (r, v))
  unfolding after_provider
  after_provider-Keeps cfg kid alg (err e) v a h = (tt, h)
  after_provider-Keeps cfg kid alg (ok (some keys)) v a h = (a, h)
  after_provider-Keeps cfg kid alg (ok none) v a h = jwks_keys-Keeps cfg kid alg v h

  -- From a validator whose negative cache is bounded, the look-up of a token's keys leaves it
  -- bounded, and either fails or answers with at most eight keys, from the provider or from the key
  -- set, each of the type that the token's algorithm needs and strong enough for it.
  pub verification_keys_strong :
      (cfg : Config) (kid alg : String) (v : Validator o.World)
      → IsBounded v.negative_kids
      → AreStrong alg (verification_keys o cfg kid alg v).0
        × IsBounded (verification_keys o cfg kid alg v).1.negative_kids
  unfolding verification_keys provider_key_set
  verification_keys_strong cfg kid alg v h = either cfg.has_key_provider
    where
      either :
          (b : Bool)
          → Keeps alg (
              if b
              then after_provider o cfg kid alg (provider_key_set o kid alg v)
              else jwks_keys o cfg kid alg v)
      either true =
          after_provider-Keeps cfg kid alg _ _ (provided_of-AreOffered v.has_jwks_cache kid alg _) h
      either false = jwks_keys-Keeps cfg kid alg v h
