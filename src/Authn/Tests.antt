-- ===== src/Authn/Tests.antt =====
-- Concrete tokens, keys and validators.
use toolhive_core.Base.{
  ℕ, ◌+◌, ◌*◌, ◌≤◌, ◌≡◌, ◌≢◌, ◌↔◌, ◌⊎◌, refl, true, false, List, [], ◌∷◌, none, some, String, Bytes,
  codes, bytes_eq, split_at, trim_space, has_prefix, ok, err, All, length, arith, ltb, keep,
}
use toolhive_core.Base.Int.{pos}
use toolhive_core.Base.Dict.{lookup}
use toolhive_core.Authn.Types.{
  Config, error, invalid_token, unavailable, unknown_kid, keys_unavailable, second, reject_none,
  max_key_candidates, negative_cache_ttl, negative_cache_max_entries,
}
use toolhive_core.Authn.Bearer.{parse_bearer}
use toolhive_core.Authn.Bearer.Header.{IsBearerHeader, parse_bearer_iff}
use toolhive_core.Authn.Keys.{
  Jwk, EcKey, CryptoKey, ecdsa, curve_matches_alg, key_eligible, candidate_keys, export_candidates,
}
use toolhive_core.Authn.Keys.Strength.{IsStrongFor}
use toolhive_core.Authn.Keys.Eligible.{AllowsVerify, FitsAlg, key_eligible_iff}
use toolhive_core.Authn.Keys.Candidates.{
  is_usable, first_reason, answer, candidate_keys_lem, export-candidate_keys,
}
use toolhive_core.Authn.Provider.{PublicKey, provider_candidates}
use toolhive_core.Authn.Provider.Strength.{provider_candidates_strong}
use toolhive_core.Authn.Cache.{known_bad_kid, record_bad_kid}
use toolhive_core.Authn.Cache.Bounded.{
  IsBounded, empty-IsBounded, record_bad_kid-IsBounded, record_bad_kid_lem,
}
use toolhive_core.Authn.Lookup.{
  Outside, Validator, since, refresh_once, jwks_fresh, verification_keys, jwks_keys,
  lookup_candidates,
}
use toolhive_core.Authn.Lookup.Kept.{AreStrong, verification_keys_strong}
use toolhive_core.Authn.Lookup.Refresh.{jwks_fresh_sound}
use toolhive_core.Authn.Token.{
  Jwt, Principal, int64, unverified_alg, check_token_type, check_lifetime,
}
use toolhive_core.Authn.Validate.{validate, finish_claims}
use toolhive_core.Authn.Validate.Sound.{IsAccepted, validate_sound}
use toolhive_core.Authn.Validate.Refusals.{validate_blames, validate-IsBounded, lookup_for, Reaches}

abbrev p256 : EcKey
p256 = record { curve = some (some "P-256"); point = 7 }

abbrev good_key : Jwk
good_key = record {
  key_id = some "k1";
  key_usage = some "sig";
  key_ops = some ("sign" ∷ "verify" ∷ []);
  algorithm = none;
  key_type = "EC";
  as_rsa = none;
  as_ec = some p256;
}

abbrev bad_key : Jwk
bad_key = record good_key { key_usage = some "enc" }

candidates_test : (candidate_keys (bad_key ∷ good_key ∷ []) "k1" "ES256").0 ≡ good_key ∷ []
unfolding candidate_keys key_eligible curve_matches_alg
candidates_test = refl

key_eligible_iff_example :
    (key_eligible good_key "ES256" ≡ reject_none)
    ↔ (AllowsVerify good_key "ES256" × FitsAlg good_key "ES256")
key_eligible_iff_example = key_eligible_iff good_key "ES256"

candidate_keys_lem_example :
    candidate_keys (bad_key ∷ good_key ∷ []) "k1" "ES256"
    ≡ answer
        (keep (is_usable "k1" "ES256") (bad_key ∷ good_key ∷ []))
        (first_reason "k1" "ES256" (bad_key ∷ good_key ∷ []))
candidate_keys_lem_example = candidate_keys_lem (bad_key ∷ good_key ∷ []) "k1" "ES256"

export-candidate_keys_example :
    (raws : List CryptoKey) × (export_candidates
        (candidate_keys (bad_key ∷ good_key ∷ []) "k1" "ES256").0
        "ES256"
      ≡ ok raws)
    × All (IsStrongFor "ES256") raws
    × (length raws ≤ max_key_candidates)
export-candidate_keys_example = export-candidate_keys (bad_key ∷ good_key ∷ []) "k1" "ES256"

abbrev offered : List PublicKey
offered = record { key_id = ""; alg = ""; key = ecdsa (some p256) } ∷ []

provider_candidates_strong_example :
    All (IsStrongFor "ES256") (provider_candidates offered "k9" "ES256").0
    × (length (provider_candidates offered "k9" "ES256").0 ≤ max_key_candidates)
provider_candidates_strong_example = provider_candidates_strong offered "k9" "ES256"

parse_bearer_test : parse_bearer (codes "bEARER   abc.def") ≡ ok (codes "abc.def")
unfolding parse_bearer bytes_eq
parse_bearer_test = refl

parse_bearer_iff_example :
    (parse_bearer (codes "Bearer  abc") ≡ ok (codes "abc"))
    ↔ IsBearerHeader (codes "Bearer  abc") (codes "abc")
parse_bearer_iff_example = parse_bearer_iff (codes "Bearer  abc") (codes "abc")

record_bad_kid-IsBounded_example : IsBounded (record_bad_kid [] "k" 5)
record_bad_kid-IsBounded_example = record_bad_kid-IsBounded [] "k" 5 (λ e. cc) empty-IsBounded

record_bad_kid_lem_example :
    ((t : ℕ) → known_bad_kid (record_bad_kid [] "k" 5) "k" t ≡ ltb t (5 + negative_cache_ttl))
    × ((j : String) (u : ℕ)
        → "k" ≢ j
        → lookup {Val = ℕ} j [] ≡ some u
        → lookup j (record_bad_kid [] "k" 5) ≡ none
        → (◌≡◌ {A = ℕ} 0 negative_cache_max_entries)
          × ((i : String) (t : ℕ) → lookup {Val = ℕ} i [] ≡ some t → u ≤ t))
record_bad_kid_lem_example = record_bad_kid_lem [] "k" 5 empty-IsBounded

-- A world that is its clock: each reading takes a nanosecond, a fetch a millisecond.
abbrev outside : Outside
outside = record {
  World = ℕ;
  now = λ w. (w, w + 1);
  fetch = λ w. (true, w + 1000000);
  cached = λ w. (some (bad_key ∷ good_key ∷ []), w);
  public_keys = λ w. (none, w);
}

abbrev fresh_validator : Validator ℕ
fresh_validator = record {
  has_jwks_cache = true;
  last_refresh = none;
  last_success = some 0;
  negative_kids = [];
  world = 5 * second;
}

abbrev strict : Config
strict = record {
  issuer = "https://issuer.example";
  audiences = "api" ∷ [];
  leeway = 0;
  disable_leeway = true;
  has_key_provider = false;
  max_jwks_staleness = second;
  accepted_token_types = codes "at+jwt" ∷ [];
  max_token_lifetime = 3600 * second;
}

verification_keys_strong_example :
    AreStrong "ES256" (verification_keys outside strict "k1" "ES256" fresh_validator).0
    × IsBounded (verification_keys outside strict "k1" "ES256" fresh_validator).1.negative_kids
verification_keys_strong_example =
    verification_keys_strong outside strict "k1" "ES256" fresh_validator empty-IsBounded

unknown_test :
    (verification_keys outside strict "k2" "ES256" fresh_validator).0
    ≡ err (error invalid_token unknown_kid)
unfolding verification_keys jwks_keys refresh_once jwks_fresh lookup_candidates candidate_keys
    key_eligible known_bad_kid lookup
unknown_test = refl

abbrev later_validator : Validator ℕ
later_validator = record fresh_validator { last_refresh = some 5001000001; world = 8 * second }

is_fresh : (jwks_fresh outside strict fresh_validator).0 ≡ true
unfolding jwks_fresh refresh_once
is_fresh = refl

jwks_fresh_sound_test :
    (w : ℕ) × (since (jwks_fresh outside strict fresh_validator).1.last_success w ≤ second)
    × ((jwks_fresh outside strict fresh_validator).1.world ≡ w + 1)
jwks_fresh_sound_test = jwks_fresh_sound outside strict fresh_validator (omega arith) is_fresh

abbrev library : Jwt
library = record {
  Token = Bytes;
  decode_alg = λ s. some "ES256";
  parse = λ opts t. ok t;
  verify = λ opts t keys. none;
  has_crit = λ t. false;
  typ = λ t. some (codes "application/AT+jwt");
  kid = λ t. some "k1";
  method_alg = λ t. "ES256";
  claims = λ t. record {
    expiration = some (pos 1000);
    subject = some "alice";
    iat = some (int64 (pos 900));
    iss = some "https://issuer.example";
    name = none;
    others = ("email", codes "a@example.com") ∷ [];
  };
}

whole_path : Unit {0}
unfolding validate bytes_eq unverified_alg split_at check_token_type has_prefix trim_space
    check_lifetime finish_claims verification_keys jwks_keys jwks_fresh refresh_once
    lookup_candidates candidate_keys key_eligible curve_matches_alg export_candidates
whole_path = tt

abbrev alice : Principal
alice = record {
  issuer = "https://issuer.example";
  subject = "alice";
  name = "";
  claims = library.claims (codes "a.b.c");
}

accepts_alice : (validate outside library strict false (codes "a.b.c") fresh_validator).0 ≡ ok alice
unfolding whole_path
accepts_alice = refl

validate_sound_example : IsAccepted outside library strict false (codes "a.b.c") alice
validate_sound_example =
    validate_sound outside library strict false (codes "a.b.c") fresh_validator alice
      empty-IsBounded accepts_alice

validate-IsBounded_test :
    IsBounded
      (validate outside library strict false (codes "a.b.c") fresh_validator).1.negative_kids
validate-IsBounded_test =
    validate-IsBounded outside library strict false (codes "a.b.c") fresh_validator empty-IsBounded

-- A world without key set: the look-up fails, and the refusal says so.
abbrev cut_off : Outside
cut_off = record outside { cached = λ w. (none, w) }

refused :
    (validate cut_off library strict false (codes "a.b.c") fresh_validator).0
    ≡ err (error unavailable keys_unavailable)
unfolding whole_path
refused = refl

validate_blames_example :
    (◌≡◌ (error unavailable keys_unavailable).code invalid_token)
    ⊎ ((tok : Bytes) × Reaches cut_off library strict (codes "a.b.c") tok
        × ((lookup_for cut_off library strict tok fresh_validator).0
            ≡ err (error unavailable keys_unavailable)))
validate_blames_example =
    validate_blames cut_off library strict (codes "a.b.c") fresh_validator
      (error unavailable keys_unavailable) refused
