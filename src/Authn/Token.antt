-- ===== src/Authn/Token.antt =====
-- What `Validate` asks of a token beside its keys (authn/validate.go). The jwt library is a
-- parameter: `Jwt` below.
pub mod Gates
use Prim.Native.Nat.{min}
use toolhive_core.Base.{
  ℕ, ◌+◌, ◌-◌, ◌*◌, ◌^◌, Bool, false, not, List, [], ◌∷◌, Option, none, some, String, str_eq, ltb,
  ◌==◌, if◌then◌else◌, any, Bytes, codes, bytes_eq, split_at, trim_space, to_lower, has_prefix,
  drop, Except,
}
use toolhive_core.Base.Int.{ℤ, pos_part, neg_part}
use toolhive_core.Authn.Types.{
  Config, Error, error, invalid_token, malformed, signature, unknown_kid, expired, not_yet_valid,
  issued_in_future, issuer, audience, expiration_missing, missing_claim, invalid_claims, lifetime,
  token_type, second,
}
use toolhive_core.Authn.Keys.{CryptoKey}

abbrev pub allowed_algs : List String
allowed_algs =
    "RS256" ∷ "RS384" ∷ "RS512" ∷ "PS256" ∷ "PS384" ∷ "PS512" ∷ "ES256" ∷ "ES384" ∷ "ES512" ∷ []

-- `slices.Contains(allowedAlgs, alg)`.
abbrev pub is_allowed_alg : String → Bool
is_allowed_alg alg = any (λ a. str_eq a alg) allowed_algs

-- The dynamic value of a claim that `issuedAt` reads: an `int64` that a `float64` truncates to, an
-- `int64`, an `int`, a `json.Number` with the integer that it parses to, or another value.
pub data IatClaim : Type 0 where
  float : ℤ → IatClaim
  int64 : ℤ → IatClaim
  int : ℤ → IatClaim
  number : Option ℤ → IatClaim
  other_value : IatClaim

-- What the code reads of a token's claims: `GetExpirationTime`, in seconds, with `none` for an error
-- or nil; `GetSubject`, with `none` for an error; and members of the claim map. `others` are the
-- members that the code hands on unread, as JSON texts.
pub record Claims : Type 0 where
  pub expiration : Option ℤ
  pub subject : Option String
  pub iat : Option IatClaim
  pub iss : Option String
  pub name : Option String
  pub others : List (String × Bytes)

pub record Principal : Type 0 where
  pub issuer : String
  pub subject : String
  pub name : String
  pub claims : Claims

unfoldable pub issued_at : Option IatClaim → Option ℤ
issued_at none = none
issued_at (some (float n)) = some n
issued_at (some (int64 n)) = some n
issued_at (some (int n)) = some n
issued_at (some (number secs)) = secs
issued_at (some other_value) = none

-- `exp.Sub(iat)`, which saturates at the largest duration; a negative one, which passes every
-- bound, is 0 here.
abbrev pub lifetime_of : ℤ → ℤ → ℕ
lifetime_of exp iat =
    min (2 ^ 63 - 1) (second * (pos_part exp + neg_part iat - (neg_part exp + pos_part iat)))

-- Whether `checkLifetime` refuses the claims.
abbrev pub outlives : ℕ → Option ℤ → Option ℤ → Bool
outlives most (some exp) (some iat) = ltb most (lifetime_of exp iat)
outlives most _ _ = false

unfoldable pub check_lifetime : Config → Claims → Option Error
unfolding issued_at
check_lifetime cfg claims =
    if cfg.max_token_lifetime == 0
    then none
    else if outlives cfg.max_token_lifetime claims.expiration (issued_at claims.iat)
    then some (error invalid_token lifetime)
    else none

unfoldable pub normalize_token_type : Bytes → Bytes
normalize_token_type typ =
    let t = to_lower (trim_space typ) in
    if has_prefix t (codes "application/") then drop 12 t else t

-- `header["typ"].(string)`, where a value of another type reads as "".
abbrev pub typ_or_empty : Option Bytes → Bytes
typ_or_empty none = []
typ_or_empty (some t) = t

unfoldable pub check_token_type : Config → Option Bytes → Option Error
unfolding normalize_token_type
check_token_type cfg typ =
    let got = normalize_token_type (typ_or_empty typ) in
    elim cfg.accepted_token_types [
      | [] ↦ none
      | accepted ∷ more ↦
          if bytes_eq got []
          then some (error invalid_token token_type)
          else if any (λ want. bytes_eq got (normalize_token_type want)) (accepted ∷ more)
          then none
          else some (error invalid_token token_type)
    ]

-- The library's errors that `mapParseError` asks for by `errors.Is`, which a joined error may
-- answer several of, and what it asks of the message.
pub data Sentinel : Type 0 where
  err_malformed err_signature_invalid err_unverifiable err_expired err_not_valid_yet : Sentinel
  err_used_before_issued err_required_claim_missing err_invalid_issuer err_invalid_audience :
      Sentinel

pub data Mention : Type 0 where
  iss_required aud_required exp_required : Mention

pub record ParseError : Type 0 where
  pub is : Sentinel → Bool
  pub mentions : Mention → Bool

missing_reason : ParseError → Error
missing_reason e =
    if e.mentions iss_required
    then error invalid_token issuer
    else if e.mentions aud_required
    then error invalid_token audience
    else if e.mentions exp_required
    then error invalid_token expiration_missing
    else error invalid_token missing_claim

-- The switch of `mapParseError`, for an error that carries no `*Error`.
unfoldable pub map_parse_error : ParseError → Bool → Error
unfolding missing_reason
map_parse_error e kid_seen =
    if e.is err_malformed
    then error invalid_token malformed
    else if e.is err_signature_invalid
    then error invalid_token signature
    else if e.is err_unverifiable
    then (if kid_seen then error invalid_token unknown_kid else error invalid_token signature)
    else if e.is err_expired
    then error invalid_token expired
    else if e.is err_not_valid_yet
    then error invalid_token not_yet_valid
    else if e.is err_used_before_issued
    then error invalid_token issued_in_future
    else if e.is err_required_claim_missing
    then missing_reason e
    else if e.is err_invalid_issuer
    then error invalid_token issuer
    else if e.is err_invalid_audience
    then error invalid_token audience
    else error invalid_token invalid_claims

-- The options that `parserOptions` sets from the configuration, beside the fixed ones.
pub record ParserOptions : Type 0 where
  pub leeway : ℕ
  pub required_issuer : Option String
  pub required_audience : List String

unfoldable pub parser_options : Config → ParserOptions
parser_options cfg = record {
  leeway = if cfg.disable_leeway then 0 else cfg.leeway;
  required_issuer = if not (str_eq cfg.issuer "") then some cfg.issuer else none;
  required_audience = cfg.audiences;
}

-- The jwt library. `decode_alg` decodes a header segment and reads its "alg"; `parse` is
-- `ParseWithClaims` up to the call of the key function, `verify` what follows it: the signature
-- under some key of the set, and the claims under the options.
pub record Jwt : Type 1 where
  pub Token : Type 0
  pub decode_alg : Bytes → Option String
  pub parse : ParserOptions → Bytes → Except ParseError Token
  pub verify : ParserOptions → Token → List CryptoKey → Option ParseError
  pub has_crit : Token → Bool
  pub typ : Token → Option Bytes
  pub kid : Token → Option String
  pub method_alg : Token → String
  pub claims : Token → Claims

unfoldable pub unverified_alg : Jwt → Bytes → Option String
unverified_alg j token = elim (split_at b'.' token) [
  | header ∷ payload ∷ sig ∷ [] ↦ j.decode_alg header
  | _ ↦ none
]
