-- ===== src/Authn/Validate.antt =====
-- `Validate` (authn/validate.go): a token's checks in their order.
pub mod Sound
pub mod Refusals
use toolhive_core.Base.{
  ℕ, Bool, true, false, not, List, [], ◌∷◌, Option, none, some, String, str_eq, ltb, if◌then◌else◌,
  length, Bytes, bytes_eq, Except, ok, err,
}
use toolhive_core.Authn.Types.{
  Config, Error, error, invalid_token, unavailable, keys_unavailable, malformed, unsupported_alg,
  critical_header, subject, max_token_length,
}
use toolhive_core.Authn.Keys.{CryptoKey}
use toolhive_core.Authn.Lookup.{Outside, Validator, verification_keys}
use toolhive_core.Authn.Token.{
  Jwt, ParseError, Principal, Claims, is_allowed_alg, unverified_alg, parser_options,
  check_token_type, check_lifetime, map_parse_error,
}

-- `claims[name].(string)`, where a value of another type reads as "".
abbrev pub string_claim : Option String → String
string_claim none = ""
string_claim (some s) = s

-- The checks on the claims once the signature holds.
finish_subject : Claims → Option String → Except Error Principal
finish_subject claims none = err (error invalid_token subject)
finish_subject claims (some sub) =
    if str_eq sub ""
    then err (error invalid_token subject)
    else ok (record {
      issuer = string_claim claims.iss;
      subject = sub;
      name = string_claim claims.name;
      claims = claims;
    })

unfoldable pub finish_claims : Config → Claims → Except Error Principal
unfolding finish_subject
finish_claims cfg claims = elim (check_lifetime cfg claims) [
  | some e ↦ err e
  | none ↦ finish_subject claims claims.subject
]

module _ (o : Outside) (j : Jwt) where
  abbrev Answer : Type 0
  Answer = Except Error Principal × Validator o.World

  -- After the key function has answered: its error is passed on, and otherwise the library verifies
  -- the token under the keys.
  after_keys : Config → j.Token → Except Error (List CryptoKey) × Validator o.World → Answer
  after_keys cfg tok (err e, v) = (err e, v)
  after_keys cfg tok (ok keys, v) = elim (j.verify (parser_options cfg) tok keys) [
    | some e ↦ (err (map_parse_error e (not (str_eq (string_claim (j.kid tok)) ""))), v)
    | none ↦ (finish_claims cfg (j.claims tok), v)
  ]

  -- The key function: the critical header, the type, then the keys.
  after_parse : Config → Except ParseError j.Token → Validator o.World → Answer
  unfolding after_keys
  after_parse cfg (err e) v = (err (map_parse_error e false), v)
  after_parse cfg (ok tok) v =
      if j.has_crit tok
      then (err (error invalid_token critical_header), v)
      else elim (check_token_type cfg (j.typ tok)) [
        | some e ↦ (err e, v)
        | none ↦
            after_keys cfg tok
              (verification_keys o cfg (string_claim (j.kid tok)) (j.method_alg tok) v)
      ]

  after_alg : Config → Bytes → Option String → Validator o.World → Answer
  unfolding after_parse
  after_alg cfg token none v = (err (error invalid_token malformed), v)
  after_alg cfg token (some alg) v =
      if not (is_allowed_alg alg)
      then (err (error invalid_token unsupported_alg), v)
      else after_parse cfg (j.parse (parser_options cfg) token) v

  -- `closed` is whether the validator's context is done.
  unfoldable pub validate : Config → Bool → Bytes → Validator o.World → Answer
  unfolding after_alg
  validate cfg closed token v =
      if closed
      then (err (error unavailable keys_unavailable), v)
      else if bytes_eq token []
      then (err (error invalid_token malformed), v)
      else if ltb max_token_length (length token)
      then (err (error invalid_token malformed), v)
      else after_alg cfg token (unverified_alg j token) v
