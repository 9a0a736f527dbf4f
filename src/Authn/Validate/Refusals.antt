-- ===== src/Authn/Validate/Refusals.antt =====
-- When a refusal blames the key material rather than the token, and what a validation leaves.
use toolhive_core.Base.{
  ◌≡◌, ◌≢◌, ◌≤◌, bytes_eq_iff, refl, ap, Bool, true, false, List, [], Option, none, some, String,
  str_eq, ltb, length, Bytes, bytes_eq, Except, ok, err, arith, Bool-cases, Option-cases, inl, inr,
  ◌⊎◌,
}
use toolhive_core.Authn.Types.{Config, Error, invalid_token, max_token_length}
use toolhive_core.Authn.Keys.{CryptoKey}
use toolhive_core.Authn.Cache.Bounded.{IsBounded}
use toolhive_core.Authn.Lookup.{Outside, Validator, verification_keys}
use toolhive_core.Authn.Lookup.Kept.{verification_keys_strong}
use toolhive_core.Authn.Token.{
  Jwt, ParseError, Principal, Claims, is_allowed_alg, unverified_alg, parser_options,
  check_token_type, check_lifetime, map_parse_error,
}
use toolhive_core.Authn.Token.Gates.{IsAcceptedType, check_token_type-IsAcceptedType}
use toolhive_core.Authn.Validate.{
  string_claim, finish_subject, finish_claims, after_keys, after_parse, after_alg, validate,
}

map_parse_error-code : (e : ParseError) (b : Bool) → (map_parse_error e b).code ≡ invalid_token
unfolding map_parse_error
map_parse_error-code e b = ground arith

check_lifetime-code :
    (cfg : Config) (claims : Claims) {e : Error}
    → check_lifetime cfg claims ≡ some e
    → e.code ≡ invalid_token
unfolding check_lifetime
check_lifetime-code cfg claims h = ground arith

check_token_type-code :
    (cfg : Config) (typ : Option Bytes) {e : Error}
    → check_token_type cfg typ ≡ some e
    → e.code ≡ invalid_token
unfolding check_token_type
check_token_type-code cfg typ h = ground arith

-- An answer that does not blame the key material.
abbrev IsNotUnavailable : Except Error Principal → Type 0
IsNotUnavailable (ok p) = Unit
IsNotUnavailable (err e) = e.code ≡ invalid_token

finish_claims-code : (cfg : Config) (claims : Claims) → IsNotUnavailable (finish_claims cfg claims)
unfolding finish_claims
finish_claims-code cfg claims =
    of_parts (check_lifetime cfg claims) claims.subject (λ e h. check_lifetime-code cfg claims h)
  where
    of_parts :
        (late : Option Error) (sub : Option String)
        → ((e : Error) → late ≡ some e → e.code ≡ invalid_token)
        → IsNotUnavailable (elim late [ some e ↦ err e | none ↦ finish_subject claims sub ])
    of_parts (some e) sub h = h e refl
    of_parts none none h = refl
    of_parts none (some x) h = elim (Bool-cases (str_eq x "")) [
      | inl e ↦ rw e refl
      | inr e ↦ rw e tt
    ]

module _ (o : Outside) (j : Jwt) where
  -- The look-up of keys that a validation may make.
  abbrev pub lookup_for :
      Config → j.Token → Validator o.World → Except Error (List CryptoKey) × Validator o.World
  lookup_for cfg tok v = verification_keys o cfg (string_claim (j.kid tok)) (j.method_alg tok) v

  -- The token has passed every test that comes before the look-up of its keys.
  pub record Reaches (cfg : Config) (token : Bytes) (tok : j.Token) : Type 0 where
    pub nonempty : token ≢ []
    pub short : length token ≤ max_token_length
    pub alg : String
    pub alg_read : unverified_alg j token ≡ some alg
    pub alg_allowed : is_allowed_alg alg ≡ true
    pub parses : j.parse (parser_options cfg) token ≡ ok tok
    pub no_crit : j.has_crit tok ≡ false
    pub typ_accepted : IsAcceptedType cfg.accepted_token_types (j.typ tok)

  -- An answer that blames the key material comes from the look-up of the keys of a token that is as
  -- `Q` says.
  abbrev Blames : Config → (j.Token → Type 0) → Validator o.World → Except Error Principal → Type 0
  Blames cfg Q v (ok p) = Unit
  Blames cfg Q v (err e) =
      (e.code ≡ invalid_token) ⊎ ((tok : j.Token) × Q tok × ((lookup_for cfg tok v).0 ≡ err e))

  -- A validation leaves the validator as it was, or as a look-up of keys leaves it.
  abbrev Leaves : Config → Validator o.World → Validator o.World → Type 0
  Leaves cfg v u = (u ≡ v) ⊎ ((tok : j.Token) × (u ≡ (lookup_for cfg tok v).1))

  after_keys-Blames :
      (cfg : Config) (Q : j.Token → Type 0) (tok : j.Token) (v : Validator o.World)
      → Q tok
      → Blames cfg Q v (after_keys o j cfg tok (lookup_for cfg tok v)).0
        × ((after_keys o j cfg tok (lookup_for cfg tok v)).1 ≡ (lookup_for cfg tok v).1)
  unfolding after_keys
  after_keys-Blames cfg Q tok v reached = of_answer (lookup_for cfg tok v) refl
    where
      code_first : (r : Except Error Principal) → IsNotUnavailable r → Blames cfg Q v r
      code_first (ok p) h = tt
      code_first (err e) h = inl h

      of_answer :
          (p : Except Error (List CryptoKey) × Validator o.World)
          → lookup_for cfg tok v ≡ p
          → Blames cfg Q v (after_keys o j cfg tok p).0 × ((after_keys o j cfg tok p).1 ≡ p.1)
      of_answer (err e, u) s = (
        inr (tok, reached, ap (λ (q : Except Error (List CryptoKey) × Validator o.World). q.0) s),
        refl,
      )
      of_answer (ok keys, u) s = elim (Option-cases (j.verify (parser_options cfg) tok keys)) [
        | inl fine ↦
            rw (fine, after_keys) (code_first _ (finish_claims-code cfg (j.claims tok)), refl)
        | inr (e, bad) ↦ rw (bad, after_keys) (inl (map_parse_error-code e _), refl)
      ]

  after_parse-Blames :
      (cfg : Config) (Q : j.Token → Type 0) (r : Except ParseError j.Token) (v : Validator o.World)
      → ((tok : j.Token)
          → r ≡ ok tok
          → j.has_crit tok ≡ false
          → IsAcceptedType cfg.accepted_token_types (j.typ tok)
          → Q tok)
      → Blames cfg Q v (after_parse o j cfg r v).0 × Leaves cfg v (after_parse o j cfg r v).1
  unfolding after_parse
  after_parse-Blames cfg Q (err e) v reach = (inl (map_parse_error-code e false), inl refl)
  after_parse-Blames cfg Q (ok tok) v reach = elim (Bool-cases (j.has_crit tok)) [
    | inl crit ↦ rw crit (inl refl, inl refl)
    | inr no_crit ↦ elim (Option-cases (check_token_type cfg (j.typ tok))) [
      | inr (e, refused) ↦
          rw (no_crit, refused, after_parse)
            (inl (check_token_type-code cfg (j.typ tok) refused), inl refl)
      | inl fine ↦
          let (blames, left) =
            after_keys-Blames cfg Q tok v
              (reach tok refl no_crit (check_token_type-IsAcceptedType cfg (j.typ tok) fine)) in
          rw (no_crit, fine, after_parse) (blames, inr (tok, left))
    ]
  ]

  after_alg-Blames :
      (cfg : Config) (Q : j.Token → Type 0) (token : Bytes) (alg : Option String)
      (v : Validator o.World)
      → ((a : String) (tok : j.Token)
          → alg ≡ some a
          → is_allowed_alg a ≡ true
          → j.parse (parser_options cfg) token ≡ ok tok
          → j.has_crit tok ≡ false
          → IsAcceptedType cfg.accepted_token_types (j.typ tok)
          → Q tok)
      → Blames cfg Q v (after_alg o j cfg token alg v).0
        × Leaves cfg v (after_alg o j cfg token alg v).1
  unfolding after_alg
  after_alg-Blames cfg Q token none v reach = (inl refl, inl refl)
  after_alg-Blames cfg Q token (some alg) v reach = elim (Bool-cases (is_allowed_alg alg)) [
    | inl allowed ↦ rw allowed (after_parse-Blames cfg Q _ v (λ tok. reach alg tok refl allowed))
    | inr not_allowed ↦ rw not_allowed (inl refl, inl refl)
  ]

  open_validate-Blames :
      (cfg : Config) (token : Bytes) (v : Validator o.World)
      → Blames cfg (Reaches cfg token) v (validate o j cfg false token v).0
        × Leaves cfg v (validate o j cfg false token v).1
  unfolding validate
  open_validate-Blames cfg token v = elim (Bool-cases (bytes_eq token [])) [
    | inl e ↦ rw e (inl refl, inl refl)
    | inr ne ↦ elim (Bool-cases (ltb max_token_length (length token))) [
      | inl long ↦ rw (ne, long) (inl refl, inl refl)
      | inr short ↦
          rw (ne, short)
            (after_alg-Blames cfg (Reaches cfg token) token (unverified_alg j token) v
              (λ a tok read allowed parses no_crit accepted. record {
                nonempty = ground (arith, bytes_eq_iff token []);
                short = ground arith;
                alg = a;
                alg_read = read;
                alg_allowed = allowed;
                parses = parses;
                no_crit = no_crit;
                typ_accepted = accepted;
              }))
    ]
  ]

  -- A refusal of an open validator is "invalid_token", or it is the very error with which the
  -- look-up of this token's keys failed, and the token had passed every test before that look-up:
  -- it is not empty, at most 16384 bytes and of an allowed algorithm, and it parses, with no critical
  -- header and an accepted type. So a fault that one of these tests finds is "invalid_token".
  pub validate_blames :
      (cfg : Config) (token : Bytes) (v : Validator o.World) (e : Error)
      → (validate o j cfg false token v).0 ≡ err e
      → (e.code ≡ invalid_token)
        ⊎ ((tok : j.Token) × Reaches cfg token tok × ((lookup_for cfg tok v).0 ≡ err e))
  validate_blames cfg token v e h = rw h at ((open_validate-Blames cfg token v).0)

  left-IsBounded :
      (cfg : Config) (v u : Validator o.World)
      → IsBounded v.negative_kids
      → Leaves cfg v u
      → IsBounded u.negative_kids
  left-IsBounded cfg v u b (inl same) = rw same b
  left-IsBounded cfg v u b (inr (tok, same)) =
      rw same ((verification_keys_strong o cfg (string_claim (j.kid tok)) (j.method_alg tok) v b).1)

  -- Whatever the token and whether the validator is closed, a validation keeps the negative cache
  -- bounded.
  pub validate-IsBounded :
      (cfg : Config) (closed : Bool) (token : Bytes) (v : Validator o.World)
      → IsBounded v.negative_kids
      → IsBounded (validate o j cfg closed token v).1.negative_kids
  unfolding validate
  validate-IsBounded cfg true token v b = b
  validate-IsBounded cfg false token v b =
      left-IsBounded cfg v _ b ((open_validate-Blames cfg token v).1)
