-- ===== src/Authn/Validate/Sound.antt =====
-- What an accepted token has passed, and when a refusal blames the key material.
use toolhive_core.Base.{
  ◌≤◌, ◌≡◌, ◌≢◌, refl, sym, ◌∙◌, ap, Bool, true, false, List, [], Option, none, some, String,
  str_eq, eq_iff, ltb, length, Bytes, bytes_eq, bytes_eq_iff, Except, ok, err, arith, Bool-cases,
  Option-cases, inl, inr, All,
}
use toolhive_core.Authn.Types.{
  Config, Error, error, invalid_token, critical_header, unsupported_alg, malformed,
  max_token_length, max_key_candidates,
}
use toolhive_core.Authn.Keys.{CryptoKey}
use toolhive_core.Authn.Keys.Strength.{IsStrongFor}
use toolhive_core.Authn.Cache.Bounded.{IsBounded}
use toolhive_core.Authn.Lookup.{Outside, Validator, verification_keys}
use toolhive_core.Authn.Lookup.Kept.{AreStrong, verification_keys_strong}
use toolhive_core.Authn.Token.{
  Jwt, ParseError, Principal, Claims, is_allowed_alg, unverified_alg, parser_options,
  check_token_type, check_lifetime,
}
use toolhive_core.Authn.Token.Gates.{
  LivesWithin, check_lifetime-LivesWithin, IsAcceptedType, check_token_type-IsAcceptedType,
}
use toolhive_core.Authn.Validate.{
  string_claim, finish_subject, finish_claims, after_keys, after_parse, after_alg, validate,
}

-- What the claims of an accepted token are, and the principal made of them.
abbrev pub AreAccepted : Config → Claims → Principal → Type 0
AreAccepted cfg claims p =
    LivesWithin cfg.max_token_lifetime claims.expiration claims.iat
    × (claims.subject ≡ some p.subject)
    × (p.subject ≢ "")
    × (p.issuer ≡ string_claim claims.iss)
    × (p.name ≡ string_claim claims.name)
    × (p.claims ≡ claims)

ok-injective : {E A : Type 0} {a b : A} → ◌≡◌ {A = Except E A} (ok a) (ok b) → a ≡ b
ok-injective h = cc

finish_claims-AreAccepted :
    (cfg : Config) (claims : Claims) (p : Principal)
    → finish_claims cfg claims ≡ ok p
    → AreAccepted cfg claims p
unfolding finish_claims
finish_claims-AreAccepted cfg claims p h =
    accepted (check_lifetime cfg claims) claims.subject refl refl h
  where
    made : String → Principal
    made x = record {
      issuer = string_claim claims.iss;
      subject = x;
      name = string_claim claims.name;
      claims = claims;
    }

    accepted :
        (late : Option Error) (sub : Option String)
        → check_lifetime cfg claims ≡ late
        → claims.subject ≡ sub
        → elim late [ some e ↦ err e | none ↦ finish_subject claims sub ] ≡ ok p
        → AreAccepted cfg claims p
    accepted (some e) sub l s h = cc
    accepted none none l s h = cc
    accepted none (some x) l s h = elim (Bool-cases (str_eq x "")) [
      | inl e ↦ ground arith
      | inr e ↦
          let same : p ≡ made x = ok-injective (sym (rw e at h)) in
          (
            check_lifetime-LivesWithin cfg claims l,
            s ∙ ap (λ (q : Principal). some q.subject) (sym same),
            rw same (ground (arith, eq_iff x "")),
            ap (λ (q : Principal). q.issuer) same,
            ap (λ (q : Principal). q.name) same,
            ap (λ (q : Principal). q.claims) same,
          )
    ]

module _ (o : Outside) (j : Jwt) where
  -- The whole path of a token that `Validate` accepts.
  pub record IsAccepted (cfg : Config) (closed : Bool) (token : Bytes) (p : Principal)
      : Type 0 where
    pub open_validator : closed ≡ false
    pub nonempty : token ≢ []
    pub short : length token ≤ max_token_length
    pub alg : String
    pub alg_read : unverified_alg j token ≡ some alg
    pub alg_allowed : is_allowed_alg alg ≡ true
    pub parsed : j.Token
    pub parses : j.parse (parser_options cfg) token ≡ ok parsed
    pub no_crit : j.has_crit parsed ≡ false
    pub typ_accepted : IsAcceptedType cfg.accepted_token_types (j.typ parsed)
    pub keys : List CryptoKey
    pub keys_strong : All (IsStrongFor (j.method_alg parsed)) keys
    pub keys_few : length keys ≤ max_key_candidates
    pub verified : j.verify (parser_options cfg) parsed keys ≡ none
    pub claims_accepted : AreAccepted cfg (j.claims parsed) p

  after_keys_sound :
      (cfg : Config) (tok : j.Token) (r : Except Error (List CryptoKey)) (v : Validator o.World)
      (p : Principal)
      → (after_keys o j cfg tok (r, v)).0 ≡ ok p
      → (keys : List CryptoKey) × (r ≡ ok keys)
        × (j.verify (parser_options cfg) tok keys ≡ none)
        × AreAccepted cfg (j.claims tok) p
  unfolding after_keys
  after_keys_sound cfg tok (err e) v p h = cc
  after_keys_sound cfg tok (ok keys) v p h =
      elim (Option-cases (j.verify (parser_options cfg) tok keys)) [
        | inl fine ↦ (
          keys,
          refl,
          fine,
          finish_claims-AreAccepted cfg (j.claims tok) p (rw (fine, after_keys) at h),
        )
        | inr (e, bad) ↦ ground arith
      ]

  -- Error branches: the stages before the keys answer with errors only.
  after_parse_sound :
      (cfg : Config) (closed : Bool) (token : Bytes) (alg : String) (r : Except ParseError j.Token)
      (v : Validator o.World) (p : Principal)
      → closed ≡ false
      → token ≢ []
      → length token ≤ max_token_length
      → unverified_alg j token ≡ some alg
      → is_allowed_alg alg ≡ true
      → j.parse (parser_options cfg) token ≡ r
      → IsBounded v.negative_kids
      → (after_parse o j cfg r v).0 ≡ ok p
      → IsAccepted cfg closed token p
  unfolding after_parse
  after_parse_sound cfg closed token alg (err e) v p c ne s a al pr b h = cc
  after_parse_sound cfg closed token alg (ok tok) v p c ne s a al pr b h =
      elim (Bool-cases (j.has_crit tok)) [
        | inl crit ↦ let g : no_answer ≡ ok p = rw crit at h in cc
        | inr no_crit ↦ elim (Option-cases (check_token_type cfg (j.typ tok))) [
          | inr (e, refused) ↦ ground arith
          | inl fine ↦
              let found = verification_keys o cfg (string_claim (j.kid tok)) (j.method_alg tok) v in
              let (keys, same, verified, claims) =
                after_keys_sound cfg tok found.0 found.1 p (rw (no_crit, fine, after_parse) at h) in
              let strong : AreStrong (j.method_alg tok) (ok keys) = rw same at (
                (verification_keys_strong o cfg (string_claim (j.kid tok)) (j.method_alg tok) v
                  b).0) in
              record {
                open_validator = c;
                nonempty = ne;
                short = s;
                alg = alg;
                alg_read = a;
                alg_allowed = al;
                parsed = tok;
                parses = pr;
                no_crit = no_crit;
                typ_accepted = check_token_type-IsAcceptedType cfg (j.typ tok) fine;
                keys = keys;
                keys_strong = strong.0;
                keys_few = strong.1;
                verified = verified;
                claims_accepted = claims;
              }
        ]
      ]
    where
      no_answer : Except Error Principal
      no_answer = err (error invalid_token critical_header)

  -- Every token that `Validate` accepts, from a validator whose negative cache is bounded, has
  -- passed the whole path: the validator is open; the token is not empty, at most 16384 bytes, and
  -- of an allowed algorithm; it parses, with no critical header, and its type, trimmed, in lower
  -- case and without "application/", is not empty and that of an accepted one, where any are named;
  -- the library verifies it under at most eight keys, each strong enough for its algorithm; where it
  -- has both an expiration and a numeric "iat", and a bound below the largest duration is set, the
  -- seconds between them are within the bound; and the principal's fields are its claims, the whole
  -- claim set among them, with a subject that is not empty.
  pub validate_sound :
      (cfg : Config) (closed : Bool) (token : Bytes) (v : Validator o.World) (p : Principal)
      → IsBounded v.negative_kids
      → (validate o j cfg closed token v).0 ≡ ok p
      → IsAccepted cfg closed token p
  unfolding validate after_alg
  validate_sound cfg true token v p b h = cc
  validate_sound cfg false token v p b h = elim (Bool-cases (bytes_eq token [])) [
    | inl e ↦ let g : malformed_answer ≡ ok p = rw e at h in cc
    | inr ne ↦ elim (Bool-cases (ltb max_token_length (length token))) [
      | inl long ↦ let g : malformed_answer ≡ ok p = rw (ne, long) at h in cc
      | inr short ↦ elim (Option-cases (unverified_alg j token)) [
        | inl unread ↦ let g : malformed_answer ≡ ok p = rw (ne, short, unread) at h in cc
        | inr (alg, read) ↦ elim (Bool-cases (is_allowed_alg alg)) [
          | inr not_allowed ↦
              let g : unsupported_answer ≡ ok p =
                rw (ne, short, read, after_alg, not_allowed) at h in
              cc
          | inl allowed ↦
              after_parse_sound cfg false token alg _ v p refl
                (ground (arith, bytes_eq_iff token [])) (ground arith) read allowed refl b
                (rw (ne, short, read, after_alg, allowed) at h)
        ]
      ]
    ]
  ]
    where
      malformed_answer : Except Error Principal
      malformed_answer = err (error invalid_token malformed)

      unsupported_answer : Except Error Principal
      unsupported_answer = err (error invalid_token unsupported_alg)
