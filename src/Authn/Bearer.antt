-- ===== src/Authn/Bearer.antt =====
-- `ParseBearer` (authn/validate.go): the token of an Authorization header.
pub mod Header
use toolhive_core.Base.{
  ℕ, ◌≡◌, ◌≤◌, ◌<◌, ◌≢◌, ◌++◌, ◌∷◌, [], Bool, true, false, not, ◌&&◌, ◌||◌, List, Option, none,
  some, Bytes, codes, bytes_eq, bytes_eq_iff, trim_left, to_lower, cut_at, length, all, any, All,
  ltb, leb, ◌==◌, if◌then◌else◌, Except, ok, err, arith, Bool-cases, refl, replicate,
}
use toolhive_core.Authn.Types.{
  Error, error, invalid_request, missing_header, malformed, max_token_length,
}

-- `strings.EqualFold(scheme, "Bearer")`. No letter of the word has a fold outside ASCII.
is_bearer : Bytes → Bool
is_bearer scheme = bytes_eq (to_lower scheme) (codes "bearer")

abbrev is_printable : ℕ → Bool
is_printable c = not (ltb c 0x21 || ltb 0x7e c)

abbrev bad : Except Error Bytes
bad = err (error invalid_request malformed)

-- The tests on the credential, from the trimmed token on.
check_credential : Bytes → Except Error Bytes
check_credential token =
    if bytes_eq token []
    then bad
    else if ltb max_token_length (length token)
    then bad
    else if any (λ c. ltb c 0x21 || ltb 0x7e c) token
    then bad
    else ok token

-- The part of the header after the cut at its first space.
check_scheme : Option (Bytes × Bytes) → Except Error Bytes
unfolding check_credential is_bearer
check_scheme none = bad
check_scheme (some (scheme, rest)) =
    if bytes_eq scheme []
    then bad
    else if not (is_bearer scheme)
    then bad
    else check_credential (trim_left (λ c. c == b' ') rest)

unfoldable pub parse_bearer : Bytes → Except Error Bytes
unfolding check_scheme
parse_bearer [] = err (error invalid_request missing_header)
parse_bearer (c ∷ s) = check_scheme (cut_at b' ' (c ∷ s))
