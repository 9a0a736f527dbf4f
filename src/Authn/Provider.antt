-- ===== src/Authn/Provider.antt =====
-- The keys that a host supplies in process (authn/keyprovider.go).
pub mod Strength
use toolhive_core.Base.{
  ℕ, Bool, true, false, not, ◌&&◌, List, [], ◌∷◌, ◌++◌, Option, none, some, String, str_eq, ltb,
  ◌==◌, if◌then◌else◌, length,
}
use toolhive_core.Authn.Types.{
  KeyRejection, reject_none, reject_declared_alg, reject_key_type, is_none, max_key_candidates,
}
use toolhive_core.Authn.Keys.{
  CryptoKey, rsa, ecdsa, rsa_rejection, ec_rejection, is_rsa_alg, is_ec_alg, first_rejection,
}

pub record PublicKey : Type 0 where
  pub key_id : String
  pub alg : String
  pub key : CryptoKey

unfoldable pub rsa_key_rejection : CryptoKey → KeyRejection
rsa_key_rejection (rsa (some k)) = rsa_rejection k
rsa_key_rejection _ = reject_key_type

unfoldable pub ec_key_rejection : CryptoKey → String → KeyRejection
ec_key_rejection (ecdsa (some k)) alg = ec_rejection k alg
ec_key_rejection _ alg = reject_key_type

unfoldable pub provider_key_type_matches_alg : CryptoKey → String → KeyRejection
provider_key_type_matches_alg key alg =
    if is_rsa_alg alg
    then rsa_key_rejection key
    else if is_ec_alg alg
    then ec_key_rejection key alg
    else reject_key_type

-- One of the two loop bodies that keep a key or pass over it: the key's rejection, if the loop
-- passes over it with one, and `none` if it passes over it for its kid.
unfoldable pub provider_verdict : PublicKey → String → String → Option KeyRejection
provider_verdict pk kid alg =
    if not (str_eq pk.key_id "") && not (str_eq kid "") && not (str_eq pk.key_id kid)
    then none
    else if not (str_eq pk.alg "") && not (str_eq pk.alg alg)
    then some reject_declared_alg
    else some (provider_key_type_matches_alg pk.key alg)

-- The loop, which breaks at the eighth key.
unfoldable pub provider_loop :
    String → String → List CryptoKey → KeyRejection → List PublicKey → List CryptoKey × KeyRejection
provider_loop kid alg out why [] = (out, why)
provider_loop kid alg out why (pk ∷ keys) = elim (provider_verdict pk kid alg) [
  | none ↦ provider_loop kid alg out why keys
  | some r ↦ elim (is_none r) [
    | true ↦ elim (length (out ++ pk.key ∷ []) == max_key_candidates) [
      | true ↦ (out ++ pk.key ∷ [], why)
      | false ↦ provider_loop kid alg (out ++ pk.key ∷ []) why keys
    ]
    | false ↦ provider_loop kid alg out (first_rejection why r) keys
  ]
]

finish_provider : List CryptoKey × KeyRejection → List CryptoKey × KeyRejection
finish_provider ([], why) = ([], why)
finish_provider (k ∷ ks, why) = (k ∷ ks, reject_none)

unfoldable pub provider_candidates :
    List PublicKey → String → String → List CryptoKey × KeyRejection
unfolding finish_provider
provider_candidates keys kid alg = finish_provider (provider_loop kid alg [] reject_none keys)
