-- ===== src/Authn/Provider/Strength.antt =====
-- Keys from a provider are held to the same rule as keys from a JWKS.
use toolhive_core.Base.{
  ◌<◌, ◌≤◌, ◌≡◌, true, List, [], ◌∷◌, ◌++◌, none, some, String, arith, Bool-cases, Option-cases,
  ◌∙◌, inl, inr, ◌==◌, length, All, All-append, length-append,
}
use toolhive_core.Authn.Types.{
  KeyRejection, reject_none, reject_key_type, max_key_candidates, is_none,
}
use toolhive_core.Authn.Keys.{
  CryptoKey, rsa, ecdsa, other_key, is_rsa_alg, is_ec_alg, first_rejection,
}
use toolhive_core.Authn.Keys.Strength.{IsStrongFor, rsa_rejection_iff, ec_rejection_iff}
use toolhive_core.Authn.Provider.{
  PublicKey, rsa_key_rejection, ec_key_rejection, provider_key_type_matches_alg, provider_verdict,
  provider_loop, finish_provider, provider_candidates,
}

rsa_key_strong :
    (key : CryptoKey) (alg : String)
    → is_rsa_alg alg ≡ true
    → rsa_key_rejection key ≡ reject_none
    → IsStrongFor alg key
unfolding rsa_key_rejection
rsa_key_strong (rsa (some k)) alg a h = (a, (rsa_rejection_iff k).0 h)
rsa_key_strong (rsa none) alg a h = cc
rsa_key_strong (ecdsa k) alg a h = cc
rsa_key_strong other_key alg a h = cc

ec_key_strong :
    (key : CryptoKey) (alg : String)
    → is_ec_alg alg ≡ true
    → ec_key_rejection key alg ≡ reject_none
    → IsStrongFor alg key
unfolding ec_key_rejection
ec_key_strong (ecdsa (some k)) alg a h = (a, (ec_rejection_iff k alg).0 h)
ec_key_strong (ecdsa none) alg a h = cc
ec_key_strong (rsa k) alg a h = cc
ec_key_strong other_key alg a h = cc

provider_key_strong :
    (key : CryptoKey) (alg : String)
    → provider_key_type_matches_alg key alg ≡ reject_none
    → IsStrongFor alg key
unfolding provider_key_type_matches_alg
provider_key_strong key alg h = elim (Bool-cases (is_rsa_alg alg)) [
  | inl r ↦ rsa_key_strong key alg r (rw r at h)
  | inr n ↦ elim (Bool-cases (is_ec_alg alg)) [
    | inl c ↦ ec_key_strong key alg c (rw (n, c) at h)
    | inr d ↦ let g : reject_key_type ≡ reject_none = rw (n, d) at h in cc
  ]
]

verdict_strong :
    (pk : PublicKey) (kid alg : String)
    → provider_verdict pk kid alg ≡ some reject_none
    → IsStrongFor alg pk.key
unfolding provider_verdict
verdict_strong pk kid alg h = provider_key_strong pk.key alg (ground arith)

-- What the loop keeps.
abbrev Kept : String → List CryptoKey → Type 0
Kept alg out = All (IsStrongFor alg) out × (length out ≤ max_key_candidates)

Kept-more :
    (alg : String) (out : List CryptoKey) (key : CryptoKey)
    → Kept alg out
    → length out < max_key_candidates
    → IsStrongFor alg key
    → Kept alg (out ++ key ∷ [])
Kept-more alg out key (h, _) l s = (
  All-append (IsStrongFor alg) out (key ∷ []) h (s, tt),
  omega (arith, length-append out (key ∷ [])),
)

provider_loop-Kept :
    (kid alg : String) (out : List CryptoKey) (why : KeyRejection) (keys : List PublicKey)
    → Kept alg out
    → length out < max_key_candidates
    → Kept alg (provider_loop kid alg out why keys).0
unfolding provider_loop
provider_loop-Kept kid alg out why [] h l = h
provider_loop-Kept kid alg out why (pk ∷ keys) h l =
    elim (Option-cases (provider_verdict pk kid alg)) [
      | inl e ↦ rw (e, provider_loop) (provider_loop-Kept kid alg out why keys h l)
      | inr (r, e) ↦ elim (Bool-cases (is_none r)) [
        | inr no_fit ↦
            rw (e, provider_loop)
              (rw no_fit (provider_loop-Kept kid alg out (first_rejection why r) keys h l))
        | inl fit ↦
            let strong = verdict_strong pk kid alg (e ∙ ground arith) in
            let more = Kept-more alg out pk.key h l strong in
            elim (Bool-cases (length (out ++ pk.key ∷ []) == max_key_candidates)) [
              | inl full ↦ rw (e, provider_loop) (rw (fit, full) more)
              | inr room ↦
                  rw (e, provider_loop)
                    (rw (fit, room)
                      (provider_loop-Kept kid alg (out ++ pk.key ∷ []) why keys more
                        (ground (arith, length-append out (pk.key ∷ [])))))
            ]
      ]
    ]

-- A key provider's candidates are at most eight keys, each of the type that the token's algorithm
-- needs and strong enough for it.
pub provider_candidates_strong :
    (keys : List PublicKey) (kid alg : String)
    → All (IsStrongFor alg) (provider_candidates keys kid alg).0
      × (length (provider_candidates keys kid alg).0 ≤ max_key_candidates)
unfolding provider_candidates
provider_candidates_strong keys kid alg =
    finished (provider_loop kid alg [] reject_none keys)
      (provider_loop-Kept kid alg [] reject_none keys (tt, omega arith) (omega arith))
  where
    finished : (p : List CryptoKey × KeyRejection) → Kept alg p.0 → Kept alg (finish_provider p).0
    finished ([], why) h = h
    finished (k ∷ ks, why) h = h
