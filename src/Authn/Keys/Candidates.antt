-- ===== src/Authn/Keys/Candidates.antt =====
-- `candidateKeys` against a filter: the usable keys of the set, in order, at most eight.
use mathlib.Core.List.{foldl}
use mathlib.Core.Path.{ap₂}
use toolhive_core.Base.{
  suc, ◌≤◌, ◌≡◌, refl, sym, ap, Bool, true, false, not, ◌&&◌, List, [], ◌∷◌, ◌++◌, append_assoc,
  append-nil, String, arith, Bool-cases, inl, inr, ltb, if◌then◌else◌, keep, take, length, All,
  length-take, take-eq_of_le, All-keep, All-take, ok,
}
use toolhive_core.Authn.Types.{KeyRejection, reject_none, is_none, max_key_candidates}
use toolhive_core.Authn.Keys.{
  Jwk, CryptoKey, key_eligible, is_skipped, first_rejection, candidate_step, finish_candidates,
  candidate_keys, export_candidates,
}
use toolhive_core.Authn.Keys.Strength.{IsStrongFor}
use toolhive_core.Authn.Keys.Eligible.{export_key_of_eligible}

-- The key is not passed over for its kid, and it is eligible.
abbrev pub is_usable : String → String → Jwk → Bool
is_usable kid alg key = not (is_skipped kid key) && is_none (key_eligible key alg)

-- Why the first key with the right kid is refused.
abbrev pub first_reason : String → String → List Jwk → KeyRejection
first_reason kid alg [] = reject_none
first_reason kid alg (key ∷ set) =
    let later = first_reason kid alg set in
    if is_skipped kid key then later else first_rejection (key_eligible key alg) later

-- The answer for the usable keys `out` and the reason for the first refused one.
abbrev pub answer : List Jwk → KeyRejection → List Jwk × KeyRejection
answer [] why = ([], why)
answer (k ∷ ks) why = (take max_key_candidates (k ∷ ks), reject_none)

first_rejection_assoc :
    (a b c : KeyRejection)
    → first_rejection (first_rejection a b) c ≡ first_rejection a (first_rejection b c)
first_rejection_assoc a b c = ground arith

-- One round of the loop, from what holds of the rounds that follow.
candidates_loop_cons :
    (skipped : Bool) (r : KeyRejection) (key : Jwk) (out : List Jwk) (why : KeyRejection)
    (kept : List Jwk) (later : KeyRejection)
    (loop : List Jwk × KeyRejection → List Jwk × KeyRejection)
    → ((o : List Jwk) (w : KeyRejection) → loop (o, w) ≡ (o ++ kept, first_rejection w later))
    → loop (
        if skipped
        then (out, why)
        else if not (is_none r)
        then (out, first_rejection why r)
        else (out ++ key ∷ [], why))
      ≡ (
        out ++ (if not skipped && is_none r then key ∷ kept else kept),
        first_rejection why (if skipped then later else first_rejection r later),
      )
candidates_loop_cons true r key out why kept later loop h = h out why
candidates_loop_cons false reject_none key out why kept later loop h =
    rw (h (out ++ key ∷ []) why)
      (ap (λ l. (l, first_rejection why later)) (append_assoc out (key ∷ []) kept))
candidates_loop_cons false r key out why kept later loop h =
    rw (h out (first_rejection why r))
      (ap (λ w. (out ++ kept, w)) (first_rejection_assoc why r later))

candidates_loop :
    (kid alg : String) (set out : List Jwk) (why : KeyRejection)
    → foldl (candidate_step kid alg) (out, why) set
      ≡ (out ++ keep (is_usable kid alg) set, first_rejection why (first_reason kid alg set))
unfolding candidate_step
candidates_loop kid alg [] out why = ap₂ (λ o w. (o, w)) (sym (append-nil out)) (ground arith)
candidates_loop kid alg (key ∷ set) out why =
    candidates_loop_cons (is_skipped kid key) (key_eligible key alg) key out why
      (keep (is_usable kid alg) set) (first_reason kid alg set)
      (λ p. foldl (candidate_step kid alg) p set) (λ o w. candidates_loop kid alg set o w)

finish_candidates_lem :
    (out : List Jwk) (why : KeyRejection) → finish_candidates (out, why) ≡ answer out why
unfolding finish_candidates
finish_candidates_lem [] why = refl
finish_candidates_lem (k ∷ ks) why = elim (Bool-cases (ltb max_key_candidates (length (k ∷ ks)))) [
  | inl e ↦ rw e
  | inr e ↦ rw e (ap (λ l. (l, reject_none)) (sym (take-eq_of_le 8 (k ∷ ks) (ground arith))))
]

-- `candidateKeys` returns the usable keys of the set in its order, the first eight of them, and no
-- reason; with no usable key, it returns none and why the first key with the right kid is refused.
pub candidate_keys_lem :
    (set : List Jwk) (kid alg : String)
    → candidate_keys set kid alg ≡ answer (keep (is_usable kid alg) set) (first_reason kid alg set)
unfolding candidate_keys
candidate_keys_lem set kid alg =
    rw (candidates_loop kid alg set [] reject_none) (finish_candidates_lem _ _)

All-usable :
    (kid alg : String) (set : List Jwk)
    → All (λ k. key_eligible k alg ≡ reject_none) (keep (is_usable kid alg) set)
All-usable kid alg set =
    All-keep (λ k. key_eligible k alg ≡ reject_none) (is_usable kid alg) (λ k e. ground arith) set

All-candidates :
    (out : List Jwk) (why : KeyRejection) (P : Jwk → Type 0) → All P out → All P (answer out why).0
All-candidates [] why P h = tt
All-candidates (k ∷ ks) why P h = All-take P max_key_candidates (k ∷ ks) h

length-answer :
    (out : List Jwk) (why : KeyRejection) → length (answer out why).0 ≤ max_key_candidates
length-answer [] why = omega arith
length-answer (k ∷ ks) why = omega (arith, length-take max_key_candidates (k ∷ ks))

-- Exporting eligible keys does not fail, and gives as many keys, each strong enough.
pub export_candidates_of_eligible :
    (keys : List Jwk) (alg : String)
    → All (λ k. key_eligible k alg ≡ reject_none) keys
    → (raws : List CryptoKey) × (export_candidates keys alg ≡ ok raws)
      × All (IsStrongFor alg) raws
      × (length raws ≡ length keys)
unfolding export_candidates
export_candidates_of_eligible [] alg h = ([], refl, tt, refl)
export_candidates_of_eligible (k ∷ ks) alg (e, h) =
    let (raw, exported, strong) = export_key_of_eligible k alg e in
    let (raws, rest, all_strong, len) = export_candidates_of_eligible ks alg h in
    (raw ∷ raws, ground arith, (strong, all_strong), ap suc len)

-- Whatever the key set, the exported candidates of a token are at most eight keys, each of the
-- type that the token's algorithm needs and strong enough for it; the export never fails.
pub export-candidate_keys :
    (set : List Jwk) (kid alg : String)
    → (raws : List CryptoKey) × (export_candidates (candidate_keys set kid alg).0 alg ≡ ok raws)
      × All (IsStrongFor alg) raws
      × (length raws ≤ max_key_candidates)
export-candidate_keys set kid alg = rw (candidate_keys_lem set kid alg) (
    let out = keep (is_usable kid alg) set in
    let why = first_reason kid alg set in
    let (raws, e, strong, len) =
      export_candidates_of_eligible (answer out why).0 alg
        (All-candidates out why (λ k. key_eligible k alg ≡ reject_none) (All-usable kid alg set)) in
    (raws, e, strong, omega (arith, length-answer out why)))
