-- ===== src/Group/Accepted.antt =====
-- Which names are valid.
use toolhive_core.Base.{
  ℕ, ◌≤◌, ◌≡◌, ◌≢◌, ◌↔◌, ◌⊎◌, inl, inr, refl, ap₂, true, false, [], ◌∷◌, none, ◌==◌, all, All,
  Bytes, bytes_eq, bytes_eq_iff, codes, contains, has_byte, trim_space, to_lower, lower, arith,
  Bool-cases,
}
use toolhive_core.Group.{in_class, matches_name, validate_name}

-- A small letter, a digit, a low line, a dash, or a white space other than a vertical tab.
abbrev pub IsAllowed : ℕ → Type 0
IsAllowed c =
    ((b'a' ≤ c) × (c ≤ b'z'))
    ⊎ (((b'0' ≤ c) × (c ≤ b'9'))
        ⊎ ((c ≡ b'_')
            ⊎ ((c ≡ b'-') ⊎ ((c ≡ b' ') ⊎ ((c ≡ 9) ⊎ ((c ≡ 10) ⊎ ((c ≡ 12) ⊎ (c ≡ 13))))))))

in_class_iff : (c : ℕ) → (in_class c ≡ true) ↔ IsAllowed c
unfolding in_class
in_class_iff c = ground arith

all-in_class : (s : Bytes) → (all in_class s ≡ true) ↔ All IsAllowed s
all-in_class [] = (λ e. tt, λ h. refl)
all-in_class (c ∷ s) = ground (arith, in_class_iff c, all-in_class s)

lower_allowed : (c : ℕ) → IsAllowed c → lower c ≡ c
lower_allowed c h = ground arith

lower-All : (s : Bytes) → All IsAllowed s → to_lower s ≡ s
lower-All [] h = refl
lower-All (c ∷ s) (one, others) = ap₂ ◌∷◌ (lower_allowed c one) (lower-All s others)

allowed_not_null : (c : ℕ) → IsAllowed c → (c == 0) ≡ false
allowed_not_null c h = ground arith

has_byte-All : (s : Bytes) → All IsAllowed s → has_byte 0 s ≡ false
has_byte-All [] h = refl
has_byte-All (c ∷ s) (one, others) = rw (allowed_not_null c one) (has_byte-All s others)

-- A name that is not empty, of allowed characters, which trimming leaves as it is and which has no
-- two spaces in a row.
abbrev pub IsValidName : Bytes → Type 0
IsValidName name =
    (name ≢ [])
    × All IsAllowed name
    × (trim_space name ≡ name)
    × (contains name (codes "  ") ≡ false)

same_bytes : (s t : Bytes) → s ≡ t → bytes_eq s t ≡ true
same_bytes s t e = (bytes_eq_iff s t).1 e

other_bytes : (s t : Bytes) → s ≢ t → bytes_eq s t ≡ false
other_bytes s t ne = elim (Bool-cases (bytes_eq s t)) [
  | inl e ↦ absurd (ne ((bytes_eq_iff s t).0 e))
  | inr e ↦ e
]

valid-validate_name : (name : Bytes) → IsValidName name → validate_name name ≡ none
unfolding validate_name matches_name
valid-validate_name name (nonempty, allowed, trimmed, single) = rw trimmed (
    rw (other_bytes name [] nonempty, has_byte-All name allowed)
      (rw (lower-All name allowed)
        (rw (same_bytes name name refl, (all-in_class name).1 allowed, single) refl)))

validate_name-valid : (name : Bytes) → validate_name name ≡ none → IsValidName name
unfolding validate_name matches_name
validate_name-valid name e = elim (Bool-cases (bytes_eq name [])) [
  | inl empty ↦ cc (rw empty at e)
  | inr nonempty ↦ elim (Bool-cases (all in_class name)) [
    | inl allowed ↦ elim (Bool-cases (bytes_eq (trim_space name) name)) [
      | inl trimmed ↦ (
        differs nonempty,
        (all-in_class name).0 allowed,
        (bytes_eq_iff (trim_space name) name).0 trimmed,
        ground arith,
      )
      | inr untrimmed ↦ absurd (ground arith)
    ]
    | inr bad ↦ absurd (ground arith)
  ]
]
  where
    differs : bytes_eq name [] ≡ false → name ≢ []
    differs e same = let yes = same_bytes name [] same in cc

-- A name is valid exactly when it is not empty, has only small letters, digits, low lines, dashes and
-- the white space of `\s`, no white space at either end and no two spaces in a row.
pub validate_name_iff : (name : Bytes) → (validate_name name ≡ none) ↔ IsValidName name
validate_name_iff name = (validate_name-valid name, valid-validate_name name)
