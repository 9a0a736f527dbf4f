-- ===== src/Mounts/Listed.antt =====
-- Lists of mount declarations.
use toolhive_core.Base.{◌≡◌, ◌↔◌, refl, true, List, [], ◌∷◌, all, ◌&&◌, Bytes, Except, ok, err}
use toolhive_core.Mounts.{
  MountError, parse, succeeds, is_valid, mount_put, parse_mount_declarations,
}

parse_all-valid :
    (ds ms : List Bytes)
    → parse_mount_declarations ds ≡ ok ms
    → (ms ≡ ds) × (all is_valid ds ≡ true)
unfolding parse_mount_declarations is_valid mount_put
parse_all-valid [] ms e = (cc, refl)
parse_all-valid (d ∷ ds) ms e =
    of_first (parse d) (parse_mount_declarations ds) (λ ms. parse_all-valid ds ms) e
  where
    of_first :
        (p : Except MountError (Bytes × Bytes)) (r : Except MountError (List Bytes))
        → ((ms : List Bytes) → r ≡ ok ms → (ms ≡ ds) × (all is_valid ds ≡ true))
        → mount_put d p r ≡ ok ms
        → (ms ≡ d ∷ ds) × (succeeds p && all is_valid ds ≡ true)
    of_first (err x) r later e = cc
    of_first (ok pair) (err x) later e = cc
    of_first (ok pair) (ok rest) later e = let (same, valid) = later rest refl in (cc, valid)

valid-parse_all : (ds : List Bytes) → all is_valid ds ≡ true → parse_mount_declarations ds ≡ ok ds
unfolding parse_mount_declarations is_valid mount_put
valid-parse_all [] h = refl
valid-parse_all (d ∷ ds) h = of_first (parse d) h (valid-parse_all ds)
  where
    of_first :
        (p : Except MountError (Bytes × Bytes))
        → succeeds p && all is_valid ds ≡ true
        → (all is_valid ds ≡ true → parse_mount_declarations ds ≡ ok ds)
        → mount_put d p (parse_mount_declarations ds) ≡ ok (d ∷ ds)
    of_first (err x) h later = cc
    of_first (ok pair) h later = rw (later h, mount_put) refl

-- `ParseMountDeclarations` accepts a list exactly when each declaration is valid, and then returns
-- the list unchanged.
pub parse_mount_declarations_iff :
    (ds ms : List Bytes)
    → (parse_mount_declarations ds ≡ ok ms) ↔ ((ms ≡ ds) × (all is_valid ds ≡ true))
parse_mount_declarations_iff ds ms = (parse_all-valid ds ms, λ h. rw h.0 (valid-parse_all ds h.1))
