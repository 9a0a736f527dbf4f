-- ===== src/Clients/Redirects.antt =====
-- Redirects that a client with the policy follows.
use toolhive_core.Base.{◌≡◌, true, false, not, ◌&&◌, bytes_eq}
use toolhive_core.Hosts.{Url, Library, https_scheme}

module _ (lib : Library) where
  -- A request to the host of the original one, and by HTTPS if that was.
  abbrev pub StaysWith : Url → Url → Type 0
  StaysWith original u =
      (lib.equal_fold u.host original.host ≡ true)
      × ((bytes_eq original.scheme https_scheme && not (bytes_eq u.scheme https_scheme)) ≡ false)
