-- ===== src/Clients/Guarded.antt =====
-- What a client that is built may reach.
use toolhive_core.Base.{
  ℕ, ◌≡◌, refl, ap, ◌∙◌, inl, inr, arith, Bool-cases, Option-cases, Bool, true, false, not, [],
  Option, none, some, str_eq, Bytes, bytes_eq, trim_space, Except, ok,
}
use mathlib.Core.Path.{subst}
use toolhive_core.Addresses.{is_private_ip}
use toolhive_core.Hosts.{
  Url, Library, https_scheme, Refusal, Reader, is_localhost, address_references_private_ip,
  validation_disabled,
}
use toolhive_core.Clients.{
  HttpClientBuilder, new_http_client_builder, new_host_scoped_client_builder_with_reader,
  HttpClient, built, with_token, build, round_trip, protected_dialer_control, dial,
}

module _ (lib : Library) where
  abbrev pub is_set : Option Bytes → Bool
  is_set none = false
  is_set (some token) = true

  -- What a builder settles for its client.
  abbrev pub IsBuiltBy : HttpClientBuilder lib → HttpClient lib → Type 0
  IsBuiltBy b c =
      (c.guarded ≡ not b.allow_private)
      × (c.disable_keep_alives ≡ c.guarded)
      × (c.insecure_allow_http ≡ b.insecure_allow_http)
      × (c.env_reader ≡ b.env_reader)
      × (c.checks_redirects ≡ is_set c.token)

  built-IsBuiltBy :
      (b : HttpClientBuilder lib) (roots : Option ℕ) (token : Option Bytes) (c : HttpClient lib)
      → not (str_eq b.auth_token_file "") ≡ is_set token
      → ◌≡◌ {A = Except Refusal (HttpClient lib)} (ok (built lib b roots token)) (ok c)
      → IsBuiltBy b c
  unfolding built
  built-IsBuiltBy b roots token c set e =
      let same : built lib b roots token ≡ c = cc in
      subst (IsBuiltBy b) same (refl, refl, refl, refl, set)

  with_token-IsBuiltBy :
      (b : HttpClientBuilder lib) (roots : Option ℕ) (c : HttpClient lib)
      → with_token lib b roots ≡ ok c
      → IsBuiltBy b c
  unfolding with_token
  with_token-IsBuiltBy b roots c e = elim (Bool-cases (str_eq b.auth_token_file "")) [
    | inl unset ↦ built-IsBuiltBy b roots none c (ap not unset) (rw (with_token, unset) at e)
    | inr set ↦ elim (Option-cases (lib.read_token b.auth_token_file)) [
      | inl g ↦ absurd (ground (arith, rw (with_token, set, g) at e))
      | inr (text, g) ↦ elim (Bool-cases (bytes_eq (trim_space text) [])) [
        | inl blank ↦ absurd (ground (arith, rw (with_token, set, g, blank) at e))
        | inr token ↦
            built-IsBuiltBy b roots (some (trim_space text)) c (ap not set)
              (rw (with_token, set, g, token) at e)
      ]
    ]
  ]

  -- A client that is built has the dialer's guard unless private addresses are allowed, keeps no
  -- connection alive if it has the guard, and has the redirect policy exactly if it adds a token; it has
  -- the builder's permission of plain HTTP and its reader.
  pub build-IsBuiltBy :
      (b : HttpClientBuilder lib) (c : HttpClient lib) → build lib b ≡ ok c → IsBuiltBy b c
  unfolding build
  build-IsBuiltBy b c e = elim (Bool-cases (str_eq b.ca_cert_path "")) [
    | inl unset ↦ with_token-IsBuiltBy b none c (rw (build, unset) at e)
    | inr set ↦ elim (Option-cases (lib.read_certificates b.ca_cert_path)) [
      | inl g ↦ absurd (ground (arith, rw (build, set, g) at e))
      | inr (roots, g) ↦ with_token-IsBuiltBy b (some roots) c (rw (build, set, g) at e)
    ]
  ]

  -- An address that is no private one.
  abbrev pub IsPublic : Bytes → Type 0
  IsPublic address =
      (host : Bytes) × (ip : ℕ) × (lib.split_host_port address ≡ some host)
      × (lib.parse_ip host ≡ some ip)
      × (is_private_ip ip ≡ false)

  abbrev pub IsHttps : Bytes → Type 0
  IsHttps text = (u : Url) × (lib.parse_url text ≡ some u) × (bytes_eq u.scheme https_scheme ≡ true)

  address-IsPublic :
      (address : Bytes) → address_references_private_ip lib address ≡ none → IsPublic address
  unfolding address_references_private_ip
  address-IsPublic address e = elim (Option-cases (lib.split_host_port address)) [
    | inl g ↦ absurd (ground (arith, rw (address_references_private_ip, g) at e))
    | inr (host, g) ↦ elim (Option-cases (lib.parse_ip host)) [
      | inl h ↦ absurd (ground (arith, rw (address_references_private_ip, g, h) at e))
      | inr (ip, h) ↦ elim (Bool-cases (is_private_ip ip)) [
        | inl i ↦ absurd (ground (arith, rw (address_references_private_ip, g, h, i) at e))
        | inr i ↦ (host, ip, g, h, i)
      ]
    ]
  ]

  round_trip-IsHttps :
      (c : HttpClient lib) (text : Bytes)
      → validation_disabled lib c.env_reader ≡ false
      → c.insecure_allow_http ≡ false
      → round_trip lib c text ≡ none
      → IsHttps text
  unfolding round_trip
  round_trip-IsHttps c text v p e = elim (Option-cases (lib.parse_url text)) [
    | inl g ↦ absurd (ground (arith, rw (round_trip, v, p, g) at e))
    | inr (u, g) ↦ elim (Bool-cases (bytes_eq u.scheme https_scheme)) [
      | inl h ↦ (u, g, h)
      | inr h ↦ absurd (ground (arith, rw (round_trip, v, p, g, h) at e))
    ]
  ]

  -- A client built for a host that is not local, without the permission of plain HTTP or of private
  -- addresses, and with the validation of URLs not switched off in the environment: a request that it
  -- sends is by HTTPS, an address that it dials is an IP address and not a private one, and it keeps no
  -- connection alive.
  pub build-new_host_scoped_client_builder_with_reader :
      (host : Bytes) (reader : Reader) (c : HttpClient lib) (text address : Bytes)
      → is_localhost lib host ≡ false
      → validation_disabled lib reader ≡ false
      → build lib (new_host_scoped_client_builder_with_reader lib host false false reader) ≡ ok c
      → round_trip lib c text ≡ none
      → dial lib c address ≡ none
      → IsHttps text × IsPublic address × (c.disable_keep_alives ≡ true)
  unfolding new_host_scoped_client_builder_with_reader new_http_client_builder dial
      protected_dialer_control
  build-new_host_scoped_client_builder_with_reader host reader c text address away on e sent
        dialed =
      let (guard, alive, plain, env, checks) = build-IsBuiltBy b c e in
      let guarded : c.guarded ≡ true = guard ∙ ap not private in
      (
        round_trip-IsHttps c text (ap (validation_disabled lib) env ∙ on) (plain ∙ insecure) sent,
        address-IsPublic address (rw (dial, guarded) at dialed),
        alive ∙ guarded,
      )
    where
      b : HttpClientBuilder lib
      b = new_host_scoped_client_builder_with_reader lib host false false reader

      insecure : b.insecure_allow_http ≡ false
      insecure = rw (away, on) refl

      private : b.allow_private ≡ false
      private = rw (away, on) refl
