-- ===== src/Redis/Topology.antt =====
-- Which configurations are valid, and what is built for one.
use toolhive_core.Base.{
  ◌≡◌, ◌≢◌, ◌⊎◌, inl, inr, refl, Bytes, true, false, List, [], ◌∷◌, Option, none, some, String,
  eq_iff, arith, Bool-cases,
}
use toolhive_core.Redis.{
  TlsConfig, SentinelConfig, Config, differ, validate_tls_config, is_empty, check_tls,
  check_sentinel, check_config, validate_config, apply_defaults, ClientKind, sentinel, cluster,
  standalone, client_kind,
}

-- What a configuration needs for a kind of client: an address of its own, or named sentinels and no
-- address; cluster mode for a cluster alone.
abbrev pub IsFor : ClientKind → Config → Type 0
IsFor standalone c = (c.addr ≢ "") × (c.sentinel_config ≡ none) × (c.cluster_mode ≡ false)
IsFor cluster c = (c.addr ≢ "") × (c.sentinel_config ≡ none) × (c.cluster_mode ≡ true)
IsFor sentinel c =
    (c.addr ≡ "")
    × (c.cluster_mode ≡ false)
    × (s : SentinelConfig) × (c.sentinel_config ≡ some s)
    × (s.master_name ≢ "")
    × (s.sentinel_addrs ≢ [])

-- A client certificate and its key are both there or both missing.
abbrev pub IsPaired : Option TlsConfig → Type 0
IsPaired none = Unit
IsPaired (some t) =
    ((t.client_cert ≡ []) × (t.client_key ≡ [])) ⊎ ((t.client_cert ≢ []) × (t.client_key ≢ []))

abbrev pub IsValidConfig : Config → Type 0
IsValidConfig c =
    IsFor (client_kind (apply_defaults c)) c × IsPaired c.tls × IsPaired c.sentinel_tls

both_or_neither :
    (a b : Bytes)
    → differ (is_empty a) (is_empty b) ≡ false
    → ((a ≡ []) × (b ≡ [])) ⊎ ((a ≢ []) × (b ≢ []))
both_or_neither [] [] e = inl (refl, refl)
both_or_neither [] (y ∷ b) e = cc
both_or_neither (x ∷ a) [] e = cc
both_or_neither (x ∷ a) (y ∷ b) e = inr (λ h. cc, λ h. cc)

validate_tls_config-IsPaired : (t : Option TlsConfig) → validate_tls_config t ≡ true → IsPaired t
unfolding validate_tls_config
validate_tls_config-IsPaired none e = tt
validate_tls_config-IsPaired (some t) e = both_or_neither t.client_cert t.client_key (ground arith)

check_tls-none : (c : Config) → check_tls c ≡ none → IsPaired c.tls × IsPaired c.sentinel_tls
unfolding check_tls
check_tls-none c e = (
  validate_tls_config-IsPaired c.tls (ground arith),
  validate_tls_config-IsPaired c.sentinel_tls (ground arith),
)

nonempty : (s : List String) → is_empty s ≡ false → s ≢ []
nonempty [] e = cc
nonempty (a ∷ s) e = λ h. cc

-- A valid configuration has what the client that `buildClient` makes of it needs, with the defaults
-- applied: an address and no sentinels for a single server and for a cluster, and otherwise a named
-- master and sentinels, and no address. In each of its TLS configurations, the client certificate and
-- its key are both there or both missing.
pub validate_config_sound : (c : Config) → validate_config (some c) ≡ none → IsValidConfig c
unfolding validate_config check_config check_sentinel client_kind apply_defaults
validate_config_sound c e = of_sentinel c.sentinel_config refl e
  where
    of_sentinel :
        (s : Option SentinelConfig)
        → c.sentinel_config ≡ s
        → validate_config (some c) ≡ none
        → IsValidConfig c
    of_sentinel none h e =
        let plain = rw h at e in
        elim (Bool-cases c.cluster_mode) [
          | inl k ↦
              let (t, st) = check_tls-none c (ground arith) in
              rw (h, k) ((ground (arith, eq_iff c.addr ""), refl, refl), t, st)
          | inr k ↦
              let (t, st) = check_tls-none c (ground arith) in
              rw (h, k) ((ground (arith, eq_iff c.addr ""), refl, refl), t, st)
        ]
    of_sentinel (some s) h e =
        let held = rw h at e in
        let (t, st) = check_tls-none c (ground arith) in
        rw h (
          (
            ground (arith, eq_iff c.addr ""),
            ground arith,
            s,
            refl,
            ground (arith, eq_iff s.master_name ""),
            nonempty s.sentinel_addrs (ground arith),
          ),
          t,
          st,
        )
