-- ===== src/Redis/Tests.antt =====
-- A cluster, and a configuration with both an address and sentinels.
use toolhive_core.Base.{◌≡◌, refl, true, false, [], ◌∷◌, none, some}
use toolhive_core.Base.Int.{pos}
use toolhive_core.Redis.{
  Config, validate_tls_config, validate_config, apply_defaults, client_kind, addr_with_sentinel,
  cluster,
}
use toolhive_core.Redis.Topology.{IsValidConfig, validate_config_sound}

abbrev clustered : Config
clustered = record {
  addr = "redis:6379";
  cluster_mode = true;
  sentinel_config = none;
  username = "";
  password = "";
  db = pos 0;
  dial_timeout = pos 0;
  read_timeout = pos 0;
  write_timeout = pos 7;
  tls = none;
  sentinel_tls = none;
}

-- A cluster whose client has a certificate and its key.
abbrev secured : Config
secured = record clustered {
  tls = some (record {
    insecure_skip_verify = false;
    ca_cert = [];
    client_cert = 1 ∷ [];
    client_key = 2 ∷ [];
  });
}

abbrev both : Config
both = record clustered {
  cluster_mode = false;
  sentinel_config = some (record { master_name = "main"; sentinel_addrs = "a:1" ∷ [] });
}

valid_test : validate_config (some secured) ≡ none
unfolding validate_config validate_tls_config
valid_test = refl

both_test : validate_config (some both) ≡ some addr_with_sentinel
unfolding validate_config validate_tls_config
both_test = refl

kind_test : client_kind (apply_defaults clustered) ≡ cluster
unfolding client_kind apply_defaults
kind_test = refl

validate_config_sound_example : IsValidConfig secured
validate_config_sound_example = validate_config_sound secured valid_test
