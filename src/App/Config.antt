-- ===== src/App/Config.antt =====
-- pkg/shared/config/config.go: the configuration of a program. viper is a parameter: what a file
-- and the environment give is not looked into.
use moon_eye.Base.{Str, codes}
use moon_eye.Outcome.{Result, ok, wrapped, and_then}
use moon_eye.Transactions.Service.{or_default}

pub record Config : Type 0 where
  pub app_name : Str
  pub server_addr : Str
  pub database_url : Str
  pub redis_url : Str
  pub jwt_secret : Str
  pub logging_level : Str

-- What is set on an instance of viper before it reads: `SetConfigName`, `SetConfigType`,
-- `AddConfigPath`, and `SetEnvPrefix` with `AutomaticEnv`.
pub record Lookup : Type 0 where
  pub config_name : Str
  pub config_type : Str
  pub config_path : Str
  pub env_prefix : Str

-- `get_string` is that of the global instance, `V` what an instance holds after it has read.
pub record Viper (V : Type 0) : Type 0 where
  pub get_string : Str → Str
  pub read_in_config : Lookup → Result V
  pub unmarshal : V → Result Config

module _ {V : Type 0} (viper : Viper V) where
  unfoldable pub lookup_for : Str → Lookup
  lookup_for service_name = record {
    config_name = or_default (codes "dev") (viper.get_string (codes "APP_ENV"));
    config_type = codes "yaml";
    config_path = codes "configs";
    env_prefix = service_name;
  }

  unfoldable pub load : Str → Result Config
  load service_name =
      and_then (wrapped (codes "read config") (viper.read_in_config (lookup_for service_name)))
        (λ v.
          and_then (wrapped (codes "unmarshal config") (viper.unmarshal v))
            (λ cfg. ok (record cfg { server_addr = or_default (codes ":8080") cfg.server_addr })))
