-- ===== src/Config/Sources.antt =====
-- Which source a setting comes from.
use dispatchhub.Prelude.{◌≡◌, refl, Text, true, false, Option, some, List, codes, is_empty}
use dispatchhub.RateLimit.{Float}
use dispatchhub.Config.{
  Config, default_config, apply_redis_env, apply_mysql_env, or_value, overridden, load,
  chosen_config,
}

module _ (f : Float) (env : Text → Text) (split : Text → List Text)
    (load_yaml : Text → Config f → Option (Config f)) where
  -- With a configuration file that loads, a variable of the environment that is set wins over the file, and
  -- the file's setting stays where it is not set. Without a file the settings are the defaults, whatever the
  -- environment says.
  pub chosen_config_lem :
      (path no_path : Text) (file : Config f)
      → is_empty path ≡ false
      → is_empty no_path ≡ true
      → load_yaml path (default_config f) ≡ some file
      → (cfg : Config f) × (chosen_config f env split load_yaml path ≡ some cfg)
        × (cfg.mysql.dsn ≡ or_value (env (codes "DISPATCH_MYSQL_DSN")) file.mysql.dsn)
        × (cfg.redis.password
            ≡ or_value (env (codes "DISPATCH_REDIS_PASSWORD")) file.redis.password)
        × (cfg.rate_limit ≡ file.rate_limit)
        × (chosen_config f env split load_yaml no_path ≡ some (default_config f))
  unfolding chosen_config load overridden apply_redis_env apply_mysql_env
  chosen_config_lem path no_path file given missing loaded = (
    overridden f env split load_yaml file,
    rw (given, loaded) refl,
    refl,
    refl,
    refl,
    rw missing refl,
  )
