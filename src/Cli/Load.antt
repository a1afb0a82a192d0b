-- ===== src/Cli/Load.antt =====
-- cmd/pupptyeer/config.go: `configPath` and `loadConfig`. The environment, the file system and the TOML
-- library are arguments.
use pupptyeer.Prelude.{◌⊎◌, Bool, true, false, Option, none, some, Bytes, List, [], if◌then◌else◌}
use pupptyeer.Prelude.Strings.{is_nil}
use pupptyeer.Cli.Keys.{CliConfig, FileConfig, ConfigError, default_config, parse_config}

pub data ReadFile : Type 0 where
  contents : Bytes → ReadFile
  not_exist : ReadFile
  unreadable : Bytes → ReadFile

pub record Surroundings : Type 0 where
  -- $PUPPTYEER_CONFIG, $XDG_CONFIG_HOME, and `os.UserConfigDir` (`none` for its error).
  pub pupptyeer_config : Bytes
  pub xdg_config_home : Bytes
  pub user_config_dir : Option Bytes
  -- `filepath.Join(d, "pupptyeer", "config.toml")`.
  pub in_directory : Bytes → Bytes
  pub read_file : Bytes → ReadFile
  -- `toml.Decode`: its error, or the values and the keys that it does not know.
  pub decode : Bytes → Bytes ⊎ (FileConfig × List Bytes)

-- `configPath`: the path, and whether it was named explicitly.
pub config_path : Surroundings → Bytes × Bool
config_path env =
    if is_nil env.pupptyeer_config
    then (if is_nil env.xdg_config_home
        then elim env.user_config_dir [
          | none ↦ ([], false)
          | some dir ↦ if is_nil dir then ([], false) else (env.in_directory dir, false)
        ]
        else (env.in_directory env.xdg_config_home, false))
    else (env.pupptyeer_config, true)

pub data LoadError : Type 0 where
  read_error : Bytes → Bytes → LoadError
  parse_error : Bytes → ConfigError → LoadError

-- The parse of a file that was read from a path.
abbrev loaded : Bytes → Option ConfigError × CliConfig → Option LoadError × CliConfig
loaded path (none, cfg) = (none, cfg)
loaded path (some e, cfg) = (some (parse_error path e), cfg)

-- `loadConfig`: the configuration stands next to an error as well.
pub load_config : Surroundings → Option LoadError × CliConfig
load_config env =
    let (path, explicit) = config_path env in
    if is_nil path then (none, default_config) else elim (env.read_file path) [
      | contents bytes ↦ loaded path (parse_config (env.decode bytes) default_config)
      | not_exist ↦
          if explicit then (some (read_error path []), default_config) else (none, default_config)
      | unreadable e ↦ (some (read_error path e), default_config)
    ]
