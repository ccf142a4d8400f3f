-- ===== src/Game/Config.antt =====
-- framework/game/config.go: the configuration of the cluster and the game. The files are read and decoded by
-- viper and the JSON decoder, whose results come in as values; `none` is an error, which stops the program.
pub mod Lookup
pub mod Start
use recreation_test.Base.{
  ℕ, Bool, true, false, ◌&&◌, not, if◌then◌else◌, List, [], ◌∷◌, ◌++◌, Option, none, some, Str,
  str_eq, bytes, lookup, insert, string_eq, Outcome, ok, err, panic, ◌>>=◌,
}

pub record ServersConfig : Type 0 where
  pub id : Str
  pub server_type : Str
  pub handle_time_out : ℕ
  pub rpc_time_out : ℕ
  pub max_run_routine_num : ℕ

pub record ConnectorConfig : Type 0 where
  pub id : Str
  pub host : Str
  pub client_port : ℕ
  pub frontend : Bool
  pub server_type : Str

pub record ServersConf : Type 0 where
  pub nats_url : Str
  pub connector : List ConnectorConfig
  pub servers : List ServersConfig
  pub type_server : List (Str × List ServersConfig)

-- A value of a game setting, as far as the code looks at it: a Boolean or anything else.
pub data Setting : Type 0 where
  flag : Bool → Setting
  opaque : Str → Setting

pub record Config : Type 0 where
  pub game_config : List (Str × List (Str × Setting))
  pub servers_conf : ServersConf

-- `append(m[k], v)`, where a missing key is the nil slice.
unfoldable pub add_server :
    List (Str × List ServersConfig) → ServersConfig → List (Str × List ServersConfig)
add_server m v =
    let old = elim (lookup v.server_type m) as (λ o. List ServersConfig) [
      | none ↦ []
      | some l ↦ l
    ] in
    insert v.server_type (old ++ (v ∷ [])) m

unfoldable pub add_servers :
    List (Str × List ServersConfig) → List ServersConfig → List (Str × List ServersConfig)
add_servers m [] = m
add_servers m (v ∷ vs) = add_servers (add_server m v) vs

-- `typeServersConfig`.
unfoldable pub type_servers_config : ServersConf → ServersConf
type_servers_config c = record c { type_server = add_servers c.type_server c.servers }

-- `readServersConfig`: what the first read of the file stores. `read` is the decoded file, whose
-- `TypeServer` no file sets.
unfoldable pub read_servers_config : Config → ServersConf → Config
read_servers_config conf read = record conf { servers_conf = type_servers_config read }

-- The handler of a change of the file: it stores what it decodes and groups nothing.
unfoldable pub on_config_change : Config → ServersConf → Config
on_config_change conf read = record conf { servers_conf = read }

find_connector : Str → List ConnectorConfig → Option ConnectorConfig
find_connector server_id [] = none
find_connector server_id (v ∷ vs) =
    if str_eq v.id server_id then some v else find_connector server_id vs

unfoldable pub get_connector : Config → Str → Option ConnectorConfig
unfolding find_connector
get_connector c server_id = find_connector server_id c.servers_conf.connector

find_by_type : Str → List ConnectorConfig → Option ConnectorConfig
find_by_type server_type [] = none
find_by_type server_type (v ∷ vs) =
    if str_eq v.server_type server_type then some v else find_by_type server_type vs

unfoldable pub get_connector_by_server_type : Config → Str → Option ConnectorConfig
unfolding find_by_type
get_connector_by_server_type c server_type = find_by_type server_type c.servers_conf.connector

-- `v["backend"].(bool)`: absent is false, and a value of another type panics.
unfoldable pub backend : List (Str × Setting) → Outcome (Unit {0}) Bool
backend v = elim (lookup (bytes "backend") v) [
  | none ↦ ok false
  | some (flag b) ↦ ok b
  | some (opaque s) ↦ panic
]

unfoldable pub front_settings :
    List (Str × List (Str × Setting)) → Outcome (Unit {0}) (List (Str × Setting))
front_settings [] = ok []
front_settings ((k, v) ∷ rest) = do
  hidden ← backend v
  result ← front_settings rest
  ok (elim (lookup (bytes "value") v) as (λ o. List (Str × Setting)) [
    | none ↦ result
    | some value ↦ if hidden then result else (k, value) ∷ result
  ])

-- `GetFrontGameConfig`: the keys of a Go map are distinct, so each is written once.
unfoldable pub get_front_game_config : Config → Outcome (Unit {0}) (List (Str × Setting))
get_front_game_config c = front_settings c.game_config

-- The names of the two files.
abbrev pub game_config_file : Str
game_config_file = bytes "gameConfig.json"

abbrev pub servers_file : Str
servers_file = bytes "servers.json"

module _ (decode_game : Str → Option (List (Str × List (Str × Setting))))
    (decode_servers : Str → Option ServersConf) where
  unfoldable pub read_game_config : Str → Config → Outcome (Unit {0}) Config
  read_game_config name conf = elim (decode_game name) [
    | none ↦ panic
    | some gc ↦ ok (record conf { game_config = gc })
  ]

  unfoldable pub read_servers_file : Str → Config → Outcome (Unit {0}) Config
  read_servers_file name conf = elim (decode_servers name) [
    | none ↦ panic
    | some read ↦ ok (read_servers_config conf read)
  ]

  -- The loop of `InitConfig` over the names in the directory.
  unfoldable pub read_files : List Str → Config → Outcome (Unit {0}) Config
  read_files [] conf = ok conf
  read_files (name ∷ names) conf = do
    conf' ← if str_eq name game_config_file then read_game_config name conf else ok conf
    conf'' ← if str_eq name servers_file then read_servers_file name conf' else ok conf'
    read_files names conf''

  unfoldable pub init_config : List Str → Outcome (Unit {0}) Config
  init_config names = read_files names (record {
    game_config = [];
    servers_conf = record { nats_url = []; connector = []; servers = []; type_server = [] };
  })
