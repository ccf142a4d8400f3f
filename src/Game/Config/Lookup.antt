-- ===== src/Game/Config/Lookup.antt =====
-- The servers by type, and the settings that the clients may see.
use recreation_test.Base.{
  ◌≡◌, sym, ◌∙◌, ap, if◌then◌else◌, List, [], ◌∷◌, ◌++◌, none, some, Str, str_eq, str_eq_iff,
  lookup, lookup-insert, string_eq, arith,
}
use mathlib.Core.List.{append_assoc, append-nil}
use recreation_test.Game.Config.{
  ServersConfig, ServersConf, Config, add_server, add_servers, type_servers_config,
  read_servers_config, on_config_change,
}

-- The servers of a type, in the order of the file.
unfoldable pub of_type : Str → List ServersConfig → List ServersConfig
of_type t [] = []
of_type t (v ∷ vs) = if str_eq v.server_type t then v ∷ of_type t vs else of_type t vs

-- What the map has for a type, where a missing key is the nil slice.
abbrev pub servers_of : Str → List (Str × List ServersConfig) → List ServersConfig
servers_of t m = elim (lookup t m) as (λ o. List ServersConfig) [ none ↦ [] | some l ↦ l ]

servers_of-add_server :
    (t : Str) (m : List (Str × List ServersConfig)) (v : ServersConfig)
    → servers_of t (add_server m v)
      ≡ (if str_eq v.server_type t then servers_of t m ++ (v ∷ []) else servers_of t m)
unfolding add_server
servers_of-add_server t m v = ground (
  arith,
  str_eq_iff v.server_type t,
  lookup-insert v.server_type t (servers_of v.server_type m ++ (v ∷ [])) m,
)

servers_of-add_servers :
    (t : Str) (m : List (Str × List ServersConfig)) (vs : List ServersConfig)
    → servers_of t (add_servers m vs) ≡ servers_of t m ++ of_type t vs
unfolding add_servers of_type
servers_of-add_servers t m [] = sym (append-nil (servers_of t m))
servers_of-add_servers t m (v ∷ vs) = ground (
  arith,
  servers_of-add_servers t (add_server m v) vs,
  servers_of-add_server t m v,
  append_assoc (servers_of t m) (v ∷ []) (of_type t vs),
)

-- After the first read of the file the map has for each type the servers of that type, in the order of
-- the file; after a change of the file it has none for any type, since the handler stores what it
-- decodes without grouping it.
pub servers_of-read :
    (conf : Config) (read : ServersConf) (t : Str)
    → read.type_server ≡ []
    → (servers_of t (read_servers_config conf read).servers_conf.type_server
        ≡ of_type t read.servers)
      × (servers_of t (on_config_change conf read).servers_conf.type_server ≡ [])
unfolding read_servers_config on_config_change type_servers_config lookup
servers_of-read conf read t e = (
  servers_of-add_servers t read.type_server read.servers
      ∙ ap (λ (m : List (Str × List ServersConfig)). servers_of t m ++ of_type t read.servers) e,
  ap (servers_of t) e,
)
