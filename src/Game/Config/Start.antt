-- ===== src/Game/Config/Start.antt =====
-- What the configuration is when the program starts.
use mathlib.Core.Path.{subst}
use recreation_test.Base.{
  ◌≡◌, refl, sym, ap, ◌∙◌, Bool, true, false, ◌||◌, if◌then◌else◌, List, [], ◌∷◌, Option, some, Str,
  str_eq, str_eq_iff, ok, Bool-cases, inl, inr,
}
use recreation_test.Game.Config.{
  Setting, ServersConf, Config, type_servers_config, read_servers_config, game_config_file,
  servers_file, read_game_config, read_servers_file, read_files, init_config,
}

-- A name is in the directory.
abbrev pub is_listed : Str → List Str → Bool
is_listed name [] = false
is_listed name (n ∷ names) = str_eq n name || is_listed name names

if_same {ℓ} : {A : Type ℓ} (b : Bool) (x : A) → (if b then x else x) ≡ x
if_same true x = refl
if_same false x = refl

module _ (decode_game : Str → Option (List (Str × List (Str × Setting))))
    (decode_servers : Str → Option ServersConf) (gc : List (Str × List (Str × Setting)))
    (read : ServersConf) (fine_game : decode_game game_config_file ≡ some gc)
    (fine_servers : decode_servers servers_file ≡ some read) where
  -- The configuration with the files that a directory has.
  abbrev pub with_files : List Str → Config → Config
  with_files names conf = record {
    game_config = if is_listed game_config_file names then gc else conf.game_config;
    servers_conf =
        if is_listed servers_file names then type_servers_config read else conf.servers_conf;
  }

  abbrev Reads : List Str → Type 0
  Reads names =
      (conf : Config)
      → read_files decode_game decode_servers names conf ≡ ok (with_files names conf)

  game-Reads : (names : List Str) → Reads names → Reads (game_config_file ∷ names)
  unfolding read_files read_game_config
  game-Reads names h conf =
      rw (fine_game, read_game_config)
        (h (record conf { game_config = gc })
          ∙ ap (λ (g : _). ok (record (with_files names conf) { game_config = g }))
              (if_same (is_listed game_config_file names) gc))

  servers-Reads : (names : List Str) → Reads names → Reads (servers_file ∷ names)
  unfolding read_files read_servers_file read_servers_config
  servers-Reads names h conf =
      rw (fine_servers, read_servers_file)
        (h (record conf { servers_conf = type_servers_config read })
          ∙ ap (λ (c : _). ok (record (with_files names conf) { servers_conf = c }))
              (if_same (is_listed servers_file names) (type_servers_config read)))

  all-Reads : (names : List Str) → Reads names
  unfolding read_files
  all-Reads [] conf = refl
  all-Reads (name ∷ names) conf = elim (Bool-cases (str_eq name game_config_file)) [
    | inl game ↦
        subst (λ (n : Str). Reads (n ∷ names)) (sym ((str_eq_iff name game_config_file).0 game))
          (game-Reads names (all-Reads names)) conf
    | inr other ↦ elim (Bool-cases (str_eq name servers_file)) [
      | inl servers ↦
          subst (λ (n : Str). Reads (n ∷ names)) (sym ((str_eq_iff name servers_file).0 servers))
            (servers-Reads names (all-Reads names)) conf
      | inr neither ↦ rw (other, neither) (all-Reads names conf)
    ]
  ]

  -- The program starts with the settings of the one file and the servers of the other, grouped by type,
  -- wherever the two stand in the directory and whatever else is there. Both files can be decoded.
  pub init_config_lem :
      (names : List Str)
      → is_listed game_config_file names ≡ true
      → is_listed servers_file names ≡ true
      → init_config decode_game decode_servers names
        ≡ ok (record { game_config = gc; servers_conf = type_servers_config read })
  unfolding init_config
  init_config_lem names game servers =
      all-Reads names _
      ∙ ap
          (λ (b : Bool). ok (record {
            game_config = if b then gc else [];
            servers_conf =
                if is_listed servers_file names then type_servers_config read else none_read;
          }))
          game
      ∙ ap
          (λ (b : Bool). ok (record {
            game_config = gc;
            servers_conf = if b then type_servers_config read else none_read;
          }))
          servers
    where
      none_read : ServersConf
      none_read = record { nats_url = []; connector = []; servers = []; type_server = [] }
