-- ===== src/Discovery/Server.antt =====
-- common/discovery/server.go: a registered server, and the key that it is registered under.
pub mod Keys
use recreation_test.Base.{
  ℕ, ◌==◌, if◌then◌else◌, List, [], ◌∷◌, ◌++◌, length, Str, bytes, Outcome, ok, err, panic,
}
use recreation_test.Base.Text.{split}

pub record Server : Type 0 where
  pub name : Str
  pub addr : Str
  pub weight : ℕ
  pub version : Str
  pub ttl : ℕ

pub data KeyError : Type 0 where
  invalid_key : KeyError

-- The zero value of the struct.
abbrev pub no_server : Server
no_server = record { name = []; addr = []; weight = 0; version = []; ttl = 0 }

unfoldable pub build_register_key : Server → Str
build_register_key s =
    if length s.version == 0
    then bytes "/" ++ (s.name ++ (bytes "/" ++ s.addr))
    else bytes "/" ++ (s.name ++ (bytes "/" ++ (s.version ++ (bytes "/" ++ s.addr))))

of_parts : List Str → Outcome KeyError Server
of_parts (name ∷ (addr ∷ [])) = ok (record no_server { name = name; addr = addr })
of_parts (name ∷ (version ∷ (addr ∷ []))) =
    ok (record no_server { name = name; addr = addr; version = version })
of_parts other = err invalid_key

unfoldable pub parse_key : Str → Outcome KeyError Server
unfolding of_parts
parse_key key = of_parts (split b'/' key)
