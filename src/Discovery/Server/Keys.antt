-- ===== src/Discovery/Server/Keys.antt =====
-- What `ParseKey` makes of the keys that `BuildRegisterKey` builds.
use recreation_test.Base.{
  ◌≡◌, ◌≢◌, ap, ◌∙◌, ◌==◌, [], ◌∷◌, ◌++◌, length, bytes, false, arith, ok, err,
}
use recreation_test.Base.Text.{split, split-free, split-append, IsFree}
use recreation_test.Discovery.Server.{Server, no_server, invalid_key, build_register_key, parse_key}

-- The name, the address and the version hold no slash.
pub record IsPlain (s : Server) : Type 0 where
  pub name_free : IsFree b'/' s.name
  pub addr_free : IsFree b'/' s.addr
  pub version_free : IsFree b'/' s.version

module _ (s : Server) (p : IsPlain s) where
  split-key_short :
      split b'/' (bytes "/" ++ (s.name ++ (bytes "/" ++ s.addr))) ≡ [] ∷ s.name ∷ s.addr ∷ []
  split-key_short =
      split-append b'/' [] (s.name ++ (bytes "/" ++ s.addr)) tt
      ∙ ap (◌∷◌ []) (
          split-append b'/' s.name s.addr p.name_free
          ∙ ap (◌∷◌ s.name) (split-free b'/' s.addr p.addr_free))

  split-key_long :
      split b'/' (bytes "/" ++ (s.name ++ (bytes "/" ++ (s.version ++ (bytes "/" ++ s.addr)))))
      ≡ [] ∷ s.name ∷ s.version ∷ s.addr ∷ []
  split-key_long =
      split-append b'/' [] (s.name ++ (bytes "/" ++ (s.version ++ (bytes "/" ++ s.addr)))) tt
      ∙ ap (◌∷◌ []) (
          split-append b'/' s.name (s.version ++ (bytes "/" ++ s.addr)) p.name_free
          ∙ ap (◌∷◌ s.name) (
              split-append b'/' s.version s.addr p.version_free
              ∙ ap (◌∷◌ s.version) (split-free b'/' s.addr p.addr_free)))

long_key : (s : Server) → s.version ≢ [] → (length s.version == 0) ≡ false
long_key s h = ground arith

-- The leading slash of a built key is a part of its own, so the key of a server with a version is
-- refused, and that of one without is read with an empty name, the name in place of the version, and the
-- right address.
pub parse_key-build_register_key :
    (s : Server)
    → IsPlain s
    → (s.version ≢ [] → parse_key (build_register_key s) ≡ err invalid_key)
      × (s.version ≡ []
          → parse_key (build_register_key s)
            ≡ ok (record no_server { addr = s.addr; version = s.name }))
unfolding parse_key build_register_key
parse_key-build_register_key s p =
    (λ h. rw (long_key s h) (rw (split-key_long s p)), λ h. rw h (rw (split-key_short s p)))
