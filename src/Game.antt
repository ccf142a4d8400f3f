-- ===== src/Game.antt =====
-- framework/game: the server and game configuration.
pub mod Config
