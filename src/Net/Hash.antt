-- ===== src/Net/Hash.antt =====
-- `fnv32` of framework/net/ws_manager.go: the 32-bit FNV-1a hash of hash/fnv.
use Prim.Native.Nat.{bit_xor}
use recreation_test.Base.{ℕ, ◌*◌, ◌%◌, ◌^◌, ◌<◌, List, [], ◌∷◌, Str, arith}

fnv_loop : ℕ → List ℕ → ℕ
fnv_loop h [] = h
fnv_loop h (b ∷ rest) = fnv_loop (bit_xor h b * 16_777_619 % 2 ^ 32) rest

unfoldable pub fnv32 : Str → ℕ
unfolding fnv_loop
fnv32 key = fnv_loop 2_166_136_261 key

fnv_loop-lt : (h : ℕ) (s : List ℕ) → h < 2 ^ 32 → fnv_loop h s < 2 ^ 32
unfolding fnv_loop
fnv_loop-lt h [] small = small
fnv_loop-lt h (b ∷ rest) small = fnv_loop-lt (bit_xor h b * 16_777_619 % 2 ^ 32) rest (omega arith)

-- The hash is a 32-bit number.
pub fnv32-lt : (key : Str) → fnv32 key < 2 ^ 32
unfolding fnv32
fnv32-lt key = fnv_loop-lt _ key (omega arith)
