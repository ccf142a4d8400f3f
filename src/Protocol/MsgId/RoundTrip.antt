-- ===== src/Protocol/MsgId/RoundTrip.antt =====
-- The message id is read back as it was written.
use recreation_test.Base.{
  ℕ, zero, suc, ◌+◌, ◌*◌, ◌/◌, ◌%◌, ◌^◌, ◌≤◌, ◌<◌, ◌≡◌, sym, ap, ◌∙◌, List, [], ◌∷◌, ◌++◌, arith,
  ltb, length, if◌then◌else◌, All,
}
use mathlib.Core.List.{append_assoc}
use mathlib.Core.WellFounded.{Acc}
use native.Mathlib.Nat.{div-add-mod}
use native.Mathlib.Numerals.{towards_suc}
use recreation_test.Base.Descent.{lt_wf}
use recreation_test.Base.Bits.{bit_and-low_seven}
use recreation_test.Protocol.MsgId.{encode_msg_id_loop, encode_msg_id, decode_msg_id_loop}

-- The groups of `id`, for `id` below 128 ^ (k + 1).
unfoldable pub groups : ℕ → ℕ → List ℕ
groups zero id = id ∷ []
groups (suc k) id =
    let rest = groups k (id / 128) in if ltb id 128 then id ∷ [] else (id % 128 + 128) ∷ rest

encode_msg_id_loop-groups :
    (k id : ℕ) (w : Acc ◌<◌ id) (buf : List ℕ)
    → id < 128 ^ suc k
    → encode_msg_id_loop id w buf ≡ buf ++ groups k id
unfolding encode_msg_id_loop groups
encode_msg_id_loop-groups zero id (Acc.intro _ smaller) buf h = ground arith
encode_msg_id_loop-groups (suc k) id (Acc.intro _ smaller) buf h =
    let first : List ℕ = (id % 128 + 128) ∷ [] in
    grind (
      arith,
      λ (w : Acc ◌<◌ (id / 128)).
          encode_msg_id_loop-groups k (id / 128) w (buf ++ first) (omega arith),
      append_assoc buf first (groups k (id / 128)),
    )

pub encode_msg_id-groups :
    (id : ℕ) (buf : List ℕ) → id < 2 ^ 64 → encode_msg_id id buf ≡ buf ++ groups 9 id
unfolding encode_msg_id
encode_msg_id-groups id buf h = encode_msg_id_loop-groups 9 id (lt_wf.apply id) buf (omega arith)

groups_shape :
    (k id : ℕ) → id < 128 ^ suc k → (1 ≤ length (groups k id)) × (length (groups k id) ≤ k + 1)
unfolding groups
groups_shape zero id h = omega arith
groups_shape (suc k) id h = ground (arith, groups_shape k (id / 128) (omega arith))

groups-bytes : (k id : ℕ) → id < 128 ^ suc k → All (λ b. b < 256) (groups k id)
unfolding groups
groups-bytes zero id h = omega arith
groups-bytes (suc k) id h = ground (arith, groups-bytes k (id / 128) (omega arith))

-- An id of 64 bits takes one to ten bytes, each of them a byte.
pub encode_msg_id_shape :
    (id : ℕ)
    → id < 2 ^ 64
    → All (λ b. b < 256) (encode_msg_id id [])
      × (1 ≤ length (encode_msg_id id []))
      × (length (encode_msg_id id []) ≤ 10)
encode_msg_id_shape id h =
    let (lo, hi) = groups_shape 9 id (omega arith) in
    rw (encode_msg_id-groups id [] h) (groups-bytes 9 id (omega arith), lo, hi)

next_shift : (k : ℕ) → 2 ^ (7 * (k + 1)) ≡ 128 * 2 ^ (7 * k)
next_shift k =
    let e : 7 * (k + 1) ≡ 7 * k + 7 = omega arith in rw e (simp towards_suc (omega arith))

split_id : (id k : ℕ) → id * 2 ^ (7 * k) ≡ id % 128 * 2 ^ (7 * k) + id / 128 * 2 ^ (7 * (k + 1))
split_id id k = omega (
  arith,
  ap (λ (t : ℕ). t * 2 ^ (7 * k)) (div-add-mod id 128),
  ap (λ (t : ℕ). id / 128 * t) (next_shift k),
)

last_group :
    (b k id : ℕ) (rest : List ℕ)
    → b < 128
    → id + b * 2 ^ (7 * k) < 2 ^ 64
    → decode_msg_id_loop (b ∷ rest) k id ≡ (id + b * 2 ^ (7 * k), k + 2)
unfolding decode_msg_id_loop
last_group b k id rest hb fits = ground (arith, bit_and-low_seven b)

inner_group :
    (g k id : ℕ) (rest : List ℕ)
    → g < 128
    → id + g * 2 ^ (7 * k) < 2 ^ 64
    → decode_msg_id_loop ((g + 128) ∷ rest) k id
      ≡ decode_msg_id_loop rest (k + 1) (id + g * 2 ^ (7 * k))
unfolding decode_msg_id_loop
inner_group g k id rest hg fits = ground (arith, bit_and-low_seven (g + 128))

decode_msg_id_loop-groups :
    (n id k acc : ℕ) (rest : List ℕ)
    → id < 128 ^ suc n
    → acc + id * 2 ^ (7 * k) < 2 ^ 64
    → decode_msg_id_loop (groups n id ++ rest) k acc
      ≡ (acc + id * 2 ^ (7 * k), k + 1 + length (groups n id))
unfolding groups
decode_msg_id_loop-groups zero id k acc rest h fits = ground (arith, last_group id k acc rest)
decode_msg_id_loop-groups (suc n) id k acc rest h fits = ground (
  arith,
  last_group id k acc rest,
  split_id id k,
  inner_group (id % 128) k acc (groups n (id / 128) ++ rest),
  decode_msg_id_loop-groups n (id / 128) (k + 1) (acc + id % 128 * 2 ^ (7 * k)) rest (omega arith),
)

-- The reader takes exactly the bytes that the writer appended, whatever follows them, and gives the
-- same id.
pub decode_msg_id_loop-encode_msg_id :
    (id : ℕ) (rest : List ℕ)
    → id < 2 ^ 64
    → decode_msg_id_loop (encode_msg_id id [] ++ rest) 0 0 ≡ (id, 1 + length (encode_msg_id id []))
decode_msg_id_loop-encode_msg_id id rest h =
    rw (encode_msg_id-groups id [] h)
      (ground (arith, decode_msg_id_loop-groups 9 id 0 0 rest (omega arith)))

-- The bytes of an id do not depend on the buffer that they are appended to.
pub encode_msg_id-append :
    (id : ℕ) (buf : List ℕ) → id < 2 ^ 64 → encode_msg_id id buf ≡ buf ++ encode_msg_id id []
encode_msg_id-append id buf h =
    encode_msg_id-groups id buf h ∙ ap (◌++◌ buf) (sym (encode_msg_id-groups id [] h))
