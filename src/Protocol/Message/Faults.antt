-- ===== src/Protocol/Message/Faults.antt =====
-- What `MessageDecode` does with a body that promises more bytes than it has.
use recreation_test.Base.{
  zero, ap, ℕ, suc, ◌+◌, ◌-◌, ◌≤◌, ◌≡◌, refl, false, leb, if◌then◌else◌, List, [], ◌∷◌, ◌++◌,
  length, take, drop, Option, ok, err, panic, arith, length-append,
}
use recreation_test.Protocol.MessageType.{notify}
use recreation_test.Protocol.Types.{Message, Dictionary, Slice, invalid_stream}
use recreation_test.Protocol.Message.{
  message_decode, decode_fields, decode_route, decode_tail, decode_data, msg_has_id, msg_has_route,
}

-- An empty body crashes the decoder.
pub message_decode_empty :
    (inflate : List ℕ → Option (List ℕ)) (d : Dictionary) (spare : List ℕ)
    → message_decode inflate d (record { elems = []; spare = spare }) ≡ panic
unfolding message_decode
message_decode_empty inflate d spare = refl

abbrev pub notified : ℕ → List ℕ → Message
notified rl rest = record {
  type = notify;
  id = 0;
  route = take rl rest;
  data_bytes = drop rl rest;
  route_compressed = false;
  error = false;
}

module _ {ℓ} {A : Type ℓ} where
  take-append_le : (n : ℕ) (xs ys : List A) → n ≤ length xs → take n (xs ++ ys) ≡ take n xs
  take-append_le zero xs ys h = refl
  take-append_le (suc n) [] ys h = absurd (omega arith)
  take-append_le (suc n) (x ∷ xs) ys h = ap (◌∷◌ x) (take-append_le n xs ys (omega arith))

module _ (inflate : List ℕ → Option (List ℕ)) (d : Dictionary) (rl : ℕ) (rest spare : List ℕ) where
  abbrev pub body : Slice
  body = record { elems = 0x02 ∷ rl ∷ rest; spare = spare }

  decode_plain_route : decode_route d body 0x02 1 ≡ (
      if leb rl (length (rest ++ spare))
      then ok (take rl (rest ++ spare), suc (suc rl), false)
      else panic)
  unfolding decode_route
  decode_plain_route =
      let up : 1 + 1 + rl ≡ suc (suc rl) = omega arith in
      let width : suc (suc rl) - 2 ≡ rl = omega arith in rw (up, width) (ground arith)

  decode_notified :
      decode_tail inflate body
        (record {
          type = notify;
          id = 0;
          route = [];
          data_bytes = [];
          route_compressed = false;
          error = false;
        })
        0x02
        (take rl (rest ++ spare), suc (suc rl), false)
      ≡ (if leb rl (length rest) then ok (notified rl rest) else err invalid_stream)
  unfolding decode_tail decode_data
  decode_notified = ground (arith, take-append_le rl rest spare)

  -- A notification with a plain route, whose length byte promises `rl` bytes: it is decoded if the
  -- slice has them; it is an error if only the backing array behind the slice has them, though the
  -- route is then read from there first; and it crashes the decoder if the array ends before.
  pub message_decode-notified : message_decode inflate d body ≡ (
      if leb rl (length rest)
      then ok (notified rl rest)
      else if leb rl (length rest + length spare)
      then err invalid_stream
      else panic)
  unfolding message_decode decode_fields msg_has_id msg_has_route
  message_decode-notified =
      ground (arith, decode_plain_route, decode_notified, length-append rest spare)
