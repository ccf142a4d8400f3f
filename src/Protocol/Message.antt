-- ===== src/Protocol/Message.antt =====
-- framework/protocol/protocol.go: `MessageEncode` and `MessageDecode` with their helpers.
-- `InflateData` calls zlib, and is the parameter `inflate`.
pub mod RoundTrip
pub mod Faults
use recreation_test.Base.{
  ℕ, ◌+◌, ◌-◌, ◌*◌, ◌/◌, ◌%◌, ◌^◌, Bool, true, false, ◌||◌, ltb, leb, ◌==◌, if◌then◌else◌, bit_and,
  bit_or, List, [], ◌∷◌, ◌++◌, length, get_elem?, take, drop, Option, none, some, Str, lookup,
  string_eq, Outcome, ok, err, panic, ◌>>=◌, or_panic, or_err,
}
use recreation_test.Protocol.MessageType.{request, notify, response, push}
use recreation_test.Protocol.Types.{
  Message, Dictionary, Slice, backing, route_compress_mask, type_mask, gzip_mask, error_mask,
  DecodeError, invalid_stream_type, invalid_stream, route_not_in_dictionary, inflate_failed,
}
use recreation_test.Protocol.Dictionary.{is_some, get_route}
use recreation_test.Protocol.MsgId.{encode_msg_id, decode_msg_id_loop}

unfoldable pub msg_has_route : ℕ → Bool
msg_has_route t = t == request || t == notify || t == push

unfoldable pub msg_has_id : ℕ → Bool
msg_has_id t = t == request || t == response

unfoldable pub encode_msg_flag : ℕ → Bool → List ℕ → List ℕ
encode_msg_flag t compressed buf =
    let flag = t * 2 % 2 ^ 8 in
    buf ++ ((if compressed then bit_or flag route_compress_mask else flag) ∷ [])

-- `code` is what `routes[m.Route]` gives: the code, if the route has one.
unfoldable pub encode_msg_route : Option ℕ → Str → List ℕ → List ℕ
encode_msg_route none route buf = (buf ++ (length route % 2 ^ 8 ∷ [])) ++ route
encode_msg_route (some code) route buf = (buf ++ (code / 2 ^ 8 % 2 ^ 8 ∷ [])) ++ (code % 2 ^ 8 ∷ [])

-- The error result of `MessageEncode` is always nil.
unfoldable pub message_encode : Dictionary → Message → List ℕ
message_encode d m =
    let code = lookup m.route d.routes in
    let flagged = encode_msg_flag m.type (is_some code) [] in
    let with_id = if msg_has_id m.type then encode_msg_id m.id flagged else flagged in
    let with_route =
      if msg_has_route m.type then encode_msg_route code m.route with_id else with_id in
    with_route ++ m.data_bytes

-- `s[lo:hi]` for `lo` at most `hi`.
abbrev pub slice : Slice → ℕ → ℕ → Option (List ℕ)
slice s lo hi =
    if leb hi (length (backing s)) then some (take (hi - lo) (drop lo (backing s))) else none

unfoldable pub big_endian_u16 : List ℕ → Option ℕ
big_endian_u16 (hi ∷ lo ∷ rest) = some (hi * 256 + lo)
big_endian_u16 other = none

-- The route with the offset behind it and whether it was compressed.
unfoldable pub decode_route : Dictionary → Slice → ℕ → ℕ → Outcome DecodeError (Str × ℕ × Bool)
decode_route d body flag offset =
    if bit_and flag route_compress_mask == 1
    then (do
      two ← or_panic (slice body offset (offset + 2))
      code ← or_panic (big_endian_u16 two)
      route ← or_err route_not_in_dictionary (get_route d code)
      ok (route, offset + 2, true))
    else (do
      rl ← or_panic (get_elem? body.elems offset)
      route ← or_panic (slice body (offset + 1) (offset + 1 + rl))
      ok (route, offset + 1 + rl, false))

-- zlib, which `InflateData` calls on a body with the compression mark: none is an error.
module _ (inflate : List ℕ → Option (List ℕ)) where
  unfoldable pub decode_data : ℕ → List ℕ → Outcome DecodeError (List ℕ)
  decode_data flag payload =
      if bit_and flag gzip_mask == gzip_mask
      then or_err inflate_failed (inflate payload)
      else ok payload

  unfoldable pub decode_tail : Slice → Message → ℕ → Str × ℕ × Bool → Outcome DecodeError Message
  decode_tail body m flag (route, offset, compressed) =
      if ltb (length body.elems) offset then err invalid_stream else (do
        payload ← decode_data flag (drop offset body.elems)
        ok (record m { route = route; route_compressed = compressed; data_bytes = payload }))

  -- The guard `offset > dataLen` behind the id never holds, since that offset is in range.
  unfoldable pub decode_fields : Dictionary → Slice → ℕ → ℕ → Outcome DecodeError Message
  decode_fields d body flag type =
      let (id, offset) =
        if msg_has_id type then decode_msg_id_loop (drop 1 body.elems) 0 0 else (0, 1) in
      let m : Message = record {
        type = type;
        id = id;
        route = [];
        data_bytes = [];
        route_compressed = false;
        error = bit_and flag error_mask == error_mask;
      } in
      if ltb (length body.elems) offset then err invalid_stream else (do
        place ←
            if msg_has_route type then decode_route d body flag offset else ok ([], offset, false)
        decode_tail body m flag place)

  unfoldable pub message_decode : Dictionary → Slice → Outcome DecodeError Message
  message_decode d body = do
    flag ← or_panic (get_elem? body.elems 0)
    let type = bit_and (flag / 2) type_mask
    if ltb type request || ltb push type
        then err invalid_stream_type
        else decode_fields d body flag type
