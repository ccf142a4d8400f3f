-- ===== src/Protocol/Message/RoundTrip.antt =====
-- `MessageDecode` reads back what `MessageEncode` wrote.
use recreation_test.Base.{
  ℕ, zero, suc, ◌+◌, ◌-◌, ◌*◌, ◌/◌, ◌%◌, ◌^◌, ◌≤◌, ◌<◌, ◌≡◌, refl, ap, ◌∙◌, Bool, true, false, ◌||◌,
  ltb, not_ltb, ◌==◌, if◌then◌else◌, bit_and, bit_or, List, [], ◌∷◌, ◌++◌, length, drop, Option,
  none, some, Str, lookup, string_eq, ok, arith, inl, inr, Option-cases, Bool-cases, length-append,
  take-length-append, get_elem?-length-append, drop-length-append,
}
use mathlib.Core.List.{append_assoc, append-nil}
use recreation_test.Protocol.MessageType.{request, push}
use recreation_test.Protocol.Types.{Message, Dictionary}
use recreation_test.Protocol.Dictionary.{is_some, get_route}
use recreation_test.Protocol.Dictionary.Inverse.{IsInverse}
use recreation_test.Protocol.MsgId.{encode_msg_id, decode_msg_id_loop}
use recreation_test.Protocol.MsgId.RoundTrip.{
  decode_msg_id_loop-encode_msg_id, encode_msg_id-append,
}
use recreation_test.Protocol.Message.{
  msg_has_route, msg_has_id, encode_msg_flag, encode_msg_route, message_encode, slice,
  big_endian_u16, decode_route, decode_data, decode_tail, decode_fields, message_decode,
}

-- A message that the format can carry.
pub record IsSendable (d : Dictionary) (m : Message) : Type 0 where
  pub known_type : m.type ≤ push
  pub id_fits : m.id < 2 ^ 64
  pub route_fits : lookup m.route d.routes ≡ none → length m.route < 256

-- What arrives: the error flag is never sent, nor an id or a route that the type has no room for.
abbrev pub received : Dictionary → Message → Message
received d m = record m {
  id = if msg_has_id m.type then m.id else 0;
  route = if msg_has_route m.type then m.route else [];
  route_compressed = if msg_has_route m.type then is_some (lookup m.route d.routes) else false;
  error = false;
}

-- The parts of an encoding, each written to an empty buffer.
abbrev flag_of : Dictionary → Message → ℕ
flag_of d m =
    if is_some (lookup m.route d.routes) then bit_or (m.type * 2 % 2 ^ 8) 1 else m.type * 2 % 2 ^ 8

abbrev id_part : Message → List ℕ
id_part m = if msg_has_id m.type then encode_msg_id m.id [] else []

abbrev route_part : Option ℕ → Str → List ℕ
route_part none route = (length route % 2 ^ 8) ∷ route
route_part (some code) route = (code / 2 ^ 8 % 2 ^ 8) ∷ (code % 2 ^ 8) ∷ []

encode_msg_route-append :
    (code : Option ℕ) (route buf : List ℕ)
    → encode_msg_route code route buf ≡ buf ++ route_part code route
unfolding encode_msg_route
encode_msg_route-append none route buf = append_assoc buf _ route
encode_msg_route-append (some code) route buf = append_assoc buf _ _

module _ (d : Dictionary) (m : Message) (fits : m.id < 2 ^ 64) where
  with_id_lem :
      (flagged : List ℕ)
      → (if msg_has_id m.type then encode_msg_id m.id flagged else flagged) ≡ flagged ++ id_part m
  with_id_lem flagged = ground (arith, encode_msg_id-append m.id flagged fits, append-nil flagged)

  with_route_lem :
      (code : Option ℕ) (buf : List ℕ)
      → (if msg_has_route m.type then encode_msg_route code m.route buf else buf)
        ≡ buf ++ (if msg_has_route m.type then route_part code m.route else [])
  with_route_lem code buf = ground (arith, encode_msg_route-append code m.route buf, append-nil buf)

  message_encode_parts :
      message_encode d m
      ≡ flag_of d m
        ∷ (id_part m
            ++ ((if msg_has_route m.type then route_part (lookup m.route d.routes) m.route else [])
                ++ m.data_bytes))
  unfolding message_encode encode_msg_flag
  message_encode_parts =
      let code = lookup m.route d.routes in
      let flagged = flag_of d m ∷ [] in
      let route = if msg_has_route m.type then route_part code m.route else [] in
      ap (λ (t : List ℕ). t ++ m.data_bytes)
        (with_route_lem code (if msg_has_id m.type then encode_msg_id m.id flagged else flagged)
          ∙ ap (λ (t : List ℕ). t ++ route) (with_id_lem flagged))
      ∙ append_assoc (flagged ++ id_part m) route m.data_bytes

flag_facts :
    (t : ℕ) (c : Bool)
    → t ≤ 3
    → let f = if c then bit_or (t * 2 % 2 ^ 8) 1 else t * 2 % 2 ^ 8 in
      (bit_and (f / 2) 7 ≡ t)
      × ((bit_and f 1 == 1) ≡ c)
      × ((bit_and f 0x20 == 0x20) ≡ false)
      × ((bit_and f 0x10 == 0x10) ≡ false)
flag_facts zero true h = (refl, refl, refl, refl)
flag_facts zero false h = (refl, refl, refl, refl)
flag_facts (suc zero) true h = (refl, refl, refl, refl)
flag_facts (suc zero) false h = (refl, refl, refl, refl)
flag_facts (suc (suc zero)) true h = (refl, refl, refl, refl)
flag_facts (suc (suc zero)) false h = (refl, refl, refl, refl)
flag_facts (suc (suc (suc zero))) true h = (refl, refl, refl, refl)
flag_facts (suc (suc (suc zero))) false h = (refl, refl, refl, refl)
flag_facts (suc (suc (suc (suc t)))) c h = absurd (omega arith)

-- A slice whose bounds are the ends of a middle part is that part.
slice-append :
    (pre mid post spare : List ℕ) (lo hi : ℕ)
    → lo ≡ length pre
    → hi ≡ length pre + length mid
    → slice (record { elems = pre ++ (mid ++ post); spare = spare }) lo hi ≡ some mid
slice-append pre mid post spare lo hi elo ehi =
    let whole : List ℕ = (pre ++ (mid ++ post)) ++ spare in
    let split : whole ≡ pre ++ (mid ++ (post ++ spare)) =
      append_assoc pre (mid ++ post) spare ∙ ap (◌++◌ pre) (append_assoc mid post spare) in
    let width : hi - lo ≡ length mid = omega arith in
    rw (split, width, elo)
      (ground (
        arith,
        drop-length-append pre (mid ++ (post ++ spare)),
        take-length-append mid (post ++ spare),
        length-append pre (mid ++ (post ++ spare)),
        length-append mid (post ++ spare),
      ))

slice_after :
    (pre skipped mid post spare : List ℕ) (lo hi : ℕ)
    → lo ≡ length (pre ++ skipped)
    → hi ≡ length (pre ++ skipped) + length mid
    → slice (record { elems = pre ++ (skipped ++ (mid ++ post)); spare = spare }) lo hi ≡ some mid
slice_after pre skipped mid post spare lo hi elo ehi =
    rw (append_assoc pre skipped (mid ++ post)) at
      (slice-append (pre ++ skipped) mid post spare lo hi elo ehi)

module _ (d : Dictionary) (v : IsInverse d) (pre post spare : List ℕ) where
  decode_route_plain :
      (route : Str) (flag : ℕ)
      → (bit_and flag 1 == 1) ≡ false
      → length route < 256
      → decode_route d
          (record { elems = pre ++ (route_part none route ++ post); spare = spare })
          flag
          (length pre)
        ≡ ok (route, length pre + length (route_part none route), false)
  unfolding decode_route
  decode_route_plain route flag f h =
      let rl = length route % 256 in
      rw (f, get_elem?-length-append pre rl (route ++ post))
        (rw
          (slice_after pre (rl ∷ []) route post spare (length pre + 1) (length pre + 1 + rl)
            (omega (arith, length-append pre (rl ∷ [])))
            (omega (arith, length-append pre (rl ∷ []))))
          (ground arith))

  decode_route_coded :
      (route : Str) (code flag : ℕ)
      → (bit_and flag 1 == 1) ≡ true
      → lookup route d.routes ≡ some code
      → decode_route d
          (record { elems = pre ++ (route_part (some code) route ++ post); spare = spare })
          flag
          (length pre)
        ≡ ok (route, length pre + 2, true)
  unfolding decode_route big_endian_u16 get_route
  decode_route_coded route code flag f e =
      let two : List ℕ = (code / 256 % 256) ∷ (code % 256) ∷ [] in
      let same : code / 256 % 256 * 256 + code % 256 ≡ code =
        omega (arith, v.narrow route code e) in
      rw (f, slice-append pre two post spare (length pre) (length pre + 2) refl refl)
        (rw (same, v.there route code e))

-- The middle part of an encoding: what `decode_fields` finds where it looks for the route.
module _ (d : Dictionary) (m : Message) (v : IsInverse d) (s : IsSendable d m) where
  abbrev route_bytes : List ℕ
  route_bytes = if msg_has_route m.type then route_part (lookup m.route d.routes) m.route else []

  -- The place where the route ends, in the form that the decoder passes on.
  abbrev place : ℕ → Str × ℕ × Bool
  place offset = (
    if msg_has_route m.type then m.route else [],
    offset + length route_bytes,
    if msg_has_route m.type then is_some (lookup m.route d.routes) else false,
  )

  decode_place :
      (pre spare : List ℕ) (flag : ℕ)
      → (bit_and flag 1 == 1) ≡ is_some (lookup m.route d.routes)
      → (if msg_has_route m.type
          then decode_route d
              (record { elems = pre ++ (route_bytes ++ m.data_bytes); spare = spare })
              flag
              (length pre)
          else ok ([], length pre, false))
        ≡ ok (place (length pre))
  decode_place pre spare flag f = elim (Bool-cases (msg_has_route m.type)) [
    | inr bare ↦ rw bare (ground arith)
    | inl routed ↦ rw routed (elim (Option-cases (lookup m.route d.routes)) [
      | inl unknown ↦ rw unknown (
          decode_route_plain d v pre m.data_bytes spare m.route flag (f ∙ ap is_some unknown)
            (s.route_fits unknown))
      | inr (code, known) ↦ rw known (
          decode_route_coded d v pre m.data_bytes spare m.route code flag (f ∙ ap is_some known)
            known)
    ])
  ]

  decode_place_at :
      (pre spare : List ℕ) (flag offset : ℕ)
      → (bit_and flag 1 == 1) ≡ is_some (lookup m.route d.routes)
      → offset ≡ length pre
      → (if msg_has_route m.type
          then decode_route d
              (record { elems = pre ++ (route_bytes ++ m.data_bytes); spare = spare })
              flag
              offset
          else ok ([], offset, false))
        ≡ ok (place offset)
  decode_place_at pre spare flag offset f e = rw e (decode_place pre spare flag f)

  -- Behind the route stands the data.
  drop_place :
      (pre : List ℕ) (offset : ℕ)
      → offset ≡ length pre
      → (drop (offset + length route_bytes) (pre ++ (route_bytes ++ m.data_bytes)) ≡ m.data_bytes)
        × (offset + length route_bytes ≤ length (pre ++ (route_bytes ++ m.data_bytes)))
  drop_place pre offset e =
      let whole = append_assoc pre route_bytes m.data_bytes in
      let width : offset + length route_bytes ≡ length (pre ++ route_bytes) =
        omega (arith, length-append pre route_bytes) in
      (
        rw (width, ← whole) (drop-length-append (pre ++ route_bytes) m.data_bytes),
        omega (
          arith,
          length-append pre (route_bytes ++ m.data_bytes),
          length-append route_bytes m.data_bytes,
        ),
      )

  decode_msg_id_part :
      (rest : List ℕ)
      → (if msg_has_id m.type then decode_msg_id_loop (id_part m ++ rest) 0 0 else (0, 1))
        ≡ (if msg_has_id m.type then m.id else 0, 1 + length (id_part m))
  decode_msg_id_part rest = ground (arith, decode_msg_id_loop-encode_msg_id m.id rest)

  decode_sent :
      (inflate : List ℕ → Option (List ℕ)) (spare : List ℕ)
      → message_decode inflate d (record {
        elems = flag_of d m ∷ (id_part m ++ (route_bytes ++ m.data_bytes));
        spare = spare;
      })
        ≡ ok (received d m)
  unfolding message_decode decode_fields decode_tail decode_data
  decode_sent inflate spare =
      let (type_ok, coded, no_error, no_gzip) =
        flag_facts m.type (is_some (lookup m.route d.routes)) s.known_type in
      let pre = flag_of d m ∷ id_part m in
      let offset = 1 + length (id_part m) in
      let (behind, within) = drop_place pre offset (omega arith) in
      let total = length (pre ++ (route_bytes ++ m.data_bytes)) in
      let known : (ltb m.type request || ltb push m.type) ≡ false = ground (arith, s.known_type) in
      rw (type_ok, decode_msg_id_part (route_bytes ++ m.data_bytes))
        (rw (decode_place_at pre spare (flag_of d m) offset coded (omega arith)) (
          rw (behind, no_gzip, no_error)
            (rw (known, not_ltb total offset (omega arith), not_ltb total _ within))))

-- A message that the format can carry is decoded as it was encoded, whatever stands behind the slice
-- in its backing array: same type, id and route if the type has them, same data. The error flag is
-- lost, and the mark of a compressed route is set exactly if the dictionary knows the route.
pub message_decode-message_encode :
    (inflate : List ℕ → Option (List ℕ)) (d : Dictionary) (m : Message) (spare : List ℕ)
    → IsInverse d
    → IsSendable d m
    → message_decode inflate d (record { elems = message_encode d m; spare = spare })
      ≡ ok (received d m)
message_decode-message_encode inflate d m spare v s =
    rw (message_encode_parts d m s.id_fits) (decode_sent d m v s inflate spare)
