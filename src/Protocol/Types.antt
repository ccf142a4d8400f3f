-- ===== src/Protocol/Types.antt =====
-- framework/protocol/protocol.go: the constants and the types of the wire format.
use recreation_test.Base.{ℕ, List, [], ◌++◌, Bool, Option, Str}

abbrev pub route_compress_mask : ℕ
route_compress_mask = 0x01

abbrev pub type_mask : ℕ
type_mask = 0x07

abbrev pub gzip_mask : ℕ
gzip_mask = 0x10

abbrev pub error_mask : ℕ
error_mask = 0x20

abbrev pub header_len : ℕ
header_len = 4

abbrev pub max_packet_size : ℕ
max_packet_size = 16_777_216

-- The routes that a peer agreed to abbreviate: both directions are package variables.
pub record Dictionary : Type 0 where
  pub routes : List (Str × ℕ)
  pub codes : List (ℕ × Str)

-- A nil `data` and an empty one are the same list.
pub record Message : Type 0 where
  pub type : ℕ
  pub id : ℕ
  pub route : Str
  pub data_bytes : List ℕ
  pub route_compressed : Bool
  pub error : Bool

-- A map that is decoded from JSON is listed in the order in which `range` visits it; none is nil.
pub record Sys : Type 0 where
  pub type : Str
  pub version : Str
  pub proto_version : ℕ
  pub heartbeat : ℕ
  pub dict : Option (List (Str × ℕ))
  pub serializer : Str

pub record HandshakeBody : Type 0 where
  pub sys : Sys

pub data Body : Type 0 where
  empty : Body
  handshake : HandshakeBody → Body
  message : Message → Body

pub record Packet : Type 0 where
  pub type : ℕ
  pub len : ℕ
  pub body : Body

-- A byte slice: its elements, and what its backing array holds behind them up to the capacity.
-- Go checks an index against the length, but the upper bound of `s[lo:hi]` against the capacity.
pub record Slice : Type 0 where
  pub elems : List ℕ
  pub spare : List ℕ

abbrev pub backing : Slice → List ℕ
backing s = s.elems ++ s.spare

abbrev pub exactly : List ℕ → Slice
exactly xs = record { elems = xs; spare = [] }

pub data DecodeError : Type 0 where
  data_len_invalid handshake_json invalid_stream_type invalid_stream : DecodeError
  route_not_in_dictionary inflate_failed : DecodeError

pub data EncodeError : Type 0 where
  unsupported_package_type body_too_big : EncodeError
