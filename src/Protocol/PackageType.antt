-- ===== src/Protocol/PackageType.antt =====
-- framework/protocol/protocol.go: `PackageType`, a byte with any value that a byte can have, and
-- its named values.
use recreation_test.Base.{ℕ}

abbrev pub none : ℕ
none = 0x00

abbrev pub handshake : ℕ
handshake = 0x01

abbrev pub handshake_ack : ℕ
handshake_ack = 0x02

abbrev pub heartbeat : ℕ
heartbeat = 0x03

abbrev pub data_packet : ℕ
data_packet = 0x04

abbrev pub kick : ℕ
kick = 0x05
