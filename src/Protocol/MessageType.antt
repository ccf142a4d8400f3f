-- ===== src/Protocol/MessageType.antt =====
-- framework/protocol/protocol.go: `MessageType`, a byte with any value that a byte can have, and
-- its named values.
use recreation_test.Base.{ℕ}

abbrev pub request : ℕ
request = 0x00

abbrev pub notify : ℕ
notify = 0x01

abbrev pub response : ℕ
response = 0x02

abbrev pub push : ℕ
push = 0x03
