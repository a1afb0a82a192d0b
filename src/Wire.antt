-- ===== src/Wire.antt =====
-- The wire between daemon and clients: what internal/protocol/protocol.go and clients/go/wire.go use of
-- encoding/json and bufio, each on its side.
pub mod Json
pub mod Lines
