-- ===== src/Protocol.antt =====
-- protocol/: the wire format of the feed.
pub mod ByteOrder
pub mod Messages
pub mod Encoder
pub mod Decoder
pub mod RoundTrip
