-- ===== src/Codec.antt =====
-- src/codec: the SDP wire format.
pub mod PduHeader
pub mod Descriptor
pub mod Element
pub mod Encode
pub mod Response
pub mod Extract
