-- ===== src/Stm.antt =====
-- bridge/internal/stm: the XML-RPC codec, the client and the transport.
pub mod Errors
pub mod Value
pub mod Base64
pub mod Xml
pub mod Client
pub mod Transport
pub mod Endpoint
pub mod Request
