-- ===== src/MiniRpc.antt =====
-- code/MiniRPC: the messages of the protocol their codec, and
-- the client.
pub mod Protocol
pub mod Wire
pub mod Reader
pub mod Metadata
pub mod Frame
pub mod Codec
pub mod Client
pub mod Registry
pub mod Server
pub mod Future
mod Tests
