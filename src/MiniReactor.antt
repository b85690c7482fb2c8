-- ===== src/MiniReactor.antt =====
-- code/MiniReactor: the byte buffer of its connections.
pub mod Buffer
pub mod Connection
pub mod Connector
mod Tests
