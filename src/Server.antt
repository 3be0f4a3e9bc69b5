-- ===== src/Server.antt =====
-- The server: internal/server.
pub mod FileCache
pub mod SystemHeaders
pub mod CxxCapability
pub mod Client
pub mod CompilerOptions
pub mod Coverage
pub mod Session
pub mod ObjCache
pub mod Handlers
pub mod ClientsStorage
pub mod Sending
pub mod Launcher
mod Tests
