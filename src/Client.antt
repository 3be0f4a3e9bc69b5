-- ===== src/Client.antt =====
-- The client daemon: internal/client.
pub mod Routing
pub mod IncludeDirs
pub mod Waiting
pub mod FileNames
pub mod DepFiles
pub mod IncludedFile
pub mod DepFlags
pub mod Uploading
pub mod Receiving
pub mod CmdLine
pub mod CmdOptions
pub mod IncludeStatements
pub mod IncludesCache
pub mod OwnIncludes
pub mod Daemon
pub mod Connecting
pub mod Compiling
pub mod Retries
mod Tests
