-- ===== src/Lib.antt =====
-- nocc: a distributed C++ compiler, its client daemon and its server, as definitions and theorems.
--
-- A client (nocc-daemon, internal/client) parses a compiler's command line, collects the files that
-- a .cpp depends on, chooses a server, uploads what the server misses and receives the object. A
-- server (nocc-server, internal/server) keeps the files by sha256, compiles when all are there, and
-- keeps objects by a key over all that went into them.
--
-- - Prelude: Boolean tests, lists over the native numbers, byte strings, Go maps (Prelude/Dict).
-- - Common/Sha256: internal/common/sha256-struct.go.
-- - Server/FileCache: internal/server/file-cache.go. The state is the record `FileCache`, with the
--   heap of list nodes written out, so that a pointer is an address and nil is `none`.
--   `lookup_in_cache` is `LookupInCache`, `save_file_to_cache` `SaveFileToCache`, `purge_till_limit`
--   `purgeLastElementsTillLimit`, `drop_all` `DropAll`. Each takes the answers of the file system as
--   arguments. The purge loop runs on fuel, and its theorems say which fuel is enough.
--
-- - Server/Client: internal/server/client.go. `Client` is the record with its files and sessions on two
--   heaps, so that a pointer is an address; `FileState` are the fsFileState constants. `start_using_files`
--   is the loop of CreateNewSession; `start_using_file_in_session` takes the client as the read lock
--   shows it and as the write lock does. Client/Files, Client/Opening and Client/Names have the proofs.
-- - Server/Session: internal/server/session.go and launchCxxOnServerOnReadySessions of nocc-server.go:
--   the command line, `start_compiling_obj_if_possible`, and the channel of ready sessions. A goroutine
--   that runs a compiler is an entry of `launched`. Session/Waking has the proofs.
-- - Server/Handlers: internal/server/nocc-server.go. `visit_file` is the switch over a file's state and
--   `visit_files` its loop; Handlers/Starting has StartCompilationSession from the first check to the
--   reply, Handlers/Uploads UploadFileStream with receiveUploadedFileByChunks of files-stream-server.go,
--   Handlers/Clients StartClient, StopClient and DropAllCaches,
--   Handlers/Replies the end of LaunchCxxWhenPossible (cxx-launcher.go) and RecvCompiledObjStream.
--   Handlers/Visiting is about the loop, Handlers/Waking about the sessions of a client in all states
--   that these handlers reach (Handlers/Waking/Reaching).
-- - Server/Launcher: the channel and the counters of cxx-launcher.go. A goroutine of
--   LaunchCxxWhenPossible is a `Phase`, the place in it where it stands, and `advance` its next step; a
--   send on a full channel blocks. The steps of the goroutines come in any order.
-- - Server/CxxCapability: cxx-capability.go. Server/SystemHeaders: system-headers.go.
--   Server/ClientsStorage: clients-storage.go. Server/ObjCache: obj-cache.go.
--   Server/CompilerOptions: compiler-options.go. Server/Coverage: coverage.go.
--   Common/CompilerKilled: internal/common/compiler-killed.go.
-- - Client/Routing: the choice of a server and the retries of internal/client/daemon.go, with what
--   internal/client/remote-connection.go remembers of a server. How an attempt ends is an argument.
--   Client/IncludeDirs: include-dirs.go. Client/FileNames: the names of files of invocation.go.
--   Client/CmdOptions and Client/CmdLine: its ParseCmdLineInvocation, an option in `parse_option`
--   (CmdOptions/Chain), one round in `parse_arg` and the loop in `parse_args`, on fuel: a round for each
--   argument is enough.
--   Client/Waiting: its wait counters. The loops of retries and of ForceInterrupt run on fuel, and
--   their theorems say which fuel is enough.
-- - Client/Daemon: the daemon of internal/client/daemon.go with its remotes and the invocations in flight.
--   An invocation's connection is the address of its grpc client, of which each connection has its own.
--   Client/Compiling: tryCompileCppRemotely and compile-remotely.go, where what the remote replies and
--   what other goroutines do meanwhile are arguments. Client/Connecting: MakeRemoteConnection and
--   reconnectUnavailableRemotes. Client/Retries: compileCppRemotelyWithRetries over these, on fuel: more
--   than the retries is enough. The interruption of an invocation takes one round more than its uploads.
-- - Client/DepFiles: internal/client/dep-files.go. A parser takes what is left of the text instead of
--   an offset. Its loops run on fuel, a unit for each byte that is left, and Client/DepFiles/Ending says
--   that this is enough. Client/DepFlags: dep-cmd-flags.go. Common/FileSystem: ReplaceFileExt.
-- - Client/IncludeStatements: collectIncludeStatementsInFile of internal/client/own-includes-parser.go.
--   An index of -1 is `none`; a round of the loop is `scan_step`. The loop runs on fuel: one round more
--   than the bytes is enough where the file ends in an end of line, and Hanging says where none is.
--   Places, Stepping and Finding follow the loop along a file that is put together of its statements.
-- - Client/OwnIncludes: the rest of own-includes-parser.go, with includes-cache.go in Client/IncludesCache.
--   `attempt` is onEachResolveAttempt, `try_each` the loops of resolveIncludedArg over `candidates`, and
--   `on_hash_include` runs on fuel, a unit for each level of the recursion: Dependencies says that more
--   than the existing files is enough. A result is `went`, a panic or an endless scan `stuck`, and the
--   end of the fuel `spent`. The disk answers the same for the whole collection.
-- - Client/Uploading, Client/Receiving, Server/Sending: the chunks of internal/client/files-uploading.go,
--   files-receiving.go and of sendObjFileByChunks of internal/server/files-stream-server.go. A stream is
--   the list of the chunks that come on it, and has ended behind them; what each read of a file gives,
--   and how many sends succeed, are arguments. Streams has the two ends together.
-- - Discovery: internal/discovery/merge.go. How a host and its port are split, and the addresses of a
--   name, are arguments; names are ASCII text.
-- - Server/Tests and the other modules named Tests: runs on small data, and the theorems at these.
--
-- A handler is one step on its client and on the caches: other goroutines run between handlers, and a
-- panic, or a send that blocks for ever, is `none`. The data race on file.state between two handlers
-- of one client is so left out, but for the two looks of StartUsingFileInSession. What the disk, the
-- clock, the streams and the compilers answer are arguments; the hash of a text is a parameter.
--
-- Not modelled: the format of the files of internal/common/own-pch-files.go, whose name, hash and size
-- are arguments, and the hard links to compiled pch files; internal/common/cmd-env-flags.go and
-- internal/client/manage-servers.go, which read settings and print what servers answer; logs and
-- statistics; the client's streams and sockets and the start of its daemon, which are calls of
-- libraries; and its runs of cxx -M, whose output another program writes.
--
-- Sizes and counters are natural numbers: they stay below 2 ^ 63. A critical section under the
-- cache's mutex is one step; steps of other goroutines stand between operations only.
pub mod Client
pub mod Common
pub mod Discovery
pub mod Prelude
pub mod Server
pub mod Streams
