-- ===== src/Client/IncludedFile.antt =====
-- internal/client/includes-collector.go: a dependency of a .cpp, with its full path.
-- A size of -1 is `none`.
use nocc.Common.Sha256.{Sha256}
use nocc.Prelude.{ℕ, Option, Bytes}

pub record IncludedFile : Type 0 where
  pub file_name : Bytes
  pub file_size : Option ℕ
  pub file_sha256 : Sha256
