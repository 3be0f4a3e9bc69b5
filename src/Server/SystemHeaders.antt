-- ===== src/Server/SystemHeaders.antt =====
-- internal/server/system-headers.go: which headers the server has itself, remembered by their paths.
pub mod Agreement
use nocc.Common.Sha256.{Sha256, sha256_comparable}
use nocc.Prelude.Dict.{Dict, get, put}
use nocc.Prelude.Text.{has_prefix, ascii}
use nocc.Prelude.{
  ℕ, Bool, true, false, ◌&&◌, ◌||◌, Option, none, some, List, [], ◌∷◌, Bytes, length, ◌==◌,
  bytes_comparable, nat_comparable,
}

pub record SystemHeader : Type 0 where
  pub server_file_name : Bytes
  pub file_size : ℕ
  pub file_sha256 : Sha256

-- `none` as a value is a path that is known not to be a header.
pub record SystemHeadersCache : Type 0 where
  pub headers : Dict Bytes (Option SystemHeader)

-- What the file system answers: `os.Stat`'s size and the hash of the contents, `none` for an error.
pub record Disk : Type 0 where
  pub stat_size : Bytes → Option ℕ
  pub file_hash : Bytes → Option Sha256

unfoldable pub make_system_headers_cache : SystemHeadersCache
make_system_headers_cache = record { headers = [] }

abbrev usr_local : Bytes
usr_local = ascii "/usr/local/"

abbrev usr_src : Bytes
usr_src = ascii "/usr/src/"

abbrev mac_library : Bytes
mac_library = ascii "/Library/"

unfoldable pub is_system_header_path : Bytes → Bool
unfolding has_prefix
is_system_header_path p =
    has_prefix p usr_local || (has_prefix p usr_src || has_prefix p mac_library)

-- `header != nil && header.fileSize == fileSize && header.fileSHA256 == fileSHA256`
abbrev pub is_same_header : Option SystemHeader → ℕ → Sha256 → Bool
is_same_header none size hash = false
is_same_header (some h) size hash = (h.file_size == size) && (h.file_sha256 == hash)

-- The header that a look at the disk finds.
unfoldable pub header_on_disk : Disk → Bytes → Option SystemHeader
header_on_disk disk path = elim (disk.stat_size path) [
  | none ↦ none
  | some size ↦ elim (disk.file_hash path) [
    | none ↦ none
    | some hash ↦ some (record { server_file_name = path; file_size = size; file_sha256 = hash })
  ]
]

unfoldable pub is_system_header :
    Disk → SystemHeadersCache → Bytes → ℕ → Sha256 → SystemHeadersCache × Bool
unfolding header_on_disk
is_system_header disk c path size hash = elim (get path c.headers) [
  | some header ↦ (c, is_same_header header size hash)
  | none ↦
      let header = header_on_disk disk path in
      (record { headers = put path header c.headers }, is_same_header header size hash)
]

unfoldable pub count : SystemHeadersCache → ℕ
count c = length c.headers
