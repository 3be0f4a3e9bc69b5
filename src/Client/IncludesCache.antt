-- ===== src/Client/IncludesCache.antt =====
-- internal/client/includes-cache.go: what the daemon keeps in memory of resolved includes, and the
-- precompiled headers of includes-collector.go that are looked up through it.
use nocc.Client.IncludedFile.{IncludedFile}
use nocc.Client.IncludeDirs.{IncludeDirs}
use nocc.Common.Sha256.{Sha256}
use nocc.Prelude.Dict.{Dict, get, put}
use nocc.Prelude.Text.{ascii, has_prefix}
use nocc.Prelude.{
  bytes_comparable, if◌then◌else◌, ℕ, Option, none, some, List, [], ◌++◌, Bytes, length,
}

-- A size of -1 is `none`.
pub record CachedHFile : Type 0 where
  pub file_size : Option ℕ
  pub file_sha256 : Sha256
  pub nested_includes : List Bytes

pub record IncludesCache : Type 0 where
  pub cxx_name : Bytes
  pub cxx_def_i_dirs : IncludeDirs
  pub includes_resolve : Dict Bytes Bytes
  pub h_files_info : Dict Bytes CachedHFile

-- `dirs` is what GetDefaultCxxIncludeDirsOnLocal returns.
unfoldable pub make_includes_cache : Bytes → IncludeDirs → IncludesCache
make_includes_cache cxx_name dirs = record {
  cxx_name = cxx_name;
  cxx_def_i_dirs = dirs;
  includes_resolve = [];
  h_files_info = [];
}

-- Of an argument that is not empty.
unfoldable pub get_include_resolve : Bytes → IncludesCache → Option Bytes
unfolding get
get_include_resolve quoted_arg cache =
    if has_prefix quoted_arg (ascii "/")
    then some quoted_arg
    else get quoted_arg cache.includes_resolve

unfoldable pub add_include_resolve : Bytes → Bytes → IncludesCache → IncludesCache
unfolding put
add_include_resolve quoted_arg h_file_name cache = record cache {
  includes_resolve = put quoted_arg h_file_name cache.includes_resolve;
}

unfoldable pub get_h_file_info : Bytes → IncludesCache → Option CachedHFile
unfolding get
get_h_file_info h_file_name cache = get h_file_name cache.h_files_info

unfoldable pub add_h_file_info : Bytes → CachedHFile → IncludesCache → IncludesCache
unfolding put
add_h_file_info h_file_name info cache = record cache {
  h_files_info = put h_file_name info cache.h_files_info;
}

unfoldable pub count : IncludesCache → ℕ
count cache = length cache.h_files_info

unfoldable pub clear : IncludesCache → IncludesCache
clear cache = record cache { includes_resolve = []; h_files_info = [] }

abbrev pub zero_sha256 : Sha256
zero_sha256 = record { b0_7 = 0; b8_15 = 0; b16_23 = 0; b24_31 = 0 }

abbrev pub own_pch_of : Bytes → Bytes
own_pch_of h_file_name = h_file_name ++ ascii ".nocc-pch"

-- What is remembered of a .nocc-pch file: `stat` is its size, if it exists, and `hash` the hash that
-- ParseOwnPchFile finds in it, if it can be parsed.
unfoldable pub own_pch_info : Option ℕ → Option Sha256 → CachedHFile
own_pch_info (some size) (some hash) = record {
  file_size = some size;
  file_sha256 = hash;
  nested_includes = [];
}
own_pch_info (some size) none = record {
  file_size = none;
  file_sha256 = zero_sha256;
  nested_includes = [];
}
own_pch_info none hash = record {
  file_size = none;
  file_sha256 = zero_sha256;
  nested_includes = [];
}

abbrev pub pch_file : Bytes → CachedHFile → Option IncludedFile
pch_file name info = elim info.file_size [
  | none ↦ none
  | some size ↦
      some (record { file_name = name; file_size = some size; file_sha256 = info.file_sha256 })
]

unfoldable pub locate_own_pch_file :
    Bytes → Option ℕ → Option Sha256 → IncludesCache → Option IncludedFile × IncludesCache
unfolding get_h_file_info add_h_file_info own_pch_info
locate_own_pch_file h_file_name stat hash cache =
    let name = own_pch_of h_file_name in
    let info = own_pch_info stat hash in
    elim (get_h_file_info name cache) [
      | some cached ↦ (pch_file name cached, cache)
      | none ↦ (pch_file name info, add_h_file_info name info cache)
    ]
