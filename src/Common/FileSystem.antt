-- ===== src/Common/FileSystem.antt =====
-- internal/common/filesystem.go: a file name with another extension.
use nocc.Prelude.Paths.{ext}
use nocc.Prelude.{◌-◌, ◌++◌, Bytes, length, take}

unfoldable pub replace_file_ext : Bytes → Bytes → Bytes
unfolding ext
replace_file_ext file_name new_ext =
    take (length file_name - length (ext file_name)) file_name ++ new_ext
