-- ===== src/Server/ObjCache.antt =====
-- internal/server/obj-cache.go: the key of an object, over all that went into it.
use Prim.Native.Nat.{bit_xor}
use nocc.Common.Sha256.{Sha256, xor_with}
use nocc.Prelude.Paths.{base}
use nocc.Prelude.Text.{ascii}
use nocc.Prelude.{List, [], ◌∷◌, ◌++◌, Bytes, length}
use nocc.Server.Client.{FileInClientDir}

unfoldable pub concat : List Bytes → Bytes
concat [] = []
concat (s ∷ ss) = s ++ concat ss

-- What is written to the hasher: `2` is `objCacheKeyVersion`.
unfoldable pub hashed_text : Bytes → List Bytes → Bytes → Bytes
unfolding concat base
hashed_text cxx_name cxx_args cpp_in_file =
    ascii "2" ++ (cxx_name ++ (concat cxx_args ++ base cpp_in_file))

unfoldable pub xor_file : Sha256 → FileInClientDir → Sha256
unfolding xor_with
xor_file key f =
    let k = xor_with key f.file_sha256 in record k { b0_7 = bit_xor k.b0_7 f.file_size }

unfoldable pub xor_files : Sha256 → List FileInClientDir → Sha256
unfolding xor_file
xor_files key [] = key
xor_files key (f ∷ fs) = xor_files (xor_file key f) fs

-- `sha256` is the hash of a text, as four words.
unfoldable pub make_obj_cache_key :
    (Bytes → Sha256) → Bytes → List Bytes → List FileInClientDir → Bytes → Sha256
unfolding hashed_text xor_files
make_obj_cache_key sha256 cxx_name cxx_args session_files cpp_in_file =
    let h = sha256 (hashed_text cxx_name cxx_args cpp_in_file) in
    xor_files
      (record h {
        b8_15 = bit_xor h.b8_15 (length cxx_args);
        b16_23 = bit_xor h.b16_23 (length session_files);
      })
      session_files
