-- ===== src/Client/DepFlags.antt =====
-- internal/client/dep-cmd-flags.go: the flags for a .o.d file, and what goes into the file.
mod Tests
use nocc.Client.DepFiles.{DepFile, DepFileTarget, escape_makefile_spaces}
use nocc.Client.FileNames.{Invocation, path_abs, get_obj_out_file_abs}
use nocc.Client.IncludedFile.{IncludedFile}
use nocc.Common.FileSystem.{replace_file_ext}
use nocc.Prelude.Paths.{base}
use nocc.Prelude.Text.{ascii, has_prefix, has_suffix, trim_prefix}
use nocc.Prelude.{
  ℕ, zero, suc, Bool, true, false, ◌||◌, not, List, [], ◌∷◌, ◌++◌, Bytes, nat_beq, bytes_beq,
  if◌then◌else◌,
}

pub record DepCmdFlags : Type 0 where
  pub flag_mf : Bytes
  pub flag_mt : Bytes
  pub flag_md : Bool
  pub flag_mmd : Bool
  pub flag_mp : Bool

unfoldable pub no_dep_flags : DepCmdFlags
no_dep_flags = record {
  flag_mf = [];
  flag_mt = [];
  flag_md = false;
  flag_mmd = false;
  flag_mp = false;
}

-- The backslashes that end what stands before a byte, which is given from its end back.
unfoldable pub count_backslashes : Bytes → ℕ
count_backslashes [] = 0
count_backslashes (c ∷ s) =
    let more = suc (count_backslashes s) in if nat_beq c b'\\' then more else 0

abbrev backslashes : ℕ → Bytes
backslashes zero = []
backslashes (suc n) = b'\\' ∷ backslashes n

-- What the switch puts before a byte. The case of a blank is empty, and does not fall through.
unfoldable pub quote_byte : Bytes → ℕ → Bytes
unfolding count_backslashes
quote_byte before c =
    if nat_beq c b' '
    then []
    else if nat_beq c b'\t'
    then backslashes (suc (count_backslashes before))
    else if nat_beq c b'$'
    then b'$' ∷ []
    else if nat_beq c b'#'
    then b'\\' ∷ []
    else []

unfoldable pub quote_from : Bytes → Bytes → Bytes
unfolding quote_byte
quote_from before [] = []
quote_from before (c ∷ s) = quote_byte before c ++ (c ∷ quote_from (c ∷ before) s)

unfoldable pub quote_makefile_target : Bytes → Bytes
unfolding quote_from
quote_makefile_target target_name = quote_from [] target_name

unfoldable pub set_cmd_flag_mf : Bytes → DepCmdFlags → DepCmdFlags
set_cmd_flag_mf abs_filename f = record f { flag_mf = abs_filename }

abbrev add_target : Bytes → Bytes → Bytes
add_target [] target = target
add_target (c ∷ s) target = (c ∷ s) ++ (ascii " \\\n " ++ target)

unfoldable pub set_cmd_flag_mt : Bytes → DepCmdFlags → DepCmdFlags
set_cmd_flag_mt mt_target f = record f { flag_mt = add_target f.flag_mt mt_target }

unfoldable pub set_cmd_flag_mq : Bytes → DepCmdFlags → DepCmdFlags
unfolding quote_makefile_target
set_cmd_flag_mq mq_target f = record f {
  flag_mt = add_target f.flag_mt (quote_makefile_target mq_target);
}

unfoldable pub should_generate_dep_file : DepCmdFlags → Bool
should_generate_dep_file f = f.flag_md || (f.flag_mmd || not (bytes_beq f.flag_mf []))

unfoldable pub calc_default_target_name : Invocation → Bytes
calc_default_target_name i = i.obj_out_file

unfoldable pub calc_output_dep_file_name : DepCmdFlags → Invocation → Bytes
unfolding replace_file_ext get_obj_out_file_abs path_abs base
calc_output_dep_file_name f i =
    if not (bytes_beq f.flag_mf [])
    then f.flag_mf
    else if not (bytes_beq i.obj_out_file [])
    then replace_file_ext (get_obj_out_file_abs i) (ascii ".d")
    else path_abs i.cwd (replace_file_ext (base i.cpp_in_file) (ascii ".d"))

unfoldable pub is_in_system_dir : List Bytes → Bytes → Bool
unfolding has_prefix
is_in_system_dir [] file_name = false
is_in_system_dir (d ∷ ds) file_name = has_prefix file_name d || is_in_system_dir ds file_name

unfoldable pub filter_out_system_h_files : List Bytes → List IncludedFile → List IncludedFile
unfolding is_in_system_dir
filter_out_system_h_files dirs [] = []
filter_out_system_h_files dirs (h ∷ hs) =
    let user_h_files = filter_out_system_h_files dirs hs in
    if is_in_system_dir dirs h.file_name then user_h_files else h ∷ user_h_files

-- `process_pwd` ends in a slash.
unfoldable pub rel_file_names : Bytes → List IncludedFile → List Bytes
unfolding quote_makefile_target trim_prefix
rel_file_names process_pwd [] = []
rel_file_names process_pwd (h ∷ hs) =
    quote_makefile_target (trim_prefix h.file_name process_pwd) ∷ rel_file_names process_pwd hs

abbrev pub with_slash : Bytes → Bytes
unfolding has_suffix
with_slash cwd = if has_suffix cwd (b'/' ∷ []) then cwd else cwd ++ (b'/' ∷ [])

-- `system_dirs` are the default -isystem dirs of the compiler.
unfoldable pub calc_dep_list_from_h_files :
    DepCmdFlags → Invocation → List Bytes → List IncludedFile → List Bytes
unfolding quote_makefile_target rel_file_names filter_out_system_h_files has_suffix
calc_dep_list_from_h_files f i system_dirs h_files =
    quote_makefile_target i.cpp_in_file
    ∷ rel_file_names (with_slash i.cwd)
        (if f.flag_mmd then filter_out_system_h_files system_dirs h_files else h_files)

unfoldable pub phony_targets : List Bytes → DepFile
unfolding escape_makefile_spaces
phony_targets [] = []
phony_targets (d ∷ ds) =
    record { target_name = escape_makefile_spaces d; target_dep_list = [] } ∷ phony_targets ds

abbrev pub behind_first : List Bytes → List Bytes
behind_first [] = []
behind_first (d ∷ ds) = ds

-- The file that `GenerateAndSaveDepFile` writes, to a list of dependencies.
unfoldable pub dep_file_of : DepCmdFlags → Bytes → List Bytes → DepFile
unfolding phony_targets
dep_file_of f target_name deps =
    record { target_name = target_name; target_dep_list = deps }
    ∷ (if f.flag_mp then phony_targets (behind_first deps) else [])

unfoldable pub generate_dep_file :
    DepCmdFlags → Invocation → List Bytes → List IncludedFile → DepFile
unfolding dep_file_of calc_dep_list_from_h_files calc_default_target_name
generate_dep_file f i system_dirs h_files =
    dep_file_of f (if bytes_beq f.flag_mt [] then calc_default_target_name i else f.flag_mt)
      (calc_dep_list_from_h_files f i system_dirs h_files)
