-- ===== src/Server/Client/Names.antt =====
-- The two directions of the file names of internal/server/client.go.
use nocc.Prelude.Text.{trim_prefix-append, has_prefix, trim_prefix}
use nocc.Prelude.{true, false, some, ◌∷◌, Bytes, ◌≡◌, arith}
use nocc.Server.Client.{map_client_file_name_to_server_abs, map_server_abs_to_client_file_name}
use nocc.Server.SystemHeaders.{is_system_header_path}

-- An absolute name of the client comes back from the server's name for it, if a system header's path
-- does not begin with the working directory.
pub map_server_abs_to_client_file_name_abs :
    (working_dir name : Bytes)
    → (is_system_header_path (b'/' ∷ name) ≡ true → has_prefix (b'/' ∷ name) working_dir ≡ false)
    → (server_name : Bytes)
    → map_client_file_name_to_server_abs working_dir (b'/' ∷ name) ≡ some server_name
    → map_server_abs_to_client_file_name working_dir server_name ≡ b'/' ∷ name
unfolding map_client_file_name_to_server_abs map_server_abs_to_client_file_name trim_prefix
map_server_abs_to_client_file_name_abs w name apart s e =
    ground (arith, trim_prefix-append w (b'/' ∷ name))
