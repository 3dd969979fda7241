-- ===== src/Tests/Texts.antt =====
-- Folder names, markup and previews.
use secnano.Prelude.{◌≤◌, ◌≡◌, refl, inl, false, arith, strip, str_len}
use secnano.GroupFolder.{is_valid_group_folder, contains_code}
use secnano.GroupFolder.Safety.{IsFolderName, is_valid_group_folder_stripped}
use secnano.Router.{escape_xml, truncate}
use secnano.Router.Escaping.{escape_xml_safe, truncate-le}

is_valid_group_folder_stripped_example : IsFolderName (strip " team-1\n")
unfolding is_valid_group_folder strip
is_valid_group_folder_stripped_example = is_valid_group_folder_stripped " team-1\n" refl

escape_xml_safe_example : contains_code 60 (escape_xml "</message>") ≡ false
escape_xml_safe_example = escape_xml_safe 60 "</message>" (inl refl)

truncate-le_example : str_len "hello w…" ≤ 8
unfolding truncate
truncate-le_example = truncate-le "hello   world, hello" "hello w…" 8 (omega arith) refl
