-- ===== src/Tests/Strings.antt =====
-- Paths and strings.
use ens_sysres_proj.Common.{◌≡◌, refl, some, codes, ok, out_of_fuel}
use ens_sysres_proj.Toolbox.{
  last_slash, extract_last_name_of_path, ends_with_slash, append_name, append_name_to_path,
  consume_leading_string_white_space, convert_string_to_uppercase,
}
use ens_sysres_proj.Toolbox.Spaces.{convert_string_to_uppercase_loops}

joins_b : append_name_to_path (codes "./www") (codes "b") 1024 ≡ ok (some (codes "./www/b"))
unfolding append_name_to_path append_name ends_with_slash
joins_b = refl

joins_slash : append_name_to_path (codes "./www/") (codes "b") 1024 ≡ ok (some (codes "./www/b"))
unfolding append_name_to_path append_name ends_with_slash
joins_slash = refl

-- A path without a `/` loses its first character.
extracts_tail : extract_last_name_of_path (codes "www") ≡ ok (codes "ww")
unfolding extract_last_name_of_path last_slash
extracts_tail = refl

consumes_spaces : consume_leading_string_white_space (codes "  a b") ≡ codes "a b"
unfolding consume_leading_string_white_space
consumes_spaces = refl

convert_string_to_uppercase_loops_example :
    convert_string_to_uppercase 9 (codes "get") ≡ out_of_fuel
convert_string_to_uppercase_loops_example = convert_string_to_uppercase_loops 9 b'g' (codes "et")
