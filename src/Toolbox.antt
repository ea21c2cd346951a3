-- ===== src/Toolbox.antt =====
-- src/toolbox.c: the string and path functions. A string is the list of its bytes without the NUL,
-- so a fresh copy of a string is the same list.
pub mod Paths
pub mod Spaces
use ens_sysres_proj.Common.{
  ℕ, zero, suc, ◌+◌, ◌-◌, Bool, true, false, ◌&&◌, Option, none, some, [], ◌∷◌, ◌++◌, Bytes,
  bytes_eq, Outcome, ok, fault, out_of_fuel, ◌>>=◌, length, drop, leb, ltb, ◌==◌, if◌then◌else◌,
}

abbrev pub strings_are_equal : Bytes → Bytes → Bool
strings_are_equal = bytes_eq

-- The loop of `extractLastNameOfPath`, over the characters from `current_index` on.
unfoldable pub last_slash : Bytes → (current_index last_slash_index : ℕ) → ℕ
last_slash [] i last = last
last_slash (c ∷ cs) i last = last_slash cs (i + 1) (if c == b'/' then i else last)

-- The loop starts at index 1: of the empty string it reads behind the NUL.
unfoldable pub extract_last_name_of_path : Bytes → Outcome Bytes
extract_last_name_of_path [] = fault
extract_last_name_of_path (c ∷ cs) = ok (drop (last_slash cs 1 0 + 1) (c ∷ cs))

-- `path[path_length - 1] == '/'`: of the empty string it reads in front of the object.
unfoldable pub ends_with_slash : Bytes → Outcome Bool
ends_with_slash [] = fault
ends_with_slash (c ∷ []) = ok (c == b'/')
ends_with_slash (c ∷ d ∷ cs) = ends_with_slash (d ∷ cs)

-- The body of `appendNameToPath` behind that test. `none` is `false`: nothing is written.
-- The test is `new_path_length - 1 > path_max_length` on `int`s.
unfoldable pub append_name : Bool → (path name : Bytes) → (path_max_length : ℕ) → Option Bytes
append_name slash path name max =
    let new_path_length = length path + length name + (if slash then 0 else 1) in
    if ltb (max + 1) new_path_length
    then none
    else some (path ++ ((if slash then [] else b'/' ∷ []) ++ name))

unfoldable pub append_name_to_path : (path name : Bytes) → ℕ → Outcome (Option Bytes)
append_name_to_path path name max = do
  slash ← ends_with_slash path
  ok (append_name slash path name max)

unfoldable pub consume_leading_string_white_space : Bytes → Bytes
consume_leading_string_white_space [] = []
consume_leading_string_white_space (c ∷ cs) =
    if c == b' ' then consume_leading_string_white_space cs else c ∷ cs

-- `toupper` in the C locale.
unfoldable pub to_upper : ℕ → ℕ
to_upper c = if leb b'a' c && leb c b'z' then c - 32 else c

-- The loop does not advance `index`, so each round works on the first character.
unfoldable pub convert_string_to_uppercase : (rounds : ℕ) → Bytes → Outcome Bytes
unfolding to_upper
convert_string_to_uppercase zero s = out_of_fuel
convert_string_to_uppercase (suc k) [] = ok []
convert_string_to_uppercase (suc k) (c ∷ cs) = convert_string_to_uppercase k (to_upper c ∷ cs)
