-- ===== src/Toolbox/Spaces.antt =====
-- What the two loops over a string's characters do.
use ens_sysres_proj.Common.{ℕ, zero, suc, ◌≡◌, refl, false, [], ◌∷◌, ◌++◌, Bytes, out_of_fuel, ◌==◌}
use ens_sysres_proj.Toolbox.{consume_leading_string_white_space, convert_string_to_uppercase}

-- `n` spaces.
abbrev pub spaces : ℕ → Bytes
spaces zero = []
spaces (suc n) = b' ' ∷ spaces n

pub consume-spaces :
    (n : ℕ) (c : ℕ) (rest : Bytes)
    → (c == b' ') ≡ false
    → consume_leading_string_white_space (spaces n ++ c ∷ rest) ≡ c ∷ rest
unfolding consume_leading_string_white_space
consume-spaces zero c rest h = rw h
consume-spaces (suc n) c rest h = consume-spaces n c rest h

-- On a string that is not empty, the loop of the conversion to upper case does not end within any
-- number of rounds.
pub convert_string_to_uppercase_loops :
    (rounds : ℕ) (c : ℕ) (cs : Bytes) → convert_string_to_uppercase rounds (c ∷ cs) ≡ out_of_fuel
unfolding convert_string_to_uppercase
convert_string_to_uppercase_loops zero c cs = refl
convert_string_to_uppercase_loops (suc k) c cs = convert_string_to_uppercase_loops k _ cs
