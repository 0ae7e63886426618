-- ===== src/MiscServer/Tests.antt =====
-- 9-28/server.c at concrete inputs.
use mac_os_x_internal.Prelude.{◌≡◌, refl, arith, true, [], ◌∷◌, some, none, pos}
use mac_os_x_internal.MiscServer.{factorial, factorial_loop, string_length, count_bytes, success}
use mac_os_x_internal.MiscServer.Operations.{string_length_lem}

ten : factorial (pos 10) true ≡ some (success 3628800)
unfolding factorial factorial_loop
ten = refl

string_length_lem_example :
    string_length (some (b'h' ∷ b'i' ∷ 0 ∷ b'x' ∷ [])) true ≡ some (success 2)
string_length_lem_example = string_length_lem (b'h' ∷ b'i' ∷ 0 ∷ b'x' ∷ []) 2 (omega arith)

unterminated : string_length (some (b'h' ∷ [])) true ≡ none
unfolding string_length count_bytes
unterminated = refl
