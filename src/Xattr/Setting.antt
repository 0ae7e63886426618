-- ===== src/Xattr/Setting.antt =====
-- 12-20/xattr.c: the name and the value that are set.
use mac_os_x_internal.Prelude.{
  ℕ, ◌+◌, ◌≡◌, ◌≢◌, true, List, [], ◌∷◌, ◌++◌, none, some, arith, refl, All, length, ℤ,
}
use mac_os_x_internal.Xattr.{
  equals, opt_r, opt_s, Call, removexattr, setxattr, split_argument, usage, exits, process_options,
  main,
}

-- A name without '=' is got back from what it was joined with.
pub split_argument-join :
    (name value : List ℕ)
    → All (λ c. c ≢ equals) name
    → split_argument (name ++ (equals ∷ value)) ≡ some (name, value)
unfolding split_argument
split_argument-join [] value plain = refl
split_argument-join (c ∷ name) value plain = ground (arith, split_argument-join name value plain.1)

split_argument-plain : (name : List ℕ) → All (λ c. c ≢ equals) name → split_argument name ≡ none
unfolding split_argument
split_argument-plain [] plain = refl
split_argument-plain (c ∷ name) plain = ground (arith, split_argument-plain name plain.1)

-- For the option "-s" with a name without '=', a '=' and a value, the one call sets the value, and its null byte, under that
-- name, and the program ends with what the call returns; for "-r" and a name the one call removes that attribute; and for "-s" and an
-- argument without '=' there is no call, and the usage.
pub main-calls :
    (answer : Call → ℤ) (name value : List ℕ)
    → All (λ c. c ≢ equals) name
    → let set = setxattr name value (length value + 1) in
      (main answer true (opt_s (name ++ (equals ∷ value)) ∷ [])
        ≡ (set ∷ [], exits (some (answer set))))
      × (main answer true (opt_r name ∷ [])
          ≡ (removexattr name ∷ [], exits (some (answer (removexattr name)))))
      × (main answer true (opt_s name ∷ []) ≡ ([], usage))
unfolding main process_options
main-calls answer name value plain =
    let split = split_argument-join name value plain in
    let whole = split_argument-plain name plain in
    (rw (process_options, split) refl, refl, rw (process_options, whole) refl)
