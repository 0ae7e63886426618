-- ===== src/Cnid2path.antt =====
-- 12-15/cnid2path.c: prints the path of a file or folder that is known by its number, from the names that the file system gives for it and for each of the
-- folders above it.
pub mod Joining
mod Tests
use mac_os_x_internal.Prelude.{
  ℕ, zero, suc, ◌+◌, ◌-◌, Bool, true, false, not, ◌||◌, List, [], ◌∷◌, Option, none, some, ltb, leb,
  ◌==◌, if◌then◌else◌, update, length, ℤ, pos,
}

-- `MAXPATHLEN`.
abbrev pub maxpathlen : ℕ
maxpathlen = 1024

abbrev pub slash : ℕ
slash = 47

abbrev pub nul : ℕ
nul = 0

-- What `PBResolveFileIDRefSync` gives for a number: a negative result, or a name and the number of the folder that holds it.
pub data Resolved : Type 0 where
  refused : (result : ℤ) → Resolved
  named : (characters : List ℕ) → (parent : ℕ) → Resolved

-- How the loop ends: with the result of a refused call; at the top, with `path` and the place of `cursor` in it; with bytes written before `path`; or, in the
-- model alone, with no fuel.
pub data Ending : Type 0 where
  result_of : ℤ → Ending
  joined : (path : ℕ → ℕ) → (cursor : ℕ) → Ending
  overrun unfinished : Ending

-- `memcpy(cursor, p->characters, p->length);`
unfoldable pub memcpy : (path : ℕ → ℕ) → (cursor : ℕ) → List ℕ → ℕ → ℕ
memcpy path cursor [] = path
memcpy path cursor (c ∷ characters) = update (memcpy path (cursor + 1) characters) cursor c

-- The loop of `main`.
unfoldable pub join :
    (fuel : ℕ)
    → (resolve : ℕ → Resolved) → (tmp_src_dir_id : ℕ) → (path : ℕ → ℕ) → (cursor len : ℕ) → Ending
join zero resolve tmp_src_dir_id path cursor len = unfinished
join (suc fuel) resolve tmp_src_dir_id path cursor len = elim (resolve tmp_src_dir_id) [
  | refused result ↦ result_of result
  | named characters parent ↦
      let name_at = cursor - length characters in
      let copied = update (memcpy path name_at characters) (name_at - 1) slash in
      let above = join fuel resolve parent copied (name_at - 1) (len - (1 + length characters)) in
      if parent == tmp_src_dir_id || leb len 0
      then joined path (cursor + 1)
      else if leb cursor (length characters)
      then overrun
      else above
]

-- The string at a place, up to its null byte or to the end of the array.
unfoldable pub string_at : (size : ℕ) → (path : ℕ → ℕ) → ℕ → List ℕ
string_at zero path cursor = []
string_at (suc size) path cursor =
    let rest = string_at size path (cursor + 1) in
    if path cursor == nul then [] else path cursor ∷ rest

-- The string up to its first slash, and what follows that.
unfoldable pub strchr : List ℕ → List ℕ × List ℕ
strchr [] = ([], [])
strchr (c ∷ cs) =
    let (cursor, upath) = strchr cs in if c == slash then ([], cs) else (c ∷ cursor, upath)

-- What `main` does: it ends with a status, after it has printed a volume and a path in it where the status is that of a success; or it writes before `path`.
pub data Outcome : Type 0 where
  usage : Outcome
  failed : (result : ℤ) → Outcome
  printed : (volume upath : List ℕ) → Outcome
  undefined out_of_fuel : Outcome

-- `main`, for the number that `atoi` reads in the argument, if there is one argument.
unfoldable pub main : (resolve : ℕ → Resolved) → (cnid : Option ℕ) → Outcome
main resolve none = usage
main resolve (some cnid) =
    elim (join maxpathlen resolve cnid (λ i. nul) (maxpathlen - 1) (maxpathlen - 1)) [
      | result_of result ↦ failed result
      | joined path cursor ↦
          let (volume, upath) = strchr (string_at (maxpathlen - cursor) path cursor) in
          printed volume upath
      | overrun ↦ undefined
      | unfinished ↦ out_of_fuel
    ]
