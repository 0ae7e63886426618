-- ===== src/Cnid2path/Joining.antt =====
-- 12-15/cnid2path.c: the loop ends, and what it prints is the path.
use mac_os_x_internal.Prelude.{
  ℕ, zero, suc, ◌+◌, ◌-◌, ◌≤◌, ◌<◌, ◌≡◌, ◌≢◌, false, List, [], ◌∷◌, ◌++◌, Option, none, some, arith,
  refl, leb, ◌==◌, ◌∙◌, ap, sym, subst, update, length, length-append, append_assoc, append-nil,
  All, ℤ, ◌⊎◌, inl, inr,
}
use mac_os_x_internal.Cnid2path.{
  maxpathlen, slash, nul, Resolved, refused, named, Ending, joined, unfinished, memcpy, join,
  string_at, strchr, printed, out_of_fuel, main,
}

Resolved-cases :
    (r : Resolved)
    → ((result : ℤ) × (r ≡ refused result)) ⊎ ((cs : List ℕ) × (parent : ℕ) × (r ≡ named cs parent))
Resolved-cases (refused result) = inl (result, refl)
Resolved-cases (named cs parent) = inr (cs, parent, refl)

-- Each turn takes at least one byte of `path`, so as much fuel as there are bytes is enough.
pub join_ends :
    (fuel : ℕ) (resolve : ℕ → Resolved) (id : ℕ) (path : ℕ → ℕ) (cursor len : ℕ)
    → cursor < fuel
    → join fuel resolve id path cursor len ≢ unfinished
unfolding join
join_ends zero resolve id path cursor len enough = absurd (omega arith)
join_ends (suc fuel) resolve id path cursor len enough = elim (Resolved-cases (resolve id)) [
  | inl (result, e) ↦ ground arith
  | inr (cs, parent, e) ↦
      let name_at = cursor - length cs in
      let path' = update (memcpy path name_at cs) (name_at - 1) slash in
      let above : name_at - 1 < fuel
          → join fuel resolve parent path' (name_at - 1) (len - (1 + length cs)) ≢ unfinished =
        join_ends fuel resolve parent path' (name_at - 1) (len - (1 + length cs)) in
      ground (arith, above)
]

string_at-same :
    (size : ℕ) (p q : ℕ → ℕ) (cursor : ℕ)
    → ((i : ℕ) → cursor ≤ i → p i ≡ q i)
    → string_at size p cursor ≡ string_at size q cursor
unfolding string_at
string_at-same zero p q cursor same = refl
string_at-same (suc size) p q cursor same =
    let rest = string_at-same size p q (cursor + 1) (λ i h. same i (omega arith)) in
    rw (same cursor (omega arith), rest) refl

string_at-update :
    (size : ℕ) (path : ℕ → ℕ) (cursor c : ℕ)
    → c ≢ nul
    → string_at (suc size) (update path cursor c) cursor ≡ c ∷ string_at size path (cursor + 1)
unfolding string_at
string_at-update size path cursor c full =
    let rest = string_at-same size (update path cursor c) path (cursor + 1) (λ i h. ground arith) in
    ground (arith, rest)

-- What has been copied is read back, before what stood there.
string_at-memcpy :
    (size : ℕ) (path : ℕ → ℕ) (cursor : ℕ) (cs : List ℕ)
    → All (λ c. c ≢ nul) cs
    → string_at (length cs + size) (memcpy path cursor cs) cursor
      ≡ cs ++ string_at size path (cursor + length cs)
unfolding string_at memcpy
string_at-memcpy size path cursor [] full =
    let start : cursor + 0 ≡ cursor = omega arith in
    let left : 0 + size ≡ size = omega arith in rw (start, left) refl
string_at-memcpy size path cursor (c ∷ cs) full =
    let tail = string_at-memcpy size path (cursor + 1) cs full.1 in
    let grow : suc (length cs) + size ≡ suc (length cs + size) = omega arith in
    let shift : cursor + suc (length cs) ≡ cursor + 1 + length cs = omega arith in
    rw (grow, shift)
      (string_at-update (length cs + size) (memcpy path (cursor + 1) cs) cursor c full.0
        ∙ ap (λ rest. c ∷ rest) tail)

-- The names from the top to a number, joined with a slash before each.
pub data IsPath (resolve : ℕ → Resolved) : ℕ → List ℕ → Type 0 where
  at_top : {id : ℕ} (cs : List ℕ) → resolve id ≡ named cs id → IsPath resolve id []
  inside :
      {id : ℕ} (parent : ℕ) (cs text : List ℕ)
      → resolve id ≡ named cs parent
      → parent ≢ id
      → All (λ c. c ≢ nul) cs
      → IsPath resolve parent text
      → IsPath resolve id (text ++ (slash ∷ cs))

-- What the loop has joined: the text ends before the string that stood at `cursor`.
abbrev pub IsJoined : (k : ℕ) → (text : List ℕ) → Ending → Type 0
IsJoined k text ending =
    (path : ℕ → ℕ) × (ending ≡ joined path (k + 1)) × (string_at (maxpathlen - k) path k ≡ text)

module _ (resolve : ℕ → Resolved) where
  join_turn :
      (fuel id parent : ℕ) (cs : List ℕ) (path : ℕ → ℕ) (k : ℕ)
      → resolve id ≡ named cs parent
      → parent ≢ id
      → join (suc fuel) resolve id path (k + (1 + length cs)) (k + (1 + length cs))
        ≡ join fuel resolve parent (memcpy path k (slash ∷ cs)) k k
  unfolding join memcpy
  join_turn fuel id parent cs path k e inner =
      let past : k + (1 + length cs) - length cs ≡ k + 1 = omega arith in
      let back : k + 1 - 1 ≡ k = omega arith in
      let left : k + (1 + length cs) - (1 + length cs) ≡ k = omega arith in
      let some_left : leb (k + (1 + length cs)) 0 ≡ false = ground arith in
      let holds : leb (k + (1 + length cs)) (length cs) ≡ false = ground arith in
      let other : (parent == id) ≡ false = ground arith in
      ground (arith, past, back, left, other, some_left, holds)

  join_top :
      (fuel id : ℕ) (cs : List ℕ) (path : ℕ → ℕ) (cursor len : ℕ)
      → resolve id ≡ named cs id
      → join (suc fuel) resolve id path cursor len ≡ joined path (cursor + 1)
  unfolding join
  join_top fuel id cs path cursor len e = ground arith

  slash_full : slash ≢ nul
  slash_full = omega arith

  join-IsJoined :
      {id : ℕ} {text : List ℕ}
      → IsPath resolve id text
      → (fuel : ℕ) (path : ℕ → ℕ) (k cursor : ℕ) (s : List ℕ) → cursor ≡ k + length text
      → cursor < fuel
      → cursor < maxpathlen
      → string_at (maxpathlen - cursor) path cursor ≡ s
      → IsJoined k (text ++ s) (join fuel resolve id path cursor cursor)
  join-IsJoined chain zero path k cursor s place enough fits before = absurd (omega arith)
  join-IsJoined (at_top cs e) (suc fuel) path k cursor s place enough fits before =
      let start : cursor ≡ k = omega (arith, place) in
      (
        path,
        join_top fuel _ cs path cursor cursor e ∙ ap (λ c. joined path (c + 1)) start,
        subst (λ c. string_at (maxpathlen - c) path c ≡ s) start before,
      )
  join-IsJoined {id} (inside parent cs text e inner full chain) (suc fuel) path k cursor s place
        enough fits before =
      let k' = k + length text in
      let long : cursor ≡ k' + (1 + length cs) =
        omega (arith, place, length-append text (slash ∷ cs)) in
      let size : maxpathlen - k' ≡ suc (length cs) + (maxpathlen - cursor) =
        omega (arith, long, fits) in
      let from : k' + suc (length cs) ≡ cursor = omega (arith, long) in
      let copied : string_at (maxpathlen - k') (memcpy path k' (slash ∷ cs)) k'
          ≡ (slash ∷ cs) ++ s =
        subst (λ n. string_at n (memcpy path k' (slash ∷ cs)) k' ≡ (slash ∷ cs) ++ s) (sym size)
          (string_at-memcpy (maxpathlen - cursor) path k' (slash ∷ cs) (slash_full, full)
            ∙ ap (λ t. (slash ∷ cs) ++ t)
                (subst (λ c. string_at (maxpathlen - cursor) path c ≡ s) (sym from) before)) in
      let above =
        join-IsJoined chain fuel (memcpy path k' (slash ∷ cs)) k k' ((slash ∷ cs) ++ s) refl
          (omega arith) (omega arith) copied in
      let turn = join_turn fuel _ parent cs path k' e inner in
      rw (append_assoc text (slash ∷ cs) s) (
        subst (λ c. IsJoined k (text ++ ((slash ∷ cs) ++ s)) (join (suc fuel) resolve id path c c))
          (sym long) (rw turn above))

string_at-tail :
    (size : ℕ) (path : ℕ → ℕ) (cursor c : ℕ) (cs : List ℕ)
    → string_at size path cursor ≡ c ∷ cs
    → string_at (size - 1) path (cursor + 1) ≡ cs
unfolding string_at
string_at-tail zero path cursor c cs e = absurd (ground arith)
string_at-tail (suc size) path cursor c cs e = ground arith

strchr-slash :
    (volume upath : List ℕ)
    → All (λ c. c ≢ slash) volume
    → strchr (volume ++ (slash ∷ upath)) ≡ (volume, upath)
unfolding strchr
strchr-slash [] upath plain = refl
strchr-slash (c ∷ volume) upath plain = ground (arith, strchr-slash volume upath plain.1)

string_at_end : string_at (maxpathlen - (maxpathlen - 1)) (λ i. nul) (maxpathlen - 1) ≡ []
unfolding string_at
string_at_end = refl

-- Where the names above a number make a path of less than `MAXPATHLEN` bytes and no name has a null byte, `main` prints its first name,
-- which has no slash, as the volume and the rest as the path in it.
pub main-printed :
    (resolve : ℕ → Resolved) (id : ℕ) (volume upath : List ℕ)
    → IsPath resolve id (slash ∷ volume ++ (slash ∷ upath))
    → All (λ c. c ≢ slash) volume
    → length (slash ∷ volume ++ (slash ∷ upath)) < maxpathlen
    → main resolve (some id) ≡ printed volume upath
unfolding main
main-printed resolve id volume upath chain plain fits =
    let text = slash ∷ volume ++ (slash ∷ upath) in
    let k = maxpathlen - 1 - length text in
    let place : maxpathlen - 1 ≡ k + length text = omega (arith, fits) in
    let (path, ends, holds) =
      join-IsJoined resolve chain maxpathlen (λ i. nul) k (maxpathlen - 1) [] place (omega arith)
        (omega arith) string_at_end in
    let whole : string_at (maxpathlen - k) path k ≡ text = holds ∙ append-nil text in
    let tail = string_at-tail (maxpathlen - k) path k slash (volume ++ (slash ∷ upath)) whole in
    let size : maxpathlen - (k + 1) ≡ maxpathlen - k - 1 = omega arith in
    rw (main, ends, size, tail, strchr-slash volume upath plain) refl

-- Whatever the file system answers, the bytes of `path` are fuel enough for the loop.
pub main_ends : (resolve : ℕ → Resolved) (cnid : Option ℕ) → main resolve cnid ≢ out_of_fuel
unfolding main
main_ends resolve none = ground arith
main_ends resolve (some id) =
    let ends =
      join_ends maxpathlen resolve id (λ i. nul) (maxpathlen - 1) (maxpathlen - 1) (omega arith) in
    ground (arith, ends)
