-- ===== src/Dummyd/Echo.antt =====
-- 5-26/dummyd.c: `readline` on the lines of a stream, and what the echo loop writes.
use native.Mathlib.Nat.{suc-add, zero-add, add-zero}
use mac_os_x_internal.Prelude.{
  ℕ, suc, ◌+◌, ◌-◌, ◌≤◌, ◌≡◌, ◌≢◌, arith, refl, List, [], ◌∷◌, ◌++◌, append_assoc, update, length,
  length-append, All, some, pos, ap, ◌∙◌, subst, append-nil,
}
use mac_os_x_internal.Dummyd.{
  Read, byte, readline, readline_loop, finish, contents, newline, daemon_loop, buffer_size,
}
use mac_os_x_internal.Dummyd.Buffer.{stored, contents-terminated, contents-stored, stored-append}

abbrev pub bytes : List ℕ → List Read
bytes [] = []
bytes (c ∷ cs) = byte c ∷ bytes cs

bytes-append : (xs ys : List ℕ) → bytes (xs ++ ys) ≡ bytes xs ++ bytes ys
bytes-append [] ys = refl
bytes-append (x ∷ xs) ys = ap (λ (t : List Read). byte x ∷ t) (bytes-append xs ys)

-- No byte is a line feed.
abbrev pub IsPlain : List ℕ → Type 0
IsPlain cs = All (λ c. c ≢ newline) cs

readline_loop_byte :
    (k n bp : ℕ) (buf : ℕ → ℕ) (c : ℕ) (input : List Read)
    → c ≢ newline
    → readline_loop (suc k) n bp buf (byte c ∷ input)
      ≡ readline_loop k (n + 1) (bp + 1) (update buf bp c) input
unfolding readline_loop
readline_loop_byte k n bp buf c input plain = ground arith

readline_loop_stores :
    (body : List ℕ) (k n bp : ℕ) (buf : ℕ → ℕ) (input : List Read)
    → IsPlain body
    → readline_loop (length body + k) n bp buf (bytes body ++ input)
      ≡ readline_loop k (n + length body) (bp + length body) (stored buf bp body) input
readline_loop_stores [] k n bp buf input plain = rw (zero-add, add-zero, add-zero)
readline_loop_stores (c ∷ cs) k n bp buf input plain =
    let later : n + 1 + length cs ≡ n + suc (length cs) = omega arith in
    let place : bp + 1 + length cs ≡ bp + suc (length cs) = omega arith in
    rw suc-add (
      readline_loop_byte (length cs + k) n bp buf c (bytes cs ++ input) plain.0
      ∙ rw (← later, ← place)
          (readline_loop_stores cs k (n + 1) (bp + 1) (update buf bp c) input plain.1))

readline_loop-newline :
    (k n bp : ℕ) (buf : ℕ → ℕ) (input : List Read)
    → readline_loop (suc k) n bp buf (byte newline ∷ input)
      ≡ finish n (bp + 1) (update buf bp newline) input
unfolding readline_loop
readline_loop-newline k n bp buf input = refl

-- `readline` with the rounds that the body takes and those that are left.
readline_body :
    (body : List ℕ) (k : ℕ) (buf : ℕ → ℕ) (input : List Read)
    → IsPlain body
    → length body + k ≡ 511
    → readline buf buffer_size (bytes body ++ input)
      ≡ readline_loop k (1 + length body) (0 + length body) (stored buf 0 body) input
unfolding readline
readline_body body k buf input plain total =
    rw (← total) (readline_loop_stores body k 1 0 buf input plain)

readline_line :
    (body : List ℕ) (buf : ℕ → ℕ) (input : List Read)
    → IsPlain body
    → length body ≤ 510
    → readline buf buffer_size (bytes (body ++ newline ∷ []) ++ input)
      ≡ finish (suc (length body)) (suc (length body)) (stored buf 0 (body ++ newline ∷ [])) input
readline_line body buf input plain short =
    let count : 1 + length body ≡ suc (length body) = omega arith in
    let place : 0 + length body + 1 ≡ suc (length body) = omega arith in
    rw (bytes-append body (newline ∷ []), append_assoc)
      (readline_body body (suc (510 - length body)) buf (byte newline ∷ input) plain (omega arith)
        ∙ readline_loop-newline (510 - length body) (1 + length body) (0 + length body)
            (stored buf 0 body) input
        ∙ rw (count, place, stored-append buf 0 body newline))

daemon_loop_step :
    (fuel : ℕ) (buf : ℕ → ℕ) (input : List Read) (n : ℕ) (b : ℕ → ℕ) (rest : List Read)
    (later : List ℕ)
    → readline buf buffer_size input ≡ record { ret = pos (suc n); buf = b; rest = rest }
    → daemon_loop fuel b rest ≡ some later
    → daemon_loop (suc fuel) buf input ≡ some (contents b 0 (suc n) ++ later)
unfolding daemon_loop
daemon_loop_step fuel buf input n b rest later line tail = ground arith

daemon_loop_stop :
    (fuel : ℕ) (buf : ℕ → ℕ) (input : List Read)
    → (readline buf buffer_size input).ret ≡ pos 0
    → daemon_loop (suc fuel) buf input ≡ some []
unfolding daemon_loop
daemon_loop_stop fuel buf input e = ground arith

readline_end : (buf : ℕ → ℕ) → (readline buf buffer_size []).ret ≡ pos 0
unfolding readline readline_loop
readline_end buf = refl

-- The lines of a stream with a line feed behind each.
abbrev pub terminated : List (List ℕ) → List ℕ
terminated [] = []
terminated (body ∷ bodies) = (body ++ newline ∷ []) ++ terminated bodies

-- A line without its line feed that fits the buffer with the terminating zero.
abbrev pub IsLine : List ℕ → Type 0
IsLine body = IsPlain body × (length body ≤ 510)

-- A line of at most 510 bytes before its line feed is echoed: the loop writes exactly the bytes of such
-- lines, in order, and stops at the end of the stream; a round for each line and one for the end are
-- enough.
pub daemon_loop_echoes :
    (bodies : List (List ℕ)) (buf : ℕ → ℕ)
    → All IsLine bodies
    → daemon_loop (suc (length bodies)) buf (bytes (terminated bodies)) ≡ some (terminated bodies)
daemon_loop_echoes [] buf lines = daemon_loop_stop 0 buf [] (readline_end buf)
daemon_loop_echoes (body ∷ bodies) buf lines =
    let line = body ++ newline ∷ [] in
    let size : length line ≡ suc (length body) = omega (arith, length-append body (newline ∷ [])) in
    let after = update (stored buf 0 line) (suc (length body)) 0 in
    let written : contents after 0 (suc (length body)) ≡ line =
      subst (λ k. contents (update (stored buf 0 line) k 0) 0 k ≡ line) size
        (contents-terminated buf line) in
    rw (bytes-append line (terminated bodies)) (
      daemon_loop_step (suc (length bodies)) buf (bytes line ++ bytes (terminated bodies))
        (length body) after (bytes (terminated bodies)) (terminated bodies)
        (readline_line body buf (bytes (terminated bodies)) lines.0.0 lines.0.1)
        (daemon_loop_echoes bodies after lines.1)
      ∙ ap (λ (w : List ℕ). some (w ++ terminated bodies)) written)

readline_loop_end :
    (k n bp : ℕ) (buf : ℕ → ℕ) → n ≢ 1 → readline_loop (suc k) n bp buf [] ≡ finish n bp buf []
unfolding readline_loop
readline_loop_end k n bp buf later = ground arith

-- One byte more than the line is the terminating zero.
contents_more :
    (buf : ℕ → ℕ) (cs : List ℕ)
    → contents (update (stored buf 0 cs) (length cs) 0) 0 (suc (length cs)) ≡ cs ++ 0 ∷ []
contents_more buf cs =
    let size : length (cs ++ 0 ∷ []) ≡ suc (length cs) = omega (arith, length-append cs (0 ∷ [])) in
    let place : 0 + length cs ≡ length cs = omega arith in
    subst (λ k. contents (update (stored buf 0 cs) k 0) 0 (suc (length cs)) ≡ cs ++ 0 ∷ []) place
      (subst (λ f. contents f 0 (suc (length cs)) ≡ cs ++ 0 ∷ []) (stored-append buf 0 cs 0)
        (subst (λ k. contents (stored buf 0 (cs ++ 0 ∷ [])) 0 k ≡ cs ++ 0 ∷ []) size
          (contents-stored buf 0 (cs ++ 0 ∷ []))))

-- At the end of the stream `n` counts a byte that was never read: of a last line without a line feed, of 1 to 510 bytes, the
-- loop echoes the bytes and the terminating zero behind them.
pub daemon_loop_unterminated :
    (body : List ℕ) (buf : ℕ → ℕ)
    → IsLine body
    → body ≢ []
    → daemon_loop 2 buf (bytes body) ≡ some (body ++ 0 ∷ [])
daemon_loop_unterminated [] buf line some_bytes = absurd (some_bytes refl)
daemon_loop_unterminated (c ∷ cs) buf line some_bytes =
    let body = c ∷ cs in
    let n = length body in
    let after = update (stored buf 0 body) n 0 in
    let place : 0 + n ≡ n = omega arith in
    let count : 1 + n ≡ suc n = omega arith in
    let counted : readline buf buffer_size (bytes body) ≡ finish (suc n) n (stored buf 0 body) [] =
      rw (← append-nil (bytes body)) (
        readline_body body (suc (510 - n)) buf [] line.0 (omega arith)
        ∙ readline_loop_end (510 - n) (1 + n) (0 + n) (stored buf 0 body) (omega arith)
        ∙ rw (place, count)) in
    daemon_loop_step 1 buf (bytes body) n after [] [] counted
      (daemon_loop_stop 0 after [] (readline_end after))
    ∙ ap some (append-nil _ ∙ contents_more buf body)
