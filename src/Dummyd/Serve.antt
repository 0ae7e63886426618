-- ===== src/Dummyd/Serve.antt =====
-- 5-26/dummyd.c: `readline` never leaves its buffer, the echo loop always ends, and what `main` does
-- with its listeners and connections.
use mac_os_x_internal.Prelude.{
  ℕ, zero, suc, ◌+◌, ◌-◌, ◌≤◌, ◌<◌, ◌≡◌, arith, refl, List, [], ◌∷◌, ◌++◌, length, ℤ, some, none,
  pos, negsuc, Option, Bool, true, false, All, ◌⊎◌, inl, inr, In, update,
}
use mac_os_x_internal.Dummyd.{
  Read, byte, interrupted, failed, readline, readline_loop, daemon_loop, buffer_size, contents,
  Round, kevent_failed, no_event, accept_failed, accepted, served, event_loop, listen, main, Setup,
}

-- The loop stores at most one byte for each round, and the zero behind them.
readline_loop-below :
    (k n bp j : ℕ) (buf : ℕ → ℕ) (input : List Read)
    → bp + k < j
    → (readline_loop k n bp buf input).buf j ≡ buf j
unfolding readline_loop
readline_loop-below zero n bp j buf input h = ground arith
readline_loop-below (suc k) n bp j buf [] h = ground arith
readline_loop-below (suc k) n bp j buf (byte c ∷ input) h =
    ground (arith, readline_loop-below k (n + 1) (bp + 1) j (update buf bp c) input)
readline_loop-below (suc k) n bp j buf (interrupted ∷ input) h =
    readline_loop-below k (n + 1) bp j buf input (omega arith)
readline_loop-below (suc k) n bp j buf (failed ∷ input) h = refl

-- For a buffer of `maxlen` bytes, at least 1, `readline` writes no byte from index `maxlen` on.
pub readline-below :
    (buf : ℕ → ℕ) (maxlen j : ℕ) (input : List Read)
    → 1 ≤ maxlen
    → maxlen ≤ j
    → (readline buf maxlen input).buf j ≡ buf j
unfolding readline
readline-below buf maxlen j input some_room outside =
    readline_loop-below (maxlen - 1) 1 0 j buf input (omega arith)

-- A result above 0 has used up input.
readline_loop_consumes :
    (k n bp : ℕ) (buf : ℕ → ℕ) (input : List Read)
    → length (readline_loop k n bp buf input).rest ≤ length input
unfolding readline_loop
readline_loop_consumes zero n bp buf input = omega arith
readline_loop_consumes (suc k) n bp buf [] = ground arith
readline_loop_consumes (suc k) n bp buf (byte c ∷ input) =
    ground (arith, readline_loop_consumes k (n + 1) (bp + 1) (update buf bp c) input)
readline_loop_consumes (suc k) n bp buf (interrupted ∷ input) =
    omega (arith, readline_loop_consumes k (n + 1) bp buf input)
readline_loop_consumes (suc k) n bp buf (failed ∷ input) = omega arith

readline_loop_consumes_first :
    (k n bp : ℕ) (buf : ℕ → ℕ) (r : Read) (input : List Read)
    → length (readline_loop (suc k) n bp buf (r ∷ input)).rest ≤ length input
unfolding readline_loop
readline_loop_consumes_first k n bp buf (byte c) input =
    ground (arith, readline_loop_consumes k (n + 1) (bp + 1) (update buf bp c) input)
readline_loop_consumes_first k n bp buf interrupted input =
    readline_loop_consumes k (n + 1) bp buf input
readline_loop_consumes_first k n bp buf failed input = omega arith

readline_consumes :
    (buf : ℕ → ℕ) (r : Read) (input : List Read)
    → length (readline buf buffer_size (r ∷ input)).rest ≤ length input
unfolding readline
readline_consumes buf r input = readline_loop_consumes_first 510 1 0 buf r input

readline_nothing : (buf : ℕ → ℕ) → (readline buf buffer_size []).ret ≡ pos 0
unfolding readline readline_loop
readline_nothing buf = refl

ℤ-cases : (z : ℤ) → (z ≡ pos 0) ⊎ ((n : ℕ) × (z ≡ pos (suc n))) ⊎ ((n : ℕ) × (z ≡ negsuc n))
ℤ-cases (pos zero) = inl refl
ℤ-cases (pos (suc n)) = inr (inl (n, refl))
ℤ-cases (negsuc n) = inr (inr (n, refl))

-- The echo loop ends on every input, interruptions and errors included: more rounds than there are
-- results of `read` are enough.
pub daemon_loop_ends :
    (fuel : ℕ) (buf : ℕ → ℕ) (input : List Read)
    → length input < fuel
    → (output : List ℕ) × (daemon_loop fuel buf input ≡ some output)
unfolding daemon_loop
daemon_loop_ends zero buf input enough = absurd (omega arith)
daemon_loop_ends (suc fuel) buf [] enough = ([], ground (arith, readline_nothing buf))
daemon_loop_ends (suc fuel) buf (r ∷ input) enough =
    let line = readline buf buffer_size (r ∷ input) in
    let (later, e) =
      daemon_loop_ends fuel line.buf line.rest (omega (arith, readline_consumes buf r input)) in
    elim (ℤ-cases line.ret) [
      | inl nothing ↦ ([], ground arith)
      | inr (inl (n, some_bytes)) ↦ (contents line.buf 0 (suc n) ++ later, ground arith)
      | inr (inr (n, error)) ↦ ([], ground arith)
    ]

served_accepted :
    (fd : ℕ) (rounds : List Round)
    → In (served fd) (event_loop rounds).1
    → In (accepted fd true) rounds
unfolding event_loop
served_accepted fd [] h = absurd h
served_accepted fd (kevent_failed ∷ rounds) h = absurd h
served_accepted fd (no_event ∷ rounds) h = absurd h
served_accepted fd (accept_failed ∷ rounds) h = inr (served_accepted fd rounds h)
served_accepted fd (accepted g true ∷ rounds) (inl e) = inl (ground arith)
served_accepted fd (accepted g true ∷ rounds) (inr h) = inr (served_accepted fd rounds h)
served_accepted fd (accepted g false ∷ rounds) (inl e) = absurd (cc)
served_accepted fd (accepted g false ∷ rounds) (inr h) = absurd h

-- Each listener is in the queue.
abbrev pub IsListening : List (ℕ × Bool) → Type 0
IsListening fds = All (λ p. p.1 ≡ true) fds

listen-served :
    (fd : ℕ) (fds : List (ℕ × Bool)) (rounds : List Round)
    → In (served fd) (listen fds rounds).1
    → IsListening fds × In (accepted fd true) rounds
unfolding listen
listen-served fd [] rounds h = (tt, served_accepted fd rounds h)
listen-served fd ((g, true) ∷ fds) rounds (inl e) = absurd (cc)
listen-served fd ((g, true) ∷ fds) rounds (inr h) =
    let (all, from) = listen-served fd fds rounds h in ((refl, all), from)
listen-served fd ((g, false) ∷ fds) rounds h = absurd h

abbrev Serves : Setup → List Round → ℕ → Type 0
Serves setup rounds fd =
    (setup.kqueue_ok ≡ true)
    × (setup.response_ok ≡ true)
    × (setup.response_errno ≡ false)
    × ((fds : List (ℕ × Bool)) × (setup.listeners ≡ some fds) × IsListening fds)
    × In (accepted fd true) rounds

abbrev made : Bool → Bool → Bool → Bool → Bool → Option (List (ℕ × Bool)) → Setup
made a b c d e l = record {
  kqueue_ok = a;
  request_ok = b;
  response_ok = c;
  response_errno = d;
  sockets_ok = e;
  listeners = l;
}

main-served_by_cases :
    (a b c d e : Bool) (l : Option (List (ℕ × Bool))) (rounds : List Round) (fd : ℕ)
    → In (served fd) (main (made a b c d e l) rounds).1
    → Serves (made a b c d e l) rounds fd
unfolding main
main-served_by_cases false b c d e l rounds fd h = absurd h
main-served_by_cases true false c d e l rounds fd h = absurd h
main-served_by_cases true true false d e l rounds fd h = absurd h
main-served_by_cases true true true true e l rounds fd h = absurd h
main-served_by_cases true true true false false l rounds fd h = absurd h
main-served_by_cases true true true false true none rounds fd h = absurd h
main-served_by_cases true true true false true (some fds) rounds fd h =
    let (all, from) = listen-served fd fds rounds h in (refl, refl, refl, (fds, refl, all), from)

-- `main` hands a connection to a thread only if launchd has answered, every listening descriptor has been
-- added to the queue, and the connection was accepted and its thread created.
pub main-served :
    (setup : Setup) (rounds : List Round) (fd : ℕ)
    → In (served fd) (main setup rounds).1
    → (setup.kqueue_ok ≡ true)
      × (setup.response_ok ≡ true)
      × (setup.response_errno ≡ false)
      × ((fds : List (ℕ × Bool)) × (setup.listeners ≡ some fds) × IsListening fds)
      × In (accepted fd true) rounds
main-served setup rounds fd =
    main-served_by_cases setup.kqueue_ok setup.request_ok setup.response_ok setup.response_errno
      setup.sockets_ok setup.listeners rounds fd
