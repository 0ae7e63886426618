-- ===== src/Dummyd.antt =====
-- 5-26/dummyd.c: a daemon that launchd starts. `readline`, the echo loop of a connection, and `main`.
pub mod Buffer
pub mod Echo
pub mod Serve
mod Tests
use mac_os_x_internal.Prelude.{
  ℕ, zero, suc, ◌+◌, ◌-◌, Bool, true, false, not, List, [], ◌∷◌, ◌++◌, Option, none, some, ◌==◌,
  if◌then◌else◌, ℤ, pos, negsuc, update,
}

-- What one call of `read` for a single byte gives before the end of the input.
pub data Read : Type 0 where
  byte : ℕ → Read
  interrupted : Read
  failed : Read

-- After `readline`: its result, the buffer, and the input that is left.
pub record Line : Type 0 where
  pub ret : ℤ
  pub buf : ℕ → ℕ
  pub rest : List Read

abbrev pub newline : ℕ
newline = 10

-- `*bp = 0; return n;`
abbrev pub finish : ℕ → ℕ → (ℕ → ℕ) → List Read → Line
finish n bp buf input = record { ret = pos n; buf = update buf bp 0; rest = input }

-- The loop of `readline`: `rounds` is `maxlen - n`, `bp` the index of the next byte. The end of the
-- list is the end of the file.
pub readline_loop : ℕ → ℕ → ℕ → (ℕ → ℕ) → List Read → Line
readline_loop zero n bp buf input = finish n bp buf input
readline_loop (suc rounds) n bp buf [] =
    if n == 1 then record { ret = pos 0; buf = buf; rest = [] } else finish n bp buf []
readline_loop (suc rounds) n bp buf (byte c ∷ input) =
    let next = readline_loop rounds (n + 1) (bp + 1) (update buf bp c) input in
    if c == newline then finish n (bp + 1) (update buf bp c) input else next
readline_loop (suc rounds) n bp buf (interrupted ∷ input) =
    readline_loop rounds (n + 1) bp buf input
readline_loop (suc rounds) n bp buf (failed ∷ input) = record {
  ret = negsuc 0;
  buf = buf;
  rest = input;
}

pub readline : (ℕ → ℕ) → ℕ → List Read → Line
unfolding readline_loop
readline buf maxlen input = readline_loop (maxlen - 1) 1 0 buf input

-- The first `n` bytes from index `i` of a buffer, as `write` takes them.
abbrev pub contents : (ℕ → ℕ) → ℕ → ℕ → List ℕ
contents buf i zero = []
contents buf i (suc n) = buf i ∷ contents buf (i + 1) n

abbrev pub buffer_size : ℕ
buffer_size = 512

-- `daemon_loop`: all that it writes before it closes the connection; `none` if the fuel runs out.
pub daemon_loop : ℕ → (ℕ → ℕ) → List Read → Option (List ℕ)
daemon_loop zero buf input = none
daemon_loop (suc fuel) buf input =
    let line = readline buf buffer_size input in
    elim line.ret [
      | pos zero ↦ some []
      | pos (suc n) ↦ elim (daemon_loop fuel line.buf line.rest) [
        | none ↦ none
        | some later ↦ some (contents line.buf 0 (suc n) ++ later)
      ]
      | negsuc n ↦ some []
    ]

-- What launchd and the system answer while `main` sets the server up.
pub record Setup : Type 0 where
  pub kqueue_ok : Bool
  pub request_ok : Bool
  pub response_ok : Bool
  pub response_errno : Bool
  pub sockets_ok : Bool
  pub listeners : Option (List (ℕ × Bool))

-- One round of the event loop: `kevent` fails, has no event, or has one; then `accept` may fail, and so
-- may `pthread_create`.
pub data Round : Type 0 where
  kevent_failed : Round
  no_event : Round
  accept_failed : Round
  accepted : (fd : ℕ) → (thread_ok : Bool) → Round

pub data Action : Type 0 where
  registered : ℕ → Action
  served : ℕ → Action
  closed : ℕ → Action

abbrev pub exit_success : ℕ
exit_success = 0

abbrev pub exit_failure : ℕ
exit_failure = 1

-- The event loop; no status while it still waits.
unfoldable pub event_loop : List Round → Option ℕ × List Action
event_loop [] = (none, [])
event_loop (kevent_failed ∷ rounds) = (some exit_failure, [])
event_loop (no_event ∷ rounds) = (some exit_success, [])
event_loop (accept_failed ∷ rounds) = event_loop rounds
event_loop (accepted fd true ∷ rounds) =
    let (status, actions) = event_loop rounds in (status, served fd ∷ actions)
event_loop (accepted fd false ∷ rounds) = (some exit_failure, closed fd ∷ [])

-- The loop that adds the listening descriptors to the queue, and the event loop after it.
unfoldable pub listen : List (ℕ × Bool) → List Round → Option ℕ × List Action
listen [] rounds = event_loop rounds
listen ((fd, true) ∷ fds) rounds =
    let (status, actions) = listen fds rounds in (status, registered fd ∷ actions)
listen ((fd, false) ∷ fds) rounds = (some exit_failure, [])

unfoldable pub main : Setup → List Round → Option ℕ × List Action
main setup rounds =
    if not setup.kqueue_ok
    then (some exit_failure, [])
    else if not setup.request_ok
    then (some exit_failure, [])
    else if not setup.response_ok
    then (some exit_failure, [])
    else if setup.response_errno
    then (some exit_failure, [])
    else if not setup.sockets_ok
    then (some exit_failure, [])
    else elim setup.listeners [ none ↦ (some exit_failure, []) | some fds ↦ listen fds rounds ]
