-- ===== src/Dummyd/Tests.antt =====
-- 5-26/dummyd.c at concrete inputs.
use mac_os_x_internal.Prelude.{ℕ, ◌≡◌, refl, arith, List, [], ◌∷◌, some, true, false, pos}
use mac_os_x_internal.Dummyd.{
  byte, interrupted, daemon_loop, readline, readline_loop, Setup, Round, accepted, accept_failed,
}
use mac_os_x_internal.Dummyd.Echo.{bytes, terminated, daemon_loop_echoes}

abbrev hello : List ℕ
hello = b'h' ∷ b'i' ∷ []

daemon_loop_echoes_example :
    daemon_loop 3 (λ _. 7) (bytes (terminated (hello ∷ [] ∷ [])))
    ≡ some (terminated (hello ∷ [] ∷ []))
daemon_loop_echoes_example = daemon_loop_echoes (hello ∷ [] ∷ []) (λ _. 7) (omega arith)

-- An interruption is counted too: the byte behind the line feed and the zero is one of the old buffer.
interrupted_count : (readline (λ _. 7) 512 (interrupted ∷ byte 10 ∷ [])).ret ≡ pos 2
unfolding readline readline_loop
interrupted_count = refl

abbrev ready : Setup
ready = record {
  kqueue_ok = true;
  request_ok = true;
  response_ok = true;
  response_errno = false;
  sockets_ok = true;
  listeners = some ((4, true) ∷ []);
}

abbrev one_client : List Round
one_client = accept_failed ∷ accepted 9 true ∷ []
