-- ===== src/Notify/Cancel.antt =====
-- 9-59/notify_consumer.c: the loop on the Mach port, with and without failures to receive, without the other threads.
use mac_os_x_internal.Prelude.{
  ℕ, zero, suc, ◌≡◌, ◌≢◌, refl, sym, arith, ◌∙◌, ap, true, false, List, [], ◌∷◌, ◌++◌, append_assoc,
  append-nil, Option, none, some, ◌==◌, if◌then◌else◌, map, All,
}
use mac_os_x_internal.Notify.{
  State, Line, mach_received, mach_spurious, canceling, receive_failed, print,
  cancel_all_notifications, finish_cancel, finish_from, mach_cancels, cancels, cancel_fd, waiting,
  process_message, receive_message, receive_messages,
}

-- The line for a message.
abbrev pub line_for : (token : ℕ) → ℕ → Line
line_for token id = if id == token then mach_received else mach_spurious

-- What is printed for some messages and then the one that cancels.
abbrev pub lines_for : (token : ℕ) → List ℕ → List Line
lines_for token [] = canceling ∷ []
lines_for token (id ∷ ids) = line_for token id ∷ lines_for token ids

-- What is printed for receives that fail after a notification.
abbrev pub repeated : ℕ → List Line
repeated zero = []
repeated (suc failures) = receive_failed ∷ mach_received ∷ repeated failures

-- As many failures to receive.
abbrev pub failing : ℕ → List (Option ℕ)
failing zero = []
failing (suc failures) = none ∷ failing failures

process_other :
    (s : State) (token cancel : ℕ)
    → s.token_mach_port ≡ some token
    → s.token_mach_port_cancel ≡ some cancel
    → s.msgh_id ≢ cancel
    → process_message s ≡ print (line_for token s.msgh_id) s
unfolding process_message
process_other s token cancel e e' other = ground arith

process_cancel :
    (s : State) (token cancel : ℕ)
    → s.token_mach_port ≡ some token
    → s.token_mach_port_cancel ≡ some cancel
    → token ≢ cancel
    → s.msgh_id ≡ cancel
    → process_message s ≡ record s { mach_phase = cancels cancel_fd }
unfolding process_message
process_cancel s token cancel e e' apart same = ground arith

finish_none : (s : State) → s.mach_phase ≡ waiting → finish_cancel s ≡ s
unfolding finish_cancel
finish_none s waits = rw waits

stays : (messages : List (Option ℕ)) (s : State) → s.ended ≡ true → receive_messages messages s ≡ s
unfolding receive_messages
stays [] s ended = refl
stays (message ∷ messages) s ended = rw ended

runs_on :
    (message : Option ℕ) (messages : List (Option ℕ)) (s : State)
    → s.ended ≡ false
    → receive_messages (message ∷ messages) s
      ≡ receive_messages messages (finish_cancel (receive_message message s))
unfolding receive_messages
runs_on message messages s runs = simp runs

receives_other :
    (id token cancel : ℕ) (messages : List (Option ℕ)) (s : State)
    → s.ended ≡ false
    → s.token_mach_port ≡ some token
    → s.token_mach_port_cancel ≡ some cancel
    → s.mach_phase ≡ waiting
    → id ≢ cancel
    → receive_messages (some id ∷ messages) s
      ≡ receive_messages messages (print (line_for token id) (record s { msgh_id = id }))
unfolding receive_message
receives_other id token cancel messages s runs e e' waits other =
    runs_on (some id) messages s runs
    ∙ ap (λ t. receive_messages messages (finish_cancel t))
        (process_other (record s { msgh_id = id }) token cancel e e' other)
    ∙ ap (receive_messages messages)
        (finish_none (print (line_for token id) (record s { msgh_id = id })) waits)

receives_cancel :
    (token cancel : ℕ) (messages : List (Option ℕ)) (s : State)
    → s.ended ≡ false
    → s.token_mach_port ≡ some token
    → s.token_mach_port_cancel ≡ some cancel
    → token ≢ cancel
    → receive_messages (some cancel ∷ messages) s
      ≡ finish_from cancel_fd (record s { msgh_id = cancel; mach_phase = cancels cancel_fd })
unfolding receive_message finish_cancel finish_from mach_cancels cancel_all_notifications
receives_cancel token cancel messages s runs e e' apart =
    runs_on (some cancel) messages s runs
    ∙ ap (λ t. receive_messages messages (finish_cancel t))
        (process_cancel (record s { msgh_id = cancel }) token cancel e e' apart refl)
    ∙ stays messages
        (finish_from cancel_fd (record s { msgh_id = cancel; mach_phase = cancels cancel_fd })) refl

-- The loop on the Mach port prints a line for each message before the one that cancels, which tells its own notification from any other; at
-- that one it prints that it cancels and the process ends, whatever would come later. The two tokens are set and differ, no
-- receive fails, and no other thread has a step between.
pub receive_messages-canceled :
    (ids : List ℕ) (later : List (Option ℕ)) (token cancel : ℕ) (s : State)
    → s.ended ≡ false
    → s.token_mach_port ≡ some token
    → s.token_mach_port_cancel ≡ some cancel
    → s.mach_phase ≡ waiting
    → token ≢ cancel
    → All (λ id. id ≢ cancel) ids
    → let t = receive_messages (map some ids ++ some cancel ∷ later) s in
      (t.printed ≡ s.printed ++ lines_for token ids) × (t.ended ≡ true)
unfolding finish_from mach_cancels cancel_all_notifications
receive_messages-canceled [] later token cancel s runs e e' waits apart others =
    rw (receives_cancel token cancel later s runs e e' apart) (refl, refl)
receive_messages-canceled (id ∷ ids) later token cancel s runs e e' waits apart (other, others) =
    let t = print (line_for token id) (record s { msgh_id = id }) in
    let (printed, ended) =
      receive_messages-canceled ids later token cancel t runs e e' waits apart others in
    rw
      (receives_other id token cancel (map some ids ++ some cancel ∷ later) s runs e e' waits other)
      (printed ∙ append_assoc s.printed (line_for token id ∷ []) (lines_for token ids), ended)

again :
    (token : ℕ) (s : State)
    → s.token_mach_port ≡ some token
    → s.msgh_id ≡ token
    → receive_message none s ≡ print mach_received (print receive_failed s)
unfolding receive_message process_message
again token s e same = ground arith

receives_again :
    (token : ℕ) (messages : List (Option ℕ)) (s : State)
    → s.ended ≡ false
    → s.token_mach_port ≡ some token
    → s.mach_phase ≡ waiting
    → s.msgh_id ≡ token
    → receive_messages (none ∷ messages) s
      ≡ receive_messages messages (print mach_received (print receive_failed s))
receives_again token messages s runs e waits same =
    runs_on none messages s runs
    ∙ ap (receive_messages messages) (
        let printed = print mach_received (print receive_failed s) in
        ap finish_cancel (again token s e same) ∙ finish_none printed waits)

-- After its own notification each receive that fails is printed as a failure and then as the same notification again, as often as receives fail
-- one after the other: the buffer still holds the last message.
pub receive_messages-repeated :
    (failures : ℕ) (token : ℕ) (s : State)
    → s.ended ≡ false
    → s.token_mach_port ≡ some token
    → s.mach_phase ≡ waiting
    → s.msgh_id ≡ token
    → (receive_messages (failing failures) s).printed ≡ s.printed ++ repeated failures
unfolding receive_messages
receive_messages-repeated zero token s runs e waits same = sym (append-nil s.printed)
receive_messages-repeated (suc failures) token s runs e waits same =
    rw (receives_again token (failing failures) s runs e waits same) (
      receive_messages-repeated failures token (print mach_received (print receive_failed s)) runs e
        waits same
      ∙ simp append_assoc)
