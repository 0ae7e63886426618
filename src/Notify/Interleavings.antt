-- ===== src/Notify/Interleavings.antt =====
-- 9-59/notify_consumer.c: what a cancellation leaves, in any order of the steps of the threads.
use mac_os_x_internal.Prelude.{ℕ, ◌≡◌, refl, arith, Bool, true, false, ◌&&◌, Option, none, some}
use mac_os_x_internal.Notify.{
  State, Phase, cancels, Call, cancel_fd, cancel_port, cancel_signal, leave, is_token,
  cancel_all_notifications, mach_cancels, main_cancels, register_file_descriptor,
  register_mach_port, register_cancel, register_signal, read_descriptor, process_message,
  receive_message, sighandler_usr1, create_failed, initial,
}
use mac_os_x_internal.Notify.Steps.{
  held, Step, registers_descriptor, registers_port, registers_cancel, registers_signal, reads,
  receives, signalled, fails_to_create, mach_thread_cancels, main_thread_cancels, Reach, here, next,
  Reach-both, IsPhased, IsApart, Reach-IsSound, is_canceling, Reach-IsMatched,
}

-- Whether a thread is past a call of the cancellation.
unfoldable pub past : Call → Phase → Bool
past cancel_fd (cancels cancel_fd) = false
past cancel_fd (cancels call) = true
past cancel_port (cancels cancel_signal) = true
past cancel_port (cancels leave) = true
past cancel_signal (cancels leave) = true
past call phase = false

-- The variable that a call of the cancellation is about.
unfoldable pub token_of : Call → State → Option ℕ
token_of cancel_fd s = s.token_fd
token_of cancel_port s = s.token_mach_port
token_of cancel_signal s = s.token_signal
token_of leave s = s.token_mach_port_cancel

-- A token of one of the three variables is gone once a thread is past the call that cancels it.
pub record IsFading (role : Call) (c : ℕ) (s : State) : Type 0 where
  pub keeps : is_token (token_of role s) c ≡ true
  pub by_mach : past role s.mach_phase ≡ true → s.registered c ≡ false
  pub by_main : past role s.signal_phase ≡ true → s.registered c ≡ false
  pub at_end : s.ended ≡ true → s.registered c ≡ false

descriptor-IsFading :
    {s t : State} (c : ℕ)
    → Step s t
    → s.ended ≡ false
    → IsPhased s
    → IsFading cancel_fd c s
    → IsFading cancel_fd c t
unfolding register_file_descriptor register_mach_port register_cancel register_signal
    read_descriptor process_message receive_message sighandler_usr1 create_failed mach_cancels
    main_cancels cancel_all_notifications past token_of
descriptor-IsFading c (registers_descriptor none at fresh e) runs p f = ground arith
descriptor-IsFading c (registers_descriptor (some new) at fresh e) runs p f =
    ground (arith, fresh new refl)
descriptor-IsFading c (registers_port none at fresh e) runs p f = ground arith
descriptor-IsFading c (registers_port (some new) at fresh e) runs p f =
    ground (arith, fresh new refl)
descriptor-IsFading c (registers_cancel none at fresh e) runs p f = ground arith
descriptor-IsFading c (registers_cancel (some new) at fresh e) runs p f =
    ground (arith, fresh new refl)
descriptor-IsFading c (registers_signal none at fresh e) runs p f = ground arith
descriptor-IsFading c (registers_signal (some new) at fresh e) runs p f =
    ground (arith, fresh new refl)
descriptor-IsFading c (reads check at e) runs p f = ground arith
descriptor-IsFading c (receives message at e) runs p f = ground arith
descriptor-IsFading c (signalled status_ok check e) runs p f = ground arith
descriptor-IsFading c (fails_to_create at e) runs p f = ground arith
descriptor-IsFading c (mach_thread_cancels call at e) runs p f = ground arith
descriptor-IsFading c (main_thread_cancels call at e) runs p f = ground arith

port-IsFading :
    {s t : State} (c : ℕ)
    → Step s t
    → s.ended ≡ false
    → IsPhased s
    → IsFading cancel_port c s
    → IsFading cancel_port c t
unfolding register_file_descriptor register_mach_port register_cancel register_signal
    read_descriptor process_message receive_message sighandler_usr1 create_failed mach_cancels
    main_cancels cancel_all_notifications past token_of
port-IsFading c (registers_descriptor none at fresh e) runs p f = ground arith
port-IsFading c (registers_descriptor (some new) at fresh e) runs p f =
    ground (arith, fresh new refl)
port-IsFading c (registers_port none at fresh e) runs p f = ground arith
port-IsFading c (registers_port (some new) at fresh e) runs p f = ground (arith, fresh new refl)
port-IsFading c (registers_cancel none at fresh e) runs p f = ground arith
port-IsFading c (registers_cancel (some new) at fresh e) runs p f = ground (arith, fresh new refl)
port-IsFading c (registers_signal none at fresh e) runs p f = ground arith
port-IsFading c (registers_signal (some new) at fresh e) runs p f = ground (arith, fresh new refl)
port-IsFading c (reads check at e) runs p f = ground arith
port-IsFading c (receives message at e) runs p f = ground arith
port-IsFading c (signalled status_ok check e) runs p f = ground arith
port-IsFading c (fails_to_create at e) runs p f = ground arith
port-IsFading c (mach_thread_cancels call at e) runs p f = ground arith
port-IsFading c (main_thread_cancels call at e) runs p f = ground arith

signal-IsFading :
    {s t : State} (c : ℕ)
    → Step s t
    → s.ended ≡ false
    → IsPhased s
    → IsFading cancel_signal c s
    → IsFading cancel_signal c t
unfolding register_file_descriptor register_mach_port register_cancel register_signal
    read_descriptor process_message receive_message sighandler_usr1 create_failed mach_cancels
    main_cancels cancel_all_notifications past token_of
signal-IsFading c (registers_descriptor none at fresh e) runs p f = ground arith
signal-IsFading c (registers_descriptor (some new) at fresh e) runs p f =
    ground (arith, fresh new refl)
signal-IsFading c (registers_port none at fresh e) runs p f = ground arith
signal-IsFading c (registers_port (some new) at fresh e) runs p f = ground (arith, fresh new refl)
signal-IsFading c (registers_cancel none at fresh e) runs p f = ground arith
signal-IsFading c (registers_cancel (some new) at fresh e) runs p f = ground (arith, fresh new refl)
signal-IsFading c (registers_signal none at fresh e) runs p f = ground arith
signal-IsFading c (registers_signal (some new) at fresh e) runs p f = ground (arith, fresh new refl)
signal-IsFading c (reads check at e) runs p f = ground arith
signal-IsFading c (receives message at e) runs p f = ground arith
signal-IsFading c (signalled status_ok check e) runs p f = ground arith
signal-IsFading c (fails_to_create at e) runs p f = ground arith
signal-IsFading c (mach_thread_cancels call at e) runs p f = ground arith
signal-IsFading c (main_thread_cancels call at e) runs p f = ground arith

-- The token of the cancellation stays registered.
abbrev pub IsLeft : ℕ → State → Type 0
IsLeft c s = IsApart s c × (s.registered c ≡ true)

Step-IsLeft : {s t : State} (c : ℕ) → Step s t → IsPhased s → IsLeft c s → IsLeft c t
unfolding register_file_descriptor register_mach_port register_cancel register_signal
    read_descriptor process_message receive_message sighandler_usr1 create_failed mach_cancels
    main_cancels cancel_all_notifications
Step-IsLeft c (registers_descriptor none at fresh e) p m = ground arith
Step-IsLeft c (registers_descriptor (some new) at fresh e) p m = ground (arith, fresh new refl)
Step-IsLeft c (registers_port none at fresh e) p m = ground arith
Step-IsLeft c (registers_port (some new) at fresh e) p m = ground (arith, fresh new refl)
Step-IsLeft c (registers_cancel none at fresh e) p m = ground arith
Step-IsLeft c (registers_cancel (some new) at fresh e) p m = ground (arith, fresh new refl)
Step-IsLeft c (registers_signal none at fresh e) p m = ground arith
Step-IsLeft c (registers_signal (some new) at fresh e) p m = ground (arith, fresh new refl)
Step-IsLeft c (reads check at e) p m = ground arith
Step-IsLeft c (receives message at e) p m = ground arith
Step-IsLeft c (signalled status_ok check e) p m = ground arith
Step-IsLeft c (fails_to_create at e) p m = ground arith
Step-IsLeft c (mach_thread_cancels call at e) p m = ground arith
Step-IsLeft c (main_thread_cancels call at e) p m = ground arith

module _ {s : State} (first : Reach initial s) (runs : s.ended ≡ false)
    (mach_waits : is_canceling s.mach_phase ≡ false)
    (main_waits : is_canceling s.signal_phase ≡ false) where
  -- A token of one of the three variables is registered, and no thread is past its call.
  starts : (role : Call) (c : ℕ) → is_token (token_of role s) c ≡ true → IsFading role c s
  unfolding is_canceling past
  starts role c same = ground (arith, mach_waits, main_waits, runs)

  fades-fd : {t : State} (c : ℕ) → Reach s t → is_token s.token_fd c ≡ true → IsFading cancel_fd c t
  unfolding token_of
  fades-fd c here same = starts cancel_fd c same
  fades-fd c (next r on step) same =
      descriptor-IsFading c step on (Reach-IsSound (Reach-both first r)).phased (fades-fd c r same)

  fades-port :
      {t : State} (c : ℕ)
      → Reach s t
      → is_token s.token_mach_port c ≡ true
      → IsFading cancel_port c t
  unfolding token_of
  fades-port c here same = starts cancel_port c same
  fades-port c (next r on step) same =
      port-IsFading c step on (Reach-IsSound (Reach-both first r)).phased (fades-port c r same)

  fades-signal :
      {t : State} (c : ℕ)
      → Reach s t
      → is_token s.token_signal c ≡ true
      → IsFading cancel_signal c t
  unfolding token_of
  fades-signal c here same = starts cancel_signal c same
  fades-signal c (next r on step) same =
      signal-IsFading c step on (Reach-IsSound (Reach-both first r)).phased (fades-signal c r same)

  stays : {t : State} (c : ℕ) → Reach s t → is_token s.token_mach_port_cancel c ≡ true → IsLeft c t
  stays c here same =
      let apart = (Reach-IsSound first).apart c same in
      (apart, ground (arith, Reach-IsMatched c first mach_waits main_waits))
  stays c (next r on step) same =
      Step-IsLeft c step (Reach-IsSound (Reach-both first r)).phased (stays c r same)

  -- In any order of the steps of the threads, each call of a cancellation a step of its own, where a registration with the store of its token is one step and gives a token that the
  -- process has not got before: as long as no thread has begun to cancel, the tokens registered are those in the four variables; and when the
  -- process has ended, of these tokens exactly the one for the cancellation is still registered, which nothing cancels.
  pub Reach-canceled :
      {t : State} (token : ℕ)
      → Reach s t
      → t.ended ≡ true
      → (s.registered token ≡ held s token)
        × ((held s token && t.registered token) ≡ is_token s.token_mach_port_cancel token)
  Reach-canceled token later ended = (
    Reach-IsMatched token first mach_waits main_waits,
    ground (
      arith,
      λ (same : is_token s.token_fd token ≡ true). (fades-fd token later same).at_end ended,
      λ (same : is_token s.token_mach_port token ≡ true).
          (fades-port token later same).at_end ended,
      λ (same : is_token s.token_signal token ≡ true). (fades-signal token later same).at_end ended,
      stays token later,
    ),
  )
