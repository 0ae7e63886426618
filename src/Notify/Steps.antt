-- ===== src/Notify/Steps.antt =====
-- 9-59/notify_consumer.c: the steps of the threads, and the tokens as long as no thread cancels.
use mac_os_x_internal.Prelude.{
  ℕ, ◌≡◌, refl, arith, Bool, true, false, Option, none, some, if◌then◌else◌,
}
use mac_os_x_internal.Notify.{
  State, Phase, unregistered, half_registered, waiting, cancels, Call, is_token,
  cancel_all_notifications, mach_cancels, main_cancels, register_file_descriptor,
  register_mach_port, register_cancel, register_signal, read_descriptor, process_message,
  receive_message, sighandler_usr1, create_failed, initial,
}

-- The tokens in the four variables.
abbrev pub held : State → ℕ → Bool
held s token =
    if is_token s.token_fd token
    then true
    else if is_token s.token_mach_port token
    then true
    else if is_token s.token_signal token
    then true
    else is_token s.token_mach_port_cancel token

-- A registration gives a token that the process has not got before.
abbrev pub IsFresh : State → Option ℕ → Type 0
IsFresh s answer =
    (token : ℕ) → answer ≡ some token → (s.registered token ≡ false) × (held s token ≡ false)

-- A step of one of the threads while the process runs: a call that may block, with what the thread does until the next one. A registration and the
-- store of its token are one step.
pub data Step (s : State) (t : State) : Type 0 where
  registers_descriptor :
      (answer : Option ℕ)
      → s.fd_phase ≡ unregistered
      → IsFresh s answer
      → t ≡ register_file_descriptor answer s
      → Step s t
  registers_port :
      (answer : Option ℕ)
      → s.mach_phase ≡ unregistered
      → IsFresh s answer
      → t ≡ register_mach_port answer s
      → Step s t
  registers_cancel :
      (answer : Option ℕ)
      → s.mach_phase ≡ half_registered
      → IsFresh s answer
      → t ≡ register_cancel answer s
      → Step s t
  registers_signal :
      (answer : Option ℕ)
      → s.signal_phase ≡ unregistered
      → IsFresh s answer
      → t ≡ register_signal answer s
      → Step s t
  reads : (check : Option ℕ) → s.fd_phase ≡ waiting → t ≡ read_descriptor check s → Step s t
  receives :
      (message : Option ℕ) → s.mach_phase ≡ waiting → t ≡ receive_message message s → Step s t
  signalled : (status_ok : Bool) (check : ℕ) → t ≡ sighandler_usr1 status_ok check s → Step s t
  fails_to_create : s.signal_phase ≡ unregistered → t ≡ create_failed s → Step s t
  mach_thread_cancels :
      (call : Call) → s.mach_phase ≡ cancels call → t ≡ mach_cancels call s → Step s t
  main_thread_cancels :
      (call : Call) → s.signal_phase ≡ cancels call → t ≡ main_cancels call s → Step s t

pub data Reach (s : State) : State → Type 0 where
  here : Reach s s
  next : {t u : State} → Reach s t → t.ended ≡ false → Step t u → Reach s u

pub Reach-both : {r s t : State} → Reach r s → Reach s t → Reach r t
Reach-both first here = first
Reach-both first (next later runs step) = next (Reach-both first later) runs step

-- Before its registration a consumer has no token.
pub record IsPhased (s : State) : Type 0 where
  pub fd : s.fd_phase ≡ unregistered → s.token_fd ≡ none
  pub port : s.mach_phase ≡ unregistered → s.token_mach_port ≡ none
  pub both : s.mach_phase ≡ unregistered → s.token_mach_port_cancel ≡ none
  pub half : s.mach_phase ≡ half_registered → s.token_mach_port_cancel ≡ none
  pub signal : s.signal_phase ≡ unregistered → s.token_signal ≡ none

Step-IsPhased : {s t : State} → Step s t → IsPhased s → IsPhased t
unfolding register_file_descriptor register_mach_port register_cancel register_signal
    read_descriptor process_message receive_message sighandler_usr1 create_failed mach_cancels
    main_cancels cancel_all_notifications
Step-IsPhased (registers_descriptor answer at fresh e) p = ground arith
Step-IsPhased (registers_port answer at fresh e) p = ground arith
Step-IsPhased (registers_cancel answer at fresh e) p = ground arith
Step-IsPhased (registers_signal answer at fresh e) p = ground arith
Step-IsPhased (reads check at e) p = ground arith
Step-IsPhased (receives message at e) p = ground arith
Step-IsPhased (signalled status_ok check e) p = ground arith
Step-IsPhased (fails_to_create at e) p = ground arith
Step-IsPhased (mach_thread_cancels call at e) p = ground arith
Step-IsPhased (main_thread_cancels call at e) p = ground arith

-- Whether a token is that of the cancellation, which no other variable holds.
abbrev pub IsApart : State → ℕ → Type 0
IsApart s c =
    (is_token s.token_mach_port_cancel c ≡ true)
    × (is_token s.token_fd c ≡ false)
    × (is_token s.token_mach_port c ≡ false)
    × (is_token s.token_signal c ≡ false)

-- The token for the cancellation stands in no other variable.
pub record IsSound (s : State) : Type 0 where
  pub phased : IsPhased s
  pub apart : (c : ℕ) → is_token s.token_mach_port_cancel c ≡ true → IsApart s c

Step-IsApart :
    {s t : State} (c : ℕ)
    → Step s t
    → IsPhased s
    → (is_token s.token_mach_port_cancel c ≡ true → IsApart s c)
    → is_token t.token_mach_port_cancel c ≡ true
    → IsApart t c
unfolding register_file_descriptor register_mach_port register_cancel register_signal
    read_descriptor process_message receive_message sighandler_usr1 create_failed mach_cancels
    main_cancels cancel_all_notifications
Step-IsApart c (registers_descriptor none at fresh e) p m same = ground arith
Step-IsApart c (registers_descriptor (some new) at fresh e) p m same =
    ground (arith, fresh new refl)
Step-IsApart c (registers_port none at fresh e) p m same = ground arith
Step-IsApart c (registers_port (some new) at fresh e) p m same = ground (arith, fresh new refl)
Step-IsApart c (registers_cancel none at fresh e) p m same = ground arith
Step-IsApart c (registers_cancel (some new) at fresh e) p m same = ground (arith, fresh new refl)
Step-IsApart c (registers_signal none at fresh e) p m same = ground arith
Step-IsApart c (registers_signal (some new) at fresh e) p m same = ground (arith, fresh new refl)
Step-IsApart c (reads check at e) p m same = ground arith
Step-IsApart c (receives message at e) p m same = ground arith
Step-IsApart c (signalled status_ok check e) p m same = ground arith
Step-IsApart c (fails_to_create at e) p m same = ground arith
Step-IsApart c (mach_thread_cancels call at e) p m same = ground arith
Step-IsApart c (main_thread_cancels call at e) p m same = ground arith

pub Reach-IsSound : {s : State} → Reach initial s → IsSound s
Reach-IsSound here = ground arith
Reach-IsSound (next r runs step) =
    let sound = Reach-IsSound r in
    record {
      phased = Step-IsPhased step sound.phased;
      apart = λ c same. Step-IsApart c step sound.phased (sound.apart c) same;
    }

unfoldable pub is_canceling : Phase → Bool
is_canceling (cancels call) = true
is_canceling phase = false

-- As long as no thread cancels, a token is registered exactly if a variable holds it.
abbrev pub IsMatched : State → ℕ → Type 0
IsMatched s c =
    is_canceling s.mach_phase ≡ false
    → is_canceling s.signal_phase ≡ false
    → s.registered c ≡ held s c

Step-IsMatched : {s t : State} (c : ℕ) → Step s t → IsPhased s → IsMatched s c → IsMatched t c
unfolding register_file_descriptor register_mach_port register_cancel register_signal
    read_descriptor process_message receive_message sighandler_usr1 create_failed mach_cancels
    main_cancels cancel_all_notifications is_canceling
Step-IsMatched c (registers_descriptor none at fresh e) p m = ground arith
Step-IsMatched c (registers_descriptor (some new) at fresh e) p m = ground (arith, fresh new refl)
Step-IsMatched c (registers_port none at fresh e) p m = ground arith
Step-IsMatched c (registers_port (some new) at fresh e) p m = ground (arith, fresh new refl)
Step-IsMatched c (registers_cancel none at fresh e) p m = ground arith
Step-IsMatched c (registers_cancel (some new) at fresh e) p m = ground (arith, fresh new refl)
Step-IsMatched c (registers_signal none at fresh e) p m = ground arith
Step-IsMatched c (registers_signal (some new) at fresh e) p m = ground (arith, fresh new refl)
Step-IsMatched c (reads none at e) p m = ground arith
Step-IsMatched c (reads (some check) at e) p m = ground arith
Step-IsMatched c (receives none at e) p m = ground arith
Step-IsMatched c (receives (some id) at e) p m = ground arith
Step-IsMatched c (signalled status_ok check e) p m = ground arith
Step-IsMatched c (fails_to_create at e) p m = ground arith
Step-IsMatched c (mach_thread_cancels call at e) p m = ground arith
Step-IsMatched c (main_thread_cancels call at e) p m = ground arith

pub Reach-IsMatched : {s : State} (c : ℕ) → Reach initial s → IsMatched s c
Reach-IsMatched c here = ground arith
Reach-IsMatched c (next r runs step) =
    Step-IsMatched c step (Reach-IsSound r).phased (Reach-IsMatched c r)
