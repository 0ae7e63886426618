-- ===== src/Notify.antt =====
-- 9-59/notify_consumer.c: three consumers of notifications, each a thread, and the notification that cancels them all.
pub mod Cancel
pub mod Steps
pub mod Interleavings
pub mod Producer
mod Tests
use mac_os_x_internal.Prelude.{
  ℕ, zero, suc, ◌+◌, ◌-◌, Bool, true, false, not, ◌&&◌, List, [], ◌∷◌, ◌++◌, Option, none, some,
  ltb, leb, ◌==◌, if◌then◌else◌, update,
}

-- What the program prints.
pub data Line : Type 0 where
  fd_received fd_spurious : Line
  receive_failed mach_received mach_spurious canceling : Line
  signal_received signal_spurious : Line

-- What a thread has still to do that cancels all notifications: the calls of `cancel_all_notifications` from one of the three on, or
-- to end the process.
pub data Call : Type 0 where
  cancel_fd cancel_port cancel_signal leave : Call

-- Where a thread is: before its registration (for the Mach port, one or two of them), in its loop, returned, or in `cancel_all_notifications`. The thread for the
-- signal is that of `main`.
pub data Phase : Type 0 where
  unregistered half_registered waiting returned : Phase
  cancels : Call → Phase

-- The tokens, `none` for -1; which tokens notifyd holds for the process; where each consumer is; the id in the buffer `msg`; what is printed, in
-- order; and whether the process has ended.
pub record State : Type 0 where
  pub token_fd : Option ℕ
  pub token_mach_port : Option ℕ
  pub token_signal : Option ℕ
  pub token_mach_port_cancel : Option ℕ
  pub registered : ℕ → Bool
  pub fd_phase : Phase
  pub mach_phase : Phase
  pub signal_phase : Phase
  pub msgh_id : ℕ
  pub printed : List Line
  pub ended : Bool

abbrev pub print : Line → State → State
print line s = record s { printed = s.printed ++ line ∷ [] }

-- A comparison of an id with a token.
abbrev pub is_token : Option ℕ → ℕ → Bool
is_token none id = false
is_token (some token) id = id == token

-- `notify_cancel`, for a token that is set.
abbrev pub notify_cancel : Option ℕ → (ℕ → Bool) → ℕ → Bool
notify_cancel none registered = registered
notify_cancel (some token) registered = update registered token false

-- One call of `cancel_all_notifications`, and the one after it.
unfoldable pub cancel_all_notifications : Call → State → (ℕ → Bool) × Call
cancel_all_notifications cancel_fd s = (notify_cancel s.token_fd s.registered, cancel_port)
cancel_all_notifications cancel_port s =
    (notify_cancel s.token_mach_port s.registered, cancel_signal)
cancel_all_notifications cancel_signal s = (notify_cancel s.token_signal s.registered, leave)
cancel_all_notifications leave s = (s.registered, leave)

-- The next thing that `consumer_mach_port` does once it cancels: a call, or to print and exit.
unfoldable pub mach_cancels : Call → State → State
mach_cancels leave s = record (print canceling s) { ended = true }
mach_cancels call s =
    let (registered', following) = cancel_all_notifications call s in
    record s { registered = registered'; mach_phase = cancels following }

-- The next thing that `main` does from its label `out` on: a call, or to return.
unfoldable pub main_cancels : Call → State → State
main_cancels leave s = record s { ended = true }
main_cancels call s =
    let (registered', following) = cancel_all_notifications call s in
    record s { registered = registered'; signal_phase = cancels following }

-- The registration at the head of each consumer: `answer` is the new token, or `none` if it fails, which leaves the token as it is.
unfoldable pub register_file_descriptor : (answer : Option ℕ) → State → State
register_file_descriptor none s = record s { fd_phase = returned }
register_file_descriptor (some token) s = record s {
  token_fd = some token;
  registered = update s.registered token true;
  fd_phase = waiting;
}

unfoldable pub register_mach_port : (answer : Option ℕ) → State → State
register_mach_port none s = record s { mach_phase = returned }
register_mach_port (some token) s = record s {
  token_mach_port = some token;
  registered = update s.registered token true;
  mach_phase = half_registered;
}

-- The second registration, on the same port.
unfoldable pub register_cancel : (answer : Option ℕ) → State → State
register_cancel none s = record s { mach_phase = returned }
register_cancel (some token) s = record s {
  token_mach_port_cancel = some token;
  registered = update s.registered token true;
  mach_phase = waiting;
}

-- If the registration for the signal fails, `main` goes on to its label `out`.
unfoldable pub register_signal : (answer : Option ℕ) → State → State
register_signal none s = record s { signal_phase = cancels cancel_fd }
register_signal (some token) s = record s {
  token_signal = some token;
  registered = update s.registered token true;
  signal_phase = waiting;
}

-- One round of `consumer_file_descriptor`: what `read` gives, or `none` if it fails.
unfoldable pub read_descriptor : (check : Option ℕ) → State → State
read_descriptor none s = record s { fd_phase = returned }
read_descriptor (some check) s =
    if is_token s.token_fd check then print fd_received s else print fd_spurious s

-- What a round of `consumer_mach_port` does about the id in its buffer.
unfoldable pub process_message : State → State
process_message s =
    if is_token s.token_mach_port s.msgh_id
    then print mach_received s
    else if is_token s.token_mach_port_cancel s.msgh_id
    then record s { mach_phase = cancels cancel_fd }
    else print mach_spurious s

-- One round: the id of the message, or `none` if `mach_msg` fails, which leaves the buffer as it is.
unfoldable pub receive_message : (message : Option ℕ) → State → State
receive_message none s = process_message (print receive_failed s)
receive_message (some id) s = process_message (record s { msgh_id = id })

-- What is left to do of a cancellation, with no step of another thread between.
unfoldable pub finish_from : Call → State → State
finish_from cancel_fd s =
    mach_cancels leave
      (mach_cancels cancel_signal (mach_cancels cancel_port (mach_cancels cancel_fd s)))
finish_from cancel_port s =
    mach_cancels leave (mach_cancels cancel_signal (mach_cancels cancel_port s))
finish_from cancel_signal s = mach_cancels leave (mach_cancels cancel_signal s)
finish_from leave s = mach_cancels leave s

-- The same, where the thread cancels.
unfoldable pub finish_cancel : State → State
finish_cancel s = elim s.mach_phase [ cancels call ↦ finish_from call s | _ ↦ s ]

-- The loop of `consumer_mach_port` until the process ends, with no step of another thread between.
unfoldable pub receive_messages : List (Option ℕ) → State → State
receive_messages [] s = s
receive_messages (message ∷ messages) s =
    let rest = receive_messages messages (finish_cancel (receive_message message s)) in
    if s.ended then s else rest

-- `sighandler_USR1`, by whether `notify_check` succeeds, and what it gives.
unfoldable pub sighandler_usr1 : (status_ok : Bool) (check : ℕ) → State → State
sighandler_usr1 status_ok check s =
    if status_ok && not (check == 0) then print signal_received s else print signal_spurious s

-- Where `main` cannot create a thread, it goes to `out`.
unfoldable pub create_failed : State → State
create_failed s = record s { signal_phase = cancels cancel_fd }

-- The start of the process: nothing is registered.
abbrev pub initial : State
initial = record {
  token_fd = none;
  token_mach_port = none;
  token_signal = none;
  token_mach_port_cancel = none;
  registered = λ token. false;
  fd_phase = unregistered;
  mach_phase = unregistered;
  signal_phase = unregistered;
  msgh_id = 0;
  printed = [];
  ended = false;
}
