-- ===== src/Kdebug.antt =====
-- 6-29/kdebug.c: the requests to the kernel's trace facility, the clean-up at exit, and the sampling loop.
pub mod Cleanup
pub mod Tracing
pub mod Decode
mod Tests
use mac_os_x_internal.Prelude.{
  ℕ, zero, suc, ◌*◌, Bool, true, false, not, ◌&&◌, List, [], ◌∷◌, ◌++◌, Option, none, some, ltb,
  leb, ◌==◌, if◌then◌else◌, ℤ, pos, negsuc, map,
}
use mac_os_x_internal.Kdebug.Decode.{KdBuf, Report, Masks, report}

-- The requests that are made by `sysctl` under `KERN_KDEBUG`.
pub data Request : Type 0 where
  enable : Bool → Request
  remove : Request
  setup : Request
  setbuf : ℕ → Request
  pidcheck : ℤ → Bool → Request
  valcheck : ℕ → Request
  getbuf : Request
  readtr : Request

-- The global variables, and the requests made so far with their success, the latest first.
pub record State : Type 0 where
  pub exiting : Bool
  pub trace_enabled : Bool
  pub set_remove_flag : Bool
  pub pid : ℤ
  pub log : List (Request × Bool)

-- Whether a request succeeds, which may depend on all that went before.
abbrev pub System : Type 0
System = List (Request × Bool) → Request → Bool

pub data Outcome : Type 0 where
  running : State → Outcome
  exited : (status : ℕ) → State → Outcome
  out_of_fuel : Outcome

infixl 5 ◌>>=◌
abbrev pub ◌>>=◌ : Outcome → (State → Outcome) → Outcome
running s >>= next = next s
exited status s >>= next = exited status s
out_of_fuel >>= next = out_of_fuel

-- A request is made: its success, and the state with it in the log.
abbrev pub sysctl : System → Request → State → Bool × State
sysctl sys r s = let done = sys s.log r in (done, record s { log = (r, done) ∷ s.log })

-- `exit` stands for `ukdbg_exit`, in this function and the two that follow.
unfoldable pub ukdbg_setenable : System → (State → Outcome) → Bool → State → Outcome
ukdbg_setenable sys exit on s =
    let (done, s') = sysctl sys (enable on) s in
    if not done && not s'.exiting then exit s' else running (record s' { trace_enabled = on })

unfoldable pub ukdbg_clear : System → (State → Outcome) → State → Outcome
ukdbg_clear sys exit s =
    let (done, s') = sysctl sys remove s in
    if not done && not s'.exiting then exit (record s' { set_remove_flag = false }) else running s'

unfoldable pub ukdbg_setpidcheck : System → (State → Outcome) → ℤ → Bool → State → Outcome
ukdbg_setpidcheck sys exit pid check s =
    let (done, s') = sysctl sys (pidcheck pid check) s in
    if not done && not s'.exiting then exit s' else running s'

abbrev pub is_positive : ℤ → Bool
is_positive (pos zero) = false
is_positive (pos (suc n)) = true
is_positive (negsuc n) = false

-- `ukdbg_exit_handler`, which its own steps call when they fail: `depth` calls inside one another.
unfoldable pub exit_handler : System → ℕ → ℕ → State → Outcome
exit_handler sys zero status s = out_of_fuel
exit_handler sys (suc depth) status s =
    let exit = exit_handler sys depth 0 in
    let start = record s { exiting = true } in
    (if start.trace_enabled then ukdbg_setenable sys exit false start else running start)
    >>= (λ a. if is_positive a.pid then ukdbg_setpidcheck sys exit a.pid false a else running a)
    >>= (λ b. if b.set_remove_flag then ukdbg_clear sys exit b else running b)
    >>= (λ c. exited status c)

-- One level is enough: see `Cleanup`.
abbrev pub ukdbg_exit : System → State → Outcome
ukdbg_exit sys = exit_handler sys 1 0

-- `ukdbg_reinit`, `ukdbg_setbuf`, `ukdbg_setreg_valcheck`, `ukdbg_getbuf` and `ukdbg_read`: a failure exits.
unfoldable pub request : System → Request → State → Outcome
request sys r s = let (done, s') = sysctl sys r s in if done then running s' else ukdbg_exit sys s'

abbrev pub sample_size : ℕ
sample_size = 16384

-- From the first request of `main` to the loop. `code` is the system call of interest, as the value that
-- is checked.
unfoldable pub prepare : System → ℕ → State → Outcome
prepare sys code s =
    ukdbg_clear sys (ukdbg_exit sys) s
    >>= request sys (setbuf sample_size)
    >>= request sys setup
    >>= (λ a.
        if is_positive a.pid
        then ukdbg_setpidcheck sys (ukdbg_exit sys) a.pid true a
        else running a)
    >>= request sys (valcheck code)
    >>= ukdbg_setenable sys (ukdbg_exit sys) true

-- What the loop meets: a sample of the trace buffer, or a signal whose handler runs.
pub data Round : Type 0 where
  sample : List KdBuf → Round
  signal : ℕ → Round

-- What is printed after an outcome, if the program still runs.
abbrev pub resume : Outcome → (State → List Report × Outcome) → List Report × Outcome
resume (running s) next = next s
resume (exited status s) next = ([], exited status s)
resume out_of_fuel next = ([], out_of_fuel)

-- The sampling loop: what it prints and how it ends; it runs on when the rounds are over.
unfoldable pub sampling : System → Masks → List Round → State → List Report × Outcome
sampling sys masks [] s = ([], running s)
sampling sys masks (signal n ∷ rounds) s = ([], exit_handler sys 1 n s)
sampling sys masks (sample kds ∷ rounds) s =
    resume (request sys getbuf s >>= request sys readtr)
      λ s'. let (later, o) = sampling sys masks rounds s' in (map (report masks) kds ++ later, o)

abbrev pub initial : ℤ → State
initial pid = record {
  exiting = false;
  trace_enabled = false;
  set_remove_flag = true;
  pid = pid;
  log = [];
}

-- `main`: the argument count, `atoi(argv[1])`, whether `malloc` succeeds, and what the loop meets.
unfoldable pub main : System → Masks → ℕ → ℕ → ℤ → Bool → List Round → List Report × Outcome
main sys masks code argc pid allocated rounds =
    let start = initial (if argc == 2 then pid else negsuc 0) in
    if ltb 2 argc
    then ([], exited 1 start)
    else if not allocated
    then ([], exited 1 start)
    else resume (prepare sys code start) (sampling sys masks rounds)
