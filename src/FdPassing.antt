-- ===== src/FdPassing.antt =====
-- 9-43/fd_sender.c and 9-44/fd_receiver.c: a server that opens a file and passes its descriptor over a socket, and the client that receives it; both
-- with 9-42/fd_common.h.
pub mod Passing
mod Tests
use mac_os_x_internal.Prelude.{
  ℕ, zero, suc, ◌+◌, ◌-◌, Bool, true, false, not, ◌&&◌, List, [], ◌∷◌, ◌++◌, Option, none, some,
  ltb, leb, ◌==◌, if◌then◌else◌,
}
use mac_os_x_internal.Prelude.Ledger.{Ledger, acquire, release}

-- A control message: its length, level and type, as numbers, and the descriptor in its data.
pub record Control : Type 0 where
  pub cmsg_len : ℕ
  pub cmsg_level : ℕ
  pub cmsg_type : ℕ
  pub fd : ℕ

-- `CMSG_LEN(sizeof(int))`, `SOL_SOCKET` and `SCM_RIGHTS` of the system.
pub record Constants : Type 0 where
  pub cmsg_len_int : ℕ
  pub sol_socket : ℕ
  pub scm_rights : ℕ

-- What the system answers, `none` or false for a failure; `sendmsg` is the number of bytes sent.
pub record SenderCalls : Type 0 where
  pub socket : Bool
  pub bind : Bool
  pub open_file : Option ℕ
  pub accept : Bool
  pub sendmsg : Option ℕ

-- The descriptors of the sender: its socket, the file and the connection.
abbrev pub sockfd : ℕ
sockfd = 0

abbrev pub file : ℕ
file = 1

abbrev pub csockfd : ℕ
csockfd = 2

-- `setup_server`: whether it returns a socket, and what it acquires and releases.
unfoldable pub setup_server : SenderCalls → Bool × List Ledger
setup_server calls =
    if not calls.socket
    then (false, [])
    else if not calls.bind
    then (false, acquire sockfd ∷ release sockfd ∷ [])
    else (true, acquire sockfd ∷ [])

-- `send_fd_using_sockfd`: the control message that it sends, if `sendmsg` succeeds.
unfoldable pub send_fd_using_sockfd : Constants → SenderCalls → (fd : ℕ) → Option Control
send_fd_using_sockfd c calls fd =
    let cmsghdr : Control = record {
      cmsg_len = c.cmsg_len_int;
      cmsg_level = c.sol_socket;
      cmsg_type = c.scm_rights;
      fd = fd;
    } in
    elim calls.sendmsg [ none ↦ none | some ret ↦ some cmsghdr ]

-- `main`: its status, what it sends, and the descriptors it acquires and releases. `one_argument` is `argc == 2`. It leaves its loop in the
-- first round.
unfoldable pub sender_main :
    Constants → SenderCalls → (one_argument : Bool) → ℕ × Option Control × List Ledger
sender_main c calls one_argument =
    let (server, events) = setup_server calls in
    if not one_argument
    then (1, none, [])
    else if not server
    then (1, none, events)
    else elim calls.open_file [
      | none ↦ (1, none, events ++ release sockfd ∷ [])
      | some fd ↦
          if not calls.accept then (1, none, events ++ acquire file ∷ release sockfd ∷ []) else (
            0,
            send_fd_using_sockfd c calls fd,
            events ++ acquire file ∷ acquire csockfd ∷ release sockfd ∷ release csockfd ∷ [],
          )
    ]

-- What `recvmsg` gives: a failure, the end of the stream, or bytes with a control message, if there is one.
pub data Message : Type 0 where
  failure end_of_stream : Message
  bytes : (ret : ℕ) → Option Control → Message

-- What `receive_fd_using_sockfd` returns: less than 0, or a number.
pub data Ret : Type 0 where
  negative : Ret
  count : ℕ → Ret

abbrev pub errcond : Constants → Control → ℕ
errcond c cmsghdr =
    (if cmsghdr.cmsg_len == c.cmsg_len_int then 0 else 1)
    + (if cmsghdr.cmsg_level == c.sol_socket then 0 else 1)
    + (if cmsghdr.cmsg_type == c.scm_rights then 0 else 1)

-- `receive_fd_using_sockfd`: what it returns, and `*fd`, which was -1 before, `none` for -1.
unfoldable pub receive_fd_using_sockfd : Constants → Message → Ret × Option ℕ
receive_fd_using_sockfd c failure = (negative, none)
receive_fd_using_sockfd c end_of_stream = (count 0, none)
receive_fd_using_sockfd c (bytes ret none) = (count ret, none)
receive_fd_using_sockfd c (bytes ret (some cmsghdr)) =
    if ltb 0 (errcond c cmsghdr) then (count ret, none) else (count ret, some cmsghdr.fd)

-- The file as a descriptor reads it: up to 512 bytes of it, or a failure.
abbrev pub ReadFile : Type 0
ReadFile = (fd : ℕ) → Option (List ℕ)

-- `main` of the receiver: its status, the bytes that it writes, and its descriptors.
unfoldable pub receiver_main :
    Constants → (socket connect : Bool) → ReadFile → Message → ℕ × List ℕ × List Ledger
receiver_main c socket connect read_file message =
    let (ret, received) = receive_fd_using_sockfd c message in
    let failed : ℕ × List ℕ × List Ledger = (1, [], acquire sockfd ∷ release sockfd ∷ []) in
    if not socket then (1, [], []) else if not connect then failed else elim ret [
      | negative ↦ failed
      | count n ↦ elim received [
        | none ↦ failed
        | some fd ↦ (
          0,
          elim (read_file fd) [ none ↦ [] | some contents ↦ contents ],
          acquire sockfd ∷ acquire file ∷ [],
        )
      ]
    ]
