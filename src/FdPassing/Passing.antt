-- ===== src/FdPassing/Passing.antt =====
-- 9-43/fd_sender.c and 9-44/fd_receiver.c: the file that arrives, and the descriptors that are left open.
use mac_os_x_internal.Prelude.{
  ℕ, ◌≡◌, refl, sym, ◌∙◌, ◌&&◌, arith, Bool, true, false, List, [], ◌∷◌, none, some, if◌then◌else◌,
  ◌↔◌,
}
use mac_os_x_internal.Prelude.Ledger.{acquire, Settles, none_held, only}
use mac_os_x_internal.FdPassing.{
  Control, Constants, SenderCalls, sockfd, file, setup_server, send_fd_using_sockfd, sender_main,
  Message, failure, end_of_stream, bytes, receive_fd_using_sockfd, ReadFile, receiver_main,
}

-- The kernel passes a control message on, with a descriptor of the receiver in the place of the sender's.
abbrev pub Transfers : (Control → Control) → Type 0
Transfers transfer =
    (m : Control)
    → ((transfer m).cmsg_len ≡ m.cmsg_len)
      × ((transfer m).cmsg_level ≡ m.cmsg_level)
      × ((transfer m).cmsg_type ≡ m.cmsg_type)

-- The sender opens its file as `fd` and comes as far as sending it, whose message the kernel transfers.
sends :
    (c : Constants) (calls : SenderCalls) (fd ret : ℕ)
    → calls.socket ≡ true
    → calls.bind ≡ true
    → calls.accept ≡ true
    → calls.open_file ≡ some fd
    → calls.sendmsg ≡ some ret
    → (sender_main c calls true).1
      ≡ some (record {
        cmsg_len = c.cmsg_len_int;
        cmsg_level = c.sol_socket;
        cmsg_type = c.scm_rights;
        fd = fd;
      })
unfolding sender_main setup_server send_fd_using_sockfd
sends c calls fd ret a b d e g = ground arith

-- The receiver exits with status 0 exactly if it connects and the message has one control message whose length, level and type are those
-- of one passed descriptor.
pub receiver_main_succeeds :
    (c : Constants) (socket connect : Bool) (read_file : ReadFile) (message : Message)
    → ((receiver_main c socket connect read_file message).0 ≡ 0) ↔ (
        (socket ≡ true)
        × (connect ≡ true)
        × ((ret : ℕ) × (m : Control) × (message ≡ bytes ret (some m))
            × (m.cmsg_len ≡ c.cmsg_len_int)
            × (m.cmsg_level ≡ c.sol_socket)
            × (m.cmsg_type ≡ c.scm_rights)))
unfolding receiver_main receive_fd_using_sockfd
receiver_main_succeeds c socket connect read_file failure = ground arith
receiver_main_succeeds c socket connect read_file end_of_stream = ground arith
receiver_main_succeeds c socket connect read_file (bytes ret none) = ground arith
receiver_main_succeeds c socket connect read_file (bytes ret (some m)) = (
  λ e. (ground arith, ground arith, (ret, m, refl, ground arith, ground arith, ground arith)),
  λ h. ground arith,
)

receives :
    (c : Constants) (read_file : ReadFile) (m : Control) (ret : ℕ)
    → m.cmsg_len ≡ c.cmsg_len_int
    → m.cmsg_level ≡ c.sol_socket
    → m.cmsg_type ≡ c.scm_rights
    → receiver_main c true true read_file (bytes ret (some m)) ≡ (
      0,
      elim (read_file m.fd) [ none ↦ [] | some contents ↦ contents ],
      acquire sockfd ∷ acquire file ∷ [],
    )
unfolding receiver_main receive_fd_using_sockfd
receives c read_file m ret e e' e'' = ground arith

-- Whether the sender has opened its file.
abbrev pub opened : SenderCalls → Bool → Bool
opened calls one_argument =
    one_argument
    && calls.socket
    && calls.bind
    && elim calls.open_file [ none ↦ false | some fd ↦ true ]

-- Whatever the calls of the system answer, the sender closes its socket and the connection once each, where it has made them and while they are open; at
-- its end exactly the file is open, where it has opened it, and otherwise nothing.
pub sender_main-Settles :
    (c : Constants) (calls : SenderCalls) (one_argument : Bool)
    → let (status, sent, events) = sender_main c calls one_argument in
      Settles none_held events (if opened calls one_argument then only file else none_held)
unfolding sender_main setup_server
sender_main-Settles c calls one_argument = ground arith

-- A sender that cannot send the descriptor ends with status 0 all the same.
pub sender_main-unsent :
    (c : Constants) (calls : SenderCalls) (fd : ℕ)
    → calls.socket ≡ true
    → calls.bind ≡ true
    → calls.accept ≡ true
    → calls.open_file ≡ some fd
    → calls.sendmsg ≡ none
    → ((sender_main c calls true).0 ≡ 0) × ((sender_main c calls true).1 ≡ none)
unfolding sender_main setup_server send_fd_using_sockfd
sender_main-unsent c calls fd a b d e g = ground arith

-- Where the sender can open its file and send its descriptor, and the receiver connects, the receiver writes what is read of the file that the sender has
-- opened, and ends with status 0: this holds where the kernel transfers the message with its length, level and type, and the descriptor that it
-- puts in reads the sender's file.
pub receiver_main-sender_main :
    (c : Constants) (calls : SenderCalls) (transfer : Control → Control)
    (contents read_file : ReadFile) (fd sent ret : ℕ) (m : Control) (text : List ℕ)
    → Transfers transfer
    → ((m : Control) → read_file (transfer m).fd ≡ contents m.fd)
    → calls.socket ≡ true
    → calls.bind ≡ true
    → calls.accept ≡ true
    → calls.open_file ≡ some fd
    → calls.sendmsg ≡ some sent
    → (sender_main c calls true).1 ≡ some m
    → contents fd ≡ some text
    → receiver_main c true true read_file (bytes ret (some (transfer m)))
      ≡ (0, text, acquire sockfd ∷ acquire file ∷ [])
receiver_main-sender_main c calls transfer contents read_file fd sent ret m text keeps same a b d e
      g sending held =
    let (len, level, kind) = keeps m in
    let is : some m
        ≡ some (record {
          cmsg_len = c.cmsg_len_int;
          cmsg_level = c.sol_socket;
          cmsg_type = c.scm_rights;
          fd = fd;
        }) =
      sym sending ∙ sends c calls fd sent a b d e g in
    ground (
      arith,
      is,
      same m,
      receives c read_file (transfer m) ret (ground (arith, len, is)) (ground (arith, level, is))
          (ground (arith, kind, is)),
    )
