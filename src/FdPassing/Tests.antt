-- ===== src/FdPassing/Tests.antt =====
-- 9-43/fd_sender.c and 9-44/fd_receiver.c at concrete inputs.
use mac_os_x_internal.Prelude.{◌+◌, ◌-◌, ◌≡◌, refl, arith, true, [], ◌∷◌, some}
use mac_os_x_internal.Prelude.Ledger.{acquire}
use mac_os_x_internal.FdPassing.{
  Control, Constants, SenderCalls, sockfd, file, setup_server, send_fd_using_sockfd, sender_main,
  bytes, receive_fd_using_sockfd, ReadFile, receiver_main,
}
use mac_os_x_internal.FdPassing.Passing.{Transfers, receiver_main-sender_main}

abbrev constants : Constants
constants = record { cmsg_len_int = 16; sol_socket = 65535; scm_rights = 1 }

abbrev ready : SenderCalls
ready = record { socket = true; bind = true; open_file = some 3; accept = true; sendmsg = some 1 }

abbrev passed : Control
passed = record { cmsg_len = 16; cmsg_level = 65535; cmsg_type = 1; fd = 3 }

-- The kernel gives the receiver the descriptor after the sender's.
abbrev transfer : Control → Control
transfer m = record m { fd = m.fd + 1 }

-- Every file holds its descriptor at the sender.
abbrev contents : ReadFile
contents fd = some (fd ∷ [])

abbrev read_file : ReadFile
read_file fd = let sent = fd - 1 in some (sent ∷ [])

transfer-Transfers : Transfers transfer
transfer-Transfers m = (refl, refl, refl)

-- A message of another type is refused.
refused :
    (receiver_main constants true true read_file
      (bytes 1 (some (record passed { cmsg_type = 2 })))).0
    ≡ 1
unfolding receiver_main receive_fd_using_sockfd
refused = refl

receiver_main-sender_main_example :
    receiver_main constants true true read_file (bytes 1 (some (transfer passed)))
    ≡ (0, 3 ∷ [], acquire sockfd ∷ acquire file ∷ [])
unfolding sender_main setup_server send_fd_using_sockfd
receiver_main-sender_main_example =
    receiver_main-sender_main constants ready transfer contents read_file 3 1 1 passed (3 ∷ [])
      transfer-Transfers (λ m. ground arith) refl refl refl refl refl refl refl
