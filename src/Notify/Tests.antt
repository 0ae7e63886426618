-- ===== src/Notify/Tests.antt =====
-- 9-59/notify_consumer.c at concrete inputs.
use mac_os_x_internal.Prelude.{◌≡◌, ◌↔◌, refl, arith, true, ◌&&◌, [], ◌∷◌, some}
use mac_os_x_internal.Notify.{
  State, initial, register_mach_port, register_cancel, register_file_descriptor, receive_message,
  receive_messages, mach_received, mach_spurious, canceling, process_message,
  cancel_all_notifications, is_token, cancel_fd, cancel_port, cancel_signal, leave, finish_from,
  mach_cancels,
}
use mac_os_x_internal.Notify.Steps.{
  Reach, here, next, held, registers_port, registers_cancel, registers_descriptor, receives,
  mach_thread_cancels, is_canceling,
}
use mac_os_x_internal.Notify.Interleavings.{Reach-canceled}
use mac_os_x_internal.Notify.Cancel.{receive_messages-canceled}
use mac_os_x_internal.Notify.Producer.{
  main, opt_c, notify_post, notification_cancel, letter_for, main-notify_post,
}

-- The Mach port with the tokens 3 and 4, and the file descriptor with 5.
abbrev ported : State
ported = register_cancel (some 4) (register_mach_port (some 3) initial)

abbrev ready : State
ready = register_file_descriptor (some 5) ported

ready-Reach : Reach initial ready
unfolding register_cancel register_mach_port register_file_descriptor
ready-Reach =
    next
      (next (next here refl (registers_port (some 3) refl (λ token e. ground arith) refl)) refl
        (registers_cancel (some 4) refl (λ token e. ground arith) refl))
      refl (registers_descriptor (some 5) refl (λ token e. ground arith) refl)

-- The Mach port gets the notification that cancels.
abbrev done : State
done = finish_from cancel_fd (receive_message (some 4) ready)

done-Reach : Reach ready done
unfolding receive_message process_message finish_from mach_cancels cancel_all_notifications
    register_cancel register_mach_port register_file_descriptor
done-Reach =
    next
      (next
        (next
          (next (next here refl (receives (some 4) refl refl)) refl
            (mach_thread_cancels cancel_fd refl refl))
          refl (mach_thread_cancels cancel_port refl refl))
        refl (mach_thread_cancels cancel_signal refl refl))
      refl (mach_thread_cancels leave refl refl)

Reach-canceled_example :
    (ready.registered 4 ≡ held ready 4)
    × ((held ready 4 && done.registered 4) ≡ is_token ready.token_mach_port_cancel 4)
unfolding register_cancel register_mach_port register_file_descriptor receive_message
    process_message finish_from mach_cancels is_canceling
Reach-canceled_example = Reach-canceled ready-Reach refl refl refl 4 done-Reach refl

receive_messages-canceled_example :
    let t = receive_messages (some 3 ∷ some 9 ∷ some 4 ∷ some 3 ∷ []) ready in
    (t.printed ≡ mach_received ∷ mach_spurious ∷ canceling ∷ []) × (t.ended ≡ true)
unfolding register_cancel register_mach_port register_file_descriptor
receive_messages-canceled_example =
    receive_messages-canceled (3 ∷ 9 ∷ []) (some 3 ∷ []) 3 4 ready refl refl refl refl (omega arith)
      (omega arith, (omega arith, tt))

main-notify_post_example :
    (main true (opt_c ∷ []) ≡ notify_post notification_cancel)
    ↔ ((true ≡ true) × (opt_c ∷ [] ≡ letter_for notification_cancel ∷ []))
main-notify_post_example = main-notify_post true (opt_c ∷ []) notification_cancel
