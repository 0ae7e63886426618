-- ===== src/VnodeDriver/Stream.antt =====
-- 11-36/VnodeWatcher.cpp and 11-37/vnodewatch.c: the accesses that the kernel sees, as the client prints them.
use Prim.Native.String.{String}
use mathlib.Core.List.{map-append}
use mac_os_x_internal.Prelude.{
  ℕ, ◌/◌, ◌%◌, ◌^◌, ◌≡◌, ◌≢◌, sym, arith, ◌∙◌, ap, Bool, true, false, List, [], ◌∷◌, ◌++◌,
  append_assoc, append-nil, none, some, if◌then◌else◌, map, All, Bool-cases, inl, inr,
}
use mac_os_x_internal.Vnodewatch.{Vdata, Dequeued, printed, watch, stop_listening}
use mac_os_x_internal.Vnodewatch.Queue.{before_stop, concat, watch-concat}
use mac_os_x_internal.VnodeDriver.{
  UserClient, Message, access, stop_message, Access, is_log_file, size_of, authorize_callback, stop,
}

-- A queue with room for every message.
abbrev pub roomy : List Message → Message → Bool
roomy queue message = true

module _ (log_file_path : List ℕ) (header_size : ℕ) where
  -- The queue after one callback for each access.
  abbrev pub logged : List Access → List Message → List Message
  logged [] queue = queue
  logged (a ∷ accesses) queue =
      logged accesses (authorize_callback log_file_path header_size roomy a queue)

  -- The accesses that are not to the log file.
  abbrev pub watched : List Access → List Access
  watched [] = []
  watched (a ∷ accesses) =
      if is_log_file log_file_path a then watched accesses else a ∷ watched accesses

  callback_skips :
      (a : Access) (queue : List Message)
      → is_log_file log_file_path a ≡ true
      → authorize_callback log_file_path header_size roomy a queue ≡ queue
  unfolding authorize_callback
  callback_skips a queue e = rw e

  callback_adds :
      (a : Access) (queue : List Message)
      → is_log_file log_file_path a ≡ false
      → authorize_callback log_file_path header_size roomy a queue
        ≡ queue ++ access (size_of header_size a) a ∷ []
  unfolding authorize_callback
  callback_adds a queue e = rw e

  -- The first byte of a process number, which begins the data of an access.
  abbrev pub first_byte_of : (big_endian : Bool) → ℕ → ℕ
  first_byte_of big_endian pid = if big_endian then pid / 2 ^ 24 % 2 ^ 8 else pid % 2 ^ 8

  module _ (big_endian : Bool) (text : List ℕ → String) (stale : Vdata) where
    -- The data of an access in the client's buffer; `text` is the C string of a path.
    abbrev pub received : Access → Vdata
    received a = record {
      first_byte = first_byte_of big_endian a.pid;
      pid = a.pid;
      has = a.has;
      v_type = a.v_type;
      v_tag = a.v_tag;
      p_comm = a.p_comm;
      path = text (elim a.path [ none ↦ [] | some bytes ↦ bytes ]);
    }

    -- What a dequeue leaves in the buffer; the one byte of the last message leaves the rest of it as it was.
    abbrev pub dequeued : Message → Dequeued
    dequeued (access size a) = some (received a)
    dequeued stop_message = some (record stale { first_byte = stop_listening })

    logged_lem :
        (accesses : List Access) (queue : List Message)
        → map dequeued (logged accesses queue)
          ≡ map dequeued queue ++ map (λ a. some (received a)) (watched accesses)
    logged_lem [] queue = sym (append-nil (map dequeued queue))
    logged_lem (a ∷ accesses) queue = elim (Bool-cases (is_log_file log_file_path a)) [
      | inl skipped ↦ rw (callback_skips a queue skipped, skipped) (logged_lem accesses queue)
      | inr kept ↦
          rw (callback_adds a queue kept, kept)
            (logged_lem accesses (queue ++ access (size_of header_size a) a ∷ [])
              ∙ simp (map-append, append_assoc))
    ]

    -- Up to the stop message nothing is lost, where no access begins with the byte of that message.
    before_stop-watched :
        (accesses : List Access) (later : List Dequeued)
        → All (λ a. first_byte_of big_endian a.pid ≢ stop_listening) accesses
        → before_stop (map (λ a. some (received a)) accesses ++ dequeued stop_message ∷ later)
          ≡ map received accesses
    before_stop-watched [] later plain = ground arith
    before_stop-watched (a ∷ accesses) later (p, plain) =
        ground (arith, before_stop-watched accesses later plain)

    -- An access that begins with that byte ends the list.
    before_stop-confused :
        (accesses : List Access) (a : Access) (later : List Dequeued)
        → All (λ a. first_byte_of big_endian a.pid ≢ stop_listening) accesses
        → first_byte_of big_endian a.pid ≡ stop_listening
        → before_stop (map (λ a. some (received a)) accesses ++ some (received a) ∷ later)
          ≡ map received accesses
    before_stop-confused [] a later plain same = ground arith
    before_stop-confused (b ∷ accesses) a later (p, plain) same =
        ground (arith, before_stop-confused accesses a later plain same)

    stop_sends :
        (u : UserClient)
        → u.queue ≡ true
        → (stop roomy u).messages ≡ u.messages ++ stop_message ∷ []
    unfolding stop
    stop_sends u e = ground arith

    sent_lem :
        (accesses : List Access) (u : UserClient)
        → u.queue ≡ true
        → u.messages ≡ []
        → map dequeued (stop roomy (record u { messages = logged accesses u.messages })).messages
          ≡ map (λ a. some (received a)) (watched accesses) ++ dequeued stop_message ∷ []
    sent_lem accesses u alive empty =
        rw (stop_sends (record u { messages = logged accesses u.messages }) alive, empty)
          (map-append dequeued (logged accesses []) (stop_message ∷ [])
            ∙ ap (λ (ds : List Dequeued). ds ++ dequeued stop_message ∷ [])
                (logged_lem accesses []))

    -- A queue that has room for every message passes on to the client all accesses but those to the log file, in their order, and then the client
    -- leaves its loop, whatever comes later: this holds where the user client has a queue, which is empty at first, each access makes one
    -- callback, `stop` follows, and the client finds what was sent, cut into any batches. No access begins with the byte of
    -- the stop message.
    pub watch-stop :
        (accesses : List Access) (u : UserClient) (queues : List (List Dequeued))
        (later : List Dequeued)
        → u.queue ≡ true
        → u.messages ≡ []
        → All (λ a. first_byte_of big_endian a.pid ≢ stop_listening) (watched accesses)
        → concat queues
          ≡ map dequeued (stop roomy (record u { messages = logged accesses u.messages })).messages
            ++ later
        → watch queues ≡ map printed (map received (watched accesses))
    watch-stop accesses u queues later alive empty plain cut =
        watch-concat queues
        ∙ ap (λ (ds : List Dequeued). map printed (before_stop ds))
            (cut
              ∙ ap (λ (ds : List Dequeued). ds ++ later) (sent_lem accesses u alive empty)
              ∙ append_assoc (map (λ a. some (received a)) (watched accesses))
                  (dequeued stop_message ∷ []) later)
        ∙ ap (map printed) (before_stop-watched (watched accesses) later plain)

    -- An access that begins with the byte of the stop message ends the client, although nothing asks it to stop: it prints the accesses
    -- before it, none of which begins so, and loses all that come later. On a little-endian machine these are the accesses of the processes
    -- whose number is 255 modulo 256.
    pub watch-confused :
        (accesses : List Access) (a : Access) (queues : List (List Dequeued))
        (later : List Dequeued)
        → All (λ b. first_byte_of big_endian b.pid ≢ stop_listening) accesses
        → first_byte_of big_endian a.pid ≡ stop_listening
        → concat queues ≡ map (λ b. some (received b)) accesses ++ some (received a) ∷ later
        → watch queues ≡ map printed (map received accesses)
    watch-confused accesses a queues later plain same cut =
        watch-concat queues
        ∙ ap (λ (ds : List Dequeued). map printed (before_stop ds)) cut
        ∙ ap (map printed) (before_stop-confused accesses a later plain same)
