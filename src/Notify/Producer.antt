-- ===== src/Notify/Producer.antt =====
-- 9-58/notify_producer.c and 9-57/notify_common.h: the program that posts a notification.
use mac_os_x_internal.Prelude.{
  ℕ, ◌+◌, ◌≡◌, ◌↔◌, ◌≢◌, refl, arith, Bool, true, not, List, [], ◌∷◌, Option, none, some, ◌==◌,
  if◌then◌else◌,
}

-- The names of the four notifications.
pub data Name : Type 0 where
  notification_by_file_descriptor notification_by_mach_port notification_by_signal : Name
  notification_cancel : Name

-- What `getopt` gives for "cfps".
pub data Opt : Type 0 where
  opt_c opt_f opt_p opt_s opt_other : Opt

-- What the producer does: it prints its usage, or posts a notification and returns the status of that.
pub data Posting : Type 0 where
  usage : Posting
  notify_post : Name → Posting

-- The name that an option stands for.
unfoldable pub name_of : Opt → Option Name
name_of opt_c = some notification_cancel
name_of opt_f = some notification_by_file_descriptor
name_of opt_p = some notification_by_mach_port
name_of opt_s = some notification_by_signal
name_of opt_other = none

-- The loop of `main` over the options, and what follows it: `name` is that of the last option, if there has been one.
unfoldable pub post_options : List Opt → (name : Option Name) → (options : ℕ) → Posting
post_options [] none options = usage
post_options [] (some name) options = if options == 1 then notify_post name else usage
post_options (opt ∷ opts) name options =
    let rest = post_options opts (name_of opt) (options + 1) in
    elim (name_of opt) [ none ↦ usage | some next ↦ rest ]

-- `main`, where `one_argument` is `argc == 2`.
unfoldable pub main : (one_argument : Bool) → List Opt → Posting
main one_argument opts = if not one_argument then usage else post_options opts none 0

post_options-many :
    (opts : List Opt) (name : Option Name) (options : ℕ)
    → options ≢ 0
    → options ≢ 1
    → post_options opts name options ≡ usage
unfolding post_options
post_options-many [] none options some_option more = refl
post_options-many [] (some name) options some_option more = ground arith
post_options-many (opt ∷ opts) name options some_option more =
    let rest = post_options-many opts (name_of opt) (options + 1) (omega arith) (omega arith) in
    ground (arith, rest)

posted_option :
    (one_argument : Bool) (opts : List Opt) (name : Name)
    → main one_argument opts ≡ notify_post name
    → (one_argument ≡ true) × ((opt : Opt) × (opts ≡ opt ∷ []) × (name_of opt ≡ some name))
unfolding main post_options
posted_option one_argument [] name posted = absurd (ground arith)
posted_option one_argument (opt ∷ []) name posted = (ground arith, (opt, refl, ground arith))
posted_option one_argument (opt ∷ next ∷ opts) name posted =
    let many = post_options-many opts (name_of next) 2 (omega arith) (omega arith) in
    absurd (ground (arith, many))

option_posted :
    (one_argument : Bool) (opts : List Opt) (opt : Opt) (name : Name)
    → one_argument ≡ true
    → opts ≡ opt ∷ []
    → name_of opt ≡ some name
    → main one_argument opts ≡ notify_post name
unfolding main post_options
option_posted one_argument opts opt name one e stands = ground arith

-- The letter that asks for a notification.
abbrev pub letter_for : Name → Opt
letter_for notification_cancel = opt_c
letter_for notification_by_file_descriptor = opt_f
letter_for notification_by_mach_port = opt_p
letter_for notification_by_signal = opt_s

name_of-letter_for : (name : Name) → name_of (letter_for name) ≡ some name
unfolding name_of
name_of-letter_for name = ground arith

letter_for-name_of : (opt : Opt) (name : Name) → name_of opt ≡ some name → opt ≡ letter_for name
unfolding name_of
letter_for-name_of opt name stands = ground arith

-- The producer posts a notification exactly where it has one argument, which gives one option alone: `-c` for the cancellation, `-f` for the file
-- descriptor, `-p` for the Mach port, `-s` for the signal.
pub main-notify_post :
    (one_argument : Bool) (opts : List Opt) (name : Name)
    → (main one_argument opts ≡ notify_post name)
      ↔ ((one_argument ≡ true) × (opts ≡ letter_for name ∷ []))
main-notify_post one_argument opts name = (
  λ posted.
      let (one, (opt, alone, stands)) = posted_option one_argument opts name posted in
      (one, ground (arith, letter_for-name_of opt name stands)),
  λ h. option_posted one_argument opts (letter_for name) name h.0 h.1 (name_of-letter_for name),
)
