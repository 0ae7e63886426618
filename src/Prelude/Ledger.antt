-- ===== src/Prelude/Ledger.antt =====
-- What a program acquires and gives back, as a list of events on numbered resources.
use Prim.Native.Nat.{ℕ, ◌+◌, ◌-◌, ◌≤◌}
use mathlib.Core.Path.{◌≡◌, refl, sym, subst, ◌∙◌}
use mathlib.Core.List.{List, [], ◌∷◌, ◌++◌}
use mac_os_x_internal.Prelude.Tests.{◌==◌, if◌then◌else◌}

pub data Ledger : Type 0 where
  acquire : ℕ → Ledger
  release : ℕ → Ledger

-- How often each resource is held after one more event.
abbrev pub more : (ℕ → ℕ) → ℕ → ℕ → ℕ
more held r q = if q == r then held q + 1 else held q

abbrev pub less : (ℕ → ℕ) → ℕ → ℕ → ℕ
less held r q = if q == r then held q - 1 else held q

-- Each resource is released only while it is held, and after the last event `left` tells how often each is held.
abbrev pub Settles : (held : ℕ → ℕ) → List Ledger → (left : ℕ → ℕ) → Type 0
Settles held [] left = (r : ℕ) → held r ≡ left r
Settles held (acquire r ∷ events) left = Settles (more held r) events left
Settles held (release r ∷ events) left = (1 ≤ held r) × Settles (less held r) events left

abbrev pub none_held : ℕ → ℕ
none_held r = 0

abbrev pub only : ℕ → ℕ → ℕ
only q r = if r == q then 1 else 0

-- Only the numbers held count.
pub Settles-same :
    (held held' left : ℕ → ℕ) (events : List Ledger)
    → ((r : ℕ) → held r ≡ held' r)
    → Settles held' events left
    → Settles held events left
Settles-same held held' left [] same settles = λ r. same r ∙ settles r
Settles-same held held' left (acquire r ∷ events) same settles =
    Settles-same (more held r) (more held' r) left events (λ q. rw (same q) refl) settles
Settles-same held held' left (release r ∷ events) same settles = (
  subst (λ n. 1 ≤ n) (sym (same r)) settles.0,
  Settles-same (less held r) (less held' r) left events (λ q. rw (same q) refl) settles.1,
)

-- Two runs after each other: the second starts with what the first leaves.
pub Settles-append :
    (held middle left : ℕ → ℕ) (events rest : List Ledger)
    → Settles held events middle
    → Settles middle rest left
    → Settles held (events ++ rest) left
Settles-append held middle left [] rest first second =
    Settles-same held middle left rest first second
Settles-append held middle left (acquire r ∷ events) rest first second =
    Settles-append (more held r) middle left events rest first second
Settles-append held middle left (release r ∷ events) rest first second =
    (first.0, Settles-append (less held r) middle left events rest first.1 second)
