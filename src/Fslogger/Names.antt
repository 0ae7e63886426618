-- ===== src/Fslogger/Names.antt =====
-- 11-25/fslogger.c: the indexes into the tables of names.
use mac_os_x_internal.Prelude.{
  ℕ, zero, suc, ◌<◌, ◌≡◌, ◌≢◌, ◌↔◌, arith, refl, length, true, none, ℤ, pos, negsuc, List,
  get_elem?, get_elem?_inside,
}
use mac_os_x_internal.Fslogger.{Codes, kfse_names, is_known, event_name}

get_elem?-none : {A : Type 0} (l : List A) (n : ℕ) → n < length l → get_elem? l n ≢ none
get_elem?-none l n h outside = grind (arith, get_elem?_inside l n h)

-- Where `FSE_MAX_EVENTS` is 9, the length of the table of names, an event's type that passes the test of its range has no
-- name exactly where it is `-1`: the test lets `-1` through, and the table has no such index.
pub event_name-none :
    (codes : Codes) (type : ℤ)
    → codes.max_events ≡ 9
    → is_known codes type ≡ true
    → (event_name type ≡ none) ↔ (type ≡ negsuc 0)
unfolding is_known event_name
event_name-none codes (pos n) nine known =
    (λ outside. absurd (get_elem?-none kfse_names n (ground arith) outside), λ e. ground arith)
event_name-none codes (negsuc zero) nine known = (λ e. refl, λ e. refl)
event_name-none codes (negsuc (suc n)) nine known = absurd (ground arith)
