-- ===== src/Frr/Remove.antt =====
-- 3-31/frr.c: `frr_remove` undoes `frr_install`.
use mac_os_x_internal.Prelude.{ℕ, ◌+◌, ◌^◌, ◌<◌, ◌≡◌, ◌≢◌, arith, refl, pos, update, ◌∷◌, true}
use mac_os_x_internal.Frr.{System, Store, frr_install, frr_remove, null, hw_compare_and_store, free}
use mac_os_x_internal.Frr.Install.{Serves, frr_install_lem, installed, ==-self}

pub frr_remove_lem :
    (sys : System) (frr : ℕ) (t : Store)
    → sys.protect_orig ≡ true
    → ((w new : ℕ) → sys.compare_and_store w new w ≡ (1, new))
    → frr ≢ null
    → (t.block frr).f_stub ≢ null
    → frr_remove sys frr t ≡ (
      pos 0,
      record t {
        word = update t.word (t.block frr).f_orig (t.block frr).f_bytes;
        freed = frr ∷ (t.block frr).f_stub ∷ t.freed;
      },
    )
unfolding frr_remove hw_compare_and_store free
frr_remove_lem sys frr t ok stores some_frr some_stub =
    ground (arith, stores (t.word (t.block frr).f_orig) (t.block frr).f_bytes)

module _ (sys : System) (original new frr stub : ℕ) (s : Store) where
  -- Where every call succeeds, with the addresses below 2 ^ 25, the blocks
  -- not null and the stub elsewhere, `frr_remove` after `frr_install` returns 0, gives every word
  -- outside the stub its old value, and gives back the stub and the metadata.
  pub frr_remove-frr_install :
      Serves sys frr stub
      → original + 4 < 2 ^ 25
      → new < 2 ^ 25
      → original ≢ stub
      → original ≢ stub + 4
      → frr ≢ null
      → stub ≢ null
      → let t = (frr_install sys original new s).1 in
        let u = frr_remove sys frr t in
        (u.0 ≡ pos 0)
        × ((a : ℕ) → a ≢ stub → a ≢ stub + 4 → u.1.word a ≡ s.word a)
        × (u.1.freed ≡ frr ∷ stub ∷ s.freed)
  frr_remove-frr_install serves near near_new apart apart' some_frr some_stub =
      let t = installed frr original new stub s in
      rw
        (
          frr_install_lem sys frr original new stub s serves near near_new,
          frr_remove_lem sys frr t serves.protect_orig serves.stores some_frr
              (rw (==-self frr) some_stub),
          ==-self frr,
        )
        (refl, (λ a p q. ground arith), refl)

-- `frr_remove` does not look at the result of the compare-and-store: where that has failed, with the word `other`
-- that another thread has put in the place of the first word of the rerouted function, `frr_remove` returns 0, gives back
-- the stub and the metadata, and leaves `other` there. Neither pointer is null, and `mprotect` succeeds.
pub frr_remove_raced :
    (sys : System) (frr other : ℕ) (t : Store)
    → sys.protect_orig ≡ true
    → sys.compare_and_store
        (t.word (t.block frr).f_orig)
        (t.block frr).f_bytes
        (t.word (t.block frr).f_orig)
      ≡ (0, other)
    → frr ≢ null
    → (t.block frr).f_stub ≢ null
    → let u = frr_remove sys frr t in
      (u.0 ≡ pos 0)
      × (u.1.word (t.block frr).f_orig ≡ other)
      × (u.1.freed ≡ frr ∷ (t.block frr).f_stub ∷ t.freed)
unfolding frr_remove hw_compare_and_store free
frr_remove_raced sys frr other t ok raced some_frr some_stub = ground arith
