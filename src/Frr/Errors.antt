-- ===== src/Frr/Errors.antt =====
-- 3-31/frr.c: what `frr_install` returns after an error.
use mac_os_x_internal.Prelude.{ℕ, ◌^◌, ◌≡◌, ◌≢◌, arith, ◌∷◌, false, ◌&&◌, some, ◌<◌, u32}
use mac_os_x_internal.Frr.{
  System, Store, frr_install, null, protect, fill_stub, reroute, error_exit, free,
}
use mac_os_x_internal.Frr.Install.{==-self}

reroute-pointer : (sys : System) (frr : ℕ) (s : Store) → (reroute sys frr s).0 ≡ frr
unfolding reroute error_exit
reroute-pointer sys frr s = ground arith

fill_stub-pointer : (sys : System) (frr : ℕ) (s : Store) → (fill_stub sys frr s).0 ≡ frr
unfolding fill_stub error_exit
fill_stub-pointer sys frr s = grind (arith, reroute-pointer)

protect-pointer : (sys : System) (frr : ℕ) (s : Store) → (protect sys frr s).0 ≡ frr
unfolding protect error_exit
protect-pointer sys frr s = grind (arith, fill_stub-pointer)

module _ (sys : System) (original new : ℕ) (s : Store) where
  -- If `malloc` never returns the null pointer as a block, a null result of `frr_install` means that no
  -- word of memory was written.
  pub frr_install-null :
      sys.malloc_data ≢ some null
      → (frr_install sys original new s).0 ≡ null
      → (frr_install sys original new s).1.word ≡ s.word
  unfolding frr_install free error_exit
  frr_install-null real e = grind (arith, protect-pointer)

  -- Where both blocks are allocated and one of the calls of `mprotect` fails, no word is written and
  -- both blocks are freed, and yet the result is the pointer to the freed metadata, not null.
  pub frr_install_dangling :
      (frr stub : ℕ)
      → u32 new < 2 ^ 25
      → sys.malloc_data ≡ some frr
      → sys.malloc_stub ≡ some stub
      → (sys.protect_orig && sys.protect_stub) ≡ false
      → frr ≢ null
      → stub ≢ null
      → let r = frr_install sys original new s in
        (r.0 ≡ frr) × (r.1.freed ≡ frr ∷ stub ∷ s.freed) × (r.1.word ≡ s.word)
  unfolding frr_install protect error_exit free
  frr_install_dangling frr stub near e e' fails some_frr some_stub = ground (arith, ==-self frr)
