-- ===== src/Frr/Install.antt =====
-- 3-31/frr.c: what `frr_install` leaves in memory, and what it returns after an error.
use native.Mathlib.Nat.{mod-eq_of_lt}
use mac_os_x_internal.Prelude.{
  update, ==_iff, ◌==◌, leb, ℕ, ◌+◌, ◌/◌, ◌%◌, ◌^◌, ◌<◌, ◌≡◌, ◌≢◌, arith, refl, u32, some, true,
  false,
}
use mac_os_x_internal.Frr.{
  System, Store, frr_install, branch_word, absolute_branch, protect, fill_stub, reroute,
  hw_compare_and_store,
}
use mac_os_x_internal.Frr.Target.{branch_target, branch_target-near}

-- The system answers every call with success; where no other thread writes, the compare-and-store of a word
-- that is the old one returns 1 and leaves the new one.
pub record Serves (sys : System) (frr stub : ℕ) : Type 0 where
  pub malloc_data : sys.malloc_data ≡ some frr
  pub malloc_stub : sys.malloc_stub ≡ some stub
  pub protect_orig : sys.protect_orig ≡ true
  pub protect_stub : sys.protect_stub ≡ true
  pub stores : (w new : ℕ) → sys.compare_and_store w new w ≡ (1, new)

pub record IsInstalled (frr original new stub : ℕ) (s t : Store) : Type 0 where
  pub saved : t.word stub ≡ s.word original
  pub back : branch_target (t.word (stub + 4)) ≡ some (original + 4)
  pub away : branch_target (t.word original) ≡ some new
  pub data_lem :
      t.block frr
      ≡ record { f_orig = original; f_new = new; f_stub = stub; f_bytes = s.word original }
  pub freed : t.freed ≡ s.freed

module _ (sys : System) (frr : ℕ) where
  reroute_lem :
      (s : Store)
      → ((w new : ℕ) → sys.compare_and_store w new w ≡ (1, new))
      → (s.block frr).f_new < 2 ^ 25
      → reroute sys frr s ≡ (
        frr,
        record s {
          word =
              update s.word
                (s.block frr).f_orig
                (branch_word (absolute_branch ((s.block frr).f_new / 2 ^ 2)));
        },
      )
  unfolding reroute hw_compare_and_store
  reroute_lem s stores near = ground (
    arith,
    stores (s.word (s.block frr).f_orig)
        (branch_word (absolute_branch ((s.block frr).f_new / 2 ^ 2))),
    mod-eq_of_lt {n = (s.block frr).f_new} {m = 2 ^ 32},
  )

pub ==-self : (n : ℕ) → (n == n) ≡ true
==-self n = (==_iff n n).1 refl

-- The metadata block before and after the first instruction of `original` is saved in it.
abbrev pub allocated : ℕ → ℕ → ℕ → ℕ → Store → Store
allocated frr original new stub s = record s {
  block =
      update s.block frr
        (record { f_orig = original; f_new = new; f_stub = stub; f_bytes = (s.block frr).f_bytes });
}

abbrev pub with_stub : ℕ → ℕ → ℕ → ℕ → Store → Store
with_stub frr original new stub s = record s {
  word =
      update (update s.word stub (s.word original)) (stub + 4)
        (branch_word (absolute_branch ((original + 4) / 2 ^ 2)));
  block =
      update (allocated frr original new stub s).block frr
        (record { f_orig = original; f_new = new; f_stub = stub; f_bytes = s.word original });
}

-- The store after a success: the stub, then the branch in the first word of `original`.
abbrev pub installed : ℕ → ℕ → ℕ → ℕ → Store → Store
installed frr original new stub s =
    let t = with_stub frr original new stub s in
    record t { word = update t.word original (branch_word (absolute_branch (new / 2 ^ 2))) }

module _ (sys : System) (frr original new stub : ℕ) (s : Store) where
  fill_stub_lem :
      original + 4 < 2 ^ 25
      → fill_stub sys frr (allocated frr original new stub s)
        ≡ reroute sys frr (with_stub frr original new stub s)
  unfolding fill_stub
  fill_stub_lem near =
      let exact : u32 (original + 4) ≡ original + 4 = omega arith in
      let passes : leb 1 ((original + 4) / 2 ^ 2 / 2 ^ 25) ≡ false = ground arith in
      rw (==-self frr, exact, passes)

  with_stub_rerouted :
      Serves sys frr stub
      → new < 2 ^ 25
      → reroute sys frr (with_stub frr original new stub s)
        ≡ (frr, installed frr original new stub s)
  with_stub_rerouted serves near_new = rw (==-self frr) at (
      reroute_lem sys frr (with_stub frr original new stub s) serves.stores
        (rw (==-self frr) near_new))

  pub frr_install_lem :
      Serves sys frr stub
      → original + 4 < 2 ^ 25
      → new < 2 ^ 25
      → frr_install sys original new s ≡ (frr, installed frr original new stub s)
  unfolding frr_install protect
  frr_install_lem serves near near_new =
      ground (arith, fill_stub_lem near, with_stub_rerouted serves near_new)

module _ (sys : System) (original new frr stub : ℕ) (s : Store) where
  -- Where every call succeeds, `original + 4` and `new` are word addresses below
  -- 2 ^ 25 and the stub lies elsewhere, `frr_install` returns its metadata block, in which the first word
  -- of `original` is saved; the stub holds that word and a branch to the second word of `original`; the
  -- first word of `original` is a branch to `new`; nothing is freed.
  pub frr_install-IsInstalled :
      Serves sys frr stub
      → original + 4 < 2 ^ 25
      → new < 2 ^ 25
      → original % 4 ≡ 0
      → new % 4 ≡ 0
      → original ≢ stub
      → original ≢ stub + 4
      → ((frr_install sys original new s).0 ≡ frr)
        × IsInstalled frr original new stub s (frr_install sys original new s).1
  frr_install-IsInstalled serves near near_new aligned aligned_new apart apart' =
      rw (frr_install_lem sys frr original new stub s serves near near_new)
        (ground (arith, branch_target-near (original + 4), branch_target-near new))
