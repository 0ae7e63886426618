-- ===== src/Vnodewatch/Kinds.antt =====
-- 11-37/vnodewatch.c: which vnodes are taken for directories.
use mac_os_x_internal.Prelude.{ℕ, ◌≤◌, ◌≡◌, ◌↔◌, ◌⊎◌, arith, true}
use mac_os_x_internal.Vnodewatch.{is_dir}

-- Of the eleven types of vnodes, the code takes for directories not only type 2, VDIR, but also 3, 6, 7 and 10: VBLK, VSOCK,
-- VFIFO and VCPLX, since the type is a number and not a set of bits.
pub is_dir_iff :
    (v_type : ℕ)
    → v_type ≤ 10
    → (is_dir v_type ≡ true)
      ↔ ((v_type ≡ 2) ⊎ (v_type ≡ 3) ⊎ (v_type ≡ 6) ⊎ (v_type ≡ 7) ⊎ (v_type ≡ 10))
unfolding is_dir
is_dir_iff v_type small = ground arith
