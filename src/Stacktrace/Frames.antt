-- ===== src/Stacktrace/Frames.antt =====
-- 3-25/stacktrace.c: which frames are printed.
use mac_os_x_internal.Prelude.{ℕ, zero, suc, ◌+◌, ◌<◌, ◌≡◌, ◌≢◌, List, [], ◌∷◌, arith, length, u32}
use mac_os_x_internal.Stacktrace.{
  Line, Dladdr, printframeinfo, last_frame, fault, null, saved_ra_offset, walk, stacktrace,
}

-- The frames above a frame, up to one that has no frame above it.
abbrev pub IsChain : (ℕ → ℕ) → ℕ → List ℕ → Type 0
IsChain memory fp [] = memory fp ≡ null
IsChain memory fp (above ∷ frames) =
    (memory fp ≡ above) × (above ≢ null) × IsChain memory above frames

-- The lines for all frames of a list but its last one.
abbrev pub lines_of : Dladdr → (ℕ → ℕ) → ℕ → List ℕ → List Line
lines_of dladdr memory level [] = []
lines_of dladdr memory level (fp ∷ []) = []
lines_of dladdr memory level (fp ∷ above ∷ frames) =
    printframeinfo dladdr level fp (memory (fp + saved_ra_offset))
    ∷ lines_of dladdr memory (u32 (level + 1)) (above ∷ frames)

walk-chain :
    (fuel : ℕ) (dladdr : Dladdr) (memory : ℕ → ℕ) (level fp above : ℕ) (frames : List ℕ)
    → length frames < fuel
    → fp ≢ null
    → IsChain memory fp (above ∷ frames)
    → walk fuel dladdr memory level fp ≡ (lines_of dladdr memory level (above ∷ frames), last_frame)
unfolding walk
walk-chain zero dladdr memory level fp above frames enough some_fp chain = absurd (omega arith)
walk-chain (suc fuel) dladdr memory level fp above [] enough some_fp chain = ground arith
walk-chain (suc fuel) dladdr memory level fp above (next ∷ frames) enough some_fp chain =
    let rest =
      walk-chain fuel dladdr memory (u32 (level + 1)) above next frames (omega arith) chain.1
        chain.2 in
    ground (arith, rest)

-- Where the frame of the caller, not null, is followed by a chain of at least one frame, for which there is fuel enough, `stacktrace` prints the frame of the caller,
-- with the return address, and then each frame of the chain but the last, with the return address that is saved in it, numbered
-- from 0, and ends.
pub stacktrace-chain :
    (fuel : ℕ) (dladdr : Dladdr) (memory : ℕ → ℕ) (return_address caller_frame above : ℕ)
    (frames : List ℕ)
    → length frames < fuel
    → caller_frame ≢ null
    → IsChain memory caller_frame (above ∷ frames)
    → stacktrace fuel dladdr memory return_address caller_frame ≡ (
      printframeinfo dladdr 0 caller_frame return_address
          ∷ lines_of dladdr memory 1 (above ∷ frames),
      last_frame,
    )
unfolding stacktrace
stacktrace-chain fuel dladdr memory return_address caller_frame above frames enough some_fp chain =
    let rest = walk-chain fuel dladdr memory 1 caller_frame above frames enough some_fp chain in
    ground (arith, rest)

-- Where no frame follows that of the caller, the loop reads at address 0.
pub stacktrace-fault :
    (fuel : ℕ) (dladdr : Dladdr) (memory : ℕ → ℕ) (return_address caller_frame : ℕ)
    → caller_frame ≢ null
    → IsChain memory caller_frame []
    → (stacktrace (suc fuel) dladdr memory return_address caller_frame).1 ≡ fault
unfolding stacktrace walk
stacktrace-fault fuel dladdr memory return_address caller_frame some_fp chain = ground arith
