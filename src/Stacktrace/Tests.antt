-- ===== src/Stacktrace/Tests.antt =====
-- 3-25/stacktrace.c at concrete inputs.
use mac_os_x_internal.Prelude.{ℕ, ◌≡◌, ◌==◌, if◌then◌else◌, [], ◌∷◌, none, refl, arith}
use mac_os_x_internal.Stacktrace.{stacktrace, printframeinfo, last_frame}
use mac_os_x_internal.Stacktrace.Frames.{stacktrace-chain}

-- Frames at 100, 200 and 300.
abbrev three_frames : ℕ → ℕ
three_frames a = if a == 100 then 200 else if a == 200 then 300 else if a == 208 then 7 else 0

stacktrace-chain_example :
    stacktrace 5 (λ a. none) three_frames 9 100
    ≡ (printframeinfo (λ a. none) 0 100 9 ∷ printframeinfo (λ a. none) 1 200 7 ∷ [], last_frame)
stacktrace-chain_example =
    stacktrace-chain 5 (λ a. none) three_frames 9 100 200 (300 ∷ []) (omega arith) (omega arith)
      (refl, omega arith, (refl, omega arith, refl))
