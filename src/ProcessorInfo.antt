-- ===== src/ProcessorInfo.antt =====
-- 7-6/processor_info.c: prints what the kernel knows of each processor.
pub mod Uptime
mod Tests
use mac_os_x_internal.Prelude.{
  ℕ, ◌+◌, ◌*◌, ◌/◌, ◌%◌, Bool, true, false, List, [], ◌∷◌, ◌++◌, Option, none, some, if◌then◌else◌,
  u32, length,
}
use mac_os_x_internal.Prelude.Ledger.{Ledger, acquire, release}

pub record BasicInfo : Type 0 where
  pub slot_num : ℕ
  pub is_master : Bool
  pub running : Bool
  pub cpu_type : ℕ
  pub cpu_subtype : ℕ

pub record LoadInfo : Type 0 where
  pub user : ℕ
  pub system : ℕ
  pub idle : ℕ
  pub nice : ℕ

-- What is printed.
pub data Line : Type 0 where
  processors_total : ℕ → Line
  cpu : BasicInfo → Line
  ticks_line : (ticks : ℕ) → LoadInfo → Line
  uptime : (hours minutes seconds : ℕ) → Line

unfoldable pub print_basic_info : BasicInfo → List Line
print_basic_info info = cpu info ∷ []

-- The sum of the ticks in a long of 32 bits.
abbrev pub ticks_of : LoadInfo → ℕ
ticks_of info = u32 (u32 (u32 (info.user + info.system) + info.idle) + info.nice)

unfoldable pub print_cpu_load_info : LoadInfo → List Line
print_cpu_load_info info =
    let ticks = ticks_of info in
    ticks_line ticks info
    ∷ uptime (ticks / 100 / 3600) (ticks / 100 % 3600 / 60) (ticks / 100 % 60)
    ∷ []

-- What `processor_info` gives for a processor, none where it fails.
pub record Processor : Type 0 where
  pub basic_info : Option BasicInfo
  pub cpu_load_info : Option LoadInfo

-- A turn of the loop of `main`.
unfoldable pub print_processor : Processor → List Line
print_processor p =
    let basic : List Line = elim p.basic_info [ none ↦ [] | some info ↦ print_basic_info info ] in
    let load : List Line = elim p.cpu_load_info [
      | none ↦ []
      | some info ↦ print_cpu_load_info info
    ] in
    basic ++ load

unfoldable pub print_processors : List Processor → List Line
print_processors [] = []
print_processors (p ∷ processors) = print_processor p ++ print_processors processors

-- The memory of the list that the kernel gives.
abbrev pub processor_list : ℕ
processor_list = 0

-- `main`: what it prints, its exit status, and the memory that it gets and gives back. `privileged` tells whether the privileged port of the host is given; the
-- list is none where `host_processors` fails.
unfoldable pub main : (privileged : Bool) → Option (List Processor) → List Line × ℕ × List Ledger
main false processors = ([], 1, [])
main true none = ([], 1, [])
main true (some processors) = (
  processors_total (length processors) ∷ print_processors processors,
  0,
  acquire processor_list ∷ release processor_list ∷ [],
)
