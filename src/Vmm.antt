-- ===== src/Vmm.antt =====
-- 6-51/vmachmon32.c: `usage`, the guest programs, and `main` as the calls that it makes.
pub mod Code
pub mod Demo
pub mod Pages
mod Tests
use mac_os_x_internal.Prelude.{
  ℕ, zero, suc, ◌+◌, ◌-◌, ◌*◌, ◌/◌, ◌%◌, ◌^◌, Bool, true, false, not, ◌&&◌, Option, none, some,
  List, [], ◌∷◌, ◌++◌, leb, ltb, ◌==◌, if◌then◌else◌, ℤ, pos, negsuc, u32, update,
}
use mac_os_x_internal.Vmm.Code.{Regs, guest_text_dummy, guest_text_factorial}

abbrev pub max_demo_id : ℕ
max_demo_id = 2

-- `usage`: the demo that is chosen by the argument count and the value of `atoi(argv[1])`, if any.
unfoldable pub usage : ℕ → ℤ → Option ℕ
usage argc (negsuc n) = none
usage argc (pos id) = if not (argc == 2) then none else if ltb id max_demo_id then some id else none

-- The guest: its text page as words, and its registers.
pub record Guest : Type 0 where
  pub text : ℕ → ℕ
  pub regs : Regs

-- The calls of `main` that change the kernel's state. Those of `vm_allocate` and those that make a context and tear it down stand here where they
-- succeed; what the two calls that map a page return is not looked at, but for a message.
pub data Event : Type 0 where
  allocate : ℕ → Event
  init_context : Event
  map_page : (page address : ℕ) → Event
  map_execute : (page address : ℕ) → Guest → Event
  tear_down : Event
  deallocate : ℕ → Event

-- What the system answers: error codes, 0 for `KERN_SUCCESS`, and the pages of the three calls of
-- `vm_allocate` that succeed. `blank` is the guest as the kernel makes it.
pub record System : Type 0 where
  pub page_size : ℕ
  pub red_zone : ℕ
  pub blank : Guest
  pub allocate_state : ℕ × ℕ
  pub allocate_text : ℕ × ℕ
  pub allocate_stack : ℕ × ℕ
  pub init_code : ℕ
  pub map_code : ℕ
  pub execute_code : ℕ
  pub tear_down_code : ℕ

-- The three page variables, 0 until they are set.
pub record Locals : Type 0 where
  pub state : ℕ
  pub text : ℕ
  pub stack : ℕ

unfoldable pub release : ℕ → List Event
release page = if page == 0 then [] else deallocate page ∷ []

-- The label `out`: it exits with the last error code.
unfoldable pub out : Locals → ℕ → ℕ × List Event
unfolding release
out p kr = (kr, release p.state ++ release p.text ++ release p.stack)

-- `textfiller` of the chosen demo.
unfoldable pub fill_text : ℕ → ℕ → ℕ → Guest → Guest
fill_text zero page_size address g = record g { text = guest_text_dummy g.text address }
fill_text (suc _) page_size address g =
    let (text, regs) = guest_text_factorial g.text page_size address g.regs in
    record { text = text; regs = regs }

-- `PAGE2SP`.
abbrev pub page_to_sp : System → ℕ → ℕ
page_to_sp sys x = u32 (x + sys.page_size - sys.red_zone)

-- The guest as it is started: the program counter, the stack pointer and the text are set.
unfoldable pub prepared : System → ℕ → Guest
unfolding fill_text
prepared sys demo =
    let regs = record sys.blank.regs {
      pc = sys.page_size;
      gprs = update sys.blank.regs.gprs 1 (page_to_sp sys (2 * sys.page_size));
    } in
    fill_text demo sys.page_size sys.page_size (record sys.blank { regs = regs })

-- From the initialised context on. The codes of `kVmmMapPage` and `kVmmMapExecute` stop nothing.
unfoldable pub run_guest : System → ℕ → Locals → ℕ × List Event
unfolding prepared out
run_guest sys demo p =
    let (kr, rest) = out p sys.tear_down_code in
    (
      kr,
      map_page p.stack (2 * sys.page_size)
          ∷ map_execute p.text sys.page_size (prepared sys demo)
          ∷ (if sys.tear_down_code == 0 then tear_down ∷ rest else rest),
    )

unfoldable pub init : System → ℕ → Locals → ℕ × List Event
unfolding run_guest
init sys demo p =
    if sys.init_code == 0
    then (let (kr, rest) = run_guest sys demo p in (kr, init_context ∷ rest))
    else out p sys.init_code

-- One call of `vm_allocate`, and what follows it when it succeeds with a page.
unfoldable pub allocating : ℕ × ℕ → Locals → (ℕ → ℕ × List Event) → ℕ × List Event
unfolding out
allocating answer p next =
    if answer.0 == 0
    then (let (kr, rest) = next answer.1 in (kr, allocate answer.1 ∷ rest))
    else out p answer.0

-- `main` after `usage`: the exit status, and the calls in their order. A call of the kernel that fails
-- changes nothing and is left out.
unfoldable pub main : System → ℕ → ℕ × List Event
unfolding init allocating
main sys demo =
    allocating sys.allocate_state (record { state = 0; text = 0; stack = 0 })
      λ state.
        allocating sys.allocate_text (record { state = state; text = 0; stack = 0 })
          λ text.
            allocating sys.allocate_stack (record { state = state; text = text; stack = 0 })
              λ stack. init sys demo (record { state = state; text = text; stack = stack })
