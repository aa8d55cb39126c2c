-- ===== src/Shell/State.antt =====
-- What the shell of src/kernel/kernel.c works on.
use os_eojin.Base.{ℕ, Bool, false, List, codes, Option, ◌==◌}
use os_eojin.Base.Int.{ℤ, pos, negsuc}
use os_eojin.Machine.{Machine}
use os_eojin.Utils.{strcmp, get_next_token}
use os_eojin.Process.{Kernel}
use os_eojin.Screen.{Screen}
use os_eojin.Devices.{Writes}
use os_eojin.Fat.{Allocator, Fat, say}

-- The heap takes its pages from the same machine as the rest of the kernel.
pub record Pages (A : Allocator) : Type 0 where
  pub machine : A.State → Machine
  pub with_machine : Machine → A.State → A.State

-- The messages on the console of `fat` are not on `screen` yet. The machine of `kernel` is that of the
-- heap: `on_machine` and `on_kernel` give it to the code that they run.
pub record Shell (A : Allocator) : Type 0 where
  pub fat : Fat A
  pub kernel : Kernel
  pub screen : Screen
  -- every `outw`
  pub ports : Writes
  -- in the endless loop of shutdown
  pub halted : Bool

-- `strcmp(command, name) == 0`
abbrev is_pos_zero : ℤ → Bool
is_pos_zero (pos n) = n == 0
is_pos_zero (negsuc n) = false

abbrev pub is_command : List ℕ → List ℕ → Bool
is_command command name = is_pos_zero (strcmp command name)

-- The token of `get_next_token`, or `none` where it returns 0.
abbrev pub token_if : Bool × Option (List ℕ) × ℕ → Option (List ℕ)
token_if (ok, token, offset) = token

abbrev pub argument : List ℕ → ℕ → Option (List ℕ)
argument input offset = token_if (get_next_token input offset)

module _ {A : Allocator} where
  abbrev pub with_fat : Fat A → Shell A → Shell A
  with_fat f s = record s { fat = f }

  abbrev pub tell : List ℕ → Shell A → Shell A
  tell message s = with_fat (say message s.fat) s

  -- kprint("OS_eojin:"); kprint(fat_get_current_path()); kprint("> ");
  abbrev pub prompt : Shell A → Shell A
  prompt s = tell (codes "> ") (tell s.fat.current_path (tell (codes "OS_eojin:") s))

  -- kprint(before); kprint(name); kprint("\n");
  abbrev pub tell_name : List ℕ → List ℕ → Shell A → Shell A
  tell_name before name s = tell (codes "\n") (tell name (tell before s))

module _ {A : Allocator} (P : Pages A) where
  abbrev pub machine_of : Shell A → Machine
  machine_of s = record (P.machine s.fat.heap) { console = s.fat.console }

  abbrev pub with_machine : Machine → Shell A → Shell A
  with_machine m s =
      with_fat (record (s.fat) { heap = P.with_machine m s.fat.heap; console = m.console }) s

  abbrev pub kernel_of : Shell A → Kernel
  kernel_of s = record (s.kernel) { machine = machine_of s }

  abbrev pub with_kernel : Kernel → Shell A → Shell A
  with_kernel k s = record (with_machine k.machine s) { kernel = k }
