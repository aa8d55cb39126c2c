-- ===== src/Shell/ReadOnly.antt =====
-- The line that `user_input` of src/kernel/kernel.c gets, and the drive.
use os_eojin.Base.{
  ℕ, ◌≡◌, refl, Bool, true, false, if◌then◌else◌, List, codes, Option, none, some, sym, subst,
}
use os_eojin.Ata.{Drive}
use os_eojin.Utils.{get_next_token}
use os_eojin.Fat.{Allocator}
use os_eojin.Fat.Edit.{fat_delete_file, fat_delete_dir}
use os_eojin.Shell.Directory.{mkdir, touch}
use os_eojin.Fat.Path.{fat_change_dir}
use os_eojin.Fat.Mount.{fat_list, fat_init}
use os_eojin.Fat.ReadOnly.{if_both, if_other, fat_change_dir-drive, fat_list-drive, fat_init-drive}
use os_eojin.Shell.State.{Pages, Shell, is_command, token_if, argument, tell_name, with_fat, prompt}
use os_eojin.Shell.Sector.{read}
use os_eojin.Shell.File.{cat}
use os_eojin.Shell.{
  help, clear, shutdown, memory, echo, run, user_input, on_file, on_deleted, end_line, on_token,
  with_argument, alloc, heap_test,
}
use os_eojin.Shell.Reads.{
  Leaves, leaves, read-drive, cat-drive, on_file-drive, with_argument-drive, heap_test-drive,
  exec-drive,
}

module _ {A : Allocator} (P : Pages A) where
  memory-drive : (s : Shell A) → (memory P s).fat.drive ≡ s.fat.drive
  unfolding memory
  memory-drive s = refl

  alloc-drive : (s : Shell A) → (alloc P s).fat.drive ≡ s.fat.drive
  unfolding alloc
  alloc-drive s = if_both (λ (t : Shell A). t.fat.drive ≡ s.fat.drive) _ _ _ refl refl

  help-drive : (s : Shell A) → (help s).fat.drive ≡ s.fat.drive
  unfolding help
  help-drive s = refl

  clear-drive : (s : Shell A) → (clear s).fat.drive ≡ s.fat.drive
  unfolding clear
  clear-drive s = refl

  shutdown-drive : (s : Shell A) → (shutdown s).fat.drive ≡ s.fat.drive
  unfolding shutdown
  shutdown-drive s = refl

  echo-drive :
      (input : List ℕ) (offset : ℕ) (s : Shell A) → (echo input offset s).fat.drive ≡ s.fat.drive
  unfolding echo
  echo-drive input offset s = refl

  -- The commands after cd.
  run_last-drive :
      (fuel : ℕ) (input command : List ℕ) (s : Shell A)
      (write_touch write_mkdir write_rm write_rmdir : Option (Bool × Shell A))
      → is_command command (codes "touch") ≡ false
      → is_command command (codes "mkdir") ≡ false
      → is_command command (codes "rm") ≡ false
      → is_command command (codes "rmdir") ≡ false
      → Leaves s.fat.drive (
          let is = is_command command in
          if is (codes "touch")
          then write_touch
          else if is (codes "mkdir")
          then write_mkdir
          else if is (codes "rm")
          then write_rm
          else if is (codes "rmdir")
          then write_rmdir
          else if is (codes "alloc")
          then some (true, alloc P s)
          else if is (codes "heap_test")
          then some (true, with_fat (heap_test s.fat) s)
          else some (true, tell_name (codes "Unknown command: ") input s))
  run_last-drive fuel input command s t1 t2 t3 t4 no_touch no_mkdir no_rm no_rmdir =
      let d = s.fat.drive in
      if_other (Leaves d) _ _ _ no_touch (
        if_other (Leaves d) _ _ _ no_mkdir (
          if_other (Leaves d) _ _ _ no_rm (
            if_other (Leaves d) _ _ _ no_rmdir (
              if_both (Leaves d) _ _ _ (leaves true (alloc P s) d (alloc-drive s)) (
                if_both (Leaves d) _ _ _
                  (leaves true (with_fat (heap_test s.fat) s) d (heap_test-drive s.fat))
                  (leaves true _ d refl))))))

  run-drive :
      (fuel : ℕ) (input command : List ℕ) (offset : ℕ) (s : Shell A)
      → is_command command (codes "write") ≡ false
      → is_command command (codes "touch") ≡ false
      → is_command command (codes "mkdir") ≡ false
      → is_command command (codes "rm") ≡ false
      → is_command command (codes "rmdir") ≡ false
      → Leaves s.fat.drive (run P fuel input command offset s)
  unfolding run
  run-drive fuel input command offset s no_write no_touch no_mkdir no_rm no_rmdir =
      let d = s.fat.drive in
      let f = s.fat in
      let arg = argument input offset in
      if_both (Leaves d) _ _ _ (leaves true (help s) d (help-drive s)) (
        if_both (Leaves d) _ _ _ (leaves true (clear s) d (clear-drive s)) (
          if_both (Leaves d) _ _ _ (leaves false (shutdown s) d (shutdown-drive s)) (
            if_both (Leaves d) _ _ _ (leaves true (memory P s) d (memory-drive s)) (
              if_both (Leaves d) _ _ _
                (leaves true (echo input offset s) d (echo-drive input offset s))
                (if_other (Leaves d) _ _ _ no_write (
                  if_both (Leaves d) _ _ _ (on_file-drive s (read fuel f) d (read-drive fuel f)) (
                    if_both (Leaves d) _ _ _ (on_file-drive s (fat_init f) d (fat_init-drive f)) (
                      if_both (Leaves d) _ _ _
                        (on_file-drive s (fat_list fuel f) d (fat_list-drive fuel f))
                        (if_both (Leaves d) (is_command command (codes "cat")) _ _
                          (with_argument-drive (codes "Usage: cat <filename>\n") _ s arg
                            (λ name. on_file-drive s (cat fuel name f) d (cat-drive fuel name f)))
                          (if_both (Leaves d) (is_command command (codes "exec")) _ _
                            (with_argument-drive (codes "Usage: exec <filename>\n") _ s arg
                              (λ name. exec-drive P fuel name s))
                            (if_both (Leaves d) (is_command command (codes "cd")) _ _
                              (with_argument-drive (codes "Usage: cd <dirname>\n") _ s arg (λ name.
                                on_file-drive s (fat_change_dir fuel name f) d
                                  (fat_change_dir-drive fuel name f)))
                              (run_last-drive fuel input command s
                                (with_argument (codes "Usage: touch <filename>\n")
                                  (λ name. on_file s (touch fuel name f)) s arg)
                                (with_argument (codes "Usage: mkdir <dirname>\n")
                                  (λ name. on_file s (mkdir fuel name f)) s arg)
                                (with_argument (codes "Usage: rm <filename>\n")
                                  (λ name. on_deleted s (fat_delete_file fuel name f)) s arg)
                                (with_argument (codes "Usage: rmdir <dirname>\n")
                                  (λ name. on_deleted s (fat_delete_dir fuel name f)) s arg)
                                no_touch no_mkdir no_rm no_rmdir))))))))))))

  keeps_some : (t s : Shell A) (d : Drive) → t.fat.drive ≡ d → some t ≡ some s → s.fat.drive ≡ d
  keeps_some t s d e returns =
      let same : t ≡ s = cc returns in subst (λ (u : Shell A). u.fat.drive ≡ d) same e

  end_line-drive :
      (o : Option (Bool × Shell A)) (d : Drive) (s : Shell A)
      → Leaves d o
      → end_line P o ≡ some s
      → s.fat.drive ≡ d
  unfolding Leaves
  end_line-drive none d s e returns = cc (returns)
  end_line-drive (some (true, t)) d s e returns = keeps_some (prompt t) s d e returns
  end_line-drive (some (false, t)) d s e returns = keeps_some t s d e returns

  on_token-drive :
      (fuel : ℕ) (input command : List ℕ) (s s' : Shell A) (r : Bool × Option (List ℕ) × ℕ)
      → token_if r ≡ some command
      → is_command command (codes "write") ≡ false
      → is_command command (codes "touch") ≡ false
      → is_command command (codes "mkdir") ≡ false
      → is_command command (codes "rm") ≡ false
      → is_command command (codes "rmdir") ≡ false
      → on_token P fuel input s r ≡ some s'
      → s'.fat.drive ≡ s.fat.drive
  on_token-drive fuel input command s s' (ok, none, offset) first _ _ _ _ _ returns = cc (first)
  on_token-drive fuel input command s s' (ok, some t, offset) first no_write no_touch no_mkdir no_rm
        no_rmdir returns =
      let same : t ≡ command = cc first in
      end_line-drive (run P fuel input t offset s) s.fat.drive s'
        (subst (λ c. Leaves s.fat.drive (run P fuel input c offset s)) (sym same)
          (run-drive fuel input command offset s no_write no_touch no_mkdir no_rm no_rmdir))
        returns

  -- Whatever the drive, the heap and the tables hold: for a line whose first word is none of write,
  -- touch, mkdir, rm and rmdir, when user_input has finished it the drive is as it was.
  pub user_input-drive :
      (fuel : ℕ) (input command : List ℕ) (s s' : Shell A)
      → argument input 0 ≡ some command
      → is_command command (codes "write") ≡ false
      → is_command command (codes "touch") ≡ false
      → is_command command (codes "mkdir") ≡ false
      → is_command command (codes "rm") ≡ false
      → is_command command (codes "rmdir") ≡ false
      → user_input P fuel input s ≡ some s'
      → s'.fat.drive ≡ s.fat.drive
  unfolding user_input
  user_input-drive fuel input command s s' =
      on_token-drive fuel input command s s' (get_next_token input 0)
