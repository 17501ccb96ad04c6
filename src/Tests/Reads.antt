-- ===== src/Tests/Reads.antt =====
-- Runs of the proc file that lists the paths, and a step of the whole module.
use aos_project.Base.{
  ◌+◌, ◌-◌, ◌<◌, min, ◌≡◌, refl, Bool, [], arith, length, take, drop, replicate, pos,
}
use aos_project.Tests.Fixtures.{secret, kernel, kprobes, monitor, table, empty_table}
use aos_project.Vfs.ProcRead.{
  listing, entry_text, write_entries, syscall_proc_read, syscall_proc_read_lem,
}
use aos_project.Kernel.{Kernel}
use aos_project.Syscalls.{Monitor, off}
use aos_project.Decimal.{decimal}
use aos_project.System.{changes_state}
use aos_project.System.Policy.{Moves, Authority, Step-Moves}
use aos_project.System.{Step}
use aos_project.Entry.{sys_change_state}

one_line : length (listing 0 table.restrict_path_list) ≡ 22
unfolding listing entry_text decimal
one_line = refl

syscall_proc_read_lem_example :
    let text = listing 0 table.restrict_path_list in
    let n = min 100 (length text - 5) in
    syscall_proc_read kernel (λ n. 0) table 100 5 ≡ (take n (drop 5 text), (5 + n, pos n))
syscall_proc_read_lem_example =
    syscall_proc_read_lem kernel (λ n. 0) table 100 5 refl (λ n. refl) (omega (arith, one_line))
      (omega (arith, one_line))

-- Memory that has held a secret.
abbrev used_kernel : Kernel
used_kernel = record kernel { stale = λ s. replicate 40 b's' }

nothing_written : length (write_entries 0 empty_table.restrict_path_list []) < 5
unfolding write_entries
nothing_written = omega arith

abbrev switched : Monitor Bool
switched = (sys_change_state kprobes kernel kernel (λ p n b. secret) monitor 1 (pos off)).0

abbrev switching : Step kprobes monitor switched
switching = changes_state kernel kernel (λ p n b. secret) 1 (pos off)

Step-Moves_example : Moves monitor (Authority switched switching) switched
Step-Moves_example = Step-Moves kprobes monitor switched switching
