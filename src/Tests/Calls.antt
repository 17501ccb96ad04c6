-- ===== src/Tests/Calls.antt =====
-- Runs of the system calls and of the commands.
use aos_project.Base.{
  ◌⊎◌, ℤ, neg, eexist, ◌<◌, ◌≡◌, refl, sym, ap, ◌≢◌, ◌↔◌, inl, inr, Bool, none, some, ◌++◌, arith,
  if◌then◌else◌, pos,
}
use aos_project.CString.{Bytes, same, same_n, c_string, zeros}
use aos_project.Kernel.{Kernel, ran}
use aos_project.Hash.{salt_suffix}
use aos_project.Tests.Fixtures.{
  rel, file, log, toy_sha512, toy_sha512-IsSha512, kernel, empty_table, table, toy_salt, secret,
  new_secret, kprobes, monitor, empty_monitor, file-NoNul, secret-NoNul, new_secret-NoNul,
}
use aos_project.RestrictList.{forbitten_path, restore_black_list_entries}
use aos_project.PathSolver.Absolute.{fill_absolute_path_zeroed, Resolves}
use aos_project.Syscalls.{
  Monitor, on, off, rec_on, add_path_op, remove_path_op, check_pwd, hooks_on, do_change_state,
  do_change_path, do_change_password,
}
use aos_project.Syscalls.Password.{CanHash, Keeps, check_pwd_iff, do_change_password_lem}
use aos_project.Syscalls.State.{IsState, AllArmed, do_change_state_lem}
use aos_project.RestrictList.Membership.{Listed}
use aos_project.RestrictList.Change.{CanAdd}
use aos_project.Syscalls.Effect.{with_entry, do_change_path-adds, do_change_path-removes}
use aos_project.Syscalls.Path.{MayChange, Target, IsRefused, do_change_path-IsRefused}
use aos_project.System.{IsInvariant, start, next, changes_state, Reachable-IsInvariant}
use aos_project.Entry.{sys_change_state}
use aos_project.CString.{same, same_n}
use aos_project.Vfs.PathCommand.{IsPathArgument}
use aos_project.Vfs.Command.{IsArgument}

secret-CanHash : CanHash kernel secret
unfolding c_string
secret-CanHash = record {
  ready = record {
    salted = refl;
    desc = refl;
    alloc = refl;
    init = refl;
    update = λ s. refl;
    final = refl;
  };
  no_nul = secret-NoNul;
  clean = refl;
}

new_secret-CanHash : CanHash kernel new_secret
unfolding c_string
new_secret-CanHash = record {
  ready = record {
    salted = refl;
    desc = refl;
    alloc = refl;
    init = refl;
    update = λ s. refl;
    final = refl;
  };
  no_nul = new_secret-NoNul;
  clean = refl;
}

check_pwd_iff_example : (check_pwd kernel monitor (some new_secret) ≡ pos 0) ↔ (
    toy_sha512 (new_secret ++ salt_suffix toy_salt) ≡ toy_sha512 (secret ++ salt_suffix toy_salt))
check_pwd_iff_example =
    check_pwd_iff kernel monitor secret new_secret toy_sha512-IsSha512 refl new_secret-CanHash

secret_accepted :
    (m : Monitor Bool) → Keeps kernel m secret → check_pwd kernel m (some secret) ≡ pos 0
secret_accepted m kept =
    (check_pwd_iff kernel m secret secret toy_sha512-IsSha512 kept secret-CanHash).1 refl

switched_off : (do_change_state kprobes kernel monitor (some secret) (pos off)).1 ≡ pos 0
unfolding do_change_state
switched_off = rw (secret_accepted monitor refl) refl

do_change_state_lem_example :
    let r = do_change_state kprobes kernel monitor (some secret) (pos off) in
    (kernel.euid ≡ monitor.admin)
    × (check_pwd kernel monitor (some secret) ≡ pos 0)
    × IsState off
    × (rec_on ≢ off)
    × (r.0.current_state ≡ off)
    × AllArmed kprobes (hooks_on off) r.0.probes
    × (r.0.table ≡ (if hooks_on off then table else (restore_black_list_entries kernel table).0))
do_change_state_lem_example =
    do_change_state_lem kprobes kernel monitor (some secret) off switched_off

no_password : (do_change_state kprobes kernel monitor none (pos on)).1 ≢ pos 0
unfolding do_change_state
no_password = ground arith

password_changed :
    (do_change_password kernel kernel monitor (some secret) (some new_secret)).1 ≡ pos 0
unfolding do_change_password same
password_changed = rw (secret_accepted monitor refl) refl

do_change_password_lem_example :
    (kernel.euid ≡ monitor.admin)
    × (check_pwd kernel monitor (some secret) ≡ pos 0)
    × (8 < 10)
    × (secret ≢ new_secret)
    × Keeps kernel
        (do_change_password kernel kernel monitor (some secret) (some new_secret)).0
        new_secret
do_change_password_lem_example =
    do_change_password_lem kernel kernel monitor secret new_secret new_secret-CanHash
      password_changed

no_new_password : (do_change_password kernel kernel monitor (some secret) none).1 ≢ pos 0
unfolding do_change_password
no_new_password = ground arith

-- The buffer of a path.
abbrev pub typed : Bytes
typed = file ++ zeros 3

pub secret-MayChange :
    (m : Monitor Bool)
    → Keeps kernel m secret
    → m.admin ≡ 0
    → m.current_state ≡ rec_on
    → MayChange kernel m (some secret) typed
secret-MayChange m kept a s = record {
  is_admin = sym a;
  knows = secret_accepted m kept;
  reconfigures = inr s;
}

pub file-Target :
    (m : Monitor Bool) → m.single_file_name ≡ log → Target kernel m (some secret) typed file 7
unfolding same same_n forbitten_path
file-Target m e =
    let r : Resolves kernel file file = record {
      dentry = 7;
      lookup = refl;
      memory = refl;
      raw = refl;
    } in
    let (b, f, c) = fill_absolute_path_zeroed kernel rel file 2 file-NoNul file-NoNul r in
    record {
      buffer = b;
      fills = f;
      string = c;
      allowed = ap (λ l. forbitten_path l (some file)) e;
      exists = refl;
    }

pub file-CanAdd : CanAdd kernel empty_table file 7 70
file-CanAdd = record { stack_clear = refl; entry = refl; path = refl; inode = refl }

do_change_path-adds_example :
    let changed =
      do_change_path kernel empty_monitor (some secret) (some typed) (pos add_path_op) in
    ((¬ Listed file empty_table.restrict_path_list)
      × (changed
          ≡ ran (
            with_entry kernel empty_monitor secret typed file 7
                (secret-MayChange empty_monitor refl refl refl)
                (file-Target empty_monitor refl)
                70,
            pos 0,
          )))
    ⊎ (Listed file empty_table.restrict_path_list × (changed ≡ ran (empty_monitor, neg eexist)))
do_change_path-adds_example =
    do_change_path-adds kernel empty_monitor secret typed file 7
      (secret-MayChange empty_monitor refl refl refl) (file-Target empty_monitor refl) 70
      file-CanAdd

do_change_path-removes_example :
    (m' : Monitor Bool) × (ret : ℤ) × (do_change_path kernel monitor
        (some secret)
        (some typed)
        (pos remove_path_op)
      ≡ ran (m', ret))
    × (Listed file m'.table.restrict_path_list
        ↔ (Listed file table.restrict_path_list × (file ≢ file)))
    × (m'.current_state ≡ monitor.current_state)
    × (m'.pwd ≡ monitor.pwd)
    × (m'.probes ≡ monitor.probes)
do_change_path-removes_example =
    do_change_path-removes kernel monitor secret typed file 7
      (secret-MayChange monitor refl refl refl) (file-Target monitor refl) refl (λ x. x, tt)
      (λ x. refl, tt) file

-- Another user.
abbrev guest : Kernel
guest = record kernel { euid = 1000 }

do_change_path-IsRefused_example :
    IsRefused guest monitor
      (some secret)
      typed
      (do_change_path guest monitor (some secret) (some typed) (pos remove_path_op))
do_change_path-IsRefused_example =
    do_change_path-IsRefused guest monitor (some secret) typed (pos remove_path_op)
      (inl (ground arith))

abbrev switched : Monitor Bool
switched = (sys_change_state kprobes kernel kernel (λ p n b. secret) monitor 1 (pos off)).0

monitor-IsInvariant : IsInvariant kprobes monitor
monitor-IsInvariant = record {
  sound = record { state = inr (inr (inl refl)); hooks = (refl, (refl, tt)) };
  distinct = (λ x. x, tt);
}

Reachable-IsInvariant_example : IsInvariant kprobes switched
Reachable-IsInvariant_example =
    Reachable-IsInvariant kprobes monitor switched
      (next monitor switched start (changes_state kernel kernel (λ p n b. secret) 1 (pos off)))
      monitor-IsInvariant

pub secret-IsArgument : IsArgument secret
unfolding same same_n
secret-IsArgument = (
  (refl, (refl, (refl, (refl, (refl, (refl, (refl, (refl, tt)))))))),
  (refl, (refl, (refl, (refl, refl)))),
)

pub new_secret-IsArgument : IsArgument new_secret
unfolding same same_n
new_secret-IsArgument = (
  (refl, (refl, (refl, (refl, (refl, (refl, (refl, (refl, (refl, (refl, tt)))))))))),
  (refl, (refl, (refl, (refl, refl)))),
)

pub secret-IsPathArgument : IsPathArgument secret
unfolding same same_n
secret-IsPathArgument = (secret-IsArgument.0, refl, refl, refl, refl)

pub file-IsPathArgument : IsPathArgument file
unfolding same same_n
file-IsPathArgument = (
  (refl, (refl, (refl, (refl, (refl, (refl, (refl, (refl, (refl, tt))))))))),
  refl,
  refl,
  refl,
  refl,
)
