-- ===== src/Tests/Functionality.antt =====
-- The functionality test on a monitor with an empty list.
use aos_project.Base.{
  ℕ, suc, ◌≡◌, refl, sym, ap, ◌∙◌, ◌≢◌, Bool, false, some, [], ◌∷◌, ◌++◌, arith, ◌==◌,
  if◌then◌else◌, All, pos,
}
use aos_project.CString.{Bytes, strncmp, same, same_n, c_string, NoNul, zeros}
use aos_project.Kernel.{Kernel, ran, found}
use aos_project.Hash.{hex}
use aos_project.PathSolver.{fill_absolute_path}
use aos_project.PathSolver.Absolute.{Resolves, fill_absolute_path_zeroed}
use aos_project.RestrictList.{forbitten_path, proc}
use aos_project.Syscalls.{Monitor, rec_on, rec_off, check_pwd}
use aos_project.FunctionalityTest.{goes, forbitten_paths}
use aos_project.FunctionalityTest.PathTest.{test_change_path}
use aos_project.FunctionalityTest.StateRun.{as_user, monitor_calls, IsReady}
use aos_project.FunctionalityTest.PathRun.{padded, Forbidden}
use aos_project.FunctionalityTest.Whole.{test_main, IsPrepared, test_main_lem}
use aos_project.FunctionalityTest.Passes.{GoodPath, test_change_path_lem}
use aos_project.Tests.Fixtures.{
  kernel, kprobes, empty_monitor, secret, new_secret, file, rel, log, file-NoNul,
}

-- A kernel that finds everything: the file, and another dentry for all other paths.
abbrev full_kernel : Kernel
full_kernel = record kernel {
  kern_path = λ p. if same p file then found 7 else found 8;
  dentry_path_raw = λ d. if d == 7 then some file else some proc;
}

-- The digests of two passwords of different lengths differ.
wrong_order : check_pwd (as_user full_kernel 0) empty_monitor (some new_secret) ≡ pos 1
unfolding check_pwd strncmp hex c_string
wrong_order = refl

wrong_password : check_pwd (as_user full_kernel 0) empty_monitor (some new_secret) ≢ pos 0
wrong_password e = absurd (ground (arith, sym wrong_order ∙ e))

right_password : check_pwd (as_user full_kernel 0) empty_monitor (some secret) ≡ pos 0
unfolding check_pwd strncmp hex c_string
right_password = refl

empty_monitor-IsReady : IsReady kprobes full_kernel secret new_secret empty_monitor
empty_monitor-IsReady = record { admin = refl; accepts = right_password; rejects = wrong_password }

-- An absolute path is resolved in the zeroed buffer.
fills :
    (p full : Bytes) (n : ℕ)
    → padded (b'/' ∷ p) ≡ (b'/' ∷ p) ++ zeros (suc n)
    → NoNul (b'/' ∷ p)
    → NoNul full
    → Resolves (as_user full_kernel 0) (b'/' ∷ p) full
    → (b : Bytes) × (fill_absolute_path (as_user full_kernel 0) (padded (b'/' ∷ p))
        ≡ ran (b, pos 0))
      × (c_string b ≡ full)
fills p full n e h k r =
    let (b, f, c) = fill_absolute_path_zeroed (as_user full_kernel 0) p full n h k r in
    (b, ap (fill_absolute_path (as_user full_kernel 0)) e ∙ f, c)

good_path : GoodPath (as_user full_kernel 0) log file file 7 70
unfolding forbitten_path same same_n
good_path =
    let (b, f, c) =
      fills rel file 4086 refl file-NoNul file-NoNul
        (record { dentry = 7; lookup = refl; memory = refl; raw = refl }) in
    record {
      buffer = b;
      fills = f;
      string = c;
      allowed = refl;
      listable = record { exists = refl; inode = refl; block = refl; copy = refl; clean = refl };
    }

proc-NoNul : NoNul proc
proc-NoNul = ground arith

-- A path that the kernel resolves to "/proc".
forbidden :
    (p : Bytes) (n : ℕ)
    → padded (b'/' ∷ p) ≡ (b'/' ∷ p) ++ zeros (suc n)
    → NoNul (b'/' ∷ p)
    → same (b'/' ∷ p) file ≡ false
    → Forbidden kprobes full_kernel secret new_secret file log (b'/' ∷ p)
unfolding forbitten_path same same_n
forbidden p n e h o =
    let (b, f, c) =
      fills p proc n e h proc-NoNul
        (record { dentry = 8; lookup = rw (o) refl; memory = refl; raw = refl }) in
    record { buffer = b; fills = f; refused = ap (λ s. forbitten_path log (some s)) c }

All-Forbidden : All (Forbidden kprobes full_kernel secret new_secret file log) forbitten_paths
unfolding same
All-Forbidden = (
  forbidden (b'p' ∷ b'r' ∷ b'o' ∷ b'c' ∷ []) 4090 refl proc-NoNul refl,
  (
    forbidden (b's' ∷ b'y' ∷ b's' ∷ []) 4091 refl (ground arith) refl,
    (
      forbidden (b'r' ∷ b'u' ∷ b'n' ∷ []) 4091 refl (ground arith) refl,
      (
        forbidden (b'v' ∷ b'a' ∷ b'r' ∷ []) 4091 refl (ground arith) refl,
        (forbidden (b't' ∷ b'm' ∷ b'p' ∷ []) 4091 refl (ground arith) refl, tt),
      ),
    ),
  ),
)

test_change_path_lem_example :
    (m' : Monitor Bool) × (test_change_path
        (monitor_calls kprobes full_kernel)
        secret
        new_secret
        file
        empty_monitor
      ≡ goes m')
    × (m'.current_state ≡ rec_off)
    × (m'.table.restrict_path_list ≡ [])
    × IsReady kprobes full_kernel secret new_secret m'
    × (m'.single_file_name ≡ log)
test_change_path_lem_example =
    test_change_path_lem kprobes full_kernel secret new_secret file log file 7 70 good_path
      empty_monitor empty_monitor-IsReady (λ e. ground arith) refl refl All-Forbidden

empty_monitor-IsPrepared :
    IsPrepared kprobes full_kernel secret new_secret file log file 7 70 good_path All-Forbidden
      rec_on empty_monitor
empty_monitor-IsPrepared = record {
  ready = empty_monitor-IsReady;
  state = refl;
  logs = refl;
  list = refl;
}

test_main_lem_example :
    (m' : Monitor Bool) × (test_main
        (monitor_calls kprobes full_kernel)
        (monitor_calls kprobes full_kernel)
        secret
        new_secret
        file
        (pos rec_on)
        empty_monitor
      ≡ goes m')
    × IsPrepared kprobes full_kernel secret new_secret file log file 7 70 good_path All-Forbidden
        rec_off m'
test_main_lem_example =
    test_main_lem kprobes full_kernel secret new_secret file log file 7 70 good_path All-Forbidden
      empty_monitor rec_on (ground arith) empty_monitor-IsPrepared
