-- ===== src/UserLib/Installed.antt =====
-- user/lib/ref_syscall.c and reference-monitor/reference_monitor.c: the numbers that the library reads
-- and the entries that the module takes.
use aos_project.Base.{
  ℕ, ◌<◌, ◌≡◌, sym, ap, ◌∙◌, ◌≢◌, none, some, List, [], ◌∷◌, arith, length, All, ℤ, pos,
}
use aos_project.CString.{Bytes}
use aos_project.Kernel.{Kernel, Run, ran, ◌>>=◌}
use aos_project.Syscalls.{Kprobes}
use aos_project.Load.{Loader, Machine, install, set_entry}
use aos_project.Load.States.{IsLoaded}
use aos_project.UserLib.Numbers.{Cache, no_numbers}
use aos_project.UserLib.Printed.{numbers_text, three, get_syscal_number-printed}
use mathlib.Core.Path.{subst}
use aos_project.UserLib.Calls.{
  Arguments, state_arguments, path_arguments, password_arguments, change_state, change_path,
  change_password, through,
}

install-three :
    (t : ℕ → ℕ) (a b c x y z : ℕ)
    → a ≢ b
    → a ≢ c
    → b ≢ c
    → let t' = install t (a ∷ b ∷ c ∷ []) (x ∷ y ∷ z ∷ []) in (t' a ≡ x) × (t' b ≡ y) × (t' c ≡ z)
unfolding install set_entry
install-three t a b c x y z d e f = ground arith

-- What the kernel does with a call by number: it runs the function at the number's place of the table.
abbrev pub RunsTable :
    {W : Type 0} → (W → ℤ → Arguments → W × ℤ) → (ℕ → W → Arguments → W × ℤ) → (ℕ → ℕ) → Type 0
RunsTable {W = W} syscall code table =
    (w : W) (n : ℕ) (args : Arguments) → syscall w (pos n) args ≡ code (table n) w args

call-code :
    {W : Type 0} (syscall : W → ℤ → Arguments → W × ℤ) (code : ℕ → W → Arguments → W × ℤ)
    (table : ℕ → ℕ) (w : W) (c : Cache) (n x : ℕ) (args : Arguments) (r : Run (Cache × ℤ))
    → RunsTable syscall code table
    → r ≡ ran (c, pos n)
    → table n ≡ x
    → (r >>= through syscall w args) ≡ ran (c, code x w args)
call-code syscall code table w c n x args r runs e f =
    subst (λ s. (s >>= through syscall w args) ≡ ran (c, code x w args)) (sym e)
      (ap (λ v. ran (c, v)) (runs w n args ∙ ap (λ j. code j w args) f))

module _ {P W : Type 0} (kp : Kprobes P) (k : Kernel) (l : Loader P) (w0 m : Machine P)
    (a b c x y z : ℕ) (syscall : W → ℤ → Arguments → W × ℤ) (code : ℕ → W → Arguments → W × ℤ) where
  table-three :
      IsLoaded kp k l (x ∷ y ∷ z ∷ []) w0 m
      → m.restore ≡ a ∷ b ∷ c ∷ []
      → a ≢ b
      → a ≢ c
      → b ≢ c
      → (m.sys_call_table a ≡ x) × (m.sys_call_table b ≡ y) × (m.sys_call_table c ≡ z)
  table-three i r d e f =
      let t = i.installed ∙ ap (λ es. install w0.sys_call_table es (x ∷ y ∷ z ∷ [])) r in
      let (p, q, s) = install-three w0.sys_call_table a b c x y z d e f in
      (ap (λ g. g a) t ∙ p, ap (λ g. g b) t ∙ q, ap (λ g. g c) t ∙ s)

  -- In a machine with the module loaded into three entries that differ, and a file free_entries that
  -- lists these three first, as numbers of an int in decimal with commas between them, in less than
  -- 256 bytes, the three calls of the library run the three system calls of the module, in this
  -- order, if the kernel runs what stands at a number's place of the table.
  pub calls-IsInstalled :
      (rest : List ℕ) (w : W)
      → IsLoaded kp k l (x ∷ y ∷ z ∷ []) w0 m
      → m.restore ≡ a ∷ b ∷ c ∷ []
      → a ≢ b
      → a ≢ c
      → b ≢ c
      → RunsTable syscall code m.sys_call_table
      → All (λ n. n < 2147483648) (a ∷ b ∷ c ∷ rest)
      → length (numbers_text (a ∷ b ∷ c ∷ rest)) < 256
      → (pwd path new : Bytes) (s op : ℤ)
      → let file = some (numbers_text (a ∷ b ∷ c ∷ rest)) in
        (change_state syscall file no_numbers w pwd s
          ≡ ran (three a b c, code x w (state_arguments pwd s)))
        × (change_path syscall file no_numbers w pwd (some path) op
            ≡ ran (three a b c, code y w (path_arguments pwd (some path) op)))
        × (change_password syscall file no_numbers w pwd new
            ≡ ran (three a b c, code z w (password_arguments pwd new)))
  unfolding change_state change_path change_password
  calls-IsInstalled rest w i r d e f runs h len pwd path new s op =
      let (p, q, t) = table-three i r d e f in
      let number = λ (j : ℕ). get_syscal_number-printed a b c rest j 0 none h len in
      (
        call-code syscall code m.sys_call_table w (three a b c) a x _ _ runs
            (number 0 (omega arith) (omega arith)).0 p,
        call-code syscall code m.sys_call_table w (three a b c) b y _ _ runs
            (number 1 (omega arith) (omega arith)).0 q,
        call-code syscall code m.sys_call_table w (three a b c) c z _ _ runs
            (number 2 (omega arith) (omega arith)).0 t,
      )
