-- ===== src/UserLib/Send.antt =====
-- user/lib/ref_syscall.c: the calls through the access point, with what the kernel's side makes of
-- them.
use aos_project.Base.{
  ℕ, ◌≤◌, ◌<◌, ◌≡◌, refl, ap, ◌∙◌, ◌⊎◌, Bool, true, false, not, some, ◌∷◌, ◌++◌, arith, leb,
  if◌then◌else◌, length, length-append, ℤ, pos, negsuc, is_negative,
}
use aos_project.CString.{Bytes, zeros, overwrite}
use aos_project.Kernel.{Kernel, Run, ran, oops, proc_buffer, wrapper_path}
use aos_project.PathSolver.{path_max}
use aos_project.Syscalls.{
  Monitor, Kprobes, do_change_state, do_change_path, do_change_password, is_state, add_path_op,
  remove_path_op,
}
use aos_project.Vfs.{written_result, syscall_proc_write}
use aos_project.Vfs.Command.{IsArgument, write-path_change_state, write-path_change_password}
use aos_project.Vfs.PathCommand.{IsPathArgument, write-path_change_path, answer}
use aos_project.CommandLine.{opt_key, pth_key}
use aos_project.UserLib.{get_str_path, path_change_state, path_change_path, path_change_password}

-- PATH_BUFFER
abbrev pub path_buffer_size : ℕ
path_buffer_size = 256

-- `if (write(...) < 0) ret = -1;`
abbrev pub sent_result : {W : Type 0} → W × ℤ → W × ℤ
sent_result (w, n) = (w, if is_negative n then negsuc 0 else pos 0)

abbrev pub sent : {W : Type 0} → Run (W × ℤ) → Run (W × ℤ)
sent (ran r) = ran (sent_result r)
sent oops = oops

-- What the three functions do with their text: whether the access point opens, the buffer that
-- `sprintf` fills, and `write`. A text that leaves no room for its NUL is written past the end.
unfoldable pub send : {W : Type 0} → Bool → (W → Bytes → Run (W × ℤ)) → W → Bytes → Run (W × ℤ)
send opens write w text =
    if not opens
    then ran (w, negsuc 0)
    else if leb path_buffer_size (length text)
    then oops
    else sent (write w text)

-- What a caller of the library is told of the result of a call of the monitor.
abbrev pub called : {W : Type 0} → Run (W × ℤ) → Run (W × ℤ)
called (ran (w, pos n)) = ran (w, pos 0)
called (ran (w, negsuc n)) = ran (w, negsuc 0)
called oops = oops

sent-called : {W : Type 0} (r : Run (W × ℤ)) → sent r ≡ called r
sent-called (ran (w, pos n)) = refl
sent-called (ran (w, negsuc n)) = refl
sent-called oops = refl

sent-written_result :
    {P : Type 0} (len : ℕ) (r : Monitor P × ℤ) → sent (ran (written_result len r)) ≡ sent (ran r)
unfolding written_result
sent-written_result len (m, pos n) = refl
sent-written_result len (m, negsuc n) = refl

sent-answer : {P : Type 0} (len : ℕ) (r : Run (Monitor P × ℤ)) → sent (answer len r) ≡ sent r
sent-answer len (ran r) = sent-written_result len r
sent-answer len oops = refl

path_change_path-long :
    (pwd path : Bytes) (op : ℕ) → length path ≤ length (path_change_path pwd path op)
unfolding path_change_path
path_change_path-long pwd path op =
    let tail = b' ' ∷ opt_key ++ b' ' ∷ get_str_path op in
    let rest = b' ' ∷ pth_key ++ b' ' ∷ (path ++ tail) in
    omega (arith, length-append path tail, length-append pwd rest)

send-fits :
    {W : Type 0} (write : W → Bytes → Run (W × ℤ)) (w : W) (text : Bytes)
    → length text < path_buffer_size
    → send true write w text ≡ sent (write w text)
unfolding send
send-fits write w text h = let z : leb 256 (length text) ≡ false = ground arith in rw z refl

module _ {P : Type 0} (kp : Kprobes P) (k k' : Kernel) where
  -- A write of a text whose bytes can all be copied.
  abbrev pub written : Monitor P → Bytes → Run (Monitor P × ℤ)
  written m text = syscall_proc_write kp k k' m (record { text = text; copy_ret = 0 })

  sent-written :
      (m : Monitor P) (text : Bytes) (r : Monitor P × ℤ)
      → length text < path_buffer_size
      → written m text ≡ ran (written_result (length text) r)
      → send true written m text ≡ sent (ran r)
  sent-written m text r h e =
      send-fits written m text h ∙ ap sent e ∙ sent-written_result (length text) r

  sent-path :
      (m : Monitor P) (pwd path : Bytes) (op : ℕ)
      → k.allocates proc_buffer ≡ true
      → k.allocates wrapper_path ≡ true
      → IsPathArgument pwd
      → IsPathArgument path
      → (op ≡ add_path_op) ⊎ (op ≡ remove_path_op)
      → length (path_change_path pwd path op) < path_buffer_size
      → send true written m (path_change_path pwd path op)
        ≡ sent (do_change_path k m (some pwd) (some (overwrite path (zeros path_max))) (pos op))
  sent-path m pwd path op a a' u v o y =
      let text = path_change_path pwd path op in
      let r = do_change_path k m (some pwd) (some (overwrite path (zeros path_max))) (pos op) in
      let l = path_change_path-long pwd path op in
      send-fits written m text y
      ∙ ap sent
          (write-path_change_path kp k k' m pwd path op a a' u v (omega arith) o (omega arith))
      ∙ sent-answer (length text) r

  -- The three calls through the access point do what the calls of the monitor do, and their result
  -- is 0 where the call gives 0 or more, and -1 where it gives an error. The text fits the buffer
  -- of the library, the passwords and the path are words that the parser takes as values, the state
  -- and the operation are known, and the buffers of the module can be allocated and copied to.
  pub send-IsCalled :
      (m : Monitor P) (pwd new path : Bytes) (s op : ℕ)
      → k.allocates proc_buffer ≡ true
      → k.allocates wrapper_path ≡ true
      → IsArgument pwd × IsArgument new × IsPathArgument pwd × IsPathArgument path
      → is_state (pos s) ≡ true
      → (op ≡ add_path_op) ⊎ (op ≡ remove_path_op)
      → (length (path_change_state pwd s) < path_buffer_size)
        × (length (path_change_path pwd path op) < path_buffer_size)
        × (length (path_change_password pwd new) < path_buffer_size)
      → (send true written m (path_change_state pwd s)
          ≡ called (ran (do_change_state kp k m (some pwd) (pos s))))
        × (send true written m (path_change_path pwd path op)
            ≡ called
                (do_change_path k m (some pwd) (some (overwrite path (zeros path_max))) (pos op)))
        × (send true written m (path_change_password pwd new)
            ≡ called (ran (do_change_password k k' m (some pwd) (some new))))
  send-IsCalled m pwd new path s op a a' (p, q, u, v) h o (x, y, z) = (
    sent-written m (path_change_state pwd s) (do_change_state kp k m (some pwd) (pos s)) x
          (write-path_change_state kp k k' a m pwd s p h (omega arith))
        ∙ sent-called (ran (do_change_state kp k m (some pwd) (pos s))),
    sent-path m pwd path op a a' u v o y
        ∙ sent-called
            (do_change_path k m (some pwd) (some (overwrite path (zeros path_max))) (pos op)),
    sent-written m (path_change_password pwd new) (do_change_password k k' m (some pwd) (some new))
          z (write-path_change_password kp k k' a m pwd new p q (omega arith))
        ∙ sent-called (ran (do_change_password k k' m (some pwd) (some new))),
  )
