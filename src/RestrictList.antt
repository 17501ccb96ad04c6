-- ===== src/RestrictList.antt =====
-- reference-monitor/lib/reference_rcu_restrict_list.c: the list of protected paths, each with the
-- inode number and the original mode and flags of its file.
use aos_project.Base.{
  ℕ, zero, suc, ◌+◌, ◌-◌, ◌*◌, ◌/◌, ◌%◌, ◌^◌, ◌≤◌, ◌<◌, min, max, bit_and, bit_or, ◌≡◌, refl, sym,
  ap, ◌∙◌, fun_ext, ◌≢◌, ◌↔◌, ◌⊎◌, inl, inr, Bool, true, false, not, ◌&&◌, ◌||◌, Option, none, some,
  List, [], ◌∷◌, ◌++◌, map, append-nil, append_assoc, arith, ltb, leb, ◌==◌, if◌then◌else◌, ltb→lt,
  ltb→le, ==→eq, ==_iff, ==-self, Bool-cases, Option-cases, length, get_elem?, take, drop,
  replicate, All, length-append, length-take, length-drop, length-replicate, take-append,
  drop-append, take_of_length-le, drop_of_length-le, take-append-drop, drop-nil, drop-replicate, ℤ,
  pos, negsuc, neg, is_nonzero, is_negative, eperm, enoent, eio, ebadf, enomem, eacces, efault,
  eexist, einval, efbig, ebadmsg, ecanceled,
}
use aos_project.Base.Bits.{has}
use aos_project.CString.{
  Bytes, strncmp, strcmp, is_zero, same, same_n, same_iff, same_n_iff, same_self, same_n_self,
  same_n-length-append, same_n-length-prefix, c_string, NoNul, zeros, overwrite, c_string-append,
  c_string-zeros, c_string-NoNul, c_string_of_NoNul, c_string-zero,
}
pub mod Forbidden
pub mod Membership
pub mod Change
pub mod Edits
pub mod Restore
use aos_project.Kernel.{
  Inode, Inodes, set_inode, Lookup, failed, found, Kernel, Site, entry_block, entry_path, Run, ran,
  oops,
}

-- `struct rcu_restrict`
pub record RcuRestrict : Type 0 where
  pub path : Bytes
  pub i_ino : ℕ
  pub o_mode : ℕ
  pub o_flags : ℕ

-- `restrict_path_list`, and the inodes that its operations write.
pub record Table : Type 0 where
  pub restrict_path_list : List RcuRestrict
  pub inodes : Inodes

path_scan : List RcuRestrict → Bytes → ℤ
path_scan [] p = pos 1
path_scan (e ∷ l) p = if same p e.path then pos 0 else path_scan l p

unfoldable pub is_path_in : List RcuRestrict → Option Bytes → ℤ
unfolding path_scan
is_path_in l none = neg einval
is_path_in l (some the_path) = path_scan l the_path

-- The inode with its saved mode and flags back.
abbrev pub restored : Kernel → RcuRestrict → Inode → Inode
restored k e i = record i {
  i_mode = e.o_mode;
  i_flags = e.o_flags;
  i_ctime = k.current_time;
  i_mtime = k.current_time;
  i_atime = k.current_time;
  dirty = true;
}

restore_inode : Kernel → RcuRestrict → Inodes → Option ℕ → ℤ → Inodes × ℤ
restore_inode k e inodes none ret = (inodes, ret)
restore_inode k e inodes (some i) ret = (set_inode inodes i (restored k e (inodes i)), pos 0)

-- One round of the loop; `missing` is the result where the dentry has no inode.
unfoldable pub restore_entry : Kernel → ℤ → RcuRestrict → Inodes → Lookup → Inodes × ℤ
unfolding restore_inode
restore_entry k missing e inodes (failed n) = (inodes, negsuc n)
restore_entry k missing e inodes (found d) = restore_inode k e inodes (k.d_inode d) missing

restore_loop : Kernel → List RcuRestrict → Inodes → ℤ → Inodes × ℤ
unfolding restore_entry
restore_loop k [] inodes ret = (inodes, ret)
restore_loop k (e ∷ l) inodes ret =
    let (inodes', ret') = restore_entry k (pos 0) e inodes (k.kern_path e.path) in
    restore_loop k l inodes' ret'

unfoldable pub restore_black_list_entries : Kernel → Table → Table × ℤ
unfolding restore_loop
restore_black_list_entries k t =
    let (inodes', ret) = restore_loop k t.restrict_path_list t.inodes k.stack_err in
    (record t { inodes = inodes' }, ret)

abbrev pub entry_of : Bytes → Inode → RcuRestrict
entry_of p i = record { path = p; i_ino = i.i_ino; o_mode = i.i_mode; o_flags = i.i_flags }

insert_entry : Table → Bytes → Option ℕ → Table × ℤ
insert_entry t p none = (t, neg enoent)
insert_entry t p (some i) =
    (record t { restrict_path_list = entry_of p (t.inodes i) ∷ t.restrict_path_list }, pos 0)

-- The test `if (err)` reads `err` before anything is stored in it.
unfoldable pub add_path : Kernel → Table → Option Bytes → ℕ → Table × ℤ
unfolding insert_entry is_path_in
add_path k t none dentry = (t, neg einval)
add_path k t (some p) dentry =
    if is_zero (is_path_in t.restrict_path_list (some p))
    then (t, neg eexist)
    else if is_nonzero k.stack_err
    then (t, k.stack_err)
    else if not (k.allocates entry_block)
    then (t, neg enomem)
    else if not (k.allocates entry_path)
    then (t, neg enomem)
    else insert_entry t p (k.d_inode dentry)

-- The first entry that the path is a prefix of goes, restored if its file is there.
del_loop : Kernel → Bytes → List RcuRestrict → Inodes → Table × ℤ
unfolding restore_entry
del_loop k p [] inodes = (record { restrict_path_list = []; inodes = inodes }, neg enoent)
del_loop k p (e ∷ l) inodes =
    let (t, ret) = del_loop k p l inodes in
    let (inodes', done) = restore_entry k (neg enoent) e inodes (k.kern_path e.path) in
    if same_n (length p) p e.path
    then (record { restrict_path_list = l; inodes = inodes' }, done)
    else (record t { restrict_path_list = e ∷ t.restrict_path_list }, ret)

unfoldable pub del_path : Kernel → Table → Option Bytes → Table × ℤ
unfolding del_loop
del_path k t none = (t, neg einval)
del_path k t (some p) =
    if is_nonzero k.stack_err then (t, neg enoent) else del_loop k p t.restrict_path_list t.inodes

abbrev pub proc : Bytes
proc = b'/' ∷ b'p' ∷ b'r' ∷ b'o' ∷ b'c' ∷ []

abbrev pub sys : Bytes
sys = b'/' ∷ b's' ∷ b'y' ∷ b's' ∷ []

abbrev pub run : Bytes
run = b'/' ∷ b'r' ∷ b'u' ∷ b'n' ∷ []

abbrev pub var : Bytes
var = b'/' ∷ b'v' ∷ b'a' ∷ b'r' ∷ []

abbrev pub tmp : Bytes
tmp = b'/' ∷ b't' ∷ b'm' ∷ b'p' ∷ []

abbrev pub bin : Bytes
bin = b'/' ∷ b'b' ∷ b'i' ∷ b'n' ∷ []

abbrev pub etc : Bytes
etc = b'/' ∷ b'e' ∷ b't' ∷ b'c' ∷ []

abbrev pub lib : Bytes
lib = b'/' ∷ b'l' ∷ b'i' ∷ b'b' ∷ []

starts_forbidden : Bytes → Bool
starts_forbidden p =
    same_n 5 p proc
    || same_n 4 p sys
    || same_n 4 p run
    || same_n 4 p var
    || same_n 4 p tmp
    || same_n 4 p bin
    || same_n 4 p etc
    || same_n 4 p lib

is_root : Bytes → Bool
is_root (c ∷ []) = c == b'/'
is_root _ = false

-- The parameter before the path is `single_file_name`.
unfoldable pub forbitten_path : Bytes → Option Bytes → Bool
unfolding starts_forbidden is_root
forbitten_path single_file_name none = true
forbitten_path single_file_name (some p) =
    if is_root p then true else starts_forbidden p || same single_file_name p

-- What the test for hard links reads: nothing, a NULL inode, or an inode number.
pub data Target : Type 0 where
  no_target null_inode : Target
  numbered : ℕ → Target

inode_target : Inodes → Option ℕ → Target
inode_target inodes none = null_inode
inode_target inodes (some i) = numbered (inodes i).i_ino

pub link_target : Kernel → Inodes → Bool → Lookup → Target
unfolding inode_target
link_target k inodes is_open (failed n) = no_target
link_target k inodes is_open (found d) =
    if is_open then inode_target inodes (k.d_inode d) else no_target

-- The second test of a round; the last argument is the rest of the loop.
link_test : Target → RcuRestrict → Run ℤ → Run ℤ
link_test no_target e rest = rest
link_test null_inode e rest = oops
link_test (numbered n) e rest = if e.i_ino == n then ran (pos 0) else rest

black_list_loop : Bytes → Target → List RcuRestrict → Run ℤ
unfolding link_test
black_list_loop p link [] = ran (neg eexist)
black_list_loop p link (e ∷ l) =
    if same p e.path then ran (pos 0) else link_test link e (black_list_loop p link l)

unfoldable pub check_black_list : Kernel → Table → Option Bytes → Bool → Run ℤ
unfolding link_target black_list_loop
check_black_list k t none is_open = ran (neg einval)
check_black_list k t (some p) is_open =
    black_list_loop p (link_target k t.inodes is_open (k.kern_path p)) t.restrict_path_list
