-- ===== src/PathSolver.antt =====
-- reference-monitor/lib/reference_path_solver.c: rewriting the path in a buffer of PATH_MAX bytes.
-- No caller passes NULL. The copies overlap only where the bytes read stand behind those written.
use aos_project.Base.{
  ℕ, zero, suc, ◌+◌, ◌-◌, ◌*◌, ◌/◌, ◌%◌, ◌^◌, ◌≤◌, ◌<◌, min, max, bit_and, bit_or, ◌≡◌, refl, sym,
  ap, ◌∙◌, fun_ext, ◌≢◌, ◌↔◌, ◌⊎◌, inl, inr, Bool, true, false, not, ◌&&◌, ◌||◌, Option, none, some,
  List, [], ◌∷◌, ◌++◌, map, append-nil, append_assoc, arith, ltb, leb, ◌==◌, if◌then◌else◌, ltb→lt,
  ltb→le, ==→eq, ==_iff, ==-self, Bool-cases, Option-cases, length, get_elem?, get_or, set, take,
  drop, replicate, All, AnyOf, length-append, length-take, length-drop, length-replicate,
  take-append, drop-append, take_of_length-le, drop_of_length-le, take-append-drop, drop-nil,
  drop-replicate, ℤ, pos, negsuc, neg, is_nonzero, is_negative, eperm, enoent, eio, ebadf, enomem,
  eacces, efault, eexist, einval, efbig, ebadmsg, ecanceled,
}
use aos_project.Base.Bits.{has, and_zero, and_assoc, and_self, or-and}
use aos_project.CString.{
  Bytes, strncmp, strcmp, is_zero, same, same_n, same_iff, same_n_iff, same_self, same_n_self,
  same_n-length-append, same_n-length-prefix, c_string, NoNul, zeros, overwrite, c_string-append,
  c_string-zeros, c_string-NoNul, c_string_of_NoNul, c_string-zero,
}
pub mod Parent
pub mod Absolute
pub mod Swap
pub mod ReadOnly
use aos_project.Kernel.{
  Inode, Inodes, set_inode, Lookup, failed, found, Kernel, resolved_path, absolute_path,
  dentry_path, Run, ran, oops, ◌>>=◌,
}

abbrev pub path_max : ℕ
path_max = 4096

abbrev pub byte_at : Bytes → ℕ → ℕ
byte_at b i = get_or b i 0

-- The `while` of `get_parent_path`: where the index stops.
unfoldable pub parent_index : Bytes → ℕ → ℕ
parent_index b zero = 0
parent_index b (suc i) = if byte_at b (suc i) == b'/' then suc i else parent_index b i

unfoldable pub get_parent_path : Bytes → Bytes
unfolding parent_index
get_parent_path b = let i = parent_index b (length (c_string b)) in if ltb 0 i then set b i 0 else b

shown : Kernel → Option Bytes → Bytes
shown k none = k.shown_err
shown k (some s) = s

-- `snprintf(resolved_path, PATH_MAX, "%s/%s", cwd, path_str)`
join_path : Bytes → Bytes → Bytes
join_path cwd p = take (path_max - 1) (cwd ++ b'/' ∷ p)

unfoldable pub resolve_relative_path : Kernel → Bytes → Bytes × ℤ
unfolding shown join_path
resolve_relative_path k b = if not (k.allocates resolved_path) then (b, neg enomem) else (
  overwrite (join_path (shown k (k.dentry_path_raw k.fs_pwd)) (c_string b))
      (zeros path_max ++ drop path_max b),
  pos 0,
)

-- `memset(pathname, 0, strlen(pathname)); strncpy(pathname, full_path, strlen(full_path))`
abbrev pub replace_string : Bytes → Bytes → Bytes
replace_string full b = overwrite full (zeros (length (c_string b)) ++ drop (length (c_string b)) b)

store_full : Bytes → Option Bytes → Run (Bytes × ℤ)
store_full b none = oops
store_full b (some full) = ran (replace_string full b, pos 0)

fill_found : Kernel → Bytes → Lookup → Run (Bytes × ℤ)
unfolding store_full
fill_found k b (failed n) = ran (b, neg enoent)
fill_found k b (found d) =
    if not (k.allocates absolute_path)
    then ran (b, neg enomem)
    else store_full b (k.dentry_path_raw d)

unfoldable pub fill_absolute_path : Kernel → Bytes → Run (Bytes × ℤ)
unfolding resolve_relative_path fill_found
fill_absolute_path k b =
    let (r, err) = resolve_relative_path k b in
    if byte_at b 0 == b'/'
    then fill_found k b (k.kern_path (c_string b))
    else if is_nonzero err
    then ran (r, err)
    else fill_found k r (k.kern_path (c_string r))

abbrev pub swp : Bytes
swp = b'.' ∷ b's' ∷ b'w' ∷ b'p' ∷ []

abbrev pub swpx : Bytes
swpx = b'.' ∷ b's' ∷ b'w' ∷ b'p' ∷ b'x' ∷ []

abbrev pub tilde : Bytes
tilde = b'~' ∷ []

-- The loop from the end of the name: the dot behind the last slash, if one stands there.
unfoldable pub find_dot : Bytes → ℕ → Option ℕ
find_dot b zero = none
find_dot b (suc i) =
    if byte_at b i == b'/'
    then if byte_at b (i + 1) == b'.' then some (i + 1) else none
    else find_dot b i

-- `memset(&b[i], 0, n)`
abbrev pub clear : ℕ → ℕ → Bytes → Bytes
clear i n b = take i b ++ (zeros n ++ drop (i + n) b)

-- The `memmove` over the dot, and the new end of the string.
remove_dot : Bytes → ℕ → Option ℕ → Bytes × ℕ
remove_dot b len none = (b, len)
remove_dot b len (some i) =
    (set (take i b ++ (take (len - i) (drop (i + 1) b) ++ drop len b)) (len - 1) 0, len - 1)

abbrev pub ends_at : ℕ → Bytes → Bytes → Bool
ends_at len b end = same_n (length end) (drop (len - length end) b) end

clear_swap : Bytes × ℕ → Bytes
clear_swap (b, len) =
    if ends_at len b swp
    then clear (len - 4) 4 b
    else if ends_at len b swpx
    then clear (len - 5) 5 b
    else if ends_at len b tilde
    then set b (len - 1) 0
    else b

abbrev pub is_swap_name : Bytes → ℕ → Bool
is_swap_name b len = ends_at len b swp || (ends_at len b swpx || ends_at len b tilde)

unfoldable pub strip_swap : Bytes → ℕ → Bytes
unfolding find_dot remove_dot clear_swap
strip_swap b len = clear_swap (remove_dot b len (find_dot b len))

finish_fill : ℤ → Bytes × ℤ → Run (Bytes × ℤ)
finish_fill ret (b, absolute_ret) =
    if is_nonzero absolute_ret then ran (b, absolute_ret) else ran (b, ret)

unfoldable pub fill_with_swap_filter : Kernel → Bytes → Run (Bytes × ℤ)
unfolding strip_swap fill_absolute_path finish_fill
fill_with_swap_filter k b =
    let len = length (c_string b) in
    if ltb len 6
    then ran (b, pos 0)
    else if is_swap_name b len
    then fill_absolute_path k (strip_swap b len) >>= finish_fill (pos 1)
    else fill_absolute_path k b >>= finish_fill (pos 0)

-- `linux/stat.h`, `linux/fs.h`
abbrev pub s_iwusr : ℕ
s_iwusr = 0o200

abbrev pub s_iwgrp : ℕ
s_iwgrp = 0o020

abbrev pub s_iwoth : ℕ
s_iwoth = 0o002

abbrev pub s_immutable : ℕ
s_immutable = 8

-- `mode &= ~bit` at 16 bits
abbrev pub clear_bit : ℕ → ℕ → ℕ
clear_bit mode bit = bit_and mode (0xffff - bit)

unfoldable pub mark_inode_read_only : Inode → Inode
mark_inode_read_only i = record i {
  i_mode = clear_bit (clear_bit (clear_bit i.i_mode s_iwusr) s_iwgrp) s_iwoth;
  i_flags = bit_or i.i_flags s_immutable;
  dirty = true;
}

mark_at : Inodes → Option ℕ → Run (Inodes × ℤ)
unfolding mark_inode_read_only
mark_at inodes none = oops
mark_at inodes (some i) = ran (set_inode inodes i (mark_inode_read_only (inodes i)), pos 0)

mark_found : Kernel → Inodes → Lookup → Run (Inodes × ℤ)
unfolding mark_at
mark_found k inodes (failed n) = ran (inodes, negsuc n)
mark_found k inodes (found d) = mark_at inodes (k.d_inode d)

unfoldable pub mark_inode_read_only_by_pathname : Kernel → Inodes → Bytes → Run (Inodes × ℤ)
unfolding mark_found
mark_inode_read_only_by_pathname k inodes pathname = mark_found k inodes (k.kern_path pathname)

store_raw : Bytes → Option Bytes → Bytes × ℤ
store_raw b none = (b, neg enoent)
store_raw b (some s) = (overwrite s (zeros path_max ++ drop path_max b), pos 0)

unfoldable pub fill_path_by_dentry : Kernel → Option ℕ → Bytes → Bytes × ℤ
unfolding store_raw
fill_path_by_dentry k none b = (b, neg einval)
fill_path_by_dentry k (some d) b =
    if not (k.allocates dentry_path) then (b, neg enomem) else store_raw b (k.dentry_path_raw d)
