-- ===== src/Tests/Fixtures.antt =====
-- The data of the tests: a kernel with the directory /home/u and the file /home/u/f in it, a list
-- with that file, and a monitor in REC_ON.
use aos_project.Base.{
  ℕ, zero, suc, ◌%◌, ◌≡◌, refl, ◌≢◌, Bool, true, false, Option, none, some, [], ◌∷◌, ◌++◌, arith,
  ◌==◌, if◌then◌else◌, length, replicate, All, pos, neg, eio,
}
use aos_project.CString.{Bytes, same, NoNul}
use aos_project.Kernel.{Inode, Inodes, Lookup, failed, found, Kernel}
use aos_project.Hash.{IsByte, IsSha512, salted_digest}
use aos_project.RestrictList.{RcuRestrict, Table, entry_of}
use aos_project.Syscalls.{Kprobes, Monitor, rec_on}

-- "/home/u"
abbrev pub dir : Bytes
dir = b'/' ∷ b'h' ∷ b'o' ∷ b'm' ∷ b'e' ∷ b'/' ∷ b'u' ∷ []

-- "/home/u/f", without and with the slash in front
abbrev pub rel : Bytes
rel = b'h' ∷ b'o' ∷ b'm' ∷ b'e' ∷ b'/' ∷ b'u' ∷ b'/' ∷ b'f' ∷ []

abbrev pub file : Bytes
file = b'/' ∷ rel

-- "/mnt/log"
abbrev pub log : Bytes
log = b'/' ∷ b'm' ∷ b'n' ∷ b't' ∷ b'/' ∷ b'l' ∷ b'o' ∷ b'g' ∷ []

-- A stand-in for the digest: 64 bytes that depend on the length.
abbrev pub toy_sha512 : Bytes → Bytes
toy_sha512 s = length s % 256 ∷ replicate 63 0

zero_bytes : (n : ℕ) → All IsByte (replicate n 0)
zero_bytes zero = tt
zero_bytes (suc n) = (omega arith, zero_bytes n)

pub toy_sha512-IsSha512 : IsSha512 toy_sha512
toy_sha512-IsSha512 = record { size = λ s. refl; bytes = λ s. (omega arith, zero_bytes 63) }

abbrev pub lookup : Bytes → Lookup
lookup p = if same p file then found 7 else if same p dir then found 6 else failed 1

abbrev pub inode_at : ℕ → Option ℕ
inode_at d = if d == 7 then some 70 else if d == 6 then some 60 else none

-- Whatever a lookup finds has an inode.
pub lookup-inode_at : (p : Bytes) (d : ℕ) → lookup p ≡ found d → inode_at d ≢ none
lookup-inode_at p d e = ground arith

abbrev pub kernel : Kernel
kernel = record {
  euid = 0;
  current = record { tgid = pos 40; pid = pos 41; uid = 1000; mm = true; exe_file = some 7 };
  kern_path = lookup;
  d_inode = inode_at;
  d_parent = λ d. if d == 7 then some 6 else none;
  dentry_path_raw = λ d. if d == 7 then some file else some dir;
  shown_err = [];
  fs_pwd = 6;
  allocates = λ s. true;
  stale = λ s. [];
  stack_err = pos 0;
  stack_behind = λ n. [];
  freed_intact = λ n. true;
  current_time = 9;
  crypto_alloc_shash = true;
  crypto_shash_init = pos 0;
  crypto_shash_update = λ s. pos 0;
  crypto_shash_final = pos 0;
  sha512 = toy_sha512;
}

-- The same with garbage on the stack.
abbrev pub garbage_kernel : Kernel
garbage_kernel = record kernel { stack_err = neg eio }

-- A regular file that everyone may read and its group and owner may write.
abbrev pub plain_inode : Inode
plain_inode = record {
  i_ino = 12;
  i_mode = 0x81b4;
  i_flags = 0;
  i_ctime = 1;
  i_mtime = 1;
  i_atime = 1;
  dirty = false;
}

abbrev pub inodes : Inodes
inodes i = plain_inode

abbrev pub file_entry : RcuRestrict
file_entry = entry_of file plain_inode

abbrev pub dir_entry : RcuRestrict
dir_entry = entry_of dir plain_inode

abbrev pub empty_table : Table
empty_table = record { restrict_path_list = []; inodes = inodes }

abbrev pub table : Table
table = record { restrict_path_list = file_entry ∷ []; inodes = inodes }

abbrev pub dir_table : Table
dir_table = record { restrict_path_list = dir_entry ∷ []; inodes = inodes }

abbrev pub toy_salt : Bytes
toy_salt = b's' ∷ b'a' ∷ b'l' ∷ b't' ∷ []

-- "password"
abbrev pub secret : Bytes
secret = b'p' ∷ b'a' ∷ b's' ∷ b's' ∷ b'w' ∷ b'o' ∷ b'r' ∷ b'd' ∷ []

-- "password!!"
abbrev pub new_secret : Bytes
new_secret = secret ++ b'!' ∷ b'!' ∷ []

abbrev pub kprobes : Kprobes Bool
kprobes = record {
  enable_kretprobe = λ p. true;
  disable_kretprobe = λ p. false;
  armed = λ p. p;
  armed-enable = λ p. refl;
  armed-disable = λ p. refl;
}

abbrev pub monitor : Monitor Bool
monitor = record {
  current_state = rec_on;
  pwd = salted_digest kernel toy_salt secret;
  salt = toy_salt;
  admin = 0;
  single_file_name = log;
  table = table;
  probes = true ∷ true ∷ [];
}

abbrev pub empty_monitor : Monitor Bool
empty_monitor = record monitor { table = empty_table }

pub dir-NoNul : NoNul dir
dir-NoNul = ground arith

pub file-NoNul : NoNul file
file-NoNul = ground arith

pub secret-NoNul : NoNul secret
secret-NoNul = ground arith

pub new_secret-NoNul : NoNul new_secret
new_secret-NoNul = ground arith
