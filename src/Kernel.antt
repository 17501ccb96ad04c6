-- ===== src/Kernel.antt =====
-- What the module takes from the kernel: inode fields, name lookup, allocation, the hash service.
-- Kernel code is not in the repository: each service is a field, and each call of an operation of
-- the module is given the services as they answer during that call.
use aos_project.Base.{ℕ, Bool, Option, ◌==◌, if◌then◌else◌, ℤ}
use aos_project.CString.{Bytes}

-- The fields of `struct inode` that the module reads and writes.
pub record Inode : Type 0 where
  pub i_ino : ℕ
  pub i_mode : ℕ
  pub i_flags : ℕ
  pub i_ctime : ℕ
  pub i_mtime : ℕ
  pub i_atime : ℕ
  pub dirty : Bool

-- Inodes by address.
abbrev pub Inodes : Type 0
Inodes = ℕ → Inode

abbrev pub set_inode : Inodes → ℕ → Inode → Inodes
set_inode inodes i v j = if i == j then v else inodes j

-- `kern_path`: -(n + 1), or 0 with a dentry.
pub data Lookup : Type 0 where
  failed : ℕ → Lookup
  found : ℕ → Lookup

-- The allocations of the module.
pub data Site : Type 0 where
  work_block work_path work_ciphertext work_contents work_buffer salted_text shash_desc entry_block
        entry_path resolved_path absolute_path dentry_path :
      Site
  open_buffer mkdir_buffer unlink_buffer user_path proc_buffer wrapper_path proc_page : Site

-- The task that runs: its ids, whether it has an address space, and the dentry of its program.
pub record Task : Type 0 where
  pub tgid : ℤ
  pub pid : ℤ
  pub uid : ℕ
  pub mm : Bool
  pub exe_file : Option ℕ

pub record Kernel : Type 0 where
  pub euid : ℕ  -- current_cred()->euid.val
  pub current : Task
  pub kern_path : Bytes → Lookup
  pub d_inode : ℕ → Option ℕ  -- of a dentry; `none` is NULL
  pub d_parent : ℕ → Option ℕ
  pub dentry_path_raw : ℕ → Option Bytes  -- `none` is an ERR_PTR
  pub shown_err : Bytes  -- what `%s` prints for an ERR_PTR
  pub fs_pwd : ℕ  -- the dentry of the working directory
  pub allocates : Site → Bool  -- false: kmalloc or kzalloc returns NULL
  pub stale : Site → Bytes  -- memory from the start of a kmalloc block on, before it is written
  pub stack_err : ℤ  -- what an uninitialised local `err` or `ret` holds
  pub stack_behind : ℕ → Bytes  -- what stands on the stack behind an array of a system call
  pub freed_intact : ℕ → Bool  -- whether memory still holds its pointers after a kfree
  pub current_time : ℕ
  pub crypto_alloc_shash : Bool  -- false: an ERR_PTR
  pub crypto_shash_init : ℤ
  pub crypto_shash_update : Bytes → ℤ
  pub crypto_shash_final : ℤ
  pub sha512 : Bytes → Bytes

-- A result of code that may read through a NULL pointer or write outside an array.
pub data Run (A : Type 0) : Type 0 where
  ran : A → Run A
  oops : Run A

infixl 5 ◌>>=◌
abbrev pub ◌>>=◌ : {A B : Type 0} → Run A → (A → Run B) → Run B
ran a >>= f = f a
oops >>= f = oops
