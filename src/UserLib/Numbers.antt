-- ===== src/UserLib/Numbers.antt =====
-- user/lib/ref_syscall.c: the numbers of the three system calls, read from
-- /sys/module/the_usctm/parameters/free_entries, with `strtok` and `atoi` of the C library.
use aos_project.Base.{
  ℕ, ◌+◌, ◌-◌, ◌*◌, Bool, true, false, not, ◌&&◌, ◌||◌, Option, none, some, List, [], ◌∷◌, leb,
  ◌==◌, if◌then◌else◌, length, get_or, take, ℤ, pos, negsuc, neg,
}
use aos_project.CString.{Bytes, c_string}
use aos_project.CommandLine.{split}
use aos_project.Kernel.{Run, ran, oops}

abbrev pub is_digit : ℕ → Bool
is_digit c = leb b'0' c && leb c b'9'

-- `isspace` in the C locale
abbrev pub is_space : ℕ → Bool
is_space c = c == b' ' || (leb 9 c && leb c 13)

unfoldable pub atoi_digits : ℕ → Bytes → ℕ
atoi_digits n [] = n
atoi_digits n (c ∷ s) = if is_digit c then atoi_digits (10 * n + (c - 48)) s else n

-- `atoi` of a number that an int can hold.
unfoldable pub atoi : Bytes → ℤ
unfolding atoi_digits
atoi [] = pos 0
atoi (c ∷ s) =
    if is_space c
    then atoi s
    else if c == b'-'
    then neg (atoi_digits 0 s)
    else if c == b'+'
    then pos (atoi_digits 0 s)
    else pos (atoi_digits 0 (c ∷ s))

unfoldable pub non_empty : List Bytes → List Bytes
non_empty [] = []
non_empty ([] ∷ ws) = non_empty ws
non_empty ((c ∷ w) ∷ ws) = (c ∷ w) ∷ non_empty ws

-- The tokens that repeated calls of `strtok` give.
unfoldable pub strtok : ℕ → Bytes → List Bytes
unfolding non_empty split
strtok sep s = non_empty (split sep s)

-- `syscall_cache` and `empty`
pub record Cache : Type 0 where
  pub syscall_cache : List ℤ
  pub empty : Bool

abbrev pub no_numbers : Cache
no_numbers = record { syscall_cache = pos 0 ∷ pos 0 ∷ pos 0 ∷ []; empty = true }

-- The loop over the tokens: the cache has three places, where `count < 3` ends.
unfoldable pub fill_cache : List ℤ → List Bytes → List ℤ
unfolding atoi
fill_cache [] tokens = []
fill_cache (v ∷ vs) [] = v ∷ vs
fill_cache (v ∷ vs) (t ∷ tokens) = atoi t ∷ fill_cache vs tokens

-- The bytes that `fread` puts into `buff`; `buff[r] = 0` behind 256 of them is out of bounds.
unfoldable pub read_numbers : Cache → Bytes → Run Cache
unfolding fill_cache strtok
read_numbers c text =
    let buff = take 256 text in
    if leb 256 (length buff)
    then oops
    else ran (record {
      syscall_cache = fill_cache c.syscall_cache (strtok b',' (c_string buff));
      empty = false;
    })

-- `EXIT_FAILURE`, the result where the file cannot be opened.
abbrev pub exit_failure : ℤ
exit_failure = pos 1

cached : ℤ → Cache → Run (Cache × ℤ)
cached (pos n) c = ran (c, get_or c.syscall_cache n (pos 0))
cached (negsuc n) c = ran (c, negsuc 0)

-- `free_entries` is the text of the file, or `none` where it cannot be opened.
fetch : Option Bytes → Cache → ℤ → Run (Cache × ℤ)
unfolding cached
fetch none c n = ran (c, exit_failure)
fetch (some text) c n = elim (read_numbers c text) [ ran c' ↦ cached n c' | oops ↦ oops ]

abbrev is_number : ℤ → Bool
is_number (pos n) = leb n 2
is_number (negsuc n) = false

unfoldable pub get_syscal_number : Option Bytes → Cache → ℤ → Run (Cache × ℤ)
unfolding fetch cached
get_syscal_number free_entries c sys_number =
    if not (is_number sys_number)
    then ran (c, negsuc 0)
    else if c.empty
    then fetch free_entries c sys_number
    else cached sys_number c
