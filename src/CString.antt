-- ===== src/CString.antt =====
-- C strings: the calls of `string.h` that the sources make, over lists of bytes. A buffer is the
-- list of all its bytes, and `c_string` is what stands before its first NUL.
mod Compare
mod Buffers
unfoldable pub use Compare.*
unfoldable pub use Buffers.*
