-- ===== src/Hash.antt =====
-- reference-monitor/lib/reference_hash.c: salted SHA-512 digests in hexadecimal.
mod Digest
mod Hex
mod Salted
unfoldable pub use Digest.*
unfoldable pub use Hex.*
unfoldable pub use Salted.*
