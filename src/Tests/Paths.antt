-- ===== src/Tests/Paths.antt =====
-- Runs of the path solver and of the digest.
use aos_project.Base.{refl, [], ◌∷◌}
use aos_project.CString.{Bytes, same}
use aos_project.Kernel.{Kernel, found}
use aos_project.Hash.{HashReady}
use aos_project.Tests.Fixtures.{file, kernel}
use aos_project.PathSolver.Absolute.{Resolves}

-- "f"
abbrev base : Bytes
base = b'f' ∷ []

file-Resolves : Resolves kernel file file
unfolding same
file-Resolves = record { dentry = 7; lookup = refl; memory = refl; raw = refl }

-- The kernel where a short alias leads to the file.
abbrev alias_kernel : Kernel
alias_kernel = record kernel { kern_path = λ p. found 7 }

abbrev pub kernel-HashReady : HashReady kernel
kernel-HashReady = record {
  salted = refl;
  desc = refl;
  alloc = refl;
  init = refl;
  update = λ s. refl;
  final = refl;
}
