-- ===== src/Tests/Protects.antt =====
-- An addition and an open after it.
use aos_project.Base.{Bool, refl}
use aos_project.Syscalls.{Monitor}
use aos_project.Syscalls.Effect.{with_entry}
use aos_project.Tests.Fixtures.{kernel, empty_monitor, secret, file}
use aos_project.Tests.Calls.{typed, secret-MayChange, file-Target}

abbrev protected : Monitor Bool
protected =
    with_entry kernel empty_monitor secret typed file 7
      (secret-MayChange empty_monitor refl refl refl) (file-Target empty_monitor refl) 70
