-- ===== src/Errno.antt =====
-- The errno values of Darwin's <sys/errno.h> that the program names.
use luna_os_arm.Prelude.{ℕ}

abbrev pub perm : ℕ
perm = 1

abbrev pub io : ℕ
io = 5

abbrev pub nxio : ℕ
nxio = 6

abbrev pub nomem : ℕ
nomem = 12

abbrev pub inval : ℕ
inval = 22

abbrev pub notty : ℕ
notty = 25

abbrev pub notsup : ℕ
notsup = 45
