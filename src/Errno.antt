-- ===== src/Errno.antt =====
-- The error numbers and the `int` results of the system calls: `-EBADF` is `err ebadf`.
use exscape_os.Prelude.{ℕ}

pub data Errno : Type 0 where
  ebadf emfile enfile epipe eacces efault enotdir eperm espipe erange eloop einval : Errno

-- What a call returns: a number that is not negative, or an error number negated.
pub data Ret : Type 0 where
  ok : ℕ → Ret
  err : Errno → Ret
