-- ===== src/RdmaSim/Errno.antt =====
-- The error numbers that the library returns, and results that carry one.
pub data Errno : Type 0 where
  einval enotconn enomem efault enosys enoent etimedout emsgsize : Errno

-- `ok` is the return value 0.
pub data Result (A : Type 0) : Type 0 where
  ok : A → Result A
  err : Errno → Result A
