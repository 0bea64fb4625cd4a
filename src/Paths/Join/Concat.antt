-- ===== src/Paths/Join/Concat.antt =====
-- `ccfs_path_concat` leaves the joined text in the buffer.
use ccore.Base.CString.{CString}
