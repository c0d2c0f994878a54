-- ===== src/Log/File.antt =====
-- The log file: `generate_log_path`, `flush_log_to_fd` and the part of `mo_log_write` for SINK_LOG, over the
-- files of the operating system.
use molten.Common.{
  ℕ, suc, ◌+◌, ◌^◌, Bool, true, false, Option, none, some, List, [], ◌∷◌, ◌++◌, Bytes, codes,
  bytes_eq, length, take, ltb, leb, ◌==◌, if◌then◌else◌, Result, ok, ◌>>=◌,
}
use molten.Ids.{sprintf}

-- The files: which inode stands under a name, what an inode holds, and the inode of the next new file.
pub record Disk : Type 0 where
  pub inode_of : Bytes → Option ℕ
  pub content : ℕ → Bytes
  pub next : ℕ

-- The fields of `mo_chain_log_t` for the file. `fd` is the inode that the descriptor was opened on, `none`
-- for -1; `tm_yday` is `none` for -1.
pub record LogFile : Type 0 where
  pub path : Bytes
  pub real_path : Bytes
  pub tm_yday : Option ℕ
  pub fd : Option ℕ
  pub ino : ℕ

-- The local time: the day of the year, and the date by `LOG_FORMAT`.
pub record Now : Type 0 where
  pub yday : ℕ
  pub date : Bytes

-- The fields as `mo_chain_log_ctor` sets them.
unfoldable pub ctor : Bytes → LogFile
ctor path = record { path = path; real_path = []; tm_yday = none; fd = none; ino = 0 }

-- `CLOSE_LOG_FD`
abbrev pub close_log_fd : LogFile → LogFile
close_log_fd log = record log { fd = none }

-- The checks that the open file still stands under its name.
abbrev pub check_inode : Option ℕ → LogFile → LogFile
check_inode none log = close_log_fd log
check_inode (some i) log = if i == log.ino then log else close_log_fd log

abbrev pub check_file : Option ℕ → Disk → LogFile → LogFile
check_file none disk log = log
check_file (some fd) disk log = check_inode (disk.inode_of log.real_path) log

-- `%s%s-%s.log` of the path, the prefix and the date
abbrev pub path_of : Bytes → Bytes → Bytes
path_of path date = path ++ codes "tracing" ++ codes "-" ++ date ++ codes ".log"

abbrev pub same_day : Option ℕ → ℕ → Bool
same_day none yday = false
same_day (some d) yday = yday == d

abbrev pub change_day : Bool → Now → LogFile → Result LogFile
change_day true now log = ok log
change_day false now log = do
  real_path ← sprintf 128 (path_of log.path now.date)
  ok (record log { real_path = real_path; tm_yday = some now.yday; fd = none })

-- `generate_log_path`
unfoldable pub generate_log_path : Now → Disk → LogFile → Result LogFile
generate_log_path now disk log =
    change_day (same_day log.tm_yday now.yday) now (check_file log.fd disk log)

-- `write` takes the first `n` bytes, to the end of the file.
abbrev pub append_to : ℕ → Bytes → Disk → Disk
append_to i s disk = record disk {
  content = λ j. if j == i then disk.content j ++ s else disk.content j;
}

-- `written_bytes < size` with the count doubled in an `int`, which wraps.
abbrev pub again : ℕ → ℕ → Bool
again n size = if leb (2 ^ 31) (n + n) then true else ltb (n + n) size

-- `flush_log_to_fd`, by what `write` answers, call by call: `none` is -1. Where the answers come to an
-- end before the loop does, it is still running: `none`. The count of the last write is doubled, and each
-- write starts at the first byte.
unfoldable pub flush_log_to_fd : List (Option ℕ) → ℕ → Bytes → Disk → Option Disk
flush_log_to_fd [] fd bytes disk = none
flush_log_to_fd (none ∷ answers) fd bytes disk = some disk
flush_log_to_fd (some n ∷ answers) fd bytes disk =
    let disk' = append_to fd (take n bytes) disk in
    let rest = flush_log_to_fd answers fd bytes disk' in
    if again n (length bytes) then rest else some disk'

-- `open` with O_CREAT and O_APPEND, which makes an empty file where there is none, and the inode that
-- `lstat` then tells.
abbrev pub created : Option ℕ → Bytes → Disk → ℕ × Disk
created (some i) name disk = (i, disk)
created none name disk = (
  disk.next,
  record disk {
    inode_of = λ other. if bytes_eq other name then some disk.next else disk.inode_of other;
    content = λ j. if j == disk.next then [] else disk.content j;
    next = suc disk.next;
  },
)

abbrev pub opened_at : ℕ × Disk → LogFile → LogFile × Disk
opened_at (i, disk) log = (record log { fd = some i; ino = i }, disk)

-- The opening, if there is no file open; `false` for an `open` that fails.
abbrev pub open_log : Option ℕ → Bool → Disk → LogFile → LogFile × Disk
open_log (some fd) can_open disk log = (log, disk)
open_log none true disk log =
    opened_at (created (disk.inode_of log.real_path) log.real_path disk) log
open_log none false disk log = (log, disk)

abbrev pub with_log : LogFile → Option Disk → Option (LogFile × Disk)
with_log log none = none
with_log log (some disk) = some (log, disk)

abbrev pub flush_opened :
    List (Option ℕ) → Bytes → Option ℕ → LogFile × Disk → Option (LogFile × Disk)
flush_opened answers bytes none (log, disk) = some (log, disk)
flush_opened answers bytes (some fd) (log, disk) =
    with_log log (flush_log_to_fd answers fd bytes disk)

abbrev pub flush_log : List (Option ℕ) → Bytes → LogFile × Disk → Option (LogFile × Disk)
flush_log answers bytes opened = flush_opened answers bytes opened.0.fd opened

-- `mo_log_write` for SINK_LOG, by what `mo_mkdir_recursive` returned and whether `open` is able to open.
unfoldable pub write_file :
    Bool → Bool → List (Option ℕ) → Now → Bytes → LogFile → Disk → Result (Option (LogFile × Disk))
write_file false can_open answers now bytes log disk = ok (some (log, disk))
write_file true can_open answers now bytes log disk = do
  log' ← generate_log_path now disk log
  ok (flush_log answers bytes (open_log log'.fd can_open disk log'))

-- `mo_log_write` for SINK_STD: the descriptor 1, which is given by its inode.
unfoldable pub write_std : List (Option ℕ) → ℕ → Bytes → LogFile → Disk → Option (LogFile × Disk)
write_std answers out bytes log disk =
    with_log (record log { fd = some out }) (flush_log_to_fd answers out bytes disk)
