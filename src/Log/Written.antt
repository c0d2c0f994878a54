-- ===== src/Log/Written.antt =====
-- molten_log.c: `mo_log_write` for SINK_LOG puts the text at the end of the day's file.
use mathlib.Core.Path.{subst}
use molten.Common.{
  ℕ, ◌+◌, ◌^◌, ◌<◌, ◌≡◌, ◌≢◌, refl, ap, sym, ◌∙◌, true, false, Option, none, some, List, [], ◌∷◌,
  ◌++◌, Bytes, length, take-all, ltb, leb, ◌==◌, ok, ◌>>=◌, bytes_eq_refl, arith,
}
use molten.Log.File.{
  Disk, LogFile, Now, path_of, append_to, again, flush_log_to_fd, created, opened_at, open_log,
  with_log, flush_opened, flush_log, write_file,
}
use molten.Log.Rotation.{text_at, Tracked, Live, generate_log_path-Ready, some_inj}

again-all : (n : ℕ) → n < 2 ^ 30 → again n n ≡ false
again-all n h =
    let small : leb (2 ^ 31) (n + n) ≡ false = ground arith in
    let done : ltb (n + n) n ≡ false = ground arith in rw (small, done) refl

flush_log_to_fd-all :
    (answers : List (Option ℕ)) (i : ℕ) (bytes : Bytes) (disk : Disk)
    → length bytes < 2 ^ 30
    → flush_log_to_fd (some (length bytes) ∷ answers) i bytes disk ≡ some (append_to i bytes disk)
unfolding flush_log_to_fd
flush_log_to_fd-all answers i bytes disk small =
    rw (again-all (length bytes) small, take-all (length bytes) bytes (omega arith)) refl

-- What a write to an inode leaves: the text at its end, and nothing else changed.
pub record Grown (i : ℕ) (old bytes : Bytes) (disk disk' : Disk) : Type 0 where
  pub text : disk'.content i ≡ old ++ bytes
  pub others : (j : ℕ) → j ≢ i → disk'.content j ≡ disk.content j

append_to-Grown :
    (i : ℕ) (bytes : Bytes) (disk : Disk)
    → Grown i (disk.content i) bytes disk (append_to i bytes disk)
append_to-Grown i bytes disk = record {
  text = let same : (i == i) ≡ true = ground arith in rw same refl;
  others = λ j h. let other : (j == i) ≡ false = ground arith in rw other refl;
}

abbrev Wrote : List (Option ℕ) → Bytes → LogFile × Disk → LogFile → Disk → Type 0
Wrote answers bytes opened log disk =
    (i : ℕ) × (disk' : Disk) × (flush_log answers bytes opened
      ≡ some (record log { fd = some i; ino = i }, disk'))
    × (disk'.inode_of log.real_path ≡ some i)
    × Grown i (text_at (disk.inode_of log.real_path) disk) bytes disk disk'

created-Grown :
    (bytes : Bytes) (name : Bytes) (disk : Disk)
    → Grown disk.next [] bytes disk (append_to disk.next bytes (created none name disk).1)
created-Grown bytes name disk =
    let disk1 = (created none name disk).1 in
    let grown = append_to-Grown disk.next bytes disk1 in
    let same : (disk.next == disk.next) ≡ true = ground arith in
    record {
      text = grown.text ∙ (rw same refl);
      others = λ j h.
          let other : (j == disk.next) ≡ false = ground arith in grown.others j h ∙ (rw other refl);
    }

module _ (answers : List (Option ℕ)) (bytes : Bytes) (small : length bytes < 2 ^ 30) (log : LogFile)
    (disk : Disk) where
  opened-Wrote :
      (o : Option ℕ)
      → disk.inode_of log.real_path ≡ o
      → Wrote
          (some (length bytes) ∷ answers)
          bytes
          (opened_at (created o log.real_path disk) log)
          log
          disk
  opened-Wrote none at =
      let disk1 = (created none log.real_path disk).1 in
      (
        disk.next,
        append_to disk.next bytes disk1,
        ap (with_log (record log { fd = some disk.next; ino = disk.next }))
            (flush_log_to_fd-all answers disk.next bytes disk1 small),
        rw (bytes_eq_refl log.real_path) refl,
        rw at (created-Grown bytes log.real_path disk),
      )
  opened-Wrote (some i) at = (
    i,
    append_to i bytes disk,
    ap (with_log (record log { fd = some i; ino = i }))
        (flush_log_to_fd-all answers i bytes disk small),
    at,
    rw at (append_to-Grown i bytes disk),
  )

  open_log-Wrote :
      (o : Option ℕ)
      → log.fd ≡ o
      → Live o log disk
      → Wrote (some (length bytes) ∷ answers) bytes (open_log o true disk log) log disk
  open_log-Wrote none e live = opened-Wrote (disk.inode_of log.real_path) refl
  open_log-Wrote (some i) e live =
      let (at, ino) = live i refl in
      (
        i,
        append_to i bytes disk,
        ap (λ o. flush_opened (some (length bytes) ∷ answers) bytes o (log, disk)) e
            ∙ ap (with_log log) (flush_log_to_fd-all answers i bytes disk small)
            ∙ ap (λ l. some (l, append_to i bytes disk))
                (ap (λ n. record log { ino = n }) ino ∙ ap (λ o. record log { fd = o; ino = i }) e),
        at,
        rw at (append_to-Grown i bytes disk),
      )

-- `date_of` is the date of a day of the year. If the file's name is that of the day remembered, the inode
-- remembered is that of the open file, today's name is shorter than 128 bytes, the directory and the
-- file can be opened and the first `write` takes all of the text, which is shorter than 2 ^ 30 bytes: then
-- the write returns, the file under today's name holds what it held before (nothing, if it is a new file)
-- and behind it the text, no other file's content is changed, and the name and the inode are as before the
-- write, so that the next one goes as this. It is so also where the file was renamed or removed since.
pub write_file-Grown :
    (date_of : ℕ → Bytes) (answers : List (Option ℕ)) (now : Now) (bytes : Bytes) (log : LogFile)
    (disk : Disk)
    → Tracked date_of log
    → now.date ≡ date_of now.yday
    → length (path_of log.path now.date) < 128
    → length bytes < 2 ^ 30
    → (i : ℕ) × (log' : LogFile) × (disk' : Disk) × (write_file true true
          (some (length bytes) ∷ answers)
          now
          bytes
          log
          disk
        ≡ ok (some (log', disk')))
      × (disk'.inode_of (path_of log.path now.date) ≡ some i)
      × Grown i (text_at (disk.inode_of (path_of log.path now.date)) disk) bytes disk disk'
      × (log'.path ≡ log.path)
      × Tracked date_of log'
unfolding write_file
write_file-Grown date_of answers now bytes log disk t date short small =
    let (log1, e, ready) = generate_log_path-Ready date_of now log disk t date short in
    let (i, disk', wrote, at, grown) =
      open_log-Wrote answers bytes small log1 disk log1.fd refl ready.live in
    let name : log1.real_path ≡ path_of log.path now.date =
      ready.name ∙ ap (path_of log.path) (sym date) in
    (
      i,
      record log1 { fd = some i; ino = i },
      disk',
      ap
            (λ r. r >>= λ l.
              ok (flush_log (some (length bytes) ∷ answers) bytes (open_log l.fd true disk l)))
            e
          ∙ ap ok wrote,
      ap disk'.inode_of (sym name) ∙ at,
      subst (λ p. Grown i (text_at (disk.inode_of p) disk) bytes disk disk') name grown,
      ready.own,
      record {
        named = λ d h.
            ready.name
            ∙ ap (λ p. path_of p (date_of now.yday)) (sym ready.own)
            ∙ ap (λ k. path_of log1.path (date_of k)) (some_inj (sym ready.day ∙ h));
        opened = λ j h. some_inj h;
      },
    )
