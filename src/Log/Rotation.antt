-- ===== src/Log/Rotation.antt =====
-- molten_log.c: the file that a flush goes to, and what a short write does to it.
use molten.Common.{
  ℕ, ◌<◌, ◌≡◌, refl, ap, sym, ◌∙◌, Bool, true, false, Option, none, some, [], Bytes, length, ltb,
  ◌==◌, if◌then◌else◌, ok, ◌>>=◌, arith,
}
use molten.Ids.{sprintf}
use molten.Log.File.{
  Disk, LogFile, Now, path_of, check_file, check_inode, close_log_fd, same_day, change_day,
  generate_log_path,
}

-- What stands under a name; nothing, where there is no such file.
abbrev pub text_at : Option ℕ → Disk → Bytes
text_at none disk = []
text_at (some i) disk = disk.content i

-- The name is that of the day remembered, and the inode that of the open file.
pub record Tracked (date_of : ℕ → Bytes) (log : LogFile) : Type 0 where
  pub named : (d : ℕ) → log.tm_yday ≡ some d → log.real_path ≡ path_of log.path (date_of d)
  pub opened : (i : ℕ) → log.fd ≡ some i → log.ino ≡ i

-- The file is closed, or it is the one under the name.
abbrev pub Live : Option ℕ → LogFile → Disk → Type 0
Live fd log disk = (i : ℕ) → fd ≡ some i → (disk.inode_of log.real_path ≡ some i) × (log.ino ≡ i)

none_or_some {ℓ} : {A : Type ℓ} {a : A} → none ≡ some a → ⊥
none_or_some e = cc

pub some_inj {ℓ} : {A : Type ℓ} {a b : A} → some a ≡ some b → a ≡ b
some_inj {a} e = ap (λ o. elim o [ none ↦ a | some x ↦ x ]) e

same_inode : (i j : ℕ) → (i == j) ≡ true → i ≡ j
same_inode i j h = ground arith

inode_case :
    (b : Bool) (k fd : ℕ) (log : LogFile) (disk : Disk)
    → log.fd ≡ some fd
    → log.ino ≡ fd
    → disk.inode_of log.real_path ≡ some k
    → (k == log.ino) ≡ b
    → (f : Option ℕ) × ((if b then log else close_log_fd log) ≡ record log { fd = f })
      × Live f log disk
inode_case false k fd log disk e n at same = (none, refl, λ i h. absurd (none_or_some h))
inode_case true k fd log disk e n at same = (
  log.fd,
  refl,
  λ i h.
      let fd_i : fd ≡ i = some_inj (sym e ∙ h) in
      (at ∙ ap some (same_inode k log.ino same ∙ n ∙ fd_i), n ∙ fd_i),
)

check_inode-Live :
    (o : Option ℕ) (fd : ℕ) (log : LogFile) (disk : Disk)
    → log.fd ≡ some fd
    → log.ino ≡ fd
    → disk.inode_of log.real_path ≡ o
    → (f : Option ℕ) × (check_inode o log ≡ record log { fd = f }) × Live f log disk
check_inode-Live none fd log disk e n at = (none, refl, λ i h. absurd (none_or_some h))
check_inode-Live (some k) fd log disk e n at = inode_case (k == log.ino) k fd log disk e n at refl

check_file-Live :
    (o : Option ℕ) (log : LogFile) (disk : Disk)
    → log.fd ≡ o
    → ((i : ℕ) → log.fd ≡ some i → log.ino ≡ i)
    → (f : Option ℕ) × (check_file o disk log ≡ record log { fd = f }) × Live f log disk
check_file-Live none log disk e opened = (log.fd, refl, λ i h. absurd (none_or_some (sym e ∙ h)))
check_file-Live (some fd) log disk e opened =
    check_inode-Live (disk.inode_of log.real_path) fd log disk e (opened fd e) refl

-- The file of the day: its name, and that it is closed or under that name.
pub record Ready (date_of : ℕ → Bytes) (now : Now) (disk : Disk) (path : Bytes) (log : LogFile)
    : Type 0 where
  pub name : log.real_path ≡ path_of path (date_of now.yday)
  pub own : log.path ≡ path
  pub day : log.tm_yday ≡ some now.yday
  pub live : Live log.fd log disk

sprintf-short : (s : Bytes) → length s < 128 → sprintf 128 s ≡ ok s
unfolding sprintf
sprintf-short s h = let yes : ltb (length s) 128 ≡ true = ground arith in rw yes refl

same_day-some : (o : Option ℕ) (d : ℕ) → same_day o d ≡ true → o ≡ some d
same_day-some none d h = cc
same_day-some (some e) d h = ap some (sym (same_inode d e h))

day_case :
    (b : Bool) (date_of : ℕ → Bytes) (now : Now) (log : LogFile) (disk : Disk) (f : Option ℕ)
    → Tracked date_of log
    → now.date ≡ date_of now.yday
    → length (path_of log.path now.date) < 128
    → Live f log disk
    → same_day log.tm_yday now.yday ≡ b
    → (log' : LogFile) × (change_day b now (record log { fd = f }) ≡ ok log')
      × Ready date_of now disk log.path log'
day_case true date_of now log disk f t date short live same =
    let day = same_day-some log.tm_yday now.yday same in
    (
      record log { fd = f },
      refl,
      record { name = t.named now.yday day; own = refl; day = day; live = live },
    )
day_case false date_of now log disk f t date short live same = (
  record log { real_path = path_of log.path now.date; tm_yday = some now.yday; fd = none },
  ap (λ r. r >>= λ name. ok (record log { real_path = name; tm_yday = some now.yday; fd = none }))
      (sprintf-short (path_of log.path now.date) short),
  record {
    name = ap (path_of log.path) date;
    own = refl;
    day = refl;
    live = λ i h. absurd (none_or_some h);
  },
)

pub generate_log_path-Ready :
    (date_of : ℕ → Bytes) (now : Now) (log : LogFile) (disk : Disk)
    → Tracked date_of log
    → now.date ≡ date_of now.yday
    → length (path_of log.path now.date) < 128
    → (log' : LogFile) × (generate_log_path now disk log ≡ ok log')
      × Ready date_of now disk log.path log'
unfolding generate_log_path
generate_log_path-Ready date_of now log disk t date short =
    let (f, checked, live) = check_file-Live log.fd log disk refl t.opened in
    let (log', e, ready) =
      day_case (same_day log.tm_yday now.yday) date_of now log disk f t date short live refl in
    (log', ap (change_day (same_day log.tm_yday now.yday) now) checked ∙ e, ready)
