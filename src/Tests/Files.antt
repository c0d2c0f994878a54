-- ===== src/Tests/Files.antt =====
-- The log file at concrete inputs.
use molten.Common.{
  ℕ, ◌≡◌, ◌<◌, ◌≤◌, ◌*◌, refl, ap, true, false, none, some, [], ◌∷◌, ◌++◌, Bytes, codes, decimal,
  arith, ok, take,
}
use molten.Log.File.{Disk, LogFile, path_of, flush_log_to_fd, write_file}
use molten.Log.Rotation.{Tracked}
use molten.Log.Written.{Grown, write_file-Grown}
use molten.Log.Short.{
  returned, is_answer, some_ends, text_of, flush_log_to_fd-returned, flush_log_to_fd-short,
}
use molten.Log.Dirs.{mkdir_recursive, ends_in_slash, slash, Dirs, mkdir_recursive-made}

abbrev no_files : Disk
no_files = record { inode_of = λ name. none; content = λ i. []; next = 7 }

-- The log wrote on day 3, its file has been renamed since, and now it is day 4.
abbrev log_of_day : LogFile
log_of_day = record {
  path = codes "/l/";
  real_path = path_of (codes "/l/") (decimal 3);
  tm_yday = some 3;
  fd = some 5;
  ino = 5;
}

log_of_day-Tracked : Tracked decimal log_of_day
log_of_day-Tracked = record {
  named = λ d h. ap (λ o. elim o [ none ↦ [] | some k ↦ path_of (codes "/l/") (decimal k) ]) h;
  opened = λ i h. ap (λ o. elim o [ none ↦ 5 | some k ↦ k ]) h;
}

write_file-Grown_example :
    (i : ℕ) × (log' : LogFile) × (disk' : Disk) × (write_file true true
        (some 2 ∷ [])
        (record { yday = 4; date = decimal 4 })
        (codes "ab")
        log_of_day
        no_files
      ≡ ok (some (log', disk')))
    × (disk'.inode_of (path_of (codes "/l/") (decimal 4)) ≡ some i)
    × Grown i [] (codes "ab") no_files disk'
    × (log'.path ≡ codes "/l/")
    × Tracked decimal log'
unfolding decimal
write_file-Grown_example =
    write_file-Grown decimal [] (record { yday = 4; date = decimal 4 }) (codes "ab") log_of_day
      no_files log_of_day-Tracked refl (omega arith) (omega arith)

flush_log_to_fd-returned_example :
    returned (flush_log_to_fd (some 1 ∷ some 2 ∷ []) 5 (codes "abc") no_files)
    ≡ some_ends 3 (some 1 ∷ some 2 ∷ [])
unfolding is_answer
flush_log_to_fd-returned_example =
    flush_log_to_fd-returned (some 1 ∷ some 2 ∷ []) 5 (codes "abc") no_files (refl, (refl, tt))
      (omega arith)

flush_log_to_fd-short_example :
    (2 * 1 < 3
      → text_of (flush_log_to_fd (some 1 ∷ some 3 ∷ []) 5 (codes "abc") no_files) 5
        ≡ some ([] ++ take 1 (codes "abc") ++ codes "abc"))
    × (3 ≤ 2 * 1
        → text_of (flush_log_to_fd (some 1 ∷ []) 5 (codes "abc") no_files) 5
          ≡ some ([] ++ take 1 (codes "abc")))
flush_log_to_fd-short_example =
    flush_log_to_fd-short 1 [] 5 (codes "abc") no_files (omega arith) (omega arith)

mkdir_recursive-made_example :
    (dirs' : Dirs) × (mkdir_recursive false (λ name. true) (codes "/a/b") (λ name. false)
      ≡ ok (some dirs'))
    × (dirs' (codes "/a/b") ≡ true)
    × ((other : Bytes) → false ≡ true → dirs' other ≡ true)
unfolding ends_in_slash slash
mkdir_recursive-made_example =
    mkdir_recursive-made (λ name. true) 47 (codes "a/b") (λ name. false) (λ name. refl) refl
      (omega arith)
