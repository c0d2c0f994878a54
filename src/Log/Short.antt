-- ===== src/Log/Short.antt =====
-- molten_log.c: when the loop of `flush_log_to_fd` ends, and what it leaves after a short write.
use molten.Common.{
  ℕ, ◌+◌, ◌*◌, ◌^◌, ◌<◌, ◌≤◌, ◌≡◌, refl, ap, ◌∙◌, Bool, true, false, Option, none, some, List, [],
  ◌∷◌, ◌++◌, Bytes, length, take, take-all, ltb, leb, ◌==◌, if◌then◌else◌, All, arith,
}
use molten.Log.File.{Disk, append_to, again, flush_log_to_fd}

-- `write` has an error, or takes half of the size or more.
unfoldable pub ends : ℕ → Option ℕ → Bool
ends size none = true
ends size (some n) = leb size (2 * n)

unfoldable pub some_ends : ℕ → List (Option ℕ) → Bool
some_ends size [] = false
some_ends size (answer ∷ answers) = if ends size answer then true else some_ends size answers

abbrev pub returned {ℓ} : {A : Type ℓ} → Option A → Bool
returned none = false
returned (some a) = true

-- An answer of `write` is an error or at most the size.
unfoldable pub is_answer : ℕ → Option ℕ → Bool
is_answer size none = true
is_answer size (some n) = leb n size

again-ends : (n size : ℕ) → leb n size ≡ true → size < 2 ^ 30 → again n size ≡ ltb (n + n) size
again-ends n size h small = let no : leb (2 ^ 31) (n + n) ≡ false = ground arith in rw no refl

last_case :
    (b : Bool) (n size : ℕ) (rest : Option Disk) (disk : Disk) (more : List (Option ℕ))
    → ltb (n + n) size ≡ b
    → returned rest ≡ some_ends size more
    → returned (if ltb (n + n) size then rest else some disk)
      ≡ (if leb size (2 * n) then true else some_ends size more)
last_case false n size rest disk more e h =
    let yes : leb size (2 * n) ≡ true = ground arith in rw (e, yes) refl
last_case true n size rest disk more e h =
    let no : leb size (2 * n) ≡ false = ground arith in rw (e, no) h

-- If no answer of `write` is more than the size, which is less than 2 ^ 30: the loop returns with these
-- answers exactly if one of them is an error or at least half of the size. So it ends as soon as one write
-- takes half of the text, and as long as none does it goes on.
pub flush_log_to_fd-returned :
    (answers : List (Option ℕ)) (fd : ℕ) (bytes : Bytes) (disk : Disk)
    → All (λ a. is_answer (length bytes) a ≡ true) answers
    → length bytes < 2 ^ 30
    → returned (flush_log_to_fd answers fd bytes disk) ≡ some_ends (length bytes) answers
unfolding flush_log_to_fd some_ends ends is_answer
flush_log_to_fd-returned [] fd bytes disk all small = refl
flush_log_to_fd-returned (none ∷ answers) fd bytes disk all small = refl
flush_log_to_fd-returned (some n ∷ answers) fd bytes disk (a, all) small =
    let rest =
      flush_log_to_fd-returned answers fd bytes (append_to fd (take n bytes) disk) all small in
    rw (again-ends n (length bytes) a small)
      (last_case (ltb (n + n) (length bytes)) n (length bytes) _ _ answers refl rest)

abbrev pub text_of : Option Disk → ℕ → Option Bytes
text_of none fd = none
text_of (some disk) fd = some (disk.content fd)

append_to-own :
    (fd : ℕ) (s : Bytes) (disk : Disk) → (append_to fd s disk).content fd ≡ disk.content fd ++ s
append_to-own fd s disk = let same : (fd == fd) ≡ true = ground arith in rw same refl

-- A first `write` that takes `n` bytes of a text shorter than 2 ^ 30: if `n` is less than half of the
-- text and the next `write` takes all, then the file gets the first `n` bytes and behind them the whole
-- text; if `n` is at least half of the text, then the file gets the first `n` bytes only.
pub flush_log_to_fd-short :
    (n : ℕ) (answers : List (Option ℕ)) (fd : ℕ) (bytes : Bytes) (disk : Disk)
    → n ≤ length bytes
    → length bytes < 2 ^ 30
    → (2 * n < length bytes
        → text_of (flush_log_to_fd (some n ∷ some (length bytes) ∷ answers) fd bytes disk) fd
          ≡ some (disk.content fd ++ take n bytes ++ bytes))
      × (length bytes ≤ 2 * n
          → text_of (flush_log_to_fd (some n ∷ answers) fd bytes disk) fd
            ≡ some (disk.content fd ++ take n bytes))
unfolding flush_log_to_fd
flush_log_to_fd-short n answers fd bytes disk h small =
    let at_most : leb n (length bytes) ≡ true = ground arith in
    let all : leb (length bytes) (length bytes) ≡ true = ground arith in
    let disk1 = append_to fd (take n bytes) disk in
    (
      λ half.
          let go : ltb (n + n) (length bytes) ≡ true = ground arith in
          let stop : ltb (length bytes + length bytes) (length bytes) ≡ false = ground arith in
          rw
            (
              again-ends n (length bytes) at_most small,
              go,
              again-ends (length bytes) (length bytes) all small,
              stop,
              take-all (length bytes) bytes (omega arith),
            )
            (ap some (
              append_to-own fd bytes disk1
              ∙ ap (λ t. t ++ bytes) (append_to-own fd (take n bytes) disk))),
      λ half.
          let stop : ltb (n + n) (length bytes) ≡ false = ground arith in
          rw (again-ends n (length bytes) at_most small, stop)
            (ap some (append_to-own fd (take n bytes) disk)),
    )
