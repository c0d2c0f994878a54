-- ===== src/Log/Dirs.antt =====
-- molten_log.c: `mo_mkdir_recursive`.
use mathlib.Core.Path.{subst}
use mathlib.Core.List.{append_assoc, append-nil}
use molten.Common.{
  ℕ, suc, ◌+◌, ◌<◌, ◌≡◌, refl, ap, sym, ◌∙◌, ◌&&◌, Bool, true, false, Option, none, some, [], ◌∷◌,
  ◌++◌, Bytes, length, ltb, ◌==◌, if◌then◌else◌, Result, ok, fault, length-append, bytes_eq,
  bytes_eq_refl, arith,
}

-- The directories that there are, by the names they are asked for. The current directory and the root,
-- of which the name in front of the last slash is empty, are always there.
-- A name with two slashes in a row is not taken for the one with a single slash.
abbrev pub Dirs : Type 0
Dirs = Bytes → Bool

unfoldable pub slash : ℕ
slash = 47

abbrev pub path_max : ℕ
path_max = 4096

-- The name in front of the last slash, or the empty one: those that were passed, and the last such name.
unfoldable pub parent_from : Bytes → Bytes → Bytes → Bytes
parent_from passed last [] = last
parent_from passed last (c ∷ rest) =
    parent_from (passed ++ (c ∷ [])) (if c == slash then passed else last) rest

abbrev pub parent : Bytes → Bytes
parent name = parent_from [] [] name

abbrev pub there : Dirs → Bytes → Bool
there dirs [] = true
there dirs (c ∷ rest) = dirs (c ∷ rest)

-- `mkdir`, which needs the directory that the new one is in; `may` tells where it is allowed.
unfoldable pub mkdir : (Bytes → Bool) → Bytes → Dirs → Option Dirs
mkdir may name dirs =
    if may name && there dirs (parent name)
    then some (λ other. if bytes_eq other name then true else dirs other)
    else none

-- `access`, and `mkdir` where there is no such directory; `none` is -1.
unfoldable pub make : (Bytes → Bool) → Bytes → Dirs → Option Dirs
make may name dirs = if dirs name then some dirs else mkdir may name dirs

abbrev pub and_then : Option Dirs → (Dirs → Option Dirs) → Option Dirs
and_then none next = none
and_then (some dirs) next = next dirs

-- The loop, at the character behind those that are given first.
unfoldable pub each_slash : (Bytes → Bool) → Bytes → Bytes → Dirs → Option Dirs
each_slash may before [] dirs = some dirs
each_slash may before (c ∷ rest) dirs =
    let next : Dirs → Option Dirs = λ dirs'. each_slash may (before ++ (c ∷ [])) rest dirs' in
    if c == slash then and_then (make may before dirs) next else next dirs

-- Whether the last character is a slash.
unfoldable pub ends_in_slash : ℕ → Bytes → Bool
ends_in_slash c [] = c == slash
ends_in_slash c (d ∷ rest) = ends_in_slash d rest

unfoldable pub with_slash : ℕ → Bytes → Bytes
with_slash c rest = if ends_in_slash c rest then rest else rest ++ (slash ∷ [])

-- `mo_mkdir_recursive`: `usable` says that the directory can be read and written. The empty name, of which
-- the byte before the first is read, and one that leaves no room for the slash in `tmp` are faults.
unfoldable pub mkdir_recursive : Bool → (Bytes → Bool) → Bytes → Dirs → Result (Option Dirs)
mkdir_recursive true may dir dirs = ok (some dirs)
mkdir_recursive false may [] dirs = fault
mkdir_recursive false may (c ∷ rest) dirs =
    if ltb (suc (length (with_slash c rest))) path_max
    then ok (each_slash may (c ∷ []) (with_slash c rest) dirs)
    else fault

abbrev Made : Option Dirs → Bytes → Dirs → Type 0
Made made name dirs =
    (dirs' : Dirs) × (made ≡ some dirs')
    × (dirs' name ≡ true)
    × ((other : Bytes) → dirs other ≡ true → dirs' other ≡ true)

true_or : (b c : Bool) → c ≡ true → (if b then true else c) ≡ true
true_or true c h = refl
true_or false c h = h

if_same : (b : Bool) (name : Bytes) → (if b then name else name) ≡ name
if_same true name = refl
if_same false name = refl

there-kept : (dirs : Dirs) (name : Bytes) → dirs name ≡ true → there dirs name ≡ true
there-kept dirs [] h = refl
there-kept dirs (c ∷ rest) h = h

-- The name in front of the last slash when a character is added.
parent_from-add :
    (passed last name : Bytes) (c : ℕ)
    → parent_from passed last (name ++ (c ∷ []))
      ≡ (if c == slash then passed ++ name else parent_from passed last name)
unfolding parent_from
parent_from-add passed last [] c =
    ap (λ x. if c == slash then x else last) (sym (append-nil passed))
parent_from-add passed last (d ∷ name) c =
    let next = if d == slash then passed else last in
    parent_from-add (passed ++ (d ∷ [])) next name c
    ∙ ap (λ x. if c == slash then x else parent_from (passed ++ (d ∷ [])) next name)
        (append_assoc passed (d ∷ []) name)

module _ (may : Bytes → Bool) (allowed : (name : Bytes) → may name ≡ true) where
  mkdir-Made :
      (name : Bytes) (dirs : Dirs)
      → there dirs (parent name) ≡ true
      → Made (mkdir may name dirs) name dirs
  unfolding mkdir
  mkdir-Made name dirs h =
      rw (allowed name, h)
        (
          (λ other. if bytes_eq other name then true else dirs other),
          refl,
          (rw (bytes_eq_refl name) refl),
          λ other h. true_or (bytes_eq other name) (dirs other) h,
        )

  make-case :
      (b : Bool) (name : Bytes) (dirs : Dirs)
      → dirs name ≡ b
      → there dirs (parent name) ≡ true
      → Made (if b then some dirs else mkdir may name dirs) name dirs
  make-case true name dirs e h = (dirs, refl, e, λ other h. h)
  make-case false name dirs e h = mkdir-Made name dirs h

  make-Made :
      (name : Bytes) (dirs : Dirs)
      → there dirs (parent name) ≡ true
      → Made (make may name dirs) name dirs
  unfolding make
  make-Made name dirs h = make-case (dirs name) name dirs refl h

  slash_case :
      (b : Bool) (before name front : Bytes) (dirs : Dirs) (next : Dirs → Option Dirs)
      → front ≡ (if b then before else parent before)
      → there dirs (parent before) ≡ true
      → ((dirs' : Dirs) → there dirs' front ≡ true → Made (next dirs') name dirs')
      → Made (if b then and_then (make may before dirs) next else next dirs) name dirs
  slash_case false before name front dirs next e h go = go dirs (ap (there dirs) e ∙ h)
  slash_case true before name front dirs next e h go =
      let (dirs1, made, at, kept) = make-Made before dirs h in
      let (dirs2, e', at', kept') = go dirs1 (ap (there dirs1) e ∙ there-kept dirs1 before at) in
      (dirs2, ap (λ o. and_then o next) made ∙ e', at', λ other h. kept' other (kept other h))

  each_slash-Made :
      (before rest : Bytes) (dirs : Dirs)
      → there dirs (parent before) ≡ true
      → Made (each_slash may before (rest ++ (slash ∷ [])) dirs) (before ++ rest) dirs
  unfolding each_slash slash
  each_slash-Made before [] dirs h =
      let (dirs1, e, at, kept) = make-Made before dirs h in
      (dirs1, ap (λ o. and_then o some) e, ap dirs1 (append-nil before) ∙ at, kept)
  each_slash-Made before (c ∷ rest) dirs h =
      slash_case (c == slash) before (before ++ (c ∷ rest)) (parent (before ++ (c ∷ []))) dirs _
        (parent_from-add [] [] before c) h
        (λ dirs' h'.
          subst
            (λ name.
              Made (each_slash may (before ++ (c ∷ [])) (rest ++ (slash ∷ [])) dirs') name dirs')
            (append_assoc before (c ∷ []) rest)
            (each_slash-Made (before ++ (c ∷ [])) rest dirs' h'))

first-there : (c : ℕ) (dirs : Dirs) → there dirs (parent (c ∷ [])) ≡ true
unfolding parent_from
first-there c dirs = ap (there dirs) (if_same (c == slash) [])

-- A directory that is not usable, whose name has between 1 and 4094 characters and does not end in a
-- slash: if `mkdir`, which needs the directory that the new one is in, is
-- otherwise allowed everywhere, then the function succeeds, the directory exists, and so does
-- every directory that existed before.
pub mkdir_recursive-made :
    (may : Bytes → Bool) (c : ℕ) (rest : Bytes) (dirs : Dirs)
    → ((name : Bytes) → may name ≡ true)
    → ends_in_slash c rest ≡ false
    → suc (length rest) + 1 < path_max
    → (dirs' : Dirs) × (mkdir_recursive false may (c ∷ rest) dirs ≡ ok (some dirs'))
      × (dirs' (c ∷ rest) ≡ true)
      × ((other : Bytes) → dirs other ≡ true → dirs' other ≡ true)
unfolding mkdir_recursive with_slash
mkdir_recursive-made may c rest dirs allowed plain short =
    let (dirs', e, at, kept) =
      each_slash-Made may allowed (c ∷ []) rest dirs (first-there c dirs) in
    let len = length-append rest (slash ∷ []) in
    let fits : ltb (suc (length (rest ++ (slash ∷ [])))) path_max ≡ true = ground (arith, len) in
    (dirs', rw (plain, fits) (ap ok e), at, kept)
