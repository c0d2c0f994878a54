-- ===== src/Record/Args.antt =====
-- The arguments of a call as one short text: repr_zval of molten_util.c and convert_args_to_string of
-- molten_intercept.c, with the buffer that it is written to.
use molten.Common.{
  ℕ, ◌+◌, ◌-◌, ◌≤◌, ◌<◌, ◌≡◌, refl, sym, ◌∙◌, ap, Bool, true, false, Option, none, some, List, [],
  ◌∷◌, ◌++◌, Bytes, codes, c_string, length-c_string-le, decimal, decimal_ℤ, length, take,
  length-take, length-append, take-append, take-take, take-all, lt→ltb, if◌then◌else◌, ltb, leb,
  ◌==◌, arith, Result, ok, fault, ◌>>=◌, Bool-cases, inl, inr,
}
use molten.Zval.{Zval, long, double, boolean, string, array, null, object, resource, values}
use molten.Record.Engine.{Engine}

-- `snprintf` into the buffer of 256 bytes.
abbrev pub printed : Bytes → Bytes
printed s = take 255 (c_string s)

abbrev pub type_name : Option Bytes → Bytes
type_name none = codes "Unknown"
type_name (some name) = name

-- `repr_zval`, as PHP 7 has it, with a limit that is not 0.
unfoldable pub repr_zval : Engine → Zval → ℕ → Bytes
repr_zval php (boolean true) limit = codes "true"
repr_zval php (boolean false) limit = codes "false"
repr_zval php null limit = codes "NULL"
repr_zval php (long n) limit = decimal_ℤ n
repr_zval php (double n) limit = printed (php.print_double n)
repr_zval php (string s) limit =
    if ltb (length s) limit
    then s
    else take limit s ++ (if ltb limit (length s) then codes "..." else [])
repr_zval php (array a) limit = codes "array(" ++ decimal (length (values a)) ++ codes ")"
repr_zval php (object h) limit =
    printed (codes "object(" ++ php.class_of h ++ codes ")#" ++ decimal h)
repr_zval php (resource r) limit =
    printed (codes "resource(" ++ type_name (php.resource_type r) ++ codes ")#" ++ decimal_ℤ r)

-- `ARGS_MAX_LEN` and `ARGS_REAL_LEN`
abbrev pub args_max_len : ℕ
args_max_len = 64

abbrev pub args_real_len : ℕ
args_real_len = 60

-- `strncat` to the buffer of `args_max_len` bytes, which holds `buf`, of as many bytes as the length says.
unfoldable pub strncat : Bytes → Bytes → Result Bytes
strncat buf s = if ltb (length buf + length s) args_max_len then ok (buf ++ s) else fault

-- The source without a length: up to its NUL, which must be there.
unfoldable pub up_to_nul : Bytes → Result Bytes
up_to_nul [] = fault
up_to_nul (c ∷ s) = if c == 0 then ok [] else (do rest ← up_to_nul s; ok (c ∷ rest))

-- The text of an argument that does not fit. A length below 0 is no limit for `strncat`; the text has no
-- NUL behind it.
unfoldable pub cut_short : Bytes → ℕ → Bytes → Result Bytes
cut_short buf arg_len tmp =
    if ltb arg_len args_real_len
    then strncat buf (take (args_real_len - arg_len - 1) (c_string tmp))
    else (do s ← up_to_nul tmp; strncat buf s)

-- The loop over the arguments: whether it stopped, and the buffer.
unfoldable pub convert_loop : Engine → Bytes → ℕ → List Zval → Result (Bool × Bytes)
convert_loop php buf arg_len [] = ok (false, buf)
convert_loop php buf arg_len (zv ∷ more) =
    let tmp = repr_zval php zv 32 in
    let real_len = length tmp + 1 in
    let rest = strncat buf (c_string tmp) >>= λ b.
    strncat b (codes ",") >>= λ b'. convert_loop php b' (arg_len + real_len) more in
    if leb args_real_len (arg_len + real_len)
    then (cut_short buf arg_len tmp >>= λ b. ok (true, b))
    else rest

abbrev pub ellipsis : Bool × Bytes → Result Bytes
ellipsis (false, buf) = ok buf
ellipsis (true, buf) = do b ← strncat buf (codes "..."); ok (take (args_max_len - 1) b)

-- `convert_args_to_string`; the first length is -1, so the whole name of the function is copied.
unfoldable pub convert_args_to_string : Engine → Bytes → List Zval → Result Bytes
convert_args_to_string php function args = do
  name ← strncat [] function
  buf ← strncat name (codes " ")
  r ← convert_loop php buf (length function + 1) args
  ellipsis r

strncat-fits :
    (buf s : Bytes) → length buf + length s < args_max_len → strncat buf s ≡ ok (buf ++ s)
unfolding strncat
strncat-fits buf s h = ground arith

strncat-full : (buf s : Bytes) → args_max_len ≤ length buf + length s → strncat buf s ≡ fault
unfolding strncat
strncat-full buf s h = ground arith

-- What starts with a longer text starts with a shorter one.
starts : (xs ys zs : Bytes) → take (length (xs ++ ys)) zs ≡ xs ++ ys → take (length xs) zs ≡ xs
starts xs ys zs h =
    sym (take-take (length xs) (length (xs ++ ys)) zs (omega (arith, length-append xs ys)))
    ∙ ap (take (length xs)) h
    ∙ take-append (length xs) xs ys refl

-- What the loop gives: less than `args_real_len` bytes, which start with `buf`.
abbrev Extends : Bytes → Result (Bool × Bytes) → Type 0
Extends buf m =
    (stop : Bool) × (s : Bytes) × (m ≡ ok (stop, s))
    × (length s < args_real_len)
    × (take (length buf) s ≡ buf)

cut_short-fits :
    (buf : Bytes) (arg_len : ℕ) (tmp : Bytes)
    → length buf ≤ arg_len
    → arg_len < args_real_len
    → cut_short buf arg_len tmp ≡ ok (buf ++ take (args_real_len - arg_len - 1) (c_string tmp))
unfolding cut_short
cut_short-fits buf arg_len tmp inside small =
    let part = take (args_real_len - arg_len - 1) (c_string tmp) in
    rw (lt→ltb arg_len args_real_len small) (
      strncat-fits buf part
        (omega (arith, length-take (args_real_len - arg_len - 1) (c_string tmp))))

-- The buffer is no longer than the count of it, which stays below `args_real_len`.
convert_loop-fits :
    (php : Engine) (buf : Bytes) (arg_len : ℕ) (args : List Zval)
    → length buf ≤ arg_len
    → arg_len < args_real_len
    → Extends buf (convert_loop php buf arg_len args)
unfolding convert_loop
convert_loop-fits php buf arg_len [] inside small =
    (false, buf, refl, omega arith, take-all _ buf (omega arith))
convert_loop-fits php buf arg_len (zv ∷ more) inside small =
    let tmp = repr_zval php zv 32 in
    let text = c_string tmp in
    elim (Bool-cases (leb args_real_len (arg_len + (length tmp + 1)))) [
      | inl full ↦
          let k = args_real_len - arg_len - 1 in
          rw (full, cut_short-fits buf arg_len tmp inside small)
            (
              true,
              buf ++ take k text,
              refl,
              omega (arith, length-append buf (take k text), length-take k text),
              take-append (length buf) buf (take k text) refl,
            )
      | inr fits ↦
          let room : arg_len + (length tmp + 1) < args_real_len = ground arith in
          let next = (buf ++ text) ++ codes "," in
          let len : length next ≡ length buf + length text + 1 =
            omega (arith, length-append (buf ++ text) (codes ","), length-append buf text) in
          let short : length text ≤ length tmp = length-c_string-le tmp in
          let (stop, s, e, below, start) =
            convert_loop-fits php next (arg_len + (length tmp + 1)) more (omega arith) room in
          rw
            (
              fits,
              strncat-fits buf text (omega arith),
              strncat-fits (buf ++ text) (codes ",") (omega (arith, length-append buf text)),
            )
            (stop, s, e, below, starts buf text s (starts (buf ++ text) (codes ",") s start))
    ]

ellipsis-fits :
    (stop : Bool) (s : Bytes)
    → length s < args_real_len
    → (r : Bytes) × (ellipsis (stop, s) ≡ ok r)
      × (length r < args_max_len - 1)
      × (take (length s) r ≡ s)
ellipsis-fits false s h = (s, refl, omega arith, take-all _ s (omega arith))
ellipsis-fits true s h =
    let len : length (s ++ codes "...") ≡ length s + 3 = length-append s (codes "...") in
    (
      s ++ codes "...",
      rw (strncat-fits s (codes "...") (omega arith))
          (ap ok (take-all 63 (s ++ codes "...") (omega arith))),
      omega arith,
      take-append (length s) s (codes "...") refl,
    )

-- Where the name of the function has at most 58 bytes, the text of a call is made without a write
-- outside its buffer, whatever the arguments are; it has at most 62 bytes and starts with the name and a
-- space.
pub convert_args_to_string-fits :
    (php : Engine) (function : Bytes) (args : List Zval)
    → length function ≤ 58
    → (s : Bytes) × (convert_args_to_string php function args ≡ ok s)
      × (length s ≤ 62)
      × (take (length function + 1) s ≡ function ++ codes " ")
unfolding convert_args_to_string
convert_args_to_string-fits php function args small =
    let name = function ++ codes " " in
    let len : length name ≡ length function + 1 = length-append function (codes " ") in
    let (stop, s, e, below, start) =
      convert_loop-fits php name (length function + 1) args (omega arith) (omega arith) in
    let (r, e', short, keeps) = ellipsis-fits stop s below in
    let grown : length name ≤ length s =
      omega (arith, ap length start, length-take (length name) s) in
    (
      r,
      rw
          (
            strncat-fits [] function (omega arith),
            strncat-fits function (codes " ") (omega arith),
            e,
          )
          e',
      omega arith,
      ap (λ n. take n r) (sym len)
          ∙ sym (take-take (length name) (length s) r grown)
          ∙ ap (take (length name)) keeps
          ∙ start,
    )

-- A name of 63 bytes or more, by contrast, makes the first copies write behind the buffer.
pub convert_args_to_string-overflow :
    (php : Engine) (function : Bytes) (args : List Zval)
    → 63 ≤ length function
    → convert_args_to_string php function args ≡ fault
unfolding convert_args_to_string
convert_args_to_string-overflow php function args big =
    elim (Bool-cases (ltb (length function) args_max_len)) [
      | inl e ↦
          rw
            (
              strncat-fits [] function (ground arith),
              strncat-full function (codes " ") (omega arith),
            )
            refl
      | inr e ↦ rw (strncat-full [] function (ground arith)) refl
    ]
