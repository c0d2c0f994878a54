-- ===== src/Report/Callback.antt =====
-- molten.c: `molten_error_cb`, which stands in the place of PHP's error callback.
use molten.Common.{
  ℕ, ◌-◌, ◌<◌, ◌≤◌, ◌≡◌, refl, ap, ◌∙◌, Bool, true, ◌&&◌, ◌||◌, ◌==◌, ltb, if◌then◌else◌, Option,
  some, List, [], ◌∷◌, ◌++◌, map, All, All-append, Bytes, codes, decimal, take, length,
  length-append, length-take, arith, Bool-cases, inl, inr,
}
use molten.Zval.{Zval, string}
use molten.Report.{RepError, Report, record_error}

-- An error: whether `error_handling` is EH_NORMAL, its type, file and line, and the text that its format
-- makes of its arguments.
pub record Error : Type 0 where
  pub normal : Bool
  pub type_of : ℕ
  pub filename : Bytes
  pub lineno : ℕ
  pub message : Bytes

-- E_ERROR, E_CORE_ERROR, E_USER_ERROR
unfoldable pub recorded_type : ℕ → Bool
recorded_type t = t == 1 || t == 16 || t == 256

abbrev pub error_head : Error → Bytes
error_head e =
    codes "type:"
    ++ decimal e.type_of
    ++ codes ", file:"
    ++ e.filename
    ++ codes ", line:"
    ++ decimal e.lineno
    ++ codes " "

-- `error_info` of 200 bytes: `snprintf` and `vslprintf` write as many as there is room for, with a NUL.
unfoldable pub error_info : Bytes → Bytes → Bytes
error_info head message =
    if ltb (length head) 199 then head ++ take (198 - length head) message else take 199 head

-- What the callback writes to: the errors of the chain and the report.
pub record Caught : Type 0 where
  pub error_list : List Zval
  pub report : Report

unfoldable pub add_next : Bool → Bytes → List Zval → List Zval
add_next sampled info list = if sampled then list ++ (string info ∷ []) else list

-- The request: `is_sampled`, `in_request`, its address and its begin.
pub record Scene : Type 0 where
  pub is_sampled : Bool
  pub in_request : Bool
  pub request_uri : Option Bytes
  pub execute_begin_time : ℕ

abbrev pub catch : Scene → Bytes → Caught → Caught
catch w info s = record {
  error_list = add_next (w.is_sampled && w.in_request) info s.error_list;
  report = record_error w.request_uri info w.execute_begin_time s.report;
}

-- `molten_error_cb` up to the call of the original one.
unfoldable pub error_cb : Scene → Error → Caught → Caught
error_cb w e s =
    if e.normal && recorded_type e.type_of
    then catch w (error_info (error_head e) e.message) s
    else s

unfoldable pub error_cbs : Scene → List Error → Caught → Caught
error_cbs w [] s = s
error_cbs w (e ∷ more) s = error_cbs w more (error_cb w e s)

length-error_info : (head message : Bytes) → length (error_info head message) ≤ 199
unfolding error_info
length-error_info head message = elim (Bool-cases (ltb (length head) 199)) [
  | inl e ↦
      let room : length head < 199 = ground arith in
      rw e (
        omega (
          arith,
          room,
          length-append head (take (198 - length head) message),
          length-take (198 - length head) message,
        ))
  | inr e ↦ rw e (omega (arith, length-take 199 head))
]

-- The chain and the report have the same texts, none of which is longer than 199 bytes.
pub record Agree (s : Caught) : Type 0 where
  pub same : s.error_list ≡ map (λ (e : RepError). string e.error) s.report.error_list
  pub short : All (λ (e : RepError). length e.error ≤ 199) s.report.error_list

map-snoc :
    {A B : Type 0} (f : A → B) (xs : List A) (y : A)
    → map f xs ++ (f y ∷ []) ≡ map f (xs ++ (y ∷ []))
map-snoc f [] y = refl
map-snoc f (x ∷ xs) y = ap (λ l. f x ∷ l) (map-snoc f xs y)

catch-Agree :
    (uri : Bytes) (begun : ℕ) (info : Bytes) (s : Caught)
    → length info ≤ 199
    → Agree s
    → Agree (
        catch
          (record {
            is_sampled = true;
            in_request = true;
            request_uri = some uri;
            execute_begin_time = begun;
          })
          info
          s)
unfolding record_error add_next
catch-Agree uri begun info s h a =
    let new : RepError = record { uri = uri; error = info; timestamp = begun } in
    record {
      same =
          ap (λ l. l ++ (string info ∷ [])) a.same
          ∙ map-snoc (λ (e : RepError). string e.error) s.report.error_list new;
      short =
          All-append (λ (e : RepError). length e.error ≤ 199) s.report.error_list (new ∷ []) a.short
            (h, tt);
    }

error_cb-Agree :
    (uri : Bytes) (begun : ℕ) (e : Error) (s : Caught)
    → Agree s
    → Agree (
        error_cb
          (record {
            is_sampled = true;
            in_request = true;
            request_uri = some uri;
            execute_begin_time = begun;
          })
          e
          s)
unfolding error_cb
error_cb-Agree uri begun e s a = elim (Bool-cases (e.normal && recorded_type e.type_of)) [
  | inl y ↦ rw y (
      catch-Agree uri begun (error_info (error_head e) e.message) s
        (length-error_info (error_head e) e.message) a)
  | inr n ↦ rw n a
]

-- In a sampled request that has an address, whatever errors come: if the errors of the chain, which its
-- main span will have, are those of the report, and none has more than 199 bytes, then it is so again
-- after them.
pub error_cbs-Agree :
    (uri : Bytes) (begun : ℕ) (events : List Error) (s : Caught)
    → Agree s
    → Agree (
        error_cbs
          (record {
            is_sampled = true;
            in_request = true;
            request_uri = some uri;
            execute_begin_time = begun;
          })
          events
          s)
unfolding error_cbs
error_cbs-Agree uri begun [] s a = a
error_cbs-Agree uri begun (e ∷ more) s a =
    error_cbs-Agree uri begun more _ (error_cb-Agree uri begun e s a)
