-- ===== src/Intercept/Reached.antt =====
-- Every element of the tables is found by the call that its key names.
use molten.Common.{
  All-append, ℕ, ◌≡◌, refl, sym, ap, ◌∙◌, ◌==◌, Bool, true, false, not, ◌&&◌, Bool-cases, inl, inr,
  Option, none, some, List, [], ◌∷◌, ◌++◌, All, Bytes, codes, bytes_eq, bytes_eq_refl,
  if◌then◌else◌, ok, ==_iff,
}
use molten.Intercept.{Interceptor, has_tag, find_element, method_key, hit}
use molten.Intercept.Tables.{
  Element, Part, part_if, tags_of, elements_of, tables, extension_loaded, intercept_ctor, pdo_part,
  mysqli_part, curl_part, redis_part, memcached_part, mongodb_part, client_part,
}

-- A call by the name of its class, if it is of a method, and of its function.
abbrev pub Called : Type 0
Called = Option Bytes × Bytes

abbrev class_before : ℕ → Called → Called
class_before c (none, m) = (none, c ∷ m)
class_before c (some class_name, m) = (some (c ∷ class_name), m)

-- The call that a key names: what is in front of the first `@` is a class.
unfoldable pub call_of : Bytes → Called
call_of [] = (none, [])
call_of (c ∷ key) = if c == b'@' then (some [], key) else class_before c (call_of key)

-- The key of a call, and the name that must be a tag for it.
abbrev pub key_of : Called → Bytes
key_of (none, m) = m
key_of (some class_name, m) = class_name ++ codes "@" ++ m

abbrev pub tag_of : Called → Bytes
tag_of (none, m) = m
tag_of (some class_name, m) = class_name

key_of-class_before : (c : ℕ) (k : Called) → key_of (class_before c k) ≡ c ∷ key_of k
key_of-class_before c (none, m) = refl
key_of-class_before c (some class_name, m) = refl

key_of-call_of : (key : Bytes) → key_of (call_of key) ≡ key
unfolding call_of
key_of-call_of [] = refl
key_of-call_of (c ∷ key) = elim (Bool-cases (c == b'@')) [
  | inl e ↦ rw e (ap (λ x. x ∷ key) (sym ((==_iff c b'@').0 e)))
  | inr e ↦ rw e (key_of-class_before c (call_of key) ∙ ap (λ k. c ∷ k) (key_of-call_of key))
]

-- An element and its key are found.
abbrev Found : List (Bytes × Element) → Bytes × Element → Type 0
Found elements p = find_element p.0 elements ≡ some p.1

abbrev Tagged : List Bytes → Bytes × Element → Type 0
Tagged tags p = has_tag (tag_of (call_of p.0)) tags ≡ true

-- No key of the list is `key`, and no key stands twice.
abbrev Fresh : Bytes → List (Bytes × Element) → Type 0
Fresh key = All (λ q. bytes_eq key q.0 ≡ false)

abbrev Distinct : List (Bytes × Element) → Type 0
Distinct [] = Unit
Distinct (p ∷ elements) = Fresh p.0 elements × Distinct elements

fresh : Bytes → List (Bytes × Element) → Bool
fresh key [] = true
fresh key (q ∷ elements) = not (bytes_eq key q.0) && fresh key elements

distinct : List (Bytes × Element) → Bool
distinct [] = true
distinct (p ∷ elements) = fresh p.0 elements && distinct elements

all_tagged : List Bytes → List (Bytes × Element) → Bool
all_tagged tags [] = true
all_tagged tags (p ∷ elements) = has_tag (tag_of (call_of p.0)) tags && all_tagged tags elements

and_split : (a b : Bool) → (a && b) ≡ true → (a ≡ true) × (b ≡ true)
and_split true b h = (refl, h)
and_split false b h = cc

eq_false_of_not : (a : Bool) → not a ≡ true → a ≡ false
eq_false_of_not true h = cc
eq_false_of_not false h = refl

fresh-Fresh : (key : Bytes) (l : List (Bytes × Element)) → fresh key l ≡ true → Fresh key l
unfolding fresh
fresh-Fresh key [] h = tt
fresh-Fresh key (q ∷ l) h =
    let (a, b) = and_split (not (bytes_eq key q.0)) (fresh key l) h in
    (eq_false_of_not _ a, fresh-Fresh key l b)

distinct-Distinct : (l : List (Bytes × Element)) → distinct l ≡ true → Distinct l
unfolding distinct
distinct-Distinct [] h = tt
distinct-Distinct (p ∷ l) h =
    let (a, b) = and_split (fresh p.0 l) (distinct l) h in
    (fresh-Fresh p.0 l a, distinct-Distinct l b)

all_tagged-Tagged :
    (tags : List Bytes) (l : List (Bytes × Element))
    → all_tagged tags l ≡ true
    → All (Tagged tags) l
unfolding all_tagged
all_tagged-Tagged tags [] h = tt
all_tagged-Tagged tags (p ∷ l) h =
    let (a, b) = and_split (has_tag (tag_of (call_of p.0)) tags) (all_tagged tags l) h in
    (a, all_tagged-Tagged tags l b)

All-map : {A : Type 0} (P Q : A → Type 0) (l : List A) → ((a : A) → P a → Q a) → All P l → All Q l
All-map P Q [] f h = tt
All-map P Q (a ∷ l) f h = (f a h.0, All-map P Q l f h.1)

All-split : {A : Type 0} (P : A → Type 0) (l k : List A) → All P (l ++ k) → All P l × All P k
All-split P [] k h = (tt, h)
All-split P (a ∷ l) k h = let r = All-split P l k h.1 in ((h.0, r.0), r.1)

-- In a list without doubles every element is found.
Distinct-Found : (l : List (Bytes × Element)) → Distinct l → All (Found l) l
unfolding find_element
Distinct-Found [] d = tt
Distinct-Found (p ∷ l) d = (rw (bytes_eq_refl p.0) refl, zip p l l d.0 (Distinct-Found l d.1))
  where
    zip :
        (p : Bytes × Element) (l k : List (Bytes × Element))
        → Fresh p.0 k
        → All (Found l) k
        → All (Found (p ∷ l)) k
    zip p l [] f h = tt
    zip p l (q ∷ k) f h = (rw (f.0) (h.0), zip p l k f.1 h.1)

-- The parts that are there, of those that may be.
abbrev chosen : List (Bool × Part) → List Part
chosen [] = []
chosen ((b, p) ∷ parts) = part_if b p ∷ chosen parts

abbrev every : List (Bool × Part) → List Part
every [] = []
every ((b, p) ∷ parts) = p ∷ every parts

All-chosen :
    (P : Bytes × Element → Type 0) (parts : List (Bool × Part))
    → All P (elements_of (every parts))
    → All P (elements_of (chosen parts))
All-chosen P [] h = tt
All-chosen P ((true, p) ∷ parts) h =
    let r = All-split P p.elements (elements_of (every parts)) h in
    All-append P p.elements (elements_of (chosen parts)) r.0 (All-chosen P parts r.1)
All-chosen P ((false, p) ∷ parts) h =
    All-chosen P parts (All-split P p.elements (elements_of (every parts)) h).1

Distinct-shrink :
    (l k k' : List (Bytes × Element))
    → ((P : Bytes × Element → Type 0) → All P k → All P k')
    → (Distinct k → Distinct k')
    → Distinct (l ++ k)
    → Distinct (l ++ k')
Distinct-shrink [] k k' f g d = g d
Distinct-shrink (p ∷ l) k k' f g d =
    let r = All-split (λ q. bytes_eq p.0 q.0 ≡ false) l k d.0 in
    (All-append (λ q. bytes_eq p.0 q.0 ≡ false) l k' r.0 (f _ r.1), Distinct-shrink l k k' f g d.1)

Distinct-tail : (l k : List (Bytes × Element)) → Distinct (l ++ k) → Distinct k
Distinct-tail [] k d = d
Distinct-tail (p ∷ l) k d = Distinct-tail l k d.1

Distinct-chosen :
    (parts : List (Bool × Part))
    → Distinct (elements_of (every parts))
    → Distinct (elements_of (chosen parts))
Distinct-chosen [] d = d
Distinct-chosen ((true, p) ∷ parts) d =
    Distinct-shrink p.elements (elements_of (every parts)) (elements_of (chosen parts))
      (λ P. All-chosen P parts) (Distinct-chosen parts) d
Distinct-chosen ((false, p) ∷ parts) d =
    Distinct-chosen parts (Distinct-tail p.elements (elements_of (every parts)) d)

-- A tag stays one when others are put in front of it or behind it.
has_tag-front :
    (key : Bytes) (l k : List Bytes) → has_tag key l ≡ true → has_tag key (l ++ k) ≡ true
unfolding has_tag
has_tag-front key [] k h = cc
has_tag-front key (tag ∷ l) k h = elim (Bool-cases (bytes_eq tag key)) [
  | inl e ↦ rw e refl
  | inr e ↦ rw e (has_tag-front key l k (rw e at h))
]

has_tag-behind :
    (key : Bytes) (l k : List Bytes) → has_tag key k ≡ true → has_tag key (l ++ k) ≡ true
unfolding has_tag
has_tag-behind key [] k h = h
has_tag-behind key (tag ∷ l) k h = elim (Bool-cases (bytes_eq tag key)) [
  | inl e ↦ rw e refl
  | inr e ↦ rw e (has_tag-behind key l k h)
]

-- Each part has the tags of its own elements.
abbrev Tags : List (Bool × Part) → Type 0
Tags [] = Unit
Tags ((b, p) ∷ parts) = (all_tagged p.tags p.elements ≡ true) × Tags parts

Tagged-chosen :
    (parts : List (Bool × Part))
    → Tags parts
    → All (Tagged (tags_of (chosen parts))) (elements_of (chosen parts))
Tagged-chosen [] h = tt
Tagged-chosen ((true, p) ∷ parts) (own, others) =
    let tags = tags_of (chosen parts) in
    All-append (Tagged (p.tags ++ tags)) p.elements (elements_of (chosen parts))
      (All-map _ _ p.elements (λ q k. has_tag-front (tag_of (call_of q.0)) p.tags tags k)
        (all_tagged-Tagged p.tags p.elements own))
      (All-map _ _ (elements_of (chosen parts))
        (λ q k. has_tag-behind (tag_of (call_of q.0)) p.tags tags k) (Tagged-chosen parts others))
Tagged-chosen ((false, p) ∷ parts) (own, others) = Tagged-chosen parts others

-- The call that the key names is the key's, and hits the element.
abbrev pub Reached : Interceptor Element → Bytes × Element → Type 0
Reached pit p =
    let call = call_of p.0 in (key_of call ≡ p.0) × (hit pit call.0 (some call.1) ≡ ok (some p.1))

hit-call :
    (pit : Interceptor Element) (call : Called) (e : Element)
    → has_tag (tag_of call) pit.tags ≡ true
    → find_element (key_of call) pit.elements ≡ some e
    → hit pit call.0 (some call.1) ≡ ok (some e)
unfolding hit method_key
hit-call pit (none, m) e t f = rw t (ap ok f)
hit-call pit (some class_name, m) e t f = rw t (ap ok f)

All-Reached :
    (pit : Interceptor Element) (l : List (Bytes × Element))
    → All (Tagged pit.tags) l
    → All (Found pit.elements) l
    → All (Reached pit) l
All-Reached pit [] t f = tt
All-Reached pit (p ∷ l) t f =
    let same = key_of-call_of p.0 in
    (
      (same, hit-call pit (call_of p.0) p.1 t.0 (ap (λ k. find_element k pit.elements) same ∙ f.0)),
      All-Reached pit l t.1 f.1,
    )

module _ (registered : Bytes → Bool) where
  abbrev loaded : List (Bool × Part)
  loaded =
      (extension_loaded registered (codes "PDO"), pdo_part)
      ∷ (extension_loaded registered (codes "mysqli"), mysqli_part)
      ∷ (extension_loaded registered (codes "curl"), curl_part)
      ∷ (extension_loaded registered (codes "redis"), redis_part)
      ∷ (extension_loaded registered (codes "memcached"), memcached_part)
      ∷ (extension_loaded registered (codes "mongodb"), mongodb_part)
      ∷ (true, client_part)
      ∷ []

  loaded-distinct : distinct (elements_of (every loaded)) ≡ true
  unfolding distinct fresh bytes_eq
  loaded-distinct = refl

  loaded-Tags : Tags loaded
  unfolding all_tagged has_tag call_of bytes_eq
  loaded-Tags = (refl, (refl, (refl, (refl, (refl, (refl, (refl, tt)))))))

-- Whatever extensions are loaded: every element that `mo_intercept_ctor` puts into the tables is what
-- `mo_intercept_hit` gives for the function or method that the element's key names.
pub intercept_ctor-Reached :
    (registered : Bytes → Bool)
    → All (Reached (intercept_ctor registered)) (intercept_ctor registered).elements
unfolding intercept_ctor
intercept_ctor-Reached registered =
    let parts = loaded registered in
    let all =
      Distinct-chosen parts
        (distinct-Distinct (elements_of (every parts)) (loaded-distinct registered)) in
    All-Reached (tables (chosen parts)) (elements_of (chosen parts))
      (Tagged-chosen parts (loaded-Tags registered))
      (Distinct-Found (elements_of (chosen parts)) all)
