-- ===== src/Span/SkyNotes.antt =====
-- What an annotation of a span of the SkyWalking format may change.
use molten.Common.{
  ℕ, ◌<◌, ◌≤◌, ◌≡◌, ◌==◌, zero, suc, take, refl, ap, ◌∙◌, Bool, true, false, All, leb, length,
  Option, none, some, List, [], ◌∷◌, ◌++◌, Bytes, bytes_eq, codes, decimal_ℤ, ℤ, ok, fault, ◌>>=◌,
  arith,
}
use molten.Zval.{Arr, string, boolean, find}
use molten.Zval.Find.{find-in_array_other, find-add_assoc_other}
use molten.Span.{BaType, ba_normal, ba_sa, ba_sa_host, ba_sa_ip, ba_sa_dsn, ba_error, ba_path}
use molten.Span.SkyWalking.{
  add_tag, add_log, or_null, read_text, shortened, add_peer, add_error, add_ba, span_add_ba_builder,
}
use molten.Span.SkyLinks.{sprintf-fits}

-- The fields that annotations change: tags, logs, the name of the peer, the mark of an error.
abbrev pub changing : List Bytes
changing = codes "to" ∷ codes "lo" ∷ codes "pn" ∷ codes "ie" ∷ []

-- Whether an annotation of a kind writes its value.
abbrev pub uses_value : BaType → Bool
uses_value ba_normal = true
uses_value ba_sa = false
uses_value ba_sa_host = false
uses_value ba_sa_ip = false
uses_value ba_sa_dsn = true
uses_value ba_error = true
uses_value ba_path = true

shortened-fits : (value : Bytes) → length value ≤ 128 → shortened value ≡ ok value
unfolding shortened
shortened-fits value h = let yes : leb (length value) 128 ≡ true = ground arith in rw yes refl

-- A text without a NUL in it, as a `char *` has it in front of its NUL.
abbrev pub IsText : Bytes → Type 0
IsText s = All (λ c. (c == 0) ≡ false) s

read_text-overrun : (s : Bytes) → IsText s → read_text s ≡ fault
unfolding read_text
read_text-overrun [] h = refl
read_text-overrun (c ∷ s) (ne, h) = rw (ne, read_text-overrun s h) refl

take-IsText : (n : ℕ) (s : Bytes) → IsText s → IsText (take n s)
take-IsText zero s h = tt
take-IsText (suc n) [] h = tt
take-IsText (suc n) (c ∷ s) (ne, h) = (ne, take-IsText n s h)

shortened-long : (value : Bytes) → IsText value → 128 < length value → shortened value ≡ fault
unfolding shortened
shortened-long value text h =
    let no : leb (length value) 128 ≡ false = ground arith in
    rw no (read_text-overrun (take 128 value) (take-IsText 128 value text))

module _ (other : Bytes) (to : bytes_eq (codes "to") other ≡ false)
    (lo : bytes_eq (codes "lo") other ≡ false) (pn : bytes_eq (codes "pn") other ≡ false)
    (ie : bytes_eq (codes "ie") other ≡ false) where
  add_tag-other :
      (key val : Option Bytes) (span : Arr) → find other (add_tag key val span) ≡ find other span
  unfolding add_tag
  add_tag-other (some key) (some val) span = find-in_array_other (codes "to") other _ span to
  add_tag-other (some key) none span = refl
  add_tag-other none val span = refl

  add_log-other :
      (time : ℕ) (args : List (Bytes × Bytes)) (span : Arr)
      → find other (add_log time args span) ≡ find other span
  unfolding add_log
  add_log-other time args span = find-in_array_other (codes "lo") other _ span lo

  add_peer-other :
      (key peer_name : Bytes) (service_name ipv4 : Option Bytes) (port : ℤ) (span : Arr)
      → find other (add_peer key peer_name service_name ipv4 port span) ≡ find other span
  add_peer-other key peer_name service_name ipv4 port span =
      add_tag-other _ service_name _
      ∙ add_tag-other _ _ _
      ∙ add_tag-other (some key) ipv4 _
      ∙ find-add_assoc_other (codes "pn") other (string peer_name) span pn

  add_error-other :
      (time : ℕ) (value : Bytes) (span : Arr)
      → find other (add_error time value span) ≡ find other span
  add_error-other time value span =
      add_log-other time _ _
      ∙ find-add_assoc_other (codes "ie") other (boolean true) _ ie
      ∙ add_tag-other _ _ span

  -- For every kind: the annotation is added, and what stands under another name is kept.
  add_ba-other :
      (ba : BaType) (key value : Bytes) (time : ℕ) (peer_name : Bytes)
      (service_name ipv4 : Option Bytes) (port : ℤ) (span : Arr)
      → length value ≤ 128
      → (span' : Arr) × (add_ba ba key value time peer_name service_name ipv4 port span ≡ ok span')
        × (find other span' ≡ find other span)
  add_ba-other ba_normal key value time peer_name service_name ipv4 port span h = (
    _,
    ap (λ r. r >>= λ v. ok (add_tag (some key) (some v) span)) (shortened-fits value h),
    add_tag-other (some key) (some value) span,
  )
  add_ba-other ba_sa key value time peer_name service_name ipv4 port span h =
      (_, refl, add_peer-other _ peer_name service_name ipv4 port span)
  add_ba-other ba_sa_host key value time peer_name service_name ipv4 port span h =
      (_, refl, add_peer-other _ peer_name service_name ipv4 port span)
  add_ba-other ba_sa_ip key value time peer_name service_name ipv4 port span h =
      (_, refl, add_peer-other _ peer_name service_name ipv4 port span)
  add_ba-other ba_sa_dsn key value time peer_name service_name ipv4 port span h = (
    _,
    ap (λ r. r >>= λ v. ok (add_tag (some (codes "peer.address")) (some v) span))
        (shortened-fits value h),
    add_tag-other _ (some value) span,
  )
  add_ba-other ba_path key value time peer_name service_name ipv4 port span h = (
    _,
    ap (λ r. r >>= λ v. ok (add_tag (some key) (some v) span)) (shortened-fits value h),
    add_tag-other (some key) (some value) span,
  )
  add_ba-other ba_error key value time peer_name service_name ipv4 port span h = (
    _,
    ap (λ r. r >>= λ v. ok (add_error time v span)) (shortened-fits value h),
    add_error-other time value span,
  )

add_ba-long :
    (ba : BaType) (key value : Bytes) (time : ℕ) (peer_name : Bytes)
    (service_name ipv4 : Option Bytes) (port : ℤ) (span : Arr)
    → IsText value
    → 128 < length value
    → uses_value ba ≡ true
    → add_ba ba key value time peer_name service_name ipv4 port span ≡ fault
add_ba-long ba_normal key value time peer_name service_name ipv4 port span text h u =
    rw (shortened-long value text h) refl
add_ba-long ba_sa key value time peer_name service_name ipv4 port span text h u = cc
add_ba-long ba_sa_host key value time peer_name service_name ipv4 port span text h u = cc
add_ba-long ba_sa_ip key value time peer_name service_name ipv4 port span text h u = cc
add_ba-long ba_sa_dsn key value time peer_name service_name ipv4 port span text h u =
    rw (shortened-long value text h) refl
add_ba-long ba_path key value time peer_name service_name ipv4 port span text h u =
    rw (shortened-long value text h) refl
add_ba-long ba_error key value time peer_name service_name ipv4 port span text h u =
    rw (shortened-long value text h) refl

-- The address and the port in `peer_name`.
abbrev pub peer : Option Bytes → ℤ → Bytes
peer ipv4 port = or_null ipv4 ++ codes ":" ++ decimal_ℤ port

-- If the address and the port with a colon between them are shorter than 64 bytes and the value has at
-- most 128: then an annotation of any kind is added without a fault, and every field of the span other
-- than the tags, the logs, the name of the peer and the mark of an error stays, the ids among them.
pub span_add_ba_builder-keeps :
    (ba : BaType) (key value : Bytes) (time : ℕ) (service_name ipv4 : Option Bytes) (port : ℤ)
    (span : Arr) (other : Bytes)
    → length (peer ipv4 port) < 64
    → length value ≤ 128
    → All (λ name. bytes_eq name other ≡ false) changing
    → (span' : Arr) × (span_add_ba_builder
          (some key)
          (some value)
          time
          service_name
          ipv4
          port
          ba
          span
        ≡ ok span')
      × (find other span' ≡ find other span)
unfolding span_add_ba_builder
span_add_ba_builder-keeps ba key value time service_name ipv4 port span other short h
      (to, (lo, (pn, (ie, _)))) =
    let (span', e, kept) =
      add_ba-other other to lo pn ie ba key value time (peer ipv4 port) service_name ipv4 port span
        h in
    (
      span',
      ap (λ r. r >>= λ peer_name. add_ba ba key value time peer_name service_name ipv4 port span)
            (sprintf-fits 64 (peer ipv4 port) short)
          ∙ e,
      kept,
    )

-- With a peer that fits, a value of more than 128 bytes and no NUL makes an annotation that writes it read
-- behind its copy.
pub span_add_ba_builder-long :
    (ba : BaType) (key value : Bytes) (time : ℕ) (service_name ipv4 : Option Bytes) (port : ℤ)
    (span : Arr)
    → length (peer ipv4 port) < 64
    → IsText value
    → 128 < length value
    → uses_value ba ≡ true
    → span_add_ba_builder (some key) (some value) time service_name ipv4 port ba span ≡ fault
unfolding span_add_ba_builder
span_add_ba_builder-long ba key value time service_name ipv4 port span short text h u =
    ap (λ r. r >>= λ peer_name. add_ba ba key value time peer_name service_name ipv4 port span)
      (sprintf-fits 64 (peer ipv4 port) short)
    ∙ add_ba-long ba key value time (peer ipv4 port) service_name ipv4 port span text h u
