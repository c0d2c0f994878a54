-- ===== src/Log/Buffer.antt =====
-- The buffer of the log: what `mo_chain_log_add` leaves in it, and when it writes outside it.
use mathlib.Core.List.{append-nil}
use mathlib.Core.Path.{ap₂}
use native.Mathlib.Nat.{add-zero}
use molten.Common.{
  ℕ, ◌+◌, ◌-◌, ◌*◌, ◌/◌, ◌^◌, ◌≤◌, ◌<◌, ◌≡◌, ◌≢◌, refl, ap, ◌∙◌, true, false, [], ◌++◌, Bytes,
  codes, arith, leb, if◌then◌else◌, Bool-cases, inl, inr, length, take, drop, replicate,
  length-append, length-take, length-replicate, take-append, take-take, take-append_le, length-drop,
  lt→ltb, leb→le, ok, fault,
}
use molten.Log.{
  ChainLog, sink_std, write_at, realloc_size, realloc, line_break, reserve, append, add,
  alloc_log_size,
}

-- The bytes written so far.
abbrev pub written : {S : Type 0} → ChainLog S → Bytes
written log = take log.alloc_size log.buf

-- The buffer has the size that the log believes, and what is written lies inside.
pub record Fits {S : Type 0} (log : ChainLog S) : Type 0 where
  pub whole : length log.buf ≡ log.total_size
  pub inside : log.alloc_size ≤ log.total_size

-- A write that ends inside the buffer puts `s` behind the first `at` bytes and keeps the length.
write_at-ok :
    (buf : Bytes) (at : ℕ) (s : Bytes)
    → at + length s ≤ length buf
    → (buf' : Bytes) × (write_at buf at s ≡ ok buf')
      × (length buf' ≡ length buf)
      × (take (at + length s) buf' ≡ take at buf ++ s)
unfolding write_at
write_at-ok buf at s h = (
  take at buf ++ s ++ drop (at + length s) buf,
  ground arith,
  omega (
    arith,
    front,
    length-append (take at buf ++ s) (drop (at + length s) buf),
    length-drop (at + length s) buf,
  ),
  take-append (at + length s) (take at buf ++ s) (drop (at + length s) buf) front,
)
  where
    front : length (take at buf ++ s) ≡ at + length s
    front = omega (arith, length-append (take at buf) s, length-take at buf)

write_at-outside :
    (buf : Bytes) (at : ℕ) (s : Bytes) → length buf < at + length s → write_at buf at s ≡ fault
unfolding write_at
write_at-outside buf at s h = rw (lt→ltb _ _ h)

-- What the sink gets behind each text that is added.
abbrev pub line_end : ℕ → Bytes
line_end sink_type = if leb sink_type sink_std then codes "\n" else []

line_end-room :
    (sink end total : ℕ)
    → end ≤ total
    → (sink ≤ sink_std → end ≢ total)
    → end + length (line_end sink) ≤ total
line_end-room sink end total h apart = elim (Bool-cases (leb sink sink_std)) [
  | inl e ↦ rw e (omega (arith, apart (leb→le _ _ e)))
  | inr e ↦ rw e (omega arith)
]

line_break-ok :
    (sink : ℕ) (buf : Bytes) (end : ℕ)
    → end + length (line_end sink) ≤ length buf
    → (buf' : Bytes) × (line_break sink buf end ≡ ok (buf', end + length (line_end sink)))
      × (length buf' ≡ length buf)
      × (take (end + length (line_end sink)) buf' ≡ take end buf ++ line_end sink)
unfolding line_break
line_break-ok sink buf end h = elim (Bool-cases (leb sink sink_std)) [
  | inl e ↦
      let (buf', w, len, t) = write_at-ok buf end (codes "\n") (rw e at h) in
      (buf', rw (e, w), len, rw e t)
  | inr e ↦
      (buf, rw e (ap (λ (n : ℕ). ok (buf, n)) (omega arith)), refl, rw (e, append-nil, add-zero))
]

module _ {S : Type 0} where
  -- After `reserve` there is room for `size` bytes, and what was written is kept.
  reserve-ok :
      (log : ChainLog S) (size : ℕ)
      → Fits log
      → log.alloc_size + size + alloc_log_size < 2 ^ 31
      → (log' : ChainLog S) × (reserve log size ≡ ok log')
        × Fits log'
        × (written log' ≡ written log)
        × (log'.alloc_size ≡ log.alloc_size)
        × (log'.sink_type ≡ log.sink_type)
        × (log.alloc_size + size ≤ log'.total_size)
        × (log'.total_size ≡ log.alloc_size + size → log'.total_size ≡ log.total_size)
  unfolding reserve realloc_size realloc
  reserve-ok log size f small =
      elim (Bool-cases (leb (log.total_size + 1) (log.alloc_size + size))) [
        | inl e ↦
            let n : ℕ = log.alloc_size + (size / alloc_log_size + 1) * alloc_log_size in
            let more = leb→le _ _ e in
            let grown : length (take n log.buf ++ replicate (n - length log.buf) 0) ≡ n = omega (
              arith,
              f.whole,
              length-append (take n log.buf) (replicate (n - length log.buf) 0),
              length-take n log.buf,
              length-replicate {A = ℕ} (n - length log.buf) 0,
            ) in
            (
              record log {
                buf = take n log.buf ++ replicate (n - length log.buf) 0;
                total_size = n;
              },
              rw (e, lt→ltb n (2 ^ 31) (omega arith)),
              record { whole = grown; inside = omega arith },
              take-append_le log.alloc_size (take n log.buf) (replicate (n - length log.buf) 0)
                    (omega (arith, length-take n log.buf, f.whole))
                  ∙ take-take log.alloc_size n log.buf (omega arith),
              refl,
              refl,
              omega arith,
              λ same. absurd (omega arith),
            )
        | inr e ↦ (log, rw e, f, refl, refl, refl, ground arith, λ _. refl)
      ]

  append-ok :
      (log : ChainLog S) (s : Bytes)
      → Fits log
      → log.alloc_size + length s + length (line_end log.sink_type) ≤ log.total_size
      → (log' : ChainLog S) × (append log s ≡ ok log')
        × Fits log'
        × (written log' ≡ written log ++ s ++ line_end log.sink_type)
        × (log'.sink_type ≡ log.sink_type)
  unfolding append
  append-ok log s f room =
      let end : ℕ = log.alloc_size + length s in
      let (b1, e1, l1, t1) = write_at-ok log.buf log.alloc_size s (omega (arith, f.whole)) in
      let (b2, e2, l2, t2) = line_break-ok log.sink_type b1 end (omega (arith, f.whole, l1)) in
      (
        record log { buf = b2; alloc_size = end + length (line_end log.sink_type) },
        rw (e1, e2),
        record { whole = l2 ∙ l1 ∙ f.whole; inside = room },
        t2 ∙ ap (λ l. l ++ line_end log.sink_type) t1,
        refl,
      )

  -- `mo_chain_log_add` puts the text, and a line break for the standard output and for a file, behind
  -- what was written, and the buffer stays consistent and the sink the same. The conditions: the sizes fit an `int`, and a
  -- text that fills the buffer to its last byte gets no line break.
  pub add-written :
      (log : ChainLog S) (s : Bytes)
      → Fits log
      → log.alloc_size + length s + alloc_log_size < 2 ^ 31
      → ¬ ((log.sink_type ≤ sink_std) × (log.alloc_size + length s ≡ log.total_size))
      → (log' : ChainLog S) × (add log s ≡ ok log')
        × Fits log'
        × (written log' ≡ written log ++ s ++ line_end log.sink_type)
        × (log'.sink_type ≡ log.sink_type)
  unfolding add
  add-written log s f small apart =
      let (log1, e1, f1, w1, a1, k1, room, same) = reserve-ok log (length s) f small in
      let space =
        line_end-room log1.sink_type (log1.alloc_size + length s) log1.total_size
          (omega (arith, a1, room))
          (λ (sink : log1.sink_type ≤ sink_std)
              (full : log1.alloc_size + length s ≡ log1.total_size).
            apart (omega (arith, k1), omega (arith, a1, same))) in
      let (log2, e2, f2, w2, k2) = append-ok log1 s f1 space in
      (log2, rw (e1, e2), f2, w2 ∙ ap₂ (λ l k. l ++ s ++ line_end k) w1 k1, k2 ∙ k1)

  -- A text for the standard output or for a file that fills the buffer to its last byte makes
  -- `mo_chain_log_add` write the line break behind the end of the buffer.
  pub add-overflow :
      (log : ChainLog S) (s : Bytes)
      → Fits log
      → log.sink_type ≤ sink_std
      → log.alloc_size + length s ≡ log.total_size
      → add log s ≡ fault
  unfolding add reserve append line_break
  add-overflow log s f sink full =
      let (b1, e1, l1, t1) = write_at-ok log.buf log.alloc_size s (omega (arith, f.whole)) in
      rw (
        fits,
        e1,
        std,
        write_at-outside b1 (log.alloc_size + length s) (codes "\n") (omega (arith, f.whole, l1)),
      )
    where
      fits : leb (log.total_size + 1) (log.alloc_size + length s) ≡ false
      fits = ground arith

      std : leb log.sink_type sink_std ≡ true
      std = ground arith
