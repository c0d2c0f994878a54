-- ===== src/Tests/Storage.antt =====
-- Stacks, ids, the log's buffer and the shared memory at concrete inputs.
use mathlib.Core.List.{Perm}
use molten.Common.{
  ℕ, ◌≡◌, refl, true, none, some, List, [], ◌∷◌, ◌++◌, Bytes, arith, ok, fault, All, length, take,
  replicate, ◌-◌,
}
use molten.Stack.{Stack}
use molten.Stack.Contents.{Holds}
use molten.Stack.Lifetime.{Op, push_op, pop_op, lifetime, pushed, lifetime-perm}
use molten.Ids.{b2hex, rand64hex, rand_uint64}
use molten.Ids.Hex.{hex2b, is_hexit, le_value, b2hex-hex2b, rand64hex-rand_uint64}
use molten.Log.{ChainLog, init, spans_break, sink_std, add}
use molten.Log.Buffer.{Fits, written, line_end, add-written, add-overflow}
use molten.Log.Flush
use molten.Log.Flush.{concat, flush, flush-concat}
use molten.Log.Lifecycle.{add_all, flush-add_all}
use molten.Shm.{
  Slot, Segment, create_slot, is_created, slot_magic, header_magic, payload_size, max_slot,
}
use molten.Shm.Slots.{create_slot-first}

abbrev ops : List (Op ℕ)
ops = push_op 5 ∷ push_op 6 ∷ pop_op ∷ push_op 7 ∷ []

lifetime-perm_example :
    (gone : List ℕ) × (s : Stack ℕ) × (lifetime ops ≡ ok (gone, s))
    × Holds s []
    × Perm gone (pushed ops [])
lifetime-perm_example = lifetime-perm ops

b2hex-hex2b_example :
    (output : Bytes) × (b2hex (10 ∷ 255 ∷ []) ≡ ok output)
    × (hex2b output ≡ 10 ∷ 255 ∷ [])
    × (length output ≡ 4)
    × All (λ c. is_hexit c ≡ true) output
b2hex-hex2b_example = b2hex-hex2b (10 ∷ 255 ∷ []) (omega arith, (omega arith, tt))

rand64hex-rand_uint64_example :
    (id : Bytes) × (rand64hex (1 ∷ 2 ∷ 3 ∷ []) ≡ ok id)
    × (length id ≡ 16)
    × All (λ c. is_hexit c ≡ true) id
    × (le_value (hex2b id) ≡ rand_uint64 (1 ∷ 2 ∷ 3 ∷ []))
rand64hex-rand_uint64_example = rand64hex-rand_uint64 (1 ∷ 2 ∷ 3 ∷ [])

-- A log to the standard output with a buffer of three bytes, one of them written.
abbrev log3 : ChainLog ℕ
log3 = record {
  sink_type = sink_std;
  output_type = 1;
  total_size = 3;
  alloc_size = 1;
  buf = 97 ∷ 0 ∷ 0 ∷ [];
  spans = none;
}

log3-Fits : Fits log3
log3-Fits = record { whole = refl; inside = omega arith }

add-written_example :
    (log' : ChainLog ℕ) × (add log3 (98 ∷ []) ≡ ok log')
    × Fits log'
    × (written log' ≡ written log3 ++ (98 ∷ []) ++ line_end sink_std)
    × (log'.sink_type ≡ sink_std)
add-written_example = add-written log3 (98 ∷ []) log3-Fits (omega arith) (λ h. omega (arith, h.1))

add-overflow_example : add log3 (98 ∷ 99 ∷ []) ≡ fault
add-overflow_example = add-overflow log3 (98 ∷ 99 ∷ []) log3-Fits (omega arith) refl

flush-add_all_example :
    (log' : ChainLog ℕ) × (flush
        (λ x. some (x ∷ []))
        (λ xs. none)
        (add_all (init (record log3 { sink_type = 8; output_type = spans_break })) (7 ∷ 8 ∷ []))
      ≡ ok (some (7 ∷ 8 ∷ []), log'))
    × (log'.spans ≡ none)
    × Fits log'
unfolding concat
flush-add_all_example =
    flush-add_all (λ x. x ∷ []) (λ xs. none)
      (record log3 { sink_type = 8; output_type = spans_break }) (7 ∷ 8 ∷ []) refl refl
      (λ x. omega arith)

abbrev free_slot : Slot
free_slot = record { magic = 0; init = 0; size = 0; payload = [] }

abbrev segment : Segment
segment = record {
  msh = record { init = 0; attach_num = 0; magic = 0; slot_num = 0 };
  mss = free_slot ∷ free_slot ∷ [];
}

abbrev first_payload : Bytes
first_payload = take 1 (7 ∷ []) ++ replicate (payload_size - 1) 0

create_slot-first_example :
    (mss' : List Slot) × (create_slot 1 (7 ∷ []) 1 segment.mss ≡ ok (some first_payload, mss'))
    × (create_slot 1 (8 ∷ 9 ∷ []) 2 mss' ≡ ok (some first_payload, mss'))
unfolding is_created
create_slot-first_example =
    create_slot-first 1 (7 ∷ []) (8 ∷ 9 ∷ []) 1 2 segment.mss free_slot (omega arith) (omega arith)
      refl refl

abbrev full_slot : Slot
full_slot = record { magic = slot_magic; init = 1; size = 1; payload = first_payload }

abbrev in_use : Segment
in_use = record {
  msh = record { init = 1; attach_num = 1; magic = header_magic; slot_num = max_slot };
  mss = full_slot ∷ replicate 15 free_slot;
}

-- A log to the syslog with one span, which is encoded as one byte.
abbrev log_syslog : ChainLog ℕ
log_syslog = record {
  sink_type = 8;
  output_type = 2;
  total_size = 3;
  alloc_size = 1;
  buf = 97 ∷ 0 ∷ 0 ∷ [];
  spans = some (5 ∷ []);
}

log_syslog-Fits : Fits log_syslog
log_syslog-Fits = record { whole = refl; inside = omega arith }

flush-concat_example :
    (log' : ChainLog ℕ) × (flush (λ x. some (x ∷ [])) (λ xs. none) log_syslog
      ≡ ok (some (written log_syslog ++ Flush.concat ((5 ∷ []) ∷ [])), log'))
    × (log'.spans ≡ none)
    × Fits log'
unfolding Flush.concat
flush-concat_example =
    flush-concat (λ x. some (x ∷ [])) (λ xs. none) log_syslog (5 ∷ []) ((5 ∷ []) ∷ [])
      log_syslog-Fits (omega arith) refl refl refl (omega arith)
