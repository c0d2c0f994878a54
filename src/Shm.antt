-- ===== src/Shm.antt =====
-- common/molten_shm.c: the slots of the shared memory in which all processes keep the control block.
-- The segment is what `shmat` maps; the part of the operations under the file lock is modelled, with what
-- `shmctl` tells as an argument.
pub mod Slots
use molten.Common.{
  ℕ, zero, suc, ◌+◌, ◌-◌, ◌%◌, ◌^◌, Bool, true, false, not, ◌&&◌, ◌||◌, Option, none, some, List,
  [], ◌∷◌, ◌++◌, Bytes, if◌then◌else◌, ltb, ◌==◌, Result, ok, fault, ◌>>=◌, get_elem?, set, take,
  length, replicate,
}

-- `PAYLOAD_SIZE`, `MO_MAX_SLOT`, `MO_SLOT_MAGIC`, `MO_SLOT_HEADER_MAGIC`
abbrev pub payload_size : ℕ
payload_size = 1024

abbrev pub max_slot : ℕ
max_slot = 16

abbrev pub slot_magic : ℕ
slot_magic = 2810888661

abbrev pub header_magic : ℕ
header_magic = 3078390202

-- `mo_slot_t`; a magic number is its 32-bit pattern.
pub record Slot : Type 0 where
  pub magic : ℕ
  pub init : ℕ
  pub size : ℕ
  pub payload : Bytes

-- `mo_slot_header_t`
pub record Header : Type 0 where
  pub init : ℕ
  pub attach_num : ℕ
  pub magic : ℕ
  pub slot_num : ℕ

pub record Segment : Type 0 where
  pub msh : Header
  pub mss : List Slot

-- The test of `mo_create_slot` and `mo_realse_slot`: the slot has been created.
unfoldable pub is_created : ℕ → Slot → Bool
is_created slot s = s.init == 1 && s.magic == (slot_magic + slot) % 2 ^ 32

-- The payload that a slot gets of `size` bytes of the data.
abbrev pub fill : ℕ → Bytes → Bytes
fill size content = take size content ++ replicate (payload_size - size) 0

unfoldable pub create : ℕ → Bytes → ℕ → Slot → Slot
create slot content size s = if is_created slot s then s else record {
  magic = (slot_magic + slot) % 2 ^ 32;
  init = 1;
  size = size;
  payload = fill size content;
}

-- The access to an element of the array of slots: outside it nothing is said.
abbrev pub with_slot {ℓ} : {B : Type ℓ} → Option Slot → (Slot → B) → Result B
with_slot none f = fault
with_slot (some s) f = ok (f s)

-- `mo_create_slot`: the payload that the slot has, which is NULL if the data is too large.
unfoldable pub create_slot : ℕ → Bytes → ℕ → List Slot → Result (Option Bytes × List Slot)
create_slot slot content size mss =
    if ltb payload_size size
    then ok (none, mss)
    else with_slot (get_elem? mss slot)
        (λ s. let s' = create slot content size s in (some s'.payload, set mss slot s'))

-- `mo_realse_slot`
unfoldable pub release : ℕ → Slot → Slot
release slot s =
    if not (is_created slot s)
    then record { magic = 0; init = 0; size = 0; payload = replicate payload_size 0 }
    else s

-- `mo_shm_ctor` from the lock of the header to its release: the first process marks the header.
unfoldable pub attach : Segment → Segment
attach m =
    let msh =
      if not (m.msh.magic == header_magic) || not (m.msh.init == 1)
      then record m.msh { magic = header_magic; init = 1; slot_num = max_slot }
      else m.msh in
    record m { msh = record msh { attach_num = (msh.attach_num + 1) % 2 ^ 32 } }

-- The loop of `mo_shm_dtor` over the `n` slots from index `i` on.
unfoldable pub release_all : ℕ → ℕ → List Slot → List Slot
release_all zero i mss = mss
release_all (suc n) i [] = []
release_all (suc n) i (s ∷ mss) = release i s ∷ release_all n (suc i) mss

-- What `shmget` and `shmat` give to the first process: zeros.
unfoldable pub new_segment : Segment
new_segment = record {
  msh = record { init = 0; attach_num = 0; magic = 0; slot_num = 0 };
  mss =
      replicate max_slot
        (record { magic = 0; init = 0; size = 0; payload = replicate payload_size 0 });
}

-- `mo_shm_ctor` with the segment that there is, if any.
abbrev pub attach_to : Option Segment → Segment
attach_to none = attach new_segment
attach_to (some m) = attach m

-- The removal by `shmctl`, by the number of processes that it tells; `none` is its failure.
abbrev pub remove_unused : Option ℕ → Segment → Option Segment
remove_unused none m = some m
remove_unused (some zero) m = none
remove_unused (some (suc n)) m = some m

-- `mo_shm_dtor` under the lock: the segment that is left, if any.
unfoldable pub detach : Option ℕ → Segment → Option Segment
detach nattch m =
    let attached = (m.msh.attach_num + (2 ^ 32 - 1)) % 2 ^ 32 in
    remove_unused nattch (
      if attached == 0
      then record {
        msh = record { init = 0; attach_num = 0; magic = 0; slot_num = 0 };
        mss = release_all m.msh.slot_num 0 m.mss;
      }
      else record m { msh = record m.msh { attach_num = attached } })
