-- ===== src/Tests/Heaps.antt =====
-- A well-formed heap from 1000 to 1217 with one hole of 200 bytes, which may grow to 0x10000, and a
-- user that allocates, writes and frees.
use os_learning.Base.{
  ℕ, ◌+◌, ◌-◌, ◌*◌, ◌≤◌, ◌<◌, ◌≡◌, refl, true, false, arith, ◌==◌, if◌then◌else◌, [], ◌∷◌, ◌||◌,
  update,
}
use os_learning.OrderedArray
use os_learning.OrderedArray.{OrderedArray, find_slot, shift_up, shift_down, find_from}
use os_learning.OrderedArray.Insert.{count}
use os_learning.Memory.{Mem, Run, ok, panic, out_of_fuel, read32, write32}
use os_learning.KHeap.{State, make_block, size_of, align_to_page, index_insert, block_comparator}
use os_learning.KHeap.Find.{find_hole, find_loop, try_hole}
use os_learning.KHeap.Alloc.{alloc, take_hole, use_block}
use os_learning.KHeap.Free.{free}
use os_learning.KHeap.Api.{validate}
use os_learning.KHeap.Api.{Kernel}
use os_learning.KHeap.Invariant.{Range, IsFenced, IsHeap, in_use, hole_of}
use os_learning.KHeap.AllocHeap.{Allocated, alloc-Allocated}
use os_learning.KHeap.Create.{created}
use os_learning.KHeap.Live.{Returned, free-Returned}
use os_learning.KHeap.Session.{Session, begun, allocates, writes}
use os_learning.KHeap.Sound.{session-validate}

abbrev plain_mem : Mem
plain_mem x =
    if x == 1000 || x == 1209
    then 0x78
    else if x == 1001 || x == 1210
    then 0x56
    else if x == 1002 || x == 1211
    then 0x34
    else if x == 1003 || x == 1212
    then 0x12
    else if x == 1213
    then 0xE8
    else if x == 1214
    then 0x03
    else if x == 1004
    then 1
    else if x == 1005
    then 200
    else 0

abbrev range : Range
range = record { start = 1000; end = 1217; limit = 0x10000; max_size = 8 }

abbrev fresh : State
fresh = record {
  mem = plain_mem;
  heap = record {
    index = record { array = λ i. 1000; size = 1; max_size = 8 };
    start_address = 1000;
    end_address = 1217;
    size = 217;
    max_address = 0x10000;
    supervisor = 0;
    readonly = 0;
  };
}

-- Behind the heap there are zeros only.
zeros : (a : ℕ) → 1217 ≤ a → read32 plain_mem a ≡ 0
unfolding read32
zeros a h = ground arith

fresh-IsHeap : IsHeap range fresh (hole_of 200 ∷ [])
unfolding read32
fresh-IsHeap = record {
  placed = record {
    starts = refl;
    ends = refl;
    limits = refl;
    sized = refl;
    storage = refl;
    low = omega arith;
    high = omega arith;
    within = omega arith;
    nonempty = omega arith;
  };
  fenced = record { left = λ e. cc; right = λ a lo hi e. absurd (omega (arith, zeros a lo)) };
  layout = (
    record { magic = refl; hole = refl; sized = refl; foot_magic = refl; foot_header = refl },
    omega arith,
    refl,
  );
  listed = record { counts = λ x. refl; sized = refl };
  coalesced = (λ e. cc, tt);
}

alloc-Allocated_example :
    Allocated range fresh
      (hole_of 200 ∷ [])
      5000
      true
      (3 * align_to_page (5000 + 17))
      (alloc 4 fresh 5000 true)
alloc-Allocated_example =
    alloc-Allocated range fresh (hole_of 200 ∷ []) 5000 true fresh-IsHeap (omega arith)
      (omega arith) (omega arith)

abbrev state_of : Run (State × ℕ) → State
state_of (ok (s, p)) = s
state_of panic = fresh
state_of out_of_fuel = fresh

-- After an allocation of 50 bytes.
abbrev one_used : State
one_used = state_of (alloc 4 fresh 50 false)

allocated_at : alloc 4 fresh 50 false ≡ ok (one_used, 1009)
unfolding alloc find_hole find_loop try_hole take_hole use_block index_insert make_block
    block_comparator read32 write32 OrderedArray.insert OrderedArray.remove OrderedArray.get
    find_slot shift_up shift_down
allocated_at = refl

one_used-Session : Session range fresh one_used (1009 ∷ [])
one_used-Session =
    allocates fresh one_used [] 50 false 1009 begun (omega arith) (omega arith) (omega arith)
      allocated_at

room : one_used.heap.index.size < 8
unfolding alloc find_hole find_loop try_hole take_hole use_block index_insert make_block
    block_comparator read32 write32 OrderedArray.insert OrderedArray.remove OrderedArray.get
    find_slot shift_up shift_down
room = omega arith

pub zero_fence : IsFenced (created 0xC0C00000 0xC0F00000 0xE0000000) (λ x. 0)
unfolding read32
zero_fence = record { left = λ e. cc; right = λ a lo hi e. cc }

-- The user writes to the fourth byte of its data.
abbrev written_to : State
written_to = record one_used { mem = update one_used.mem 1012 7 }

in_data : 1012 < 1009 + size_of one_used.mem (1009 - 9)
unfolding alloc find_hole find_loop try_hole take_hole use_block index_insert make_block
    block_comparator read32 write32 OrderedArray.insert OrderedArray.remove OrderedArray.get
    find_slot shift_up shift_down
in_data = omega arith

written_to-Session : Session range fresh written_to (1009 ∷ [])
unfolding count
written_to-Session =
    writes one_used (1009 ∷ []) 1009 1012 7 one_used-Session (omega arith) (omega arith) in_data

session-validate_example :
    (least : ℕ) × ((fuel : ℕ) → least ≤ fuel → validate fuel written_to ≡ ok 1)
session-validate_example =
    session-validate range fresh written_to 200 (1009 ∷ []) fresh-IsHeap written_to-Session

-- The same heap, all of it in use.
abbrev full : State
full = record {
  mem = update plain_mem 1004 0;
  heap = record (fresh.heap) { index = record { array = λ i. 0; size = 0; max_size = 8 } };
}

still_zeros : (a : ℕ) → 1217 ≤ a → read32 full.mem a ≡ 0
unfolding read32
still_zeros a h = ground arith

full-IsHeap : IsHeap range full (in_use 200 ∷ [])
unfolding read32 count
full-IsHeap = record {
  placed = record {
    starts = refl;
    ends = refl;
    limits = refl;
    sized = refl;
    storage = refl;
    low = omega arith;
    high = omega arith;
    within = omega arith;
    nonempty = omega arith;
  };
  fenced = record { left = λ e. cc; right = λ a lo hi e. absurd (omega (arith, still_zeros a lo)) };
  layout = (
    record { magic = refl; hole = refl; sized = refl; foot_magic = refl; foot_header = refl },
    omega arith,
    refl,
  );
  listed = record { counts = λ x. refl; sized = refl };
  coalesced = (λ e. refl, tt);
}

free-Returned_example : Returned range full [] [] (free full 1009)
free-Returned_example =
    free-Returned range full (in_use 200 ∷ []) [] [] 1000 200 full-IsHeap refl (omega arith)

-- The lock is free.
abbrev pub kernel : Kernel
kernel = record { state = fresh; kheap_lock = 0 }
