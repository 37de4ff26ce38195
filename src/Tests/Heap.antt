-- ===== src/Tests/Heap.antt =====
-- The kernel heap with one hole of 200 bytes at address 1000, and the locks.
use os_learning.Base.{ℕ, ◌<◌, ◌≡◌, refl, true, false, arith, ◌==◌, if◌then◌else◌}
use os_learning.OrderedArray
use os_learning.OrderedArray.{OrderedArray, find_slot, shift_up, shift_down, find_from}
use os_learning.Memory.{Mem, Run, ok, ◌>>=◌, read32, write32}
use os_learning.Sync.Threads.{System, Reachable, start, next, tries, round, mutual_exclusion}
use os_learning.Sync.Locks.{yieldlock_init}
use os_learning.KHeap.{
  KHeap, State, make_block, size_of, align_to_page, expand, index_insert, index_remove,
  block_comparator,
}
use os_learning.KHeap.Grow.{expand_wraps}
use os_learning.KHeap.Find.{find_hole, find_loop, try_hole}
use os_learning.KHeap.Alloc.{alloc, take_hole, use_block}
use os_learning.KHeap.Free.{free, free_block, merge_left, merge_right}
use os_learning.KHeap.Serve.{AreHoles}
use os_learning.Base.{◌||◌}
use os_learning.KHeap.Bounds.{AreLow}

abbrev hole_mem : Mem
hole_mem x = if x == 1004 then 1 else if x == 1005 then 200 else 0

abbrev small_heap : KHeap
small_heap = record {
  index = record { array = λ i. 1000; size = 1; max_size = 8 };
  start_address = 1000;
  end_address = 1217;
  size = 217;
  max_address = 0x10000;
  supervisor = 0;
  readonly = 0;
}

abbrev one_hole : State
one_hole = record { mem = hole_mem; heap = small_heap }

one_hole-AreLow : AreLow one_hole 50
unfolding read32
one_hole-AreLow i h = ground arith

-- The same heap with the hole's records written out: magic numbers, flag, size and back link.
abbrev written_mem : Mem
written_mem x =
    if x == 1000 || x == 1209
    then 0x78
    else if x == 1001 || x == 1210
    then 0x56
    else if x == 1002 || x == 1211
    then 0x34
    else if x == 1003 || x == 1212
    then 0x12
    else if x == 1213
    then 0xE8
    else if x == 1214
    then 0x03
    else hole_mem x

abbrev written : State
written = record { mem = written_mem; heap = small_heap }

written-AreHoles : AreHoles written
unfolding read32
written-AreHoles i h = record {
  magic = refl;
  hole = refl;
  sized = refl;
  foot_magic = refl;
  foot_header = refl;
}

written-AreLow : AreLow written 50
unfolding read32
written-AreLow i h = ground arith

abbrev fifty : 0 < 50
fifty = omega arith

-- The kernel's heap, asked for 0x41000000 bytes more.
abbrev high_heap : KHeap
high_heap = record small_heap { end_address = 0xC0F00000; max_address = 0xE0000000 }

expand_wraps_example :
    (h' : KHeap) × (expand high_heap 0x41000000 ≡ ok (h', align_to_page 0x41000000))
    × (h'.end_address < high_heap.end_address)
unfolding align_to_page
expand_wraps_example =
    expand_wraps high_heap 0x41000000 (omega arith) (omega arith) (omega arith) (omega arith)
      (omega arith)

-- Thread 0 takes the lock, and thread 1 waits for it.
abbrev contended : System
contended = round (round (record { lock = yieldlock_init 7; holds = λ thread. false }) 0) 1

contended-Reachable : Reachable contended
unfolding round yieldlock_init
contended-Reachable = next (next (start 7) (tries 0 refl)) (tries 1 refl)

held_by_first : contended.holds 0 ≡ true
unfolding round yieldlock_init
held_by_first = refl

mutual_exclusion_example : contended.holds 1 ≡ false
mutual_exclusion_example =
    mutual_exclusion contended 0 1 contended-Reachable held_by_first (omega arith)

-- A block is allocated from the hole and freed again: the data's address, and the hole's size then.
abbrev round_trip : Run (ℕ × ℕ × ℕ)
round_trip = do
  m ← make_block hole_mem 1000 200 1
  (s, ptr) ← alloc 1 (record one_hole { mem = m }) 50 false
  s' ← free s ptr
  ok (ptr, size_of s'.mem 1000, s'.heap.index.size)

round_trip_result : round_trip ≡ ok (1009, 200, 1)
unfolding make_block alloc find_hole find_loop try_hole take_hole use_block index_insert
    index_remove block_comparator free free_block merge_left merge_right read32 write32
    OrderedArray.insert OrderedArray.remove OrderedArray.remove_element OrderedArray.get find_slot
    shift_up shift_down find_from
round_trip_result = refl
