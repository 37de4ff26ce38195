-- ===== src/KHeap/Sound.antt =====
-- Every state of a session is well formed, so the calls on it return what they promise.
use os_learning.Base.{
  ℕ, suc, ◌+◌, ◌-◌, ◌*◌, ◌≤◌, ◌<◌, ◌≡◌, refl, sym, ap, ◌∙◌, subst, Bool, arith, ◌==◌, if◌then◌else◌,
  List, [], ◌∷◌, ◌++◌, length, length-append, update,
}
use os_learning.OrderedArray.Insert.{count}
use os_learning.Memory.{Run, ok}
use os_learning.KHeap.{State, size_of, align_to_page}
use os_learning.KHeap.Free.{free}
use os_learning.KHeap.Api.{validate}
use os_learning.KHeap.Layout.{Block, Layout, after, after-ge, used, count-append, Layout-split}
use os_learning.KHeap.Invariant.{Range, IsHeap, in_use, hole_of}
use os_learning.KHeap.AllocHeap.{Allocated, refused, allocated, alloc-Allocated}
use os_learning.KHeap.Live.{UsedAt-of_used, Returned, free-Returned, update-IsHeap}
use os_learning.KHeap.Validate.{validate-IsHeap}
use os_learning.KHeap.Session.{
  Session, begun, allocates, frees, writes, pointers, IsSound, pointers-append, LiveAt,
  LiveAt-of_count,
}

module _ (r : Range) where
  pub IsSound-begun :
      (s : State) (n : ℕ) → IsHeap r s (hole_of n ∷ []) → (w : IsSound r s []) × (w.end ≡ r.end)
  unfolding count
  IsSound-begun s n v = (
    record { end = r.end; blocks = hole_of n ∷ []; heap = v; same = λ x. refl; number = refl },
    refl,
  )

  IsSound-of_new :
      (s s' : State) (live : List ℕ) (v : IsSound r s live) (blocks : List Block) (end ptr n : ℕ)
      (xs ys : List (ℕ × ℕ))
      → IsHeap (record r { end = end }) s' blocks
      → used r.start v.blocks ≡ xs ++ ys
      → used r.start blocks ≡ xs ++ (ptr - 9, n) ∷ ys
      → (w : IsSound r s' (ptr ∷ live)) × (w.end ≡ end)
  unfolding count
  IsSound-of_new s s' live v blocks end ptr n xs ys heap before more =
      let place = UsedAt-of_used r.start blocks xs ys (ptr - 9) n more in
      let back : ptr - 9 + 9 ≡ ptr =
        omega (arith, place.at, after-ge r.start place.pre, heap.placed.low) in
      (
        record {
          end = end;
          blocks = blocks;
          heap = heap;
          same = λ x. omega (
            arith,
            v.same x,
            ap (λ l. count x (pointers l)) before,
            pointers-append xs ys x,
            ap (λ l. count x (pointers l)) more,
            pointers-append xs ((ptr - 9, n) ∷ ys) x,
            ap {B = ℕ} (λ q. if q == x then 1 else 0) back,
          );
          number = omega (
            arith,
            v.number,
            ap (length {0}) before,
            length-append {0} xs ys,
            ap (length {0}) more,
            length-append {0} xs ((ptr - 9, n) ∷ ys),
          );
        },
        refl,
      )

  -- A block that `alloc` gave, with how far the end may have moved.
  pub IsSound-allocates :
      (s s' : State) (live : List ℕ) (size ptr most : ℕ) (page_align : Bool) (v : IsSound r s live)
      {res : Run (State × ℕ)}
      → Allocated (record r { end = v.end }) s v.blocks size page_align most res
      → res ≡ ok (s', ptr)
      → (w : IsSound r s' (ptr ∷ live)) × (w.end ≤ v.end + most)
  IsSound-allocates s s' live size ptr most page_align v (refused over) e = cc
  IsSound-allocates s s' live size ptr most page_align v
        (allocated t blocks end p n xs ys heap before more enough page kept near) e =
      let same_state : t ≡ s' = cc in
      let same_ptr : p ≡ ptr = cc in
      subst (λ q. (w : IsSound r s' (q ∷ live)) × (w.end ≤ v.end + most)) same_ptr
        (subst (λ q. (w : IsSound r q (p ∷ live)) × (w.end ≤ v.end + most)) same_state
          (let (w, at) = IsSound-of_new s t live v blocks end p n xs ys heap before more in
            (w, omega (arith, at, near))))

  -- The entry of a pointer that is live.
  pub live_at :
      (s : State) (live : List ℕ) (v : IsSound r s live) (ptr : ℕ)
      → 0 < count ptr live
      → LiveAt (used r.start v.blocks) ptr
  live_at s live v ptr h = LiveAt-of_count (used r.start v.blocks) ptr (omega (arith, v.same ptr))

  -- `free` of a live pointer.
  pub free_live :
      (s : State) (live : List ℕ) (v : IsSound r s live) (ptr : ℕ)
      → (l : LiveAt (used r.start v.blocks) ptr) → s.heap.index.size < r.max_size
      → Returned (record r { end = v.end }) s l.xs l.ys (free s ptr)
  free_live s live v ptr l room =
      subst (λ p. Returned (record r { end = v.end }) s l.xs l.ys (free s p)) l.at
        (free-Returned (record r { end = v.end }) s v.blocks l.xs l.ys l.a l.n v.heap l.split room)

  pub IsSound-frees :
      (s s' : State) (xs ys : List ℕ) (ptr : ℕ)
      → (v : IsSound r s (xs ++ ptr ∷ ys)) → s.heap.index.size < r.max_size
      → free s ptr ≡ ok s'
      → (w : IsSound r s' (xs ++ ys)) × (w.end ≡ v.end)
  unfolding count
  IsSound-frees s s' xs ys ptr v room e =
      let there : 0 < count ptr (xs ++ ptr ∷ ys) = ground (arith, count-append ptr xs (ptr ∷ ys)) in
      let l = live_at s (xs ++ ptr ∷ ys) v ptr there in
      let f = free_live s (xs ++ ptr ∷ ys) v ptr l room in
      let eq : ok f.state ≡ ok s' = sym f.result ∙ e in
      let same_state : f.state ≡ s' = cc in
      subst (λ q. (w : IsSound r q (xs ++ ys)) × (w.end ≡ v.end)) same_state
        (
          record {
            end = v.end;
            blocks = f.blocks;
            heap = f.heap;
            same = λ x. omega (
              arith,
              v.same x,
              count-append x xs (ptr ∷ ys),
              count-append x xs ys,
              ap (λ u. count x (pointers u)) l.split,
              pointers-append l.xs ((l.a, l.n) ∷ l.ys) x,
              ap (λ u. count x (pointers u)) f.used_less,
              pointers-append l.xs l.ys x,
              ap {B = ℕ} (λ q. if q == x then 1 else 0) l.at,
            );
            number = omega (
              arith,
              v.number,
              length-append {0} xs (ptr ∷ ys),
              length-append {0} xs ys,
              ap (length {0}) l.split,
              length-append {0} l.xs ((l.a, l.n) ∷ l.ys),
              ap (length {0}) f.used_less,
              length-append {0} l.xs l.ys,
            );
          },
          refl,
        )

  pub IsSound-writes :
      (s : State) (live : List ℕ) (ptr x value : ℕ)
      → (v : IsSound r s live) → 0 < count ptr live
      → ptr ≤ x
      → x < ptr + size_of s.mem (ptr - 9)
      → (w : IsSound r (record s { mem = update s.mem x value }) live) × (w.end ≡ v.end)
  IsSound-writes s live ptr x value v there lo hi =
      let l = live_at s live v ptr there in
      let place = UsedAt-of_used r.start v.blocks l.xs l.ys l.a l.n l.split in
      let parts =
        Layout-split s.mem r.start place.pre (in_use l.n ∷ place.post) v.end
          (subst (λ b. Layout s.mem r.start b v.end) place.split v.heap.layout) in
      let start : after r.start place.pre ≡ ptr - 9 = omega (arith, place.at, l.at) in
      let size : size_of s.mem (ptr - 9) ≡ l.n = ap (size_of s.mem) (sym start) ∙ parts.1.0.sized in
      (
        record {
          end = v.end;
          blocks = v.blocks;
          heap =
              update-IsHeap (record r { end = v.end }) s v.blocks l.xs l.ys l.a l.n v.heap l.split x
                value (omega (arith, l.at)) (omega (arith, l.at, size));
          same = v.same;
          number = v.number;
        },
        refl,
      )

  -- Every state of a session is sound.
  pub Session-IsSound :
      (s0 s : State) (n : ℕ) (live : List ℕ)
      → IsHeap r s0 (hole_of n ∷ [])
      → Session r s0 s live
      → IsSound r s live
  Session-IsSound s0 s n live v begun = (IsSound-begun s0 n v).0
  Session-IsSound s0 s' n live' v (allocates s t live size page_align ptr before pos low room e) =
      let w = Session-IsSound s0 s n live v before in
      (IsSound-allocates s t live size ptr (3 * align_to_page (size + 17)) page_align w
        (alloc-Allocated (record r { end = w.end }) s w.blocks size page_align w.heap pos low room)
        e).0
  Session-IsSound s0 s' n live' v (frees s t xs ys ptr before room e) =
      (IsSound-frees s t xs ys ptr (Session-IsSound s0 s n (xs ++ ptr ∷ ys) v before) room e).0
  Session-IsSound s0 s' n live' v (writes s live ptr x value before there lo hi) =
      (IsSound-writes s live ptr x value (Session-IsSound s0 s n live v before) there lo hi).0

  module _ (s0 s : State) (n : ℕ) (live : List ℕ) (v : IsHeap r s0 (hole_of n ∷ []))
      (session : Session r s0 s live) where
    sound : IsSound r s live
    sound = Session-IsSound s0 s n live v session

    -- From a well-formed heap that is one hole, whatever allocations, frees of pointers that were
    -- given out and not yet freed, and writes to their data follow each other, each call with room
    -- in the index for another hole and no request near the limit of 2 ^ 32: with enough fuel the
    -- check of the whole heap passes all its assertions and returns the number of pointers that are
    -- live.
    pub session-validate :
        (least : ℕ) × ((fuel : ℕ) → least ≤ fuel → validate fuel s ≡ ok (length live))
    session-validate = (
      suc (length sound.blocks),
      λ fuel enough.
          validate-IsHeap (record r { end = sound.end }) s sound.blocks fuel sound.heap
            (omega arith)
          ∙ ap ok (sym sound.number),
    )

    -- In every state that is reached from a well-formed heap that is one hole by allocations, frees
    -- of pointers that were given out and not yet freed, and writes to their data: `free` of any
    -- pointer that is live returns, where the index has room for another hole.
    pub session-free :
        (ptr : ℕ)
        → 0 < count ptr live
        → s.heap.index.size < r.max_size
        → (s' : State) × (free s ptr ≡ ok s')
    session-free ptr there room =
        let f = free_live s live sound ptr (live_at s live sound ptr there) room in
        (f.state, f.result)
