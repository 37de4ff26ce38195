-- ===== src/KHeap/Live.antt =====
-- `free` and the writes of the heap's users, by the list of the blocks in use.
use os_learning.Base.{
  ℕ, ◌+◌, ◌≤◌, ◌<◌, ◌≡◌, refl, sym, ap, ◌∙◌, subst, true, arith, Bool-cases, inl, inr, List, [],
  ◌∷◌, ◌++◌, update,
}
use os_learning.Memory.{Mem, Run, ok}
use os_learning.KHeap.{State}
use os_learning.KHeap.Blocks.{IsBlock-eq}
use os_learning.KHeap.Free.{free}
use os_learning.KHeap.Layout.{
  Block, Layout, after, used, Covered, Layout-split, Layout-append, Layout-eq, after-ge,
}
use os_learning.KHeap.Invariant.{Range, IsPlaced-kept, IsFenced-kept, IsHeap, in_use, Layout-ge}
use os_learning.KHeap.FreeHeap.{Released, free-Released}

-- The block of an entry of the list.
pub record UsedAt (start : ℕ) (bs : List Block) (xs ys : List (ℕ × ℕ)) (a n : ℕ) : Type 0 where
  pub pre : List Block
  pub post : List Block
  pub split : bs ≡ pre ++ in_use n ∷ post
  pub at : after start pre ≡ a
  pub before : used start pre ≡ xs
  pub behind : used (a + 17 + n) post ≡ ys

UsedAt-of_hole :
    (start : ℕ) (b : Block) (bs : List Block) (xs ys : List (ℕ × ℕ)) (a n : ℕ)
    → b.free ≡ true
    → UsedAt (start + 17 + b.size) bs xs ys a n
    → UsedAt start (b ∷ bs) xs ys a n
UsedAt-of_hole start b bs xs ys a n hole rest = record {
  pre = b ∷ rest.pre;
  post = rest.post;
  split = ap (λ l. b ∷ l) rest.split;
  at = rest.at;
  before = rw hole rest.before;
  behind = rest.behind;
}

pub UsedAt-of_used :
    (start : ℕ) (bs : List Block) (xs ys : List (ℕ × ℕ)) (a n : ℕ)
    → used start bs ≡ xs ++ (a, n) ∷ ys
    → UsedAt start bs xs ys a n
UsedAt-of_used start [] [] ys a n e = cc
UsedAt-of_used start [] (x ∷ xs) ys a n e = cc
UsedAt-of_used start (b ∷ bs) [] ys a n e = elim (Bool-cases b.free) [
  | inl hole ↦
      UsedAt-of_hole start b bs [] ys a n hole
        (UsedAt-of_used (start + 17 + b.size) bs [] ys a n (rw hole at e))
  | inr taken ↦
      let e' : (start, b.size) ∷ used (start + 17 + b.size) bs ≡ (a, n) ∷ ys = rw taken at e in
      let size : b.size ≡ n = cc in
      let here : start ≡ a = cc in
      let rest : used (start + 17 + b.size) bs ≡ ys = cc in
      record {
        pre = [];
        post = bs;
        split =
            ap (λ c. c ∷ bs) (ap (λ f. record { size = b.size; free = f }) taken ∙ ap in_use size);
        at = here;
        before = refl;
        behind = ap (λ p. used p bs) (omega arith) ∙ rest;
      }
]
UsedAt-of_used start (b ∷ bs) (x ∷ xs) ys a n e = elim (Bool-cases b.free) [
  | inl hole ↦
      UsedAt-of_hole start b bs (x ∷ xs) ys a n hole
        (UsedAt-of_used (start + 17 + b.size) bs (x ∷ xs) ys a n (rw hole at e))
  | inr taken ↦
      let e' : (start, b.size) ∷ used (start + 17 + b.size) bs ≡ x ∷ xs ++ (a, n) ∷ ys =
        rw taken at e in
      let first : (start, b.size) ≡ x = cc in
      let rest = UsedAt-of_used (start + 17 + b.size) bs xs ys a n cc in
      record {
        pre = b ∷ rest.pre;
        post = rest.post;
        split = ap (λ l. b ∷ l) rest.split;
        at = rest.at;
        before = rw taken (ap (λ l. (start, b.size) ∷ l) rest.before ∙ ap (λ c. c ∷ xs) first);
        behind = rest.behind;
      }
]

-- What `free` does to the list: it returns, the blocks fill the heap again, those in use are the ones
-- before less the one that is freed, and no byte of them changes.
pub record Returned (r : Range) (s : State) (xs ys : List (ℕ × ℕ)) (res : Run State) : Type 0 where
  pub state : State
  pub blocks : List Block
  pub result : res ≡ ok state
  pub heap : IsHeap r state blocks
  pub used_less : used r.start blocks ≡ xs ++ ys
  pub kept : (x : ℕ) → Covered (xs ++ ys) x → state.mem x ≡ s.mem x

module _ (r : Range) (s : State) (bs : List Block) (xs ys : List (ℕ × ℕ)) (a n : ℕ)
    (v : IsHeap r s bs) (live : used r.start bs ≡ xs ++ (a, n) ∷ ys) where
  -- The block among the others.
  here : UsedAt r.start bs xs ys a n
  here = UsedAt-of_used r.start bs xs ys a n live

  heap : IsHeap r s (here.pre ++ in_use n ∷ here.post)
  heap = subst (IsHeap r s) here.split v

  -- On a well-formed heap whose index has room for one more hole, `free` of the data of a block in
  -- use returns: the heap is well formed again, so no two holes touch and the index holds exactly
  -- the holes, the blocks in use are the ones before less the one that is freed, and no byte of
  -- them changes.
  pub free-Returned : s.heap.index.size < r.max_size → Returned r s xs ys (free s (a + 9))
  free-Returned room =
      let f =
        subst (λ p. Released r s here.pre n here.post (free s (p + 9))) here.at
          (free-Released r s here.pre here.post n heap room) in
      let less : used r.start f.blocks ≡ xs ++ ys =
        f.used_same
        ∙ ap (λ p. used r.start here.pre ++ used (p + 17 + n) here.post) here.at
        ∙ ap (λ u. u ++ used (a + 17 + n) here.post) here.before
        ∙ ap (λ u. xs ++ u) here.behind in
      record {
        state = f.state;
        blocks = f.blocks;
        result = f.result;
        heap = f.heap;
        used_less = less;
        kept = λ x c. f.kept x (subst (λ u. Covered u x) (sym less) c);
      }

  -- A write to the data of a block in use.
  pub update-IsHeap :
      (x value : ℕ)
      → a + 9 ≤ x
      → x < a + 9 + n
      → IsHeap r (record s { mem = update s.mem x value }) bs
  update-IsHeap x value lo hi =
      let m : Mem = update s.mem x value in
      let parts = Layout-split s.mem r.start here.pre (in_use n ∷ here.post) r.end heap.layout in
      let at : after r.start here.pre ≡ a = here.at in
      let ge : r.start ≤ after r.start here.pre = after-ge r.start here.pre in
      let le = Layout-ge s.mem (after r.start here.pre + 17 + n) here.post r.end parts.1.2 in
      let layout : Layout m r.start (here.pre ++ in_use n ∷ here.post) r.end =
        Layout-append m r.start here.pre (in_use n ∷ here.post) (after r.start here.pre) r.end
          (Layout-eq s.mem m r.start here.pre (after r.start here.pre) (λ y l h. ground arith)
            parts.0)
          (
            IsBlock-eq s.mem m (after r.start here.pre) n 0 (λ y t. ground (arith, t)) parts.1.0,
            parts.1.1,
            Layout-eq s.mem m (after r.start here.pre + 17 + n) here.post r.end
                (λ y l h. ground arith) parts.1.2,
          ) in
      record {
        placed = IsPlaced-kept r s m s.heap.index refl v.placed;
        fenced =
            IsFenced-kept r s.mem m v.placed.low (λ y l. ground arith) (λ y l. ground arith)
              v.fenced;
        layout = subst (λ l. Layout m r.start l r.end) (sym here.split) layout;
        listed = v.listed;
        coalesced = v.coalesced;
      }
