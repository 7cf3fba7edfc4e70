-- ===== src/Paging/Kmalloc.antt =====
-- Blocks that kmalloc hands out: where they lie, and that they are disjoint.
use mathlib.Core.Path.{subst}
use myreallyoldkernel.Paging.{Pages, page_size, Heap, init_heap, bump, kmalloc, ◌+w◌}
use myreallyoldkernel.Paging.Alloc.{Allocated, alloc_page-first}
use myreallyoldkernel.Paging.Search.{page_bit, InMap, IsFirstFree}
use myreallyoldkernel.Prelude.{
  ℕ, ◌+◌, ◌*◌, ◌^◌, ◌≤◌, ◌<◌, ◌≡◌, refl, ◌≢◌, ap, sym, ◌∙◌, ◌⊎◌, inl, inr, arith, true, some, ltb,
  length, Bool-cases,
}

-- The heap cuts blocks from page `base`, which is marked as used.
pub record IsHeap (h : Heap) (base : ℕ) : Type 0 where
  pub words : length h.pages.bitmap ≡ 1024
  pub in_map : InMap h.pages.bitmap base
  pub used : page_bit h.pages.bitmap base ≡ 1
  pub low : base * page_size ≤ h.next_address
  pub high : h.next_address ≤ h.end_of_page
  pub end : h.end_of_page ≡ base * page_size + page_size

-- A block of `bytes` at `a` was cut: from what is left of page `base`, or from page `p`.
pub record Cut (h : Heap) (base p bytes a : ℕ) (h' : Heap) (base' : ℕ) : Type 0 where
  pub heap : IsHeap h' base'
  pub low : base' * page_size ≤ a
  pub next : h'.next_address ≡ a + bytes
  pub source :
      ((base' ≡ base) × (a ≡ h.next_address) × (h.next_address + bytes ≤ h.end_of_page))
      ⊎ ((base' ≡ p) × (a ≡ p * page_size) × (h.end_of_page < h.next_address + bytes))

bump-exact :
    (h : Heap) (bytes : ℕ)
    → h.next_address + bytes < 2 ^ 32
    → ((bump h bytes).0 ≡ h.next_address)
      × ((bump h bytes).1.next_address ≡ h.next_address + bytes)
      × ((bump h bytes).1.end_of_page ≡ h.end_of_page)
unfolding bump
bump-exact h bytes fits = omega arith

pages-bump : (h : Heap) (bytes : ℕ) → (bump h bytes).1.pages ≡ h.pages
unfolding bump
pages-bump h bytes = refl

bump-IsHeap :
    (h : Heap) (base bytes : ℕ)
    → IsHeap h base
    → h.next_address + bytes ≤ h.end_of_page
    → IsHeap (bump h bytes).1 base
unfolding bump
bump-IsHeap h base bytes v fits = record {
  words = v.words;
  in_map = v.in_map;
  used = v.used;
  low = omega (arith, v.low, v.end, v.in_map, v.words);
  high = omega (arith, v.end, v.in_map, v.words);
  end = v.end;
}

abbrev fresh_heap : Heap → ℕ × Pages → Heap
fresh_heap h r = record {
  pages = r.1;
  next_address = r.0;
  end_of_page = r.0 +w page_size;
  num_heap_pages = h.num_heap_pages +w 1;
}

fresh_heap-IsHeap :
    (h : Heap) (p : ℕ) (r : ℕ × Pages)
    → length h.pages.bitmap ≡ 1024
    → InMap h.pages.bitmap p
    → Allocated h.pages p r.0 r.1
    → IsHeap (fresh_heap h r) p
fresh_heap-IsHeap h p r words inside got = record {
  words = omega (arith, got.same_length);
  in_map = omega (arith, got.same_length);
  used = got.taken;
  low = omega (arith, got.address);
  high = omega (arith, got.in_range);
  end = omega (arith, got.address, got.in_range);
}

-- On a heap over page `base`, with `p` the first free page and at most a page of bytes, kmalloc
-- succeeds: it cuts the block behind the last one where that fits the page, and else at the start
-- of page `p`, and the block ends where the next one starts, in a page marked as used.
pub kmalloc-Cut :
    (h : Heap) (base p bytes : ℕ)
    → IsHeap h base
    → IsFirstFree h.pages.bitmap 0 p
    → bytes ≤ page_size
    → (r : ℕ × Heap) × (base' : ℕ) × (kmalloc h bytes ≡ some r) × Cut h base p bytes r.0 r.1 base'
unfolding kmalloc
kmalloc-Cut h base p bytes v first small =
    elim (Bool-cases (ltb h.end_of_page (h.next_address +w bytes))) [
      | inr stays ↦
          let fits : h.next_address + bytes ≤ h.end_of_page =
            ground (arith, v.end, v.high, v.in_map, v.words) in
          let range : h.next_address + bytes < 2 ^ 32 = omega (arith, v.end, v.in_map, v.words) in
          let (at, next, _) = bump-exact h bytes range in
          (
            bump h bytes,
            base,
            rw stays,
            record {
              heap = bump-IsHeap h base bytes v fits;
              low = omega (arith, at, v.low);
              next = omega (arith, at, next);
              source = inl (refl, at, fits);
            },
          )
      | inl leaves ↦
          let over : h.end_of_page < h.next_address + bytes =
            ground (arith, v.end, v.high, v.in_map, v.words) in
          let (r, got, done) = alloc_page-first h.pages p v.words first in
          let new = fresh_heap-IsHeap h p r v.words first.free.in_map done in
          let (at, next, _) = bump-exact (fresh_heap h r) bytes (omega (arith, done.in_range)) in
          (
            bump (fresh_heap h r) bytes,
            p,
            rw (leaves, got),
            record {
              heap = bump-IsHeap (fresh_heap h r) p bytes new (omega (arith, done.in_range));
              low = omega (arith, at, done.address);
              next = omega (arith, at, next);
              source = inr (refl, ground (arith, at, done.address), over);
            },
          )
    ]

-- Two cuts one behind the other.
Cut-disjoint :
    (h : Heap) (base p m a : ℕ) (h' : Heap) (base' p' n b : ℕ) (h'' : Heap) (base'' : ℕ)
    → Cut h base p m a h' base'
    → IsFirstFree h'.pages.bitmap 0 p'
    → Cut h' base' p' n b h'' base''
    → n ≤ page_size
    → m ≤ page_size
    → (a + m ≤ b) ⊎ (b + n ≤ a)
Cut-disjoint h base p m a h' base' p' n b h'' base'' first free second hn hm = elim second.source [
  | inl (_, at, _) ↦ inl (omega (arith, first.next))
  | inr (at, _, _) ↦
      let apart : p' ≢ base' = λ e. absurd (
        omega (
          arith,
          first.heap.used,
          free.free.clear,
          ap (λ (t : ℕ). page_bit h'.pages.bitmap t) e,
        )) in
      omega (
        arith, apart, first.low, first.next, first.heap.high, first.heap.end, second.heap.high,
        second.heap.end, second.next, second.low,
      )
]

-- Two calls of kmalloc one after the other, of at most a page each, on a heap over page `base` and with
-- a first free page at each call, the first of which returned `a`: the second one succeeds as well, and
-- their blocks share no byte: one ends before the other starts.
pub kmalloc_disjoint :
    (h : Heap) (base p m a : ℕ) (h' : Heap) (p' n : ℕ)
    → IsHeap h base
    → IsFirstFree h.pages.bitmap 0 p
    → m ≤ page_size
    → n ≤ page_size
    → kmalloc h m ≡ some (a, h')
    → IsFirstFree h'.pages.bitmap 0 p'
    → (b : ℕ) × (h'' : Heap) × (kmalloc h' n ≡ some (b, h'')) × ((a + m ≤ b) ⊎ (b + n ≤ a))
kmalloc_disjoint h base p m a h' p' n v first hm hn got free =
    let (r, base', runs, cut) = kmalloc-Cut h base p m v first hm in
    let both : some r ≡ some (a, h') = sym runs ∙ got in
    let same : r ≡ (a, h') = cc in
    let here : Cut h base p m a h' base' =
      subst (λ (x : ℕ × Heap). Cut h base p m x.0 x.1 base') same cut in
    let (r', base'', runs', cut') = kmalloc-Cut h' base' p' n here.heap free hn in
    (
      r'.0,
      r'.1,
      runs',
      Cut-disjoint h base p m a h' base' p' n r'.0 r'.1 base'' here free cut' hn hm,
    )

-- A block of more than a page and fewer than 2 ^ 31 bytes, on a heap over page `base`, with `p` the first
-- free page: kmalloc takes page `p` and no other, and the block that it returns starts there and runs
-- past the end of that page.
pub kmalloc_overruns :
    (h : Heap) (base p bytes : ℕ)
    → IsHeap h base
    → IsFirstFree h.pages.bitmap 0 p
    → page_size < bytes
    → bytes < 2 ^ 31
    → (r : ℕ × Heap) × (kmalloc h bytes ≡ some r)
      × (r.0 ≡ p * page_size)
      × (r.1.end_of_page ≡ p * page_size + page_size)
      × (r.1.end_of_page < r.0 + bytes)
      × ((q : ℕ) → q ≢ p → page_bit r.1.pages.bitmap q ≡ page_bit h.pages.bitmap q)
unfolding kmalloc
kmalloc_overruns h base p bytes v first large below =
    let leaves : ltb h.end_of_page (h.next_address +w bytes) ≡ true =
      ground (arith, v.low, v.end, v.high, v.in_map, v.words) in
    let (r, got, done) = alloc_page-first h.pages p v.words first in
    let range : r.0 + bytes < 2 ^ 32 = omega (arith, done.in_range) in
    let (at, _, end) = bump-exact (fresh_heap h r) bytes range in
    let here : (bump (fresh_heap h r) bytes).0 ≡ p * page_size = omega (arith, at, done.address) in
    let stop : (bump (fresh_heap h r) bytes).1.end_of_page ≡ p * page_size + page_size =
      omega (arith, end, done.address, done.in_range) in
    (
      bump (fresh_heap h r) bytes,
      rw (leaves, got),
      here,
      stop,
      omega arith,
      λ q ne. rw (pages-bump (fresh_heap h r) bytes) (done.others q ne),
    )

-- initHeap starts a heap over the first free page.
pub init_heap-IsHeap :
    (s : Pages) (p : ℕ)
    → length s.bitmap ≡ 1024
    → IsFirstFree s.bitmap 0 p
    → (h : Heap) × (init_heap s ≡ some h) × IsHeap h p × (h.next_address ≡ p * page_size)
unfolding init_heap
init_heap-IsHeap s p words first =
    let (r, got, done) = alloc_page-first s p words first in
    (
      record {
        pages = r.1;
        next_address = r.0;
        end_of_page = r.0 +w page_size;
        num_heap_pages = 1;
      },
      rw (got, init_heap),
      record {
        words = omega (arith, done.same_length);
        in_map = omega (arith, done.same_length, first.free.in_map);
        used = done.taken;
        low = omega (arith, done.address);
        high = omega (arith, done.in_range);
        end = omega (arith, done.address, done.in_range);
      },
      done.address,
    )
