-- ===== src/Elf/Image.antt =====
-- The pages that loadELF maps for a program, and the padding between its two segments.
use native.Mathlib.Decide.{ℕ_discrete}
use myreallyoldkernel.Bits.Digits.{bit_and-ones, bit_and-double}
use myreallyoldkernel.Boot.{◌-w◌}
use myreallyoldkernel.Elf.{
  ProgramHeader, copies, image_base, map_image_page, map_pages, map_image, user_writes, run_writes,
}
use myreallyoldkernel.Memory.{Memory, kmemcpy}
use myreallyoldkernel.Memory.Laws.{kmemcpy-reads}
use myreallyoldkernel.Paging.{page_size, alloc_page, ◌+w◌}
use myreallyoldkernel.Prelude.{
  ℕ, zero, suc, ◌+◌, ◌-◌, ◌*◌, ◌/◌, ◌%◌, ◌^◌, ◌≤◌, ◌<◌, ◌≡◌, ◌↔◌, inl, inr, refl, sym, ap, ◌∙◌,
  arith, bit_and, true, false, ◌&&◌, Option, none, some, [], ◌∷◌, ltb, leb, ◌==◌, if◌then◌else◌,
  ◌>>=◌, Option-cases,
}
use myreallyoldkernel.Tasks.{Tasks, getpid, map_task_page}

bind_some : (o : Option Tasks) → (o >>= λ s. some s) ≡ o
bind_some none = refl
bind_some (some s) = refl

-- A page more at the end of the loop.
map_pages_last :
    (walk n i : ℕ) (s : Tasks)
    → (map_pages walk n i s >>= map_image_page walk (i + n)) ≡ map_pages walk (suc n) i s
unfolding map_pages
map_pages_last walk zero i s =
    let here : i + 0 ≡ i = omega arith in
    ap (λ (j : ℕ). map_image_page walk j s) here ∙ sym (bind_some (map_image_page walk i s))
map_pages_last walk (suc n) i s = elim (Option-cases (map_image_page walk i s)) [
  | inl e ↦ rw e refl
  | inr (s', e) ↦
      let same : i + suc n ≡ i + 1 + n = omega arith in
      rw (e, same) (map_pages_last walk n (i + 1) s')
]

-- The page of the image at an address 0x1000 * i above 0x00400000 is in use.
abbrev pub Reaches : ℕ → ℕ → Type 0
Reaches top i = 0x0040_0000 + 0x1000 * i < top

-- A page for each of `n` addresses, 0x1000 apart, from `address` on: the next page that allocPage returns
-- mapped there in the task that getpid names.
unfoldable pub map_from : ℕ → ℕ → ℕ → Tasks → Option Tasks
map_from walk zero address s = some s
map_from walk (suc n) address s = do
  (page, pages) ← alloc_page s.heap.pages
  let s' : Tasks = record s { heap = record s.heap { pages = pages } }
  (_, mapped) ← map_task_page walk s' (getpid s') page address
  map_from walk n (address + 0x1000) mapped

-- The pages by their number are those by their address.
map_pages-map_from :
    (walk n i address : ℕ) (s : Tasks)
    → address ≡ 0x0040_0000 + 0x1000 * i
    → address + 0x1000 * n < 2 ^ 32 + 0x1000
    → map_pages walk n i s ≡ map_from walk n address s
unfolding map_pages map_image_page map_from
map_pages-map_from walk zero i address s at below = refl
map_pages-map_from walk (suc n) i address s at below =
    let here : image_base +w page_size * i ≡ address = omega (arith, at, below) in
    elim (Option-cases (alloc_page s.heap.pages)) [
      | inl e ↦ rw e refl
      | inr ((page, pages), e) ↦
          let s' : Tasks = record s { heap = record s.heap { pages = pages } } in
          elim (Option-cases (map_task_page walk s' (getpid s') page address)) [
            | inl e' ↦ rw (e, here, e') refl
            | inr ((answer, mapped), e') ↦
                rw (e, here, e')
                  (map_pages-map_from walk n (i + 1) (address + 0x1000) mapped (omega (arith, at))
                    (omega arith))
          ]
    ]

image_pages :
    (walk top : ℕ) (s : Tasks) (bytes : ℕ)
    → top -w image_base ≡ bytes
    → map_image walk top s
      ≡ map_pages walk
          (if bytes % page_size == 0 then bytes / page_size else suc (bytes / page_size))
          0
          s
unfolding map_image
image_pages walk top s bytes e = elim (ℕ_discrete (bytes % page_size) 0) [
  | yes z ↦ elim (Option-cases (map_pages walk (bytes / page_size) 0 s)) [
    | inl none_left ↦ rw (e, z, map_image, none_left) refl
    | inr (s', done) ↦ rw (e, z, map_image, done) refl
  ]
  | no nz ↦
      let rest : (bytes % page_size == 0) ≡ false = ground (arith, nz) in
      let here : 0 + bytes / page_size ≡ bytes / page_size = omega arith in
      rw (e, rest, map_image)
        (ap (λ (i : ℕ). map_pages walk (bytes / page_size) 0 s >>= map_image_page walk i) (sym here)
          ∙ map_pages_last walk (bytes / page_size) 0 s)
]

-- For an image that ends at `top`, from 0x00400000 to below 2 ^ 32, loadELF maps a page of its own at each
-- address 0x00400000 + 0x1000 * i below `top` and at no other, in the order of the addresses, in the
-- task that runs; where a page cannot be allocated or mapped it has no result.
pub map_image-Reaches :
    (walk top : ℕ) (s : Tasks)
    → 0x0040_0000 ≤ top
    → top < 2 ^ 32
    → (n : ℕ) × (map_image walk top s ≡ map_from walk n 0x0040_0000 s)
      × ((i : ℕ) → (i < n) ↔ Reaches top i)
map_image-Reaches walk top s low high =
    let bytes = top - image_base in
    let n = if bytes % page_size == 0 then bytes / page_size else suc (bytes / page_size) in
    let e : top -w image_base ≡ bytes = omega arith in
    let below : 0x0040_0000 + 0x1000 * n < 2 ^ 32 + 0x1000 = ground arith in
    (
      n,
      image_pages walk top s bytes e ∙ map_pages-map_from walk n 0 0x0040_0000 s refl below,
      λ i. (ground arith, ground arith),
    )

page_line_lem : (v : ℕ) → v < 2 ^ 32 → bit_and v 0xFFFF_F000 ≡ v / 0x1000 * 0x1000
page_line_lem v h = omega (
  arith,
  bit_and-double v 0x7FFF_F800,
  bit_and-double (v / 2) 0x3FFF_FC00,
  bit_and-double (v / 2 / 2) 0x1FFF_FE00,
  bit_and-double (v / 2 / 2 / 2) 0x0FFF_FF00,
  bit_and-double (v / 2 / 2 / 2 / 2) 0x07FF_FF80,
  bit_and-double (v / 2 / 2 / 2 / 2 / 2) 0x03FF_FFC0,
  bit_and-double (v / 2 / 2 / 2 / 2 / 2 / 2) 0x01FF_FFE0,
  bit_and-double (v / 2 / 2 / 2 / 2 / 2 / 2 / 2) 0x00FF_FFF0,
  bit_and-double (v / 2 / 2 / 2 / 2 / 2 / 2 / 2 / 2) 0x007F_FFF8,
  bit_and-double (v / 2 / 2 / 2 / 2 / 2 / 2 / 2 / 2 / 2) 0x003F_FFFC,
  bit_and-double (v / 2 / 2 / 2 / 2 / 2 / 2 / 2 / 2 / 2 / 2) 0x001F_FFFE,
  bit_and-double (v / 2 / 2 / 2 / 2 / 2 / 2 / 2 / 2 / 2 / 2 / 2) 0x000F_FFFF,
  bit_and-ones 20 (v / 2 / 2 / 2 / 2 / 2 / 2 / 2 / 2 / 2 / 2 / 2 / 2),
)

-- Both copies, where the padding at the end of the first page is not empty.
pad_lem :
    (m : Memory) (e p v b : ℕ)
    → e < p
    → p < v
    → v + (p - e) ≤ 2 ^ 32
    → v - p ≤ e
    → kmemcpy (kmemcpy m e v (p - e)) p (e - (v - p)) (v - p) b ≡ (
        if leb e b && ltb b p
        then m (v + (b - e))
        else if leb p b && ltb b v
        then m (e - (v - p) + (b - p))
        else m b)
pad_lem m e p v b h1 h2 h3 h4 =
    let m' = kmemcpy m e v (p - e) in
    let t = v - p in
    let from : ℕ = e - t + (b - p) in
    ground (
      arith,
      kmemcpy-reads m' p (e - t) t b (omega arith) (omega arith) (omega arith) (inr (omega arith)),
      kmemcpy-reads m e v (p - e) b (omega arith) (omega arith) (omega arith) (inl (omega arith)),
      kmemcpy-reads m e v (p - e) from (omega arith) (omega arith) (omega arith)
          (inl (omega arith)),
    )

-- The bytes behind two segments, the first in [.., `end`) and the second from `v` on: `p` is the
-- start of the second one's page.
abbrev pub Padded : Memory → Memory → ℕ → ℕ → ℕ → Type 0
Padded m m' end p v =
    (b : ℕ)
    → m' b ≡ (
        if leb end b && ltb b p
        then m (v + (b - end))
        else if leb p b && ltb b v
        then m (end - (v - p) + (b - p))
        else m b)

copies_lem :
    (m : Memory) (end p v : ℕ)
    → end < p
    → p ≤ v
    → v + (p - end) ≤ 2 ^ 32
    → v - p ≤ end
    → (file : ℕ → ℕ → ℕ → Memory → Memory)
    → Padded m
        (run_writes file
          (copies end v (p - end)
            ∷ (if ltb 0 (v - p) then copies p (end - (v - p)) (v - p) ∷ [] else []))
          m)
        end
        p
        v
unfolding run_writes
copies_lem m end p v h1 h2 h3 h4 file b = elim (ℕ_discrete v p) [
  | yes e ↦
      let none_left : ltb 0 (v - p) ≡ false = ground (arith, e) in
      rw none_left (
        ground (
          arith,
          e,
          kmemcpy-reads m end v (p - end) b (omega arith) (omega arith) (omega arith)
              (inl (omega arith)),
        ))
  | no ne ↦
      let more : ltb 0 (v - p) ≡ true = ground (arith, ne, h2) in
      rw more (pad_lem m end p v b h1 (omega arith) h3 h4)
]

-- What loadELF leaves in a program's memory, whatever its reads of the file leave in it, where the
-- first segment ends at `end`, before the page `p` of the second one, which starts at `v`. Each byte
-- from `end` to `p` is one from the start of the second segment on, each byte from `p` to `v` is
-- one of the last `v - p` bytes before `end`, and no other byte changes.
pub user_writes-Padded :
    (file : ℕ → ℕ → ℕ → Memory → Memory) (m : Memory) (fd : ℕ) (first second : ProgramHeader)
    (end p : ℕ)
    → first.p_vaddr + first.p_memsz ≡ end
    → second.p_vaddr / 0x1000 * 0x1000 ≡ p
    → end < p
    → second.p_vaddr + (p - end) ≤ 2 ^ 32
    → second.p_vaddr - p ≤ end
    → Padded
        (file fd first.p_filesz first.p_vaddr (file fd first.p_filesz first.p_vaddr m))
        (run_writes file (user_writes fd first second) m)
        end
        p
        second.p_vaddr
unfolding user_writes run_writes
user_writes-Padded file m fd first second end p ends page h1 h2 h3 =
    let v = second.p_vaddr in
    let m' = file fd first.p_filesz first.p_vaddr (file fd first.p_filesz first.p_vaddr m) in
    let line : bit_and v 0xFFFF_F000 ≡ p = page_line_lem v (omega arith) ∙ page in
    let sum : first.p_vaddr +w first.p_memsz ≡ end = omega arith in
    let pad : p -w end ≡ p - end = omega arith in
    let text : v -w p ≡ v - p = omega arith in
    let dst : p -w (p - end) ≡ end = omega arith in
    let src : p +w (v - p) ≡ v = omega arith in
    let from : end -w (v - p) ≡ end - (v - p) = omega arith in
    rw (line, sum, pad, text, dst, src, from)
      (copies_lem m' end p v h1 (omega (arith, page)) h2 h3 file)
