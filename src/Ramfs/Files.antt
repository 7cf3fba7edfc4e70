-- ===== src/Ramfs/Files.antt =====
-- writeFS and readFS: what they leave in memory.
use myreallyoldkernel.Memory.{Memory, store8}
use myreallyoldkernel.Memory.Laws.{CopiesForwards}
use myreallyoldkernel.Paging.{◌+w◌}
use myreallyoldkernel.Prelude.{
  ℕ, zero, suc, ◌+◌, ◌-◌, ◌^◌, ◌≤◌, ◌<◌, ◌≡◌, ap, ◌⊎◌, arith, ◌&&◌, ltb, leb, if◌then◌else◌,
}
use myreallyoldkernel.Ramfs.{Ramfs, copy_bytes, write_fs, read_fs}

-- The rounds left copy the rest of the block.
copy_bytes-reads :
    (n i : ℕ) (m : Memory) (dst src pos b : ℕ)
    → dst + i + n ≤ 2 ^ 32
    → src + pos + i + n ≤ 2 ^ 32
    → CopiesForwards (dst + i) (src + pos + i) n
    → copy_bytes n i m dst src pos b
      ≡ (if leb (dst + i) b && ltb b (dst + i + n) then m (src + pos + (b - dst)) else m b)
unfolding copy_bytes store8
copy_bytes-reads zero i m dst src pos b hd hs apart = ground arith
copy_bytes-reads (suc n) i m dst src pos b hd hs apart =
    let to : dst +w i ≡ dst + i = omega arith in
    let from : src +w (i + pos) ≡ src + pos + i = omega arith in
    ground (
      arith,
      to,
      from,
      copy_bytes-reads n (i + 1) (store8 m (dst +w i) (m (src +w (i + pos)))) dst src pos b,
      λ (h : dst + i ≡ b). ap m (let e : src + pos + i ≡ src + pos + (b - dst) = omega arith in e),
    )

abbrev pub memory_of : ℕ × Ramfs → (ℕ → ℕ)
memory_of r = r.1.heap.pages.memory

-- A file is written from its start, and then `n` bytes of it are read from a position on, all of
-- them within the bytes written; blocks lie below 2 ^ 32 and no destination starts inside its
-- source. The reader's buffer then holds the writer's bytes from that position on, and a byte
-- outside of the file and of the reader's buffer is as before.
pub read_fs-write_fs :
    (s : Ramfs) (file count buf n pos dest : ℕ)
    → let extent = (s.entries file).extent in
      let written = write_fs s file count buf in
      extent + count ≤ 2 ^ 32
      → buf + count ≤ 2 ^ 32
      → dest + n ≤ 2 ^ 32
      → pos + n ≤ count
      → CopiesForwards extent buf count
      → CopiesForwards dest (extent + pos) n
      → ((j : ℕ)
          → j < n
          → memory_of (read_fs written.1 file n dest pos) (dest + j)
            ≡ s.heap.pages.memory (buf + pos + j))
        × ((b : ℕ)
            → (b < extent) ⊎ (extent + count ≤ b)
            → (b < dest) ⊎ (dest + n ≤ b)
            → memory_of (read_fs written.1 file n dest pos) b ≡ s.heap.pages.memory b)
unfolding write_fs read_fs
read_fs-write_fs s file count buf n pos dest fe fb fd within we re =
    let extent = (s.entries file).extent in
    let m = s.heap.pages.memory in
    let m1 = copy_bytes count 0 m extent buf 0 in
    let first = λ (b : ℕ).
      copy_bytes-reads count 0 m extent buf 0 b (omega arith) (omega arith) (omega arith) in
    let second = λ (b : ℕ).
      copy_bytes-reads n 0 m1 dest extent pos b (omega arith) (omega arith) (omega arith) in
    (
      λ j h.
          let here : extent + pos + 0 + (dest + j - dest) ≡ extent + pos + j = omega arith in
          let from : buf + 0 + 0 + (extent + pos + j - extent) ≡ buf + pos + j = omega arith in
          ground (arith, second (dest + j), first (extent + pos + j), ap m1 here, ap m from),
      λ b he hd. ground (arith, second b, first b),
    )
