-- ===== src/Loader/Segment.antt =====
-- VM/fetchLoop.py, `ExecuteELF`: what a loaded segment leaves in memory.
use py_vm.Prelude.{
  length, ℕ, zero, suc, ◌+◌, ◌-◌, ◌%◌, ◌≤◌, ◌<◌, ◌≡◌, refl, ap, ◌∙◌, ◌⊎◌, inl, inr, false, List, [],
  ◌∷◌, arith, ltb, ==_iff, pos,
}
use py_vm.Bytes.{Buffer, put, write_bytes}
use py_vm.Bytes.Laws.{write_bytes_outside}
use py_vm.Outcome.{ok}
use py_vm.Machine.{Machine, done}
use py_vm.Elf.{ProgramHeader, read_file, field8}
use py_vm.Elf.Headers.{read_file-item, length-read_file}
use py_vm.Loader.{zeros, load_segment}
use py_vm.Memory
use py_vm.Memory.{Memory}

write_bytes_inside :
    (b : Buffer) (i : ℕ) (xs : List ℕ) (j : ℕ)
    → j < length xs
    → write_bytes b i xs (i + j) ≡ field8 xs j % 256
unfolding write_bytes
write_bytes_inside b i [] j h = absurd (omega arith)
write_bytes_inside b i (x ∷ xs) zero h =
    write_bytes_outside (put b i (x % 256)) (i + 1) xs (i + 0) (inl (omega arith)) ∙ ground arith
write_bytes_inside b i (x ∷ xs) (suc j) h =
    ap (write_bytes (put b i (x % 256)) (i + 1) xs) (omega arith)
    ∙ write_bytes_inside (put b i (x % 256)) (i + 1) xs j (omega arith)

pub length-zeros : (n : ℕ) → length (zeros n) ≡ n
unfolding zeros
length-zeros zero = refl
length-zeros (suc n) = let l = length-zeros n in omega (arith, l)

pub zeros-item : (n j : ℕ) → field8 (zeros n) j ≡ 0
unfolding zeros
zeros-item zero j = refl
zeros-item (suc n) zero = refl
zeros-item (suc n) (suc j) = zeros-item n j

pub set_bytes_lem :
    (m : Memory) (o : ℕ) (xs : List ℕ)
    → m.segment_base + o + length xs ≤ m.size
    → Memory.set_bytes m (pos o) xs
      ≡ ok (record m { cells = write_bytes m.cells (m.segment_base + o) xs })
unfolding Memory.set_bytes Memory.asan
set_bytes_lem m o xs h = ground arith

shifted : (i a n j : ℕ) → a ≡ i + n → n ≤ j → i + j ≡ a + (j - n)
shifted i a n j e h = omega arith

-- Two writes, the second where the first one ends.
module _ (b : Buffer) (i a : ℕ) (xs ys : List ℕ) (adjacent : a ≡ i + length xs) where
  abbrev twice : Buffer
  twice = write_bytes (write_bytes b i xs) a ys

  twice_first : (j : ℕ) → j < length xs → twice (i + j) ≡ field8 xs j % 256
  twice_first j h =
      write_bytes_outside (write_bytes b i xs) a ys (i + j) (inl (omega arith))
      ∙ write_bytes_inside b i xs j h

  twice_second :
      (j : ℕ)
      → length xs ≤ j
      → j < length xs + length ys
      → twice (i + j) ≡ field8 ys (j - length xs) % 256
  twice_second j low high =
      ap twice (shifted i a (length xs) j adjacent low)
      ∙ write_bytes_inside (write_bytes b i xs) a ys (j - length xs) (omega arith)

  twice_outside : (j : ℕ) → (j < i) ⊎ (i + length xs + length ys ≤ j) → twice j ≡ b j
  twice_outside j (inl h) =
      write_bytes_outside (write_bytes b i xs) a ys j (inl (omega arith))
      ∙ write_bytes_outside b i xs j (inl h)
  twice_outside j (inr h) =
      write_bytes_outside (write_bytes b i xs) a ys j (inr (omega arith))
      ∙ write_bytes_outside b i xs j (inr (omega arith))

load_steps :
    (file : List ℕ) (p : ProgramHeader) (vm : Machine) (first second : Buffer)
    → Memory.set_bytes vm.mem (pos p.p_vaddr) (read_file file p.p_offset p.p_filesz)
      ≡ ok (record vm.mem { cells = first })
    → ltb p.p_memsz p.p_filesz ≡ false
    → Memory.set_bytes
        (record vm.mem { cells = first })
        (pos (p.p_vaddr + p.p_filesz))
        (zeros (p.p_memsz - p.p_filesz))
      ≡ ok (record vm.mem { cells = second })
    → load_segment file p vm ≡ done tt (record vm { mem = record vm.mem { cells = second } })
unfolding load_segment
load_steps file p vm first second a n b = grind (arith, a, n, b)

pub whole_size :
    (file : List ℕ) (position n : ℕ)
    → position + n ≤ length file
    → length (read_file file position n) ≡ n
whole_size file position n h =
    (==_iff (length (read_file file position n)) n).0
      (length-read_file file position n ∙ ground (arith, h))

past_end : (i n x y j : ℕ) → x + y ≡ n → (j < i) ⊎ (i + n ≤ j) → (j < i) ⊎ (i + x + y ≤ j)
past_end i n x y j e (inl h) = inl h
past_end i n x y j e (inr h) = inr (omega arith)

-- The bytes of a segment: those of the file, and then zeros.
abbrev pub IsLoaded : List ℕ → ProgramHeader → Memory → Memory → Type 0
IsLoaded file p m m' =
    let start = m.segment_base + p.p_vaddr in
    ((i : ℕ) → i < p.p_filesz → m'.cells (start + i) ≡ field8 file (p.p_offset + i) % 256)
    × ((i : ℕ) → p.p_filesz ≤ i → i < p.p_memsz → m'.cells (start + i) ≡ 0)
    × ((j : ℕ) → (j < start) ⊎ (start + p.p_memsz ≤ j) → m'.cells j ≡ m.cells j)

-- A segment that the file holds, whose size in memory is not the smaller one and which fits into the
-- memory: loading it completes, its bytes in memory are then those of the file and behind them
-- zeros, and every other byte and the rest of the machine are as before.
pub load_segment_lem :
    (file : List ℕ) (p : ProgramHeader) (vm : Machine)
    → p.p_offset + p.p_filesz ≤ length file
    → p.p_filesz ≤ p.p_memsz
    → vm.mem.segment_base + p.p_vaddr + p.p_memsz ≤ vm.mem.size
    → (vm' : Machine) × (load_segment file p vm ≡ done tt vm')
      × IsLoaded file p vm.mem vm'.mem
      × (vm' ≡ record vm { mem = record vm.mem { cells = vm'.mem.cells } })
load_segment_lem file p vm whole grows fits =
    let start = vm.mem.segment_base + p.p_vaddr in
    let behind = vm.mem.segment_base + (p.p_vaddr + p.p_filesz) in
    let bytes = read_file file p.p_offset p.p_filesz in
    let rest = zeros (p.p_memsz - p.p_filesz) in
    let first = write_bytes vm.mem.cells start bytes in
    let size : length bytes ≡ p.p_filesz = whole_size file p.p_offset p.p_filesz whole in
    let count : length rest ≡ p.p_memsz - p.p_filesz = length-zeros (p.p_memsz - p.p_filesz) in
    let adjacent : behind ≡ start + length bytes = omega (arith, size) in
    (
      record vm { mem = record vm.mem { cells = write_bytes first behind rest } },
      load_steps file p vm first (write_bytes first behind rest)
          (set_bytes_lem vm.mem p.p_vaddr bytes (omega (arith, size, grows, fits)))
          (ground (arith, grows))
          (set_bytes_lem (record vm.mem { cells = first }) (p.p_vaddr + p.p_filesz) rest
            (omega (arith, count, grows, fits))),
      (
        (λ i h.
            twice_first vm.mem.cells start behind bytes rest adjacent i (omega (arith, size, h))
            ∙ ap (λ (x : ℕ). x % 256) (read_file-item file p.p_offset p.p_filesz i h)),
        (λ i low high.
            twice_second vm.mem.cells start behind bytes rest adjacent i (omega (arith, size, low))
              (omega (arith, size, count, low, high))
            ∙ ap (λ (x : ℕ). x % 256) (zeros-item (p.p_memsz - p.p_filesz) (i - length bytes))),
        (λ j h. twice_outside vm.mem.cells start behind bytes rest adjacent j (
            past_end start p.p_memsz (length bytes) (length rest) j
              (omega (arith, size, count, grows)) h)),
      ),
      refl,
    )
