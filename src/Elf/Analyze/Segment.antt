-- ===== src/Elf/Analyze/Segment.antt =====
-- VM/ELF/analyze.py, what the body of the loop of `load` does to the image.
use py_vm.Prelude.{
  length, length-append, ℕ, ◌+◌, ◌-◌, ◌≤◌, ◌<◌, ◌≡◌, refl, ◌∙◌, ◌⊎◌, inl, inr, List, ◌++◌, arith,
  ltb, if◌then◌else◌,
}
use py_vm.Outcome.{ok}
use py_vm.Elf.{ProgramHeader, read_file, field8}
use py_vm.Elf.Headers.{read_file-item}
use py_vm.Loader.{zeros}
use py_vm.Loader.Segment.{length-zeros, zeros-item, whole_size}
use py_vm.Elf.Analyze.{splice, add_segment}
use py_vm.Elf.Analyze.Splice.{
  field8-append, field8-past, length-splice, splice-before, splice-middle, splice-behind,
}

-- The image, extended by zeros up to the end of a segment.
abbrev grown_to : ℕ → List ℕ → List ℕ
grown_to limit ret = if ltb (length ret) limit then ret ++ zeros (limit - length ret) else ret

abbrev pub larger : ℕ → ℕ → ℕ
larger n m = if ltb n m then m else n

length-grown_to :
    (limit : ℕ) (ret : List ℕ) → length (grown_to limit ret) ≡ larger (length ret) limit
length-grown_to limit ret =
    let l = length-append ret (zeros (limit - length ret)) in
    let z = length-zeros (limit - length ret) in ground (arith, l, z)

padded-item : (ret : List ℕ) (n j : ℕ) → field8 (ret ++ zeros n) j ≡ field8 ret j
padded-item ret n j =
    let l = field8-append ret (zeros n) j in
    let z = zeros-item n (j - length ret) in let p = field8-past ret j in grind (arith, l, z, p)

grown_to-item : (limit : ℕ) (ret : List ℕ) (j : ℕ) → field8 (grown_to limit ret) j ≡ field8 ret j
grown_to-item limit ret j = let l = padded-item ret (limit - length ret) j in ground (arith, l)

-- The same for the image as for the memory: its length, the bytes of the file, the zeros, and the rest.
abbrev pub IsAdded : List ℕ → ProgramHeader → List ℕ → List ℕ → Type 0
IsAdded file p ret ret' =
    (length ret' ≡ larger (length ret) (p.p_vaddr + p.p_memsz))
    × ((i : ℕ) → i < p.p_filesz → field8 ret' (p.p_vaddr + i) ≡ field8 file (p.p_offset + i))
    × ((i : ℕ) → p.p_filesz ≤ i → i < p.p_memsz → field8 ret' (p.p_vaddr + i) ≡ 0)
    × ((j : ℕ) → (j < p.p_vaddr) ⊎ (p.p_vaddr + p.p_memsz ≤ j) → field8 ret' j ≡ field8 ret j)

module _ (file : List ℕ) (p : ProgramHeader) (ret : List ℕ)
    (whole : p.p_offset + p.p_filesz ≤ length file) (grows : p.p_filesz ≤ p.p_memsz) where
  abbrev grown : List ℕ
  grown = grown_to (p.p_vaddr + p.p_memsz) ret

  abbrev bytes : List ℕ
  bytes = read_file file p.p_offset p.p_filesz

  abbrev filled : List ℕ
  filled = splice grown p.p_vaddr (p.p_vaddr + p.p_filesz) bytes

  abbrev rest : List ℕ
  rest = zeros (p.p_memsz - p.p_filesz)

  abbrev pub added : List ℕ
  added = splice filled (p.p_vaddr + p.p_filesz) (p.p_vaddr + p.p_memsz) rest

  pub add_segment-added : add_segment file p ret ≡ ok added
  unfolding add_segment
  add_segment-added = ground (arith, grows)

  filled_size : p.p_vaddr + length bytes ≡ p.p_vaddr + p.p_filesz
  filled_size = let w = whole_size file p.p_offset p.p_filesz whole in omega (arith, w)

  filled_room : p.p_vaddr + p.p_filesz ≤ length grown
  filled_room = let l = length-grown_to (p.p_vaddr + p.p_memsz) ret in ground (arith, l, grows)

  length-filled : length filled ≡ length grown
  length-filled =
      length-splice grown bytes p.p_vaddr (p.p_vaddr + p.p_filesz) filled_size filled_room

  rest_size : p.p_vaddr + p.p_filesz + length rest ≡ p.p_vaddr + p.p_memsz
  rest_size = let z = length-zeros (p.p_memsz - p.p_filesz) in omega (arith, z, grows)

  rest_room : p.p_vaddr + p.p_memsz ≤ length filled
  rest_room =
      let l = length-grown_to (p.p_vaddr + p.p_memsz) ret in
      let f = length-filled in ground (arith, l, f)

  added-before : (j : ℕ) → j < p.p_vaddr + p.p_filesz → field8 added j ≡ field8 filled j
  added-before j h =
      splice-before filled rest (p.p_vaddr + p.p_filesz) (p.p_vaddr + p.p_memsz) rest_size rest_room
        j h

  filled-before : (j : ℕ) → j < p.p_vaddr → field8 filled j ≡ field8 grown j
  filled-before j h =
      splice-before grown bytes p.p_vaddr (p.p_vaddr + p.p_filesz) filled_size filled_room j h

  added-other :
      (j : ℕ) → (j < p.p_vaddr) ⊎ (p.p_vaddr + p.p_memsz ≤ j) → field8 added j ≡ field8 ret j
  added-other j (inl h) =
      added-before j (omega (arith, h))
      ∙ filled-before j h
      ∙ grown_to-item (p.p_vaddr + p.p_memsz) ret j
  added-other j (inr h) =
      splice-behind filled rest (p.p_vaddr + p.p_filesz) (p.p_vaddr + p.p_memsz) rest_size rest_room
        j h
      ∙ splice-behind grown bytes p.p_vaddr (p.p_vaddr + p.p_filesz) filled_size filled_room j
          (omega (arith, h, grows))
      ∙ grown_to-item (p.p_vaddr + p.p_memsz) ret j

  pub added-IsAdded : IsAdded file p ret added
  added-IsAdded = (
    length-splice filled rest (p.p_vaddr + p.p_filesz) (p.p_vaddr + p.p_memsz) rest_size rest_room
        ∙ length-filled
        ∙ length-grown_to (p.p_vaddr + p.p_memsz) ret,
    (λ i h.
        added-before (p.p_vaddr + i) (omega (arith, h))
        ∙ splice-middle grown bytes p.p_vaddr (p.p_vaddr + p.p_filesz) filled_size filled_room
            (p.p_vaddr + i) i refl (let s = filled_size in omega (arith, h, s))
        ∙ read_file-item file p.p_offset p.p_filesz i h),
    (λ i low high.
        splice-middle filled rest (p.p_vaddr + p.p_filesz) (p.p_vaddr + p.p_memsz) rest_size
          rest_room (p.p_vaddr + i) (i - p.p_filesz) (omega (arith, low))
          (let s = rest_size in omega (arith, low, high, s))
        ∙ zeros-item (p.p_memsz - p.p_filesz) (i - p.p_filesz)),
    added-other,
  )
