-- ===== src/Elf/Analyze/Holds.antt =====
-- VM/ELF/analyze.py, when the memory holds an image, and that one segment keeps it so.
use py_vm.Prelude.{
  length, ℕ, ◌+◌, ◌-◌, ◌%◌, ◌≤◌, ◌<◌, ◌≡◌, sym, ap, ◌∙◌, ◌⊎◌, inl, inr, Bool, true, false, Option,
  none, some, List, [], ◌∷◌, arith, ltb, ◌==◌, Bool-cases,
}
use py_vm.Outcome.{ok}
use py_vm.Elf.{ProgramHeader, field8, p_type_of}
use py_vm.Loader.Segment.{IsLoaded}
use py_vm.Elf.Analyze.Segment.{IsAdded}
use py_vm.Memory.{Memory}

-- The memory from the segment base on holds the image and then zeros.
abbrev pub IsImage : Memory → List ℕ → Type 0
IsImage m image = (i : ℕ) → m.cells (m.segment_base + i) ≡ field8 image i % 256

-- A loadable segment that the file and the memory, from the base on, hold; others are not loaded by either.
abbrev pub IsWhole : Bool → List ℕ → ℕ → ℕ → ProgramHeader → Type 0
IsWhole strict file base size p =
    (p_type_of strict p ≡ ok p.p_type)
    × ((p.p_type == 0x6474e550) ≡ false)
    × ((p.p_type == 1) ≡ true
        → (p.p_offset + p.p_filesz ≤ length file)
          × (p.p_filesz ≤ p.p_memsz)
          × (base + p.p_vaddr + p.p_memsz ≤ size))

abbrev pub AreWhole : Bool → List ℕ → ℕ → ℕ → List ProgramHeader → Type 0
AreWhole strict file base size [] = Unit
AreWhole strict file base size (p ∷ ps) =
    IsWhole strict file base size p × AreWhole strict file base size ps

-- Where the last segment ends.
abbrev pub end_of : Option ℕ → ℕ
end_of none = 0
end_of (some m) = m

data Part (start filesz memsz j : ℕ) : Type 0 where
  in_file : (i : ℕ) → j ≡ start + i → i < filesz → Part start filesz memsz j
  in_zeros : (i : ℕ) → j ≡ start + i → filesz ≤ i → i < memsz → Part start filesz memsz j
  elsewhere : (j < start) ⊎ (start + memsz ≤ j) → Part start filesz memsz j

place_of : (start filesz memsz j : ℕ) → Part start filesz memsz j
place_of start filesz memsz j = elim (Bool-cases (ltb j start)) [
  | inl before ↦ elsewhere (inl (ground arith))
  | inr behind ↦ elim (Bool-cases (ltb (j - start) memsz)) [
    | inr past ↦ elsewhere (inr (ground arith))
    | inl within ↦ elim (Bool-cases (ltb (j - start) filesz)) [
      | inl stored ↦ in_file (j - start) (ground arith) (ground arith)
      | inr cleared ↦ in_zeros (j - start) (ground arith) (ground arith) (ground arith)
    ]
  ]
]

moved : (b v n j : ℕ) → (j < v) ⊎ (v + n ≤ j) → (b + j < b + v) ⊎ (b + v + n ≤ b + j)
moved b v n j (inl h) = inl (omega arith)
moved b v n j (inr h) = inr (omega arith)

module _ (file : List ℕ) (p : ProgramHeader) (m m' : Memory) (ret ret' : List ℕ)
    (image : IsImage m ret) (loaded : IsLoaded file p m m') (added : IsAdded file p ret ret')
    (base : m'.segment_base ≡ m.segment_base) where
  abbrev cell : ℕ → ℕ
  cell j = m'.cells (m.segment_base + j)

  at_place : (j : ℕ) → Part p.p_vaddr p.p_filesz p.p_memsz j → cell j ≡ field8 ret' j % 256
  at_place j (in_file i e h) =
      let a = loaded.0 i h in
      let b = added.1 i h in
      ap cell e
      ∙ ap m'.cells (omega arith)
      ∙ a
      ∙ ap (λ (x : ℕ). x % 256) (sym b)
      ∙ ap (λ (k : ℕ). field8 ret' k % 256) (sym e)
  at_place j (in_zeros i e low high) =
      let a = loaded.1 i low high in
      let b = added.2 i low high in
      ap cell e
      ∙ ap m'.cells (omega arith)
      ∙ a
      ∙ ap (λ (x : ℕ). x % 256) (sym b)
      ∙ ap (λ (k : ℕ). field8 ret' k % 256) (sym e)
  at_place j (elsewhere h) =
      loaded.2 (m.segment_base + j) (moved m.segment_base p.p_vaddr p.p_memsz j h)
      ∙ image j
      ∙ ap (λ (x : ℕ). x % 256) (sym (added.3 j h))

  pub IsImage-added : IsImage m' ret'
  IsImage-added j =
      ap (λ (b : ℕ). m'.cells (b + j)) base ∙ at_place j (place_of p.p_vaddr p.p_filesz p.p_memsz j)
