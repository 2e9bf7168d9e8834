-- ===== src/Elf/Analyze/Image.antt =====
-- VM/ELF/analyze.py, `load`, against `ExecuteELF` of VM/fetchLoop.py: the image is what the processor
-- finds in its memory.
use py_vm.Prelude.{
  length, ℕ, ◌+◌, ◌≡◌, refl, ap, ◌∙◌, inl, inr, Bool, true, false, Option, none, some, List, [],
  ◌∷◌, arith, ◌==◌, Bool-cases,
}
use py_vm.Outcome.{Result, ok, err}
use py_vm.Elf.{ProgramHeader, phdrs, p_type_of}
use py_vm.Loader.{max_memsz_of, load_segment, load_segments}
use py_vm.Loader.Segment.{load_segment_lem}
use py_vm.Machine.{Machine, done}
use py_vm.Elf.Analyze.{Analysis, then_ask, remember, add_segment, add_segments, load}
use py_vm.Elf.Analyze.Segment.{larger, added, add_segment-added, added-IsAdded}
use py_vm.Elf.Analyze.Holds.{IsImage, AreWhole, end_of, IsImage-added}
use py_vm.Elf
use py_vm.Elf.Analyze

larger_twice :
    (l r₁ r e m m' : ℕ) → l ≡ larger r₁ m → r₁ ≡ larger r e → m' ≡ larger e m → l ≡ larger r m'
larger_twice l r₁ r e m m' x y z = ground (arith, x, y, z)

module _ (strict : Bool) (file : List ℕ) (base size : ℕ) where
  -- Both loaders on the rest of the headers, from an image and a machine on.
  abbrev Agree : List ProgramHeader → List ℕ → Machine → Type 0
  Agree ps ret vm =
      (image : List ℕ) × (vm' : Machine) × (add_segments strict file ps ret ≡ ok image)
      × (load_segments strict file ps vm ≡ done tt vm')
      × IsImage vm'.mem image
      × (vm' ≡ record vm { mem = record vm.mem { cells = vm'.mem.cells } })
      × ((m : Option ℕ) × (max_memsz_of strict ps ≡ ok m)
          × (length image ≡ larger (length ret) (end_of m)))

  module _ (p : ProgramHeader) (ps : List ProgramHeader) (kind : p_type_of strict p ≡ ok p.p_type)
      (frame : (p.p_type == 0x6474e550) ≡ false) where
    skip_image :
        (ret : List ℕ)
        → (p.p_type == 1) ≡ false
        → add_segments strict file (p ∷ ps) ret ≡ add_segments strict file ps ret
    unfolding add_segments
    skip_image ret other = grind (arith, kind, other)

    skip_memory :
        (vm : Machine)
        → (p.p_type == 1) ≡ false
        → load_segments strict file (p ∷ ps) vm ≡ load_segments strict file ps vm
    unfolding load_segments
    skip_memory vm other = grind (arith, kind, other, frame)

    skip_end :
        (m : Option ℕ)
        → (p.p_type == 1) ≡ false
        → max_memsz_of strict ps ≡ ok m
        → max_memsz_of strict (p ∷ ps) ≡ ok m
    unfolding max_memsz_of
    skip_end m other rest = grind (arith, kind, other, rest)

    take_image :
        (ret ret' : List ℕ)
        → (p.p_type == 1) ≡ true
        → add_segment file p ret ≡ ok ret'
        → add_segments strict file (p ∷ ps) ret ≡ add_segments strict file ps ret'
    unfolding add_segments
    take_image ret ret' this added = grind (arith, kind, this, added)

    take_memory :
        (vm vm' : Machine)
        → (p.p_type == 1) ≡ true
        → load_segment file p vm ≡ done tt vm'
        → load_segments strict file (p ∷ ps) vm ≡ load_segments strict file ps vm'
    unfolding load_segments
    take_memory vm vm' this loaded = grind (arith, kind, this, loaded)

    take_end :
        (m : Option ℕ)
        → (p.p_type == 1) ≡ true
        → max_memsz_of strict ps ≡ ok m
        → (m' : Option ℕ) × (max_memsz_of strict (p ∷ ps) ≡ ok m')
          × (end_of m' ≡ larger (p.p_vaddr + p.p_memsz) (end_of m))
    unfolding max_memsz_of
    take_end none this rest =
        (some (p.p_vaddr + p.p_memsz), grind (arith, kind, this, rest), ground arith)
    take_end (some m) this rest =
        (some (larger (p.p_vaddr + p.p_memsz) m), grind (arith, kind, this, rest), ground arith)

  agree :
      (ps : List ProgramHeader) (ret : List ℕ) (vm : Machine)
      → vm.mem.segment_base ≡ base
      → vm.mem.size ≡ size
      → IsImage vm.mem ret
      → AreWhole strict file base size ps
      → Agree ps ret vm
  unfolding add_segments load_segments max_memsz_of
  agree [] ret vm e f image whole = (ret, vm, refl, refl, image, refl, (none, refl, ground arith))
  agree (p ∷ ps) ret vm e f image ((kind, frame, fits), whole) = elim (Bool-cases (p.p_type == 1)) [
    | inr other ↦
        let (image', vm', a, l, i, r, (m, k, n)) = agree ps ret vm e f image whole in
        (
          image',
          vm',
          skip_image p ps kind frame ret other ∙ a,
          skip_memory p ps kind frame vm other ∙ l,
          i,
          r,
          (m, skip_end p ps kind frame m other k, n),
        )
    | inl this ↦
        let (held, grows, room) = fits this in
        let (vm₁, l₁, loaded, r₁) =
          load_segment_lem file p vm held grows (omega (arith, e, f, room)) in
        let ret₁ = added file p ret held grows in
        let is_added = added-IsAdded file p ret held grows in
        let base₁ = ap (λ (v : Machine). v.mem.segment_base) r₁ in
        let size₁ = ap (λ (v : Machine). v.mem.size) r₁ in
        let (image', vm', a, l, i, r, (m, k, n)) =
          agree ps ret₁ vm₁ (base₁ ∙ e) (size₁ ∙ f)
            (IsImage-added file p vm.mem vm₁.mem ret ret₁ image loaded is_added base₁) whole in
        let (m', k', n') = take_end p ps kind frame m this k in
        (
          image',
          vm',
          take_image p ps kind frame ret ret₁ this (add_segment-added file p ret held grows) ∙ a,
          take_memory p ps kind frame vm vm₁ this l₁ ∙ l,
          i,
          r ∙ ap (λ (v : Machine). record v { mem = record v.mem { cells = vm'.mem.cells } }) r₁,
          (
            m',
            k',
            larger_twice (length image') (length ret₁) (length ret) (p.p_vaddr + p.p_memsz)
                (end_of m) (end_of m') n is_added.0 n',
          ),
        )
  ]

phdrs_file :
    (self : Analysis) (o : Option (List ProgramHeader)) (r : Result (List ProgramHeader))
    → (elim o as (λ x. Result (List ProgramHeader) × Analysis) [
      | some ps ↦ (ok ps, self)
      | none ↦ remember (λ ps s. record s { cached_phdrs = some ps }) (λ ps. ps) r self
    ]).1.file
      ≡ self.file
phdrs_file self (some ps) r = refl
phdrs_file self none (ok ps) = refl
phdrs_file self none (err e) = refl

image_of :
    (strict : Bool) (file : List ℕ) (q : Result (List ProgramHeader) × Analysis)
    (ps : List ProgramHeader)
    → q.0 ≡ ok ps
    → q.1.file ≡ file
    → (then_ask q (λ ps self. (add_segments strict self.file ps [], self))).0
      ≡ add_segments strict file ps []
image_of strict file (r, self) ps read same = rw (read, same) refl

-- The analyser's image is what `ExecuteELF` puts into the memory. For program headers that all have
-- a type which the enumeration `p_type` converts (any number, where Python does not refuse those that
-- are not members) and none the type PT_GNU_EH_FRAME, whose loadable segments the file and the memory
-- hold and are not larger in the file, and for a memory that is zero from the segment base on: both
-- complete, the memory then holds the image and zeros behind it, nothing but bytes of the memory has
-- changed in the machine, and the image is as long as `ExecuteELF` takes the program to be.
pub load-load_segments :
    (strict : Bool) (self : Analysis) (ps : List ProgramHeader) (vm : Machine)
    → (Analyze.phdrs self).0 ≡ ok ps
    → AreWhole strict self.file vm.mem.segment_base vm.mem.size ps
    → IsImage vm.mem []
    → (image : List ℕ) × (vm' : Machine) × ((Analyze.load strict self).0 ≡ ok image)
      × (load_segments strict self.file ps vm ≡ done tt vm')
      × IsImage vm'.mem image
      × (vm' ≡ record vm { mem = record vm.mem { cells = vm'.mem.cells } })
      × ((m : Option ℕ) × (max_memsz_of strict ps ≡ ok m) × (length image ≡ end_of m))
unfolding Analyze.load Analyze.phdrs
load-load_segments strict self ps vm read whole blank =
    let (image, vm', a, l, i, r, (m, k, n)) =
      agree strict self.file vm.mem.segment_base vm.mem.size ps [] vm refl refl blank whole in
    (
      image,
      vm',
      image_of strict self.file (Analyze.phdrs self) ps read
            (phdrs_file self self.cached_phdrs (Elf.phdrs self.file self.hdr))
          ∙ a,
      l,
      i,
      r,
      (m, k, n ∙ ground arith),
    )
