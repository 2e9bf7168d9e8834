-- ===== src/Kernel/Brk/Cutoff.antt =====
-- VM/kernel/kernel_memory.py, the list of free blocks behind `sys_brk`.
use py_vm.Prelude.{
  length, get_elem?, ℕ, zero, suc, ◌≡◌, refl, ap, ◌∙◌, inl, inr, Bool, true, false, ◌&&◌, ◌||◌,
  Option, none, some, List, [], ◌∷◌, arith, ltb, leb, if◌then◌else◌, ==_iff, Bool-cases, ℤ, pos,
  negsuc, ◌+ℤ◌, ltb_ℤ, eqb_ℤ,
}
use py_vm.Prelude.Lists.{set}
use py_vm.Machine.{Machine, done}
use py_vm.Kernel.Blocks.{Block, cut_loop, take, slice_to, cut_blocks}
use py_vm.Kernel.Brk.{sys_brk}

-- The new program break lies in one of the blocks.
unfoldable pub straddled : ℕ → List Block → Bool
straddled newbrk [] = false
straddled newbrk ((s, e) ∷ bs) = (ltb s newbrk && leb newbrk e) || straddled newbrk bs

not_in :
    (newbrk i s e : ℕ) (bs : List Block)
    → straddled newbrk bs ≡ false
    → get_elem? bs i ≡ some (s, e)
    → (ltb s newbrk && leb newbrk e) ≡ false
unfolding straddled
not_in newbrk i s e [] h g = cc
not_in newbrk zero s e ((s', e') ∷ bs) h g = ground arith
not_in newbrk (suc i) s e ((s', e') ∷ bs) h g = not_in newbrk i s e bs (ground arith) g

-- One index of the loop.
round :
    (newbrk : ℕ) (bs : List Block) (i : ℕ) (o : Option Block)
    → ((s e : ℕ) → o ≡ some (s, e) → (ltb s newbrk && leb newbrk e) ≡ false)
    → elim o as (λ x. List Block × ℤ) [
      | none ↦ (bs, pos 0)
      | some (s, e) ↦
          if ltb s newbrk && leb newbrk e
          then (set bs i (s, newbrk), pos i +ℤ negsuc 0)
          else (bs, pos 0)
    ]
      ≡ (bs, pos 0)
round newbrk bs i none h = refl
round newbrk bs i (some (s, e)) h =
    ap (λ (t : Bool). if t then (set bs i (s, newbrk), pos i +ℤ negsuc 0) else (bs, pos 0))
      (h s e refl)

untouched :
    (newbrk : ℕ) (bs : List Block) (i : ℕ)
    → straddled newbrk bs ≡ false
    → cut_loop newbrk bs i ≡ (bs, pos 0)
unfolding cut_loop
untouched newbrk bs zero h = refl
untouched newbrk bs (suc i) h =
    ap
      (λ (rest : List Block × ℤ). elim (get_elem? bs i) [
        | none ↦ rest
        | some (s, e) ↦
            if ltb s newbrk && leb newbrk e then (set bs i (s, newbrk), pos i +ℤ negsuc 0) else rest
      ])
      (untouched newbrk bs i h)
    ∙ (round newbrk bs i (get_elem? bs i) (λ s e. not_in newbrk i s e bs h))

emptied : (newbrk : ℕ) (bs : List Block) → straddled newbrk bs ≡ false → cut_blocks newbrk bs ≡ []
unfolding cut_blocks slice_to take
emptied newbrk bs h =
    ap (λ (r : List Block × ℤ). slice_to r.0 r.1) (untouched newbrk bs (length bs) h)

module _ (brk : ℕ) (vm : Machine) where
  refused :
      ltb_ℤ (pos brk) vm.code_segment_end ≡ true → sys_brk brk vm ≡ done vm.mem.program_break vm
  unfolding sys_brk
  refused h = ground arith

  same :
      ltb_ℤ (pos brk) vm.code_segment_end ≡ false
      → eqb_ℤ vm.mem.program_break (pos brk) ≡ true
      → sys_brk brk vm ≡ done vm.mem.program_break vm
  unfolding sys_brk
  same h k = ground arith

  lowered :
      ltb_ℤ (pos brk) vm.code_segment_end ≡ false
      → eqb_ℤ vm.mem.program_break (pos brk) ≡ false
      → ltb_ℤ (pos brk) vm.mem.program_break ≡ true
      → sys_brk brk vm
        ≡ done (pos brk) (record vm {
          mem = record vm.mem { program_break = pos brk };
          free_memory_blocks = cut_blocks brk vm.free_memory_blocks;
        })
  unfolding sys_brk
  lowered h k l = ground arith

  raised_break :
      ltb_ℤ (pos brk) vm.code_segment_end ≡ false
      → eqb_ℤ vm.mem.program_break (pos brk) ≡ false
      → ltb_ℤ (pos brk) vm.mem.program_break ≡ false
      → sys_brk brk vm
        ≡ done (pos brk) (record vm { mem = record vm.mem { program_break = pos brk } })
  unfolding sys_brk
  raised_break h k l = ground arith

  same_break : (b : ℤ) → eqb_ℤ b (pos brk) ≡ true → b ≡ pos brk
  same_break (pos n) h = ap pos ((==_iff _ _).0 h)
  same_break (negsuc n) h = cc

  not_below : (b : ℤ) → eqb_ℤ b (pos brk) ≡ true → ltb_ℤ (pos brk) b ≡ false
  not_below (pos n) h = ground arith
  not_below (negsuc n) h = cc

clash : {b : Bool} → b ≡ false → b ≡ true → ⊥
clash p q = cc

-- `sys_brk` refuses a break below the end of the code: it changes nothing and returns the break in
-- force. Otherwise it returns the break asked for, which is the one in force behind it, and neither
-- the bytes of the memory nor its size change. The list of free blocks changes only where the break
-- moves down; where the new break then lies in no free block, the whole list is lost, the blocks
-- below the break included.
pub sys_brk_lem :
    (brk : ℕ) (vm : Machine)
    → (result : ℤ) × (vm' : Machine) × (sys_brk brk vm ≡ done result vm')
      × (vm'.mem.program_break ≡ result)
      × (vm'.mem.cells ≡ vm.mem.cells)
      × (vm'.mem.size ≡ vm.mem.size)
      × ((ltb_ℤ (pos brk) vm.code_segment_end ≡ true) → vm' ≡ vm)
      × ((ltb_ℤ (pos brk) vm.code_segment_end ≡ false) → result ≡ pos brk)
      × ((ltb_ℤ (pos brk) vm.mem.program_break ≡ false)
          → vm'.free_memory_blocks ≡ vm.free_memory_blocks)
      × ((ltb_ℤ (pos brk) vm.code_segment_end ≡ false)
          → (ltb_ℤ (pos brk) vm.mem.program_break ≡ true)
          → (straddled brk vm.free_memory_blocks ≡ false)
          → vm'.free_memory_blocks ≡ [])
sys_brk_lem brk vm = elim (Bool-cases (ltb_ℤ (pos brk) vm.code_segment_end)) [
  | inl low ↦ (
    vm.mem.program_break,
    vm,
    refused brk vm low,
    refl,
    refl,
    refl,
    (λ h. refl),
    (λ h. cc),
    (λ h. refl),
    (λ h. cc),
  )
  | inr high ↦ elim (Bool-cases (eqb_ℤ vm.mem.program_break (pos brk))) [
    | inl q ↦ (
      vm.mem.program_break,
      vm,
      same brk vm high q,
      refl,
      refl,
      refl,
      (λ h. refl),
      (λ h. same_break brk vm _ q),
      (λ h. refl),
      (λ h k. absurd (clash (not_below brk vm _ q) k)),
    )
    | inr ne ↦ elim (Bool-cases (ltb_ℤ (pos brk) vm.mem.program_break)) [
      | inl down ↦ (
        pos brk,
        _,
        lowered brk vm high ne down,
        refl,
        refl,
        refl,
        (λ h. absurd (clash high h)),
        (λ h. refl),
        (λ h. absurd (clash h down)),
        (λ h k s. emptied brk vm.free_memory_blocks s),
      )
      | inr up ↦ (
        pos brk,
        _,
        raised_break brk vm high ne up,
        refl,
        refl,
        refl,
        (λ h. absurd (clash high h)),
        (λ h. refl),
        (λ h. refl),
        (λ h k. absurd (clash up k)),
      )
    ]
  ]
]
