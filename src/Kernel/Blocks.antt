-- ===== src/Kernel/Blocks.antt =====
-- VM/kernel/kernel_memory.py: the list `free_memory_blocks`, how it is searched, cut and fused.
pub mod Search
pub mod Fuse
use py_vm.Prelude.{
  length, get_elem?, ℕ, zero, suc, ◌+◌, ◌-◌, Bool, true, false, ◌&&◌, ◌||◌, Option, none, some,
  List, [], ◌∷◌, map, ltb, leb, ◌==◌, if◌then◌else◌, ℤ, pos, negsuc, ◌+ℤ◌,
}
use py_vm.Prelude.Lists.{set}
use py_vm.Outcome.{type_error, recursion_error, Result, ok, err, map_result}

-- A block is a half-open range of addresses.
abbrev pub Block : Type 0
Block = ℕ × ℕ

-- What the loop of `sys_mmap` finds, and the list that it leaves.
pub data Found : Type 0 where
  no_block bad_block : Found
  found : ℕ → List Block → Found

abbrev pub keep_block : Block → Found → Found
keep_block b no_block = no_block
keep_block b bad_block = bad_block
keep_block b (found start rest) = found start (b ∷ rest)

-- `bad_block` is the failed assertion `end >= start`.
unfoldable pub find_block : ℕ → List Block → Found
find_block n [] = no_block
find_block n ((start, end) ∷ rest) =
    let later = find_block n rest in
    if ltb end start
    then bad_block
    else if end - start == n
    then found start rest
    else if ltb n (end - start)
    then found start ((start + n, end) ∷ rest)
    else keep_block (start, end) later

-- The loop of `sys_brk` over the indices below `i`, from the last: the list and the final `cutoff`.
unfoldable pub cut_loop : ℕ → List Block → ℕ → List Block × ℤ
cut_loop newbrk blocks zero = (blocks, pos 0)
cut_loop newbrk blocks (suc i) =
    let rest = cut_loop newbrk blocks i in
    elim (get_elem? blocks i) [
      | none ↦ rest
      | some (s, e) ↦
          if ltb s newbrk && leb newbrk e
          then (set blocks i (s, newbrk), pos i +ℤ negsuc 0)
          else rest
    ]

unfoldable pub take : {A : Type 0} → ℕ → List A → List A
take zero xs = []
take (suc n) [] = []
take (suc n) (x ∷ xs) = x ∷ take n xs

-- `xs[:k]`: a negative bound counts from the end.
unfoldable pub slice_to : {A : Type 0} → List A → ℤ → List A
unfolding take
slice_to xs (pos k) = take k xs
slice_to xs (negsuc k) = take (length xs - suc k) xs

unfoldable pub cut_blocks : ℕ → List Block → List Block
unfolding cut_loop slice_to
cut_blocks newbrk blocks = let r = cut_loop newbrk blocks (length blocks) in slice_to r.0 r.1

-- `list.sort` on pairs.
abbrev pub le_block : Block → Block → Bool
le_block (a, b) (c, d) = ltb a c || (a == c && leb b d)

unfoldable pub insert_block : Block → List Block → List Block
insert_block b [] = b ∷ []
insert_block b (c ∷ cs) =
    let later = insert_block b cs in if le_block b c then b ∷ c ∷ cs else c ∷ later

unfoldable pub sort_blocks : List Block → List Block
unfolding insert_block
sort_blocks [] = []
sort_blocks (b ∷ bs) = insert_block b (sort_blocks bs)

-- The two tests of `_munmap_fuse_memory_blocks`: containment, and an overlap or a touch.
abbrev pub contains_block : Block → Block → Bool
contains_block (a, b) (c, d) = leb a c && leb d b

abbrev pub meets_block : Block → Block → Bool
meets_block (a, b) (c, d) = leb a c && leb c b && ltb b d

abbrev pub cons_fused :
    Option Block → Bool → Result (List (Option Block) × Bool) → Result (List (Option Block) × Bool)
cons_fused b did (err e) = err e
cons_fused b did (ok (bs, did')) = ok (b ∷ bs, did || did')

-- One round of the `for` loop, and whether it fused something. A fused block leaves a None, and a
-- None that is subscripted is a TypeError.
unfoldable pub fuse_pass : Option Block → List (Option Block) → Result (List (Option Block) × Bool)
fuse_pass x [] = ok (x ∷ [], false)
fuse_pass none (y ∷ ys) = err type_error
fuse_pass (some b) (none ∷ ys) = err type_error
fuse_pass (some b) (some c ∷ ys) =
    let kept = fuse_pass (some b) ys in
    let merged = fuse_pass (some (b.0, c.1)) ys in
    let next = fuse_pass (some c) ys in
    if contains_block b c
    then cons_fused none true kept
    else if meets_block b c
    then cons_fused none true merged
    else cons_fused (some b) false next

abbrev pub fuse_round : List (Option Block) → Result (List (Option Block) × Bool)
fuse_round [] = ok ([], false)
fuse_round (x ∷ xs) = fuse_pass x xs

-- `while did_fuse`: the sorted list without the Nones is assigned to `free_blocks`, another
-- attribute, so the next round sees the Nones. The fuel counts the rounds.
unfoldable pub fuse_loop : ℕ → List (Option Block) → Result (List (Option Block))
unfolding fuse_pass
fuse_loop zero bs = err recursion_error
fuse_loop (suc f) bs = elim (fuse_round bs) [
  | err e ↦ err e
  | ok (bs', false) ↦ ok bs'
  | ok (bs', true) ↦ fuse_loop f bs'
]

-- The entries that are not None.
unfoldable pub present : List (Option Block) → List Block
present [] = []
present (none ∷ bs) = present bs
present (some b ∷ bs) = b ∷ present bs

-- `_munmap_fuse_memory_blocks`; two rounds are enough.
unfoldable pub fuse_blocks : List Block → Result (List Block)
unfolding fuse_loop present sort_blocks
fuse_blocks bs = map_result present (fuse_loop 2 (map some (sort_blocks bs)))

-- The list after a round that ends or raises, with the changes made before.
unfoldable pub torn_pass : Option Block → List (Option Block) → List (Option Block)
torn_pass x [] = x ∷ []
torn_pass none (y ∷ ys) = none ∷ y ∷ ys
torn_pass (some b) (none ∷ ys) = some b ∷ none ∷ ys
torn_pass (some b) (some c ∷ ys) =
    let kept = torn_pass (some b) ys in
    let merged = torn_pass (some (b.0, c.1)) ys in
    let next = torn_pass (some c) ys in
    if contains_block b c
    then none ∷ kept
    else if meets_block b c
    then none ∷ merged
    else some b ∷ next

abbrev pub torn_round : List (Option Block) → List (Option Block)
torn_round [] = []
torn_round (x ∷ xs) = torn_pass x xs

-- The list that `_munmap_fuse_memory_blocks` leaves where it raises, in its second round.
unfoldable pub torn_list : List Block → List (Option Block)
unfolding torn_pass sort_blocks
torn_list bs = torn_round (torn_round (map some (sort_blocks bs)))

-- `free_memory_blocks[-1]`
unfoldable pub last_block : List Block → Option Block
last_block [] = none
last_block (b ∷ []) = some b
last_block (b ∷ c ∷ cs) = last_block (c ∷ cs)

-- `free_memory_blocks.pop()`
unfoldable pub drop_last : List Block → List Block
drop_last [] = []
drop_last (b ∷ []) = []
drop_last (b ∷ c ∷ cs) = b ∷ drop_last (c ∷ cs)
