-- ===== src/Kernel/Blocks/Fuse.antt =====
-- VM/kernel/kernel_memory.py, `_munmap_fuse_memory_blocks`.
use py_vm.Prelude.{
  ◌≡◌, refl, sym, subst, ap, ◌∙◌, inl, inr, Bool, true, false, ◌||◌, Option, none, some, List, [],
  ◌∷◌, map, arith, if◌then◌else◌, Bool-cases,
}
use py_vm.Outcome.{type_error, Result, ok, err, map_result}
use py_vm.Kernel.Blocks.{
  Block, sort_blocks, contains_block, meets_block, cons_fused, fuse_pass, fuse_loop, present,
  fuse_blocks,
}

-- Two neighbours of a list overlap or touch.
unfoldable pub touching : List Block → Bool
touching [] = false
touching (b ∷ []) = false
touching (b ∷ c ∷ bs) = contains_block b c || meets_block b c || touching (c ∷ bs)

-- A round over a list without a None and without neighbours that touch changes nothing.
quiet :
    (b : Block) (bs : List Block)
    → touching (b ∷ bs) ≡ false
    → fuse_pass (some b) (map some bs) ≡ ok (some b ∷ map some bs, false)
unfolding touching fuse_pass
quiet b [] h = refl
quiet b (c ∷ bs) h = ground (arith, quiet c bs)

-- In the list `x ∷ xs` a None stands beside another entry.
holed : Option Block → List (Option Block) → Bool
holed x [] = false
holed none (y ∷ ys) = true
holed (some b) (none ∷ ys) = true
holed (some b) (some c ∷ ys) = holed (some c) ys

any_head : (b c : Block) (ys : List (Option Block)) → holed (some b) ys ≡ holed (some c) ys
unfolding holed
any_head b c [] = refl
any_head b c (none ∷ ys) = refl
any_head b c (some d ∷ ys) = refl

-- A round fails at such a None, whatever it fuses before.
fails :
    (x : Option Block) (ys : List (Option Block))
    → holed x ys ≡ true
    → fuse_pass x ys ≡ err type_error
unfolding holed fuse_pass
fails none [] h = cc
fails (some b) [] h = cc
fails none (y ∷ ys) h = refl
fails (some b) (none ∷ ys) h = refl
fails (some b) (some c ∷ ys) h =
    let kept = fails (some b) ys (any_head b c ys ∙ h) in
    let merged = fails (some (b.0, c.1)) ys (any_head _ c ys ∙ h) in
    ground (arith, kept, merged, fails (some c) ys h)

-- What a round over a list without a None leaves, if it fuses something.
abbrev Fused : Result (List (Option Block) × Bool) → Bool → Type 0
Fused r t =
    (x : Option Block) × (xs : List (Option Block)) × (did : Bool) × (r ≡ ok (x ∷ xs, did))
    × ((did ≡ true) → holed x xs ≡ true)
    × ((t ≡ true) → did ≡ true)

skip_hole :
    (b : Block) (x : Option Block) (xs : List (Option Block))
    → holed x xs ≡ true
    → holed (some b) (x ∷ xs) ≡ true
unfolding holed
skip_hole b none xs h = refl
skip_hole b (some c) xs h = h

Fused-here :
    {r : Result (List (Option Block) × Bool)} {t u : Bool}
    → Fused r t
    → Fused (cons_fused none true r) u
unfolding holed
Fused-here (x, xs, did, e, h, k) = (none, x ∷ xs, true, rw e refl, (λ d. refl), (λ d. refl))

Fused-next :
    {r : Result (List (Option Block) × Bool)} {t : Bool} (b : Block)
    → Fused r t
    → Fused (cons_fused (some b) false r) t
Fused-next b (x, xs, did, e, h, k) =
    (some b, x ∷ xs, did, rw e refl, (λ d. skip_hole b x xs (h d)), k)

module _ (b c : Block) (bs : List Block) where
  contained :
      contains_block b c ≡ true
      → fuse_pass (some b) (map some (c ∷ bs))
        ≡ cons_fused none true (fuse_pass (some b) (map some bs))
  unfolding fuse_pass
  contained h = ground arith

  met :
      contains_block b c ≡ false
      → meets_block b c ≡ true
      → fuse_pass (some b) (map some (c ∷ bs))
        ≡ cons_fused none true (fuse_pass (some (b.0, c.1)) (map some bs))
  unfolding fuse_pass
  met h k = ground arith

  apart :
      contains_block b c ≡ false
      → meets_block b c ≡ false
      → (fuse_pass (some b) (map some (c ∷ bs))
          ≡ cons_fused (some b) false (fuse_pass (some c) (map some bs)))
        × (touching (b ∷ c ∷ bs) ≡ touching (c ∷ bs))
  unfolding fuse_pass touching
  apart h k = (ground arith, ground arith)

pass : (b : Block) (bs : List Block) → Fused (fuse_pass (some b) (map some bs)) (touching (b ∷ bs))
unfolding fuse_pass touching
pass b [] = (some b, [], false, refl, (λ h. cc), (λ h. h))
pass b (c ∷ bs) =
    let kept : Fused (fuse_pass (some b) (map some bs)) (touching (b ∷ bs)) = pass b bs in
    let merged : Fused (fuse_pass (some (b.0, c.1)) (map some bs)) (touching ((b.0, c.1) ∷ bs)) =
      pass (b.0, c.1) bs in
    let next : Fused (fuse_pass (some c) (map some bs)) (touching (c ∷ bs)) = pass c bs in
    elim (Bool-cases (contains_block b c)) [
      | inl y ↦
          subst (λ r. Fused r (touching (b ∷ c ∷ bs))) (sym (contained b c bs y)) (Fused-here kept)
      | inr n ↦ elim (Bool-cases (meets_block b c)) [
        | inl y ↦
            subst (λ r. Fused r (touching (b ∷ c ∷ bs))) (sym (met b c bs n y)) (Fused-here merged)
        | inr m ↦
            subst (λ r. Fused r (touching (b ∷ c ∷ bs))) (sym (apart b c bs n m).0)
              (subst (λ t. Fused (cons_fused (some b) false (fuse_pass (some c) (map some bs))) t)
                (sym (apart b c bs n m).1) (Fused-next b next))
      ]
    ]

two_rounds :
    (x : Option Block) (xs ys : List (Option Block)) (y : Option Block)
    → fuse_pass x xs ≡ ok (y ∷ ys, true)
    → holed y ys ≡ true
    → fuse_loop 2 (x ∷ xs) ≡ err type_error
unfolding fuse_loop
two_rounds x xs ys y p h = ground (arith, fails y ys h)

one_round :
    (x : Option Block) (xs : List (Option Block))
    → fuse_pass x xs ≡ ok (x ∷ xs, false)
    → fuse_loop 2 (x ∷ xs) ≡ ok (x ∷ xs)
unfolding fuse_loop
one_round x xs p = ground arith

-- No block is left out where none is None.
present-map : (bs : List Block) → present (map some bs) ≡ bs
unfolding present
present-map [] = refl
present-map (b ∷ bs) = ap (λ (x : List Block). b ∷ x) (present-map bs)

sorted :
    (cs : List Block)
    → map_result present (fuse_loop 2 (map some cs))
      ≡ (if touching cs then err type_error else ok cs)
unfolding fuse_loop touching present
sorted [] = refl
sorted (c ∷ cs) = elim (Bool-cases (touching (c ∷ cs))) [
  | inl t ↦
      let (x, xs, did, e, h, k) = pass c cs in
      ap (map_result present)
        (two_rounds (some c) (map some cs) xs x (e ∙ ap (λ d. ok (x ∷ xs, d)) (k t)) (h (k t)))
      ∙ sym (ap (λ (u : Bool). if u then err type_error else ok (c ∷ cs)) t)
  | inr n ↦
      ap (map_result present) (one_round (some c) (map some cs) (quiet c cs n))
      ∙ ap ok (present-map (c ∷ cs))
      ∙ sym (ap (λ (u : Bool). if u then err type_error else ok (c ∷ cs)) n)
]

-- Two rounds of the fusing loop are enough. A list in which no two neighbours overlap or touch, once
-- it is sorted, is left sorted; and where two do, so that the loop has something to fuse, the
-- second round meets a None and raises a TypeError.
pub fuse_blocks_lem :
    (bs : List Block)
    → fuse_blocks bs ≡ (if touching (sort_blocks bs) then err type_error else ok (sort_blocks bs))
unfolding fuse_blocks
fuse_blocks_lem bs = sorted (sort_blocks bs)
