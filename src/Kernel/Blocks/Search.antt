-- ===== src/Kernel/Blocks/Search.antt =====
-- VM/kernel/kernel_memory.py, the search of `sys_mmap` for a free block.
use py_vm.Prelude.{
  ℕ, ◌+◌, ◌-◌, ◌≤◌, ◌<◌, ◌≡◌, refl, sym, subst, ap, ◌⊎◌, inl, inr, Bool, true, ◌&&◌, List, [], ◌∷◌,
  arith, ltb, leb, bit,
}
use py_vm.Kernel.Blocks.{Block, Found, no_block, bad_block, found, keep_block, find_block}

-- How many blocks of a list contain an address.
abbrev pub inside_block : ℕ → Block → Bool
inside_block a (s, e) = leb s a && ltb a e

unfoldable pub free_at : ℕ → List Block → ℕ
free_at a [] = 0
free_at a (b ∷ bs) = bit (inside_block a b) + free_at a bs

-- Blocks do not end before they start.
abbrev pub AreBlocks : List Block → Type 0
AreBlocks [] = Unit
AreBlocks ((s, e) ∷ bs) = (s ≤ e) × AreBlocks bs

-- What a search of a list may leave: a region of `n` addresses that was taken out of the list, with
-- every other address as free as before, or no block because all are smaller.
abbrev pub IsTaken : ℕ → List Block → ℕ → List Block → Type 0
IsTaken n bs start rest =
    (a : ℕ) → free_at a bs ≡ bit (inside_block a (start, start + n)) + free_at a rest

abbrev pub all_smaller : ℕ → List Block → Bool
all_smaller n [] = true
all_smaller n ((s, e) ∷ bs) = ltb (e - s) n && all_smaller n bs

abbrev IsAnswer : ℕ → List Block → Found → Type 0
IsAnswer n bs no_block = all_smaller n bs ≡ true
IsAnswer n bs bad_block = ⊥
IsAnswer n bs (found start rest) = IsTaken n bs start rest

kept :
    (n s e : ℕ) (bs : List Block) (f : Found)
    → e - s < n
    → IsAnswer n bs f
    → IsAnswer n ((s, e) ∷ bs) (keep_block (s, e) f)
unfolding free_at
kept n s e bs no_block h t = ground (arith, t)
kept n s e bs bad_block h t = t
kept n s e bs (found start rest) h t = λ a. omega (arith, t a)

exact : (s e n a : ℕ) → e - s ≡ n → s ≤ e → inside_block a (s, e) ≡ inside_block a (s, s + n)
exact s e n a h p = ground arith

split :
    (s e n a : ℕ)
    → n < e - s
    → bit (inside_block a (s, e))
      ≡ bit (inside_block a (s, s + n)) + bit (inside_block a (s + n, e))
split s e n a h = ground arith

at_exact :
    (n s e : ℕ) (bs : List Block) → s ≤ e → e - s ≡ n → find_block n ((s, e) ∷ bs) ≡ found s bs
unfolding find_block
at_exact n s e bs p q = ground arith

at_larger :
    (n s e : ℕ) (bs : List Block)
    → s ≤ e
    → n < e - s
    → find_block n ((s, e) ∷ bs) ≡ found s ((s + n, e) ∷ bs)
unfolding find_block
at_larger n s e bs p q = ground arith

at_smaller :
    (n s e : ℕ) (bs : List Block)
    → s ≤ e
    → e - s < n
    → find_block n ((s, e) ∷ bs) ≡ keep_block (s, e) (find_block n bs)
unfolding find_block
at_smaller n s e bs p q = ground arith

sizes : (m n : ℕ) → (m ≡ n) ⊎ (n < m) ⊎ (m < n)
sizes m n = ground arith

answer : (n : ℕ) (bs : List Block) → AreBlocks bs → IsAnswer n bs (find_block n bs)
unfolding find_block free_at
answer n [] b = refl
answer n ((s, e) ∷ bs) (p, b) = elim (sizes (e - s) n) [
  | inl q ↦
      subst (λ f. IsAnswer n ((s, e) ∷ bs) f) (sym (at_exact n s e bs p q))
        (λ a. omega (arith, ap bit (exact s e n a q p)))
  | inr (inl q) ↦
      subst (λ f. IsAnswer n ((s, e) ∷ bs) f) (sym (at_larger n s e bs p q))
        (λ a. omega (arith, split s e n a q))
  | inr (inr q) ↦
      subst (λ f. IsAnswer n ((s, e) ∷ bs) f) (sym (at_smaller n s e bs p q))
        (kept n s e bs (find_block n bs) q (answer n bs b))
]

-- In a list of blocks none of which ends before it starts, the search ends with one of two answers:
-- a region of `n` addresses, where every address is as often free as before outside the region and
-- once less inside it, or that no block has `n` addresses.
pub find_block_lem :
    (n : ℕ) (bs : List Block)
    → AreBlocks bs
    → ((find_block n bs ≡ no_block) × (all_smaller n bs ≡ true))
      ⊎ ((start : ℕ) × (rest : List Block) × (find_block n bs ≡ found start rest)
          × IsTaken n bs start rest)
find_block_lem n bs b = cases (find_block n bs) refl (answer n bs b)
  where
    cases :
        (f : Found)
        → find_block n bs ≡ f
        → IsAnswer n bs f
        → ((find_block n bs ≡ no_block) × (all_smaller n bs ≡ true))
          ⊎ ((start : ℕ) × (rest : List Block) × (find_block n bs ≡ found start rest)
              × IsTaken n bs start rest)
    cases no_block q t = inl (q, t)
    cases bad_block q t = absurd t
    cases (found start rest) q t = inr (start, rest, q, t)
