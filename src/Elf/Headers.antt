-- ===== src/Elf/Headers.antt =====
-- VM/ELF/ELF_impl.py, which files `ELF32` accepts, by their bytes.
use py_vm.Prelude.{
  length, get_elem?, ℕ, zero, suc, ◌+◌, ◌-◌, ◌<◌, ◌≡◌, refl, ap, ap₂, ◌∙◌, Bool, true, false, ◌&&◌,
  ◌||◌, Option, none, some, List, [], ◌∷◌, arith, leb, ◌==◌, if◌then◌else◌, ==_iff,
}
use py_vm.Outcome.{Exn, value_error, struct_error, Result, ok, err, returned}
use py_vm.Elf.{
  Header, read_file, field8, field16, ident_fields, header_fields, and_then, parse_header,
  is_one_of, e_machines, enum_is, assert_that, check_header, open_elf,
}
use py_vm.Kernel.Blocks.{take}
use py_vm.Kernel.Process.{drop_first}

-- What is read of a file, and how much.
next : (n i : ℕ) → suc (n + i) ≡ suc n + i
next n i = omega arith

pub drop-item : (file : List ℕ) (n i : ℕ) → get_elem? (drop_first n file) i ≡ get_elem? file (n + i)
unfolding drop_first
drop-item file zero i = ap (λ (k : ℕ). get_elem? file k) (omega arith)
drop-item [] (suc n) i = refl
drop-item (x ∷ file) (suc n) i =
    drop-item file n i ∙ ap (λ (k : ℕ). get_elem? (x ∷ file) k) (next n i)

pub take-item : (file : List ℕ) (n i : ℕ) → i < n → get_elem? (take n file) i ≡ get_elem? file i
unfolding take
take-item file zero i h = absurd (omega arith)
take-item [] (suc n) i h = refl
take-item (x ∷ file) (suc n) zero h = refl
take-item (x ∷ file) (suc n) (suc i) h = take-item file n i (omega arith)

pub length-drop : (file : List ℕ) (n : ℕ) → length (drop_first n file) ≡ length file - n
unfolding drop_first
length-drop file zero = omega arith
length-drop [] (suc n) = omega arith
length-drop (x ∷ file) (suc n) = let l = length-drop file n in omega (arith, l)

pub length-take :
    (file : List ℕ) (n : ℕ)
    → length (take n file) ≡ (if leb n (length file) then n else length file)
unfolding take
length-take file zero = ground arith
length-take [] (suc n) = ground arith
length-take (x ∷ file) (suc n) = let l = length-take file n in grind (arith, l)

pub read_file-item :
    (file : List ℕ) (position n i : ℕ)
    → i < n
    → field8 (read_file file position n) i ≡ field8 file (position + i)
unfolding read_file
read_file-item file position n i h =
    ap (λ (o : Option ℕ). elim o as (λ x. ℕ) [ some b ↦ b | none ↦ 0 ])
      (take-item (drop_first position file) n i h ∙ drop-item file position i)

pub length-read_file :
    (file : List ℕ) (position n : ℕ)
    → (length (read_file file position n) == n) ≡ leb (position + n) (length file) || n == 0
unfolding read_file
length-read_file file position n =
    let l = length-take (drop_first position file) n in
    let d = length-drop file position in grind (arith, l, d)

whole_header : List ℕ → Header
whole_header file = header_fields (ident_fields (read_file file 0 16)) (read_file file 16 36)

parse_header_lem :
    (file : List ℕ)
    → parse_header file
      ≡ (if leb 52 (length file) then ok (whole_header file) else err struct_error)
unfolding parse_header whole_header
parse_header_lem file =
    let a = length-read_file file 0 16 in let b = length-read_file file 16 36 in grind (arith, a, b)

-- The tests of `ELF32.__init__`, on numbers.
abbrev pub accepted : ℕ → ℕ → ℕ → ℕ → ℕ → ℕ → ℕ → Bool
accepted m0 m1 m2 m3 cls order machine =
    (m0 == 127 && m1 == 69 && m2 == 76 && m3 == 70) && (cls == 1 && (order == 1 && machine == 3))

both_return :
    {A : Type 0} (r : Result (Unit {0})) (k : Result A)
    → returned (and_then r (λ u. k)) ≡ returned r && returned k
both_return (ok u) k = refl
both_return (err e) k = refl

asserted : (b : Bool) → returned (assert_that (ok b)) ≡ b
asserted true = refl
asserted false = refl

asserted_either :
    (b c : Bool) (e : Exn)
    → (c ≡ true → b ≡ true)
    → returned (assert_that (if b then ok c else err e)) ≡ c
asserted_either true c e h = asserted c
asserted_either false true e h = h refl
asserted_either false false e h = refl

asserted_enum :
    (values : List ℕ) (raw wanted : ℕ)
    → is_one_of wanted values ≡ true
    → returned (assert_that (enum_is values raw wanted)) ≡ (raw == wanted)
asserted_enum values raw wanted member =
    asserted_either (is_one_of raw values) (raw == wanted) value_error
      (λ same. ap (λ (n : ℕ). is_one_of n values) ((==_iff raw wanted).0 same) ∙ member)

check_header_lem :
    (hdr : Header)
    → returned (check_header hdr)
      ≡ accepted
          (field8 hdr.e_ident.magic 0)
          (field8 hdr.e_ident.magic 1)
          (field8 hdr.e_ident.magic 2)
          (field8 hdr.e_ident.magic 3)
          hdr.e_ident.ei_class
          hdr.e_ident.ei_data
          hdr.e_machine
unfolding check_header
check_header_lem hdr =
    let m = hdr.e_ident.magic in
    let magic =
      asserted (field8 m 0 == 127 && field8 m 1 == 69 && field8 m 2 == 76 && field8 m 3 == 70) in
    let cls = asserted_enum (0 ∷ 1 ∷ 2 ∷ []) hdr.e_ident.ei_class 1 refl in
    let order = asserted_enum (0 ∷ 1 ∷ 2 ∷ []) hdr.e_ident.ei_data 1 refl in
    let machine = asserted_enum e_machines hdr.e_machine 3 refl in
    both_return _ _
    ∙ ap₂ (λ (x y : Bool). x && y) magic
        (both_return _ _
          ∙ ap₂ (λ (x y : Bool). x && y) cls
              (both_return _ _ ∙ ap₂ (λ (x y : Bool). x && y) order machine))

checked :
    (b : Bool) (hdr : Header)
    → returned (
        and_then
          (if b then ok hdr else err struct_error)
          (λ hdr. and_then (check_header hdr) (λ u. ok hdr)))
      ≡ b && returned (check_header hdr)
checked true hdr = both_return (check_header hdr) (ok hdr) ∙ and_true (returned (check_header hdr))
  where
    and_true : (b : Bool) → b && true ≡ b
    and_true true = refl
    and_true false = refl
checked false hdr = refl

header_accepted :
    (file : List ℕ)
    → returned (check_header (whole_header file))
      ≡ accepted
          (field8 file 0)
          (field8 file 1)
          (field8 file 2)
          (field8 file 3)
          (field8 file 4)
          (field8 file 5)
          (field16 file 18)
unfolding whole_header
header_accepted file =
    let at = λ (i : ℕ) (h : i < 16). read_file-item file 0 16 i h in
    let low = read_file-item file 16 36 2 (omega arith) in
    let high = read_file-item file 16 36 3 (omega arith) in
    check_header_lem (whole_header file)
    ∙ grind (
      arith,
      at 0 (omega arith),
      at 1 (omega arith),
      at 2 (omega arith),
      at 3 (omega arith),
      at 4 (omega arith),
      at 5 (omega arith),
      low,
      high,
    )

-- `ELF32` accepts a file exactly if it has the 52 bytes of a header, the magic number, and the bytes
-- that say 32 bits, little-endian and x86.
pub open_elf_lem :
    (file : List ℕ)
    → returned (open_elf file)
      ≡ leb 52 (length file)
        && accepted
            (field8 file 0)
            (field8 file 1)
            (field8 file 2)
            (field8 file 3)
            (field8 file 4)
            (field8 file 5)
            (field16 file 18)
unfolding open_elf whole_header
open_elf_lem file =
    ap
      (λ (r : Result Header).
        returned (and_then r (λ hdr. and_then (check_header hdr) (λ u. ok hdr))))
      (parse_header_lem file)
    ∙ checked (leb 52 (length file)) (whole_header file)
    ∙ ap (λ (b : Bool). leb 52 (length file) && b) (header_accepted file)
