-- ===== src/Kernel/Files/Descriptors.antt =====
-- VM/kernel/kernel_filesystem.py, the table of file objects under `sys_open` and `sys_close`.
use py_vm.Prelude.{
  length, get_elem?, ℕ, zero, suc, ◌+◌, ◌*◌, ◌/◌, ◌%◌, ◌≤◌, ◌<◌, bit_and, ◌≡◌, refl, ap, ap₂, ◌∙◌,
  ◌⊎◌, inl, inr, false, not, Option, none, some, List, [], ◌∷◌, ◌++◌, arith, ◌==◌, ℤ, pos, negsuc,
}
use py_vm.Outcome.{ok}
use py_vm.Host.{open_file, close, Host}
use py_vm.Machine.{Machine, done, >>=-done}
use py_vm.Kernel.Ask.{descriptor, read_path}
use py_vm.Kernel.Files.{has_flag, free_slot, open_descriptor, sys_open, sys_close}
use py_vm.Prelude.Lists
use Prim.Native.Nat.{digits, min, bit_and-bitwise}

-- What a place of the table says: none where there is no such place, `some none` where it is empty.
free_slot-shift : (i : ℕ) (ds : List (Option ℕ)) (k : ℕ) → free_slot i ds ≡ some k → i ≤ k
unfolding free_slot
free_slot-shift i [] k h = cc
free_slot-shift i (none ∷ ds) k h = ground arith
free_slot-shift i (some x ∷ ds) k h = let l = free_slot-shift (i + 1) ds k h in omega arith

later :
    (x : ℕ) (ds : List (Option ℕ)) (k : ℕ)
    → ((j : ℕ) → j < k → (get_elem? ds j ≡ some none) → ⊥)
    → (j : ℕ) → j < suc k
    → (get_elem? (some x ∷ ds) j ≡ some none)
    → ⊥
later x ds k f zero l e = cc
later x ds k f (suc j) l e = f j (omega arith) e

-- The first empty place, counted from the start `i`.
pub free_slot_lem :
    (i : ℕ) (ds : List (Option ℕ)) (k : ℕ)
    → free_slot i ds ≡ some (i + k)
    → (get_elem? ds k ≡ some none) × ((j : ℕ) → j < k → (get_elem? ds j ≡ some none) → ⊥)
unfolding free_slot
free_slot_lem i [] k h = cc
free_slot_lem i (none ∷ ds) zero h = (refl, λ j l e. absurd (omega arith))
free_slot_lem i (none ∷ ds) (suc k) h = absurd (ground arith)
free_slot_lem i (some x ∷ ds) zero h =
    let l = free_slot-shift (i + 1) ds (i + 0) h in absurd (omega arith)
free_slot_lem i (some x ∷ ds) (suc k) h =
    let r = free_slot_lem (i + 1) ds k (h ∙ ap (λ (n : ℕ). some n) (omega arith)) in
    (r.0, later x ds k r.1)

pub free_slot-full :
    (i : ℕ) (ds : List (Option ℕ))
    → free_slot i ds ≡ none
    → (j : ℕ) → (get_elem? ds j ≡ some none)
    → ⊥
unfolding free_slot
free_slot-full i [] h j e = cc
free_slot-full i (none ∷ ds) h j e = cc
free_slot-full i (some x ∷ ds) h zero e = cc
free_slot-full i (some x ∷ ds) h (suc j) e = free_slot-full (i + 1) ds h j e

-- `i` is the place that a new file object takes: the lowest empty one, or the end of the list where
-- there is none.
abbrev pub IsLowest : List (Option ℕ) → ℕ → Type 0
IsLowest ds i =
    ((get_elem? ds i ≡ some none) ⊎ (i ≡ length ds))
    × ((j : ℕ) → j < i → (get_elem? ds j ≡ some none) → ⊥)

set-get :
    (ds : List (Option ℕ)) (i : ℕ) (v x : Option ℕ)
    → get_elem? ds i ≡ some x
    → get_elem? (Lists.set ds i v) i ≡ some v
set-get [] i v x h = cc
set-get (d ∷ ds) zero v x h = refl
set-get (d ∷ ds) (suc i) v x h = set-get ds i v x h

set_other :
    (ds : List (Option ℕ)) (i j : ℕ) (v : Option ℕ)
    → (j == i) ≡ false
    → get_elem? (Lists.set ds i v) j ≡ get_elem? ds j
set_other [] i j v h = refl
set_other (d ∷ ds) zero zero v h = ground arith
set_other (d ∷ ds) zero (suc j) v h = refl
set_other (d ∷ ds) (suc i) zero v h = refl
set_other (d ∷ ds) (suc i) (suc j) v h = set_other ds i j v (ground arith)

append_end : (ds : List (Option ℕ)) (v : Option ℕ) → get_elem? (ds ++ v ∷ []) (length ds) ≡ some v
append_end [] v = refl
append_end (d ∷ ds) v = append_end ds v

append_other :
    (ds : List (Option ℕ)) (v : Option ℕ) (j : ℕ)
    → (j == length ds) ≡ false
    → get_elem? (ds ++ v ∷ []) j ≡ get_elem? ds j
append_other [] v zero h = ground arith
append_other [] v (suc j) h = refl
append_other (d ∷ ds) v zero h = refl
append_other (d ∷ ds) v (suc j) h = append_other ds v j (ground arith)

-- The table after `open_file` has stored the file object `h` at `i`.
abbrev pub IsOpenedAt : ℕ → ℕ → Machine → Machine → Type 0
IsOpenedAt i h vm vm' =
    (get_elem? vm'.descriptors i ≡ some (some h))
    × ((j : ℕ) → (j == i) ≡ false → get_elem? vm'.descriptors j ≡ get_elem? vm.descriptors j)

-- Where the host opens the file, the call returns the lowest empty place of the table, counted from 0
-- and not, as a comment of the source says, from 3, or its end where no place is empty; the place then holds the file object and every other place is as it was.
pub open_descriptor_lem :
    (host : Host) (name mode : List ℕ) (vm : Machine) (h : ℕ)
    → host.number vm.trace (open_file name mode) ≡ ok h
    → (i : ℕ) × (vm' : Machine) × (open_descriptor host name mode vm ≡ done (pos i) vm')
      × IsLowest vm.descriptors i
      × IsOpenedAt i h vm vm'
unfolding open_descriptor
open_descriptor_lem host name mode vm h answer = by_slot (free_slot 0 vm.descriptors) refl
  where
    by_slot :
        (s : Option ℕ)
        → free_slot 0 vm.descriptors ≡ s
        → (i : ℕ) × (vm' : Machine) × (open_descriptor host name mode vm ≡ done (pos i) vm')
          × IsLowest vm.descriptors i
          × IsOpenedAt i h vm vm'
    by_slot (some i) e =
        let r = free_slot_lem 0 vm.descriptors i (e ∙ ap (λ (n : ℕ). some n) (omega arith)) in
        (
          i,
          record vm {
            descriptors = Lists.set vm.descriptors i (some h);
            trace = open_file name mode ∷ vm.trace;
          },
          grind (arith, answer, e),
          (inl r.0, r.1),
          (
            set-get vm.descriptors i (some h) none r.0,
            λ j ne. set_other vm.descriptors i j (some h) ne,
          ),
        )
    by_slot none e = (
      length vm.descriptors,
      record vm {
        descriptors = vm.descriptors ++ some h ∷ [];
        trace = open_file name mode ∷ vm.trace;
      },
      grind (arith, answer, e),
      (inr refl, (λ j l. free_slot-full 0 vm.descriptors e j)),
      (append_end vm.descriptors (some h), λ j ne. append_other vm.descriptors (some h) j ne),
    )

in_range : (ds : List (Option ℕ)) (i : ℕ) (x : Option ℕ) → get_elem? ds i ≡ some x → i < length ds
in_range [] i x h = cc
in_range (d ∷ ds) zero x h = omega arith
in_range (d ∷ ds) (suc i) x h = let l = in_range ds i x h in omega arith

close_open :
    (host : Host) (fd h n : ℕ) (vm : Machine)
    → get_elem? vm.descriptors fd ≡ some (some h)
    → host.number vm.trace (close h) ≡ ok n
    → sys_close host fd vm
      ≡ done
          (pos 0)
          (record vm { descriptors = Lists.set vm.descriptors fd none; trace = close h ∷ vm.trace })
unfolding sys_close descriptor
close_open host fd h n vm there answer =
    let l = in_range vm.descriptors fd (some h) there in grind (arith, l, there, answer)

close_closed :
    (host : Host) (fd : ℕ) (vm : Machine)
    → get_elem? vm.descriptors fd ≡ some none
    → sys_close host fd vm ≡ done (negsuc 0) vm
unfolding sys_close descriptor
close_closed host fd vm there =
    let l = in_range vm.descriptors fd none there in grind (arith, l, there)

-- Where the host closes the file object of a place, `sys_close` returns 0, the place is empty and
-- every other place is as it was; closing the same place again returns -1 and changes nothing.
pub sys_close_lem :
    (host : Host) (fd h n : ℕ) (vm : Machine)
    → get_elem? vm.descriptors fd ≡ some (some h)
    → host.number vm.trace (close h) ≡ ok n
    → (vm' : Machine) × (sys_close host fd vm ≡ done (pos 0) vm')
      × (get_elem? vm'.descriptors fd ≡ some none)
      × ((j : ℕ) → (j == fd) ≡ false → get_elem? vm'.descriptors j ≡ get_elem? vm.descriptors j)
      × (sys_close host fd vm' ≡ done (negsuc 0) vm')
sys_close_lem host fd h n vm there answer =
    let emptied = set-get vm.descriptors fd none (some h) there in
    (
      record vm { descriptors = Lists.set vm.descriptors fd none; trace = close h ∷ vm.trace },
      close_open host fd h n vm there answer,
      emptied,
      (λ j ne. set_other vm.descriptors fd j none ne),
      close_closed host fd _ emptied,
    )

min_zero : (x : ℕ) → min x 0 ≡ 0
min_zero x = omega arith

no_digits : (n a : ℕ) → digits (λ b. 0) min n a 0 ≡ 0
no_digits zero a = refl
no_digits (suc n) zero = refl
no_digits (suc n) (suc a) =
    ap₂ (λ (x y : ℕ). x * 2 + y) (no_digits n (suc a / 2)) (min_zero (suc a % 2))

no_flag : (flags : ℤ) → has_flag flags 0 ≡ false
no_flag (pos n) =
    let e : bit_and n 0 ≡ 0 = bit_and-bitwise n 0 ∙ no_digits n n in ap (λ (x : ℕ). not (x == 0)) e
no_flag (negsuc n) = ground arith

-- The access mode O_RDONLY is 0, and its test `flags & 0` is always false: with flags that have none
-- of O_WRONLY, O_RDWR and O_LARGEFILE, `sys_open` opens nothing. It returns -1 without a request to
-- the host, whatever path can be read.
pub sys_open-refuses :
    (host : Host) (address mode : ℕ) (flags : ℤ) (path : List ℕ) (vm : Machine)
    → read_path host address vm ≡ done path vm
    → has_flag flags 1 ≡ false
    → has_flag flags 2 ≡ false
    → has_flag flags 32768 ≡ false
    → sys_open host address flags mode vm ≡ done (negsuc 0) vm
unfolding sys_open
sys_open-refuses host address mode flags path vm read a b c =
    let z : has_flag flags 0 ≡ false = no_flag flags in
    >>=-done (read_path host address) _ read ∙ grind (arith, z, a, b, c)
