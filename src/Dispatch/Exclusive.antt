-- ===== src/Dispatch/Exclusive.antt =====
-- VM/util.py `CPU.__init__` keeps the implementations of an opcode in a set, so `execute_opcode` may
-- try them in any order: at most one of a group takes an instruction, and the others leave the
-- machine as it was.
use py_vm.Prelude.{
  ℕ, ◌≡◌, refl, sym, ap, ◌∙◌, ◌⊎◌, inl, inr, Bool, true, false, not, ◌&&◌, ◌||◌, List, [], ◌∷◌,
  arith, if◌then◌else◌, Bool-cases,
}
use py_vm.Machine.{Machine, Outcome, done, raised, pure}
use py_vm.Dispatch.{Handler, try_all}
use mathlib.Core.List.{Permᴰ}

-- An implementation that did not return False.
abbrev pub took : Outcome Bool → Bool
took (done true vm) = true
took (done false vm) = false
took (raised e vm) = true

-- Whether it returned False without a change, or took the instruction with the outcome `out`.
abbrev pub Answers : Machine → Outcome Bool → Handler → Type 0
Answers vm out h = (h vm ≡ done false vm) ⊎ (h vm ≡ out)

abbrev pub AllAnswer : Machine → Outcome Bool → List Handler → Type 0
AllAnswer vm out [] = Unit
AllAnswer vm out (h ∷ hs) = Answers vm out h × AllAnswer vm out hs

-- One of the list has the outcome.
abbrev pub OneAnswers : Machine → Outcome Bool → List Handler → Type 0
OneAnswers vm out [] = ⊥
OneAnswers vm out (h ∷ hs) = (h vm ≡ out) ⊎ OneAnswers vm out hs

AllAnswer-perm :
    (vm : Machine) (out : Outcome Bool) {hs ks : List Handler}
    → Permᴰ hs ks
    → AllAnswer vm out ks
    → AllAnswer vm out hs
AllAnswer-perm vm out Permᴰ.nil a = a
AllAnswer-perm vm out (Permᴰ.cons e p) a = (rw e a.0, AllAnswer-perm vm out p a.1)
AllAnswer-perm vm out (Permᴰ.swap d e) a = (rw d a.1.0, (rw e a.0, a.1.1))
AllAnswer-perm vm out (Permᴰ.trans p q) a = AllAnswer-perm vm out p (AllAnswer-perm vm out q a)

OneAnswers-perm :
    (vm : Machine) (out : Outcome Bool) {hs ks : List Handler}
    → Permᴰ hs ks
    → OneAnswers vm out ks
    → OneAnswers vm out hs
OneAnswers-perm vm out Permᴰ.nil a = a
OneAnswers-perm vm out (Permᴰ.cons e p) (inl x) = inl (rw e x)
OneAnswers-perm vm out (Permᴰ.cons e p) (inr a) = inr (OneAnswers-perm vm out p a)
OneAnswers-perm vm out (Permᴰ.swap d e) (inl x) = inr (inl (rw e x))
OneAnswers-perm vm out (Permᴰ.swap d e) (inr (inl x)) = inl (rw d x)
OneAnswers-perm vm out (Permᴰ.swap d e) (inr (inr a)) = inr (inr a)
OneAnswers-perm vm out (Permᴰ.trans p q) a = OneAnswers-perm vm out p (OneAnswers-perm vm out q a)

head_case :
    (o : Outcome Bool) (rest : Handler)
    → took o ≡ true
    → Path
        (Outcome Bool)
        (elim o [ done a vm ↦ (if a then pure true else rest) vm | raised e vm ↦ raised e vm ])
        o
head_case (done true vm) rest t = refl
head_case (done false vm) rest t = cc
head_case (raised e vm) rest t = refl

module _ (vm : Machine) (out : Outcome Bool) (taken : took out ≡ true) where
  try_head : (h : Handler) (hs : List Handler) → h vm ≡ out → try_all (h ∷ hs) vm ≡ out
  unfolding try_all
  try_head h hs e =
      ap
        (λ (o : Outcome Bool). elim o [
          | done a vm' ↦ (if a then pure true else try_all hs) vm'
          | raised x vm' ↦ raised x vm'
        ])
        e
      ∙ head_case out (try_all hs) taken

  try_skip :
      (h : Handler) (hs : List Handler) → h vm ≡ done false vm → try_all (h ∷ hs) vm ≡ try_all hs vm
  unfolding try_all
  try_skip h hs e = ground arith

  -- The order does not matter.
  try_all-eq :
      (hs : List Handler) → AllAnswer vm out hs → OneAnswers vm out hs → try_all hs vm ≡ out
  try_all-eq [] a o = absurd o
  try_all-eq (h ∷ hs) a (inl e) = try_head h hs e
  try_all-eq (h ∷ hs) (inl e, a) (inr o) = try_skip h hs e ∙ try_all-eq hs a o
  try_all-eq (h ∷ hs) (inr e, a) (inr o) = try_head h hs e

-- A group: each implementation with the REG fields that it takes.
abbrev pub Group : Type 0
Group = List ((ℕ → Bool) × Handler)

unfoldable pub handlers : Group → List Handler
handlers [] = []
handlers ((p, h) ∷ g) = h ∷ handlers g

abbrev pub accepts : ℕ → Group → Bool
accepts r [] = false
accepts r ((p, h) ∷ g) = p r || accepts r g

-- No two implementations take the same field.
abbrev pub at_most_one : ℕ → Group → Bool
at_most_one r [] = true
at_most_one r ((p, h) ∷ g) = not (p r && accepts r g) && at_most_one r g

-- The outcome of the implementation that takes the field, or False if there is none.
unfoldable pub outcome : ℕ → Group → Machine → Outcome Bool
outcome r [] vm = done false vm
outcome r ((p, h) ∷ g) vm = let rest = outcome r g vm in if p r then h vm else rest

-- Each implementation takes its fields, and returns False without a change for the others.
abbrev pub IsSorted : ℕ → Machine → Group → Type 0
IsSorted r vm [] = Unit
IsSorted r vm ((p, h) ∷ g) =
    ((p r ≡ false) → h vm ≡ done false vm) × ((p r ≡ true) → took (h vm) ≡ true) × IsSorted r vm g

module _ (r : ℕ) (vm : Machine) where
  none_declines :
      (g : Group) (out : Outcome Bool)
      → accepts r g ≡ false
      → IsSorted r vm g
      → AllAnswer vm out (handlers g)
  unfolding handlers
  none_declines [] out n s = tt
  none_declines ((p, h) ∷ g) out n s =
      (inl (s.0 (ground arith)), none_declines g out (ground arith) s.2)

  none-outcome : (g : Group) → accepts r g ≡ false → outcome r g vm ≡ done false vm
  unfolding outcome
  none-outcome [] n = refl
  none-outcome ((p, h) ∷ g) n = ground (arith, none-outcome g)

  took-outcome : (g : Group) → accepts r g ≡ true → IsSorted r vm g → took (outcome r g vm) ≡ true
  unfolding outcome
  took-outcome [] a s = cc
  took-outcome ((p, h) ∷ g) a s = elim (Bool-cases (p r)) [
    | inl e ↦ rw e (s.1 e)
    | inr e ↦ rw e (took-outcome g (ground arith) s.2)
  ]

  all_answer :
      (g : Group) (out : Outcome Bool)
      → outcome r g vm ≡ out
      → at_most_one r g ≡ true
      → IsSorted r vm g
      → AllAnswer vm out (handlers g)
  unfolding outcome handlers
  all_answer [] out e m s = tt
  all_answer ((p, h) ∷ g) out e m s = elim (Bool-cases (p r)) [
    | inl y ↦ (inr (rw y at e), none_declines g out (ground arith) s.2)
    | inr n ↦ (inl (s.0 n), all_answer g out (rw n at e) (ground arith) s.2)
  ]

  one_answers :
      (g : Group) (out : Outcome Bool)
      → outcome r g vm ≡ out
      → accepts r g ≡ true
      → OneAnswers vm out (handlers g)
  unfolding outcome handlers
  one_answers [] out e a = cc
  one_answers ((p, h) ∷ g) out e a = elim (Bool-cases (p r)) [
    | inl y ↦ inl (rw y at e)
    | inr n ↦ inr (one_answers g out (rw n at e) (ground arith))
  ]

  try_none : (hs : List Handler) → AllAnswer vm (done false vm) hs → try_all hs vm ≡ done false vm
  unfolding try_all
  try_none [] a = refl
  try_none (h ∷ hs) (inl e, a) = ground (arith, try_none hs a)
  try_none (h ∷ hs) (inr e, a) = ground (arith, try_none hs a)

  -- In every order of a group, `try_all` has the outcome of the implementation that takes the field.
  pub try_all-perm :
      (g : Group) (hs : List Handler)
      → Permᴰ hs (handlers g)
      → at_most_one r g ≡ true
      → IsSorted r vm g
      → try_all hs vm ≡ outcome r g vm
  try_all-perm g hs p m s = elim (Bool-cases (accepts r g)) [
    | inl a ↦
        try_all-eq vm (outcome r g vm) (took-outcome g a s) hs
          (AllAnswer-perm vm _ p (all_answer g _ refl m s))
          (OneAnswers-perm vm _ p (one_answers g _ refl a))
    | inr n ↦ try_none hs (AllAnswer-perm vm _ p (none_declines g _ n s)) ∙ sym (none-outcome g n)
  ]
