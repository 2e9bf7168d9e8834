-- ===== src/Loader/Vectors.antt =====
-- VM/fetchLoop.py, `ExecuteELF`: the vectors of addresses on the first stack.
use py_vm.Prelude.{
  length, length-append, ℕ, zero, suc, ◌+◌, ◌-◌, ◌*◌, ◌%◌, ◌≤◌, ◌<◌, ◌≡◌, refl, sym, subst, ap, ◌∙◌,
  fun_ext, inr, List, [], ◌∷◌, ◌++◌, arith, pos,
}
use py_vm.Bytes.{Buffer, read32, write32}
use py_vm.Bytes.Laws.{read32-write32, write32_outside}
use py_vm.Outcome.{ok}
use py_vm.Machine.{Machine, Outcome, done, raised, Exec, ◌>>=◌, >>=-done}
use py_vm.Stack.{stack_push}
use py_vm.Stack.RoundTrip.{CanPush, pushed, stack_push_lem, esp-pushed}
use py_vm.Memory.Laws.{mem_stored}
use py_vm.Loader.{reversed, push_addresses, push_vectors}
use py_vm.Registers
use mathlib.Core.List.{append-nil, append_assoc}

-- The stack of a flat memory with 32-bit words: ESP is `e`, and the program break is `brk`.
pub record IsStack (vm : Machine) (e brk : ℕ) : Type 0 where
  pub esp_value : Registers.get vm.reg 4 4 ≡ ok e
  pub esp_range : e < 4294967296
  pub wide_stack : vm.stack_address_size ≡ 4
  pub word : vm.operand_size ≡ 4
  pub flat : vm.mem.segment_base ≡ 0
  pub in_memory : e ≤ vm.mem.size
  pub break_value : vm.mem.program_break ≡ pos brk

-- The words of a buffer from the index `i` on.
unfoldable pub read_words : Buffer → ℕ → ℕ → List ℕ
read_words b i zero = []
read_words b i (suc n) = read32 b i ∷ read_words b (i + 4) n

abbrev pub AreWords : List ℕ → Type 0
AreWords [] = Unit
AreWords (x ∷ xs) = (x < 4294967296) × AreWords xs

IsStack-CanPush : (vm : Machine) (e brk : ℕ) → IsStack vm e brk → brk + 4 ≤ e → CanPush vm e
IsStack-CanPush vm e brk s h =
    let w = s.word in
    let flat = s.flat in
    let inside = s.in_memory in
    let end = s.break_value in
    record {
      esp_value = s.esp_value;
      esp_range = s.esp_range;
      wide_stack = s.wide_stack;
      word = inr (inr w);
      room = omega (arith, w);
      above_break = ground (arith, w, end);
      in_memory = omega (arith, flat, inside);
    }

pushed_cells :
    (vm : Machine) (e brk a : ℕ)
    → IsStack vm e brk
    → (pushed (pos a) e vm).mem.cells ≡ write32 vm.mem.cells (e - 4) (a % 4294967296)
unfolding pushed mem_stored
pushed_cells vm e brk a s = let w = s.word in let flat = s.flat in grind (arith, w, flat)

pushed-IsStack :
    (vm : Machine) (e brk a : ℕ)
    → IsStack vm e brk
    → brk + 4 ≤ e
    → IsStack (pushed (pos a) e vm) (e - 4) brk
unfolding pushed mem_stored
pushed-IsStack vm e brk a s h =
    let range = s.esp_range in
    let inside = s.in_memory in
    record {
      esp_value =
          esp-pushed vm e (pos a) (IsStack-CanPush vm e brk s h)
          ∙ ap (λ (n : ℕ). ok (e - n)) s.word;
      esp_range = omega (arith, range);
      wide_stack = s.wide_stack;
      word = s.word;
      flat = s.flat;
      in_memory = omega (arith, inside);
      break_value = s.break_value;
    }

read_words_last :
    (b : Buffer) (i n : ℕ) → read_words b i (suc n) ≡ read_words b i n ++ read32 b (i + 4 * n) ∷ []
unfolding read_words
read_words_last b i zero = ap (λ (j : ℕ). read32 b j ∷ []) (omega arith)
read_words_last b i (suc n) =
    ap (λ (xs : List ℕ). read32 b i ∷ xs) (read_words_last b (i + 4) n)
    ∙ ap (λ (j : ℕ). read32 b i ∷ (read_words b (i + 4) n ++ read32 b j ∷ [])) (omega arith)

read32_same : (b c : Buffer) (i : ℕ) → ((j : ℕ) → i ≤ j → b j ≡ c j) → read32 b i ≡ read32 c i
read32_same b c i h = omega (
  arith,
  h i (omega arith),
  h (i + 1) (omega arith),
  h (i + 2) (omega arith),
  h (i + 3) (omega arith),
)

slots : (e k : ℕ) → e - 4 - 4 * k ≡ e - 4 * suc k
slots e k = omega arith

last_slot : (e brk k : ℕ) → brk + 4 * suc k ≤ e → e - 4 * suc k + 4 * k ≡ e - 4
last_slot e brk k h = omega arith

pub push_addresses_lem :
    (addresses : List ℕ) (vm : Machine) (e brk : ℕ)
    → IsStack vm e brk
    → AreWords addresses
    → brk + 4 * length addresses ≤ e
    → (vm' : Machine) × (push_addresses addresses vm ≡ done tt vm')
      × IsStack vm' (e - 4 * length addresses) brk
      × (read_words vm'.mem.cells (e - 4 * length addresses) (length addresses)
          ≡ reversed addresses)
      × ((j : ℕ) → e ≤ j → vm'.mem.cells j ≡ vm.mem.cells j)
unfolding push_addresses reversed read_words
push_addresses_lem [] vm e brk s words room =
    (vm, refl, subst (λ (n : ℕ). IsStack vm n brk) (omega arith) s, refl, (λ j h. refl))
push_addresses_lem (a ∷ rest) vm e brk s words room =
    let can = IsStack-CanPush vm e brk s (omega arith) in
    let vm₁ = pushed (pos a) e vm in
    let cells₁ = pushed_cells vm e brk a s in
    let (vm', run, left, found, kept) =
      push_addresses_lem rest vm₁ (e - 4) brk (pushed-IsStack vm e brk a s (omega arith)) words.1
        (omega arith) in
    let k = length rest in
    let stored : read32 vm'.mem.cells (e - 4) ≡ a =
      read32_same vm'.mem.cells vm₁.mem.cells (e - 4) kept
      ∙ ap (λ (b : Buffer). read32 b (e - 4)) cells₁
      ∙ read32-write32 vm.mem.cells (e - 4) (a % 4294967296)
      ∙ omega (arith, words.0) in
    (
      vm',
      >>=-done (stack_push (pos a)) (λ x. push_addresses rest) {vm = vm}
            (stack_push_lem vm e (pos a) can)
          ∙ run,
      subst (λ (n : ℕ). IsStack vm' n brk) (slots e k) left,
      read_words_last vm'.mem.cells (e - 4 * suc k) k
          ∙ ap
              (λ (i : ℕ). read_words vm'.mem.cells (e - 4 * suc k) k ++ read32 vm'.mem.cells i ∷ [])
              (last_slot e brk k room)
          ∙ ap (λ (w : ℕ). read_words vm'.mem.cells (e - 4 * suc k) k ++ w ∷ []) stored
          ∙ ap (λ (xs : List ℕ). xs ++ a ∷ [])
              (ap (λ (i : ℕ). read_words vm'.mem.cells i k) (sym (slots e k)) ∙ found),
      (λ j h.
          kept j (omega arith)
          ∙ ap (λ (b : Buffer). b j) cells₁
          ∙ write32_outside vm.mem.cells (e - 4) (a % 4294967296) j (inr (omega arith))),
    )

reversed-append : (xs ys : List ℕ) → reversed (xs ++ ys) ≡ reversed ys ++ reversed xs
unfolding reversed
reversed-append [] ys = sym (append-nil (reversed ys))
reversed-append (x ∷ xs) ys =
    ap (λ (l : List ℕ). l ++ x ∷ []) (reversed-append xs ys)
    ∙ append_assoc (reversed ys) (reversed xs) (x ∷ [])

reversed_involutive : (xs : List ℕ) → reversed (reversed xs) ≡ xs
unfolding reversed
reversed_involutive [] = refl
reversed_involutive (x ∷ xs) =
    reversed-append (reversed xs) (x ∷ []) ∙ ap (λ (l : List ℕ). x ∷ l) (reversed_involutive xs)

AreWords-append : (xs ys : List ℕ) → AreWords xs → AreWords ys → AreWords (xs ++ ys)
AreWords-append [] ys h k = k
AreWords-append (x ∷ xs) ys h k = (h.0, AreWords-append xs ys h.1 k)

AreWords-reversed : (xs : List ℕ) → AreWords xs → AreWords (reversed xs)
unfolding reversed
AreWords-reversed [] h = tt
AreWords-reversed (x ∷ xs) h =
    AreWords-append (reversed xs) (x ∷ []) (AreWords-reversed xs h.1) (h.0, tt)

length-reversed : (xs : List ℕ) → length (reversed xs) ≡ length xs
unfolding reversed
length-reversed [] = refl
length-reversed (x ∷ xs) =
    let l = length-append (reversed xs) (x ∷ []) in omega (arith, l, length-reversed xs)

assoc :
    (o : Outcome (Unit {0})) (f g : Exec (Unit {0}))
    → Path
        (Outcome (Unit {0}))
        (elim o [ done _ vm ↦ (f >>= λ x. g) vm | raised e vm ↦ raised e vm ])
        (elim (elim o as (λ x. Outcome (Unit {0})) [
          | done _ vm ↦ f vm
          | raised e vm ↦ raised e vm
        ]) [ done _ vm ↦ g vm | raised e vm ↦ raised e vm ])
assoc (done a vm) f g = refl
assoc (raised e vm) f g = refl

push_addresses-append :
    (xs ys : List ℕ) (vm : Machine)
    → push_addresses (xs ++ ys) vm ≡ (push_addresses xs >>= λ x. push_addresses ys) vm
unfolding push_addresses
push_addresses-append [] ys vm = refl
push_addresses-append (x ∷ xs) ys vm =
    ap (λ (m : Exec (Unit {0})). (stack_push (pos x) >>= λ y. m) vm)
      (fun_ext (push_addresses-append xs ys))
    ∙ assoc (stack_push (pos x) vm) (push_addresses xs) (push_addresses ys)

settled :
    (o : Outcome (Unit {0}))
    → Path (Outcome (Unit {0})) (elim o [ done x vm ↦ done tt vm | raised e vm ↦ raised e vm ]) o
settled (done a vm) = refl
settled (raised e vm) = refl

alone : (a : ℕ) (vm : Machine) → push_addresses (a ∷ []) vm ≡ stack_push (pos a) vm
unfolding push_addresses
alone a vm = settled (stack_push (pos a) vm)

module _ (count : ℕ) (args env : List ℕ) where
  -- What is pushed, in this order.
  abbrev behind_env : List ℕ
  behind_env = 0 ∷ (reversed args ++ count ∷ [])

  abbrev all_pushed : List ℕ
  all_pushed = 0 ∷ 0 ∷ (reversed env ++ behind_env)

  args_pushed :
      Path
        (Exec (Unit {0}))
        (push_addresses (reversed args ++ count ∷ []))
        (push_addresses (reversed args) >>= λ x. stack_push (pos count))
  args_pushed =
      fun_ext (push_addresses-append (reversed args) (count ∷ []))
      ∙ ap (λ (m : Exec (Unit {0})). push_addresses (reversed args) >>= λ x. m)
          (fun_ext (alone count))

  pushed_together : (vm : Machine) → push_addresses all_pushed vm ≡ push_vectors count args env vm
  unfolding push_addresses push_vectors
  pushed_together vm =
      ap (λ (m : Exec (Unit {0})). (stack_push (pos 0) >>= λ x. stack_push (pos 0) >>= λ y. m) vm)
        (fun_ext (push_addresses-append (reversed env) behind_env)
          ∙ ap
              (λ (m : Exec (Unit {0})).
                push_addresses (reversed env) >>= λ x. stack_push (pos 0) >>= λ y. m)
              args_pushed)

  read_back : reversed all_pushed ≡ count ∷ (args ++ 0 ∷ (env ++ 0 ∷ 0 ∷ []))
  unfolding reversed
  read_back = simp (reversed-append, reversed_involutive, append_assoc)

  pushed_count : length all_pushed ≡ length args + length env + 4
  pushed_count =
      let l₁ = length-append (reversed env) behind_env in
      let l₂ = length-append (reversed args) (count ∷ []) in
      omega (arith, l₁, l₂, length-reversed env, length-reversed args)

  pushed-AreWords : count < 4294967296 → AreWords args → AreWords env → AreWords all_pushed
  pushed-AreWords c a v =
      let small : 0 < 4294967296 = omega arith in
      let with_args : AreWords behind_env =
        (small, AreWords-append (reversed args) (count ∷ []) (AreWords-reversed args a) (c, tt)) in
      (
        small,
        (small, AreWords-append (reversed env) behind_env (AreWords-reversed env v) with_args),
      )

  -- The vectors have `n` words, from ESP on: the count of the arguments, their addresses and 0, those of
  -- the environment and 0, and 0. What was above ESP is as before.
  abbrev pub HasVectors : Machine → Machine → ℕ → ℕ → ℕ → Type 0
  HasVectors vm vm' e brk n =
      IsStack vm' (e - 4 * n) brk
      × (read_words vm'.mem.cells (e - 4 * n) n ≡ count ∷ (args ++ 0 ∷ (env ++ 0 ∷ 0 ∷ [])))
      × ((j : ℕ) → e ≤ j → vm'.mem.cells j ≡ vm.mem.cells j)

  -- On a stack of 32-bit words in a flat memory, with room above the program break, the vectors are
  -- pushed without an exception, and a program finds at ESP the layout of a Linux process: the count
  -- of the arguments, their addresses in order and 0, the addresses of the environment in order and 0,
  -- and an empty auxiliary vector. The strings above are left as they were.
  pub push_vectors_lem :
      (vm : Machine) (e brk : ℕ)
      → IsStack vm e brk
      → count < 4294967296
      → AreWords args
      → AreWords env
      → brk + 4 * (length args + length env + 4) ≤ e
      → (vm' : Machine) × (push_vectors count args env vm ≡ done tt vm')
        × HasVectors vm vm' e brk (length args + length env + 4)
  push_vectors_lem vm e brk s c a v room =
      let n = pushed_count in
      let (vm', run, left, found, kept) =
        push_addresses_lem all_pushed vm e brk s (pushed-AreWords c a v) (omega (arith, n, room)) in
      (
        vm',
        sym (pushed_together vm) ∙ run,
        subst (HasVectors vm vm' e brk) n (left, found ∙ read_back, kept),
      )
