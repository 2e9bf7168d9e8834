-- ===== src/Instructions/Shift.antt =====
-- VM/instructions/bitwise.py, `SHIFT` and `SHIFTD`, with the enumeration `Shift` of VM/misc.py.
pub mod Loop
use py_vm.Prelude.{
  ℕ, zero, suc, ◌-◌, ◌*◌, ◌/◌, ◌%◌, ◌^◌, bit_or, bit_xor, Bool, true, false, not, ◌||◌, ltb, ◌==◌,
  if◌then◌else◌, bit, ℤ, pos, ◌%ℤ◌, ◌<<ℤ◌, ◌>>ℤ◌,
}
use py_vm.Misc.{modulus, sign_bit, parity, msb, lsb}
use py_vm.Machine.{Exec, pure, ◌>>=◌, ◌>>◌, gets, get_reg, set_eip, set_flags, fetch_data}
use py_vm.ModRm.{Place, get_place, get_place_signed, set_place, process_modrm}
use py_vm.Registers.{Flags}

pub data Count : Type 0 where
  c_one c_cl c_imm8 : Count

pub data ShiftOp : Type 0 where
  shl shr sar : ShiftOp

-- The REG field that selects the operation.
abbrev pub shift_reg : ShiftOp → ℕ
shift_reg shl = 4
shift_reg shr = 5
shift_reg sar = 7

-- The loop `while tmp_cnt != 0`: the operand and the carry flag.
unfoldable pub shift_loop : ShiftOp → ℕ → ℕ → ℤ → ℕ → ℤ × ℕ
unfolding msb lsb
shift_loop op sz zero dst cf = (dst, cf)
shift_loop shl sz (suc n) dst cf = shift_loop shl sz n (dst <<ℤ 1) (msb dst sz)
shift_loop shr sz (suc n) dst cf = shift_loop shr sz n (dst >>ℤ 1) (lsb dst)
shift_loop sar sz (suc n) dst cf = shift_loop sar sz n (dst >>ℤ 1) (lsb dst)

-- OF after a shift by one.
abbrev shift_of : ShiftOp → ℕ → ℤ → ℤ → ℕ → ℕ
shift_of shl sz before after cf = bit_xor (msb after sz) cf
shift_of sar sz before after cf = 0
shift_of shr sz before after cf = msb before sz

unfoldable pub shift_flags : ShiftOp → ℕ → ℕ → ℤ → ℤ → ℕ → Flags → Flags
unfolding msb
shift_flags op sz n before after cf f = record f {
  cf = cf;
  of = (if n == 1 then shift_of op sz before after cf else f.of);
  sf = msb after sz;
  zf = bit (after %ℤ modulus sz == 0);
  pf = parity (after %ℤ modulus sz);
}

abbrev pub shift_count : Count → Exec ℕ
shift_count c_one = pure 1
shift_count c_cl = get_reg 1 1
shift_count c_imm8 = fetch_data 1

-- The operand is read as signed for SAR.
abbrev pub shift_operand : ShiftOp → Place → ℕ → Exec ℤ
shift_operand sar rm sz = get_place_signed rm sz
shift_operand _ rm sz = do d ← get_place rm sz; pure (pos d)

-- `sz = vm.operand_size` overrides the eight-bit size, so `_8bit` has no effect.
unfoldable pub shift : ShiftOp → Count → Bool → Exec Bool
unfolding shift_loop shift_flags
shift op cnt bits8 = do
  old_eip ← gets (λ vm. vm.eip)
  sz ← gets (λ vm. vm.operand_size)
  (rm, r) ← process_modrm
  if not (r == shift_reg op) then (do set_eip old_eip; pure false) else do
    count ← shift_count cnt
    if count % 32 == 0 then pure true else do
      before ← shift_operand op rm sz
      cf ← gets (λ vm. vm.flags.cf)
      let r' = shift_loop op sz (count % 32) before cf
      set_flags (shift_flags op sz (count % 32) before r'.0 r'.1)
      set_place rm sz (pos (r'.0 %ℤ modulus sz))
      pure true

-- The double shifts: the operand and the carry flag, for a count of at most the width. In the right
-- shift the bits of `src` go to the place `cnt`.
unfoldable pub double_shift : Bool → ℕ → ℕ → ℕ → ℕ → ℕ × ℕ
double_shift left sz dst src cnt =
    let bits = src / 2 ^ (sz * 8 - cnt) in
    if left
    then (bit_or (dst * 2 ^ cnt) bits, dst / 2 ^ (sz * 8 - cnt) % 2)
    else (bit_or (dst / 2 ^ cnt) (bits * 2 ^ cnt), dst / 2 ^ (cnt - 1) % 2)

unfoldable pub double_flags : ℕ → ℕ → ℕ → ℕ → ℕ → Flags → Flags
double_flags sz cnt before after cf f = record f {
  cf = cf;
  sf = sign_bit sz after;
  zf = bit (after % modulus sz == 0);
  pf = parity (after % modulus sz);
  of = (if cnt == 1 then bit (not (sign_bit sz before == sign_bit sz after)) else f.of);
}

unfoldable pub shiftd : Bool → Bool → Exec Bool
unfolding double_shift double_flags
shiftd left by_imm = do
  sz ← gets (λ vm. vm.operand_size)
  (rm, r) ← process_modrm
  dst ← get_place rm sz
  src ← get_reg r sz
  count ← (if by_imm then fetch_data 1 else get_reg 1 1)
  let cnt = count % 32
  if cnt == 0 || ltb (sz * 8) cnt then pure true else do
    let r' = double_shift left sz dst src cnt
    set_flags (double_flags sz cnt dst r'.0 r'.1)
    set_place rm sz (pos (r'.0 % modulus sz))
    pure true
