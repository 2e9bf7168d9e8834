-- ===== src/Misc.antt =====
-- VM/misc.py and VM/util.py: conversions between bit patterns and signed numbers, the parity and
-- the outer bits of a number, and the tables MAXVALS that each file of VM/instructions declares.
pub mod Laws
use py_vm.Prelude.{
  ℕ, ◌-◌, ◌*◌, ◌/◌, ◌%◌, ◌^◌, bit_and, Bool, not, ◌&&◌, ltb, ◌==◌, if◌then◌else◌, ℤ, pos, negsuc,
  sub_ℕ, ◌%ℤ◌, ◌>>ℤ◌, ltb_ℤ,
}
use py_vm.Outcome.{value_error, Result, ok, err}

-- MAXVALS[sz], for the sizes 1, 2 and 4 that the code indexes it by.
abbrev pub maxval : ℕ → ℕ
maxval sz = if sz == 1 then 255 else if sz == 2 then 65535 else 4294967295

-- `x & MAXVALS[sz]` is `x % modulus sz`: the mask holds the low bits.
abbrev pub modulus : ℕ → ℕ
modulus sz = if sz == 1 then 256 else if sz == 2 then 65536 else 4294967296

-- `1 << (sz * 8 - 1)`
abbrev pub half : ℕ → ℕ
half sz = if sz == 1 then 128 else if sz == 2 then 32768 else 2147483648

-- `(c >> (sz * 8 - 1)) & 1`, for a number that is not negative.
abbrev pub sign_bit : ℕ → ℕ → ℕ
sign_bit sz c = c / half sz % 2

-- `ret if ret < 2 ** (w - 1) else ret - 2 ** w`, as the signed reads of VM/Registers.py and
-- VM/Memory.py convert what they have read.
abbrev pub as_signed : ℕ → ℕ → ℤ
as_signed sz v = if ltb v (half sz) then pos v else sub_ℕ v (modulus sz)

unfoldable pub to_signed : ℤ → ℕ → ℤ
to_signed (negsuc n) size = negsuc n
to_signed (pos n) size =
    if size == 1
    then (if ltb 127 n then sub_ℕ n 256 else pos n)
    else if size == 2
    then (if ltb 32767 n then sub_ℕ n 65536 else pos n)
    else if size == 4
    then (if ltb 2147483647 n then sub_ℕ n 4294967296 else pos n)
    else pos n

-- `-low <= num <= high`
abbrev between : ℕ → ℕ → ℤ → Bool
between low high num = not (ltb_ℤ num (sub_ℕ 0 low)) && not (ltb_ℤ (pos high) num)

unfoldable pub is_signed_out_of_range : ℤ → ℕ → Result Bool
is_signed_out_of_range num size =
    if size == 1
    then ok (between 128 127 num)
    else if size == 2
    then ok (between 32768 32767 num)
    else if size == 4
    then ok (between 2147483648 2147483647 num)
    else err value_error

-- `num & (sign_bit - 1)` is the remainder by the sign bit, and `num & sign_bit` is the bit itself.
unfoldable pub sign_extend : ℤ → ℕ → ℤ
sign_extend (negsuc n) nbytes = negsuc n
sign_extend (pos n) nbytes =
    let sign = 2 ^ (nbytes * 8 - 1) in sub_ℕ (n % sign) (n / sign % 2 * sign)

unfoldable pub parity : ℕ → ℕ
parity num = bit_and (num % 256 * 0x0101010101010101) 0x8040201008040201 % 0x1ff % 2

-- MSB and LSB
unfoldable pub msb : ℤ → ℕ → ℕ
msb num size = (num >>ℤ (size * 8 - 1)) %ℤ 2

unfoldable pub lsb : ℤ → ℕ
lsb num = num %ℤ 2
