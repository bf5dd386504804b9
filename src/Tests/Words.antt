-- ===== src/Tests/Words.antt =====
-- CPU/run.cpp, CPU/inst.cpp and CPU/spim-utils.cpp: the properties of words at concrete values.
use spim_curses.Base.{
  ℕ, zero, suc, ◌*◌, ◌/◌, ◌%◌, ◌^◌, ◌≤◌, ◌<◌, ◌≡◌, ◌↔◌, refl, arith, false, add32, mul32, IsWord,
  some, List, [], ◌∷◌, ◌⊎◌, signed, slt,
}
use spim_curses.Base.{get_elem?}
use spim_curses.Base.Int.{◌+ℤ◌, ◌*ℤ◌}
use spim_curses.Inst.Op.{Op}
use spim_curses.Inst.Fields.{Instruction, imm, idisp}
use spim_curses.Inst.Fields.Displacement.{imm_bits, idisp-exact}
use spim_curses.Inst.Table.{op_entry}
use spim_curses.Inst.Rows.{a_opcode_tbl}
use spim_curses.Inst.Encode.{inst_encode}
use spim_curses.Inst.Decode.{inst_decode, find_row}
use spim_curses.Inst.Encode.RoundTrip.{i_type}
use spim_curses.Inst.Encode.Whole.{IsPlain, inst_decode-inst_encode}
use spim_curses.Run.Arith.{arith_ovfl}
use spim_curses.Run.Arith.Overflow.{arith_ovfl-exact}
use spim_curses.Run.Arith.Division.{IsDivision, mul_op-div}
use spim_curses.Run.Alu.{mul_op, vs, vt}
use spim_curses.Cpu.Defs.{Cpu, set_r}
use spim_curses.Tests.Setting.{cpu0}
use spim_curses.Run.Multiply.{HiLo, unsigned_multiply, signed_multiply}
use spim_curses.Run.Multiply.Unsigned.{double, IsPair, unsigned_multiply-exact}
use spim_curses.Run.Multiply.Signed.{double_signed, signed_multiply-exact}
use spim_curses.Utils.Search.{map_int, search_loop}
use spim_curses.Utils.Search.Sorted.{IsSorted, map_int-finds}

unsigned_multiply-exact_example :
    (double (unsigned_multiply 0xffff_ffff 0xffff_ffff) ≡ 0xffff_ffff * 0xffff_ffff)
    × IsPair (unsigned_multiply 0xffff_ffff 0xffff_ffff)
unsigned_multiply-exact_example =
    unsigned_multiply-exact 0xffff_ffff 0xffff_ffff (omega arith) (omega arith)

signed_multiply-exact_example :
    (double_signed (signed_multiply 0x8000_0000 7) ≡ signed 0x8000_0000 *ℤ signed 7)
    × IsPair (signed_multiply 0x8000_0000 7)
signed_multiply-exact_example = signed_multiply-exact 0x8000_0000 7 (omega arith) (omega arith)

abbrev top_pair : HiLo
top_pair = record { hi = 0xffff_ffff; lo = 0xffff_ffff }

abbrev low_pair : HiLo
low_pair = record { hi = 0; lo = 3 }

arith_ovfl-exact_example :
    (arith_ovfl (add32 0x7fff_ffff 1) 0x7fff_ffff 1 ≡ false)
    ↔ (signed (add32 0x7fff_ffff 1) ≡ signed 0x7fff_ffff +ℤ signed 1)
arith_ovfl-exact_example = arith_ovfl-exact 0x7fff_ffff 1 (omega arith) (omega arith)

-- `div $1, $2` on -7 and 2.
abbrev div0 : Instruction
div0 = i_type Op.div 1 2 0

abbrev dividing : Cpu
dividing = set_r 1 0xffff_fff9 (set_r 2 2 cpu0)

mul_op-div_example :
    ((mul_op Op.div div0 dividing ≡ some dividing)
      × ((vt div0 dividing ≡ 0)
          ⊎ ((vs div0 dividing ≡ 0x8000_0000) × (vt div0 dividing ≡ 0xffff_ffff))))
    ⊎ ((q : ℕ) × (r : ℕ) × (mul_op Op.div div0 dividing ≡ some (record dividing { lo = q; hi = r }))
        × IsDivision (vs div0 dividing) (vt div0 dividing) q r)
mul_op-div_example = mul_op-div div0 dividing (omega arith) (omega arith)

idisp-exact_example :
    (idisp (i_type Op.beq 1 2 0x2000) ≡ mul32 (imm (i_type Op.beq 1 2 0x2000)) 4) ↔ (
      (imm_bits (i_type Op.beq 1 2 0x2000) / 2 ^ 13 % 2 ≡ 0)
      ⊎ (0xe000 ≤ imm_bits (i_type Op.beq 1 2 0x2000)))
idisp-exact_example = idisp-exact (i_type Op.beq 1 2 0x2000)

addi-IsPlain : IsPlain Op.addi 0x2000_0000
unfolding op_entry find_row map_int search_loop a_opcode_tbl
addi-IsPlain = record {
  entry = refl;
  row = refl;
  word = omega arith;
  high = omega arith;
  alone =
      (omega arith, omega arith, omega arith, omega arith, omega arith, omega arith, omega arith);
}

inst_decode-inst_encode_example :
    (w : ℕ) × (inst_encode (i_type Op.addi 3 4 0xfffe) ≡ some w)
    × (inst_decode w ≡ record (i_type Op.addi 3 4 0xfffe) { encoding = w })
inst_decode-inst_encode_example =
    inst_decode-inst_encode Op.addi 0x2000_0000 3 4 0xfffe addi-IsPlain (omega arith) (omega arith)
      (omega arith)

-- Keys -1 and 6, in the order of `int32`.
abbrev two_keys : List ℕ
two_keys = 0xffff_ffff ∷ 6 ∷ []

two_keys-words : (i a : ℕ) → get_elem? two_keys i ≡ some a → IsWord a
two_keys-words zero a h = ground (arith, h)
two_keys-words (suc zero) a h = ground (arith, h)
two_keys-words (suc (suc i)) a h = absurd (ground (arith, h))

two_keys-sorted :
    (i j a b : ℕ)
    → i < j
    → get_elem? two_keys i ≡ some a
    → get_elem? two_keys j ≡ some b
    → slt b a ≡ false
two_keys-sorted zero (suc zero) a b p h k = ground (arith, h, k)
two_keys-sorted i (suc (suc j)) a b p h k = absurd (ground (arith, k))
two_keys-sorted i zero a b p h k = absurd (omega arith)
two_keys-sorted (suc i) (suc zero) a b p h k = absurd (omega arith)

two_keys-IsSorted : IsSorted (λ (k : ℕ). k) two_keys
two_keys-IsSorted = record { words = two_keys-words; sorted = two_keys-sorted }

map_int-finds_example : (e : ℕ) × (map_int (λ (k : ℕ). k) two_keys 6 ≡ some e) × (e ≡ 6)
map_int-finds_example = map_int-finds (λ (k : ℕ). k) two_keys two_keys-IsSorted 1 6 refl

abbrev minus_one : ℕ
minus_one = 0xffff_ffff
