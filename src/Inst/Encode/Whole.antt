-- ===== src/Inst/Encode/Whole.antt =====
-- CPU/inst.cpp: `inst_decode` after `inst_encode`, with the search for the opcode.
use spim_curses.Base.{
  ℕ, ◌+◌, ◌*◌, ◌/◌, ◌%◌, ◌^◌, ◌<◌, ◌≡◌, ◌≢◌, ◌∙◌, ap, arith, bit_and, IsWord, some,
}
use spim_curses.Base.Fields.{bit_and_low, bit_and_high}
use spim_curses.Inst.Op.{Op, Format}
use spim_curses.Inst.Table.{op_entry}
use spim_curses.Inst.Encode.{inst_encode}
use spim_curses.Inst.Encode.RoundTrip.{i_type, decode_format-i2}
use spim_curses.Inst.Decode.{opcode_bits, find_row, decode_row, inst_decode}

-- The operation has the opcode `a` in the six high bits alone, and is found under it.
pub record IsPlain (op : Op) (a : ℕ) : Type 0 where
  pub entry : op_entry op ≡ some (record { format = Format.i2; a_opcode = a })
  pub row : find_row a ≡ some (record { value1 = a; value2 = some op })
  pub word : IsWord a
  pub high : a % 2 ^ 26 ≡ 0
  pub alone :
      (a ≢ 0)
      × (a ≢ 0x04000000)
      × (a ≢ 0x40000000)
      × (a ≢ 0x44000000)
      × (a ≢ 0x48000000)
      × (a ≢ 0x4c000000)
      × (a ≢ 0x70000000)

opcode_bits-plain : (op : Op) (a low : ℕ) → IsPlain op a → low < 2 ^ 26 → opcode_bits (a + low) ≡ a
unfolding opcode_bits
opcode_bits-plain op a low plain p =
    let high : bit_and (a + low) 0xfc000000 ≡ a = omega (
      arith,
      plain.word,
      plain.high,
      bit_and_high 26 (a + low) 63,
      bit_and_low 6 ((a + low) / 2 ^ 26),
    ) in
    ground (arith, high, plain.alone)

-- `inst_decode` gives back what `inst_encode` was given, with its encoding set, for an instruction
-- of two registers and a 16-bit immediate whose operation stands in the tables under an opcode in
-- the six high bits.
pub inst_decode-inst_encode :
    (op : Op) (a s t i : ℕ)
    → IsPlain op a
    → s < 32
    → t < 32
    → i < 2 ^ 16
    → (w : ℕ) × (inst_encode (i_type op s t i) ≡ some w)
      × (inst_decode w ≡ record (i_type op s t i) { encoding = w })
unfolding inst_encode inst_decode decode_row
inst_decode-inst_encode op a s t i plain p q r =
    let (w, sum, encoded, decoded) = decode_format-i2 op a s t i plain.word plain.high p q r in
    let bits : opcode_bits w ≡ a =
      ap opcode_bits sum
      ∙ opcode_bits-plain op a (s * 2 ^ 21 + t * 2 ^ 16 + i) plain (omega arith) in
    (
      w,
      rw (plain.entry, inst_encode) encoded,
      rw bits (rw plain.row (rw (plain.entry, decode_row) decoded)),
    )
