-- ===== src/Inflate/Blocks.antt =====
-- The blocks of kernel/inflate.c: table headers, symbols, stored bytes, and the gzip header.
--
-- `all_lengths` is the list of the lengths decoded so far. The code's array has 318 places, and a
-- header can ask for 320.
pub mod Bounds
mod Tests
use aioperatingsystem.Common.{
  ℕ, zero, suc, ◌+◌, ◌-◌, ◌*◌, min, Bool, true, false, ◌&&◌, ◌||◌, List, [], ◌∷◌, ◌++◌, Option,
  none, some, ltb, leb, ◌==◌, ◌!=◌, if◌then◌else◌, get_or, set, take, drop, length, replicate, u32,
  ◌<<<◌, test_bit,
}
use Prim.Native.Nat.{bit_or, bit_xor}
use aioperatingsystem.Inflate.{
  BitReader, br_init, br_read_bits, br_align_to_byte, HuffmanTable, huffman_build, huffman_decode,
  length_base, length_extra_bits, dist_base, dist_extra_bits, code_length_order,
  build_fixed_huffman_tables,
}

-- The lengths of the code length code, in the order they are transmitted.
unfoldable pub read_code_lengths : List ℕ → (n : ℕ) → List ℕ → BitReader → List ℕ × BitReader
read_code_lengths order zero cl_lengths br = (cl_lengths, br)
read_code_lengths [] (suc n) cl_lengths br = (cl_lengths, br)
read_code_lengths (place ∷ order) (suc n) cl_lengths br =
    let r = br_read_bits br 3 in read_code_lengths order n (set cl_lengths place r.0) r.1

-- `while (repeat-- > 0 && i < total) all_lengths[i++] = value;`
abbrev repeat_length : (total : ℕ) → List ℕ → (repeat value : ℕ) → List ℕ
repeat_length total all_lengths repeat value =
    all_lengths ++ replicate (min repeat (total - length all_lengths)) value

abbrev last_length : List ℕ → ℕ
last_length all_lengths = get_or all_lengths (length all_lengths - 1) 0

-- One code length symbol: the lengths with what it adds, or an error.
unfoldable pub add_lengths :
    (total : ℕ) → List ℕ → Option ℕ × BitReader → Option (List ℕ × BitReader)
add_lengths total all_lengths (none, br) = none
add_lengths total all_lengths (some sym, br) =
    if ltb sym 16
    then some (all_lengths ++ (sym ∷ []), br)
    else (if sym == 16
        then (if length all_lengths == 0
            then none
            else (let r = br_read_bits br 2 in
                some (repeat_length total all_lengths (r.0 + 3) (last_length all_lengths), r.1)))
        else (if sym == 17
            then (let r = br_read_bits br 3 in
                some (repeat_length total all_lengths (r.0 + 3) 0, r.1))
            else (let r = br_read_bits br 7 in
                some (repeat_length total all_lengths (r.0 + 11) 0, r.1))))

abbrev with_lengths {ℓ} :
    {A : Type ℓ} → Option (List ℕ × BitReader) → (List ℕ → BitReader → Option A) → Option A
with_lengths none rest = none
with_lengths (some (all_lengths, br)) rest = rest all_lengths br

-- Each round adds a length at least, so `total` rounds are enough.
unfoldable pub read_lengths :
    (fuel : ℕ) → HuffmanTable → (total : ℕ) → List ℕ → BitReader → Option (List ℕ × BitReader)
read_lengths zero t total all_lengths br = some (all_lengths, br)
read_lengths (suc fuel) t total all_lengths br =
    if ltb (length all_lengths) total
    then with_lengths (add_lengths total all_lengths (huffman_decode t br))
        (λ all_lengths' br'. read_lengths fuel t total all_lengths' br')
    else some (all_lengths, br)

-- The counts, the code length code, and the lengths of both tables.
unfoldable pub read_dynamic_huffman_tables :
    BitReader → Option ((HuffmanTable × HuffmanTable) × BitReader)
read_dynamic_huffman_tables br =
    let r1 = br_read_bits br 5 in
    let r2 = br_read_bits r1.1 5 in
    let r3 = br_read_bits r2.1 4 in
    let hlit = r1.0 + 257 in
    let hdist = r2.0 + 1 in
    let cl = read_code_lengths code_length_order (r3.0 + 4) (replicate 19 0) r3.1 in
    with_lengths (read_lengths (hlit + hdist) (huffman_build cl.0) (hlit + hdist) [] cl.1)
      (λ all_lengths br'. some (
        (huffman_build (take hlit all_lengths), huffman_build (take hdist (drop hlit all_lengths))),
        br',
      ))

-- Byte by byte: the source may be what this copy wrote.
pub copy_back : List ℕ → (src n : ℕ) → List ℕ
copy_back out src zero = out
copy_back out src (suc n) = copy_back (out ++ (get_or out src 0 ∷ [])) (src + 1) n

-- How a symbol leaves the loop: an error with the bytes written before it, the end of the block, or going on.
pub data SymbolResult : Type 0 where
  malformed : List ℕ → SymbolResult
  end_of_block : BitReader → SymbolResult
  go_on : List ℕ → BitReader → SymbolResult

-- The distance of a back-reference and the copy.
pub back_reference : (out_max : ℕ) → List ℕ → (len : ℕ) → Option ℕ × BitReader → SymbolResult
back_reference out_max out len (none, br) = malformed out
back_reference out_max out len (some dist_sym, br) =
    if leb 30 dist_sym
    then malformed out
    else (let r = br_read_bits br (get_or dist_extra_bits dist_sym 0) in
        let distance = get_or dist_base dist_sym 0 + r.0 in
        if (distance == 0) || ltb (length out) distance
        then malformed out
        else (if ltb out_max (u32 (length out + len))
            then malformed out
            else go_on (copy_back out (length out - distance) len) r.1))

pub decode_symbol : HuffmanTable → (out_max : ℕ) → List ℕ → Option ℕ × BitReader → SymbolResult
decode_symbol dist out_max out (none, br) = malformed out
decode_symbol dist out_max out (some sym, br) =
    if ltb sym 256
    then (if leb out_max (length out) then malformed out else go_on (out ++ (sym ∷ [])) br)
    else (if sym == 256
        then end_of_block br
        else (if leb 29 (sym - 257)
            then malformed out
            else (let r = br_read_bits br (get_or length_extra_bits (sym - 257) 0) in
                back_reference out_max out (get_or length_base (sym - 257) 0 + r.0)
                  (huffman_decode dist r.1))))

-- How a block or a stream ends; a failure leaves the bytes written before it in the buffer.
pub data BlockOutcome : Type 0 where
  no_fuel : BlockOutcome
  failed : List ℕ → BlockOutcome
  done : List ℕ → BitReader → BlockOutcome

abbrev pub symbol_next : SymbolResult → List ℕ → (List ℕ → BitReader → BlockOutcome) → BlockOutcome
symbol_next (malformed out') out rest = failed out'
symbol_next (end_of_block br) out rest = done out br
symbol_next (go_on out' br) out rest = rest out' br

pub inflate_block_huffman :
    (fuel : ℕ) → (lit dist : HuffmanTable) → (out_max : ℕ) → List ℕ → BitReader → BlockOutcome
inflate_block_huffman zero lit dist out_max out br = no_fuel
inflate_block_huffman (suc fuel) lit dist out_max out br =
    symbol_next (decode_symbol dist out_max out (huffman_decode lit br)) out
      (λ out' br'. inflate_block_huffman fuel lit dist out_max out' br')

abbrev pub le16_at : List ℕ → ℕ → ℕ
le16_at bytes i = bit_or (get_or bytes i 0) (get_or bytes (i + 1) 0 <<< 8)

-- A stored block, from its first byte on.
unfoldable pub stored_block : (out_max : ℕ) → List ℕ → BitReader → BlockOutcome
stored_block out_max out br =
    if ltb br.len (u32 (br.byte_pos + 4))
    then failed out
    else (let block_len = le16_at br.bytes br.byte_pos in
        let nlen = le16_at br.bytes (br.byte_pos + 2) in
        let start = br.byte_pos + 4 in
        if bit_xor block_len 0xffff != nlen
        then failed out
        else (if ltb br.len (u32 (start + block_len))
            then failed out
            else (if ltb out_max (u32 (length out + block_len))
                then failed out
                else done (out ++ take block_len (drop start br.bytes))
                    (record br { byte_pos = start + block_len }))))

abbrev pub dynamic_block :
    (fuel out_max : ℕ) → List ℕ → Option ((HuffmanTable × HuffmanTable) × BitReader) → BlockOutcome
dynamic_block fuel out_max out none = failed out
dynamic_block fuel out_max out (some ((lit, dist), br)) =
    inflate_block_huffman fuel lit dist out_max out br

-- One block after its header. The symbols' loop runs `out_max + 1` times at most.
unfoldable pub block : (btype out_max : ℕ) → List ℕ → BitReader → BlockOutcome
block btype out_max out br =
    if btype == 0
    then stored_block out_max out (br_align_to_byte br)
    else (if btype == 1
        then inflate_block_huffman (out_max + 1) build_fixed_huffman_tables.0
            build_fixed_huffman_tables.1 out_max out br
        else (if btype == 2
            then dynamic_block (out_max + 1) out_max out (read_dynamic_huffman_tables br)
            else failed out))

abbrev pub block_next :
    (final : ℕ) → BlockOutcome → (List ℕ → BitReader → BlockOutcome) → BlockOutcome
block_next final no_fuel rest = no_fuel
block_next final (failed out) rest = failed out
block_next zero (done out br) rest = rest out br
block_next (suc final) (done out br) rest = done out br

-- The loop over blocks.
unfoldable pub inflate_blocks : (fuel out_max : ℕ) → List ℕ → BitReader → BlockOutcome
inflate_blocks zero out_max out br = no_fuel
inflate_blocks (suc fuel) out_max out br =
    let final = br_read_bits br 1 in
    let btype = br_read_bits final.1 2 in
    block_next final.0 (block btype.0 out_max out btype.1)
      (λ out' br'. inflate_blocks fuel out_max out' br')

-- The decoded bytes, whose number the code returns; it returns 0 for `failed`.
unfoldable pub inflate_raw : (bytes : List ℕ) → (data_len out_max : ℕ) → BlockOutcome
inflate_raw bytes data_len out_max =
    inflate_blocks (8 * data_len + 1) out_max [] (br_init bytes data_len)

-- The position after a NUL-terminated field, `n` bytes at most.
unfoldable pub skip_string : (n pos : ℕ) → List ℕ → ℕ
skip_string zero pos bytes = pos + 1
skip_string (suc n) pos bytes =
    let rest = skip_string n (pos + 1) bytes in if get_or bytes pos 0 == 0 then pos + 1 else rest

-- The end of the optional fields, or the failure of the first.
unfoldable pub skip_fields : List ℕ → (data_len flg : ℕ) → Option ℕ
skip_fields bytes data_len flg =
    if test_bit flg 2
    then (if ltb data_len 12 then none else some (after_extra (12 + le16_at bytes 10)))
    else some (after_extra 10)
  where
    after_string : Bool → ℕ → ℕ
    after_string present pos = if present then skip_string (data_len - pos) pos bytes else pos

    after_extra : ℕ → ℕ
    after_extra pos =
        let pos' = after_string (test_bit flg 4) (after_string (test_bit flg 3) pos) in
        if test_bit flg 1 then pos' + 2 else pos'

abbrev pub inflate_after : List ℕ → (data_len out_max : ℕ) → Option ℕ → BlockOutcome
inflate_after bytes data_len out_max none = failed []
inflate_after bytes data_len out_max (some pos) =
    if ltb data_len (pos + 8)
    then failed []
    else inflate_raw (drop pos bytes) (data_len - pos - 8) out_max

unfoldable pub gzip_decompress : (bytes : List ℕ) → (data_len out_max : ℕ) → BlockOutcome
gzip_decompress bytes data_len out_max =
    if ltb data_len 18
    then failed []
    else (if (get_or bytes 0 0 != 0x1f) || (get_or bytes 1 0 != 0x8b)
        then failed []
        else (if get_or bytes 2 0 != 8
            then failed []
            else inflate_after bytes data_len out_max
                (skip_fields bytes data_len (get_or bytes 3 0))))
