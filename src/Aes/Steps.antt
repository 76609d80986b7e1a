-- ===== src/Aes/Steps.antt =====
-- kernel/aes.c: the steps of a round on a block of 16 bytes, with the step back for each.
use aioperatingsystem.Common.{
  ℕ, zero, suc, ◌<◌, ◌≡◌, refl, sym, ap, ap₂, ◌∙◌, subst, List, [], ◌∷◌, map, Bool, true, ◌==◌,
  ◌&&◌, ltb, ltb→lt, ==_iff, &&-left, &&-right, All, all_below, all_below-get, get_or, length, u8,
  ◌>>>◌, arith,
}
use aioperatingsystem.Common.Xor.{xor_cancel, xor_bound}
use aioperatingsystem.Aes.{
  initial_tables, build_from, aes_build_inv_sbox, aes_sbox, sbox, add_key_columns,
  aes_add_round_key, substitute, aes_sub_bytes, aes_inv_sub_bytes, shift_cells, aes_shift_rows,
  inv_shift_cells, aes_inv_shift_rows, mix0, mix1, mix2, mix3, mix_from, aes_mix_columns,
  inv_mix_from, aes_inv_mix_columns,
}
use aioperatingsystem.Aes.Columns.{
  AreBytes, mix0-IsAdditive, mix1-IsAdditive, mix2-IsAdditive, mix3-IsAdditive,
}
use aioperatingsystem.Aes.Unmix.{unmix0_lem, unmix1_lem, unmix2_lem, unmix3_lem}
use aioperatingsystem.Aes.Rounds.{xor_block}

abbrev pub AllBytes : List ℕ → Type 0
AllBytes s = All (λ x. x < 256) s

abbrev pub IsState : List ℕ → Type 0
IsState s = (length s ≡ 16) × AllBytes s

-- What holds of all lists of `n` bytes, byte by byte.
abbrev Each : ℕ → (List ℕ → Type 0) → Type 0
Each zero P = P []
Each (suc n) P = (x : ℕ) → x < 256 → Each n (λ xs. P (x ∷ xs))

each_lem : (n : ℕ) (P : List ℕ → Type 0) → Each n P → (s : List ℕ) → length s ≡ n → AllBytes s → P s
each_lem zero P e [] l b = e
each_lem zero P e (x ∷ s) l b = absurd (omega arith)
each_lem (suc n) P e [] l b = absurd (omega arith)
each_lem (suc n) P e (x ∷ s) l (h, b) = each_lem n (λ xs. P (x ∷ xs)) (e x h) s (omega arith) b

on_blocks : (P : List ℕ → Type 0) → Each 16 P → (s : List ℕ) → IsState s → P s
on_blocks P e s (l, b) = each_lem 16 P e s l b

-- Shifting rows.
pub shift_rows_undone : (s : List ℕ) → IsState s → aes_inv_shift_rows (aes_shift_rows s) ≡ s
unfolding aes_inv_shift_rows inv_shift_cells aes_shift_rows shift_cells
shift_rows_undone =
    on_blocks (λ s. aes_inv_shift_rows (aes_shift_rows s) ≡ s)
      (λ a0 h0 a1 h1 a2 h2 a3 h3 a4 h4 a5 h5 a6 h6 a7 h7 a8 h8 a9 h9 a10 h10 a11 h11 a12 h12 a13 h13
          a14 h14 a15 h15.
        refl)

pub shift_rows-IsState : (s : List ℕ) → IsState s → IsState (aes_shift_rows s)
unfolding aes_shift_rows shift_cells
shift_rows-IsState =
    on_blocks (λ s. IsState (aes_shift_rows s))
      (λ a0 h0 a1 h1 a2 h2 a3 h3 a4 h4 a5 h5 a6 h6 a7 h7 a8 h8 a9 h9 a10 h10 a11 h11 a12 h12 a13 h13
          a14 h14 a15 h15.
        omega arith)

-- Mixing columns.
pub mix_columns_undone : (s : List ℕ) → IsState s → aes_inv_mix_columns (aes_mix_columns s) ≡ s
unfolding aes_inv_mix_columns inv_mix_from aes_mix_columns mix_from
mix_columns_undone =
    on_blocks (λ s. aes_inv_mix_columns (aes_mix_columns s) ≡ s)
      (λ a0 h0 a1 h1 a2 h2 a3 h3 a4 h4 a5 h5 a6 h6 a7 h7 a8 h8 a9 h9 a10 h10 a11 h11 a12 h12 a13 h13
          a14 h14 a15 h15.
        λ i.
          unmix0_lem a0 a1 a2 a3 (h0, h1, h2, h3) i
          ∷ unmix1_lem a0 a1 a2 a3 (h0, h1, h2, h3) i
          ∷ unmix2_lem a0 a1 a2 a3 (h0, h1, h2, h3) i
          ∷ unmix3_lem a0 a1 a2 a3 (h0, h1, h2, h3) i
          ∷ unmix0_lem a4 a5 a6 a7 (h4, h5, h6, h7) i
          ∷ unmix1_lem a4 a5 a6 a7 (h4, h5, h6, h7) i
          ∷ unmix2_lem a4 a5 a6 a7 (h4, h5, h6, h7) i
          ∷ unmix3_lem a4 a5 a6 a7 (h4, h5, h6, h7) i
          ∷ unmix0_lem a8 a9 a10 a11 (h8, h9, h10, h11) i
          ∷ unmix1_lem a8 a9 a10 a11 (h8, h9, h10, h11) i
          ∷ unmix2_lem a8 a9 a10 a11 (h8, h9, h10, h11) i
          ∷ unmix3_lem a8 a9 a10 a11 (h8, h9, h10, h11) i
          ∷ unmix0_lem a12 a13 a14 a15 (h12, h13, h14, h15) i
          ∷ unmix1_lem a12 a13 a14 a15 (h12, h13, h14, h15) i
          ∷ unmix2_lem a12 a13 a14 a15 (h12, h13, h14, h15) i
          ∷ unmix3_lem a12 a13 a14 a15 (h12, h13, h14, h15) i
          ∷ [])

mixed :
    (a0 a1 a2 a3 : ℕ)
    → AreBytes a0 a1 a2 a3
    → AreBytes (mix0 a0 a1 a2 a3) (mix1 a0 a1 a2 a3) (mix2 a0 a1 a2 a3) (mix3 a0 a1 a2 a3)
mixed a0 a1 a2 a3 h = (
  mix0-IsAdditive.bound a0 a1 a2 a3 h,
  mix1-IsAdditive.bound a0 a1 a2 a3 h,
  mix2-IsAdditive.bound a0 a1 a2 a3 h,
  mix3-IsAdditive.bound a0 a1 a2 a3 h,
)

pub mix_columns-IsState : (s : List ℕ) → IsState s → IsState (aes_mix_columns s)
unfolding aes_mix_columns mix_from
mix_columns-IsState =
    on_blocks (λ s. IsState (aes_mix_columns s))
      (λ a0 h0 a1 h1 a2 h2 a3 h3 a4 h4 a5 h5 a6 h6 a7 h7 a8 h8 a9 h9 a10 h10 a11 h11 a12 h12 a13 h13
          a14 h14 a15 h15.
        omega (
          arith,
          mixed a0 a1 a2 a3 (h0, h1, h2, h3),
          mixed a4 a5 a6 a7 (h4, h5, h6, h7),
          mixed a8 a9 a10 a11 (h8, h9, h10, h11),
          mixed a12 a13 a14 a15 (h12, h13, h14, h15),
        ))

-- The substitution, byte by byte.
sub_bytes_map : (s : List ℕ) → IsState s → aes_sub_bytes s ≡ map (λ x. get_or aes_sbox x 0) s
unfolding aes_sub_bytes substitute
sub_bytes_map =
    on_blocks (λ s. aes_sub_bytes s ≡ map (λ x. get_or aes_sbox x 0) s)
      (λ a0 h0 a1 h1 a2 h2 a3 h3 a4 h4 a5 h5 a6 h6 a7 h7 a8 h8 a9 h9 a10 h10 a11 h11 a12 h12 a13 h13
          a14 h14 a15 h15.
        refl)

inv_sub_bytes_map : (t s : List ℕ) → IsState s → aes_inv_sub_bytes t s ≡ map (λ x. get_or t x 0) s
unfolding aes_inv_sub_bytes substitute
inv_sub_bytes_map t =
    on_blocks (λ s. aes_inv_sub_bytes t s ≡ map (λ x. get_or t x 0) s)
      (λ a0 h0 a1 h1 a2 h2 a3 h3 a4 h4 a5 h5 a6 h6 a7 h7 a8 h8 a9 h9 a10 h10 a11 h11 a12 h12 a13 h13
          a14 h14 a15 h15.
        refl)

-- The table once it is built.
abbrev pub inv_table : List ℕ
inv_table = (aes_build_inv_sbox initial_tables).inv_sbox

abbrev inverse_at : ℕ → Bool
inverse_at x = (get_or inv_table (sbox x) 0 == x) && ltb (sbox x) 256

inverse_table : all_below inverse_at 256 ≡ true
unfolding aes_build_inv_sbox build_from
inverse_table = refl

inv_sbox_lem : (x : ℕ) → x < 256 → get_or inv_table (sbox x) 0 ≡ x
inv_sbox_lem x h = (==_iff (get_or inv_table (sbox x) 0) x).0 (
    &&-left (get_or inv_table (sbox x) 0 == x) (ltb (sbox x) 256)
      (all_below-get inverse_at 256 inverse_table x h))

sbox_bound : (x : ℕ) → x < 256 → sbox x < 256
sbox_bound x h = ltb→lt (sbox x) 256 (
    &&-right (get_or inv_table (sbox x) 0 == x) (ltb (sbox x) 256)
      (all_below-get inverse_at 256 inverse_table x h))

map_inverse :
    (f g : ℕ → ℕ)
    → ((x : ℕ) → x < 256 → g (f x) ≡ x)
    → (s : List ℕ) → AllBytes s
    → map g (map f s) ≡ s
map_inverse f g e [] b = refl
map_inverse f g e (x ∷ s) (h, b) =
    ap₂ (λ (y : ℕ) (r : List ℕ). y ∷ r) (e x h) (map_inverse f g e s b)

map-IsState :
    (f : ℕ → ℕ) → ((x : ℕ) → x < 256 → f x < 256) → (s : List ℕ) → IsState s → IsState (map f s)
map-IsState f e s (l, b) = (length-map f s ∙ l, bytes s b)
  where
    length-map : (g : ℕ → ℕ) (xs : List ℕ) → length (map g xs) ≡ length xs
    length-map g [] = refl
    length-map g (x ∷ xs) = ap suc (length-map g xs)

    bytes : (xs : List ℕ) → AllBytes xs → AllBytes (map f xs)
    bytes [] k = tt
    bytes (x ∷ xs) (h, k) = (e x h, bytes xs k)

pub sub_bytes-IsState : (s : List ℕ) → IsState s → IsState (aes_sub_bytes s)
sub_bytes-IsState s v = subst IsState (sym (sub_bytes_map s v)) (map-IsState sbox sbox_bound s v)

pub sub_bytes_undone : (s : List ℕ) → IsState s → aes_inv_sub_bytes inv_table (aes_sub_bytes s) ≡ s
sub_bytes_undone s v =
    inv_sub_bytes_map inv_table (aes_sub_bytes s) (sub_bytes-IsState s v)
    ∙ ap (map (λ x. get_or inv_table x 0)) (sub_bytes_map s v)
    ∙ map_inverse sbox (λ x. get_or inv_table x 0) inv_sbox_lem s v.1

-- Adding a key: `^` with its bytes.
abbrev key_bytes : List ℕ → List ℕ
key_bytes k =
    u8 (get_or k 0 0 >>> 24)
    ∷ u8 (get_or k 0 0 >>> 16)
    ∷ u8 (get_or k 0 0 >>> 8)
    ∷ u8 (get_or k 0 0)
    ∷ u8 (get_or k 1 0 >>> 24)
    ∷ u8 (get_or k 1 0 >>> 16)
    ∷ u8 (get_or k 1 0 >>> 8)
    ∷ u8 (get_or k 1 0)
    ∷ u8 (get_or k 2 0 >>> 24)
    ∷ u8 (get_or k 2 0 >>> 16)
    ∷ u8 (get_or k 2 0 >>> 8)
    ∷ u8 (get_or k 2 0)
    ∷ u8 (get_or k 3 0 >>> 24)
    ∷ u8 (get_or k 3 0 >>> 16)
    ∷ u8 (get_or k 3 0 >>> 8)
    ∷ u8 (get_or k 3 0)
    ∷ []

add_round_key_bytes : (k s : List ℕ) → IsState s → aes_add_round_key k s ≡ xor_block s (key_bytes k)
unfolding aes_add_round_key add_key_columns
add_round_key_bytes k =
    on_blocks (λ s. aes_add_round_key k s ≡ xor_block s (key_bytes k))
      (λ a0 h0 a1 h1 a2 h2 a3 h3 a4 h4 a5 h5 a6 h6 a7 h7 a8 h8 a9 h9 a10 h10 a11 h11 a12 h12 a13 h13
          a14 h14 a15 h15.
        refl)

key_bytes-IsState : (k : List ℕ) → IsState (key_bytes k)
key_bytes-IsState k = omega arith

pub xor_block-IsState : (a b : List ℕ) → IsState a → IsState b → IsState (xor_block a b)
xor_block-IsState a b (l, p) (m, q) = (lengths a b (l ∙ sym m) ∙ l, bytes a b p q)
  where
    lengths : (xs ys : List ℕ) → length xs ≡ length ys → length (xor_block xs ys) ≡ length xs
    lengths [] ys e = refl
    lengths (x ∷ xs) [] e = absurd (omega arith)
    lengths (x ∷ xs) (y ∷ ys) e = ap suc (lengths xs ys (omega arith))

    bytes : (xs ys : List ℕ) → AllBytes xs → AllBytes ys → AllBytes (xor_block xs ys)
    bytes [] ys h k = tt
    bytes (x ∷ xs) [] h k = tt
    bytes (x ∷ xs) (y ∷ ys) (h, hs) (k, ks) = (xor_bound 8 x y h k, bytes xs ys hs ks)

pub xor_block_undone : (a b : List ℕ) → length a ≡ length b → xor_block (xor_block a b) b ≡ a
xor_block_undone [] b e = refl
xor_block_undone (x ∷ a) [] e = absurd (omega arith)
xor_block_undone (x ∷ a) (y ∷ b) e =
    ap₂ (λ (v : ℕ) (r : List ℕ). v ∷ r) (xor_cancel x y) (xor_block_undone a b (omega arith))

pub add_round_key-IsState : (k s : List ℕ) → IsState s → IsState (aes_add_round_key k s)
add_round_key-IsState k s v =
    subst IsState (sym (add_round_key_bytes k s v))
      (xor_block-IsState s (key_bytes k) v (key_bytes-IsState k))

pub add_round_key_undone :
    (k s : List ℕ) → IsState s → aes_add_round_key k (aes_add_round_key k s) ≡ s
add_round_key_undone k s v =
    add_round_key_bytes k (aes_add_round_key k s) (add_round_key-IsState k s v)
    ∙ ap (λ (t : List ℕ). xor_block t (key_bytes k)) (add_round_key_bytes k s v)
    ∙ xor_block_undone s (key_bytes k) v.0
