-- ===== src/Sha256/Padding.antt =====
-- kernel/sha256.c against the padding of FIPS 180-4: the message, a one bit, as few zeros as make whole
-- blocks, and the length.
use aioperatingsystem.Common.{
  ℕ, zero, suc, ◌+◌, ◌-◌, ◌*◌, ◌/◌, ◌%◌, ◌≤◌, ◌<◌, ◌≡◌, refl, sym, ◌∙◌, ap, ap₂, List, [], ◌∷◌,
  ◌++◌, arith, length, length-append, length-drop, length-replicate, take, drop, replicate,
}
use aioperatingsystem.Sha256.{
  State, initial_state, sha256_transform, transform_blocks, big_endian, digest, pad_to, tail_of,
  sha256,
}

-- The zeros between the marker and the length.
abbrev pub zeros_for : ℕ → ℕ
zeros_for len = (119 - len % 64) % 64

unfoldable pub padded : List ℕ → List ℕ
padded message =
    message
    ++ (0x80 ∷ replicate (zeros_for (length message)) 0 ++ big_endian 8 (length message * 8))

drop-append : (n : ℕ) (xs ys : List ℕ) → n ≤ length xs → drop n (xs ++ ys) ≡ drop n xs ++ ys
drop-append zero xs ys h = refl
drop-append (suc n) [] ys h = absurd (omega arith)
drop-append (suc n) (x ∷ xs) ys h = drop-append n xs ys (omega arith)

take-append : (n : ℕ) (xs ys : List ℕ) → n ≤ length xs → take n (xs ++ ys) ≡ take n xs
take-append zero xs ys h = refl
take-append (suc n) [] ys h = absurd (omega arith)
take-append (suc n) (x ∷ xs) ys h = ap (λ t. x ∷ t) (take-append n xs ys (omega arith))

drop_nil : (n : ℕ) → drop {A = ℕ} n [] ≡ []
drop_nil zero = refl
drop_nil (suc n) = refl

drop-drop : (n m : ℕ) (xs : List ℕ) → drop n (drop m xs) ≡ drop (m + n) xs
drop-drop n zero xs = ap (λ (t : ℕ). drop t xs) (zero_add n)
  where
    zero_add : (k : ℕ) → k ≡ 0 + k
    zero_add k = omega arith
drop-drop n (suc m) [] = drop_nil n ∙ sym (ap (λ (t : ℕ). drop t []) (move m n))
  where
    move : (a b : ℕ) → suc a + b ≡ suc (a + b)
    move a b = omega arith
drop-drop n (suc m) (x ∷ xs) = drop-drop n m xs ∙ sym (ap (λ (t : ℕ). drop t (x ∷ xs)) (move m n))
  where
    move : (a b : ℕ) → suc a + b ≡ suc (a + b)
    move a b = omega arith

-- Whole blocks first, and then the others.
transform_blocks-append :
    (n m : ℕ) (xs ys : List ℕ) (s : State)
    → n * 64 ≤ length xs
    → transform_blocks (n + m) (xs ++ ys) s
      ≡ transform_blocks m (drop (n * 64) xs ++ ys) (transform_blocks n xs s)
unfolding transform_blocks
transform_blocks-append zero m xs ys s h =
    ap (λ (t : ℕ). transform_blocks t (xs ++ ys) s) (zero_add m)
  where
    zero_add : (k : ℕ) → 0 + k ≡ k
    zero_add k = omega arith
transform_blocks-append (suc n) m xs ys s h =
    ap (λ (t : ℕ). transform_blocks t (xs ++ ys) s) (move n m)
    ∙ ap₂ (λ (b r : List ℕ). transform_blocks (n + m) r (sha256_transform s b))
        (take-append 64 xs ys (omega arith)) (drop-append 64 xs ys (omega arith))
    ∙ transform_blocks-append n m (drop 64 xs) ys (sha256_transform s (take 64 xs))
        (omega (arith, length-drop 64 xs))
    ∙ ap
        (λ (r : List ℕ).
          transform_blocks m (r ++ ys)
            (transform_blocks n (drop 64 xs) (sha256_transform s (take 64 xs))))
        (drop-drop (n * 64) 64 xs ∙ ap (λ (t : ℕ). drop t xs) (over n))
  where
    move : (a b : ℕ) → suc a + b ≡ suc (a + b)
    move a b = omega arith

    over : (a : ℕ) → 64 + a * 64 ≡ suc a * 64
    over a = omega arith

-- The zeros and the blocks that the code chooses, from the bytes that are left over.
tail_zeros_lem : (r : ℕ) → r < 64 → pad_to (r + 1) - (r + 1) ≡ (119 - r) % 64
tail_zeros_lem r h = ground arith

tail_zeros : (len : ℕ) → pad_to (len % 64 + 1) - (len % 64 + 1) ≡ zeros_for len
tail_zeros len = tail_zeros_lem (len % 64) (omega arith)

blocks_add :
    (q r len : ℕ)
    → r < 64
    → len ≡ q * 64 + r
    → q + (pad_to (r + 1) + 8) / 64 ≡ (len + 9 + (119 - r) % 64) / 64
blocks_add q r len h e = ground arith

blocks_lem :
    (len : ℕ) → len / 64 + (pad_to (len % 64 + 1) + 8) / 64 ≡ (len + 9 + zeros_for len) / 64
blocks_lem len = blocks_add (len / 64) (len % 64) len (omega arith) (omega arith)

rest_length : (bytes : List ℕ) → length (drop (length bytes / 64 * 64) bytes) ≡ length bytes % 64
rest_length bytes = omega (arith, length-drop (length bytes / 64 * 64) bytes)

abbrev suffix : (len zeros : ℕ) → List ℕ
suffix len zeros = 0x80 ∷ replicate zeros 0 ++ big_endian 8 (len * 8)

length-big_endian : (n value : ℕ) → length (big_endian n value) ≡ n
unfolding big_endian
length-big_endian zero value = refl
length-big_endian (suc n) value = ap suc (length-big_endian n value)

length-padded :
    (message : List ℕ) → length (padded message) ≡ length message + 9 + zeros_for (length message)
unfolding padded
length-padded message =
    let len = length message in
    let z = zeros_for len in
    omega (
      arith,
      length-append message (suffix len z),
      length-append (replicate z 0) (big_endian 8 (len * 8)),
      length-replicate {A = ℕ} z 0,
      length-big_endian 8 (len * 8),
    )

-- The digest is what FIPS 180-4 says: the compression function run over all blocks of the padded
-- message, whose length is a multiple of 64 bytes.
pub sha256_lem :
    (message : List ℕ)
    → (sha256 message
        ≡ digest (transform_blocks (length (padded message) / 64) (padded message) initial_state))
      × (length (padded message) % 64 ≡ 0)
unfolding sha256 tail_of padded
sha256_lem message =
    let len = length message in
    let rest = drop (len / 64 * 64) message in
    let m = (pad_to (len % 64 + 1) + 8) / 64 in
    let start = transform_blocks (len / 64) message initial_state in
    let left : length rest ≡ len % 64 = rest_length message in
    let code : sha256 message
        ≡ digest (transform_blocks m (rest ++ suffix len (zeros_for len)) start) =
      ap
        (λ (t : ℕ). digest (
          transform_blocks ((pad_to (t + 1) + 8) / 64)
            (rest ++ suffix len (pad_to (t + 1) - (t + 1))) start))
        left
      ∙ ap (λ (t : ℕ). digest (transform_blocks m (rest ++ suffix len t) start)) (tail_zeros len) in
    let count : length (padded message) / 64 ≡ len / 64 + m =
      ap (λ (t : ℕ). t / 64) (length-padded message) ∙ sym (blocks_lem len) in
    let reference : transform_blocks (length (padded message) / 64) (padded message) initial_state
        ≡ transform_blocks m (rest ++ suffix len (zeros_for len)) start =
      ap (λ (t : ℕ). transform_blocks t (padded message) initial_state) count
      ∙ transform_blocks-append (len / 64) m message (suffix len (zeros_for len)) initial_state
          (omega arith) in
    (
      code ∙ sym (ap (λ (st : State). digest st) reference),
      ap (λ (t : ℕ). t % 64) (length-padded message) ∙ whole len,
    )
  where
    whole : (len : ℕ) → (len + 9 + (119 - len % 64) % 64) % 64 ≡ 0
    whole len = omega arith
