-- ===== src/BlockIo/Fletcher.antt =====
-- The checksum against the sums of the Fletcher code, taken over unbounded numbers.
use apfs_fastindex.Base.{
  ℕ, zero, suc, ◌+◌, ◌-◌, ◌*◌, ◌%◌, ◌^◌, ◌≤◌, ◌<◌, ◌≡◌, refl, sym, ap, ◌∙◌, List, [], ◌∷◌, ◌++◌,
  length, take, drop, length-take, length-drop, take-append-drop, take_all, All, All-take, All-drop,
  arith,
}
use mathlib.Core.Path.{subst, ap₂}
use apfs_fastindex.Base.Bits.{bit_or_fields}
use apfs_fastindex.Outcome.{ok}
use apfs_fastindex.BlockIo.{
  IsByte, chunk_words, fletcher_modulus, add_batch, add_batches, finish_checksum, apfs_fletcher64,
}
use apfs_fastindex.BlockIo.Fields.{slice-eq-ok}

abbrev pub IsWord : ℕ → Type 0
IsWord w = w < 2 ^ 32

-- The two running sums, with no reduction and no bound.
pub exact_sums : List ℕ → ℕ × ℕ → ℕ × ℕ
exact_sums [] sums = sums
exact_sums (w ∷ ws) (lower, upper) = exact_sums ws (lower + w, upper + (lower + w))

exact_sums-append :
    (xs ys : List ℕ) (s : ℕ × ℕ) → exact_sums (xs ++ ys) s ≡ exact_sums ys (exact_sums xs s)
unfolding exact_sums
exact_sums-append [] ys s = refl
exact_sums-append (x ∷ xs) ys (l, u) = exact_sums-append xs ys (l + x, u + (l + x))

-- Both sums agree up to multiples of the modulus.
abbrev Congruent : ℕ × ℕ → ℕ × ℕ → Type 0
Congruent (a, b) (c, d) =
    (a % fletcher_modulus ≡ c % fletcher_modulus) × (b % fletcher_modulus ≡ d % fletcher_modulus)

Congruent-exact_sums :
    (ws : List ℕ) (a b c d : ℕ)
    → Congruent (a, b) (c, d)
    → Congruent (exact_sums ws (a, b)) (exact_sums ws (c, d))
unfolding exact_sums
Congruent-exact_sums [] a b c d h = h
Congruent-exact_sums (w ∷ ws) a b c d h =
    Congruent-exact_sums ws (a + w) (b + (a + w)) (c + w) (d + (c + w)) (omega arith, omega arith)

-- Within a batch the `u64` sums do not wrap.
add_batch-exact_sums :
    (ws : List ℕ) (lower upper : ℕ)
    → All IsWord ws
    → lower + length ws * 2 ^ 32 ≤ 2 ^ 43
    → upper + length ws * 2 ^ 43 ≤ 2 ^ 54
    → add_batch ws (lower, upper) ≡ exact_sums ws (lower, upper)
unfolding add_batch exact_sums
add_batch-exact_sums [] l u h hl hu = refl
add_batch-exact_sums (w ∷ ws) l u (hw, hws) hl hu =
    rw (small, small')
      (add_batch-exact_sums ws (l + w) (u + (l + w)) hws (omega arith) (omega arith))
  where
    small : (l + w) % 2 ^ 64 ≡ l + w
    small = omega arith

    small' : (u + (l + w)) % 2 ^ 64 ≡ u + (l + w)
    small' = omega arith

abbrev IsReduced : ℕ × ℕ → Type 0
IsReduced s = (s.0 < fletcher_modulus) × (s.1 < fletcher_modulus)

abbrev reduce : ℕ × ℕ → ℕ × ℕ
reduce s = (s.0 % fletcher_modulus, s.1 % fletcher_modulus)

add_batches_step :
    (fuel w : ℕ) (ws : List ℕ) (s : ℕ × ℕ)
    → add_batches (suc fuel) (w ∷ ws) s
      ≡ add_batches fuel (drop 1023 ws) (reduce (add_batch (w ∷ take 1023 ws) s))
unfolding add_batches
add_batches_step fuel w ws s = refl

batch_exact :
    (w : ℕ) (ws : List ℕ) (s : ℕ × ℕ)
    → All IsWord (w ∷ ws)
    → IsReduced s
    → add_batch (w ∷ take 1023 ws) s ≡ exact_sums (w ∷ take 1023 ws) s
batch_exact w ws (l, u) h (hl, hu) =
    add_batch-exact_sums (w ∷ take 1023 ws) l u (h.0, All-take IsWord 1023 ws h.1)
      (omega (arith, length-take 1023 ws)) (omega (arith, length-take 1023 ws))

-- A batch and the words behind it, from reduced sums.
batch_then_rest :
    (w : ℕ) (ws : List ℕ) (s : ℕ × ℕ)
    → Congruent
        (exact_sums (drop 1023 ws) (reduce (exact_sums (w ∷ take 1023 ws) s)))
        (exact_sums (w ∷ ws) s)
batch_then_rest w ws s =
    subst (λ t. Congruent (exact_sums (drop 1023 ws) (reduce (exact_sums (w ∷ take 1023 ws) s))) t)
      whole (Congruent-exact_sums (drop 1023 ws) _ _ _ _ (omega arith, omega arith))
  where
    whole : exact_sums (drop 1023 ws) (exact_sums (w ∷ take 1023 ws) s) ≡ exact_sums (w ∷ ws) s
    whole =
        sym (exact_sums-append (w ∷ take 1023 ws) (drop 1023 ws) s)
        ∙ ap (λ t. exact_sums (w ∷ t) s) (take-append-drop 1023 ws)

add_batches-exact_sums :
    (fuel : ℕ) (ws : List ℕ) (s : ℕ × ℕ)
    → All IsWord ws
    → IsReduced s
    → length ws ≤ fuel
    → Congruent (add_batches fuel ws s) (exact_sums ws s) × IsReduced (add_batches fuel ws s)
add_batches-exact_sums fuel [] s h r f = unfold exact_sums add_batches in ((refl, refl), r)
add_batches-exact_sums zero (w ∷ ws) s h r f = absurd (omega arith)
add_batches-exact_sums (suc fuel) (w ∷ ws) s h r f =
    let sums = reduce (exact_sums (w ∷ take 1023 ws) s) in
    let (same, reduced) =
      add_batches-exact_sums fuel (drop 1023 ws) sums (All-drop IsWord 1023 ws h.1)
        (omega arith, omega arith) (omega (arith, length-drop 1023 ws)) in
    let (low, high) = batch_then_rest w ws s in
    rw (add_batches_step, batch_exact w ws s h r) ((same.0 ∙ low, same.1 ∙ high), reduced)

chunk_words-IsWord : (bytes : List ℕ) → All IsByte bytes → All IsWord (chunk_words bytes)
unfolding chunk_words
chunk_words-IsWord [] h = tt
chunk_words-IsWord (a ∷ []) h = omega arith
chunk_words-IsWord (a ∷ b ∷ []) h = omega arith
chunk_words-IsWord (a ∷ b ∷ c ∷ []) h = omega arith
chunk_words-IsWord (a ∷ b ∷ c ∷ d ∷ rest) h = (omega arith, chunk_words-IsWord rest h.1.1.1.1)

-- The two halves of the checksum for the sums `(lower, upper)`.
abbrev low_half : ℕ × ℕ → ℕ
low_half s = fletcher_modulus - (s.0 + s.1) % fletcher_modulus

abbrev high_half : ℕ × ℕ → ℕ
high_half s = fletcher_modulus - (s.0 + low_half s) % fletcher_modulus

finish_checksum_lem :
    (s : ℕ × ℕ) → IsReduced s → finish_checksum s ≡ high_half s * 2 ^ 32 + low_half s
unfolding finish_checksum
finish_checksum_lem (l, u) r =
    rw
      (
        no_wrap,
        no_wrap',
        no_shift_out,
        bit_or_fields 32 (high_half (l, u)) (low_half (l, u)) (omega arith),
      )
      refl
  where
    no_wrap : (l + u) % 2 ^ 64 ≡ l + u
    no_wrap = omega arith

    no_wrap' : (l + low_half (l, u)) % 2 ^ 64 ≡ l + low_half (l, u)
    no_wrap' = omega arith

    no_shift_out : high_half (l, u) * 2 ^ 32 % 2 ^ 64 ≡ high_half (l, u) * 2 ^ 32
    no_shift_out = omega arith

-- The halves depend on the sums up to multiples of the modulus.
halves-Congruent :
    (s t : ℕ × ℕ) → Congruent s t → (low_half s ≡ low_half t) × (high_half s ≡ high_half t)
halves-Congruent s t h = (omega arith, omega arith)

closed_halves :
    (l u : ℕ)
    → Congruent
        (
          l + low_half (l, u) + high_half (l, u),
          u + (l + low_half (l, u)) + (l + low_half (l, u) + high_half (l, u)),
        )
        (0, 0)
closed_halves l u = (omega arith, omega arith)

-- The halves close the sums that they are made from.
closed :
    (ws : List ℕ)
    → Congruent
        (exact_sums
          (ws ++ low_half (exact_sums ws (0, 0)) ∷ high_half (exact_sums ws (0, 0)) ∷ [])
          (0, 0))
        (0, 0)
closed ws = rw exact_sums-append (unfold exact_sums in (closed_halves _ _))

-- The batched computation returns the two halves for the unbounded sums.
pub apfs_fletcher64-exact_sums :
    (block : List ℕ)
    → All IsByte block
    → 8 ≤ length block
    → apfs_fletcher64 block
      ≡ ok (
          high_half (exact_sums (chunk_words (drop 8 block)) (0, 0)) * 2 ^ 32
          + low_half (exact_sums (chunk_words (drop 8 block)) (0, 0)))
unfolding apfs_fletcher64
apfs_fletcher64-exact_sums block h k =
    rw (slice-eq-ok block 8 (length block) k (omega arith), body) (ap ok halves)
  where
    body : take (length block - 8) (drop 8 block) ≡ drop 8 block
    body = take_all _ _ (omega (arith, length-drop 8 block))

    words : List ℕ
    words = chunk_words (drop 8 block)

    facts :
        Congruent (add_batches (length words) words (0, 0)) (exact_sums words (0, 0))
        × IsReduced (add_batches (length words) words (0, 0))
    facts =
        add_batches-exact_sums (length words) words (0, 0)
          (chunk_words-IsWord (drop 8 block) (All-drop IsByte 8 block h)) (omega arith, omega arith)
          (omega arith)

    halves :
        finish_checksum (add_batches (length words) words (0, 0))
        ≡ high_half (exact_sums words (0, 0)) * 2 ^ 32 + low_half (exact_sums words (0, 0))
    halves =
        let same = halves-Congruent _ _ facts.0 in
        finish_checksum_lem _ facts.1 ∙ ap₂ (λ high low. high * 2 ^ 32 + low) same.1 same.0

-- On a block of at least eight bytes the batched `u64` computation returns the checksum whose low
-- and high halves, taken as two more words behind the body, make both Fletcher sums of body and
-- checksum, over unbounded numbers, multiples of 2 ^ 32 - 1.
pub apfs_fletcher64-closes_sums :
    (block : List ℕ)
    → All IsByte block
    → 8 ≤ length block
    → (low : ℕ) × (high : ℕ) × (apfs_fletcher64 block ≡ ok (high * 2 ^ 32 + low))
      × IsWord low
      × IsWord high
      × ((exact_sums (chunk_words (drop 8 block) ++ low ∷ high ∷ []) (0, 0)).0 % fletcher_modulus
          ≡ 0)
      × ((exact_sums (chunk_words (drop 8 block) ++ low ∷ high ∷ []) (0, 0)).1 % fletcher_modulus
          ≡ 0)
apfs_fletcher64-closes_sums block h k =
    let words = chunk_words (drop 8 block) in
    let sums = exact_sums words (0, 0) in
    (
      low_half sums,
      high_half sums,
      apfs_fletcher64-exact_sums block h k,
      omega arith,
      omega arith,
      (closed words).0,
      (closed words).1,
    )
