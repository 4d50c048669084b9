-- ===== src/BlockIo/Reading.antt =====
-- `read_block`: which outcomes it has, and what it returns from a source that holds an image.
use apfs_fastindex.Base.{
  ℕ, zero, suc, ◌+◌, ◌-◌, ◌*◌, ◌^◌, ◌≤◌, ◌<◌, ◌≡◌, refl, sym, ap, ◌∙◌, ◌≢◌, ◌⊎◌, inl, inr, true,
  List, [], ◌∷◌, ◌++◌, length, take, drop, length-append, length-take, length-drop,
  take-append-take, take-length-take, drop-drop, All, All-append, All-take, All-drop, Bool-cases,
  tests, ltb→le, ltb→lt, ltb, leb, ◌&&◌, arith, if◌then◌else◌,
}
use mathlib.Core.Path.{subst}
use native.Mathlib.Nat.{mul-le-mul_right, sub-zero}
use apfs_fastindex.Outcome.{
  Outcome, ok, err, panic, hang, Returns, short_read, invalid_object, block_size_out_of_range,
  unsupported_descriptor_layout, offset_overflow,
}
use apfs_fastindex.BlockIo.{
  IsByte, Reader, ReadOutcome, interrupted, failed, got, read_loop, read_block, read_rounds,
}

-- What `Read` documents of a call: at most `room` bytes, and no more than `patience` interruptions
-- in a row (a signal does not arrive for ever).
pub record IsReader (reader : Reader) : Type 0 where
  pub patient :
      (position room retries : ℕ)
      → reader.read position room retries ≡ interrupted
      → retries < reader.patience
  pub within :
      (position room retries : ℕ) (bytes : List ℕ)
      → reader.read position room retries ≡ got bytes
      → (length bytes ≤ room) × All IsByte bytes

ReadOutcome-cases :
    (o : ReadOutcome) → (o ≡ interrupted) ⊎ ((o ≡ failed) ⊎ ((bytes : List ℕ) × (o ≡ got bytes)))
ReadOutcome-cases interrupted = inl refl
ReadOutcome-cases failed = inr (inl refl)
ReadOutcome-cases (got bytes) = inr (inr (bytes, refl))

-- A block of the asked size, of bytes.
abbrev pub IsBlock : ℕ → List ℕ → Type 0
IsBlock size block = (length block ≡ size) × All IsByte block

-- The read came to an end; what it returned, if anything, is a block of that size.
abbrev pub ReturnsBlock : ℕ → Outcome (List ℕ) → Type 0
ReturnsBlock size (ok block) = IsBlock size block
ReturnsBlock size (err e) = Unit
ReturnsBlock size panic = ⊥
ReturnsBlock size hang = ⊥

-- One byte fewer pays for a whole row of interruptions.
rounds_fall :
    (d d' p k fuel : ℕ) → d' < d → d * suc p + p < suc fuel + k → k ≤ p → d' * suc p + p < fuel + 0
rounds_fall d d' p k fuel h r q = omega (arith, mul-le-mul_right (suc p) h)

module _ (reader : Reader) (r : IsReader reader) (address size offset : ℕ) where
  read_loop-ReturnsBlock :
      (fuel retries : ℕ) (block : List ℕ)
      → (size - length block) * suc reader.patience + reader.patience < fuel + retries
      → retries ≤ reader.patience
      → length block ≤ size
      → All IsByte block
      → ReturnsBlock size (read_loop reader address size offset fuel retries block)
  unfolding read_loop
  read_loop-ReturnsBlock zero retries block m q l b = absurd (omega arith)
  read_loop-ReturnsBlock (suc fuel) retries block m q l b =
      elim (Bool-cases (ltb (length block) size)) [
        | inl more ↦
            rw more
              (elim (ReadOutcome-cases
                (reader.read (offset + length block) (size - length block) retries)) [
                  | inl e ↦ rw e (
                      read_loop-ReturnsBlock fuel (suc retries) block (omega arith)
                        (r.patient _ _ _ e) l b)
                  | inr (inl e) ↦ rw e tt
                  | inr (inr ([], e)) ↦ rw e tt
                  | inr (inr (byte ∷ bytes, e)) ↦ rw e (
                      let (fits, valid) = r.within _ _ _ _ e in
                      let grown = length-append block (byte ∷ bytes) in
                      read_loop-ReturnsBlock fuel 0 (block ++ (byte ∷ bytes))
                        (omega (
                          arith,
                          rounds_fall (size - length block)
                              (size - length (block ++ (byte ∷ bytes))) reader.patience retries fuel
                              (omega (tests, more)) m q,
                        ))
                        (omega arith) (omega arith)
                        (All-append IsByte block (byte ∷ bytes) b valid))
                ])
        | inr done ↦ rw done (omega (tests, ltb→le _ _ done), b)
      ]

enough_rounds : (size p : ℕ) → (size - 0) * suc p + p < suc (size * suc p + p) + 0
enough_rounds size p = rw sub-zero (omega arith)

-- A read from a source that keeps the contract of `Read` returns: a block of the asked size or an
-- error, and never more than the rounds allowed for.
pub read_block-ReturnsBlock :
    (reader : Reader) (address size : ℕ)
    → IsReader reader
    → ReturnsBlock size (read_block reader address size)
unfolding read_block
read_block-ReturnsBlock reader address size r = ground (
  arith,
  read_loop-ReturnsBlock reader r address size (address * size) (read_rounds reader size) 0 []
      (enough_rounds size reader.patience) (omega arith) (omega arith) tt,
)

-- A source that holds `image`: it seeks anywhere, never fails, and a call at a position within the
-- image gives at least one of the bytes there, or is interrupted.
pub record Holds (image : List ℕ) (reader : Reader) : Type 0 where
  pub valid : All IsByte image
  pub seeks : (position : ℕ) → reader.seekable position ≡ true
  pub answers : (position room retries : ℕ) → reader.read position room retries ≢ failed
  pub patient :
      (position room retries : ℕ)
      → reader.read position room retries ≡ interrupted
      → retries < reader.patience
  pub reads :
      (position room retries : ℕ) (bytes : List ℕ)
      → reader.read position room retries ≡ got bytes
      → (n : ℕ) × (n ≤ room) × (bytes ≡ take n (drop position image))
  pub progresses :
      (position room retries : ℕ)
      → position < length image
      → 0 < room
      → reader.read position room retries ≢ got []

pub Holds-IsReader : {image : List ℕ} {reader : Reader} → Holds image reader → IsReader reader
Holds-IsReader {image} h = record {
  patient = h.patient;
  within = λ position room retries bytes e.
      let (n, fits, same) = h.reads position room retries bytes e in
      rw same (
        omega (arith, length-take n (drop position image)),
        All-take IsByte n _ (All-drop IsByte position image h.valid),
      );
}

-- What a read of `size` bytes at `offset` of the image comes to.
pub image_read : List ℕ → ℕ → ℕ → ℕ → Outcome (List ℕ)
image_read image address size offset =
    if leb size (length image - offset)
    then ok (take size (drop offset image))
    else err (short_read address size (length image - offset))

module _ (image : List ℕ) (reader : Reader) (h : Holds image reader) (address size offset : ℕ) where
  image_read_short :
      (n : ℕ)
      → n < size
      → length image ≤ offset + n
      → n ≤ length image - offset
      → err (short_read address size n) ≡ image_read image address size offset
  unfolding image_read
  image_read_short n l e b = ground (arith, ends)
    where
      ends : length image - offset ≡ n
      ends = omega arith

  image_read_full :
      (n : ℕ)
      → n ≡ size
      → n ≤ length image - offset
      → ok (take n (drop offset image)) ≡ image_read image address size offset
  unfolding image_read
  image_read_full n e b = rw e (ground arith)

  -- What a call adds lengthens the prefix that was read.
  longer_prefix :
      (n : ℕ) (bytes : List ℕ) (k : ℕ)
      → bytes ≡ take k (drop (offset + n) image)
      → take n (drop offset image) ++ bytes ≡ take (n + length bytes) (drop offset image)
  longer_prefix n bytes k e =
      ap (λ t. take n (drop offset image) ++ t)
        (prefix ∙ ap (take (length bytes)) (sym (drop-drop n offset image)))
      ∙ take-append-take n (length bytes) (drop offset image)
    where
      prefix : bytes ≡ take (length bytes) (drop (offset + n) image)
      prefix =
          e
          ∙ sym (take-length-take k (drop (offset + n) image))
          ∙ ap (λ (t : List ℕ). take (length t) (drop (offset + n) image)) (sym e)

  read_loop-image_read :
      (fuel retries n : ℕ)
      → (size - n) * suc reader.patience + reader.patience < fuel + retries
      → retries ≤ reader.patience
      → n ≤ size
      → n ≤ length image - offset
      → read_loop reader address size offset fuel retries (take n (drop offset image))
        ≡ image_read image address size offset
  unfolding read_loop
  read_loop-image_read zero retries n m q l b = absurd (omega arith)
  read_loop-image_read (suc fuel) retries n m q l b = rw held (elim (Bool-cases (ltb n size)) [
    | inl more ↦ rw more (elim (ReadOutcome-cases (reader.read (offset + n) (size - n) retries)) [
      | inl e ↦
          rw e (read_loop-image_read fuel (suc retries) n (omega arith) (h.patient _ _ _ e) l b)
      | inr (inl e) ↦ absurd (h.answers _ _ _ e)
      | inr (inr ([], e)) ↦
          rw e (rw held (image_read_short n (ltb→lt _ _ more) (stopped n more e) b))
      | inr (inr (byte ∷ bytes, e)) ↦ rw e (
          let (k, fits, same) = h.reads _ _ _ _ e in
          let count = ap (λ (t : List ℕ). length t) same in
          let longer = longer_prefix n (byte ∷ bytes) k same in
          let n' = n + length (byte ∷ bytes) in
          rw longer (
            read_loop-image_read fuel 0 n'
              (rounds_fall (size - n) (size - n') reader.patience retries fuel (omega (tests, more))
                m q)
              (omega arith) (omega (tests, more, count, length-take k (drop (offset + n) image)))
              (omega (
                arith,
                count,
                length-take k (drop (offset + n) image),
                length-drop (offset + n) image,
              ))))
    ])
    | inr done ↦ rw done (image_read_full n (omega (tests, done)) b)
  ])
    where
      held : length (take n (drop offset image)) ≡ n
      held = omega (arith, length-take n (drop offset image), length-drop offset image)

      stopped :
          (n : ℕ)
          → ltb n size ≡ true
          → reader.read (offset + n) (size - n) retries ≡ got []
          → length image ≤ offset + n
      stopped n more e = elim (Bool-cases (ltb (offset + n) (length image))) [
        | inl within ↦ absurd (h.progresses _ _ _ (ltb→lt _ _ within) (omega (tests, more)) e)
        | inr past ↦ ltb→le _ _ past
      ]

-- A block of a size that APFS allows, at an address whose byte offset fits 64 bits, is read from a
-- source that holds an image as exactly the image's bytes there, however the calls are cut up and
-- interrupted; where the image ends early the error carries the number of bytes that were there.
-- Any other size is `InvalidObject`, and an offset of 64 bits or more `UnsupportedDescriptorLayout`.
pub read_block-image_read :
    (image : List ℕ) (reader : Reader) (address size : ℕ)
    → Holds image reader
    → read_block reader address size ≡ (
        if leb 4096 size && leb size 65536
        then (if ltb (address * size) (2 ^ 64)
            then image_read image address size (address * size)
            else err (unsupported_descriptor_layout offset_overflow))
        else err (invalid_object block_size_out_of_range))
unfolding read_block
read_block-image_read image reader address size h = ground (
  arith,
  h.seeks (address * size),
  read_loop-image_read image reader h address size (address * size) (read_rounds reader size) 0 0
      (enough_rounds size reader.patience) (omega arith) (omega arith) (omega arith),
)

sizes :
    (reader : Reader) (address size : ℕ) (block : List ℕ)
    → read_block reader address size ≡ ok block
    → (4096 ≤ size) × (size ≤ 65536)
unfolding read_block
sizes reader address size block e = ground arith

-- What a successful read has, as facts to use.
pub read_block-IsBlock :
    (reader : Reader) (address size : ℕ)
    → IsReader reader
    → Returns (read_block reader address size)
      × ((block : List ℕ)
          → read_block reader address size ≡ ok block
          → IsBlock size block × (4096 ≤ size) × (size ≤ 65536))
read_block-IsBlock reader address size r = (
  returns (read_block reader address size) (read_block-ReturnsBlock reader address size r),
  λ block e.
      let (low, high) = sizes reader address size block e in
      (subst (ReturnsBlock size) e (read_block-ReturnsBlock reader address size r), low, high),
)
  where
    returns : (m : Outcome (List ℕ)) → ReturnsBlock size m → Returns m
    returns (ok block) h = tt
    returns (err e) h = tt
    returns panic h = h
    returns hang h = h
