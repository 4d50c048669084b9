-- ===== src/Checkpoint/Candidates.antt =====
-- `parse_nxsb_candidate` and the loop over the descriptor area.
use apfs_fastindex.Base.{
  opposite_false, ℕ, zero, suc, ◌+◌, ◌^◌, ◌%◌, ◌<◌, ◌≤◌, ◌≡◌, ◌↔◌, refl, sym, ap, ◌∙◌, ◌⊎◌, inl,
  inr, Bool, true, false, not, List, [], ◌∷◌, ◌++◌, length, ltb, ltb→lt, ◌==◌, ==_iff, Bool-cases,
  All, All-append, All-map, Memᴰ, tests, arith,
}
use mathlib.Core.Path.{subst}
use mathlib.Core.List.Memᴰ.{head, append_left, append_right}
use apfs_fastindex.Outcome.{ok, Settles, Settles-bind, Settles-if, Settles-Returns, Settles-ok}
use apfs_fastindex.BlockIo.{Reader, checksum_matches, read_block}
use apfs_fastindex.BlockIo.Fields.{field, le_u32_lem, le_u64_lem}
use apfs_fastindex.BlockIo.Reading.{IsReader, read_block-IsBlock}
use apfs_fastindex.Object.TypeWord.{low_word}
use apfs_fastindex.Object.Gate.{checksum_matches-ok}
use apfs_fastindex.Checkpoint.{
  NxsbCandidate, Parsed, candidate, absent, refused, is_nxsb_type, parse_nxsb_candidate, Found,
  add_parsed, descriptor_loop,
}

-- A superblock that may be selected.
pub record IsNxsb (block : List ℕ) : Type 0 where
  pub magic : field 4 block 0x20 ≡ 0x4253_584e
  pub kind : field 4 block 0x18 % 2 ^ 16 ≡ 1
  pub sealed : checksum_matches block ≡ ok true

-- What is recorded of it.
abbrev pub candidate_of : List ℕ → ℕ → ℕ → NxsbCandidate
candidate_of block index address = record {
  descriptor_index = index;
  block_address = address;
  oid = field 8 block 0x08;
  xid = field 8 block 0x10;
  object_type_raw = field 4 block 0x18;
  object_subtype = field 4 block 0x1c;
  checksum = field 8 block 0x00;
}

pub is_nxsb_type_iff : (raw : ℕ) → (is_nxsb_type raw ≡ true) ↔ (raw % 2 ^ 16 ≡ 1)
unfolding is_nxsb_type
is_nxsb_type_iff raw = rw (low_word raw) (==_iff _ 1)

-- What a block of the descriptor area comes to.
abbrev Sorts : List ℕ → ℕ → ℕ → Parsed → Type 0
Sorts block index address (candidate c) = IsNxsb block × (c ≡ candidate_of block index address)
Sorts block index address absent = ¬ IsNxsb block
Sorts block index address (refused why) = ¬ IsNxsb block

off_magic : (n : ℕ) → not (n == 0x4253_584e) ≡ true → n ≡ 0x4253_584e → ⊥
off_magic n h k = ground arith

on_magic : (n : ℕ) → not (n == 0x4253_584e) ≡ false → n ≡ 0x4253_584e
on_magic n h = ground arith

clash : (b : Bool) → not b ≡ true → b ≡ true → ⊥
clash b h k = ground arith

inj : {b c : Bool} → ok b ≡ ok c → b ≡ c
inj h = cc

module _ (block : List ℕ) (index address : ℕ) (l : 40 ≤ length block) where
  parse_nxsb_candidate-Settles :
      Settles (Sorts block index address) ⊥ (parse_nxsb_candidate block index address)
  unfolding parse_nxsb_candidate
  parse_nxsb_candidate-Settles =
      let (matches, computed) = checksum_matches-ok block (omega arith) in
      rw
        (
          le_u32_lem block 0x20 (omega arith),
          le_u32_lem block 0x18 (omega arith),
          le_u64_lem block 0x08 (omega arith),
          le_u64_lem block 0x10 (omega arith),
          le_u32_lem block 0x1c (omega arith),
          le_u64_lem block 0x00 (omega arith),
          computed,
        )
        (Settles-if _ _ (not (field 4 block 0x20 == 0x4253_584e)) _ _
          (λ differs n. off_magic _ differs n.magic)
          (λ magic.
            Settles-if _ _ (not (is_nxsb_type (field 4 block 0x18))) _ _
              (λ other n. clash _ other ((is_nxsb_type_iff _).1 n.kind))
              (λ kind.
                Settles-if _ _ (not matches) _ _
                  (λ broken n. clash _ broken (inj (sym computed ∙ n.sealed)))
                  (λ sealed. (
                    record {
                      magic = on_magic _ magic;
                      kind = (is_nxsb_type_iff _).0 (opposite_false _ kind);
                      sealed = computed ∙ ap ok (opposite_false _ sealed);
                    },
                    refl,
                  )))))

module _ (reader : Reader) (block_size base : ℕ) where
  -- A candidate is what stands in the descriptor that it names.
  pub record IsFrom (count : ℕ) (c : NxsbCandidate) : Type 0 where
    pub inside : c.descriptor_index < count
    pub place : c.block_address ≡ base + c.descriptor_index
    pub block : List ℕ
    pub stored : read_block reader c.block_address block_size ≡ ok block
    pub is_superblock : IsNxsb block
    pub recorded : c ≡ candidate_of block c.descriptor_index c.block_address

  -- The first `count` descriptors are sorted out: every candidate comes from one of them, and every
  -- one that holds a valid superblock gives a candidate.
  pub record IsSorted (count : ℕ) (candidates : List NxsbCandidate) : Type 0 where
    pub sound : All (IsFrom count) candidates
    pub complete :
        (i : ℕ) (block : List ℕ)
        → i < count
        → read_block reader (base + i) block_size ≡ ok block
        → IsNxsb block
        → Memᴰ (candidate_of block i (base + i)) candidates

  IsFrom-grow : (count : ℕ) (c : NxsbCandidate) → IsFrom count c → IsFrom (count + 1) c
  IsFrom-grow count c f = record {
    inside = omega (arith, f.inside);
    place = f.place;
    block = f.block;
    stored = f.stored;
    is_superblock = f.is_superblock;
    recorded = f.recorded;
  }

  -- A descriptor up to number `index` is one before it, or the one just read.
  module _ (index : ℕ) (block : List ℕ)
      (p : read_block reader (base + index) block_size ≡ ok block) where
    last_read :
        (i : ℕ) (other : List ℕ)
        → i < index + 1
        → read_block reader (base + i) block_size ≡ ok other
        → (i < index) ⊎ ((i ≡ index) × (other ≡ block))
    last_read i other l q = elim (Bool-cases (ltb i index)) [
      | inl before ↦ inl (ltb→lt _ _ before)
      | inr last ↦
          let same : i ≡ index = omega (tests, last, l) in
          inr (
            same,
            same_block
                (sym (subst (λ j. read_block reader (base + j) block_size ≡ ok other) same q) ∙ p),
          )
    ]
      where
        same_block : {x y : List ℕ} → ok x ≡ ok y → x ≡ y
        same_block h = cc

    IsSorted-skip :
        (candidates : List NxsbCandidate)
        → IsSorted index candidates
        → ¬ IsNxsb block
        → IsSorted (index + 1) candidates
    IsSorted-skip candidates s invalid = record {
      sound = All-map _ _ candidates (IsFrom-grow index) s.sound;
      complete = λ i other l q v. elim (last_read i other l q) [
        | inl before ↦ s.complete i other before q v
        | inr (same, same_block) ↦ absurd (invalid (subst IsNxsb same_block v))
      ];
    }

    IsSorted-push :
        (candidates : List NxsbCandidate)
        → IsSorted index candidates
        → IsNxsb block
        → IsSorted (index + 1) (candidates ++ (candidate_of block index (base + index) ∷ []))
    IsSorted-push candidates s valid = record {
      sound = All-append _ candidates _ (All-map _ _ candidates (IsFrom-grow index) s.sound) (
        record {
          inside = omega arith;
          place = refl;
          block = block;
          stored = p;
          is_superblock = valid;
          recorded = refl;
        },
        tt,
      );
      complete = λ i other l q v. elim (last_read i other l q) [
        | inl before ↦ append_left _ (s.complete i other before q v)
        | inr (same, same_block) ↦ append_right candidates (
            head (
              ap (λ n. candidate_of other n (base + n)) same
              ∙ ap (λ b. candidate_of b index (base + index)) same_block))
      ];
    }

    IsSorted-add :
        (found : Found) (parsed : Parsed)
        → IsSorted index found.candidates
        → Sorts block index (base + index) parsed
        → IsSorted (index + 1) (add_parsed index (base + index) parsed found).candidates
    unfolding add_parsed
    IsSorted-add found (candidate c) s (valid, same) =
        subst (λ c. IsSorted (index + 1) (found.candidates ++ (c ∷ []))) (sym same)
          (IsSorted-push found.candidates s valid)
    IsSorted-add found absent s invalid = IsSorted-skip found.candidates s invalid
    IsSorted-add found (refused why) s invalid = IsSorted-skip found.candidates s invalid

  -- The loop over the descriptors from number `index` on.
  pub descriptor_loop-Settles :
      (left index : ℕ) (found : Found)
      → IsReader reader
      → IsSorted index found.candidates
      → Settles
          (λ (t : Found). IsSorted (left + index) t.candidates)
          Unit
          (descriptor_loop reader block_size base left index found)
  unfolding descriptor_loop
  descriptor_loop-Settles zero index found r s =
      subst (λ n. IsSorted n found.candidates) (omega arith) s
  descriptor_loop-Settles (suc left) index found r s =
      let (returns, facts) = read_block-IsBlock reader (base + index) block_size r in
      Settles-bind _ _ (read_block reader (base + index) block_size) _ returns (λ e p. tt)
        (λ block p.
          let ((full, bytes), low, high) = facts block p in
          let sorted = parse_nxsb_candidate-Settles block index (base + index) (omega arith) in
          Settles-bind _ _ (parse_nxsb_candidate block index (base + index)) _
            (Settles-Returns _ _ _ sorted) (λ e p. tt)
            (λ parsed q.
              subst
                (λ n.
                  Settles (λ (t : Found). IsSorted n t.candidates) Unit
                    (descriptor_loop reader block_size base left (index + 1)
                      (add_parsed index (base + index) parsed found)))
                (omega arith)
                (descriptor_loop-Settles left (index + 1)
                  (add_parsed index (base + index) parsed found) r
                  (IsSorted-add index block p found parsed s (Settles-ok _ _ _ q sorted)))))
