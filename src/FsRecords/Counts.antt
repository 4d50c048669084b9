-- ===== src/FsRecords/Counts.antt =====
-- The counters of the walk by family, and its set of object ids.
use apfs_fastindex.Base.{
  ℕ, suc, ◌+◌, ◌≤◌, ◌<◌, ◌≡◌, ◌≢◌, refl, ap, Bool, true, false, ◌||◌, List, [], ◌∷◌, ◌++◌, ltb,
  ◌==◌, if◌then◌else◌, ltb→lt, Bool-cases, inl, inr, tests, arith,
}
use apfs_fastindex.Omap.{contains}
use apfs_fastindex.Omap.Summarize.{add_one}
use apfs_fastindex.Omap.Summarize.Kept.{IsUnique}
use apfs_fastindex.RecordBody.{FsRecordRow}
use apfs_fastindex.RecordBody.Keys.Fits.{same, other}
use apfs_fastindex.FsRecords.{FamilyCount, count_family, insert_id, family_rows}

-- The count of a type, nothing where it is missing.
unfoldable pub count_of : ℕ → List (ℕ × ℕ) → ℕ
count_of t [] = 0
count_of t ((u, n) ∷ counts) = if u == t then n else count_of t counts

-- The types increase, from `low` on.
abbrev pub AreSorted : ℕ → List (ℕ × ℕ) → Type 0
AreSorted low [] = Unit
AreSorted low ((t, n) ∷ counts) = (low ≤ t) × AreSorted (suc t) counts

-- How many rows have a type.
unfoldable pub number_of : ℕ → List FsRecordRow → ℕ
number_of t [] = 0
number_of t (row ∷ rows) =
    let rest = number_of t rows in if row.raw_type == t then suc rest else rest

pub number_of-append :
    (t : ℕ) (rows more : List FsRecordRow)
    → number_of t (rows ++ more) ≡ number_of t rows + number_of t more
unfolding number_of
number_of-append t [] more = omega arith
number_of-append t (row ∷ rows) more = elim (Bool-cases (row.raw_type == t)) [
  | inl e ↦ rw e (omega (arith, number_of-append t rows more))
  | inr d ↦ rw d (number_of-append t rows more)
]

pub count_family-AreSorted :
    (raw low : ℕ) (counts : List (ℕ × ℕ))
    → low ≤ raw
    → AreSorted low counts
    → AreSorted low (count_family raw counts)
unfolding count_family
count_family-AreSorted raw low [] h sorted = (h, tt)
count_family-AreSorted raw low ((t, n) ∷ counts) h (first, sorted) = elim (Bool-cases (ltb raw t)) [
  | inl before ↦ rw before (h, (omega (tests, before), sorted))
  | inr after ↦ elim (Bool-cases (raw == t)) [
    | inl e ↦ rw (after, e) (first, sorted)
    | inr d ↦
        rw (after, d)
          (
            first,
            count_family-AreSorted raw (suc t) counts (past raw t after (other raw t d)) sorted,
          )
  ]
]
  where
    past : (a b : ℕ) → ltb a b ≡ false → a ≢ b → suc b ≤ a
    past a b h n = ground arith

count_of-below :
    (t low : ℕ) (counts : List (ℕ × ℕ)) → t < low → AreSorted low counts → count_of t counts ≡ 0
unfolding count_of
count_of-below t low [] h sorted = refl
count_of-below t low ((u, n) ∷ counts) h (first, sorted) =
    rw (apart u t (omega arith)) (count_of-below t (suc u) counts (omega arith) sorted)
  where
    apart : (u t : ℕ) → t < u → (u == t) ≡ false
    apart u t h = ground arith

-- Counting a type adds one to its own count and leaves the others.
pub count_of-count_family :
    (raw t low : ℕ) (counts : List (ℕ × ℕ))
    → AreSorted low counts
    → count_of t (count_family raw counts)
      ≡ (if raw == t then add_one (count_of t counts) else count_of t counts)
unfolding count_of count_family
count_of-count_family raw t low [] sorted = ground arith
count_of-count_family raw t low ((u, n) ∷ counts) (first, sorted) = elim (Bool-cases (ltb raw u)) [
  | inl before ↦ rw before (
      in_front raw t u n (count_of t counts) (ltb→lt raw u before)
        (λ h. count_of-below t (suc u) counts h sorted))
  | inr after ↦ elim (Bool-cases (raw == u)) [
    | inl e ↦ rw (after, e) (in_place raw t u n (count_of t counts) (same raw u e))
    | inr d ↦
        rw (after, d)
          (behind raw t u n (count_of t counts) (count_of t (count_family raw counts))
            (other raw u d) (count_of-count_family raw t (suc u) counts sorted))
  ]
]
  where
    in_front :
        (raw t u n rest : ℕ)
        → raw < u
        → (t < suc u → rest ≡ 0)
        → (if raw == t then 1 else if u == t then n else rest)
          ≡ (if raw == t then add_one (if u == t then n else rest) else if u == t then n else rest)
    in_front raw t u n rest h below = ground arith

    in_place :
        (raw t u n rest : ℕ)
        → raw ≡ u
        → (if u == t then add_one n else rest)
          ≡ (if raw == t then add_one (if u == t then n else rest) else if u == t then n else rest)
    in_place raw t u n rest h = ground arith

    behind :
        (raw t u n rest next : ℕ)
        → raw ≢ u
        → next ≡ (if raw == t then add_one rest else rest)
        → (if u == t then n else next)
          ≡ (if raw == t then add_one (if u == t then n else rest) else if u == t then n else rest)
    behind raw t u n rest next h p = ground arith

self_equal : (n : ℕ) → (n == n) ≡ true
self_equal n = ground arith

pub insert_id-contains : (id : ℕ) (ids : List ℕ) → contains (insert_id id ids) id ≡ true
unfolding insert_id contains
insert_id-contains id ids = elim (Bool-cases (contains ids id)) [
  | inl known ↦ rw known known
  | inr new ↦ rw (new, self_equal id) refl
]

pub insert_id-keeps :
    (id other : ℕ) (ids : List ℕ)
    → contains ids other ≡ true
    → contains (insert_id id ids) other ≡ true
unfolding insert_id contains
insert_id-keeps id other ids h = elim (Bool-cases (contains ids id)) [
  | inl known ↦ rw known h
  | inr new ↦ rw (new, h) (either (id == other))
]
  where
    either : (b : Bool) → (b || true) ≡ true
    either true = refl
    either false = refl

pub insert_id-IsUnique : (id : ℕ) (ids : List ℕ) → IsUnique ids → IsUnique (insert_id id ids)
unfolding insert_id IsUnique
insert_id-IsUnique id ids u = elim (Bool-cases (contains ids id)) [
  | inl known ↦ rw known u
  | inr new ↦ rw new (new, u)
]

-- The rows of a report, of increasing types.
abbrev pub AreRows : ℕ → List FamilyCount → Type 0
AreRows low [] = Unit
AreRows low (f ∷ rows) = (low ≤ f.raw_type) × AreRows (suc f.raw_type) rows

-- The count that the report gives a type.
unfoldable pub reported : ℕ → List FamilyCount → ℕ
reported t [] = 0
reported t (f ∷ rows) = if f.raw_type == t then f.count else reported t rows

pub family_rows-AreRows :
    (low : ℕ) (counts : List (ℕ × ℕ))
    → AreSorted low counts
    → AreRows low (family_rows counts)
      × ((t : ℕ) → reported t (family_rows counts) ≡ count_of t counts)
unfolding family_rows reported count_of
family_rows-AreRows low [] sorted = (tt, λ t. refl)
family_rows-AreRows low ((u, n) ∷ counts) (first, sorted) =
    let (rows, counted) = family_rows-AreRows (suc u) counts sorted in
    ((first, rows), λ t. ap (λ (m : ℕ). if u == t then n else m) (counted t))
