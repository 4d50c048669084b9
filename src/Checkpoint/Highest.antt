-- ===== src/Checkpoint/Highest.antt =====
-- `ScanReport::highest_candidate`.
use apfs_fastindex.Base.{
  ◌<◌, ◌≤◌, ◌≡◌, refl, sym, ap, ◌∙◌, inl, inr, Option, none, some, List, [], ◌∷◌, ◌++◌, leb, leb→le,
  leb→lt, Bool-cases, All, All-append, All-map, arith,
}
use mathlib.Core.List.{append_assoc, append-nil}
use mathlib.Core.Path.{subst}
use apfs_fastindex.Checkpoint.{NxsbCandidate, ScanReport, highest_of, highest_candidate}

-- `c` stands in the list with no higher transaction before it and only lower ones after it.
pub record IsHighest (cs : List NxsbCandidate) (c : NxsbCandidate) : Type 0 where
  pub before : List NxsbCandidate
  pub after : List NxsbCandidate
  pub stands : cs ≡ before ++ (c ∷ after)
  pub not_above : All (λ (d : NxsbCandidate). d.xid ≤ c.xid) before
  pub below : All (λ (d : NxsbCandidate). d.xid < c.xid) after

-- What the choice from a list is: nothing only from the empty one.
pub Chooses : List NxsbCandidate → Option NxsbCandidate → Type 0
Chooses cs none = cs ≡ []
Chooses cs (some c) = IsHighest cs c

-- A candidate that is at least as high takes the place of the one so far; a lower one does not.
overtakes :
    (seen : List NxsbCandidate) (best c : NxsbCandidate)
    → IsHighest seen best
    → best.xid ≤ c.xid
    → IsHighest (seen ++ (c ∷ [])) c
overtakes seen best c h l = record {
  before = seen;
  after = [];
  stands = refl;
  not_above = subst (All (λ (d : NxsbCandidate). d.xid ≤ c.xid)) (sym h.stands) (
      All-append _ h.before (best ∷ h.after) (All-map _ _ h.before (λ d k. omega arith) h.not_above)
        (l, All-map _ _ h.after (λ d k. omega arith) h.below));
  below = tt;
}

stays :
    (seen : List NxsbCandidate) (best c : NxsbCandidate)
    → IsHighest seen best
    → c.xid < best.xid
    → IsHighest (seen ++ (c ∷ [])) best
stays seen best c h l = record {
  before = h.before;
  after = h.after ++ (c ∷ []);
  stands = ap (λ t. t ++ (c ∷ [])) h.stands ∙ append_assoc h.before (best ∷ h.after) (c ∷ []);
  not_above = h.not_above;
  below = All-append _ h.after (c ∷ []) h.below (l, tt);
}

highest_of-Chooses :
    (seen rest : List NxsbCandidate) (best : Option NxsbCandidate)
    → Chooses seen best
    → Chooses (seen ++ rest) (highest_of rest best)
unfolding highest_of Chooses
highest_of-Chooses seen [] best h = subst (λ t. Chooses t best) (sym (append-nil seen)) h
highest_of-Chooses seen (c ∷ rest) none h =
    subst (λ t. Chooses t (highest_of rest (some c))) (append_assoc seen (c ∷ []) rest)
      (highest_of-Chooses (seen ++ (c ∷ [])) rest (some c) (record {
        before = [];
        after = [];
        stands = ap (λ t. t ++ (c ∷ [])) h;
        not_above = tt;
        below = tt;
      }))
highest_of-Chooses seen (c ∷ rest) (some best) h = elim (Bool-cases (leb best.xid c.xid)) [
  | inl up ↦ rw up (
      subst (λ t. Chooses t (highest_of rest (some c))) (append_assoc seen (c ∷ []) rest)
        (highest_of-Chooses (seen ++ (c ∷ [])) rest (some c)
          (overtakes seen best c h (leb→le _ _ up))))
  | inr lower ↦ rw lower (
      subst (λ t. Chooses t (highest_of rest (some best))) (append_assoc seen (c ∷ []) rest)
        (highest_of-Chooses (seen ++ (c ∷ [])) rest (some best)
          (stays seen best c h (leb→lt _ _ lower))))
]

-- The candidate that the report selects has the highest transaction, and is the last of those that
-- share it; nothing is selected only if there are no candidates.
pub highest_candidate-Chooses :
    (report : ScanReport) → Chooses report.candidates (highest_candidate report)
unfolding highest_candidate Chooses
highest_candidate-Chooses report = highest_of-Chooses [] report.candidates none refl
