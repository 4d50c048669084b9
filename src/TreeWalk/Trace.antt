-- ===== src/TreeWalk/Trace.antt =====
-- What a walk of a tree meets: the nodes and the entries of the tree, in the order of the walk.
use apfs_fastindex.Base.{
  ℕ, zero, suc, ◌%◌, ◌^◌, if◌then◌else◌, ◌+◌, ◌≡◌, refl, Bool, true, false, Option, List, [], ◌∷◌,
  ◌++◌, arith,
}
use apfs_fastindex.Outcome.{ok}
use apfs_fastindex.BlockIo.{Reader}
use apfs_fastindex.Omap.Summarize.{add_one}
use apfs_fastindex.Object.{ObjectHeader, ExpectedStorage}
use apfs_fastindex.Btree.{
  BtreeNode, BtreeEntry, parse, entry, key_bytes, value_bytes, read_btree_node,
}

-- A node at its address, and below it the entries of a leaf or the trees of the children.
mutual
  pub data Tree : Type 0 where
    leaf : ℕ → BtreeNode → List (List ℕ × List ℕ) → Tree
    inner : ℕ → BtreeNode → Forest → Tree

  pub data Forest : Type 0 where
    bare : Forest
    grow : Tree → Forest → Forest

-- The visit of a leaf or of an index node at an address, and an entry with the address of its leaf,
-- its index, its key and its value.
pub data Event : Type 0 where
  visited_node : Bool → ℕ → Event
  met_entry : ℕ → ℕ → List ℕ → List ℕ → Event

abbrev pub entry_events : ℕ → ℕ → List (List ℕ × List ℕ) → List Event
entry_events paddr index [] = []
entry_events paddr index ((key, value) ∷ entries) =
    met_entry paddr index key value ∷ entry_events paddr (index + 1) entries

unfoldable mutual
  pub events : Tree → List Event
  events (leaf paddr node entries) = visited_node true paddr ∷ entry_events paddr 0 entries
  events (inner paddr node forest) = visited_node false paddr ∷ forest_events forest

  pub forest_events : Forest → List Event
  forest_events bare = []
  forest_events (grow tree forest) = events tree ++ forest_events forest

-- How many leaves, or index nodes, are visited.
abbrev pub count_if_same : Bool → Bool → ℕ
count_if_same true true = 1
count_if_same true false = 0
count_if_same false true = 0
count_if_same false false = 1

unfoldable pub number_visited : Bool → List Event → ℕ
number_visited kind [] = 0
number_visited kind (visited_node is_leaf paddr ∷ rest) =
    count_if_same kind is_leaf + number_visited kind rest
number_visited kind (met_entry paddr index key value ∷ rest) = number_visited kind rest

-- The addresses of the visited nodes, the last one first.
unfoldable pub addresses_onto : List Event → List ℕ → List ℕ
addresses_onto [] seen = seen
addresses_onto (visited_node is_leaf paddr ∷ rest) seen = addresses_onto rest (paddr ∷ seen)
addresses_onto (met_entry paddr index key value ∷ rest) seen = addresses_onto rest seen

pub number_visited-append :
    (kind : Bool) (es more : List Event)
    → number_visited kind (es ++ more) ≡ number_visited kind es + number_visited kind more
unfolding number_visited
number_visited-append kind [] more = omega arith
number_visited-append kind (visited_node is_leaf paddr ∷ es) more =
    omega (arith, number_visited-append kind es more)
number_visited-append kind (met_entry paddr index key value ∷ es) more =
    number_visited-append kind es more

pub addresses_onto-append :
    (es more : List Event) (seen : List ℕ)
    → addresses_onto (es ++ more) seen ≡ addresses_onto more (addresses_onto es seen)
unfolding addresses_onto
addresses_onto-append [] more seen = refl
addresses_onto-append (visited_node is_leaf paddr ∷ es) more seen =
    addresses_onto-append es more (paddr ∷ seen)
addresses_onto-append (met_entry paddr index key value ∷ es) more seen =
    addresses_onto-append es more seen

-- One more node, as a counter on 32 bits has it.
pub count_leaf :
    (es : List Event) (is_leaf : Bool) (paddr n : ℕ)
    → n ≡ number_visited true es % 2 ^ 32
    → (if is_leaf then add_one n else n)
      ≡ number_visited true (es ++ (visited_node is_leaf paddr ∷ [])) % 2 ^ 32
unfolding number_visited
count_leaf es true paddr n h =
    omega (arith, h, number_visited-append true es (visited_node true paddr ∷ []))
count_leaf es false paddr n h =
    omega (arith, h, number_visited-append true es (visited_node false paddr ∷ []))

pub count_inner :
    (es : List Event) (is_leaf : Bool) (paddr n : ℕ)
    → n ≡ number_visited false es % 2 ^ 32
    → (if is_leaf then n else add_one n)
      ≡ number_visited false (es ++ (visited_node is_leaf paddr ∷ [])) % 2 ^ 32
unfolding number_visited
count_inner es true paddr n h =
    omega (arith, h, number_visited-append false es (visited_node true paddr ∷ []))
count_inner es false paddr n h =
    omega (arith, h, number_visited-append false es (visited_node false paddr ∷ []))

pub addresses_onto-visit :
    (es : List Event) (is_leaf : Bool) (paddr : ℕ)
    → addresses_onto (es ++ (visited_node is_leaf paddr ∷ [])) [] ≡ paddr ∷ addresses_onto es []
unfolding addresses_onto
addresses_onto-visit es is_leaf paddr =
    addresses_onto-append es (visited_node is_leaf paddr ∷ []) []

-- An entry is no node.
pub entry_places :
    (paddr index : ℕ) (key value : List ℕ) (es : List Event)
    → (number_visited true (es ++ (met_entry paddr index key value ∷ [])) ≡ number_visited true es)
      × (number_visited false (es ++ (met_entry paddr index key value ∷ []))
          ≡ number_visited false es)
      × (addresses_onto (es ++ (met_entry paddr index key value ∷ [])) [] ≡ addresses_onto es [])
unfolding number_visited addresses_onto
entry_places paddr index key value es = (
  omega (arith, number_visited-append true es (met_entry paddr index key value ∷ [])),
  omega (arith, number_visited-append false es (met_entry paddr index key value ∷ [])),
  addresses_onto-append es (met_entry paddr index key value ∷ []) [],
)

-- An entry of a node.
pub record HasEntry (kw vw : ℕ) (node : BtreeNode) (index : ℕ) (key value : List ℕ) : Type 0 where
  pub slot : BtreeEntry
  pub slot_read : entry node index ≡ ok slot
  pub key_read : key_bytes node slot kw ≡ ok key
  pub value_read : value_bytes node slot vw ≡ ok value

-- The entries of a leaf from an index on, as `entry`, `key_bytes` and `value_bytes` give them for
-- keys and values of these widths.
abbrev pub AreEntries : ℕ → ℕ → BtreeNode → ℕ → ℕ → List (List ℕ × List ℕ) → Type 0
AreEntries kw vw node zero index [] = Unit
AreEntries kw vw node zero index (e ∷ entries) = ⊥
AreEntries kw vw node (suc left) index [] = ⊥
AreEntries kw vw node (suc left) index ((key, value) ∷ entries) =
    HasEntry kw vw node index key value × AreEntries kw vw node left (index + 1) entries

-- A node that the reader has at an address.
pub record IsNodeAt (reader : Reader) (block_size : ℕ) (storage : ExpectedStorage)
    (max_xid : Option ℕ) (paddr : ℕ) (is_root : Bool) (node : BtreeNode) : Type 0 where
  pub block : List ℕ
  pub header : ObjectHeader
  pub read : read_btree_node reader block_size paddr is_root storage max_xid ≡ ok (block, header)
  pub parsed : parse block block_size ≡ ok node

-- How a walk finds its nodes, the entries of a leaf, the children of an index node and the address
-- of a child.
module _ (NodeAt : ℕ → Bool → BtreeNode → Type 0)
    (Entries : BtreeNode → List (List ℕ × List ℕ) → Type 0) (Children : BtreeNode → List ℕ → Type 0)
    (ChildAt : ℕ → ℕ → Type 0) where
  unfoldable mutual
    pub IsTree : ℕ → Bool → Tree → Type 0
    IsTree at is_root (leaf paddr node entries) =
        (paddr ≡ at) × NodeAt at is_root node × (node.is_leaf ≡ true) × Entries node entries
    IsTree at is_root (inner paddr node forest) =
        (paddr ≡ at)
        × NodeAt at is_root node
        × (node.is_leaf ≡ false)
        × ((children : List ℕ) × Children node children × AreTrees children forest)

    pub AreTrees : List ℕ → Forest → Type 0
    AreTrees [] bare = Unit
    AreTrees [] (grow tree forest) = ⊥
    AreTrees (child ∷ children) bare = ⊥
    AreTrees (child ∷ children) (grow tree forest) =
        ((at : ℕ) × ChildAt child at × IsTree at false tree) × AreTrees children forest
