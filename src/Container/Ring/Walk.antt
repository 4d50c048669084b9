-- ===== src/Container/Ring/Walk.antt =====
-- `walk_checkpoint_maps`: the ring that it accepts, and what it collects.
use apfs_fastindex.Base.{
  ◌%◌, same_number, ℕ, zero, suc, ◌+◌, ◌-◌, ◌*◌, ◌<◌, ◌≤◌, ◌≡◌, refl, sym, ap, ◌∙◌, true, false,
  not, ◌||◌, List, [], ◌∷◌, ◌++◌, length, ltb, ◌==◌, ==_iff, ltb→le, All, All-append, tests, arith,
}
use mathlib.Core.Path.{subst}
use apfs_fastindex.Outcome.{
  ok, checked, checked-eq-ok, Returns-checked, Settles, Settles-bind, Settles-weaken,
  Settles-reject_if, Settles-Returns, Settles-ok,
}
use apfs_fastindex.BlockIo.{Reader, read_block}
use apfs_fastindex.BlockIo.Fields.{field, le_u32_lem}
use apfs_fastindex.BlockIo.Reading.{IsReader, read_block-IsBlock}
use apfs_fastindex.Object.{ObjectHeader, has_bit, validate_object_block}
use apfs_fastindex.Base.Bits.{bit_and_bit}
use apfs_fastindex.Object.Gate.{validate_object_block_iff}
use apfs_fastindex.Container.{
  ContainerSummary, CheckpointMapBlock, CheckpointMapSummary, RingState, trailing_step, map_step,
  ring_step, ring_loop, walk_checkpoint_maps,
}
use apfs_fastindex.Container.Ring.{
  mapping_loop-slots, ring_address, ring_addresses, addresses, slots_in, all_slots, any_last,
  ring_addresses-add, addresses-append, all_slots-append, any_last-append, IsMap, IsTrailing, if_or,
}

module _ (reader : Reader) (block_size : ℕ) (container : ContainerSummary) (selected : ℕ) where
  -- What one more map adds to the state.
  record Adds (address : ℕ) (s t : RingState) : Type 0 where
    block : CheckpointMapBlock
    pushed : t.map_blocks ≡ s.map_blocks ++ (block ∷ [])
    at : block.block_address ≡ address
    is_map : IsMap reader block_size container block
    filled :
        t.mappings
        ≡ s.mappings
          ++ slots_in
              (read_block reader block.block_address block_size)
              block.block_address
              block.mapping_count
    last : t.last_flag_seen ≡ block.last || s.last_flag_seen

  map_step-Adds :
      (block : List ℕ) (address : ℕ) (s : RingState)
      → read_block reader address block_size ≡ ok block
      → 4096 ≤ length block
      → Settles
          (Adds address s)
          Unit
          (map_step reader block_size container selected block address s)
  unfolding map_step slots_in
  map_step-Adds block address s read l =
      Settles-bind _ _ (validate_object_block block address _) _
        (validate_object_block_iff block address _).1 (λ e p. tt)
        (λ header p.
          let (accepted, same) = ((validate_object_block_iff block address _).0 header).0 p in
          Settles-reject_if _ _ (not (header.xid == container.xid)) _ _ (λ t. tt)
            (λ xids.
              rw (le_u32_lem block 0x20 (omega arith), le_u32_lem block 0x24 (omega arith))
                (Settles-bind _ _ (checked (40 + 40 * count) _) _ (Returns-checked _ _) (λ e p. tt)
                  (λ end q.
                    Settles-reject_if _ _ (ltb (length block) end) _ _ (λ t. tt)
                      (λ inside.
                        rw
                          (mapping_loop-slots block address count 0 s.mappings
                            (omega (tests, inside, checked-eq-ok (40 + 40 * count) _ q)))
                          (record {
                            block = _;
                            pushed = refl;
                            at = refl;
                            is_map = record {
                              block = block;
                              read = read;
                              accepted = accepted;
                              header = same;
                              transaction = same_number _ _ xids;
                              flags = refl;
                              count = refl;
                              last = last_flag (field 4 block 0x20);
                            };
                            filled = rw read refl;
                            last = if_or _ s.last_flag_seen;
                          }))))))
    where
      count : ℕ
      count = field 4 block 0x24

      last_flag : (flags : ℕ) → has_bit flags 0x1 ≡ (flags % 2 == 1)
      last_flag flags = ground (arith, bit_and_bit 0 flags)

  -- What the trailing superblock settles.
  trailing_step-Settles :
      (block : List ℕ) (address : ℕ) (s : RingState)
      → read_block reader address block_size ≡ ok block
      → Settles
          (λ t.
            (address ≡ selected)
            × IsTrailing reader block_size container address
            × (t.map_blocks ≡ s.map_blocks)
            × (t.mappings ≡ s.mappings)
            × (t.last_flag_seen ≡ s.last_flag_seen)
            × (t.trailing_nxsb_block ≡ address))
          Unit
          (trailing_step reader block_size container selected block address s)
  unfolding trailing_step
  trailing_step-Settles block address s read =
      Settles-bind _ _ (validate_object_block block address _) _
        (validate_object_block_iff block address _).1 (λ e p. tt)
        (λ header p.
          let (accepted, same) = ((validate_object_block_iff block address _).0 header).0 p in
          Settles-reject_if _ _ (not (address == selected)) _ _ (λ t. tt)
            (λ addresses.
              Settles-reject_if _ _ (not (header.xid == container.xid)) _ _ (λ t. tt)
                (λ xids. (
                  same_number _ _ addresses,
                  record {
                    block = block;
                    read = read;
                    accepted = accepted;
                    transaction =
                        sym (ap (λ (h : ObjectHeader). h.xid) same) ∙ same_number _ _ xids;
                  },
                  refl,
                  refl,
                  refl,
                  refl,
                ))))

  -- The state once the blocks before number `offset` are read, none of them the trailing one.
  record Walked (offset : ℕ) (s : RingState) : Type 0 where
    places : addresses s.map_blocks ≡ ring_addresses container offset 0
    maps : All (IsMap reader block_size container) s.map_blocks
    filled : s.mappings ≡ all_slots reader block_size s.map_blocks
    last : s.last_flag_seen ≡ any_last s.map_blocks

  Walked-Adds :
      (offset : ℕ) (s t : RingState)
      → Walked offset s
      → Adds (ring_address container offset) s t
      → Walked (offset + 1) t
  Walked-Adds offset s t w a = record {
    places =
        ap addresses a.pushed
        ∙ addresses-append s.map_blocks a.block
        ∙ ap (λ p. p ++ (a.block.block_address ∷ [])) w.places
        ∙ ap (λ n. ring_addresses container offset 0 ++ (n ∷ [])) a.at
        ∙ sym (ring_addresses-add container offset 0 offset (omega arith))
        ∙ ap (λ n. ring_addresses container n 0) (omega arith);
    maps = subst (All (IsMap reader block_size container)) (sym a.pushed) (
        All-append (IsMap reader block_size container) s.map_blocks (a.block ∷ []) w.maps
          (a.is_map, tt));
    filled =
        a.filled
        ∙ ap
            (λ m.
              m
              ++ slots_in (read_block reader a.block.block_address block_size) a.block.block_address
                  a.block.mapping_count)
            w.filled
        ∙ sym (all_slots-append reader block_size s.map_blocks a.block)
        ∙ sym (ap (all_slots reader block_size) a.pushed);
    last =
        a.last
        ∙ ap (λ b. a.block.last || b) w.last
        ∙ sym (any_last-append s.map_blocks a.block)
        ∙ sym (ap any_last a.pushed);
  }

  -- The state once the whole ring is read.
  record Closed (t : RingState) : Type 0 where
    walked : Walked (container.xp_desc_len - 1) t
    at_selected : ring_address container (container.xp_desc_len - 1) ≡ selected
    ended : IsTrailing reader block_size container selected
    trailing : t.trailing_nxsb_block ≡ selected

  -- The step at number `offset`, for a map and for the trailing superblock.
  module _ (r : IsReader reader) (offset : ℕ) (s : RingState) where
    ring_step-Adds :
        (offset == container.xp_desc_len - 1) ≡ false
        → Settles
            (Adds (ring_address container offset) s)
            Unit
            (ring_step reader block_size container selected offset s)
    unfolding ring_step ring_address
    ring_step-Adds inner = rw inner (
        Settles-bind _ _ (checked (ring_address container offset) _) _ (Returns-checked _ _)
          (λ e p. tt)
          (λ address q.
            let (returns, facts) = read_block-IsBlock reader address block_size r in
            Settles-bind _ _ (read_block reader address block_size) _ returns (λ e p. tt)
              (λ block p.
                let ((full, bytes), low, high) = facts block p in
                subst
                  (λ a.
                    Settles (Adds a s) Unit
                      (map_step reader block_size container selected block address s))
                  (checked-eq-ok _ _ q) (map_step-Adds block address s p (omega arith)))))

    ring_step-Closed :
        (offset == container.xp_desc_len - 1) ≡ true
        → Walked offset s
        → Settles Closed Unit (ring_step reader block_size container selected offset s)
    unfolding ring_step ring_address
    ring_step-Closed final w = rw final (
        Settles-bind _ _ (checked (ring_address container offset) _) _ (Returns-checked _ _)
          (λ e p. tt)
          (λ address q.
            let (returns, facts) = read_block-IsBlock reader address block_size r in
            Settles-bind _ _ (read_block reader address block_size) _ returns (λ e p. tt)
              (λ block p.
                Settles-weaken _ Unit _
                  (trailing_step reader block_size container selected block address s)
                  (closed address (checked-eq-ok _ _ q))
                  (trailing_step-Settles block address s p))))
      where
        closed :
            (address : ℕ)
            → address ≡ ring_address container offset
            → (t : RingState)
            → (address ≡ selected)
              × IsTrailing reader block_size container address
              × (t.map_blocks ≡ s.map_blocks)
              × (t.mappings ≡ s.mappings)
              × (t.last_flag_seen ≡ s.last_flag_seen)
              × (t.trailing_nxsb_block ≡ address)
            → Closed t
        closed address at t (chosen, ended, same_maps, same_mappings, same_last, trailing) =
            record {
              walked =
                  subst (λ n. Walked n t) ((==_iff _ _).0 final)
                    (record {
                      places = ap addresses same_maps ∙ w.places;
                      maps = subst (All (IsMap reader block_size container)) (sym same_maps) w.maps;
                      filled =
                          same_mappings
                          ∙ w.filled
                          ∙ ap (all_slots reader block_size) (sym same_maps);
                      last = same_last ∙ w.last ∙ ap any_last (sym same_maps);
                    });
              at_selected =
                  ap (ring_address container) (sym ((==_iff _ _).0 final)) ∙ sym at ∙ chosen;
              ended = subst (IsTrailing reader block_size container) chosen ended;
              trailing = trailing ∙ chosen;
            }

  ring_loop-Closed :
      (left offset : ℕ) (s : RingState)
      → IsReader reader
      → suc left + offset ≡ container.xp_desc_len
      → Walked offset s
      → Settles Closed Unit (ring_loop reader block_size container selected (suc left) offset s)
  unfolding ring_loop
  ring_loop-Closed zero offset s r h w =
      let step = ring_step-Closed r offset s (ground (arith, h)) w in
      Settles-bind _ _ (ring_step reader block_size container selected offset s) _
        (Settles-Returns _ _ _ step) (λ e p. tt) (λ t p. Settles-ok _ _ _ p step)
  ring_loop-Closed (suc left) offset s r h w =
      let step = ring_step-Adds r offset s (ground (arith, h)) in
      Settles-bind _ _ (ring_step reader block_size container selected offset s) _
        (Settles-Returns _ _ _ step) (λ e p. tt)
        (λ t p.
          ring_loop-Closed left (offset + 1) t r (omega arith)
            (Walked-Adds offset s t w (Settles-ok _ _ _ p step)))

-- A checkpoint that the walk accepts, and what it returns for it.
pub record IsRing (reader : Reader) (block_size : ℕ) (container : ContainerSummary) (selected : ℕ)
    (summary : CheckpointMapSummary) : Type 0 where
  pub some_blocks : 0 < container.xp_desc_len
  pub fits : container.xp_desc_len ≤ container.xp_desc_blocks
  pub places : addresses summary.map_blocks ≡ ring_addresses container (container.xp_desc_len - 1) 0
  pub maps : All (IsMap reader block_size container) summary.map_blocks
  pub filled : summary.mappings ≡ all_slots reader block_size summary.map_blocks
  pub last : summary.last_flag_seen ≡ any_last summary.map_blocks
  pub at_selected : ring_address container (container.xp_desc_len - 1) ≡ selected
  pub ended : IsTrailing reader block_size container selected
  pub trailing : summary.trailing_nxsb_block ≡ selected

-- The walk returns on any source that keeps the contract of `Read`. What it accepts is a ring of
-- 1 up to `xp_desc_blocks` blocks whose last block stands at the selected address and is read there
-- as a superblock of the container's transaction. At each ring address before it a map is read, an
-- object of that kind with its own address as oid and the same transaction; the mappings are those
-- that these maps spell, in order, as many as each one counts, and the last-flag is seen exactly if
-- one of the maps carries it.
pub walk_checkpoint_maps-Settles :
    (reader : Reader) (block_size : ℕ) (container : ContainerSummary) (selected : ℕ)
    → IsReader reader
    → Settles
        (IsRing reader block_size container selected)
        Unit
        (walk_checkpoint_maps reader block_size container selected)
unfolding walk_checkpoint_maps addresses all_slots any_last ring_addresses
walk_checkpoint_maps-Settles reader block_size container selected r =
    Settles-reject_if _ _ (container.xp_desc_blocks == 0 || container.xp_desc_len == 0) _ _
      (λ t. tt)
      (λ some.
        Settles-reject_if _ _ (ltb container.xp_desc_blocks container.xp_desc_len) _ _ (λ t. tt)
          (λ fits.
            let nonempty = not_empty container.xp_desc_blocks container.xp_desc_len some in
            let loop = closed nonempty in
            Settles-bind _ _
              (ring_loop reader block_size container selected container.xp_desc_len 0 start) _
              (Settles-Returns _ _ _ loop) (λ e p. tt)
              (λ t p.
                let c = Settles-ok _ _ _ p loop in
                Settles-reject_if _ _ (t.trailing_nxsb_block == 0) _ _ (λ t. tt)
                  (λ found. record {
                    some_blocks = nonempty;
                    fits = ltb→le _ _ fits;
                    places = c.walked.places;
                    maps = c.walked.maps;
                    filled = c.walked.filled;
                    last = c.walked.last;
                    at_selected = c.at_selected;
                    ended = c.ended;
                    trailing = c.trailing;
                  }))))
  where
    start : RingState
    start = record {
      map_blocks = [];
      mappings = [];
      last_flag_seen = false;
      trailing_nxsb_block = 0;
    }

    not_empty : (a b : ℕ) → a == 0 || b == 0 ≡ false → 0 < b
    not_empty a b h = ground arith

    started : Walked reader block_size container selected 0 start
    started = record { places = refl; maps = tt; filled = refl; last = refl }

    closed :
        0 < container.xp_desc_len
        → Settles
            (Closed reader block_size container selected)
            Unit
            (ring_loop reader block_size container selected container.xp_desc_len 0 start)
    closed h =
        subst
          (λ n.
            Settles (Closed reader block_size container selected) Unit
              (ring_loop reader block_size container selected n 0 start))
          (omega arith)
          (ring_loop-Closed reader block_size container selected (container.xp_desc_len - 1) 0 start
            r (omega arith) started)
