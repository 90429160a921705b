-- ===== src/Cache/Bounded.antt =====
-- The invariant of the block cache, its bound, and what a lookup returns.
use lsm_storage_engine.Common.{
  ℕ, ◌+◌, ◌≤◌, ◌≡◌, refl, ap, sym, ◌∙◌, arith, Bool, true, false, Option, none, some, List, [], ◌∷◌,
  ◌++◌, ltb, if◌then◌else◌, Option-cases, inl, inr, not_ltb→le,
}
use lsm_storage_engine.Cache.{
  BlockKey, BlockData, BlockMap, BlockCache, Held, same_key, find, store, discard, remove_first,
  touch, block_size, get, evict, evict_to_fit, insert, new, queued, counted, after_removal,
}
use lsm_storage_engine.Cache.Map.{
  is_some, contains, Distinct, Unique, total, find-store, find-discard, find-le-total, store-Unique,
  discard-Unique, total-store_new, total-store_old, total-discard, contains-append,
  contains-remove_first, remove_first-Distinct, append-Distinct, empty_of_none, same_key→eq,
  same_key_refl,
}

-- The queue lists each key of the map once, and the count is that of the blocks in the map.
pub record Agree (order : List BlockKey) (map : BlockMap) (bytes : ℕ) : Type 0 where
  pub distinct : Distinct order
  pub unique : Unique map
  pub listed : (k : BlockKey) → contains k order ≡ is_some (find k map)
  pub exact : bytes ≡ total map

abbrev pub IsValid : BlockCache → Type 0
IsValid c = Agree c.order c.map c.current_bytes

-- One round of the eviction.
Agree-discard :
    (k : BlockKey) (order : List BlockKey) (map : BlockMap) (bytes : ℕ)
    → Agree (k ∷ order) map bytes
    → Agree order (discard k map) (after_removal bytes (find k map))
Agree-discard k order map bytes v = record {
  distinct = v.distinct.1;
  unique = discard-Unique k map v.unique;
  listed = λ j. ground (arith, v.listed j, v.distinct.0, find-discard k j map, same_key→eq k j);
  exact = elim (Option-cases (find k map)) [
    | inl absent ↦ absurd (ground (arith, v.listed k, same_key_refl k))
    | inr (b, present) ↦ rw present (omega (arith, total-discard k b map v.unique present, v.exact))
  ];
}

-- Eviction keeps the invariant and ends within the bound: an empty queue leaves no block.
pub evict-Agree :
    (max_bytes : ℕ) (order : List BlockKey) (map : BlockMap) (bytes : ℕ)
    → Agree order map bytes
    → Agree
        (evict max_bytes order map bytes).order
        (evict max_bytes order map bytes).map
        (evict max_bytes order map bytes).bytes
      × ((evict max_bytes order map bytes).bytes ≤ max_bytes)
unfolding evict
evict-Agree max_bytes [] map bytes v =
    (v, rw v.exact (rw (empty_of_none map (λ k. none_of (find k map) (v.listed k))) (omega arith)))
  where
    none_of : (o : Option BlockData) → false ≡ is_some o → o ≡ none
    none_of none h = refl
    none_of (some b) h = cc
evict-Agree max_bytes (k ∷ order) map bytes v = go (ltb max_bytes bytes) refl (
    evict-Agree max_bytes order (discard k map) (after_removal bytes (find k map))
      (Agree-discard k order map bytes v))
  where
    held : Bool → Held
    held b =
        if b
        then evict max_bytes order (discard k map) (after_removal bytes (find k map))
        else record { order = k ∷ order; map = map; bytes = bytes }

    go :
        (b : Bool)
        → ltb max_bytes bytes ≡ b
        → Agree
            (evict max_bytes order (discard k map) (after_removal bytes (find k map))).order
            (evict max_bytes order (discard k map) (after_removal bytes (find k map))).map
            (evict max_bytes order (discard k map) (after_removal bytes (find k map))).bytes
          × ((evict max_bytes order (discard k map) (after_removal bytes (find k map))).bytes
              ≤ max_bytes)
        → Agree (held b).order (held b).map (held b).bytes × ((held b).bytes ≤ max_bytes)
    go true e rest = rest
    go false e rest = (v, not_ltb→le max_bytes bytes e)

touch-Distinct : (k : BlockKey) (order : List BlockKey) → Distinct order → Distinct (touch k order)
unfolding touch
touch-Distinct k order d =
    append-Distinct k (remove_first k order)
      (contains-remove_first k k order d ∙ rw (same_key_refl k)) (remove_first-Distinct k order d)

contains-touch :
    (j k : BlockKey) (order : List BlockKey)
    → Distinct order
    → contains j (touch k order) ≡ (if same_key k j then true else contains j order)
unfolding touch
contains-touch j k order d =
    ground (arith, contains-append j k (remove_first k order), contains-remove_first j k order d)

-- What `insert` hands to the eviction.
Agree-store :
    (k : BlockKey) (block : BlockData) (c : BlockCache)
    → IsValid c
    → Agree
        (queued k (find k c.map) c.order)
        (store k block c.map)
        (counted (find k c.map) c.current_bytes + block_size block)
Agree-store k block c v = elim (Option-cases (find k c.map)) [
  | inl fresh ↦ rw fresh (record {
    distinct = append-Distinct k c.order (v.listed k ∙ rw fresh) v.distinct;
    unique = store-Unique k block c.map v.unique;
    listed =
        λ j. ground (arith, v.listed j, contains-append j k c.order, find-store k j block c.map);
    exact = omega (arith, total-store_new k block c.map fresh, v.exact);
  })
  | inr (previous, old) ↦ rw old (record {
    distinct = touch-Distinct k c.order v.distinct;
    unique = store-Unique k block c.map v.unique;
    listed = λ j.
        ground
          (arith, v.listed j, contains-touch j k c.order v.distinct, find-store k j block c.map);
    exact = omega (
      arith,
      total-store_old k block previous c.map old,
      find-le-total k previous c.map old,
      v.exact,
    );
  })
]

-- `insert` keeps the queue, the map and the count in step, and never holds more than the bound.
pub insert-IsValid :
    (k : BlockKey) (block : BlockData) (c : BlockCache)
    → IsValid c
    → IsValid (insert k block c) × ((insert k block c).current_bytes ≤ c.max_bytes)
unfolding insert evict_to_fit
insert-IsValid k block c v =
    evict-Agree c.max_bytes (queued k (find k c.map) c.order) (store k block c.map)
      (counted (find k c.map) c.current_bytes + block_size block) (Agree-store k block c v)

-- A lookup keeps the invariant; it moves a key that is there to the back of the queue.
pub get-IsValid : (k : BlockKey) (c : BlockCache) → IsValid c → IsValid (get k c).1
unfolding get
get-IsValid k c v = elim (Option-cases (find k c.map)) [
  | inl absent ↦
      rw (absent, get)
        (record { distinct = v.distinct; unique = v.unique; listed = v.listed; exact = v.exact })
  | inr (block, present) ↦
      rw (present, get)
        (record {
          distinct = touch-Distinct k c.order v.distinct;
          unique = v.unique;
          listed = λ j.
              ground (
                arith,
                v.listed j,
                contains-touch j k c.order v.distinct,
                same_key→eq k j,
                present,
              );
          exact = v.exact;
        })
]

get-find : (k : BlockKey) (c : BlockCache) → (get k c).0 ≡ find k c.map
unfolding get
get-find k c = ground arith

-- The block at the back of the queue survives the eviction, if it fits alone.
evict-last :
    (max_bytes : ℕ) (order : List BlockKey) (k : BlockKey) (map : BlockMap) (bytes : ℕ)
    (block : BlockData)
    → Agree (order ++ k ∷ []) map bytes
    → find k map ≡ some block
    → block_size block ≤ max_bytes
    → find k (evict max_bytes (order ++ k ∷ []) map bytes).map ≡ some block
unfolding evict
evict-last max_bytes [] k map bytes block v present fits =
    let rest = Agree-discard k [] map bytes v in
    let alone : discard k map ≡ [] =
      empty_of_none (discard k map) (λ j. none_of (find j (discard k map)) (rest.listed j)) in
    let size : total map ≡ block_size block =
      omega (arith, total-discard k block map v.unique present, ap total alone) in
    ground (arith, v.exact)
  where
    none_of : (o : Option BlockData) → false ≡ is_some o → o ≡ none
    none_of none h = refl
    none_of (some b) h = cc
evict-last max_bytes (x ∷ order) k map bytes block v present fits =
    let other : same_key k x ≡ false = ground (arith, contains-append x k order, v.distinct.0) in
    let kept : find k (discard x map) ≡ some block =
      ground (arith, find-discard x k map, same_key→eq x k, same_key_refl k) in
    ground (
      arith,
      evict-last max_bytes order k (discard x map) (after_removal bytes (find x map)) block
          (Agree-discard x (order ++ k ∷ []) map bytes v) kept fits,
    )

-- A block that fits within the bound is found right after it was inserted.
pub get-insert_self :
    (k : BlockKey) (block : BlockData) (c : BlockCache)
    → IsValid c
    → block_size block ≤ c.max_bytes
    → (get k (insert k block c)).0 ≡ some block
unfolding insert evict_to_fit touch
get-insert_self k block c v fits =
    get-find k (insert k block c) ∙ elim (Option-cases (find k c.map)) [
      | inl fresh ↦ rw fresh (
          evict-last c.max_bytes c.order k (store k block c.map) _ block
            (rw fresh at (Agree-store k block c v)) stored fits)
      | inr (previous, old) ↦ rw old (
          evict-last c.max_bytes (remove_first k c.order) k (store k block c.map) _ block
            (rw old at (Agree-store k block c v)) stored fits)
    ]
  where
    stored : find k (store k block c.map) ≡ some block
    stored = find-store k k block c.map ∙ rw (same_key_refl k)

evict-find :
    (max_bytes : ℕ) (order : List BlockKey) (map : BlockMap) (bytes : ℕ) (j : BlockKey)
    (block : BlockData)
    → find j (evict max_bytes order map bytes).map ≡ some block
    → find j map ≡ some block
unfolding evict
evict-find max_bytes [] map bytes j block h = h
evict-find max_bytes (k ∷ order) map bytes j block h = ground (
  arith,
  evict-find max_bytes order (discard k map) (after_removal bytes (find k map)) j block,
  find-discard k j map,
)

-- After an insertion a lookup that hits returns, at the inserted key, the inserted block, and at
-- any other key the block that a lookup returned before.
pub get-insert_hit :
    (k j : BlockKey) (block found : BlockData) (c : BlockCache)
    → (get j (insert k block c)).0 ≡ some found
    → (if same_key k j then some block else (get j c).0) ≡ some found
unfolding insert evict_to_fit
get-insert_hit k j block found c h =
    let after =
      evict-find c.max_bytes (queued k (find k c.map) c.order) (store k block c.map) _ j found
        (sym (get-find j (insert k block c)) ∙ h) in
    rw (get-find j c) (sym (find-store k j block c.map) ∙ after)

-- A lookup changes nothing that a later lookup returns.
pub get-get : (k j : BlockKey) (c : BlockCache) → (get j (get k c).1).0 ≡ (get j c).0
unfolding get
get-get k j c = ground arith

pub new-IsValid : (max_bytes : ℕ) → IsValid (new max_bytes)
unfolding new find
new-IsValid max_bytes = record { distinct = tt; unique = tt; listed = λ k. refl; exact = refl }
