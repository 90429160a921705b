-- ===== src/Cache/Map.antt =====
-- The map and the queue of the block cache.
use lsm_storage_engine.Common.{
  ℕ, ◌+◌, ◌≤◌, ◌≡◌, refl, arith, Bool, true, false, Option, none, some, List, [], ◌∷◌, ◌++◌,
  if◌then◌else◌,
}
use lsm_storage_engine.Cache.{
  BlockKey, BlockData, BlockMap, same_key, find, store, discard, remove_first, block_size,
}

pub same_key→eq : (a b : BlockKey) → same_key a b ≡ true → a ≡ b
same_key→eq a b h = ground arith

pub same_key_refl : (a : BlockKey) → same_key a a ≡ true
same_key_refl a = ground arith

abbrev pub is_some {ℓ} : {A : Type ℓ} → Option A → Bool
is_some none = false
is_some (some a) = true

abbrev pub contains : BlockKey → List BlockKey → Bool
contains k [] = false
contains k (j ∷ order) = if same_key j k then true else contains k order

-- No key stands twice in the queue, nor in the map.
abbrev pub Distinct : List BlockKey → Type 0
Distinct [] = Unit
Distinct (k ∷ order) = (contains k order ≡ false) × Distinct order

abbrev pub Unique : BlockMap → Type 0
Unique [] = Unit
Unique ((k, b) ∷ m) = (find k m ≡ none) × Unique m

abbrev pub total : BlockMap → ℕ
total [] = 0
total ((k, b) ∷ m) = block_size b + total m

pub find-store :
    (k j : BlockKey) (b : BlockData) (m : BlockMap)
    → find j (store k b m) ≡ (if same_key k j then some b else find j m)
unfolding find store
find-store k j b [] = refl
find-store k j b ((i, c) ∷ m) = ground (arith, find-store k j b m)

pub find-discard :
    (k j : BlockKey) (m : BlockMap)
    → find j (discard k m) ≡ (if same_key k j then none else find j m)
unfolding find discard
find-discard k j [] = ground arith
find-discard k j ((i, c) ∷ m) = ground (arith, find-discard k j m)

pub store-Unique : (k : BlockKey) (b : BlockData) (m : BlockMap) → Unique m → Unique (store k b m)
unfolding find store
store-Unique k b [] u = (refl, tt)
store-Unique k b ((i, c) ∷ m) (h, u) = ground (arith, find-store k i b m, store-Unique k b m u)

pub discard-Unique : (k : BlockKey) (m : BlockMap) → Unique m → Unique (discard k m)
unfolding discard
discard-Unique k [] u = tt
discard-Unique k ((i, c) ∷ m) (h, u) = ground (arith, find-discard k i m, discard-Unique k m u)

pub total-store_new :
    (k : BlockKey) (b : BlockData) (m : BlockMap)
    → find k m ≡ none
    → total (store k b m) ≡ total m + block_size b
unfolding find store
total-store_new k b [] h = omega arith
total-store_new k b ((i, c) ∷ m) h = ground (arith, total-store_new k b m)

pub total-store_old :
    (k : BlockKey) (b previous : BlockData) (m : BlockMap)
    → find k m ≡ some previous
    → total (store k b m) + block_size previous ≡ total m + block_size b
unfolding find store
total-store_old k b p [] h = cc
total-store_old k b p ((i, c) ∷ m) h = ground (arith, total-store_old k b p m)

discard_absent : (k : BlockKey) (m : BlockMap) → find k m ≡ none → discard k m ≡ m
unfolding find discard
discard_absent k [] h = refl
discard_absent k ((i, c) ∷ m) h = ground (arith, discard_absent k m)

pub total-discard :
    (k : BlockKey) (b : BlockData) (m : BlockMap)
    → Unique m
    → find k m ≡ some b
    → total (discard k m) + block_size b ≡ total m
unfolding find discard
total-discard k b [] u h = cc
total-discard k b ((i, c) ∷ m) (hi, u) h =
    ground (arith, total-discard k b m u, discard_absent k m, same_key→eq i k)

pub contains-append :
    (j k : BlockKey) (order : List BlockKey)
    → contains j (order ++ k ∷ []) ≡ (if same_key k j then true else contains j order)
contains-append j k [] = ground arith
contains-append j k (i ∷ order) = ground (arith, contains-append j k order)

pub contains-remove_first :
    (j k : BlockKey) (order : List BlockKey)
    → Distinct order
    → contains j (remove_first k order) ≡ (if same_key k j then false else contains j order)
unfolding remove_first
contains-remove_first j k [] d = ground arith
contains-remove_first j k (i ∷ order) (h, d) =
    ground (arith, contains-remove_first j k order d, same_key→eq i k, same_key→eq k j)

pub remove_first-Distinct :
    (k : BlockKey) (order : List BlockKey) → Distinct order → Distinct (remove_first k order)
unfolding remove_first
remove_first-Distinct k [] d = tt
remove_first-Distinct k (i ∷ order) (h, d) =
    ground (arith, remove_first-Distinct k order d, contains-remove_first i k order d)

pub append-Distinct :
    (k : BlockKey) (order : List BlockKey)
    → contains k order ≡ false
    → Distinct order
    → Distinct (order ++ k ∷ [])
append-Distinct k [] h d = (refl, tt)
append-Distinct k (i ∷ order) h (hi, d) =
    ground (arith, append-Distinct k order, contains-append i k order)

pub empty_of_none : (m : BlockMap) → ((k : BlockKey) → find k m ≡ none) → m ≡ []
unfolding find
empty_of_none [] h = refl
empty_of_none ((k, b) ∷ m) h = ground (arith, h k)

pub find-le-total :
    (k : BlockKey) (b : BlockData) (m : BlockMap) → find k m ≡ some b → block_size b ≤ total m
unfolding find
find-le-total k b [] h = cc
find-le-total k b ((i, c) ∷ m) h = ground (arith, find-le-total k b m)
