-- ===== src/Caches/HeapCache/Invariant.antt =====
-- What a heap_cache keeps true: the map and the heap know each other's entries, and no key is
-- counted more often than its parent.
use cpp_util.Prelude.{ℕ, ◌+◌, ◌/◌, ◌≤◌, ◌<◌, ◌≡◌, refl, ◌∙◌, Option, none, some, length, get_elem?}
use cpp_util.Dict.{find, IsUnique}
use cpp_util.Caches.HeapCache.{Citem, HeapCache}

-- The place of `c` is a child's of the place of `d`.
abbrev pub IsEdge {ℓ} : {V : Type ℓ} → Citem V → Citem V → Type 0
IsEdge d c = (1 < c.loc) × (d.loc ≡ c.loc / 2)

module _ {ℓ} {K V : Type ℓ} (dec : Discrete K) where
  -- An item's `loc` is its key's place in the heap, and every place but 0 is some item's.
  pub record IsLinked (h : HeapCache K V) : Type ℓ where
    pub unique : IsUnique dec h.keymap
    pub located :
        (k : K) (c : Citem V)
        → find dec k h.keymap ≡ some c
        → (0 < c.loc) × (c.loc < length h.heap) × (get_elem? h.heap c.loc ≡ some k)
    pub held :
        (i : ℕ) (k : K)
        → 0 < i
        → get_elem? h.heap i ≡ some k
        → (c : Citem V) × (find dec k h.keymap ≡ some c) × (c.loc ≡ i)

  abbrev pub IsOrdered : HeapCache K V → Type ℓ
  IsOrdered h =
      (k p : K) (c d : Citem V)
      → find dec k h.keymap ≡ some c
      → find dec p h.keymap ≡ some d
      → IsEdge d c
      → c.count ≤ d.count

  -- All but the bound on the size, which `set_max_size` changes first.
  pub record IsSound (key0 : K) (h : HeapCache K V) : Type ℓ where
    pub linked : IsLinked h
    pub ordered : IsOrdered h
    pub sized : length h.keymap + 1 ≡ length h.heap
    pub sentinel : get_elem? h.heap 0 ≡ some key0

  pub record IsValid (key0 : K) (h : HeapCache K V) : Type ℓ where
    pub sound : IsSound key0 h
    pub bounded : length h.keymap ≤ h.max_size

-- What a caller can know of an item: its value and its count, but not its place.
abbrev pub facts {ℓ} : {V : Type ℓ} → Option (Citem V) → Option (V × ℕ)
facts none = none
facts (some c) = some (c.val, c.count)

-- Two caches that differ at most in the places of their keys.
pub record IsSame {ℓ} {K V : Type ℓ} (dec : Discrete K) (h h' : HeapCache K V) : Type ℓ where
  pub entries : length h'.keymap ≡ length h.keymap
  pub places : length h'.heap ≡ length h.heap
  pub limit : h'.max_size ≡ h.max_size
  pub bottom : get_elem? h'.heap 0 ≡ get_elem? h.heap 0
  pub kept : (j : K) → facts (find dec j h'.keymap) ≡ facts (find dec j h.keymap)

pub IsSame-refl {ℓ} : {K V : Type ℓ} (dec : Discrete K) (h : HeapCache K V) → IsSame dec h h
IsSame-refl dec h = record {
  entries = refl;
  places = refl;
  limit = refl;
  bottom = refl;
  kept = λ j. refl;
}

pub IsSame-trans {ℓ} :
    {K V : Type ℓ} (dec : Discrete K) {a b c : HeapCache K V}
    → IsSame dec a b
    → IsSame dec b c
    → IsSame dec a c
IsSame-trans dec p q = record {
  entries = q.entries ∙ p.entries;
  places = q.places ∙ p.places;
  limit = q.limit ∙ p.limit;
  bottom = q.bottom ∙ p.bottom;
  kept = λ j. q.kept j ∙ p.kept j;
}
