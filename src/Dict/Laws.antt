-- ===== src/Dict/Laws.antt =====
-- The laws of the map: what `find` and the size are after each operation.
use cpp_util.Prelude.{
  ◌+◌, ◌≡◌, refl, ◌≢◌, none, some, true, false, List, [], ◌∷◌, if_pos, if_neg, arith, length,
}
use cpp_util.Dict.{find, emplace, erase, modify, IsUnique}

module _ {ℓ} {K V : Type ℓ} (dec : Discrete K) where
  pub find-cons_self : (k : K) (v : V) (m : List (K × V)) → find dec k ((k, v) ∷ m) ≡ some v
  unfolding find
  find-cons_self k v m = if_pos (dec k k) refl _ _

  pub find-cons_ne :
      (j k : K) (v : V) (m : List (K × V)) → k ≢ j → find dec j ((k, v) ∷ m) ≡ find dec j m
  unfolding find
  find-cons_ne j k v m h = if_neg (dec k j) h _ _

  pub emplace_absent :
      (k : K) (v : V) (m : List (K × V))
      → find dec k m ≡ none
      → emplace dec k v m ≡ ((k, v) ∷ m, true)
  unfolding emplace
  emplace_absent k v m h = rw (h, emplace)

  pub emplace_present :
      (k : K) (v w : V) (m : List (K × V)) → find dec k m ≡ some w → emplace dec k v m ≡ (m, false)
  unfolding emplace
  emplace_present k v w m h = rw (h, emplace)

  pub find-modify_self :
      (k : K) (f : V → V) (m : List (K × V)) (v : V)
      → find dec k m ≡ some v
      → find dec k (modify dec k f m) ≡ some (f v)
  unfolding find modify
  find-modify_self k f [] v h = ground arith
  find-modify_self k f ((i, w) ∷ m) v h = ground (arith, find-modify_self k f m v)

  pub find-modify_ne :
      (j k : K) (f : V → V) (m : List (K × V))
      → k ≢ j
      → find dec j (modify dec k f m) ≡ find dec j m
  unfolding find modify
  find-modify_ne j k f [] h = refl
  find-modify_ne j k f ((i, w) ∷ m) h = ground (arith, find-modify_ne j k f m h)

  pub find-erase_self :
      (k : K) (m : List (K × V)) → IsUnique dec m → find dec k (erase dec k m) ≡ none
  unfolding find erase
  find-erase_self k [] u = refl
  find-erase_self k ((i, w) ∷ m) u = ground (arith, find-erase_self k m)

  pub find-erase_ne :
      (j k : K) (m : List (K × V)) → k ≢ j → find dec j (erase dec k m) ≡ find dec j m
  unfolding find erase
  find-erase_ne j k [] h = refl
  find-erase_ne j k ((i, w) ∷ m) h = ground (arith, find-erase_ne j k m h)

  find-modify-none :
      (j k : K) (f : V → V) (m : List (K × V))
      → find dec j m ≡ none
      → find dec j (modify dec k f m) ≡ none
  unfolding find modify
  find-modify-none j k f [] h = refl
  find-modify-none j k f ((i, w) ∷ m) h = ground (arith, find-modify-none j k f m)

  find-erase-none :
      (j k : K) (m : List (K × V)) → find dec j m ≡ none → find dec j (erase dec k m) ≡ none
  unfolding find erase
  find-erase-none j k [] h = refl
  find-erase-none j k ((i, w) ∷ m) h = ground (arith, find-erase-none j k m)

  pub modify-IsUnique :
      (k : K) (f : V → V) (m : List (K × V)) → IsUnique dec m → IsUnique dec (modify dec k f m)
  unfolding modify
  modify-IsUnique k f [] u = tt
  modify-IsUnique k f ((i, w) ∷ m) u =
      ground (arith, modify-IsUnique k f m, find-modify-none i k f m)

  pub erase-IsUnique : (k : K) (m : List (K × V)) → IsUnique dec m → IsUnique dec (erase dec k m)
  unfolding erase
  erase-IsUnique k [] u = tt
  erase-IsUnique k ((i, w) ∷ m) u = ground (arith, erase-IsUnique k m, find-erase-none i k m)

  pub length-modify : (k : K) (f : V → V) (m : List (K × V)) → length (modify dec k f m) ≡ length m
  unfolding modify
  length-modify k f [] = refl
  length-modify k f ((i, w) ∷ m) = ground (arith, length-modify k f m)

  -- To erase a key that is there lowers the size by one.
  pub length-erase :
      (k : K) (m : List (K × V)) (v : V)
      → find dec k m ≡ some v
      → length (erase dec k m) + 1 ≡ length m
  unfolding find erase
  length-erase k [] v h = ground arith
  length-erase k ((i, w) ∷ m) v h = ground (arith, length-erase k m v)
