-- ===== src/Util/Container.antt =====
-- src/util/util.hpp: `container_print`, which writes the elements of a container into a string.
use cpp_util.Prelude.{◌≡◌, refl, ap, List, [], ◌∷◌, ◌++◌}

-- What is written: the brackets, the elements, and a comma and a blank.
pub data Token {ℓ} (T : Type ℓ) : Type ℓ where
  left : Token T
  item : T → Token T
  comma : Token T
  right : Token T

module _ {ℓ} {T : Type ℓ} where
  -- The loop from the second element on.
  unfoldable pub print_elements : List T → List (Token T)
  print_elements [] = []
  print_elements (x ∷ xs) = comma ∷ item x ∷ print_elements xs

  unfoldable pub container_print : List T → List (Token T)
  unfolding print_elements
  container_print [] = left ∷ [] ++ right ∷ []
  container_print (x ∷ xs) = left ∷ (item x ∷ print_elements xs) ++ right ∷ []

  -- The values with commas between them, and a bracket behind them.
  abbrev pub separated : List T → List (Token T)
  separated [] = right ∷ []
  separated (x ∷ []) = item x ∷ right ∷ []
  separated (x ∷ y ∷ xs) = item x ∷ comma ∷ separated (y ∷ xs)

  print_elements-separated :
      (x : T) (xs : List T) → (item x ∷ print_elements xs) ++ right ∷ [] ≡ separated (x ∷ xs)
  unfolding print_elements
  print_elements-separated x [] = refl
  print_elements-separated x (y ∷ xs) =
      ap (λ tokens. item x ∷ comma ∷ tokens) (print_elements-separated y xs)

  pub container_print-separated : (xs : List T) → container_print xs ≡ left ∷ separated xs
  unfolding container_print
  container_print-separated [] = refl
  container_print-separated (x ∷ xs) = ap (λ tokens. left ∷ tokens) (print_elements-separated x xs)
