-- ===== src/Queues/HazardQueue/Print.antt =====
-- What is printed of a queue is the list of its values.
use cpp_util.Prelude.{
  ℕ, zero, suc, ◌<◌, ◌≡◌, refl, ap, ◌∙◌, sym, true, some, List, [], ◌∷◌, ◌++◌, length, eq→==, ne→==,
  Run, ok, fault, ◌>>=◌, or_else, undefined, arith,
}
use cpp_util.Queues.HazardQueue.{Ptr, HazardQueue, print_from, print}
use cpp_util.Util.Container.{
  Token, left, item, comma, right, container_print, separated, container_print-separated,
}
use cpp_util.Queues.HazardQueue.Fifo.{IsFrom, last, more, Holds, here, behind, Represents}

module _ {ℓ} {T : Type ℓ} where
  -- The loop and the value of the tail behind it.
  abbrev closed : ℕ → Ptr → HazardQueue T → Run (List (Token T))
  closed fuel p q = do
    tokens ← print_from fuel p q
    t ← or_else (q.store q.tail) undefined
    ok (tokens ++ item t ∷ right ∷ [])

  -- What comes before the tokens of the rest can be put there at the end.
  in_front :
      (rest : Run (List (Token T))) (tail : Run T) (w : T)
      → ((rest >>= λ tokens. ok (item w ∷ comma ∷ tokens)) >>= λ tokens.
          tail >>= λ t. ok (tokens ++ item t ∷ right ∷ []))
        ≡ ((rest >>= λ tokens. tail >>= λ t. ok (tokens ++ item t ∷ right ∷ [])) >>= λ tokens.
            ok (item w ∷ comma ∷ tokens))
  in_front (ok tokens) (ok t) w = refl
  in_front (ok tokens) (fault e) w = refl
  in_front (fault e) tail w = refl

  closed-separated :
      (fuel : ℕ) (q : HazardQueue T) {p : Ptr} {w : T} {xs : List T}
      → IsFrom q p xs
      → q.initialized p ≡ true
      → q.store p ≡ some w
      → length xs < fuel
      → closed fuel p q ≡ ok (separated (w ∷ xs))
  unfolding print_from
  closed-separated zero q f i s enough = absurd (omega arith)
  closed-separated (suc fuel) q {p = p} (last e n l) i s enough =
      rw (eq→== p q.tail e, ap q.store (sym e) ∙ s) refl
  closed-separated (suc fuel) q {p = p} {w = w} (more u l n i' s' f) i s enough =
      rw (ne→== p q.tail u, i, s)
        (in_front (print_from fuel (q.next p) q) (or_else (q.store q.tail) undefined) w
          ∙ ap (λ m. m >>= λ tokens. ok (item w ∷ comma ∷ tokens))
              (closed-separated fuel q f i' s' (omega arith)))

  -- A bracket before the rest.
  opened :
      (rest : Run (List (Token T))) (tail : Run T) (tokens : List (Token T))
      → (rest >>= λ before. tail >>= λ t. ok (before ++ item t ∷ right ∷ [])) ≡ ok tokens
      → (rest >>= λ before. tail >>= λ t. ok (left ∷ before ++ item t ∷ right ∷ []))
        ≡ ok (left ∷ tokens)
  opened (ok before) (ok t) tokens e = ap (λ m. m >>= λ ts. ok (left ∷ ts)) e
  opened (ok before) (fault x) tokens e = ap (λ m. m >>= λ ts. ok (left ∷ ts)) e
  opened (fault x) tail tokens e = ap (λ m. m >>= λ ts. ok (left ∷ ts)) e

  print-Holds :
      (fuel : ℕ) (q : HazardQueue T) {xs : List T}
      → Holds q xs
      → length xs < fuel
      → print fuel q ≡ ok (left ∷ separated xs)
  unfolding print print_from
  print-Holds fuel q (here i s (last e n l)) enough = rw (eq→== q.head q.tail e, i, s) refl
  print-Holds fuel q (here i s (more u l n i' s' f)) enough =
      rw (ne→== q.head q.tail u)
        (opened _ _ _ (closed-separated fuel q (more u l n i' s' f) i s (omega arith)))
  print-Holds fuel q (behind i (last e n l)) enough = rw (eq→== q.head q.tail e, i) refl
  print-Holds zero q (behind i (more u l n i' s' f)) enough = absurd (omega arith)
  print-Holds (suc fuel) q (behind i (more u l n i' s' f)) enough =
      rw (ne→== q.head q.tail u, i) (opened _ _ _ (closed-separated fuel q f i' s' (omega arith)))

  -- A queue with the values `xs` is printed as `container_print` prints a container of those values in
  -- the order in which they would be dequeued, when the fuel is above their number.
  pub print-container_print :
      (fuel : ℕ) (q : HazardQueue T) (xs : List T)
      → Represents q xs
      → length xs < fuel
      → print fuel q ≡ ok (container_print xs)
  print-container_print fuel q xs r enough =
      rw (container_print-separated xs) (print-Holds fuel q r.holds enough)
