-- ===== src/Queues/HazardQueue/Fifo/Take.antt =====
-- `try_dequeue` of Queues/HazardQueue.antt takes the first of the values.
use cpp_util.Prelude.{
  ℕ, zero, suc, ◌+◌, ◌%◌, ◌^◌, ◌<◌, ◌≡◌, refl, true, false, Option, none, some, List, [], ◌∷◌, ◌++◌,
  eq→==, ne→==, Returns, returns, arith,
}
use cpp_util.Queues.HazardQueue.{Ptr, null, update, HazardQueue, claim, try_dequeue}
use cpp_util.Queues.HazardQueue.Fifo.{IsFrom, last, more, Holds, here, behind, Represents}

module _ {ℓ} {T : Type ℓ} where
  -- What `try_dequeue` gives of a queue with the values `xs`.
  abbrev pub Dequeued : List T → Option T × HazardQueue T → Type ℓ
  Dequeued [] (o, q) = (o ≡ none) × Represents q []
  Dequeued (x ∷ xs) (o, q) = (o ≡ some x) × Represents q xs

  -- Neither the head, nor the count, nor what is retired has a part in a chain.
  pub rehead :
      (h : Ptr) (v : ℕ) (rs : List Ptr) {q : HazardQueue T} {p : Ptr} {xs : List T}
      → IsFrom q p xs
      → IsFrom (record q { head = h; remove_version = v; retired = rs }) p xs
  rehead h v rs (last e n l) = last e n l
  rehead h v rs (more u l n i s f) = more u l n i s (rehead h v rs f)

  -- The value of the only node is taken.
  pub taken-last :
      (q : HazardQueue T) {x : T}
      → Represents q (x ∷ [])
      → q.head ≡ q.tail
      → q.next q.head ≡ null
      → q.head < q.fresh
      → Represents
          (record q {
            initialized = update q.initialized q.head false;
            remove_version = (q.remove_version + 1) % 2 ^ 64;
          })
          []
  taken-last q r e n l = record {
    holds = behind (ground arith) (last e n l);
    address = r.address;
    counted = omega (arith, r.counted, r.removed);
    removed = omega arith;
  }

  -- The value of the head is taken, and the head moves on.
  pub taken-more :
      (q : HazardQueue T) (rs : List Ptr) {x y : T} {xs : List T}
      → Represents q (x ∷ y ∷ xs)
      → q.initialized (q.next q.head) ≡ true
      → q.store (q.next q.head) ≡ some y
      → IsFrom q (q.next q.head) xs
      → Represents
          (record q {
            head = q.next q.head;
            retired = rs;
            remove_version = (q.remove_version + 1) % 2 ^ 64;
          })
          (y ∷ xs)
  taken-more q rs r i s f = record {
    holds = here i s (rehead _ _ rs f);
    address = r.address;
    counted = omega (arith, r.counted, r.removed);
    removed = omega arith;
  }

  -- A head without a value is left behind.
  pub skipped :
      (q : HazardQueue T) (rs : List Ptr) {x : T} {xs : List T}
      → Represents q (x ∷ xs)
      → q.initialized (q.next q.head) ≡ true
      → q.store (q.next q.head) ≡ some x
      → IsFrom q (q.next q.head) xs
      → Represents (record q { head = q.next q.head; retired = rs }) (x ∷ xs)
  skipped q rs r i s f = record {
    holds = here i s (rehead _ q.remove_version rs f);
    address = r.address;
    counted = r.counted;
    removed = r.removed;
  }

  -- The head has its value.
  here-Dequeued :
      (fuel : ℕ) (q : HazardQueue T) {x : T} {xs : List T}
      → Represents q (x ∷ xs)
      → q.initialized q.head ≡ true
      → q.store q.head ≡ some x
      → IsFrom q q.head xs
      → Returns (Dequeued (x ∷ xs)) (try_dequeue (suc fuel) q)
  unfolding try_dequeue claim
  here-Dequeued fuel q r i s (last e n l) =
      rw (eq→== q.head q.tail e, i) (returns (s, taken-last q r e n l))
  here-Dequeued fuel q r i s (more u l n i' s' f) =
      rw (ne→== q.head q.tail u, ne→== (q.next q.head) null n, i)
        (returns (s, taken-more q _ r i' s' f))

  -- `try_dequeue` of a queue that holds some values gives the first and leaves the others; of a
  -- queue that holds none it gives none and leaves none. Two turns of the loop are enough.
  pub try_dequeue-Dequeued :
      (fuel : ℕ) (q : HazardQueue T) (xs : List T)
      → 1 < fuel
      → Represents q xs
      → Returns (Dequeued xs) (try_dequeue fuel q)
  unfolding try_dequeue claim
  try_dequeue-Dequeued zero q xs enough r = absurd (omega arith)
  try_dequeue-Dequeued (suc zero) q xs enough r = absurd (omega arith)
  try_dequeue-Dequeued (suc (suc fuel)) q xs enough r = go xs r.holds r
    where
      go :
          (ys : List T)
          → Holds q ys
          → Represents q ys
          → Returns (Dequeued ys) (try_dequeue (suc (suc fuel)) q)
      go _ (here i s f) r' = here-Dequeued (suc fuel) q r' i s f
      go _ (behind i (last e n l)) r' = rw (eq→== q.head q.tail e, i) (returns (refl, r'))
      go _ (behind i (more u l n i' s' f)) r' =
          let rs = q.retired ++ q.head ∷ [] in
          rw (ne→== q.head q.tail u, ne→== (q.next q.head) null n, i)
            (here-Dequeued fuel (record q { head = q.next q.head; retired = rs })
              (skipped q rs r' i' s' f) i' s' (rehead _ q.remove_version rs f))
