-- ===== src/Queues/HazardQueue/Fifo.antt =====
-- The queue as the list of its values, first in, first out.
pub mod Take
use cpp_util.Prelude.{
  ℕ, zero, suc, ◌+◌, ◌%◌, ◌^◌, ◌<◌, ◌≡◌, refl, ◌≢◌, ap, ◌∙◌, sym, subst, true, false, Option, none,
  some, List, [], ◌∷◌, ◌++◌, length, length-append, ◌==◌, ℕ_discrete, eq→==, ne→==, Returns,
  returns, arith,
}
use cpp_util.Queues.HazardQueue.{
  Ptr, null, update, HazardQueue, hazard_queue, new_node, cas_tail, link, enqueue, claim,
  try_dequeue, empty,
}

module _ {ℓ} {T : Type ℓ} where
  -- The nodes behind `p`, up to the tail, hold the values.
  pub data IsFrom (q : HazardQueue T) : Ptr → List T → Type ℓ where
    last : {p : Ptr} → p ≡ q.tail → q.next p ≡ null → p < q.fresh → IsFrom q p []
    more :
        {p : Ptr} {x : T} {xs : List T}
        → p ≢ q.tail
        → p < q.fresh
        → q.next p ≢ null
        → q.initialized (q.next p) ≡ true
        → q.store (q.next p) ≡ some x
        → IsFrom q (q.next p) xs
        → IsFrom q p (x ∷ xs)

  -- The values of the queue: the head's own, while it is there, and those behind it.
  pub data Holds (q : HazardQueue T) : List T → Type ℓ where
    here :
        {x : T} {xs : List T}
        → q.initialized q.head ≡ true
        → q.store q.head ≡ some x
        → IsFrom q q.head xs
        → Holds q (x ∷ xs)
    behind : {xs : List T} → q.initialized q.head ≡ false → IsFrom q q.head xs → Holds q xs

  -- A queue in order, with the values `xs`; the versions count what went in and out.
  pub record Represents (q : HazardQueue T) (xs : List T) : Type ℓ where
    pub holds : Holds q xs
    pub address : 0 < q.fresh
    pub counted : (q.remove_version + length xs) % 2 ^ 64 ≡ q.insert_version
    pub removed : q.remove_version < 2 ^ 64

  -- The queue behind an enqueue.
  abbrev pub enqueued : T → HazardQueue T → HazardQueue T
  enqueued t q = record q {
    tail = q.fresh;
    next = update (update q.next q.fresh null) q.tail q.fresh;
    store = update q.store q.fresh (some t);
    initialized = update q.initialized q.fresh true;
    fresh = suc q.fresh;
    insert_version = (q.insert_version + 1) % 2 ^ 64;
  }

  IsFrom-lt : {q : HazardQueue T} {p : Ptr} {xs : List T} → IsFrom q p xs → p < q.fresh
  IsFrom-lt (last e n l) = l
  IsFrom-lt (more u l n i s f) = l

  -- The tail ends the chain.
  IsFrom-tail :
      {q : HazardQueue T} {p : Ptr} {xs : List T}
      → IsFrom q p xs
      → (q.next q.tail ≡ null) × (q.tail < q.fresh)
  IsFrom-tail {q = q} (last e n l) = (ap q.next (sym e) ∙ n, ground (arith, e, l))
  IsFrom-tail (more u l n i s f) = IsFrom-tail f

  enqueued-IsFrom :
      (t : T) (q : HazardQueue T) {p : Ptr} {xs : List T}
      → 0 < q.fresh
      → IsFrom q p xs
      → IsFrom (enqueued t q) p (xs ++ t ∷ [])
  enqueued-IsFrom t q {p = p} pos (last e n l) =
      let to : (enqueued t q).next p ≡ q.fresh = ground (arith, e) in
      more (ground (arith, l)) (ground (arith, l)) (ground (arith, to, pos)) (ground (arith, to))
        (ap (enqueued t q).store to ∙ ground arith)
        (last (ground (arith, to)) (ground (arith, to, e, l)) (ground (arith, to)))
  enqueued-IsFrom t q {p = p} pos (more {xs = xs} u l n i s f) =
      let to : (enqueued t q).next p ≡ q.next p = ground (arith, u, l) in
      let below = IsFrom-lt f in
      more (ground (arith, l)) (ground (arith, l)) (ground (arith, to, n))
        (ap (enqueued t q).initialized to ∙ ground (arith, below, i))
        (ap (enqueued t q).store to ∙ rw (ne→== q.fresh (q.next p) (ground (arith, below))) s)
        (subst (λ y. IsFrom (enqueued t q) y (xs ++ t ∷ [])) (sym to) (enqueued-IsFrom t q pos f))

  pub enqueued-Holds :
      (t : T) (q : HazardQueue T) {xs : List T}
      → 0 < q.fresh
      → Holds q xs
      → Holds (enqueued t q) (xs ++ t ∷ [])
  enqueued-Holds t q pos (here i s f) =
      let below = IsFrom-lt f in
      here (ground (arith, i, below)) (rw (ne→== q.fresh q.head (ground (arith, below))) s)
        (enqueued-IsFrom t q pos f)
  enqueued-Holds t q pos (behind i f) =
      behind (ground (arith, i, IsFrom-lt f)) (enqueued-IsFrom t q pos f)

  pub Holds-tail :
      {q : HazardQueue T} {xs : List T} → Holds q xs → (q.next q.tail ≡ null) × (q.tail < q.fresh)
  Holds-tail (here i s f) = IsFrom-tail f
  Holds-tail (behind i f) = IsFrom-tail f

  -- An enqueue into a queue that holds `xs` links the new node at once, and the queue holds `xs`
  -- and then the value.
  pub enqueue-Represents :
      (fuel : ℕ) (t : T) (q : HazardQueue T) (xs : List T)
      → 0 < fuel
      → Represents q xs
      → Returns (λ q'. Represents q' (xs ++ t ∷ [])) (enqueue fuel t q)
  unfolding enqueue link new_node cas_tail
  enqueue-Represents zero t q xs pos r = absurd (omega arith)
  enqueue-Represents (suc fuel) t q xs pos r =
      let (end, below) = Holds-tail r.holds in
      rw
        (
          ne→== q.fresh q.tail (ground (arith, below)),
          eq→== (q.next q.tail) null end,
          eq→== q.tail q.tail refl,
        )
        (returns record {
          holds = enqueued-Holds t q r.address r.holds;
          address = omega arith;
          counted = omega (arith, length-append xs (t ∷ []), r.counted);
          removed = r.removed;
        })

  -- A new queue holds none.
  pub Represents-new : (node : Ptr) → 0 < node → Represents (hazard_queue node) []
  unfolding hazard_queue
  Represents-new node pos = record {
    holds = behind refl (last refl refl (omega arith));
    address = omega arith;
    counted = refl;
    removed = omega arith;
  }

  -- With fewer than 2 ^ 64 values in it, `empty()` is true of a queue that holds none, and false
  -- of any other.
  pub empty-length :
      (q : HazardQueue T) (xs : List T)
      → Represents q xs
      → length xs < 2 ^ 64
      → empty q ≡ (length xs == 0)
  unfolding empty
  empty-length q xs r small = elim (ℕ_discrete (length xs) 0) [
    | yes z ↦
        rw (eq→== (length xs) 0 z)
          (eq→== q.insert_version q.remove_version (omega (arith, r.counted, r.removed, z)))
    | no nz ↦ rw (ne→== (length xs) 0 nz) (
        ne→== q.insert_version q.remove_version
          λ e. omega (arith, e, r.counted, r.removed, nz, small))
  ]
