-- ===== src/Synchro/Hazard/Pointer.antt =====
-- `hazard_ptr`: an owner of at most one hazard record.
use cpp_util.Prelude.{
  ℕ, zero, suc, ◌+◌, ◌≤◌, ◌<◌, ◌⊎◌, inl, inr, ◌∙◌, sym, ℕ_discrete, ◌≡◌, refl, ◌≢◌, ap, false, ◌==◌,
  if◌then◌else◌, Run, ok, fault, undefined, out_of_fuel, Returns, returns, Returns-map, eq→==,
  ne→==, arith,
}
use cpp_util.Synchro.Hazard.{Ptr, null, Hazards, publish, deactivate, activated_record, find}
use cpp_util.Synchro.Hazard.Records.{IsValid, activated_record-Activated, Step, Step-IsValid}

pub record HazardPtr : Type 0 where
  pub ptr : Ptr  -- `ptr_`
  pub rec : Ptr  -- `record_`, null once it is moved from

-- What the move constructor and the move assignment leave of `other`.
abbrev pub moved_from : HazardPtr
moved_from = record { ptr = null; rec = null }

-- The move constructor: the new hazard_ptr, and `other`.
unfoldable pub move : HazardPtr → HazardPtr × HazardPtr
move other = (other, moved_from)

module _ {ℓ} {D : Type ℓ} where
  -- The constructor.
  unfoldable pub hazard_ptr : Hazards D → HazardPtr × Hazards D
  hazard_ptr s = let (rec, a) = activated_record s in (record { ptr = null; rec = rec }, a)

  -- The destructor.
  unfoldable pub destroy : HazardPtr → Hazards D → Hazards D
  destroy h s = if h.rec == null then s else deactivate h.rec s

  -- The move assignment from another object.
  unfoldable pub move_assign : HazardPtr → HazardPtr → Hazards D → HazardPtr × HazardPtr × Hazards D
  unfolding destroy
  move_assign other h s = (other, moved_from, destroy h s)

  -- `acquire(T*)`. The record must not be null.
  unfoldable pub acquire : Ptr → HazardPtr → Hazards D → Run (HazardPtr × Hazards D)
  acquire p h s =
      if h.rec == null then fault undefined else ok (record h { ptr = p }, publish h.rec p s)

  unfoldable pub reset : HazardPtr → Hazards D → Run (HazardPtr × Hazards D)
  unfolding acquire
  reset h s = acquire null h s

  -- The loop of `acquire(const std::atomic<T*>&)`. What `ptr.load` gives is up to the other threads,
  -- which see what is published by then: `load n s` is the `n`th load, made in the state `s`.
  unfoldable pub acquire_loop :
      (ℕ → Hazards D → Ptr) → ℕ → ℕ → Ptr → HazardPtr → Hazards D → Run (HazardPtr × Hazards D)
  acquire_loop load zero n oldval h s = fault out_of_fuel
  acquire_loop load (suc fuel) n oldval h s =
      let a = publish h.rec oldval s in
      let newval = load n a in
      let again = acquire_loop load fuel (suc n) newval h a in
      if newval == oldval then ok (record h { ptr = newval }, a) else again

  unfoldable pub acquire_atomic :
      (ℕ → Hazards D → Ptr) → ℕ → HazardPtr → Hazards D → Run (HazardPtr × Hazards D)
  unfolding acquire_loop
  acquire_atomic load fuel h s =
      if h.rec == null then fault undefined else acquire_loop load fuel 1 (load 0 s) h s

  -- The pointer in `ptr_` is published in the record, a load made in that state has given it, and
  -- nothing else is changed.
  pub record Acquired (load : ℕ → Hazards D → Ptr) (h : HazardPtr) (s : Hazards D) (h' : HazardPtr)
      (s' : Hazards D) : Type ℓ where
    pub confirmed : (n : ℕ) × (load n s' ≡ h'.ptr)
    pub same_rec : h'.rec ≡ h.rec
    pub published :
        (q : Ptr) → s'.protected_ptr q ≡ (if h.rec == q then h'.ptr else s.protected_ptr q)
    pub same_active : s'.active ≡ s.active
    pub same_head : s'.head ≡ s.head

  module _ (load : ℕ → Hazards D → Ptr) (p : Ptr) (k : ℕ)
      (settles : (n : ℕ) (s : Hazards D) → k ≤ n → load n s ≡ p) where
    -- How far the loop is from its end: the loads may still change, or the last one gave `p`.
    abbrev Enough : ℕ → ℕ → Ptr → Type 0
    Enough fuel n old = ((n ≤ k) × (k + 2 ≤ fuel + n)) ⊎ ((old ≡ p) × (k ≤ n) × (0 < fuel))

    goes_on :
        (fuel n : ℕ) (old : Ptr) (s : Hazards D)
        → Enough (suc fuel) n old
        → load n s ≢ old
        → Enough fuel (suc n) (load n s)
    goes_on fuel n old s (inl (early, enough)) other = elim (ℕ_discrete n k) [
      | yes e ↦ inr (settles n s (omega (arith, e)), omega (arith, e), omega (arith, e, enough))
      | no ne ↦ inl (omega (arith, ne, early), omega (arith, enough))
    ]
    goes_on fuel n old s (inr (at, late, enough)) other = absurd (other (settles n s late ∙ sym at))

    acquire_loop-Acquired :
        (fuel n : ℕ) (old : Ptr) (h : HazardPtr) (s : Hazards D)
        → Enough fuel n old
        → Returns (λ (h', s'). Acquired load h s h' s') (acquire_loop load fuel n old h s)
    unfolding acquire_loop
    acquire_loop-Acquired zero n old h s (inl (early, enough)) =
        absurd (omega (arith, early, enough))
    acquire_loop-Acquired zero n old h s (inr (at, late, enough)) = absurd (omega (arith, enough))
    acquire_loop-Acquired (suc fuel) n old h s enough =
        let a = publish h.rec old s in
        elim (ℕ_discrete (load n a) old) [
          | yes e ↦ rw (eq→== (load n a) old e) (
              returns record {
                confirmed = (n, refl);
                same_rec = refl;
                published = λ q. rw e refl;
                same_active = refl;
                same_head = refl;
              })
          | no ne ↦ rw (ne→== (load n a) old ne) (
              Returns-map
                (acquire_loop-Acquired fuel (suc n) (load n a) h a (goes_on fuel n old a enough ne))
                λ (h', s') r. record {
                  confirmed = r.confirmed;
                  same_rec = r.same_rec;
                  published = λ q. ground (arith, r.published q);
                  same_active = r.same_active;
                  same_head = r.same_head;
                })
        ]

    -- A hazard_ptr that is not moved from, and an atomic pointer whose loads from the `k`th on give
    -- one value, whatever they gave before and however they depended on what was published: `acquire`
    -- returns within k + 2 turns. The pointer in `ptr_` is then published in the record, and a load
    -- made after its publication, in the state that is left, has given it; no other record is touched.
    pub acquire_atomic-Acquired :
        (fuel : ℕ) (h : HazardPtr) (s : Hazards D)
        → h.rec ≢ null
        → k + 2 ≤ fuel
        → Returns (λ (h', s'). Acquired load h s h' s') (acquire_atomic load fuel h s)
    unfolding acquire_atomic
    acquire_atomic-Acquired fuel h s owns enough = rw (ne→== h.rec null owns) (
        acquire_loop-Acquired fuel 1 (load 0 s) h s (elim (ℕ_discrete k 0) [
          | yes e ↦ inr (settles 0 s (omega (arith, e)), omega (arith, e), omega (arith, enough))
          | no ne ↦ inl (omega (arith, ne), omega (arith, enough))
        ]))

  -- From a valid state, a new hazard_ptr owns a record that was not in use; destroyed at once, it
  -- leaves each record in use or not as it was, each record's pointer as it was, and a valid state.
  pub destroy-hazard_ptr :
      (s : Hazards D)
      → IsValid s
      → let (h, a) = hazard_ptr s in
        (s.active h.rec ≡ false)
        × IsValid (destroy h a)
        × ((q : Ptr) → (destroy h a).active q ≡ s.active q)
        × ((q : Ptr) → (destroy h a).protected_ptr q ≡ s.protected_ptr q)
  unfolding hazard_ptr destroy deactivate
  destroy-hazard_ptr s v =
      let a = activated_record-Activated s v in
      let rec = (activated_record s).0 in
      let owned : rec ≢ null =
        λ e. cc (ap (λ q. find q (activated_record s).1.head) e, a.present, a.valid.not_null) in
      rw (ne→== rec null owned) (
        a.idle,
        Step-IsValid (activated_record s).1 (deactivate rec (activated_record s).1) a.valid
            (Step.deactivated rec (ground (arith, a.captured rec))),
        λ q. ground (arith, a.captured q, a.idle),
        λ q. ground (arith, a.protection q, v.idle_null rec a.idle),
      )
