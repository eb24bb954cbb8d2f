-- ===== src/Queues/HazardQueue/Threads/Kept.antt =====
-- Which values are still there: those behind the head, and none of a node that is retired, unless a
-- thread is about to claim it.
use cpp_util.Prelude.{
  ℕ, ◌<◌, ◌≡◌, refl, ◌≢◌, ◌⊎◌, inl, inr, ap, ◌∙◌, sym, Bool, true, false, some, [], ◌∷◌, ◌++◌,
  arith, ℕ_discrete, subst, eq→==, ne→==,
}
use cpp_util.Queues.HazardQueue.{Ptr, update, HazardQueue}
use cpp_util.Queues.HazardQueue.Interleaved.{moved}
use cpp_util.Queues.HazardQueue.Threads.{Worker, removing, Machine, times}
use cpp_util.Queues.HazardQueue.Threads.Shape.{shape, Order, WasHead}
use cpp_util.Queues.HazardQueue.Threads.Facts.{owned}
use cpp_util.Queues.HazardQueue.Threads.Retired.{times-append}
use cpp_util.Queues.HazardQueue.Threads.Sound.{IsSound, owned-IsPrivate}

module _ {ℓ} {T : Type ℓ} where
  -- A retired node that nobody has claimed yet is in the hands of the thread that retired it.
  abbrev pub Settled : (Ptr → Bool) → (ℕ → Worker T) → Ptr → Type ℓ
  Settled taken threads p = (taken p ≡ true) ⊎ ((i : ℕ) × (threads i ≡ removing (moved p)))

  pub record IsKept (m : Machine T) (o : Order) : Type ℓ where
    pub gone : (p : Ptr) → o.linked p ≡ true → m.queue.initialized p ≡ false → m.taken p ≡ true
    pub behind :
        (p : Ptr)
        → o.linked p ≡ true
        → times p m.queue.retired ≡ 0
        → p ≢ m.queue.head
        → (m.queue.initialized p ≡ true) × (m.taken p ≡ false)
    pub waiting : (p : Ptr) → 0 < times p m.queue.retired → Settled m.taken m.threads p
    pub own :
        (i : ℕ) (n : Ptr)
        → owned (m.threads i) ≡ some n
        → (m.queue.initialized n ≡ true) × (m.taken n ≡ false)

  module _ {m : Machine T} {o : Order} (v : IsSound m o) (k : IsKept m o) (i : ℕ)
      (w : Worker T) where
    -- A thread that goes on leaves a node settled, unless it was about to claim it.
    pub still-Settled :
        (p : Ptr) (taken : Ptr → Bool)
        → m.threads i ≢ removing (moved p)
        → (m.taken p ≡ true → taken p ≡ true)
        → Settled m.taken m.threads p
        → Settled taken (update m.threads i w) p
    still-Settled p taken other grows (inl h) = inl (grows h)
    still-Settled p taken other grows (inr (j, e)) =
        inr (j, rw (ne→== i j (λ same. other (ap m.threads same ∙ e))) e)

    -- What is private to the threads behind a step of this one.
    pub still_own :
        (P : Ptr → Type 0)
        → ((n : Ptr) → owned w ≡ some n → P n)
        → ((j : ℕ) (n : Ptr) → i ≢ j → owned (m.threads j) ≡ some n → P n)
        → (j : ℕ) (n : Ptr) → owned (update m.threads i w j) ≡ some n
        → P n
    still_own P mine others j n = elim (ℕ_discrete i j) [
      | yes e ↦ λ h. mine n (rw (eq→== i j e) at h)
      | no ne ↦ λ h. others j n ne (rw (ne→== i j ne) at h)
    ]

    -- A step that leaves the values, the head and what is retired as they are.
    pub stepped-IsKept :
        (q : HazardQueue T)
        → q.initialized ≡ m.queue.initialized
        → q.head ≡ m.queue.head
        → q.retired ≡ m.queue.retired
        → ((p : Ptr) → m.threads i ≢ removing (moved p))
        → ((n : Ptr) → owned w ≡ some n → owned (m.threads i) ≡ some n)
        → IsKept
            (record { queue = q; live = m.live; threads = update m.threads i w; taken = m.taken })
            o
    stepped-IsKept q values head retired other mine = record {
      gone = λ p h e. k.gone p h (ap (λ f. f p) (sym values) ∙ e);
      behind = λ p h none_left ne.
          let (there, left) =
            k.behind p h (ap (times p) (sym retired) ∙ none_left) (λ e. ne (e ∙ sym head)) in
          (ap (λ f. f p) values ∙ there, left);
      waiting = λ p h.
          still-Settled p m.taken (other p) (λ e. e)
            (k.waiting p (subst (λ rs. 0 < times p rs) retired h));
      own =
          still_own (λ n. (q.initialized n ≡ true) × (m.taken n ≡ false))
            (λ n h.
              let (there, left) = k.own i n (mine n h) in (ap (λ f. f n) values ∙ there, left))
            (λ j n ne h. let (there, left) = k.own j n h in (ap (λ f. f n) values ∙ there, left));
    }

    -- The value of a node that was the head is claimed, or has been.
    pub taken-IsKept :
        (h : Ptr) (initialized taken : Ptr → Bool)
        → WasHead (shape m.queue m.live) o h
        → taken h ≡ true
        → ((p : Ptr) → h ≢ p → (initialized p ≡ m.queue.initialized p) × (taken p ≡ m.taken p))
        → ((p : Ptr) → h ≢ p → m.threads i ≢ removing (moved p))
        → ((n : Ptr) → owned w ≢ some n)
        → IsKept
            (record {
              queue = record m.queue { initialized = initialized };
              live = m.live;
              threads = update m.threads i w;
              taken = taken;
            })
            o
    taken-IsKept h initialized taken was claimed_now same other none_mine = record {
      gone = λ p l e. elim (ℕ_discrete h p) [
        | yes eq ↦ subst (λ x. taken x ≡ true) eq claimed_now
        | no ne ↦ let (a, b) = same p ne in b ∙ k.gone p l (sym a ∙ e)
      ];
      behind = λ p l none_left ne.
          let differ : h ≢ p =
            λ e. ne (sym e ∙ was.at_head (ap (λ x. times x m.queue.retired) e ∙ none_left)) in
          let (a, b) = same p differ in
          let (there, left) = k.behind p l none_left ne in (a ∙ there, b ∙ left);
      waiting = λ p waits. elim (ℕ_discrete h p) [
        | yes eq ↦ inl (subst (λ x. taken x ≡ true) eq claimed_now)
        | no ne ↦ still-Settled p taken (other p ne) (λ e. (same p ne).1 ∙ e) (k.waiting p waits)
      ];
      own =
          still_own (λ n. (initialized n ≡ true) × (taken n ≡ false))
            (λ n e. absurd (none_mine n e))
            (λ j n ne e.
              let hidden = owned-IsPrivate (m.threads j) (v.knows j) e in
              let differ : h ≢ n =
                λ eq. ground (arith, was.in_order, ap o.linked eq, hidden.unlinked) in
              let (a, b) = same n differ in
              let (there, left) = k.own j n e in (a ∙ there, b ∙ left));
    }

    -- The head moves on from `h`, and the thread is about to claim that node.
    pub moved-IsKept :
        (h n : Ptr)
        → m.queue.head ≡ h
        → w ≡ removing (moved h)
        → ((p : Ptr) → m.threads i ≢ removing (moved p))
        → IsKept
            (record {
              queue = record m.queue { head = n; retired = m.queue.retired ++ h ∷ [] };
              live = m.live;
              threads = update m.threads i w;
              taken = m.taken;
            })
            o
    moved-IsKept h n at_head now other = record {
      gone = k.gone;
      behind = λ p l none_left ne.
          k.behind p l (ground (arith, times-append p m.queue.retired h, none_left))
            (λ e. ground (arith, times-append p m.queue.retired h, none_left, e, at_head));
      waiting = λ p waits. elim (ℕ_discrete h p) [
        | yes eq ↦ inr (i, rw (eq→== i i refl) (now ∙ ap (λ x. removing (moved x)) eq))
        | no ne ↦
            still-Settled p m.taken (other p) (λ e. e)
              (k.waiting p (ground (arith, times-append p m.queue.retired h, waits, ne)))
      ];
      own =
          still_own (λ r. (m.queue.initialized r ≡ true) × (m.taken r ≡ false))
            (λ r e. ground (arith, ap owned now, e)) (λ j r ne e. k.own j r e);
    }
