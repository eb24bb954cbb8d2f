-- ===== src/Queues/HazardQueue/Threads/Sound.antt =====
-- A machine whose nodes are in order and whose threads know what their places say of them.
use cpp_util.Prelude.{
  ℕ, ◌≡◌, ◌≢◌, ◌⊎◌, inl, inr, ◌∙◌, sym, Bool, Option, some, arith, ℕ_discrete, subst, eq→==, ne→==,
}
use cpp_util.Queues.HazardQueue.{Ptr, update, HazardQueue}
use cpp_util.Queues.HazardQueue.Threads.{
  called, made, holding, helping, linked, counting, done, Worker, idle, inserting, removing, hazard,
  Machine,
}
use cpp_util.Queues.HazardQueue.Threads.Shape.{Shape, shape, Order, IsPrivate, IsOrdered}
use cpp_util.Queues.HazardQueue.Threads.Facts.{owned, Knows, Keeps, Keeps-Knows}

pub keep : (mine held : Option Ptr) (s : Shape) (o : Order) → Keeps mine held s o s o
keep mine held s o = record {
  private = λ n e h. h;
  in_order = λ p e h. h;
  leads = λ p m e h. h;
  was_head = λ p e h. h;
  beyond = λ p e h ne. ne;
}

module _ {ℓ} {T : Type ℓ} where
  pub record IsSound (m : Machine T) (o : Order) : Type ℓ where
    pub ordered : IsOrdered (shape m.queue m.live) o
    pub knows : (i : ℕ) → Knows (shape m.queue m.live) o (m.threads i)
    pub own :
        (i j : ℕ) (n : Ptr) → owned (m.threads i) ≡ some n → owned (m.threads j) ≡ some n → i ≡ j

  pub owned-IsPrivate :
      {s : Shape} {o : Order} {n : Ptr} (w : Worker T)
      → Knows s o w
      → owned w ≡ some n
      → IsPrivate s o n
  owned-IsPrivate {s} {o} (inserting (made k)) f e = subst (IsPrivate s o) (ground (arith, e)) f
  owned-IsPrivate {s} {o} (inserting (holding k p)) f e =
      subst (IsPrivate s o) (ground (arith, e)) f.0
  owned-IsPrivate {s} {o} (inserting (helping k p r)) f e =
      subst (IsPrivate s o) (ground (arith, e)) f.0
  owned-IsPrivate (inserting (called t)) f e = cc
  owned-IsPrivate (inserting (linked k p)) f e = cc
  owned-IsPrivate (inserting counting) f e = cc
  owned-IsPrivate (inserting done) f e = cc
  owned-IsPrivate (removing turn) f e = cc
  owned-IsPrivate idle f e = cc

  pub Knows-here :
      {m : Machine T} {o : Order} (v : IsSound m o) (i : ℕ) {w : Worker T}
      → m.threads i ≡ w
      → Knows (shape m.queue m.live) o w
  Knows-here {m = m} {o = o} v i e = subst (Knows (shape m.queue m.live) o) e (v.knows i)

  -- The thread `i` goes on to `w`, and what it does to the nodes keeps what the others know.
  module _ {m : Machine T} {o : Order} (v : IsSound m o) (i : ℕ) (w : Worker T) where
    pub gone_on :
        (q : HazardQueue T) (live taken : Ptr → Bool) (o' : Order)
        → IsOrdered (shape q live) o'
        → ((j : ℕ)
            → i ≢ j
            → Keeps
                (owned (m.threads j))
                (hazard (m.threads j))
                (shape m.queue m.live)
                o
                (shape q live)
                o')
        → Knows (shape q live) o' w
        → ((n : Ptr)
            → owned w ≡ some n
            → (owned (m.threads i) ≡ some n) ⊎ ((j : ℕ) → owned (m.threads j) ≢ some n))
        → IsSound
            (record { queue = q; live = live; threads = update m.threads i w; taken = taken })
            o'
    gone_on q live taken o' ordered keeps knows new = record {
      ordered = ordered;
      knows = λ j. elim (ℕ_discrete i j) [
        | yes e ↦ rw (eq→== i j e) knows
        | no ne ↦ rw (ne→== i j ne) (Keeps-Knows (m.threads j) (keeps j ne) (v.knows j))
      ];
      own = λ j k n a b. elim (ℕ_discrete i j) [
        | yes e ↦ elim (ℕ_discrete i k) [
          | yes e' ↦ sym e ∙ e'
          | no ne ↦ absurd (no_clash k n ne (rw (eq→== i j e) at a) (rw (ne→== i k ne) at b))
        ]
        | no ne ↦ elim (ℕ_discrete i k) [
          | yes e ↦ absurd (no_clash j n ne (rw (eq→== i k e) at b) (rw (ne→== i j ne) at a))
          | no ne' ↦ v.own j k n (rw (ne→== i j ne) at a) (rw (ne→== i k ne') at b)
        ]
      ];
    }
      where
        no_clash : (k : ℕ) (n : Ptr) → i ≢ k → owned w ≡ some n → owned (m.threads k) ≡ some n → ⊥
        no_clash k n ne mine other = elim (new n mine) [
          | inl before ↦ ne (v.own i k n before other)
          | inr nobody ↦ nobody k other
        ]

    -- Nothing that the order depends on is changed.
    pub stepped :
        (q : HazardQueue T) (taken : Ptr → Bool)
        → shape q m.live ≡ shape m.queue m.live
        → Knows (shape m.queue m.live) o w
        → ((n : Ptr) → owned w ≡ some n → owned (m.threads i) ≡ some n)
        → IsSound
            (record { queue = q; live = m.live; threads = update m.threads i w; taken = taken })
            o
    stepped q taken same knows new =
        gone_on q m.live taken o (rw same v.ordered) (λ j ne. rw same (keep _ _ _ _))
          (rw same knows) (λ n e. inl (new n e))
