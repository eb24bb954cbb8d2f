-- ===== src/Queues/SharedQueue/Destroy/Prepare.antt =====
-- src/queues/shared_queue.tpp: what comes before the loop of `~shared_queue`.
use cpp_util.Prelude.{
  ℕ, suc, ◌+◌, ◌-◌, ◌<◌, ◌≡◌, refl, ◌≢◌, ap, ◌∙◌, sym, true, List, [], ◌∷◌, ◌==◌, if◌then◌else◌, ok,
  Returns, returns, eq→==, ne→==, ℕ_discrete, arith,
}
use cpp_util.Queues.HazardQueue.{Ptr, null, update}
use cpp_util.Queues.SharedQueue.Destroy.{Nodes, acquire, clear_next, prepare}
use cpp_util.Queues.SharedQueue.Destroy.Release.{
  clear_next-null, fewer, touch-ok, clear_next_shared, update_other,
}
use cpp_util.Queues.SharedQueue.Destroy.Between.{IsHeld, IsNew, Rest}
use cpp_util.Queues.SharedQueue.Destroy.Finish.{IsLeft}

-- The same list, when one more shared pointer holds the tail.
pub record Raised (head tail : Ptr) (s s' : Nodes) : Type 0 where
  pub next : (q : Ptr) → q ≢ head → s'.next q ≡ s.next q
  pub live : (q : Ptr) → s'.live q ≡ s.live q
  pub delete_self : (q : Ptr) → s'.delete_self q ≡ s.delete_self q
  pub uses : (q : Ptr) → q ≢ head → s'.uses q ≡ s.uses q + (if q == tail then 1 else 0)

IsHeld-Raised :
    (extra : ℕ) (head tail q : Ptr) (s s' : Nodes)
    → Raised head tail s s'
    → q ≢ head
    → IsHeld extra tail q s
    → IsHeld (suc extra) tail q s'
IsHeld-Raised extra head tail q s s' r ne h = record {
  some_node = h.some_node;
  live = r.live q ∙ h.live;
  on = r.delete_self q ∙ h.on;
  count = ground (arith, r.uses q ne, h.count);
}

pub Rest-Raised :
    (extra : ℕ) (head tail n : Ptr) (ns : List Ptr) (s s' : Nodes)
    → Raised head tail s s'
    → IsNew head (n ∷ ns)
    → Rest extra tail s n ns
    → Rest (suc extra) tail s' n ns
Rest-Raised extra head tail n [] s s' r new (h, e, end) =
    (IsHeld-Raised extra head tail n s s' r new.0 h, e, r.next n new.0 ∙ end)
Rest-Raised extra head tail n (m ∷ ns) s s' r new (h, ne, to, distinct, rest) = (
  IsHeld-Raised extra head tail n s s' r new.0 h,
  ne,
  r.next n new.0 ∙ to,
  distinct,
  Rest-Raised extra head tail m ns s s' r new.1 rest,
)

up_down : (u : Ptr → ℕ) (n q : Ptr) → let w = update u n (u n + 1) in update w n (w n - 1) q ≡ u q
up_down u n q = elim (ℕ_discrete n q) [
  | yes e ↦ rw (eq→== n q e, eq→== n n refl) (omega (arith, ap u e))
  | no ne ↦ rw (ne→== n q ne) refl
]

bump : (u : Ptr → ℕ) (t q : Ptr) → update u t (u t + 1) q ≡ u q + (if q == t then 1 else 0)
bump u t q = elim (ℕ_discrete t q) [
  | yes e ↦ rw (eq→== t q e, eq→== q t (sym e)) (ap (λ k. u k + 1) e)
  | no ne ↦ rw (ne→== t q ne, ne→== q t (λ e. ne (sym e))) (omega arith)
]

bump_other : (u : Ptr → ℕ) (t q : Ptr) → q ≢ t → update u t (u t + 1) q ≡ u q
bump_other u t q ne = update_other u t q _ ne

bump_self : (u : Ptr → ℕ) (t : Ptr) → update u t (u t + 1) t ≡ u t + 1
bump_self u t = rw (eq→== t t refl) refl

-- What `prepare` leaves of a list with a node behind the head, when `start` ends.
pub prepare-Raised :
    (head tail n : Ptr) (s : Nodes)
    → head ≢ null
    → n ≢ null
    → tail ≢ null
    → n ≢ head
    → tail ≢ head
    → s.live head ≡ true
    → s.next head ≡ n
    → 0 < s.uses n
    → Returns
        (λ (start, a).
          (start ≡ n)
          × (1 < a.uses n)
          × Raised head tail s (fewer n a)
          × (a.deleted ≡ s.deleted)
          × (a.next head ≡ null)
          × (a.uses head ≡ s.uses head + 1))
        (prepare head tail s)
unfolding prepare
prepare-Raised head tail n s some_head some_n some_tail n_apart tail_apart live to held =
    let a = record s { uses = update s.uses head (s.uses head + 1) } in
    let b = record a { uses = update a.uses n (a.uses n + 1) } in
    let c = fewer n (record b { next = update s.next head null }) in
    let d = record c { uses = update c.uses tail (c.uses tail + 1) } in
    let last = record d { uses = update d.uses n (d.uses n + 1) } in
    let counts_a : (q : Ptr) → q ≢ head → a.uses q ≡ s.uses q =
      λ q ne. bump_other s.uses head q ne in
    let counts_d : (q : Ptr) → d.uses q ≡ a.uses q + (if q == tail then 1 else 0) =
      λ q. bump c.uses tail q ∙ ap (λ k. k + (if q == tail then 1 else 0)) (up_down a.uses n q) in
    let at_head : d.uses head ≡ s.uses head + 1 =
      bump_other c.uses tail head (λ e. tail_apart (sym e))
      ∙ up_down a.uses n head
      ∙ bump_self s.uses head in
    let more : 1 < last.uses n =
      omega (arith, bump_self d.uses n, counts_d n, counts_a n n_apart) in
    let one : acquire head s ≡ a = rw (ne→== head null some_head) refl in
    let two : acquire n a ≡ b = rw (ne→== n null some_n) refl in
    let three : clear_next 2 head b ≡ ok c =
      clear_next_shared 1 head n b some_n live to
        (omega (arith, bump_self a.uses n, counts_a n n_apart)) in
    let four : acquire tail c ≡ d = rw (ne→== tail null some_tail) refl in
    let five : acquire n d ≡ last = rw (ne→== n null some_n) refl in
    rw (one, touch-ok head a live, to, two, three, four, five)
      (returns (
        refl,
        more,
        record {
          next = λ q ne. update_other s.next head q null ne;
          live = λ q. refl;
          delete_self = λ q. refl;
          uses = λ q ne.
              up_down d.uses n q
              ∙ counts_d q
              ∙ ap (λ k. k + (if q == tail then 1 else 0)) (counts_a q ne);
        },
        refl,
        rw (eq→== head head refl) refl,
        bump_other d.uses n head (λ e. n_apart (sym e)) ∙ at_head,
      ))

pub prepare_alone :
    (head : Ptr) (s : Nodes)
    → IsLeft head s 2
    → Returns
        (λ (start, d). (start ≡ null) × IsLeft head d 4 × (d.deleted ≡ s.deleted))
        (prepare head head s)
unfolding prepare
prepare_alone head s h =
    let a = record s { uses = update s.uses head (s.uses head + 1) } in
    let c = record a { next = update s.next head null } in
    let d = record c { uses = update c.uses head (c.uses head + 1) } in
    let one : acquire head s ≡ a = rw (ne→== head null h.some_node) refl in
    let four : acquire head c ≡ d = rw (ne→== head null h.some_node) refl in
    rw (one, touch-ok head a h.live, h.end, clear_next-null 1 head a h.live h.end, four)
      (returns (
        refl,
        record {
          some_node = h.some_node;
          live = h.live;
          on = h.on;
          end = rw (eq→== head head refl) refl;
          count = omega (arith, bump_self c.uses head, bump_self s.uses head, h.count);
        },
        refl,
      ))
