-- ===== src/Queues/SharedQueue/Destroy/Between.antt =====
-- src/queues/shared_queue.tpp: the loop of `~shared_queue`: each turn deletes its node and touches no other.
use mathlib.Core.List.{append_assoc}
use cpp_util.Prelude.{
  ℕ, zero, suc, ◌+◌, ◌-◌, ◌<◌, ◌≡◌, refl, ◌≢◌, ap, ◌∙◌, sym, subst, true, false, ◌||◌, List, [],
  ◌∷◌, ◌++◌, length, ◌==◌, if◌then◌else◌, ok, Returns, returns, Returns-map, Returns-bind, eq→==,
  ne→==, ℕ_discrete, arith,
}
use cpp_util.Queues.HazardQueue.{Ptr, null, update}
use cpp_util.Queues.SharedQueue.Destroy.{
  Nodes, acquire, mark, release, clear_next, delete_node, turn, delete_between,
}
use cpp_util.Queues.SharedQueue.Destroy.Release.{
  fewer, release_off, touch-ok, clear_next_shared, delete_node_last, Agree, Gone, update_other,
  Agree-trans,
}

-- A node in the list whose last node is `tail`, to which there are `extra` more shared pointers.
pub record IsHeld (extra : ℕ) (tail p : Ptr) (s : Nodes) : Type 0 where
  pub some_node : p ≢ null
  pub live : s.live p ≡ true
  pub on : s.delete_self p ≡ true
  pub count : s.uses p ≡ (if p == tail then suc extra else 1)

-- A shared pointer moved from `p`'s next to a variable, and one to `p` ended.
moved_uses :
    (uses : Ptr → ℕ) (p n q : Ptr)
    → q ≢ p
    → n ≢ p
    → let copied = update uses n (uses n + 1) in
      let moved = update copied p (copied p - 1) in update moved n (moved n - 1) q ≡ uses q
moved_uses uses p n q other differ = elim (ℕ_discrete n q) [
  | yes e ↦
      rw (eq→== n q e, ne→== p n (λ d. differ (sym d)), eq→== n n refl) (omega (arith, ap uses e))
  | no ne ↦ rw (ne→== n q ne, ne→== p q (λ d. other (sym d))) refl
]

-- One turn of the loop deletes its node.
turn-Gone :
    (extra : ℕ) (tail p n : Ptr) (s : Nodes)
    → IsHeld extra tail p s
    → IsHeld extra tail n s
    → p ≢ tail
    → n ≢ p
    → s.next p ≡ n
    → Returns (λ (i, s'). (i ≡ n) × Gone p s s') (turn 2 p s)
unfolding turn
turn-Gone extra tail p n s held held' ne differ to =
    let off = record s { delete_self = update s.delete_self p false } in
    let copied = record off { uses = update s.uses n (s.uses n + 1) } in
    let moved = fewer p copied in
    let cut = fewer n (record moved { next = update s.next p null }) in
    let copy : acquire n off ≡ copied = rw (ne→== n null held'.some_node) refl in
    let first : release 2 p copied ≡ ok moved =
      release_off 1 p copied held.some_node (ground (arith, held.count)) held.live (ground arith) in
    let second : clear_next 2 p moved ≡ ok cut =
      clear_next_shared 1 p n moved held'.some_node held.live to (ground (arith, held'.count)) in
    let third : delete_node 2 p cut ≡ ok (mark p cut) =
      delete_node_last 1 p cut held.live (ground arith) in
    rw (touch-ok p s held.live, to, copy, first, second, third)
      (returns (
        refl,
        record {
          others = λ q other. record {
            next = update_other s.next p q null other;
            uses = moved_uses s.uses p n q other differ;
            delete_self = update_other s.delete_self p q false other;
            live = update_other s.live p q false other;
          };
          listed = refl;
        },
      ))

-- No node of the list is `p`.
abbrev pub IsNew : Ptr → List Ptr → Type 0
IsNew p [] = Unit
IsNew p (n ∷ ns) = (n ≢ p) × IsNew p ns

-- The nodes `ns` stand behind `p`, up to the tail.
abbrev pub Rest : ℕ → Ptr → Nodes → Ptr → List Ptr → Type 0
Rest extra tail s p [] = IsHeld extra tail p s × (p ≡ tail) × (s.next p ≡ null)
Rest extra tail s p (n ∷ ns) =
    IsHeld extra tail p s × (p ≢ tail) × (s.next p ≡ n) × IsNew p (n ∷ ns) × Rest extra tail s n ns

pub IsHeld-Agree :
    {extra : ℕ} {tail q : Ptr} {s s' : Nodes}
    → Agree q s s'
    → IsHeld extra tail q s
    → IsHeld extra tail q s'
IsHeld-Agree a h = record {
  some_node = h.some_node;
  live = a.live ∙ h.live;
  on = a.delete_self ∙ h.on;
  count = a.uses ∙ h.count;
}

Rest-Gone :
    (extra : ℕ) (tail p n : Ptr) (ns : List Ptr) (s s' : Nodes)
    → Gone p s s'
    → IsNew p (n ∷ ns)
    → Rest extra tail s n ns
    → Rest extra tail s' n ns
Rest-Gone extra tail p n [] s s' g new (h, e, end) =
    let a = g.others n new.0 in (IsHeld-Agree a h, e, a.next ∙ end)
Rest-Gone extra tail p n (m ∷ ns) s s' g new (h, ne, to, distinct, rest) =
    let a = g.others n new.0 in
    (IsHeld-Agree a h, ne, a.next ∙ to, distinct, Rest-Gone extra tail p m ns s s' g new.1 rest)

Rest-IsHeld :
    {extra : ℕ} {tail p : Ptr} {s : Nodes} (ns : List Ptr)
    → Rest extra tail s p ns
    → IsHeld extra tail p s
Rest-IsHeld [] r = r.0
Rest-IsHeld (n ∷ ns) r = r.0

-- What the loop leaves: the tail.
pub record Deleted (extra : ℕ) (tail p : Ptr) (ns : List Ptr) (s s' : Nodes) : Type 0 where
  pub rest : Rest extra tail s' tail []
  pub listed : s'.deleted ++ tail ∷ [] ≡ s.deleted ++ p ∷ ns
  pub others : (q : Ptr) → IsNew q (p ∷ ns) → Agree q s s'

pub delete_between-Deleted :
    (extra : ℕ) (tail p : Ptr) (ns : List Ptr) (fuel : ℕ) (s : Nodes)
    → Rest extra tail s p ns
    → length ns < fuel
    → Returns
        (λ (start, i, s'). (start ≡ null) × (i ≡ tail) × Deleted extra tail p ns s s')
        (delete_between fuel null p tail s)
unfolding delete_between
delete_between-Deleted extra tail p ns zero s r enough = absurd (omega arith)
delete_between-Deleted extra tail p [] (suc fuel) s (h, e, end) enough = rw (eq→== p tail e) (
    returns (
      refl,
      e,
      record {
        rest = subst (λ k. Rest extra tail s k []) e (h, e, end);
        listed = ap (λ k. s.deleted ++ k ∷ []) (sym e);
        others = λ q new. record { next = refl; uses = refl; delete_self = refl; live = refl };
      },
    ))
delete_between-Deleted extra tail p (n ∷ ns) (suc fuel) s (h, ne, to, new, rest) enough =
    let goes_on : (p == tail || p == null) ≡ false =
      rw (ne→== p tail ne, ne→== p null h.some_node) refl in
    rw goes_on (
      Returns-bind (turn-Gone extra tail p n s h (Rest-IsHeld ns rest) ne new.0 to)
        λ (i, a) (same, g).
          Returns-map
            (subst
              (λ k.
                Returns
                  (λ (start, i, s'). (start ≡ null) × (i ≡ tail) × Deleted extra tail n ns a s')
                  (delete_between fuel null k tail a))
              (sym same)
              (delete_between-Deleted extra tail n ns fuel a
                (Rest-Gone extra tail p n ns s a g new rest) (omega arith)))
            λ (start, j, b) (none_left, at_tail, d). (
              none_left,
              at_tail,
              record {
                rest = d.rest;
                listed =
                    d.listed
                    ∙ ap (λ l. l ++ n ∷ ns) g.listed
                    ∙ append_assoc s.deleted (p ∷ []) (n ∷ ns);
                others =
                    λ q fresh. Agree-trans (g.others q (λ e. fresh.0 (sym e))) (d.others q fresh.1);
              },
            ))
