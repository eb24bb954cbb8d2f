-- ===== src/Queues/SharedQueue/Destroy/Release.antt =====
-- src/queues/shared_queue.tpp: what the end of a shared pointer to a node does, by how many there are.
use cpp_util.Prelude.{
  ℕ, suc, ◌-◌, ◌<◌, ◌≡◌, refl, ◌≢◌, ◌∙◌, sym, true, false, [], ◌∷◌, ◌++◌, ok, Returns, returns,
  eq→==, ne→==, arith,
}
use cpp_util.Queues.HazardQueue.{Ptr, null, update}
use cpp_util.Queues.SharedQueue.Destroy.{Nodes, touch, mark, release, clear_next, delete_node}

abbrev pub fewer : Ptr → Nodes → Nodes
fewer p s = record s { uses = update s.uses p (s.uses p - 1) }

-- A shared pointer that is not the last one.
pub release_shared :
    (fuel p : ℕ) (s : Nodes) → p ≢ null → 1 < s.uses p → release (suc fuel) p s ≡ ok (fewer p s)
unfolding release
release_shared fuel p s some_node more =
    rw (ne→== p null some_node, ne→== (s.uses p) 0 (omega arith), ne→== (s.uses p) 1 (omega arith))
      refl

pub release-null : (fuel : ℕ) (s : Nodes) → release (suc fuel) null s ≡ ok s
unfolding release
release-null fuel s = refl

-- The last one, when the deleter is switched off.
pub release_off :
    (fuel p : ℕ) (s : Nodes)
    → p ≢ null
    → s.uses p ≡ 1
    → s.live p ≡ true
    → s.delete_self p ≡ false
    → release (suc fuel) p s ≡ ok (fewer p s)
unfolding release touch
release_off fuel p s some_node one live off =
    rw (ne→== p null some_node, ne→== (s.uses p) 0 (omega arith), eq→== (s.uses p) 1 one, live, off)
      refl

-- The last one.
pub release_last :
    (fuel p : ℕ) (s : Nodes)
    → p ≢ null
    → s.uses p ≡ 1
    → s.live p ≡ true
    → s.delete_self p ≡ true
    → s.next p ≡ null
    → release (suc (suc fuel)) p s ≡ ok (mark p (fewer p s))
unfolding release touch
release_last fuel p s some_node one live on end =
    rw
      (
        ne→== p null some_node,
        ne→== (s.uses p) 0 (omega arith),
        eq→== (s.uses p) 1 one,
        live,
        on,
        end,
      )
      refl

pub touch-ok : (p : Ptr) (s : Nodes) → s.live p ≡ true → touch p s ≡ ok tt
unfolding touch
touch-ok p s live = rw live refl

pub clear_next_shared :
    (fuel p n : ℕ) (s : Nodes)
    → n ≢ null
    → s.live p ≡ true
    → s.next p ≡ n
    → 1 < s.uses n
    → clear_next (suc fuel) p s ≡ ok (fewer n (record s { next = update s.next p null }))
unfolding clear_next
clear_next_shared fuel p n s some_node live to more =
    rw (touch-ok p s live, to)
      (release_shared fuel n (record s { next = update s.next p null }) some_node more)

pub clear_next-null :
    (fuel p : ℕ) (s : Nodes)
    → s.live p ≡ true
    → s.next p ≡ null
    → clear_next (suc fuel) p s ≡ ok (record s { next = update s.next p null })
unfolding clear_next release
clear_next-null fuel p s live end = rw (touch-ok p s live, end) refl

pub delete_node_last :
    (fuel p : ℕ) (s : Nodes)
    → s.live p ≡ true
    → s.next p ≡ null
    → delete_node (suc fuel) p s ≡ ok (mark p s)
unfolding delete_node release
delete_node_last fuel p s live end = rw (touch-ok p s live, end) refl

-- Two states that agree on a node.
pub record Agree (q : Ptr) (s s' : Nodes) : Type 0 where
  pub next : s'.next q ≡ s.next q
  pub uses : s'.uses q ≡ s.uses q
  pub delete_self : s'.delete_self q ≡ s.delete_self q
  pub live : s'.live q ≡ s.live q

-- A node was deleted, and no other was touched.
pub record Gone (p : Ptr) (s s' : Nodes) : Type 0 where
  pub others : (q : Ptr) → q ≢ p → Agree q s s'
  pub listed : s'.deleted ≡ s.deleted ++ p ∷ []

pub update_other {ℓ} : {A : Type ℓ} (f : Ptr → A) (p q : Ptr) (a : A) → q ≢ p → update f p a q ≡ f q
update_other f p q a ne = rw (ne→== p q (λ e. ne (sym e))) refl

pub Agree-trans : {q : Ptr} {a b c : Nodes} → Agree q a b → Agree q b c → Agree q a c
Agree-trans x y = record {
  next = y.next ∙ x.next;
  uses = y.uses ∙ x.uses;
  delete_self = y.delete_self ∙ x.delete_self;
  live = y.live ∙ x.live;
}

pub touch-Returns : (p : Ptr) (s : Nodes) → s.live p ≡ true → Returns (λ u. Unit {0}) (touch p s)
touch-Returns p s live = rw (touch-ok p s live) (returns tt)

pub release-null-same :
    (s : Nodes)
    → Returns (λ e. (e.deleted ≡ s.deleted) × ((q : Ptr) → Agree q s e)) (release 2 null s)
release-null-same s =
    rw (release-null 1 s)
      (returns (refl, λ q. record { next = refl; uses = refl; delete_self = refl; live = refl }))
