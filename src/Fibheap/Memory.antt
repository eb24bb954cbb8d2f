-- ===== src/Fibheap/Memory.antt =====
-- The nodes in memory, one map for each field of `struct node`. An access through a pointer to no
-- live node is undefined behaviour.
use cpp_util.Prelude.{
  List, [], ◌∷◌, ◌++◌, ℕ, suc, Bool, true, false, ◌==◌, if◌then◌else◌, Run, ok, fault, undefined,
}

abbrev pub Ptr : Type 0
Ptr = ℕ

abbrev pub null : Ptr
null = 0

abbrev pub update {ℓ} : {A : Type ℓ} → (Ptr → A) → Ptr → A → Ptr → A
update f p a q = if p == q then a else f q

pub record Memory {ℓ} (T : Type ℓ) : Type ℓ where
  pub next : Ptr  -- the address that `new` gives out next
  pub live : Ptr → Bool
  pub val : Ptr → T
  pub up : Ptr → Ptr
  pub down : Ptr → Ptr
  pub left : Ptr → Ptr
  pub right : Ptr → Ptr
  pub marked : Ptr → Bool
  pub num_children : Ptr → ℕ
  pub deleted : List Ptr  -- the deletions so far, in order

module _ {ℓ} {T : Type ℓ} where
  -- The call goes on if `p` may be dereferenced.
  abbrev pub deref {κ} : {A : Type κ} → Ptr → Memory T → A → Run A
  deref p m a = if m.live p then ok a else fault undefined

  abbrev pub set_val : Ptr → T → Memory T → Run (Memory T)
  set_val p v m = deref p m (record m { val = update m.val p v })

  abbrev pub set_up : Ptr → Ptr → Memory T → Run (Memory T)
  set_up p q m = deref p m (record m { up = update m.up p q })

  abbrev pub set_down : Ptr → Ptr → Memory T → Run (Memory T)
  set_down p q m = deref p m (record m { down = update m.down p q })

  abbrev pub set_left : Ptr → Ptr → Memory T → Run (Memory T)
  set_left p q m = deref p m (record m { left = update m.left p q })

  abbrev pub set_right : Ptr → Ptr → Memory T → Run (Memory T)
  set_right p q m = deref p m (record m { right = update m.right p q })

  abbrev pub set_marked : Ptr → Bool → Memory T → Run (Memory T)
  set_marked p b m = deref p m (record m { marked = update m.marked p b })

  abbrev pub set_num_children : Ptr → ℕ → Memory T → Run (Memory T)
  set_num_children p n m = deref p m (record m { num_children = update m.num_children p n })

  -- `new node(v)`: a node alone in its ring.
  unfoldable pub new_node : T → Memory T → Memory T
  new_node v m = record {
    next = suc m.next;
    live = update m.live m.next true;
    val = update m.val m.next v;
    up = update m.up m.next null;
    down = update m.down m.next null;
    left = update m.left m.next m.next;
    right = update m.right m.next m.next;
    marked = update m.marked m.next false;
    num_children = update m.num_children m.next 0;
    deleted = m.deleted;
  }

  -- `delete p`
  unfoldable pub delete_node : Ptr → Memory T → Run (Memory T)
  delete_node p m =
      deref p m (record m { live = update m.live p false; deleted = m.deleted ++ p ∷ [] })
