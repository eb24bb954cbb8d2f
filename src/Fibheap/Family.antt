-- ===== src/Fibheap/Family.antt =====
-- The nodes as families: all nodes under one parent, and all roots, form one ring; a parent's `down`
-- leads to one of its children, and it counts them.
use cpp_util.Prelude.{
  ℕ, zero, suc, ◌%◌, ◌^◌, ◌<◌, ◌≡◌, refl, ◌≢◌, ap, ◌∙◌, sym, subst, Bool, true, false, ◌&&◌, ◌==◌,
  if◌then◌else◌, ℕ_discrete, eq→==, ne→==, arith,
}
use cpp_util.Fibheap.Memory.{Ptr, null, Memory}
use cpp_util.Fibheap.Rings.{IsRings, spliced, cut_out-IsRings, torn}

-- From a node to the right until another.
pub data Along (right : Ptr → Ptr) : Ptr → Ptr → Type 0 where
  here : {p : Ptr} → Along right p p
  on : {p q : Ptr} → Along right (right p) q → Along right p q

pub on_to : {right : Ptr → Ptr} {p q r : Ptr} → right p ≡ r → Along right r q → Along right p q
on_to {right} {q = q} e a = on (subst (λ x. Along right x q) (sym e) a)

pub Along-trans :
    {right : Ptr → Ptr} {p q r : Ptr} → Along right p q → Along right q r → Along right p r
Along-trans (here) b = b
Along-trans (on a) b = on (Along-trans a b)

-- A node alone in its ring leads to itself.
pub Along-alone : {right : Ptr → Ptr} {p q n : Ptr} → right n ≡ n → n ≡ p → Along right p q → n ≡ q
Along-alone alone at (here) = at
Along-alone {right} alone at (on a) = Along-alone alone (sym alone ∙ ap right at) a

-- How many of the addresses below `k` are in a set.
abbrev pub tally : (Ptr → Bool) → ℕ → ℕ
tally f zero = 0
tally f (suc k) = if f k then suc (tally f k) else tally f k

pub tally-same :
    (f g : Ptr → Bool) (k : ℕ) → ((q : Ptr) → q < k → f q ≡ g q) → tally f k ≡ tally g k
tally-same f g zero same = refl
tally-same f g (suc k) same =
    ground (arith, tally-same f g k (λ q l. same q (omega (arith, l))), same k (omega arith))

pub tally-none : (f : Ptr → Bool) (k : ℕ) → ((q : Ptr) → q < k → f q ≡ false) → tally f k ≡ 0
tally-none f zero none = refl
tally-none f (suc k) none =
    ground (arith, tally-none f k (λ q l. none q (omega (arith, l))), none k (omega arith))

pub tally-more :
    (f g : Ptr → Bool) (n k : ℕ)
    → n < k
    → f n ≡ true
    → g n ≡ false
    → ((q : Ptr) → n ≢ q → f q ≡ g q)
    → tally f k ≡ suc (tally g k)
tally-more f g n zero l fn gn same = absurd (omega (arith, l))
tally-more f g n (suc k) l fn gn same = elim (ℕ_discrete n k) [
  | yes e ↦
      let rest = tally-same f g k (λ q lq. same q (λ eq. omega (arith, eq, e, lq))) in
      ground (arith, rest, ap f e, ap g e, fn, gn)
  | no ne ↦
      let rest = tally-more f g n k (omega (arith, l, ne)) fn gn same in
      ground (arith, rest, same k ne)
]

-- Whether `q` is a child of `p`.
abbrev pub child_of : (live : Ptr → Bool) (up : Ptr → Ptr) → Ptr → Ptr → Bool
child_of live up p q = live q && (up q == p)

-- Siblings are in one ring, the roots too.
abbrev pub IsGathered : (live : Ptr → Bool) (up right : Ptr → Ptr) → Type 0
IsGathered live up right =
    (p q : Ptr) → live p ≡ true → live q ≡ true → up p ≡ up q → Along right p q

pub record IsChildren (live : Ptr → Bool) (up down : Ptr → Ptr) (num_children : Ptr → ℕ)
    (next : Ptr) : Type 0 where
  pub has_first :
      (q : Ptr)
      → live q ≡ true
      → up q ≢ null
      → (live (down (up q)) ≡ true) × (up (down (up q)) ≡ up q)
  pub first : (p : Ptr) → live p ≡ true → down p ≢ null → (live (down p) ≡ true) × (up (down p) ≡ p)
  pub counted :
      (p : Ptr) → live p ≡ true → num_children p ≡ tally (child_of live up p) next % 2 ^ 64

module _ {ℓ} {T : Type ℓ} where
  pub record IsFamily (m : Memory T) : Type 0 where
    pub gathered : IsGathered m.live m.up m.right
    pub children : IsChildren m.live m.up m.down m.num_children m.next

  -- The roots but `n`, and the nodes under one parent, are in one ring; `n` is alone.
  pub record IsApart (n : Ptr) (x : Memory T) : Type 0 where
    pub alone : x.right n ≡ n
    pub others :
        (p q : Ptr)
        → x.live p ≡ true
        → x.live q ≡ true
        → n ≢ p
        → n ≢ q
        → x.up p ≡ x.up q
        → Along x.right p q

  module _ (x : Memory T) (rings : IsRings x)
      (level : (p : Ptr) → x.live p ≡ true → x.up (x.right p) ≡ x.up p) (min n : Ptr)
      (live_min : x.live min ≡ true) (live_n : x.live n ≡ true) (root : x.up min ≡ null)
      (apart : min ≢ n) (a : IsApart n x) where
    left_alone : x.left n ≡ n
    left_alone = sym (ap x.left a.alone) ∙ (rings.linked n live_n).left-right

    abbrev after : Ptr → Ptr
    after = (spliced min n x).right

    after_min : after min ≡ n
    after_min = ground (arith, left_alone, apart)

    after_n : after n ≡ x.right min
    after_n = ground (arith, left_alone)

    after_other : (q : Ptr) → min ≢ q → n ≢ q → after q ≡ x.right q
    after_other q u v = ground (arith, left_alone)

    -- A way that was there is there with `n` in the ring.
    longer : {p q : Ptr} → Along x.right p q → Along after p q
    longer (here) = here
    longer {p} {q} (on w) = elim (ℕ_discrete min p) [
      | yes e ↦ on_to (ap after (sym e) ∙ after_min) (on_to (after_n ∙ ap x.right e) (longer w))
      | no u ↦ elim (ℕ_discrete n p) [
        | yes e ↦ subst (λ y. Along after y q) (ap x.right (sym e) ∙ a.alone ∙ e) (longer w)
        | no v ↦ on_to (after_other p u v) (longer w)
      ]
    ]

    -- `n` joins the roots behind `min`.
    pub spliced-IsGathered : x.up n ≡ null → IsGathered x.live x.up (spliced min n x).right
    spliced-IsGathered root_n p q lp lq same = elim (ℕ_discrete n p) [
      | yes e ↦ elim (ℕ_discrete n q) [
        | yes e' ↦ subst (λ y. Along after p y) (sym e ∙ e') here
        | no v ↦
            let lr = (rings.linked min live_min).live_right in
            let other : n ≢ x.right min = λ at.
              apart
                (sym (rings.linked min live_min).left-right ∙ ap x.left (sym at) ∙ left_alone) in
            let up_q : x.up q ≡ null = sym same ∙ ap x.up (sym e) ∙ root_n in
            subst (λ y. Along after y q) e
              (on_to after_n (
                longer
                  (a.others (x.right min) q lr lq other v (level min live_min ∙ root ∙ sym up_q))))
      ]
      | no u ↦ elim (ℕ_discrete n q) [
        | yes e' ↦
            let up_p : x.up p ≡ null = same ∙ ap x.up (sym e') ∙ root_n in
            subst (λ y. Along after p y) e'
              (Along-trans
                (longer (a.others p min lp live_min u (λ e. apart (sym e)) (up_p ∙ sym root)))
                (on_to after_min here))
        | no v ↦ longer (a.others p q lp lq u v same)
      ]
    ]

  module _ (m : Memory T) (rings : IsRings m)
      (level : (p : Ptr) → m.live p ≡ true → m.up (m.right p) ≡ m.up p) (fam : IsFamily m) (n : Ptr)
      (live_n : m.live n ≡ true) (child : m.up n ≢ null) where
    abbrev cut : Memory T
    cut = torn m rings n live_n

    -- A way that does not lead to `n` leads past it.
    past :
        {p q : Ptr}
        → Along m.right p q
        → m.live p ≡ true
        → n ≢ q
        → (n ≢ p → Along cut.right p q) × (n ≡ p → Along cut.right (m.right n) q)
    past (here) lp u = ((λ v. here), λ e. absurd (u e))
    past {p} {q} (on w) lp u =
        let at_n = rings.linked n live_n in
        let at_p = rings.linked p lp in
        let (beside, from) = past w at_p.live_right u in
        (
          (λ v. elim (ℕ_discrete n (m.right p)) [
            | yes e ↦
                let to : cut.right p ≡ m.right n = ground (arith, v, at_p, ap m.left e) in
                on_to to (from e)
            | no other ↦
                let to : cut.right p ≡ m.right p = ground (arith, v, other, at_n) in
                on_to to (beside other)
          ]),
          (λ e. elim (ℕ_discrete n (m.right p)) [
            | yes at ↦ from at
            | no other ↦ subst (λ y. Along cut.right y q) (ap m.right (sym e)) (beside other)
          ]),
        )

    pub torn-IsApart : IsApart n cut
    torn-IsApart = record {
      alone = ground arith;
      others = λ p q lp lq u v same.
          (past (fam.gathered p q lp lq (ground (arith, same, u, v))) lp v).0 u;
    }

    cut_down :
        (p : Ptr)
        → cut.down p ≡ (
            if m.down (m.up n) == n && (m.up n == p)
            then (if n == m.right n then null else m.right n)
            else m.down p)
    cut_down p = elim (ℕ_discrete (m.down (m.up n)) n) [
      | yes e ↦ ground (arith, e)
      | no ne ↦ ground (arith, ne)
    ]

    -- A node with siblings is not alone.
    not_alone : (q : Ptr) → m.live q ≡ true → n ≢ q → m.up n ≡ m.up q → n ≢ m.right n
    not_alone q lq u same e = u (Along-alone (sym e) refl (fam.gathered n q live_n lq same))

    -- The parent counts one child less, every other node as many as before.
    fewer :
        (p : Ptr)
        → n < m.next
        → p ≢ null
        → tally (child_of m.live m.up p) m.next ≡ (
            if m.up n == p
            then suc (tally (child_of cut.live cut.up p) m.next)
            else tally (child_of cut.live cut.up p) m.next)
    fewer p below some_node = elim (ℕ_discrete (m.up n) p) [
      | yes e ↦ rw (eq→== (m.up n) p e) (
          tally-more (child_of m.live m.up p) (child_of cut.live cut.up p) n m.next below
            (ground (arith, live_n, e)) (ground (arith, some_node)) (λ q u. ground (arith, u)))
      | no u ↦ rw (ne→== (m.up n) p u) (
          tally-same (child_of m.live m.up p) (child_of cut.live cut.up p) m.next
            (λ q l. ground (arith, u, some_node)))
    ]

    pub torn-IsChildren : n < m.next → IsChildren cut.live cut.up cut.down cut.num_children cut.next
    torn-IsChildren below = record {
      has_first = λ q lq u.
          let differ : n ≢ q = λ e. u (ground (arith, e)) in
          let up_q : cut.up q ≡ m.up q = ground (arith, differ) in
          let some_up : m.up q ≢ null = λ e. u (up_q ∙ e) in
          let old = fam.children.has_first q lq some_up in
          rw (up_q, cut_down (m.up q))
            (ground (
              arith,
              old,
              level n live_n,
              (rings.linked n live_n).live_right,
              not_alone q lq differ,
            ));
      first = λ p lp u. rw (cut_down p) (
          ground (
            arith,
            cut_down p,
            u,
            fam.children.first p lp,
            level n live_n,
            (rings.linked n live_n).live_right,
          ));
      counted = λ p lp.
          let some_node : p ≢ null = λ e. cc (rings.no_null, ap m.live e, lp) in
          ground (arith, fam.children.counted p lp, fewer p below some_node);
    }

    -- `n` moved from under its parent to the roots.
    pub raised-IsFamily :
        (min : Ptr)
        → ((p : Ptr) → cut.live p ≡ true → cut.up (cut.right p) ≡ cut.up p)
        → m.live min ≡ true
        → m.up min ≡ null
        → n < m.next
        → IsFamily (spliced min n cut)
    raised-IsFamily min cut_level live_min root below =
        let apart : min ≢ n = λ e. child (ap m.up (sym e) ∙ root) in
        record {
          gathered =
              spliced-IsGathered cut (cut_out-IsRings m rings n live_n) cut_level min n live_min
                live_n (ground (arith, root)) apart torn-IsApart (ground arith);
          children = torn-IsChildren below;
        }
