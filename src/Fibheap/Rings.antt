-- ===== src/Fibheap/Rings.antt =====
-- The nodes of one level form rings: `left` and `right` undo each other on the live nodes, and the
-- helpers that cut and splice keep it so, whatever nodes they are given.
use cpp_util.Prelude.{
  ◌<◌, ◌≡◌, refl, inl, inr, ap, Bool, true, false, ◌==◌, if◌then◌else◌, ok, arith, ℕ_discrete,
  ne→==, Bool-cases,
}
use cpp_util.Fibheap.Memory.{Ptr, null, Memory, update, new_node}
use cpp_util.Fibheap.Nodes.{rl_cut, rl_splice, rlt_cut, decr}

-- Both neighbours of `p` are live, and `p` is theirs.
pub record IsLinked (live : Ptr → Bool) (left right : Ptr → Ptr) (p : Ptr) : Type 0 where
  pub live_right : live (right p) ≡ true
  pub live_left : live (left p) ≡ true
  pub left-right : left (right p) ≡ p
  pub right-left : right (left p) ≡ p

pub record IsRingsOf (live : Ptr → Bool) (left right : Ptr → Ptr) : Type 0 where
  pub linked : (p : Ptr) → live p ≡ true → IsLinked live left right p
  pub no_null : live null ≡ false

pub ne_null :
    {live : Ptr → Bool} {left right : Ptr → Ptr}
    → IsRingsOf live left right
    → (p : Ptr) → live p ≡ true
    → (p == null) ≡ false
ne_null {live} r p l = elim (ℕ_discrete p null) [
  | yes e ↦ absurd (cc (r.no_null, ap live e))
  | no u ↦ ne→== p null u
]

module _ {ℓ} {T : Type ℓ} where
  abbrev pub IsRings : Memory T → Type 0
  IsRings m = IsRingsOf m.live m.left m.right

  abbrev pub spliced : Ptr → Ptr → Memory T → Memory T
  spliced main insert m = record m {
    right = update (update m.right main insert) (m.left insert) (m.right main);
    left = update (update m.left insert main) (m.right main) (m.left insert);
  }

  module _ (m : Memory T) (rings : IsRings m) (main insert : Ptr) (live_main : m.live main ≡ true)
      (live_insert : m.live insert ≡ true) where
    open rings use {linked, no_null}

    pub rl_splice-spliced : rl_splice main insert m ≡ ok (spliced main insert m)
    unfolding rl_splice
    rl_splice-spliced =
        rw
          (
            ne_null rings main live_main,
            ne_null rings insert live_insert,
            live_main,
            live_insert,
            (linked main live_main).live_right,
            (linked insert live_insert).live_left,
          )
          refl

    pub spliced-IsRings : IsRings (spliced main insert m)
    spliced-IsRings = record {
      linked = λ p l.
          let at_main = linked main live_main in
          let at_insert = linked insert live_insert in
          let at_p = linked p l in
          record {
            live_right = ground (arith, at_main, at_insert, at_p);
            live_left = ground (arith, at_main, at_insert, at_p);
            left-right = ground (arith, at_main, at_insert, at_p);
            right-left = ground (arith, at_main, at_insert, at_p);
          };
      no_null = no_null;
    }

  abbrev pub cut_out : Ptr → Memory T → Memory T
  cut_out n m = record m {
    left = update (update m.left (m.right n) (m.left n)) n n;
    right = update (update m.right (m.left n) (m.right n)) n n;
  }

  module _ (m : Memory T) (rings : IsRings m) (n : Ptr) (live_n : m.live n ≡ true) where
    open rings use {linked, no_null}

    pub rl_cut-cut_out : rl_cut n m ≡ ok (cut_out n m)
    unfolding rl_cut
    rl_cut-cut_out =
        let at_n = linked n live_n in
        let same : (if m.right n == n then m.left n else m.left n) ≡ m.left n = ground arith in
        rw
          (
            ne_null rings n live_n,
            live_n,
            at_n.live_right,
            live_n,
            same,
            at_n.live_left,
            live_n,
            live_n,
          )
          refl

    pub cut_out-IsRings : IsRings (cut_out n m)
    cut_out-IsRings = record {
      linked = λ p l.
          let at_n = linked n live_n in
          let at_p = linked p l in
          record {
            live_right = ground (arith, at_n, at_p);
            live_left = ground (arith, at_n, at_p);
            left-right = ground (arith, at_n, at_p);
            right-left = ground (arith, at_n, at_p);
          };
      no_null = no_null;
    }

    -- What `_rlt_cut` makes of a node under a parent.
    abbrev pub torn : Memory T
    torn = record (cut_out n m) {
      up = update m.up n null;
      down =
          if m.down (m.up n) == n
          then update m.down (m.up n) (if n == m.right n then null else m.right n)
          else m.down;
      num_children = update m.num_children (m.up n) (decr (m.num_children (m.up n)));
    }

    module _ (child : (m.up n == null) ≡ false) (live_up : m.live (m.up n) ≡ true) where
      pub rlt_cut-torn : rlt_cut n m ≡ ok torn
      unfolding rlt_cut
      rlt_cut-torn = elim (Bool-cases (m.down (m.up n) == n)) [
        | inl first ↦ simp (ne_null rings n live_n, live_n, child, rl_cut-cut_out, live_up, first)
        | inr later ↦ simp (ne_null rings n live_n, live_n, child, rl_cut-cut_out, live_up, later)
      ]

  module _ (m : Memory T) (rings : IsRings m) (unused : m.live m.next ≡ false) (v : T) where
    open rings use {linked, no_null}

    pub new_node-IsRings : 0 < m.next → IsRings (new_node v m)
    unfolding new_node
    new_node-IsRings pos = record {
      linked = λ p l. elim (ℕ_discrete m.next p) [
        | yes e ↦ record {
          live_right = ground arith;
          live_left = ground arith;
          left-right = ground arith;
          right-left = ground arith;
        }
        | no u ↦
            let at_p = linked p (ground arith) in
            record {
              live_right = ground (arith, at_p);
              live_left = ground (arith, at_p);
              left-right = ground (arith, at_p, ap m.live);
              right-left = ground (arith, at_p);
            }
      ];
      no_null = ground arith;
    }
