-- ===== src/Fibheap/Tests.antt =====
-- Runs of a heap of numbers, after src/fibheap/fibheap-test.cpp.
use cpp_util.Prelude.{
  ℕ_discrete, subst, ℕ, zero, suc, false, none, some, List, [], ◌∷◌, ◌≡◌, refl, ltb, ◌==◌, ◌||◌,
  Run, ok, ◌>>=◌, if◌then◌else◌, Returns, Returns-ok, arith,
}
use cpp_util.Fibheap.Memory.{Ptr, null, Memory, update, new_node}
use cpp_util.Fibheap.Methods.{
  Fibheap, fibheap, clear, push, top, empty, decrease_key, decrease_key_move, consistency_check,
  insert_new_node,
}
use cpp_util.Fibheap.Inspect.{
  entry, newline, fibheap_range, push_range, tree_check, check_ring, check_children, print_fibheap,
  print_queue, push_ring, show_node,
}
use cpp_util.Fibheap.Nodes.{rl_cut, rl_splice, rlt_splice}
use cpp_util.Fibheap.Pop.{pop}
use cpp_util.Fibheap.Family.{Along, here, on_to}
use cpp_util.Fibheap.Forest.{IsStrictOrder, IsValid}
use cpp_util.Fibheap.Clear.{Trees, leaf, node, cleared, clear-cleared}
use cpp_util.Fibheap.Push.{Pushed, push-Pushed}
use cpp_util.Fibheap.Decrease.{Decreased, decrease_key-Decreased}

abbrev blank : Memory ℕ
blank = record {
  next = 1;
  live = λ _. false;
  val = λ _. 0;
  up = λ _. null;
  down = λ _. null;
  left = λ _. null;
  right = λ _. null;
  marked = λ _. false;
  num_children = λ _. 0;
  deleted = [];
}

-- The heap and the nodes behind push(5), and then push(3).
abbrev heap_5 : Fibheap
heap_5 = record { min = 1; size = 1 }

abbrev nodes_5 : Memory ℕ
nodes_5 = new_node 5 blank

abbrev heap_53 : Fibheap
heap_53 = record { min = 2; size = 2 }

abbrev nodes_53 : Memory ℕ
nodes_53 = record (new_node 3 nodes_5) {
  right = update (update (new_node 3 nodes_5).right 1 2) 2 1;
  left = update (update (new_node 3 nodes_5).left 2 1) 1 2;
}

abbrev flat : Ptr → ℕ
flat _ = 0

ltb-IsStrictOrder : IsStrictOrder ltb
ltb-IsStrictOrder = record { irrefl = λ a. ground arith; trans = λ a b c p q. ground (arith, p, q) }

blank-IsValid : IsValid ltb flat fibheap blank
blank-IsValid = record {
  forest = record {
    rings = record { linked = λ p l. absurd (ground (arith, l)); no_null = refl };
    level = λ p l. refl;
    parents = λ p l u. absurd (u refl);
    rising = λ p l u. absurd (u refl);
    ordered = λ p l u. absurd (u refl);
  };
  family = record {
    gathered = λ p q l k same. absurd (ground (arith, l));
    children = record {
      has_first = λ q l u. absurd (ground (arith, l));
      first = λ p l u. absurd (ground (arith, l));
      counted = λ p l. absurd (ground (arith, l));
    };
  };
  sized = refl;
  unused = λ p h. refl;
  address = omega arith;
  none_left = λ z. refl;
  no_node = λ z p. refl;
  minimum = λ nz. absurd (nz refl);
}

heap_5-IsValid : IsValid ltb flat heap_5 nodes_5
unfolding push consistency_check insert_new_node new_node
heap_5-IsValid =
    (Returns-ok
      (push-Pushed ltb ltb-IsStrictOrder flat 5 fibheap blank blank-IsValid (omega arith))).valid

heap_53-IsValid : IsValid ltb flat heap_53 nodes_53
unfolding push consistency_check insert_new_node new_node rl_splice
heap_53-IsValid =
    (Returns-ok
      (push-Pushed ltb ltb-IsStrictOrder flat 3 heap_5 nodes_5 heap_5-IsValid (omega arith))).valid

push-Pushed_example :
    Returns (λ (k, f', m'). Pushed ltb flat 3 heap_5 nodes_5 k f' m') (push ltb 3 heap_5 nodes_5)
push-Pushed_example =
    push-Pushed ltb ltb-IsStrictOrder flat 3 heap_5 nodes_5 heap_5-IsValid (omega arith)

abbrev State : Type 0
State = Fibheap × Memory ℕ

push_all : List ℕ → State → Run State
push_all [] s = ok s
push_all (x ∷ xs) (f, m) = do (_, f', m') ← push ltb x f m; push_all xs (f', m')

pop_one : State → Run State
pop_one (f, m) = do (_, f', m') ← pop ltb (λ _. 2) 20 f m; ok (f', m')

-- The tops of the heap as it is emptied.
drain : ℕ → State → Run (List ℕ)
drain zero s = ok []
drain (suc n) (f, m) =
    let next : Run (List ℕ) = do x ← top f m; s ← pop_one (f, m); xs ← drain n s; ok (x ∷ xs)
    in if f.min == null then ok [] else next

drain_sorts :
    (push_all (3 ∷ 1 ∷ 4 ∷ 1 ∷ 5 ∷ 9 ∷ 2 ∷ 6 ∷ []) (fibheap, blank) >>= drain 9)
    ≡ ok (1 ∷ 1 ∷ 2 ∷ 3 ∷ 4 ∷ 5 ∷ 6 ∷ 9 ∷ [])
unfolding push_all drain pop_one pop top push consistency_check insert_new_node new_node rl_cut
    rl_splice rlt_splice
drain_sorts = refl

-- A root with two children among single roots hides the least of these from `pop`.
min_lost :
    (do
      a ← push_all (0 ∷ 100 ∷ 101 ∷ 102 ∷ 103 ∷ []) (fibheap, blank)
      b ← pop_one a
      c ← push_all (50 ∷ 10 ∷ 1 ∷ 20 ∷ []) b
      drain 9 c)
    ≡ ok (1 ∷ 20 ∷ 10 ∷ 50 ∷ 100 ∷ 101 ∷ 102 ∷ 103 ∷ [])
unfolding push_all drain pop_one pop top push consistency_check insert_new_node new_node rl_cut
    rl_splice rlt_splice
min_lost = refl

-- Two roots, checked and printed from the least one on.
two_checked : tree_check 3 2 [] nodes_53 ≡ ok (2, 1 ∷ 2 ∷ [])
unfolding tree_check check_ring check_children new_node
two_checked = refl

two_printed :
    print_fibheap 9 heap_53 nodes_53
    ≡ ok (2, some 3, entry 3 none ∷ entry 5 none ∷ newline ∷ newline ∷ [])
unfolding print_fibheap print_queue push_ring show_node consistency_check empty top new_node
two_printed = refl

-- The constructor from a range pushes what the iterators are converted to, here themselves.
from_range : (fibheap_range ltb (λ (i : ℕ). i) (5 ∷ 3 ∷ []) blank >>= λ (f, m). ok f) ≡ ok heap_53
unfolding fibheap_range push_range push insert_new_node consistency_check new_node rl_splice
from_range = refl

-- The roots 1 and 2, and 3 below 1.
abbrev three_nodes : Memory ℕ
three_nodes = record {
  next = 4;
  live = λ p. p == 1 || p == 2 || p == 3;
  val = λ p. p;
  up = λ p. if p == 3 then 1 else null;
  down = λ p. if p == 1 then 3 else null;
  left = λ p. if p == 1 then 2 else if p == 2 then 1 else p;
  right = λ p. if p == 1 then 2 else if p == 2 then 1 else p;
  marked = λ p. false;
  num_children = λ p. if p == 1 then 1 else 0;
  deleted = [];
}

abbrev heap_3 : Fibheap
heap_3 = record { min = 1; size = 3 }

abbrev three_trees : Trees
three_trees = node 1 (node 3 leaf leaf) (node 2 leaf leaf)

clear-cleared_example : clear 3 heap_3 three_nodes ≡ ok (fibheap, cleared three_trees three_nodes)
unfolding consistency_check
clear-cleared_example =
    clear-cleared three_trees 3 heap_3 three_nodes refl refl (omega arith)
      (refl, (refl, (refl, tt))) (omega arith)

-- 3 is a level below the roots.
abbrev depth : Ptr → ℕ
depth p = if p == 3 then 1 else 0

three_nodes-IsValid : IsValid ltb depth heap_3 three_nodes
three_nodes-IsValid = record {
  forest = record {
    rings = record {
      linked = λ p l. record {
        live_right = ground (arith, l);
        live_left = ground (arith, l);
        left-right = ground (arith, l);
        right-left = ground (arith, l);
      };
      no_null = refl;
    };
    level = λ p l. ground (arith, l);
    parents = λ p l u. ground (arith, l, u);
    rising = λ p l u. ground (arith, l, u);
    ordered = λ p l u. ground (arith, l, u);
  };
  family = record {
    gathered = λ p q l k same. elim (ℕ_discrete p q) [
      | yes e ↦ subst (λ x. Along three_nodes.right p x) e here
      | no ne ↦
          let beside : three_nodes.right p ≡ q = ground (arith, l, k, same, ne) in on_to beside here
    ];
    children = record {
      has_first = λ q l u. ground (arith, l, u);
      first = λ p l u. ground (arith, l, u);
      counted = λ p l. ground (arith, l);
    };
  };
  sized = refl;
  unused = λ p h. ground (arith, h);
  address = omega arith;
  none_left = λ z. absurd (omega (arith, z));
  no_node = λ z. absurd (omega (arith, z));
  minimum = λ nz. record { live_min = refl; root = refl; least = λ p l. ground (arith, l) };
}

-- The child 3 gets the least value and becomes a root.
decrease_key-Decreased_example :
    Returns
      (λ (f', m'). Decreased ltb depth 3 0 heap_3 three_nodes f' m')
      (decrease_key ltb 1 3 0 heap_3 three_nodes)
    × Returns
        (λ (f', m'). Decreased ltb depth 3 0 heap_3 three_nodes f' m')
        (decrease_key_move ltb 1 3 0 heap_3 three_nodes)
decrease_key-Decreased_example =
    decrease_key-Decreased ltb ltb-IsStrictOrder depth 3 0 heap_3 three_nodes three_nodes-IsValid
      refl refl 1 (omega arith)
