-- ===== src/Queues/SharedQueue/Destroy/Destroyed.antt =====
-- src/queues/shared_queue.tpp: the destructor as a whole: it deletes each node once.
use mathlib.Core.List.{append-nil}
use cpp_util.Prelude.{
  ℕ, zero, suc, ◌+◌, ◌<◌, ◌≡◌, refl, ◌≢◌, ap, ◌∙◌, sym, subst, true, false, ◌||◌, List, [], ◌∷◌,
  ◌++◌, length, ◌==◌, ◌>>=◌, Returns, returns, Returns-map, Returns-bind, eq→==, ne→==, arith,
  Bool-cases, inl, inr,
}
use cpp_util.Queues.HazardQueue.{Ptr, null}
use cpp_util.Queues.SharedQueue.Destroy.{Nodes, delete_between, finish, destroy}
use cpp_util.Queues.SharedQueue.Destroy.Finish.{
  IsLeft-Agree, release-IsLeft, finish_alone, finish_apart,
}
use cpp_util.Queues.SharedQueue.Destroy.Prepare.{Raised, Rest-Raised, prepare-Raised, prepare_alone}
use cpp_util.Queues.SharedQueue.Destroy.Release.{
  Agree, update_other, release-null-same, fewer, release_shared,
}
use cpp_util.Queues.SharedQueue.Destroy.Between.{delete_between-Deleted, IsHeld, IsNew, Rest}
use cpp_util.Queues.SharedQueue.Destroy.Finish.{IsLeft}

-- A list of nodes that no one uses but the queue: one shared pointer to each but two to the tail,
-- which is the head's own when there is no node behind it.
abbrev pub Resting : Ptr → Ptr → Nodes → List Ptr → Type 0
Resting head tail s [] = (head ≡ tail) × IsLeft head s 2
Resting head tail s (n ∷ ns) =
    (head ≢ tail)
    × (s.next head ≡ n)
    × IsHeld 1 tail head s
    × IsNew head (n ∷ ns)
    × Rest 1 tail s n ns

-- The first turn ends `start`.
drop_start :
    (fuel : ℕ) (tail n : Ptr) (a : Nodes)
    → n ≢ tail
    → n ≢ null
    → 1 < a.uses n
    → delete_between (suc fuel) n n tail a ≡ delete_between (suc fuel) null n tail (fewer n a)
unfolding delete_between
drop_start fuel tail n a ne some_node more =
    let goes_on : (n == tail || n == null) ≡ false =
      rw (ne→== n tail ne, ne→== n null some_node) refl in
    rw (goes_on, release_shared 1 n a some_node more) refl

stop_null :
    (fuel : ℕ) (tail : Ptr) (a : Nodes)
    → Returns
        (λ (start, i, b). (start ≡ null) × (i ≡ null) × (b ≡ a))
        (delete_between (suc fuel) null null tail a)
unfolding delete_between
stop_null fuel tail a = elim (Bool-cases (null == tail)) [
  | inl e ↦ rw e (returns (refl, refl, refl))
  | inr e ↦ rw e (returns (refl, refl, refl))
]

-- What follows `prepare`, for one node behind the head, and for more.
behind_pair :
    (head tail : Ptr) (fuel : ℕ) (a : Nodes)
    → head ≢ tail
    → IsLeft head a 2
    → IsLeft tail a 4
    → Returns
        (λ s'. s'.deleted ≡ (a.deleted ++ tail ∷ []) ++ head ∷ [])
        (delete_between (suc fuel) tail tail tail a >>= λ (start, i, b). finish head tail start i b)
unfolding delete_between
behind_pair head tail fuel a apart h t =
    let stops : (tail == tail || tail == null) ≡ true = rw (eq→== tail tail refl) refl in
    rw stops (finish_apart head tail tail 1 a apart (λ d left. release-IsLeft tail d 0 left) h t)

behind_long :
    (head tail n m : Ptr) (ns : List Ptr) (fuel : ℕ) (a : Nodes)
    → head ≢ tail
    → IsLeft head a 2
    → 1 < a.uses n
    → IsNew head (n ∷ m ∷ ns)
    → Rest 2 tail (fewer n a) n (m ∷ ns)
    → length (m ∷ ns) < suc fuel
    → Returns
        (λ s'. s'.deleted ≡ (a.deleted ++ n ∷ m ∷ ns) ++ head ∷ [])
        (delete_between (suc fuel) n n tail a >>= λ (start, i, b). finish head tail start i b)
behind_long head tail n m ns fuel a apart h more new rest enough =
    let other : Agree head a (fewer n a) = record {
      next = refl;
      uses = update_other a.uses n head _ (λ e. new.0 (sym e));
      delete_self = refl;
      live = refl;
    } in
    rw (drop_start fuel tail n a rest.1 rest.0.some_node more) (
      Returns-bind (delete_between-Deleted 2 tail n (m ∷ ns) (suc fuel) (fewer n a) rest enough)
        λ (start, i, b) (none_there, at_tail, d).
          let (held, same_tail, end) = d.rest in
          let tail_b : IsLeft tail b 3 = record {
            some_node = held.some_node;
            live = held.live;
            on = held.on;
            end = end;
            count = ground (arith, held.count);
          } in
          rw (none_there, at_tail)
            (Returns-map
              (finish_apart head tail null 0 b apart
                (λ e left.
                  Returns-map (release-null-same e)
                    λ f (same, agree). (IsLeft-Agree (agree tail) left, same, λ q ne. agree q))
                (IsLeft-Agree (d.others head new) (IsLeft-Agree other h)) tail_b)
              λ last listed. listed ∙ ap (λ l. l ++ head ∷ []) d.listed))

destroy_alone :
    (head : Ptr) (fuel : ℕ) (s : Nodes)
    → IsLeft head s 2
    → Returns (λ s'. s'.deleted ≡ s.deleted ++ head ∷ []) (destroy (suc fuel) head head s)
unfolding destroy
destroy_alone head fuel s h =
    Returns-bind (prepare_alone head s h) λ (start, a) (none_there, left_a, same_a).
      subst
        (λ k.
          Returns (λ s'. s'.deleted ≡ s.deleted ++ head ∷ [])
            (delete_between (suc fuel) k k head a >>= λ (x, i, b). finish head head x i b))
        (sym none_there)
        (Returns-bind (stop_null fuel head a) λ (x, i, b) (e, e', e'').
          rw (e, e', e'')
            (Returns-map (finish_alone head a left_a)
              λ last listed. listed ∙ ap (λ l. l ++ head ∷ []) same_a))

counted_more :
    (a : Nodes) (n : Ptr) (k : ℕ)
    → (fewer n a).uses n ≡ suc k
    → 1 < a.uses n
    → a.uses n ≡ suc (suc k)
counted_more a n k e more = ground arith

-- The head behind `prepare`.
prepared_head :
    (head tail n : Ptr) (s a : Nodes)
    → IsHeld 1 tail head s
    → head ≢ tail
    → Raised head tail s (fewer n a)
    → a.next head ≡ null
    → a.uses head ≡ s.uses head + 1
    → IsLeft head a 2
prepared_head head tail n s a held apart raised end uses = record {
  some_node = held.some_node;
  live = raised.live head ∙ held.live;
  on = raised.delete_self head ∙ held.on;
  end = end;
  count = ground (arith, held.count);
}

destroy_pair :
    (head tail n : Ptr) (fuel : ℕ) (s : Nodes)
    → Resting head tail s (n ∷ [])
    → Returns
        (λ s'. s'.deleted ≡ (s.deleted ++ n ∷ []) ++ head ∷ [])
        (destroy (suc fuel) head tail s)
unfolding destroy
destroy_pair head tail n fuel s (apart, to, held, new, rest) =
    let (held_n, at_tail, end_n) = rest in
    Returns-bind
      (prepare-Raised head tail n s held.some_node held_n.some_node
        (λ e. held_n.some_node (at_tail ∙ e)) new.0 (λ e. apart (sym e)) held.live to
        (ground (arith, held_n.count)))
      λ (start, a) (is_n, more, raised, same, end_head, uses_head).
        let (held_a, _, end_a) = Rest-Raised 1 head tail n [] s (fewer n a) raised new rest in
        let left_head : IsLeft head a 2 =
          prepared_head head tail n s a held apart raised end_head uses_head in
        let left_tail : IsLeft tail a 4 =
          subst (λ k. IsLeft k a 4) at_tail
            record {
              some_node = held_n.some_node;
              live = held_a.live;
              on = held_a.on;
              end = end_a;
              count = counted_more a n 2 (held_a.count ∙ ground arith) more;
            } in
        subst
          (λ k.
            Returns (λ s'. s'.deleted ≡ (s.deleted ++ n ∷ []) ++ head ∷ [])
              (delete_between (suc fuel) k k tail a >>= λ (x, i, b). finish head tail x i b))
          (sym (is_n ∙ at_tail))
          (Returns-map (behind_pair head tail fuel a apart left_head left_tail) λ last listed.
            listed
            ∙ ap (λ l. (l ++ tail ∷ []) ++ head ∷ []) same
            ∙ ap (λ k. (s.deleted ++ k ∷ []) ++ head ∷ []) (sym at_tail))

some_tail :
    (extra : ℕ) (tail p : Ptr) (s : Nodes) (ns : List Ptr) → Rest extra tail s p ns → tail ≢ null
some_tail extra tail p s [] (h, e, _) z = h.some_node (e ∙ z)
some_tail extra tail p s (n ∷ ns) (_, _, _, _, rest) z = some_tail extra tail n s ns rest z

destroy_long :
    (head tail n m : Ptr) (ns : List Ptr) (fuel : ℕ) (s : Nodes)
    → Resting head tail s (n ∷ m ∷ ns)
    → length (m ∷ ns) < suc fuel
    → Returns
        (λ s'. s'.deleted ≡ (s.deleted ++ n ∷ m ∷ ns) ++ head ∷ [])
        (destroy (suc fuel) head tail s)
unfolding destroy
destroy_long head tail n m ns fuel s (apart, to, held, new, rest) enough =
    let held_n = rest.0 in
    Returns-bind
      (prepare-Raised head tail n s held.some_node held_n.some_node
        (some_tail 1 tail n s (m ∷ ns) rest) new.0 (λ e. apart (sym e)) held.live to
        (ground (arith, held_n.count)))
      λ (start, a) (is_n, more, raised, same, end_head, uses_head).
        let left_head : IsLeft head a 2 =
          prepared_head head tail n s a held apart raised end_head uses_head in
        let rest_a = Rest-Raised 1 head tail n (m ∷ ns) s (fewer n a) raised new rest in
        subst
          (λ k.
            Returns (λ s'. s'.deleted ≡ (s.deleted ++ n ∷ m ∷ ns) ++ head ∷ [])
              (delete_between (suc fuel) k k tail a >>= λ (x, i, b). finish head tail x i b))
          (sym is_n)
          (Returns-map (behind_long head tail n m ns fuel a apart left_head more new rest_a enough)
            λ last listed. listed ∙ ap (λ l. (l ++ n ∷ m ∷ ns) ++ head ∷ []) same)

-- The destructor of a queue at rest, whose nodes behind the head are `ns`, returns, without an access
-- to a node that is deleted, when its fuel is above the number of those nodes: it deletes each of them
-- once, in their order, and then the head, and nothing else.
pub destroy-deleted :
    (head tail : Ptr) (ns : List Ptr) (fuel : ℕ) (s : Nodes)
    → Resting head tail s ns
    → length ns < fuel
    → Returns (λ s'. s'.deleted ≡ (s.deleted ++ ns) ++ head ∷ []) (destroy fuel head tail s)
destroy-deleted head tail ns zero s r enough = absurd (omega arith)
destroy-deleted head tail [] (suc fuel) s (e, h) enough =
    subst
      (λ k.
        Returns (λ s'. s'.deleted ≡ (s.deleted ++ []) ++ head ∷ []) (destroy (suc fuel) head k s))
      e
      (Returns-map (destroy_alone head fuel s h)
        λ s' listed. listed ∙ ap (λ l. l ++ head ∷ []) (sym (append-nil s.deleted)))
destroy-deleted head tail (n ∷ []) (suc fuel) s r enough = destroy_pair head tail n fuel s r
destroy-deleted head tail (n ∷ m ∷ ns) (suc fuel) s r enough =
    destroy_long head tail n m ns fuel s r (omega arith)
