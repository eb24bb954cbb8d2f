-- ===== src/Queues/SharedQueue/Destroy/Finish.antt =====
-- src/queues/shared_queue.tpp: the shared pointers that end behind the loop, and the deletion of the tail and the head.
use cpp_util.Prelude.{
  ℕ, suc, ◌≡◌, refl, ◌≢◌, ap, ◌∙◌, sym, true, false, [], ◌∷◌, ◌++◌, Returns, returns, Returns-map,
  Returns-bind, eq→==, ne→==, ℕ_discrete, arith,
}
use cpp_util.Queues.HazardQueue.{Ptr, null, update}
use cpp_util.Queues.SharedQueue.Destroy.{Nodes, release, finish}
use cpp_util.Queues.SharedQueue.Destroy.Release.{
  release_shared, release_last, Agree, Gone, update_other, touch-Returns, release-null-same,
}

-- The last node or the first, with `x` shared pointers to it.
pub record IsLeft (p : Ptr) (s : Nodes) (x : ℕ) : Type 0 where
  pub some_node : p ≢ null
  pub live : s.live p ≡ true
  pub on : s.delete_self p ≡ true
  pub end : s.next p ≡ null
  pub count : s.uses p ≡ x

pub IsLeft-Agree : {p : Ptr} {s s' : Nodes} {x : ℕ} → Agree p s s' → IsLeft p s x → IsLeft p s' x
IsLeft-Agree a h = record {
  some_node = h.some_node;
  live = a.live ∙ h.live;
  on = a.delete_self ∙ h.on;
  end = a.next ∙ h.end;
  count = a.uses ∙ h.count;
}

-- A shared pointer ends that is not the last, and the last one.
pub release-IsLeft :
    (p : Ptr) (s : Nodes) (x : ℕ)
    → IsLeft p s (suc (suc x))
    → Returns
        (λ s'. IsLeft p s' (suc x) × (s'.deleted ≡ s.deleted) × ((q : Ptr) → q ≢ p → Agree q s s'))
        (release 2 p s)
release-IsLeft p s x h = rw (release_shared 1 p s h.some_node (omega (arith, h.count))) (
    returns (
      record {
        some_node = h.some_node;
        live = h.live;
        on = h.on;
        end = h.end;
        count = rw (eq→== p p refl) (omega (arith, h.count));
      },
      refl,
      λ q ne. record {
        next = refl;
        uses = update_other s.uses p q _ ne;
        delete_self = refl;
        live = refl;
      },
    ))

release-Gone : (p : Ptr) (s : Nodes) → IsLeft p s 1 → Returns (Gone p s) (release 2 p s)
release-Gone p s h = rw (release_last 0 p s h.some_node h.count h.live h.on h.end) (
    returns record {
      others = λ q ne. record {
        next = refl;
        uses = update_other s.uses p q _ ne;
        delete_self = refl;
        live = update_other s.live p q false ne;
      };
      listed = refl;
    })

-- `delete_self` is switched on again, where it was on.
switch-Agree :
    (p q : Ptr) (s : Nodes)
    → s.delete_self p ≡ true
    → Agree q s (record s { delete_self = update s.delete_self p true })
switch-Agree p q s on = record {
  next = refl;
  uses = refl;
  delete_self = elim (ℕ_discrete p q) [
    | yes e ↦ rw (eq→== p q e) (sym on ∙ ap s.delete_self e)
    | no ne ↦ rw (ne→== p q ne) refl
  ];
  live = refl;
}

-- A queue of one node: four shared pointers, and then none.
pub finish_alone :
    (head : Ptr) (s : Nodes)
    → IsLeft head s 4
    → Returns (λ s'. s'.deleted ≡ s.deleted ++ head ∷ []) (finish head head null null s)
unfolding finish
finish_alone head s h =
    let switched = IsLeft-Agree (switch-Agree head head s h.on) h in
    let b = record s { delete_self = update s.delete_self head true } in
    let again = IsLeft-Agree (switch-Agree head head b switched.on) switched in
    let c = record b { delete_self = update b.delete_self head true } in
    Returns-bind (touch-Returns head s h.live) λ _ _.
      Returns-bind (touch-Returns head b h.live) λ _ _.
        Returns-bind (release-IsLeft head c 2 again) λ d (left_d, same_d, _).
          Returns-bind (release-null-same d) λ d' (same_d', agree).
            Returns-bind (release-IsLeft head d' 1 (IsLeft-Agree (agree head) left_d))
              λ e (left_e, same_e, _).
                Returns-bind (release-IsLeft head e 0 left_e) λ f (left_f, same_f, _).
                  Returns-map (release-Gone head f left_f) λ g gone.
                    gone.listed ∙ ap (λ l. l ++ head ∷ []) (same_f ∙ same_e ∙ same_d' ∙ same_d)

-- A longer queue, where `start` may still hold the tail.
pub finish_apart :
    (head tail start : Ptr) (extra : ℕ) (s : Nodes)
    → head ≢ tail
    → ((d : Nodes)
        → IsLeft tail d (suc extra)
        → Returns
            (λ e. IsLeft tail e 1 × (e.deleted ≡ d.deleted) × ((q : Ptr) → q ≢ tail → Agree q d e))
            (release 2 start d))
    → IsLeft head s 2
    → IsLeft tail s (suc (suc (suc extra)))
    → Returns
        (λ s'. s'.deleted ≡ (s.deleted ++ tail ∷ []) ++ head ∷ [])
        (finish head tail start tail s)
unfolding finish
finish_apart head tail start extra s apart end_start h t =
    Returns-bind (release-IsLeft tail s (suc extra) t) λ a (tail_a, same_a, others_a).
      let head_a = IsLeft-Agree (others_a head apart) h in
      let b = record a { delete_self = update a.delete_self head true } in
      let head_b = IsLeft-Agree (switch-Agree head head a head_a.on) head_a in
      let tail_b = IsLeft-Agree (switch-Agree head tail a head_a.on) tail_a in
      let c = record b { delete_self = update b.delete_self tail true } in
      let head_c = IsLeft-Agree (switch-Agree tail head b tail_b.on) head_b in
      let tail_c = IsLeft-Agree (switch-Agree tail tail b tail_b.on) tail_b in
      Returns-bind (touch-Returns head a head_a.live) λ _ _.
        Returns-bind (touch-Returns tail b tail_b.live) λ _ _.
          Returns-bind (release-IsLeft tail c extra tail_c) λ d (tail_d, same_d, others_d).
            Returns-bind (end_start d tail_d) λ e (tail_e, same_e, others_e).
              let head_e =
                IsLeft-Agree (others_e head apart) (IsLeft-Agree (others_d head apart) head_c) in
              Returns-bind (release-IsLeft head e 0 head_e) λ f (head_f, same_f, others_f).
                Returns-bind
                  (release-Gone tail f (IsLeft-Agree (others_f tail (λ q. apart (sym q))) tail_e))
                  λ g gone.
                    Returns-map (release-Gone head g (IsLeft-Agree (gone.others head apart) head_f))
                      λ last gone'.
                        gone'.listed
                        ∙ ap (λ l. l ++ head ∷ [])
                            (gone.listed
                              ∙ ap (λ l. l ++ tail ∷ []) (same_f ∙ same_e ∙ same_d ∙ same_a))
