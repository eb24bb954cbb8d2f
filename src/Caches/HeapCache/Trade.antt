-- ===== src/Caches/HeapCache/Trade.antt =====
-- One round of `increase_key`: a key trades places with its parent.
use cpp_util.Prelude.{
  ℕ, ◌≤◌, ◌<◌, ◌≡◌, refl, ◌≢◌, inl, inr, sym, ap, ◌∙◌, some, List, length, get_elem?, set,
  length-set, get_elem?-set, ◌==◌, if◌then◌else◌, ok, arith, Bool-cases, subst, ne→==,
}
use cpp_util.Dict.{find, modify}
use cpp_util.Dict.Laws.{find-modify_self, find-modify_ne, modify-IsUnique, length-modify}
use cpp_util.Caches.HeapCache.{Citem, HeapCache, move_to, swap_parent}
use cpp_util.Caches.HeapCache.Invariant.{IsLinked, IsEdge, facts, IsSame}

module _ {ℓ} {K V : Type ℓ} (dec : Discrete K) where
  -- The map after the two items have traded places.
  abbrev pub relocated : K → K → Citem V → Citem V → List (K × Citem V) → List (K × Citem V)
  relocated k pk c p m = modify dec pk (move_to c.loc) (modify dec k (move_to p.loc) m)

  module _ (m : List (K × Citem V)) (k pk : K) (c p : Citem V) (apart : k ≢ pk)
      (fc : find dec k m ≡ some c) (fp : find dec pk m ≡ some p) where
    find-relocated_key : find dec k (relocated k pk c p m) ≡ some (move_to p.loc c)
    find-relocated_key =
        find-modify_ne dec k pk (move_to c.loc) _ (λ e. apart (sym e))
        ∙ find-modify_self dec k (move_to p.loc) m c fc

    find-relocated_parent : find dec pk (relocated k pk c p m) ≡ some (move_to c.loc p)
    find-relocated_parent =
        find-modify_self dec pk (move_to c.loc) _ p
          (find-modify_ne dec pk k (move_to p.loc) m apart ∙ fp)

    find-relocated_other :
        (j : K) → k ≢ j → pk ≢ j → find dec j (relocated k pk c p m) ≡ find dec j m
    find-relocated_other j u v =
        find-modify_ne dec j pk (move_to c.loc) _ v ∙ find-modify_ne dec j k (move_to p.loc) m u

    -- Whose item is found after the trade.
    data Found (j : K) (d : Citem V) : Type ℓ where
      of_key : j ≡ k → d ≡ move_to p.loc c → Found j d
      of_parent : j ≡ pk → d ≡ move_to c.loc p → Found j d
      of_other : k ≢ j → pk ≢ j → find dec j m ≡ some d → Found j d

    found : (j : K) (d : Citem V) → find dec j (relocated k pk c p m) ≡ some d → Found j d
    found j d h = elim (dec k j) [
      | yes e ↦ of_key (sym e) (cc find-relocated_key)
      | no u ↦ elim (dec pk j) [
        | yes e ↦ of_parent (sym e) (cc find-relocated_parent)
        | no v ↦ of_other u v (sym (find-relocated_other j u v) ∙ h)
      ]
    ]

  -- Two keys have two places.
  pub loc-ne :
      {h : HeapCache K V}
      → IsLinked dec h
      → (k j : K) (c d : Citem V) → find dec k h.keymap ≡ some c
      → find dec j h.keymap ≡ some d
      → k ≢ j
      → c.loc ≢ d.loc
  loc-ne {h} l k j c d fc fd u =
      λ e. u (cc ((l.located k c fc).2, (l.located j d fd).2, ap (get_elem? h.heap) e))

  -- Only the edge above `k` may be out of order.
  pub record IsSifting (k : K) (c : Citem V) (h : HeapCache K V) : Type ℓ where
    pub linked : IsLinked dec h
    pub here : find dec k h.keymap ≡ some c
    pub edges :
        (j q : K) (d e : Citem V)
        → find dec j h.keymap ≡ some d
        → find dec q h.keymap ≡ some e
        → IsEdge e d
        → j ≢ k
        → d.count ≤ e.count
    pub bridged :
        (j q : K) (d e : Citem V)
        → find dec j h.keymap ≡ some d
        → find dec q h.keymap ≡ some e
        → IsEdge c d
        → IsEdge e c
        → d.count ≤ e.count

  module _ (h : HeapCache K V) (k pk : K) (c p : Citem V) (s : IsSifting k c h)
      (fp : find dec pk h.keymap ≡ some p) (up : IsEdge p c) where
    pub apart : k ≢ pk
    apart e = ground (arith, s.here, ap (λ x. find dec x h.keymap) e)

    abbrev pub risen : HeapCache K V
    risen = record h {
      keymap = relocated k pk c p h.keymap;
      heap = set (set h.heap p.loc k) c.loc pk;
    }

    pub swap_parent-risen : swap_parent dec k pk c p h ≡ ok risen
    unfolding swap_parent
    swap_parent-risen = ground (arith, s.linked.located k c s.here, s.linked.located pk p fp)

    length-risen : length risen.heap ≡ length h.heap
    length-risen = length-set (set h.heap p.loc k) c.loc pk ∙ length-set h.heap p.loc k

    get-risen :
        (i : ℕ)
        → get_elem? risen.heap i
          ≡ (if c.loc == i then some pk else if p.loc == i then some k else get_elem? h.heap i)
    get-risen i = ground (
      arith,
      s.linked.located k c s.here,
      s.linked.located pk p fp,
      length-set h.heap p.loc k,
      get_elem?-set (set h.heap p.loc k) c.loc i pk,
      get_elem?-set h.heap p.loc i k,
    )

    abbrev WasFound : K → Citem V → Type ℓ
    WasFound = Found h.keymap k pk c p apart s.here fp

    risen-located :
        (j : K) (d : Citem V)
        → WasFound j d
        → (0 < d.loc) × (d.loc < length risen.heap) × (get_elem? risen.heap d.loc ≡ some j)
    risen-located j d (of_key e f) = ground (
      arith,
      length-risen,
      get-risen d.loc,
      s.linked.located k c s.here,
      s.linked.located pk p fp,
    )
    risen-located j d (of_parent e f) =
        ground (arith, length-risen, get-risen d.loc, s.linked.located k c s.here)
    risen-located j d (of_other u v f) =
        let old = s.linked.located j d f in
        let off_c : c.loc ≢ d.loc = loc-ne s.linked k j c d s.here f u in
        let off_p : p.loc ≢ d.loc = loc-ne s.linked pk j p d fp f v in
        let kept : get_elem? risen.heap d.loc ≡ get_elem? h.heap d.loc =
          get-risen d.loc ∙ rw (ne→== c.loc d.loc off_c, ne→== p.loc d.loc off_p) refl in
        (old.0, rw length-risen old.1, kept ∙ old.2)

    risen-held :
        (i : ℕ) (q : K)
        → 0 < i
        → get_elem? risen.heap i ≡ some q
        → (d : Citem V) × (find dec q risen.keymap ≡ some d) × (d.loc ≡ i)
    risen-held i q pos g = elim (Bool-cases (c.loc == i)) [
      | inl at_c ↦ (
        move_to c.loc p,
        subst (λ x. find dec x risen.keymap ≡ some (move_to c.loc p)) (ground (arith, get-risen i))
            (find-relocated_parent h.keymap k pk c p apart s.here fp),
        ground arith,
      )
      | inr off_c ↦ elim (Bool-cases (p.loc == i)) [
        | inl at_p ↦ (
          move_to p.loc c,
          subst (λ x. find dec x risen.keymap ≡ some (move_to p.loc c))
              (ground (arith, get-risen i)) (find-relocated_key h.keymap k pk c p apart s.here fp),
          ground arith,
        )
        | inr off_p ↦
            let (d, f, l) = s.linked.held i q pos (ground (arith, get-risen i)) in
            (
              d,
              find-relocated_other h.keymap k pk c p apart s.here fp q
                    (λ e. ground (arith, s.here, ap (λ x. find dec x h.keymap) e))
                    (λ e. ground (arith, fp, ap (λ x. find dec x h.keymap) e))
                  ∙ f,
              l,
            )
      ]
    ]

    risen-IsLinked : IsLinked dec risen
    risen-IsLinked = record {
      unique =
          modify-IsUnique dec pk (move_to c.loc) _
            (modify-IsUnique dec k (move_to p.loc) _ s.linked.unique);
      located = λ j d f. risen-located j d (found h.keymap k pk c p apart s.here fp j d f);
      held = risen-held;
    }

    module _ (below : p.count < c.count) where
      risen-edges :
          (j q : K) (d e : Citem V)
          → WasFound j d
          → WasFound q e
          → IsEdge e d
          → j ≢ k
          → d.count ≤ e.count
      risen-edges j q d e (of_key a b) y o n = absurd (n a)
      risen-edges j q d e (of_parent a b) (of_key a' b') o n = ground arith
      risen-edges j q d e (of_parent a b) (of_parent a' b') o n = ground arith
      risen-edges j q d e (of_parent a b) (of_other u v f) o n =
          ground (arith, s.linked.located q e f, s.linked.located pk p fp)
      risen-edges j q d e (of_other u v f) (of_key a b) o n = ground (arith, s.edges j pk d p f fp)
      risen-edges j q d e (of_other u v f) (of_parent a b) o n =
          ground (arith, s.bridged j pk d p f fp)
      risen-edges j q d e (of_other u v f) (of_other u' v' g) o n = s.edges j q d e f g o n

      risen-bridged :
          (j q : K) (d e : Citem V)
          → WasFound j d
          → WasFound q e
          → IsEdge (move_to p.loc c) d
          → IsEdge e (move_to p.loc c)
          → d.count ≤ e.count
      risen-bridged j q d e (of_key a b) y o n = ground arith
      risen-bridged j q d e x (of_key a b) o n = ground arith
      risen-bridged j q d e x (of_parent a b) o n = ground arith
      risen-bridged j q d e (of_parent a b) (of_other u v f) o n =
          ground (arith, s.edges pk q p e fp f)
      risen-bridged j q d e (of_other u v f) (of_other u' v' g) o n =
          ground (arith, s.edges j pk d p f fp, s.edges pk q p e fp g)

      pub risen-IsSifting : IsSifting k (move_to p.loc c) risen
      risen-IsSifting =
          let at = found h.keymap k pk c p apart s.here fp in
          record {
            linked = risen-IsLinked;
            here = find-relocated_key h.keymap k pk c p apart s.here fp;
            edges = λ j q d e f g. risen-edges j q d e (at j d f) (at q e g);
            bridged = λ j q d e f g. risen-bridged j q d e (at j d f) (at q e g);
          }

    pub risen-IsSame : IsSame dec h risen
    risen-IsSame = record {
      entries = length-modify dec pk (move_to c.loc) _ ∙ length-modify dec k (move_to p.loc) _;
      places = length-risen;
      limit = refl;
      bottom =
          get-risen 0
          ∙ rw
              (
                ne→== c.loc 0 (omega (arith, s.linked.located k c s.here)),
                ne→== p.loc 0 (omega (arith, s.linked.located pk p fp)),
              )
              refl;
      kept = kept;
    }
      where
        kept : (j : K) → facts (find dec j risen.keymap) ≡ facts (find dec j h.keymap)
        kept j = elim (dec k j) [
          | yes e ↦
              subst (λ x. facts (find dec x risen.keymap) ≡ facts (find dec x h.keymap)) e
                (cc (find-relocated_key h.keymap k pk c p apart s.here fp, s.here))
          | no u ↦ elim (dec pk j) [
            | yes e ↦
                subst (λ x. facts (find dec x risen.keymap) ≡ facts (find dec x h.keymap)) e
                  (cc (find-relocated_parent h.keymap k pk c p apart s.here fp, fp))
            | no v ↦ ap facts (find-relocated_other h.keymap k pk c p apart s.here fp j u v)
          ]
        ]
