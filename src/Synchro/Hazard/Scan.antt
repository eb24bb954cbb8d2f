-- ===== src/Synchro/Hazard/Scan.antt =====
-- `scan_delete`: what it deletes and what it keeps.
use cpp_util.Prelude.{
  ℕ, ◌≡◌, refl, ap, ◌∙◌, Bool, true, false, not, ◌||◌, ◌&&◌, fun_ext, Bool-cases, List, [], ◌∷◌,
  ◌++◌, ◌==◌, if◌then◌else◌, Bool-cases, inl, inr, arith,
}
use mathlib.Core.List.{append-nil, append_assoc}
use cpp_util.Synchro.Hazard.{
  Ptr, null, update, Rlist, Hazards, find, see, snapshot, sweep, delete_unseen, scan_delete,
}

-- Some record of the list protects `p`, which is not null.
unfoldable pub protects : List Ptr → (Ptr → Ptr) → Ptr → Bool
protects [] protected p = false
protects (rec ∷ rest) protected p =
    (not (p == null) && (protected rec == p)) || protects rest protected p

-- The entries that pass a test, in order.
unfoldable pub filter {ℓ} : {A : Type ℓ} → (A → Bool) → List A → List A
filter test [] = []
filter test (x ∷ xs) = let rest = filter test xs in if test x then x ∷ rest else rest

or_false : (b : Bool) → (b || false) ≡ b
or_false true = refl
or_false false = refl

pub find-snapshot :
    (head : List Ptr) (protected : Ptr → Ptr) (snap : List Ptr) (p : Ptr)
    → find p (snapshot head protected snap) ≡ (protects head protected p || find p snap)
unfolding snapshot find protects see
find-snapshot [] protected snap p = refl
find-snapshot (rec ∷ rest) protected snap p =
    ground (arith, find-snapshot rest protected (see (protected rec) snap) p)

module _ {ℓ} {D : Type ℓ} where
  pub sweep-filter :
      (snap : List Ptr) (rlist filtered deleted : Rlist D)
      → sweep snap rlist filtered deleted ≡ (
        filtered ++ filter (λ e. find e.0 snap) rlist,
        deleted ++ filter (λ e. not (find e.0 snap)) rlist,
      )
  unfolding sweep filter
  sweep-filter snap [] filtered deleted = rw (append-nil filtered, append-nil deleted) refl
  sweep-filter snap ((p, d) ∷ rest) filtered deleted = elim (Bool-cases (find p snap)) [
    | inl seen ↦
        rw (seen, sweep-filter snap rest (filtered ++ (p, d) ∷ []) deleted)
          (ap (λ l. (l, deleted ++ filter (λ e. not (find e.0 snap)) rest))
            (append_assoc filtered ((p, d) ∷ []) _))
    | inr unseen ↦
        rw (unseen, sweep-filter snap rest filtered (deleted ++ (p, d) ∷ []))
          (ap (λ l. (filtered ++ filter (λ e. find e.0 snap) rest, l))
            (append_assoc deleted ((p, d) ∷ []) _))
  ]

  -- The state behind a scan by the thread `t`: of its retired pointers, those that some record
  -- protects stay, in order, and the others are deleted, in order.
  abbrev pub scanned : ℕ → Hazards D → Hazards D
  scanned t s = record s {
    thread_retired =
        update s.thread_retired t
          (filter (λ e. protects s.head s.protected_ptr e.0) (s.thread_retired t));
    deleted =
        s.deleted ++ filter (λ e. not (protects s.head s.protected_ptr e.0)) (s.thread_retired t);
  }

  -- A scan keeps the retired pointers of its thread that are not null and that some record
  -- protects, in order, and calls the deleters of all others, in order; no other part of the
  -- state changes.
  pub scan_delete-scanned : (t : ℕ) (s : Hazards D) → scan_delete t s ≡ scanned t s
  unfolding scan_delete delete_unseen find
  scan_delete-scanned t s =
      let seen : (λ (p : Ptr). find p (snapshot s.head s.protected_ptr []))
          ≡ protects s.head s.protected_ptr =
        fun_ext λ p. find-snapshot s.head s.protected_ptr [] p ∙ or_false _ in
      rw (sweep-filter (snapshot s.head s.protected_ptr []) (s.thread_retired t) [] s.deleted) (
        ap
          (λ g. record s {
            thread_retired = update s.thread_retired t (filter (λ e. g e.0) (s.thread_retired t));
            deleted = s.deleted ++ filter (λ e. not (g e.0)) (s.thread_retired t);
          })
          seen)
