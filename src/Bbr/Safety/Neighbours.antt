-- ===== src/Bbr/Safety/Neighbours.antt =====
-- About RemoveClusterLE (my_bbr_sender.cc) and the previous cluster of a cluster in the list.
use stupid_simple.Base.{
  ℕ, zero, suc, ◌≤◌, ◌<◌, ◌≡◌, refl, ap, sym, ◌∙◌, ◌⊎◌, inl, inr, ◌==◌, ==_iff, Bool-cases, leb,
  if◌then◌else◌, Option, none, some, List, [], ◌∷◌, length, arith, true, false,
}
use stupid_simple.Bbr.Cluster.{SentClusterInfo, deref, store, remove_cluster_le}
use stupid_simple.Bbr.Safety.Links.{Linked, view, Live, deref_cases}

pub Live-above :
    (prev : Option ℕ) (lo p : ℕ) (cs : List SentClusterInfo)
    → Linked prev lo cs
    → Live p (view cs)
    → lo < p
Live-above prev lo p [] l h = absurd h
Live-above prev lo p (c ∷ cs) l (inl e) = omega arith
Live-above prev lo p (c ∷ cs) l (inr h) =
    omega (arith, l.0, Live-above (some c.cluster_id) c.cluster_id p cs l.4 h)

-- The previous cluster lies at or behind the cluster in front of the list.
prev-ge :
    (a r q : ℕ) (cs : List SentClusterInfo) (c : SentClusterInfo)
    → Linked (some a) a cs
    → deref r cs ≡ some c
    → c.prev ≡ some q
    → a ≤ q
prev-ge a r q [] c l h e = unfold deref in cc
prev-ge a r q (x ∷ cs) c l h e = elim (deref_cases r x cs c h) [
  | inl (_, same) ↦ let e' : some a ≡ some q = sym l.1 ∙ ap (λ y. y.prev) same ∙ e in ground arith
  | inr (_, rest) ↦ omega (arith, l.0, prev-ge x.cluster_id r q cs c l.4 rest e)
]

-- It is a live cluster, unless it is the one in front of the list.
pub prev-Live :
    (prev : Option ℕ) (lo r q : ℕ) (cs : List SentClusterInfo) (c : SentClusterInfo)
    → Linked prev lo cs
    → deref r cs ≡ some c
    → c.prev ≡ some q
    → (prev ≡ some q) ⊎ Live q (view cs)
prev-Live prev lo r q [] c l h e = unfold deref in cc
prev-Live prev lo r q (x ∷ cs) c l h e = elim (deref_cases r x cs c h) [
  | inl (_, same) ↦ inl (sym l.1 ∙ ap (λ y. y.prev) same ∙ e)
  | inr (_, rest) ↦ elim (prev-Live (some x.cluster_id) x.cluster_id r q cs c l.4 rest e) [
    | inl here ↦ inr (inl (ground arith))
    | inr later ↦ inr (inr later)
  ]
]

-- It lies before the cluster itself.
pub prev-lt :
    (prev : Option ℕ) (lo r q : ℕ) (cs : List SentClusterInfo) (c : SentClusterInfo)
    → ((n : ℕ) → prev ≡ some n → n ≤ lo)
    → Linked prev lo cs
    → deref r cs ≡ some c
    → c.prev ≡ some q
    → q < r
prev-lt prev lo r q [] c b l h e = unfold deref in cc
prev-lt prev lo r q (x ∷ cs) c b l h e = elim (deref_cases r x cs c h) [
  | inl (at, same) ↦ omega (arith, l.0, b q (sym l.1 ∙ ap (λ y. y.prev) same ∙ e))
  | inr (_, rest) ↦
      prev-lt (some x.cluster_id) x.cluster_id r q cs c (λ n s. ground arith) l.4 rest e
]

-- No live cluster lies between the two.
pub prev-ge-Live :
    (prev : Option ℕ) (lo m r q : ℕ) (cs : List SentClusterInfo) (c : SentClusterInfo)
    → Linked prev lo cs
    → Live m (view cs)
    → m < r
    → deref r cs ≡ some c
    → c.prev ≡ some q
    → m ≤ q
prev-ge-Live prev lo m r q [] c l live lt h e = absurd live
prev-ge-Live prev lo m r q (x ∷ cs) c l live lt h e = elim (deref_cases r x cs c h) [
  | inl (at, same) ↦ elim live [
    | inl is ↦ absurd (omega arith)
    | inr later ↦ absurd (omega (arith, Live-above (some x.cluster_id) x.cluster_id m cs l.4 later))
  ]
  | inr (_, rest) ↦ elim live [
    | inl is ↦ omega (arith, is, prev-ge x.cluster_id r q cs c l.4 rest e)
    | inr later ↦ prev-ge-Live (some x.cluster_id) x.cluster_id m r q cs c l.4 later lt rest e
  ]
]

-- The view without the ids up to `round`.
unfoldable pub above : ℕ → List (ℕ × ℕ) → List (ℕ × ℕ)
above round [] = []
above round (e ∷ v) = if leb e.0 round then above round v else e ∷ v

-- One round of RemoveClusterLE: the link of the second cluster is cut and the first erased.
remove_step :
    (fuel round lo : ℕ) (c d : SentClusterInfo) (cs : List SentClusterInfo)
    → Linked none lo (c ∷ d ∷ cs)
    → leb c.cluster_id round ≡ true
    → remove_cluster_le (suc fuel) round (c ∷ d ∷ cs)
      ≡ remove_cluster_le fuel round (record d { prev = none } ∷ cs)
unfolding remove_cluster_le deref store
remove_step fuel round lo c d cs l h =
    let apart : (c.cluster_id == d.cluster_id) ≡ false = ground (arith, l.4.0) in
    let self : (d.cluster_id == d.cluster_id) ≡ true = (==_iff d.cluster_id d.cluster_id).1 refl in
    rw (h, remove_cluster_le)
      (rw (l.2, remove_cluster_le)
        (rw (apart, remove_cluster_le) (rw (self, remove_cluster_le) (rw self))))

-- RemoveClusterLE ends with fuel for each cluster, follows no dangling link, and leaves the
-- clusters above `round`, linked.
pub remove_keeps :
    (fuel round lo : ℕ) (cs : List SentClusterInfo)
    → length cs ≤ fuel
    → Linked none lo cs
    → (kept : List SentClusterInfo) × (remove_cluster_le fuel round cs ≡ some kept)
      × Linked none lo kept
      × (view kept ≡ above round (view cs))
unfolding above
remove_keeps fuel round lo [] h l = ([], unfold remove_cluster_le in refl, tt, refl)
remove_keeps zero round lo (c ∷ cs) h l = absurd (omega arith)
remove_keeps (suc fuel) round lo (c ∷ []) h l = elim (Bool-cases (leb c.cluster_id round)) [
  | inl gone ↦ (
    [],
    unfold remove_cluster_le in rw (gone, remove_cluster_le) (rw (l.2, remove_cluster_le)),
    tt,
    rw gone,
  )
  | inr stays ↦ (c ∷ [], unfold remove_cluster_le in rw (stays, remove_cluster_le), l, rw stays)
]
remove_keeps (suc fuel) round lo (c ∷ d ∷ cs) h l = elim (Bool-cases (leb c.cluster_id round)) [
  | inl gone ↦
      let (kept, e, linked, v) =
        remove_keeps fuel round lo (record d { prev = none } ∷ cs) (omega arith)
          (omega (arith, l.0, l.4.0), refl, l.4.2, l.4.3, l.4.4) in
      (kept, remove_step fuel round lo c d cs l gone ∙ e, linked, rw gone v)
  | inr stays ↦ (c ∷ d ∷ cs, unfold remove_cluster_le in rw (stays, remove_cluster_le), l, rw stays)
]
