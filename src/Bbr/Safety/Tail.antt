-- ===== src/Bbr/Safety/Tail.antt =====
-- The list of clusters with a new one at its end.
use stupid_simple.Base.{
  ℕ, ◌≤◌, ◌<◌, ◌≡◌, refl, ap, sym, ◌∙◌, inl, inr, ◌==◌, ==_iff, Bool-cases, ltb, Option, none, some,
  List, [], ◌∷◌, ◌++◌, length, All, arith, false,
}
use stupid_simple.Bbr.Cluster.{SentClusterInfo, deref, store, insert_cluster, last_cluster}
use stupid_simple.Bbr.Safety.Links.{
  head_id, head_id-store, Linked, view, Live, deref_cases, deref-id,
}
use stupid_simple.Bbr.Safety.Neighbours.{Live-above}

abbrev pub Under : ℕ → List SentClusterInfo → Type 0
Under n cs = All (λ (e : ℕ × ℕ). e.0 < n) (view cs)

pub insert_cluster-last :
    (v : SentClusterInfo) (cs : List SentClusterInfo)
    → Under v.cluster_id cs
    → insert_cluster v cs ≡ cs ++ (v ∷ [])
unfolding insert_cluster
insert_cluster-last v [] u = refl
insert_cluster-last v (c ∷ cs) u =
    let later : ltb v.cluster_id c.cluster_id ≡ false = ground (arith, u.0) in
    rw later (ap (◌∷◌ c) (insert_cluster-last v cs u.1))

pub deref-append_last :
    (v : SentClusterInfo) (cs : List SentClusterInfo)
    → Under v.cluster_id cs
    → deref v.cluster_id (cs ++ (v ∷ [])) ≡ some v
unfolding deref
deref-append_last v [] u = rw ((==_iff v.cluster_id v.cluster_id).1 refl)
deref-append_last v (c ∷ cs) u =
    let other : (c.cluster_id == v.cluster_id) ≡ false = ground (arith, u.0) in
    rw other (deref-append_last v cs u.1)

pub store-append_last :
    (v w : SentClusterInfo) (cs : List SentClusterInfo)
    → Under v.cluster_id cs
    → store v.cluster_id w (cs ++ (v ∷ [])) ≡ cs ++ (w ∷ [])
unfolding store
store-append_last v w [] u = rw ((==_iff v.cluster_id v.cluster_id).1 refl)
store-append_last v w (c ∷ cs) u =
    let other : (c.cluster_id == v.cluster_id) ≡ false = ground (arith, u.0) in
    rw other (ap (◌∷◌ c) (store-append_last v w cs u.1))

-- Where no cluster has the id `n`, ids up to `n` are below it.
pub Under-of_missing :
    (n : ℕ) (cs : List SentClusterInfo)
    → All (λ (e : ℕ × ℕ). e.0 ≤ n) (view cs)
    → deref n cs ≡ none
    → Under n cs
unfolding deref
Under-of_missing n [] b h = tt
Under-of_missing n (c ∷ cs) b h = elim (Bool-cases (c.cluster_id == n)) [
  | inl hit ↦ absurd (let e : some c ≡ none = rw hit at h in cc)
  | inr miss ↦ (ground (arith, b.0), Under-of_missing n cs b.1 (rw miss at h))
]

pub last_cluster-Live :
    (p : ℕ) (cs : List SentClusterInfo) → last_cluster cs ≡ some p → Live p (view cs)
unfolding last_cluster
last_cluster-Live p [] h = cc
last_cluster-Live p (c ∷ []) h = inl (ground arith)
last_cluster-Live p (c ∷ d ∷ cs) h = inr (last_cluster-Live p (d ∷ cs) h)

pub last_cluster-none : (cs : List SentClusterInfo) → last_cluster cs ≡ none → cs ≡ []
unfolding last_cluster
last_cluster-none [] h = refl
last_cluster-none (c ∷ []) h = cc
last_cluster-none (c ∷ d ∷ cs) h = absurd (let e : d ∷ cs ≡ [] = last_cluster-none (d ∷ cs) h in cc)

head_id-append :
    (xs : List SentClusterInfo) (v : SentClusterInfo) (a : ℕ)
    → head_id xs ≡ some a
    → head_id (xs ++ (v ∷ [])) ≡ some a
head_id-append [] v a h = cc
head_id-append (x ∷ xs) v a h = h

pub view-append : (xs ys : List SentClusterInfo) → view (xs ++ ys) ≡ view xs ++ view ys
view-append [] ys = refl
view-append (x ∷ xs) ys = ap (◌∷◌ (x.cluster_id, x.first_ack_ts)) (view-append xs ys)

-- A new cluster behind the last, with the links between the two.
pub append-Linked :
    (prev : Option ℕ) (lo p : ℕ) (v c : SentClusterInfo) (cs : List SentClusterInfo)
    → Linked prev lo cs
    → last_cluster cs ≡ some p
    → deref p cs ≡ some c
    → Under v.cluster_id cs
    → v.prev ≡ some p
    → v.next ≡ none
    → 0 < length v.packet_infos
    → Linked prev lo (store p (record c { next = some v.cluster_id }) cs ++ (v ∷ []))
unfolding last_cluster store deref
append-Linked prev lo p v c [] l h d u vp vn packet = cc
append-Linked prev lo p v c (x ∷ []) l h d u vp vn packet = elim (deref_cases p x [] c d) [
  | inl (at, same) ↦ rw ((==_iff x.cluster_id p).1 at) (
    rw (← same) l.0,
    rw (← same) l.1,
    refl,
    rw (← same) l.3,
    (rw (← same) u.0, vp ∙ ap some (sym at ∙ ap (λ y. y.cluster_id) same), vn, packet, tt),
  )
  | inr (_, rest) ↦ cc
]
append-Linked prev lo p v c (x ∷ y ∷ cs) l h d u vp vn packet =
    elim (deref_cases p x (y ∷ cs) c d) [
      | inl (at, same) ↦ absurd (
          omega (
            arith,
            at,
            Live-above (some x.cluster_id) x.cluster_id p (y ∷ cs) l.4
                (last_cluster-Live p (y ∷ cs) h),
          ))
      | inr (miss, rest) ↦ rw miss (
        l.0,
        l.1,
        l.2
            ∙ sym (
                head_id-append _ v y.cluster_id
                  (head_id-store p _ (y ∷ cs) (deref-id p (y ∷ cs) c rest))),
        l.3,
        append-Linked (some x.cluster_id) x.cluster_id p v c (y ∷ cs) l.4 h rest u.1 vp vn packet,
      )
    ]
