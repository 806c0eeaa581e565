-- ===== src/Bbr/Safety/Links.antt =====
-- The list of live clusters: ids rise, prev_ and next_ name the neighbours, every cluster has a
-- packet. Its view is the list of ids with the time of the first acknowledgement (0: none yet).
use stupid_simple.Base.{
  ℕ, ◌≤◌, ◌<◌, ◌≡◌, refl, ap, sym, ◌∙◌, ◌⊎◌, inl, inr, ◌==◌, ==_iff, Bool-cases, if◌then◌else◌,
  Option, none, some, List, [], ◌∷◌, length, arith, false, ◌≢◌,
}
use stupid_simple.Bbr.Cluster.{SentClusterInfo, deref, store}

abbrev pub head_id : List SentClusterInfo → Option ℕ
head_id [] = none
head_id (c ∷ cs) = some c.cluster_id

abbrev pub Linked : Option ℕ → ℕ → List SentClusterInfo → Type 0
Linked prev lo [] = Unit {0}
Linked prev lo (c ∷ cs) =
    (lo < c.cluster_id)
    × (c.prev ≡ prev)
    × (c.next ≡ head_id cs)
    × (0 < length c.packet_infos)
    × Linked (some c.cluster_id) c.cluster_id cs

abbrev pub view : List SentClusterInfo → List (ℕ × ℕ)
view [] = []
view (c ∷ cs) = (c.cluster_id, c.first_ack_ts) ∷ view cs

-- A pair of the view, and an id that is live.
abbrev pub In : ℕ → ℕ → List (ℕ × ℕ) → Type 0
In p a [] = ⊥
In p a (e ∷ v) = ((e.0 ≡ p) × (e.1 ≡ a)) ⊎ In p a v

abbrev pub Live : ℕ → List (ℕ × ℕ) → Type 0
Live p [] = ⊥
Live p (e ∷ v) = (e.0 ≡ p) ⊎ Live p v

-- The view after a write of `a` at the id `p`.
unfoldable pub set_ack : ℕ → ℕ → List (ℕ × ℕ) → List (ℕ × ℕ)
set_ack p a [] = []
set_ack p a (e ∷ v) = if e.0 == p then (p, a) ∷ v else e ∷ set_ack p a v

-- A write that keeps the id and the links of what it replaces.
pub record Keeps (c d : SentClusterInfo) : Type 0 where
  pub same_id : d.cluster_id ≡ c.cluster_id
  pub same_prev : d.prev ≡ c.prev
  pub same_next : d.next ≡ c.next
  pub has_packet : 0 < length d.packet_infos

pub Linked-weaken :
    (prev : Option ℕ) (lo lo' : ℕ) (cs : List SentClusterInfo)
    → lo' ≤ lo
    → Linked prev lo cs
    → Linked prev lo' cs
Linked-weaken prev lo lo' [] h l = tt
Linked-weaken prev lo lo' (c ∷ cs) h l = (omega arith, l.1, l.2, l.3, l.4)

pub deref-Live :
    (p : ℕ) (cs : List SentClusterInfo)
    → Live p (view cs)
    → (c : SentClusterInfo) × (deref p cs ≡ some c)
unfolding deref
deref-Live p [] h = absurd h
deref-Live p (c ∷ cs) h = elim (Bool-cases (c.cluster_id == p)) [
  | inl hit ↦ (c, rw hit)
  | inr miss ↦ rw miss (deref-Live p cs (ground arith))
]

-- What a read of a list with a first cluster found.
pub deref_cases :
    (p : ℕ) (x : SentClusterInfo) (cs : List SentClusterInfo) (c : SentClusterInfo)
    → deref p (x ∷ cs) ≡ some c
    → ((x.cluster_id ≡ p) × (x ≡ c)) ⊎ (((x.cluster_id == p) ≡ false) × (deref p cs ≡ some c))
unfolding deref
deref_cases p x cs c h = elim (Bool-cases (x.cluster_id == p)) [
  | inl hit ↦ inl ((==_iff x.cluster_id p).0 hit, cc (rw hit at h))
  | inr miss ↦ inr (miss, rw miss at h)
]

pub deref-id :
    (p : ℕ) (cs : List SentClusterInfo) (c : SentClusterInfo)
    → deref p cs ≡ some c
    → c.cluster_id ≡ p
deref-id p [] c h = unfold deref in cc
deref-id p (d ∷ cs) c h = elim (deref_cases p d cs c h) [
  | inl (e, same) ↦ rw (← same) e
  | inr (_, rest) ↦ deref-id p cs c rest
]

pub deref-In :
    (p : ℕ) (cs : List SentClusterInfo) (c : SentClusterInfo)
    → deref p cs ≡ some c
    → In p c.first_ack_ts (view cs)
deref-In p [] c h = unfold deref in cc
deref-In p (d ∷ cs) c h = elim (deref_cases p d cs c h) [
  | inl (e, same) ↦ inl (e, ap (λ x. x.first_ack_ts) same)
  | inr (_, rest) ↦ inr (deref-In p cs c rest)
]

-- A cluster that can be read has a packet.
pub deref-has_packet :
    (prev : Option ℕ) (lo p : ℕ) (cs : List SentClusterInfo) (c : SentClusterInfo)
    → Linked prev lo cs
    → deref p cs ≡ some c
    → 0 < length c.packet_infos
deref-has_packet prev lo p [] c l h = unfold deref in cc
deref-has_packet prev lo p (d ∷ cs) c l h = elim (deref_cases p d cs c h) [
  | inl (e, same) ↦ rw (← same) l.3
  | inr (_, rest) ↦ deref-has_packet (some d.cluster_id) d.cluster_id p cs c l.4 rest
]

-- A read behind a write.
pub deref-store_self :
    (p : ℕ) (d : SentClusterInfo) (cs : List SentClusterInfo) (c : SentClusterInfo)
    → deref p cs ≡ some c
    → d.cluster_id ≡ p
    → deref p (store p d cs) ≡ some d
unfolding deref store
deref-store_self p d [] c h e = cc
deref-store_self p d (x ∷ cs) c h e = elim (deref_cases p x cs c h) [
  | inl (hit, _) ↦ rw ((==_iff x.cluster_id p).1 hit) (rw ((==_iff d.cluster_id p).1 e))
  | inr (miss, rest) ↦ rw miss (rw miss (deref-store_self p d cs c rest e))
]

pub deref-store_ne :
    (p q : ℕ) (d : SentClusterInfo) (cs : List SentClusterInfo)
    → d.cluster_id ≡ q
    → p ≢ q
    → deref p (store q d cs) ≡ deref p cs
unfolding deref store
deref-store_ne p q d [] e n = refl
deref-store_ne p q d (x ∷ cs) e n = elim (Bool-cases (x.cluster_id == q)) [
  | inl hit ↦ rw hit (ground arith)
  | inr miss ↦
      rw miss (ap (λ r. if x.cluster_id == p then some x else r) (deref-store_ne p q d cs e n))
]

pub head_id-store :
    (p : ℕ) (d : SentClusterInfo) (cs : List SentClusterInfo)
    → d.cluster_id ≡ p
    → head_id (store p d cs) ≡ head_id cs
unfolding store
head_id-store p d [] e = refl
head_id-store p d (x ∷ cs) e = elim (Bool-cases (x.cluster_id == p)) [
  | inl hit ↦ rw hit (ap some (e ∙ sym ((==_iff x.cluster_id p).0 hit)))
  | inr miss ↦ rw miss
]

pub store-Linked :
    (prev : Option ℕ) (lo p : ℕ) (d : SentClusterInfo) (cs : List SentClusterInfo)
    (c : SentClusterInfo)
    → Linked prev lo cs
    → deref p cs ≡ some c
    → Keeps c d
    → Linked prev lo (store p d cs)
unfolding deref store
store-Linked prev lo p d [] c l h k = cc
store-Linked prev lo p d (x ∷ cs) c l h k = elim (deref_cases p x cs c h) [
  | inl (hit, same) ↦
      let id : d.cluster_id ≡ x.cluster_id = rw same k.same_id in
      rw ((==_iff x.cluster_id p).1 hit) (
        rw id l.0,
        rw (k.same_prev, ← same) l.1,
        rw (k.same_next, ← same) l.2,
        k.has_packet,
        rw id l.4,
      )
  | inr (miss, rest) ↦ rw miss (
    l.0,
    l.1,
    l.2 ∙ sym (head_id-store p d cs (k.same_id ∙ deref-id p cs c rest)),
    l.3,
    store-Linked (some x.cluster_id) x.cluster_id p d cs c l.4 rest k,
  )
]

pub view-store :
    (p : ℕ) (d : SentClusterInfo) (cs : List SentClusterInfo)
    → d.cluster_id ≡ p
    → view (store p d cs) ≡ set_ack p d.first_ack_ts (view cs)
unfolding store set_ack
view-store p d [] e = refl
view-store p d (x ∷ cs) e = elim (Bool-cases (x.cluster_id == p)) [
  | inl hit ↦ rw hit (rw e)
  | inr miss ↦ rw miss (ap (◌∷◌ (x.cluster_id, x.first_ack_ts)) (view-store p d cs e))
]

-- A write that changes neither the id nor the first acknowledgement leaves the view.
pub view-store_same :
    (p : ℕ) (d : SentClusterInfo) (cs : List SentClusterInfo) (c : SentClusterInfo)
    → deref p cs ≡ some c
    → d.cluster_id ≡ c.cluster_id
    → d.first_ack_ts ≡ c.first_ack_ts
    → view (store p d cs) ≡ view cs
unfolding deref store
view-store_same p d [] c h e f = refl
view-store_same p d (x ∷ cs) c h e f = elim (deref_cases p x cs c h) [
  | inl (hit, same) ↦ rw ((==_iff x.cluster_id p).1 hit) (rw (e, f, ← same))
  | inr (miss, rest) ↦
      rw miss (ap (◌∷◌ (x.cluster_id, x.first_ack_ts)) (view-store_same p d cs c rest e f))
]
