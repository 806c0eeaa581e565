-- ===== src/Bbr/Safety/Views.antt =====
-- Views under the three changes that happen to them: a first acknowledgement, a new cluster at the
-- end, and the removal of the clusters up to a round.
use stupid_simple.Base.{
  ℕ, ◌≤◌, ◌<◌, ◌≡◌, refl, sym, ◌∙◌, inl, inr, ◌==◌, ==_iff, Bool-cases, leb, some, List, [], ◌∷◌,
  ◌++◌, All, Option, arith, false,
}
use stupid_simple.Bbr.Cluster.{SentClusterInfo}
use stupid_simple.Bbr.Safety.Links.{Linked, view, In, Live, set_ack}
use stupid_simple.Bbr.Safety.Neighbours.{Live-above, above}
use stupid_simple.Bbr.Safety.Invariant.{Queue}

pub In-Live : (p a : ℕ) (v : List (ℕ × ℕ)) → In p a v → Live p v
In-Live p a [] h = absurd h
In-Live p a (e ∷ v) (inl here) = inl here.0
In-Live p a (e ∷ v) (inr later) = inr (In-Live p a v later)

-- Ids are distinct, so an id has one first acknowledgement.
pub In-unique :
    (prev : Option ℕ) (lo p a b : ℕ) (cs : List SentClusterInfo)
    → Linked prev lo cs
    → In p a (view cs)
    → In p b (view cs)
    → a ≡ b
In-unique prev lo p a b [] l h k = absurd h
In-unique prev lo p a b (c ∷ cs) l (inl h) (inl k) = sym h.1 ∙ k.1
In-unique prev lo p a b (c ∷ cs) l (inl h) (inr k) = absurd (
    omega
      (arith, h.0, Live-above (some c.cluster_id) c.cluster_id p cs l.4 (In-Live p b (view cs) k)))
In-unique prev lo p a b (c ∷ cs) l (inr h) (inl k) = absurd (
    omega
      (arith, k.0, Live-above (some c.cluster_id) c.cluster_id p cs l.4 (In-Live p a (view cs) h)))
In-unique prev lo p a b (c ∷ cs) l (inr h) (inr k) =
    In-unique (some c.cluster_id) c.cluster_id p a b cs l.4 h k

pub set_ack-All :
    (P : ℕ × ℕ → Type 0) (p a : ℕ) (v : List (ℕ × ℕ)) → All P v → P (p, a) → All P (set_ack p a v)
unfolding set_ack
set_ack-All P p a [] h k = tt
set_ack-All P p a (e ∷ v) h k = elim (Bool-cases (e.0 == p)) [
  | inl hit ↦ rw hit (k, h.1)
  | inr miss ↦ rw miss (h.0, set_ack-All P p a v h.1 k)
]

pub set_ack-Live : (p a q : ℕ) (v : List (ℕ × ℕ)) → Live q v → Live q (set_ack p a v)
unfolding set_ack
set_ack-Live p a q [] h = h
set_ack-Live p a q (e ∷ v) (inl h) = elim (Bool-cases (e.0 == p)) [
  | inl hit ↦ rw hit (inl (sym ((==_iff e.0 p).0 hit) ∙ h))
  | inr miss ↦ rw miss (inl h)
]
set_ack-Live p a q (e ∷ v) (inr h) = elim (Bool-cases (e.0 == p)) [
  | inl hit ↦ rw hit (inr h)
  | inr miss ↦ rw miss (inr (set_ack-Live p a q v h))
]

pub set_ack-In : (p a : ℕ) (v : List (ℕ × ℕ)) → Live p v → In p a (set_ack p a v)
unfolding set_ack
set_ack-In p a [] h = h
set_ack-In p a (e ∷ v) (inl h) = rw ((==_iff e.0 p).1 h) (inl (refl, refl))
set_ack-In p a (e ∷ v) (inr h) = elim (Bool-cases (e.0 == p)) [
  | inl hit ↦ rw hit (inl (refl, refl))
  | inr miss ↦ rw miss (inr (set_ack-In p a v h))
]

pub Live-append : (q : ℕ) (v w : List (ℕ × ℕ)) → Live q v → Live q (v ++ w)
Live-append q [] w h = absurd h
Live-append q (e ∷ v) w (inl h) = inl h
Live-append q (e ∷ v) w (inr h) = inr (Live-append q v w h)

pub In-append : (q a : ℕ) (v w : List (ℕ × ℕ)) → In q a v → In q a (v ++ w)
In-append q a [] w h = absurd h
In-append q a (e ∷ v) w (inl h) = inl h
In-append q a (e ∷ v) w (inr h) = inr (In-append q a v w h)

pub above-All :
    (P : ℕ × ℕ → Type 0) (round : ℕ) (v : List (ℕ × ℕ)) → All P v → All P (above round v)
unfolding above
above-All P round [] h = tt
above-All P round (e ∷ v) h = elim (Bool-cases (leb e.0 round)) [
  | inl gone ↦ rw gone (above-All P round v h.1)
  | inr stays ↦ rw stays h
]

pub above-Live : (round q : ℕ) (v : List (ℕ × ℕ)) → round < q → Live q v → Live q (above round v)
unfolding above
above-Live round q [] lt h = h
above-Live round q (e ∷ v) lt (inl h) =
    let stays : leb e.0 round ≡ false = ground arith in rw stays (inl h)
above-Live round q (e ∷ v) lt (inr h) = elim (Bool-cases (leb e.0 round)) [
  | inl gone ↦ rw gone (above-Live round q v lt h)
  | inr stays ↦ rw stays (inr h)
]

pub above-In : (round q a : ℕ) (v : List (ℕ × ℕ)) → round < q → In q a v → In q a (above round v)
unfolding above
above-In round q a [] lt h = h
above-In round q a (e ∷ v) lt (inl h) =
    let stays : leb e.0 round ≡ false = ground (arith, h.0) in rw stays (inl h)
above-In round q a (e ∷ v) lt (inr h) = elim (Bool-cases (leb e.0 round)) [
  | inl gone ↦ rw gone (above-In round q a v lt h)
  | inr stays ↦ rw stays (inr h)
]

-- The queue under a change that keeps its ids alive.
pub Queue-map :
    (lo m m' : ℕ) (v w : List (ℕ × ℕ)) (ps : List ℕ)
    → m ≤ m'
    → ((q : ℕ) → lo < q → Live q v → Live q w)
    → Queue lo m v ps
    → Queue lo m' w ps
Queue-map lo m m' v w [] h f q = tt
Queue-map lo m m' v w (p ∷ ps) h f q = (
  q.0,
  omega (arith, q.1),
  f p q.0 q.2,
  Queue-map p m m' v w ps h (λ n lt live. f n (omega (arith, q.0, lt)) live) q.3,
)

-- An id behind the frontier goes to the end of the queue.
pub Queue-snoc :
    (lo m m' p : ℕ) (v w : List (ℕ × ℕ)) (ps : List ℕ)
    → lo < p
    → m ≤ p
    → p < m'
    → Live p w
    → ((q : ℕ) → Live q v → Live q w)
    → Queue lo m v ps
    → Queue lo m' w (ps ++ (p ∷ []))
Queue-snoc lo m m' p v w [] h1 h2 h3 live f q = (h1, h3, live, tt)
Queue-snoc lo m m' p v w (x ∷ ps) h1 h2 h3 live f q = (
  q.0,
  omega (arith, q.1),
  f x q.2,
  Queue-snoc x m m' p v w ps (omega (arith, q.1)) h2 h3 live f q.3,
)
