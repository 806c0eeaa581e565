-- ===== src/Bbr/Safety/Invariant.antt =====
-- The invariant of MyBbrSender's clusters, and the facts on views and maps behind it.
-- The frontier `m` is the largest round that has an acknowledgement.
use stupid_simple.Base.{
  ℕ, ◌≤◌, ◌<◌, ◌≡◌, refl, ap, ◌⊎◌, inl, inr, ◌==◌, ==_iff, Bool-cases, ltb, none, some, List, [],
  ◌∷◌, ◌++◌, All, All-map, arith, false, find, erase, insert,
}
use stupid_simple.Bbr.Cluster.{SentClusterInfo}
use stupid_simple.Bbr.Safety.Links.{Linked, view, In, Live}

-- acked_clusters_: ids that rise, lie below the frontier, and are live.
abbrev pub Queue : ℕ → ℕ → List (ℕ × ℕ) → List ℕ → Type 0
Queue lo m v [] = Unit {0}
Queue lo m v (p ∷ ps) = (lo < p) × (p < m) × Live p v × Queue p m v ps

-- seq_round_map_: packet numbers rise, up to `top`, and their rounds do not fall, up to `rtc`.
abbrev pub Rounds : ℕ → ℕ → ℕ → ℕ → List (ℕ × ℕ) → Type 0
Rounds seq round top rtc [] = Unit {0}
Rounds seq round top rtc (e ∷ rest) =
    (seq < e.0) × (round ≤ e.1) × (e.0 ≤ top) × (e.1 ≤ rtc) × Rounds e.0 e.1 top rtc rest

abbrev pub Bounded : ℕ → List (ℕ × ℕ) → Type 0
Bounded rtc = All (λ (e : ℕ × ℕ). e.0 ≤ rtc)

-- Rounds above the frontier have no acknowledgement.
abbrev pub Fresh : ℕ → List (ℕ × ℕ) → Type 0
Fresh m = All (λ (e : ℕ × ℕ). m < e.0 → e.1 ≡ 0)

-- Packets above the last acknowledgement belong to the frontier or to later rounds.
abbrev pub Ahead : ℕ → ℕ → List (ℕ × ℕ) → Type 0
Ahead la m = All (λ (e : ℕ × ℕ). la < e.0 → m ≤ e.1)

abbrev pub Reached : ℕ → List (ℕ × ℕ) → Type 0
Reached m v = (m ≡ 0) ⊎ ((a : ℕ) × (0 < a) × In m a v)

-- `la` is the last acknowledged packet, `top` the last sent one and `rtc` the round count.
pub record Core (m la top rtc : ℕ) (clusters : List SentClusterInfo) (acked : List ℕ)
    (rounds : List (ℕ × ℕ)) : Type 0 where
  pub linked : Linked none 0 clusters
  pub bounded : Bounded rtc (view clusters)
  pub fresh : Fresh m (view clusters)
  pub reached : Reached m (view clusters)
  pub queue : Queue 0 m (view clusters) acked
  pub ordered : Rounds 0 0 top rtc rounds
  pub ahead : Ahead la m rounds
  pub frontier : m ≤ rtc

-- Nothing is stored: the state at the start and after ClusterInfoClear.
pub Core-empty : (la top rtc : ℕ) → Core 0 la top rtc [] [] []
Core-empty la top rtc = record {
  linked = tt;
  bounded = tt;
  fresh = tt;
  reached = inl refl;
  queue = tt;
  ordered = tt;
  ahead = tt;
  frontier = omega arith;
}

pub Rounds-weaken :
    (seq seq' round round' top top' rtc rtc' : ℕ) (rounds : List (ℕ × ℕ))
    → seq' ≤ seq
    → round' ≤ round
    → top ≤ top'
    → rtc ≤ rtc'
    → Rounds seq round top rtc rounds
    → Rounds seq' round' top' rtc' rounds
Rounds-weaken s s' r r' t t' c c' [] hs hr ht hc o = tt
Rounds-weaken s s' r r' t t' c c' (e ∷ rest) hs hr ht hc o = (
  omega (arith, o.0),
  omega (arith, o.1),
  omega (arith, o.2),
  omega (arith, o.3),
  Rounds-weaken e.0 e.0 e.1 e.1 t t' c c' rest (omega arith) (omega arith) ht hc o.4,
)

-- More rounds and a later last packet.
pub Core-weaken :
    (m la top top' rtc rtc' : ℕ) (clusters : List SentClusterInfo) (acked : List ℕ)
    (rounds : List (ℕ × ℕ))
    → top ≤ top'
    → rtc ≤ rtc'
    → Core m la top rtc clusters acked rounds
    → Core m la top' rtc' clusters acked rounds
Core-weaken m la top top' rtc rtc' clusters acked rounds ht hc k = record {
  linked = k.linked;
  bounded = All-map _ _ (view clusters) (λ e h. omega arith) k.bounded;
  fresh = k.fresh;
  reached = k.reached;
  queue = k.queue;
  ordered =
      Rounds-weaken 0 0 0 0 top top' rtc rtc' rounds (omega arith) (omega arith) ht hc k.ordered;
  ahead = k.ahead;
  frontier = omega (arith, k.frontier);
}

-- A new packet goes to the end of the map.
pub insert-Rounds :
    (seq round top rtc p : ℕ) (rounds : List (ℕ × ℕ))
    → top < p
    → seq ≤ top
    → round ≤ rtc
    → Rounds seq round top rtc rounds
    → (insert p rtc rounds ≡ rounds ++ ((p, rtc) ∷ []))
      × Rounds seq round p rtc (rounds ++ ((p, rtc) ∷ []))
unfolding insert
insert-Rounds s r top rtc p [] ht hs hr o = (refl, (omega arith, hr, omega arith, omega arith, tt))
insert-Rounds s r top rtc p ((j, w) ∷ rest) ht hs hr o =
    let (e, o') = insert-Rounds j w top rtc p rest ht o.2 o.3 o.4 in
    let later : ltb p j ≡ false = ground (arith, o.2) in
    let other : (j == p) ≡ false = ground (arith, o.2) in
    (rw later (rw other (ap (◌∷◌ (j, w)) e)), (o.0, o.1, omega (arith, o.2), o.3, o'))

Rounds-ge :
    (seq round top rtc : ℕ) (rounds : List (ℕ × ℕ))
    → Rounds seq round top rtc rounds
    → All (λ (e : ℕ × ℕ). round ≤ e.1) rounds
Rounds-ge s r top rtc [] o = tt
Rounds-ge s r top rtc (e ∷ rest) o =
    (o.1, All-map _ _ rest (λ d h. omega (arith, o.1, h)) (Rounds-ge e.0 e.1 top rtc rest o.4))

-- A lookup that succeeds.
find_cases :
    (p j w r : ℕ) (rest : List (ℕ × ℕ))
    → find p ((j, w) ∷ rest) ≡ some r
    → ((j ≡ p) × (w ≡ r)) ⊎ (((j == p) ≡ false) × (find p rest ≡ some r))
unfolding find
find_cases p j w r rest h = elim (Bool-cases (j == p)) [
  | inl hit ↦ inl ((==_iff j p).0 hit, cc (rw hit at h))
  | inr miss ↦ inr (miss, rw miss at h)
]

find-Above :
    (seq round top rtc p r : ℕ) (rounds : List (ℕ × ℕ))
    → Rounds seq round top rtc rounds
    → find p rounds ≡ some r
    → seq < p
find-Above s r top rtc p v [] o h = unfold find in cc
find-Above s r top rtc p v ((j, w) ∷ rest) o h = elim (find_cases p j w v rest h) [
  | inl (at, _) ↦ omega (arith, o.0, at)
  | inr (_, later) ↦ omega (arith, o.0, find-Above j w top rtc p v rest o.4 later)
]

pub find-All :
    (P : ℕ × ℕ → Type 0) (p r : ℕ) (rounds : List (ℕ × ℕ))
    → All P rounds
    → find p rounds ≡ some r
    → P (p, r)
find-All P p r [] a h = unfold find in cc
find-All P p r ((j, w) ∷ rest) a h = elim (find_cases p j w r rest h) [
  | inl (at, same) ↦ rw (← at, ← same) a.0
  | inr (_, later) ↦ find-All P p r rest a.1 later
]

pub erase-All :
    (P : ℕ × ℕ → Type 0) (p : ℕ) (rounds : List (ℕ × ℕ)) → All P rounds → All P (erase p rounds)
unfolding erase
erase-All P p [] a = tt
erase-All P p ((j, w) ∷ rest) a = elim (Bool-cases (j == p)) [
  | inl hit ↦ rw hit a.1
  | inr miss ↦ rw miss (a.0, erase-All P p rest a.1)
]

pub erase-Rounds :
    (seq round top rtc p : ℕ) (rounds : List (ℕ × ℕ))
    → Rounds seq round top rtc rounds
    → Rounds seq round top rtc (erase p rounds)
unfolding erase
erase-Rounds s r top rtc p [] o = tt
erase-Rounds s r top rtc p ((j, w) ∷ rest) o = elim (Bool-cases (j == p)) [
  | inl hit ↦ rw hit (
      Rounds-weaken j s w r top top rtc rtc rest (omega (arith, o.0)) o.1 (omega arith)
        (omega arith) o.4)
  | inr miss ↦ rw miss (o.0, o.1, o.2, o.3, erase-Rounds j w top rtc p rest o.4)
]

-- Packets behind an acknowledged one belong to its round or to later ones.
pub erase-Ahead :
    (seq round top rtc p r : ℕ) (rounds : List (ℕ × ℕ))
    → Rounds seq round top rtc rounds
    → find p rounds ≡ some r
    → Ahead p r (erase p rounds)
erase-Ahead s q top rtc p r [] o h = unfold find in cc
erase-Ahead s q top rtc p r ((j, w) ∷ rest) o h = elim (find_cases p j w r rest h) [
  | inl (at, same) ↦
      unfold erase in
      rw ((==_iff j p).1 at)
        (All-map _ _ rest (λ e g _. omega (arith, g, same)) (Rounds-ge j w top rtc rest o.4))
  | inr (miss, later) ↦
      behind miss (find-Above j w top rtc p r rest o.4 later)
        (erase-Ahead j w top rtc p r rest o.4 later)
]
  where
    behind :
        ((j == p) ≡ false) → j < p → Ahead p r (erase p rest) → Ahead p r (erase p ((j, w) ∷ rest))
    behind miss lt a = unfold erase in rw miss ((λ g. absurd (omega arith)), a)
