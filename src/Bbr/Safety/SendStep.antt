-- ===== src/Bbr/Safety/SendStep.antt =====
-- About AddPacketInfoSampler (my_bbr_sender.cc) and the invariant of the clusters.
use stupid_simple.Base.{ℕ, ◌<◌, refl, inl, inr, List, [], ◌∷◌, ◌++◌, All-append, arith, insert}
use stupid_simple.Bbr.Cluster.{SentClusterInfo}
use stupid_simple.Bbr.Safety.Links.{view}
use stupid_simple.Bbr.Safety.Growth.{Grown}
use stupid_simple.Bbr.Safety.Invariant.{Core, Ahead, Reached, insert-Rounds}
use stupid_simple.Bbr.Safety.Views.{Live-append, In-append, Queue-map}

-- A cluster of the current round at the end of the view changes nothing of the invariant.
pub Grown-Core :
    (m la top rtc p : ℕ) (old new : List SentClusterInfo) (acked : List ℕ) (rounds : List (ℕ × ℕ))
    → top < p
    → Core m la top rtc old acked rounds
    → Grown old rtc new
    → Core m la p rtc new acked (insert p rtc rounds)
Grown-Core m la top rtc p old new acked rounds lt k (linked, grown) =
    let (placed, ordered) =
      insert-Rounds 0 0 top rtc p rounds lt (omega arith) (omega arith) k.ordered in
    let ahead : Ahead la m (insert p rtc rounds) =
      rw placed (All-append _ rounds _ k.ahead ((λ _. k.frontier), tt)) in
    elim grown [
      | inl same ↦ record {
        linked = linked;
        bounded = rw same k.bounded;
        fresh = rw same k.fresh;
        reached = rw same k.reached;
        queue = rw same k.queue;
        ordered = rw placed ordered;
        ahead = ahead;
        frontier = k.frontier;
      }
      | inr (under, more) ↦ record {
        linked = linked;
        bounded = rw more (All-append _ (view old) _ k.bounded (omega arith, tt));
        fresh = rw more (All-append _ (view old) _ k.fresh ((λ _. refl), tt));
        reached = rw more (still_reached k.reached);
        queue = rw more (
            Queue-map 0 m m (view old) _ acked (omega arith) (λ q _ h. Live-append q (view old) _ h)
              k.queue);
        ordered = rw placed ordered;
        ahead = ahead;
        frontier = k.frontier;
      }
    ]
  where
    still_reached : Reached m (view old) → Reached m (view old ++ ((rtc, 0) ∷ []))
    still_reached (inl none_yet) = inl none_yet
    still_reached (inr (a, pos, is)) = inr (a, pos, In-append m a (view old) _ is)
