-- ===== src/Bbr/Session.antt =====
-- MyBbrSenderApp and MyBbrReceiverApp together, over a network that loses, repeats and reorders
-- what they send.
pub mod Receiving
pub mod ReceiverTurn
pub mod Sending
pub mod SenderTurn
pub mod Safety
pub mod Bytes
use stupid_simple.Base.{
  ℕ, zero, suc, ◌+◌, ◌-◌, ◌*◌, ◌/◌, ◌%◌, ◌^◌, ◌≤◌, ◌<◌, ◌≡◌, ◌≢◌, ◌⊎◌, ◌↔◌, inl, inr, refl, sym, ap,
  ◌∙◌, ltb, leb, ◌==◌, not, ◌&&◌, ◌||◌, Bool, true, false, if◌then◌else◌, Bool-cases, Option,
  Option-cases, none, some, ◌>>=◌, List, [], ◌∷◌, ◌++◌, length, arith,
}
use mathlib.Core.List.{Memᴰ}
use stupid_simple.Bbr.Env.{BbrEnv}
use stupid_simple.Bbr.App.{Net}
use stupid_simple.Bbr.App.Sender.{MyBbrSenderApp, new_app, process}
use stupid_simple.Bbr.App.Receiver.{MyBbrReceiverApp, new_receiver, receiver_process}

-- Both applications. What each of them has sent is in its field `sent`.
pub record Session (F : Type 0) : Type 0 where
  pub sender : MyBbrSenderApp F
  pub receiver : MyBbrReceiverApp

-- What RecvFrom may return: nothing, or any datagram that the other side has sent.
abbrev pub Arrives : List ℕ → List (List ℕ) → Type 0
Arrives datagram log = (datagram ≡ []) ⊎ Memᴰ datagram log

-- The datagrams without their destinations.
abbrev pub payloads : List (ℕ × List ℕ) → List (List ℕ)
payloads [] = []
payloads (e ∷ es) = e.1 ∷ payloads es

module _ {F : Type 0} (env : BbrEnv F) (clock : ℕ → ℕ) (net : Net) where
  -- The sessions that calls of Process of the two applications lead to from `start`, in any order.
  -- The index counts the calls of the sender, which are at positive times.
  pub data Reached (start : Session F) : ℕ → Session F → Type 0 where
    begin : Reached start 0 start
    sender_turn :
        (n now : ℕ) (x : Session F) (datagram : List ℕ) (goes_on : Bool) (t : MyBbrSenderApp F)
        → Reached start n x
        → 0 < now
        → Arrives datagram (payloads x.receiver.sent)
        → process env net x.sender now datagram ≡ some (goes_on, t)
        → Reached start (n + 1) (record x { sender = t })
    receiver_turn :
        (n now remote : ℕ) (x : Session F) (datagram : List ℕ)
        → Reached start n x
        → Arrives datagram x.sender.sent
        → Reached start n
            (record x { receiver = (receiver_process clock net x.receiver now remote datagram).1 })

module _ {F : Type 0} (env : BbrEnv F) where
  -- The applications before their first call of Process.
  abbrev pub new_session : ℕ → ℕ → ℕ → ℕ → Bool → Bool → Session F
  new_session min_bps start_bps max_bps ms loss rate = record {
    sender = new_app env min_bps start_bps max_bps;
    receiver = new_receiver ms loss rate;
  }
