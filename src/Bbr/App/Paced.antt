-- ===== src/Bbr/App/Paced.antt =====
-- About the pacer of MyBbrSenderApp (my_bbr_sender_app.cc) and its controller.
use stupid_simple.Base.{
  ℕ, ◌+◌, ◌≤◌, ◌<◌, ◌≡◌, refl, inl, inr, ◌==◌, Bool-cases, le→leb, some, List, length,
}
use stupid_simple.Header.{read_bbr_header}
use stupid_simple.Bbr.Env.{BbrEnv}
use stupid_simple.Bbr.State.{MyBbrSender}
use stupid_simple.Bbr.Pacing.{MyPacingSender, latest, pacing_packet_sent, on_congestion_event}
use stupid_simple.Bbr.Safety.Steps.{WellFormed, on_packet_sent_total}
use stupid_simple.Bbr.Safety.Steps.Acked.{on_ack_total}
use stupid_simple.Bbr.App.{Net, test_proto_ack, max_packet_size}
use stupid_simple.Bbr.App.Sender.{process_ack_frame}

module _ {F : Type 0} where
  -- The pacer has a controller whose last packet is `top`.
  pub record Controlled (top : ℕ) (s : MyPacingSender F) : Type 0 where
    pub cc : MyBbrSender F
    pub on : s.sender ≡ some cc
    pub well : WellFormed top cc

module _ {F : Type 0} (env : BbrEnv F) where
  pub pacing_packet_sent_total :
      (top : ℕ) (s : MyPacingSender F) (now p bytes : ℕ)
      → top < p
      → Controlled top s
      → (t : MyPacingSender F) × (pacing_packet_sent env s now p bytes ≡ some t) × Controlled p t
  unfolding pacing_packet_sent
  pacing_packet_sent_total top s now p bytes lt c =
      let (b, e, w, floor) = on_packet_sent_total env top c.cc now p bytes lt c.well in
      (
        record s {
          ideal_next_packet_send_time =
              latest (s.ideal_next_packet_send_time + env.transfer_time b.pacing_rate bytes)
                (now + env.transfer_time b.pacing_rate bytes);
          sender = some b;
        },
        simp (c.on, e, pacing_packet_sent),
        record { cc = b; on = refl; well = w },
      )

  on_congestion_event_total :
      (top : ℕ) (s : MyPacingSender F) (now p : ℕ)
      → 0 < now
      → Controlled top s
      → (t : MyPacingSender F) × (on_congestion_event env s now p ≡ some t) × Controlled top t
  unfolding on_congestion_event
  on_congestion_event_total top s now p pos c =
      let (b, e, w, floor) = on_ack_total env top c.cc now p pos c.well in
      (
        record s { sender = some b },
        simp (c.on, e, on_congestion_event),
        record { cc = b; on = refl; well = w },
      )

  pub process_ack_frame_total :
      (net : Net) (top : ℕ) (s : MyPacingSender F) (now : ℕ) (bytes : List ℕ)
      → 0 < now
      → length bytes ≤ max_packet_size
      → Controlled top s
      → (t : MyPacingSender F) × (process_ack_frame env net s now bytes ≡ some t) × Controlled top t
  unfolding process_ack_frame
  process_ack_frame_total net top s now bytes pos short c =
      let fits = le→leb (length bytes) max_packet_size short in
      let got = read_bbr_header net.types net.wire bytes in
      elim (Bool-cases (got.0 == test_proto_ack)) [
        | inl ack ↦
            let (t, e, c') = on_congestion_event_total top s now got.1 pos c in
            (t, rw fits (rw ack e), c')
        | inr other ↦ (s, rw fits (rw other refl), c)
      ]
