-- ===== src/Mininet/Padding.antt =====
-- About TimeToSendPadding of Sender (mininet-webrtc/sender.cc).
use stupid_simple.Base.{
  ℕ, zero, suc, ◌+◌, ◌-◌, ◌%◌, ◌^◌, ◌≤◌, ◌<◌, ◌≡◌, refl, inl, inr, ◌==◌, if◌then◌else◌, ltb, leb,
  Bool-cases, ltb→lt, leb→le, not-leb, some, List, [], ◌∷◌, ◌++◌, arith,
}
use mathlib.Core.Path.{subst}
use stupid_simple.Mininet.{Codec, Effect, to_network, add_packet}
use stupid_simple.Mininet.Sender.{Sender, emit}
use stupid_simple.Mininet.Dispatch.{
  initial_remain, send_padding, padding_loop, time_to_send_padding,
}

-- The bytes that were announced to the controller.
unfoldable pub announced : List Effect → ℕ
announced [] = 0
announced (add_packet seq overhead ∷ es) = overhead + announced es
announced (_ ∷ es) = announced es

announced-append : (es fs : List Effect) → announced (es ++ fs) ≡ announced es + announced fs
unfolding announced
announced-append [] fs = omega arith
announced-append (add_packet seq overhead ∷ es) fs = omega (arith, announced-append es fs)
announced-append (to_network _ _ ∷ es) fs = announced-append es fs
announced-append (_ ∷ es) fs = announced-append es fs

module _ (codec : Codec) where
  padding_adds :
      (s : Sender) (n now : ℕ)
      → (announced (send_padding codec s n now).0.out
          ≡ announced s.out + (codec.pad_header_len + n))
        × ((send_padding codec s n now).1 ≡ codec.pad_header_len + n)
  unfolding send_padding emit announced
  padding_adds s n now = (omega (arith, announced-append s.out _), refl)

  -- What may be announced of `remain` bytes: the last packet's header comes on top.
  abbrev at_most : ℕ → ℕ
  at_most remain = if remain == 0 then 0 else remain + codec.pad_header_len

  at_most_next :
      (remain : ℕ)
      → 500 ≤ remain
      → codec.pad_header_len + 500 + at_most (remain - (codec.pad_header_len + 500))
        ≤ at_most remain
  at_most_next remain large = ground (arith, large)

  padding_loop_total :
      (fuel remain now : ℕ) (s : Sender)
      → remain < fuel
      → (t : Sender) × (padding_loop codec fuel s remain now ≡ some t)
        × (announced s.out + remain ≤ announced t.out + 99)
        × (announced t.out ≤ announced s.out + at_most remain)
  unfolding padding_loop
  padding_loop_total zero remain now s h = absurd (omega arith)
  padding_loop_total (suc fuel) remain now s h = elim (Bool-cases (leb remain 0)) [
    | inl over ↦ (s, rw over refl, omega (arith, leb→le remain 0 over), omega arith)
    | inr more ↦ elim (Bool-cases (leb 500 remain)) [
      | inl large ↦
          let (added, returned) = padding_adds s 500 now in
          let (t, e, enough, little) =
            padding_loop_total fuel (remain - (send_padding codec s 500 now).1) now
              (send_padding codec s 500 now).0 (omega (arith, returned, leb→le 500 remain large)) in
          let limit =
            subst
              (λ n.
                announced t.out
                ≤ announced (send_padding codec s 500 now).0.out + at_most (remain - n))
              returned little in
          (
            t,
            rw more (rw large e),
            omega (arith, added, returned, enough),
            omega (arith, added, limit, at_most_next remain (leb→le 500 remain large)),
          )
      | inr rest ↦ elim (Bool-cases (leb 100 remain)) [
        | inl last ↦
            let (added, returned) = padding_adds s remain now in
            (
              (send_padding codec s remain now).0,
              rw more (rw rest (rw last refl)),
              omega (arith, added),
              ground (arith, added, more),
            )
        | inr small ↦ (
          s,
          rw more (rw rest (rw small refl)),
          omega (arith, not-leb 100 remain small),
          omega arith,
        )
      ]
    ]
  ]

  at_most_le : (remain : ℕ) → at_most remain ≤ remain + codec.pad_header_len
  at_most_le remain = ground arith

  -- TimeToSendPadding ends for every request. The overheads of the packets that it announces to
  -- the controller add up to at least 99 less than the bytes that its int `remain` holds after
  -- the conversion from size_t, or than none if that is negative, and to at most those bytes
  -- and one packet's header.
  pub time_to_send_padding_lem :
      (s : Sender) (bytes now : ℕ)
      → (t : Sender) × (time_to_send_padding codec s bytes now ≡ some t)
        × (announced s.out + initial_remain bytes ≤ announced t.out + 99)
        × (announced t.out ≤ announced s.out + initial_remain bytes + codec.pad_header_len)
  unfolding time_to_send_padding initial_remain
  time_to_send_padding_lem s bytes now = elim (Bool-cases (ltb bytes 100)) [
    | inl few ↦
        let small : initial_remain bytes ≤ 99 = ground (arith, ltb→lt bytes 100 few) in
        (s, rw few refl, omega (arith, small), omega arith)
    | inr many ↦
        let remain = initial_remain bytes in
        let (t, e, enough, little) =
          padding_loop_total (remain + 1) remain (now % 2 ^ 32) s (omega arith) in
        (t, rw many e, enough, omega (arith, little, at_most_le remain))
  ]
