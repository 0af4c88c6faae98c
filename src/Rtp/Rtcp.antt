-- ===== src/Rtp/Rtcp.antt =====
-- av/format/rtsp/rtcp.go: sender reports. A time.Time is its distance from the Unix epoch in nanoseconds.
use vrtc_sdk.Prelude.{
  ℕ, zero, suc, ◌+◌, ◌-◌, ◌*◌, ◌/◌, ◌%◌, ◌^◌, not, ◌||◌, ◌⊎◌, inl, inr, List, [], ◌∷◌, ltb, ◌==◌,
  if◌then◌else◌, length, take, drop,
}
use vrtc_sdk.Prelude.Int.{ℤ, pos, add64, sub64, scale64}
use vrtc_sdk.Prelude.Endian.{word16, word32}

-- The errors; `stuck` is a loop that runs out of fuel.
pub data RtcpError : Type 0 where
  packet_too_short unsupported_version invalid_packet_length sender_report_too_short stuck :
      RtcpError

-- `senderReport`.
pub record SenderReport : Type 0 where
  pub ssrc : ℕ
  pub ntp_time : ℤ
  pub rtp_timestamp : ℕ

-- `ntpToTime`.
unfoldable pub ntp_to_time : ℕ → ℕ → ℤ
ntp_to_time seconds fraction =
    add64 (scale64 (sub64 (pos seconds) (pos 2208988800)) (10 ^ 9))
      (pos (fraction * 10 ^ 9 / 2 ^ 32))

-- `parseSenderReport`, on the packet after its header of four bytes.
unfoldable pub report_body : List ℕ → RtcpError ⊎ SenderReport
unfolding ntp_to_time
report_body (s3 ∷ s2 ∷ s1 ∷ s0 ∷ n3 ∷ n2 ∷ n1 ∷ n0 ∷ f3 ∷ f2 ∷ f1 ∷ f0 ∷ t3 ∷ t2 ∷ t1 ∷ t0 ∷ r) =
    if ltb (length r) 8
    then inl sender_report_too_short
    else inr (record {
      ssrc = word32 s3 s2 s1 s0;
      ntp_time = ntp_to_time (word32 n3 n2 n1 n0) (word32 f3 f2 f1 f0);
      rtp_timestamp = word32 t3 t2 t1 t0;
    })
report_body _ = inl sender_report_too_short

unfoldable pub parse_sender_report : List ℕ → RtcpError ⊎ SenderReport
unfolding report_body
parse_sender_report packet = report_body (drop 4 packet)

-- The loop of `parseSenderReports`; the length is a uint16 that wraps.
unfoldable pub reports_loop : ℕ → List ℕ → RtcpError ⊎ List SenderReport
unfolding parse_sender_report
reports_loop fuel [] = inr []
reports_loop zero (b ∷ r) = inl stuck
reports_loop (suc fuel) (b ∷ kind ∷ l1 ∷ l0 ∷ r) =
    let size = (word16 l1 l0 + 1) % 2 ^ 16 * 4 in
    let later = reports_loop fuel (drop (size - 4) r) in
    if not (b / 2 ^ 6 == 2)
    then inl unsupported_version
    else if ltb size 4 || ltb (4 + length r) size
    then inl invalid_packet_length
    else if kind == 200
    then elim (parse_sender_report (b ∷ kind ∷ l1 ∷ l0 ∷ take (size - 4) r)) [
      | inl e ↦ inl e
      | inr report ↦ elim later [ inl e ↦ inl e | inr reports ↦ inr (report ∷ reports) ]
    ]
    else later
reports_loop (suc fuel) (b ∷ r) = inl packet_too_short

-- `parseSenderReports`.
unfoldable pub parse_sender_reports : List ℕ → RtcpError ⊎ List SenderReport
unfolding reports_loop
parse_sender_reports payload = reports_loop (length payload) payload
