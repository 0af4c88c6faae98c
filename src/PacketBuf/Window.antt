-- ===== src/PacketBuf/Window.antt =====
-- The window of a buffer over the stream of all packets ever written.
use vrtc_sdk.Prelude.{ℕ, zero, suc, ◌+◌, ◌≤◌, ◌≡◌, refl, ap, ◌∙◌, arith, true, List, [], ◌∷◌, ◌++◌}
use vrtc_sdk.Prelude.{
  length, take, drop, All, ltb, ◌==◌, if◌then◌else◌, length-append, length-drop, drop-add,
}
use vrtc_sdk.Prelude.Scan.{count_while, count_while-le, count_while_stops, HeadFails}
use vrtc_sdk.Av.{Packet}
use vrtc_sdk.PacketBuf.{Buffer, write_packet, evict_locked, is_expired}

-- The buffer holds `history` but for the packets that were evicted from its front.
pub record Tracks (history : List Packet) (b : Buffer) : Type 0 where
  pub held : drop b.base_offset history ≡ b.pkts
  pub evicted : b.base_offset ≤ length history

-- The packet as it is stored: stamped if it had no time of its own.
abbrev pub stamped : Packet → ℕ → Packet
stamped pkt stamp = record pkt {
  wall_clock_time = if pkt.wall_clock_time == 0 then stamp else pkt.wall_clock_time;
}

drop-append : (n : ℕ) (xs ys : List Packet) → n ≤ length xs → drop n (xs ++ ys) ≡ drop n xs ++ ys
drop-append zero xs ys h = refl
drop-append (suc n) [] ys h = absurd (omega arith)
drop-append (suc n) (x ∷ xs) ys h = drop-append n xs ys (omega arith)

-- Eviction without its test for an empty run.
evicted_by : Buffer → ℕ → ℕ
evicted_by b now = count_while (is_expired now b.max_age) b.pkts

evict_locked_lem :
    (b : Buffer) (now : ℕ)
    → evict_locked b now ≡ record b {
      pkts = drop (evicted_by b now) b.pkts;
      base_offset = b.base_offset + evicted_by b now;
    }
unfolding evict_locked evicted_by
evict_locked_lem b now = by_run (count_while (is_expired now b.max_age) b.pkts)
  where
    by_run :
        (i : ℕ)
        → (if ltb 0 i
            then record b { pkts = drop i b.pkts; base_offset = b.base_offset + i }
            else b)
          ≡ record b { pkts = drop i b.pkts; base_offset = b.base_offset + i }
    by_run zero = ground arith
    by_run (suc i) = ground arith

-- What one `WritePacket` does: the stamped packet joins the stream, and the window slides past a run
-- of expired packets, up to the first packet that is not expired.
pub record Written (history : List Packet) (b b' : Buffer) (p : Packet) (now : ℕ) : Type 0 where
  pub gone : ℕ
  pub tracks : Tracks (history ++ (p ∷ [])) b'
  pub window : b'.pkts ≡ drop gone (b.pkts ++ (p ∷ []))
  pub offset : b'.base_offset ≡ b.base_offset + gone
  pub expired : All (λ q. is_expired now b.max_age q ≡ true) (take gone (b.pkts ++ (p ∷ [])))
  pub fresh : HeadFails (is_expired now b.max_age) b'.pkts
  pub wakes : b'.notify ≡ b.notify + 1
  pub same : (b'.streams ≡ b.streams) × (b'.max_age ≡ b.max_age) × (b'.closed ≡ b.closed)

-- `WritePacket` on a buffer that holds the stream but for its evicted front appends the packet, stamped
-- if it has no time, to the stream and keeps that relation; it evicts a run of expired packets from the
-- front and no other, leaves a first packet that is not expired, advances the base offset by the number
-- evicted, wakes the readers, and changes no other field.
pub write_packet_window :
    (history : List Packet) (b : Buffer) (pkt : Packet) (stamp now : ℕ)
    → Tracks history b
    → Written history b (write_packet b pkt stamp now) (stamped pkt stamp) now
unfolding write_packet evicted_by
write_packet_window history b pkt stamp now t =
    rw (evict_locked_lem (record b { pkts = longer }) now) (record {
      gone = gone;
      tracks = record {
        held =
            drop-add b.base_offset gone whole
            ∙ ap (drop gone) (drop-append _ _ _ t.evicted ∙ ap (λ l. l ++ (p ∷ [])) t.held);
        evicted = omega (
          arith,
          t.evicted,
          count_while-le (is_expired now b.max_age) longer,
          length-append b.pkts (p ∷ []),
          length-append history (p ∷ []),
          length-drop b.base_offset history,
          ap length t.held,
        );
      };
      window = refl;
      offset = refl;
      expired = (count_while_stops (is_expired now b.max_age) longer).0;
      fresh = (count_while_stops (is_expired now b.max_age) longer).1;
      wakes = refl;
      same = (refl, refl, refl);
    })
  where
    p : Packet
    p = stamped pkt stamp

    longer : List Packet
    longer = b.pkts ++ (p ∷ [])

    whole : List Packet
    whole = history ++ (p ∷ [])

    gone : ℕ
    gone = count_while (is_expired now b.max_age) longer
