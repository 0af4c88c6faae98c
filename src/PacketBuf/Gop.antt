-- ===== src/PacketBuf/Gop.antt =====
-- `LastGOP`: the packets from the last video keyframe on.
use vrtc_sdk.Prelude.{
  ℕ, ◌≡◌, refl, ap, sym, ◌∙◌, true, false, Option, none, some, List, [], ◌∷◌, ◌++◌,
}
use vrtc_sdk.Prelude.{length, take, drop, All, take-append-drop}
use vrtc_sdk.Prelude.Scan.{find_last, find_last-IsLast, IsLast}
use vrtc_sdk.Av.{Packet}
use vrtc_sdk.PacketBuf.{Buffer, last_gop, is_video_key}

-- Nil means that no packet of the buffer is a video keyframe; a group of pictures is the end of the
-- buffer from a video keyframe on, with no other behind it.
abbrev pub IsGop : List Packet → Option (List Packet) → Type 0
IsGop pkts none = All (λ p. is_video_key p ≡ false) pkts
IsGop pkts (some []) = ⊥
IsGop pkts (some (k ∷ r)) =
    (front : List Packet) × (pkts ≡ front ++ (k ∷ r))
    × (is_video_key k ≡ true)
    × All (λ p. is_video_key p ≡ false) r

drop-length : (xs : List Packet) → drop (length xs) xs ≡ []
drop-length [] = refl
drop-length (x ∷ xs) = drop-length xs

-- `LastGOP` returns the buffer's packets from its last video keyframe on, and nil exactly if it has
-- no video keyframe.
pub last_gop-IsGop : (b : Buffer) → IsGop b.pkts (last_gop b)
unfolding last_gop
last_gop-IsGop b =
    go (find_last is_video_key (length b.pkts) b.pkts)
      (find_last-IsLast is_video_key (length b.pkts) b.pkts (rw (drop-length b.pkts) tt))
  where
    go :
        (o : Option ℕ)
        → IsLast is_video_key b.pkts o
        → IsGop b.pkts (elim o [ none ↦ none | some i ↦ some (drop i b.pkts) ])
    go none h = h
    go (some i) (k, r, d, key, rest) =
        let split = sym (take-append-drop i b.pkts) ∙ ap (λ l. take i b.pkts ++ l) d in
        rw d (take i b.pkts, split, key, rest)
