-- ===== src/Segment/RingBuffer/Tests.antt =====
-- The ring buffer on three fragments.
use vrtc_sdk.Prelude.{ℕ, ◌≡◌, refl, true, [], ◌∷◌}
use vrtc_sdk.Prelude.Int.{pos}
use vrtc_sdk.Segment.RingBuffer.{Fragment, RingBuffer, push, is_expired, read_from, find_from}
use vrtc_sdk.Segment.RingBuffer.Laws.{read_from-InOrder, keep, Pushed, push-Pushed}

abbrev fragment_at : ℕ → Fragment
fragment_at t = record {
  dts = pos t;
  duration = pos 10;
  key_frame = true;
  body = t ∷ [];
  timestamp = t;
}

abbrev three : RingBuffer
three = record {
  fragments = fragment_at 10 ∷ fragment_at 20 ∷ fragment_at 30 ∷ [];
  max_age = 25;
  notify = 3;
}

pushed_fragments : (push three (fragment_at 40) 50).fragments ≡ fragment_at 30 ∷ fragment_at 40 ∷ []
unfolding push is_expired
pushed_fragments = refl

read_tail : read_from three (pos 15) ≡ fragment_at 20 ∷ fragment_at 30 ∷ []
unfolding read_from find_from
read_tail = refl

read_from-InOrder_example : read_from three (pos 15) ≡ keep (pos 15) three.fragments
read_from-InOrder_example =
    read_from-InOrder three (pos 15) ((refl, (refl, tt)), ((refl, tt), (tt, tt)))

push-Pushed_example : Pushed three (push three (fragment_at 40) 50) (fragment_at 40) 50
push-Pushed_example = push-Pushed three (fragment_at 40) 50
