-- ===== src/Fmp4/Track.antt =====
-- av/format/fmp4/muxer.go: samples and tracks.
-- `trackMap` has the last track of a stream in the order of `tracks`; `WriteCodecChange` looks for the
-- first one, which is the same where the streams have different indices.
pub mod Bodies
pub mod Video
use vrtc_sdk.Prelude.{
  ℕ, suc, ◌+◌, ◌*◌, ◌%◌, ◌^◌, Bool, true, false, ◌&&◌, ◌||◌, Option, none, some, List, [], ◌∷◌,
  ◌++◌,
}
use vrtc_sdk.Prelude.{ltb, ◌==◌, if◌then◌else◌, length}
use vrtc_sdk.Prelude.Int.{ℤ, pos, ltb_ℤ, add64, sub64, scale64, quot, to_uint32, to_int32}
use vrtc_sdk.Av.{Packet}

-- What the muxer reads of a video codec: its size and its decoder configuration record.
pub record Picture : Type 0 where
  pub width : ℕ
  pub height : ℕ
  pub config : List ℕ

-- What it reads of an audio codec: the rate, the number of channels, and `MPEG4AudioConfigBytes` or
-- `STREAMINFOBlock`.
pub record Sound : Type 0 where
  pub rate : ℕ
  pub channels : ℕ
  pub config : List ℕ

-- The concrete types of codec data that the code tells apart.
pub data Codec : Type 0 where
  h264 h265 : Picture → Codec
  aac flac : Sound → Codec
  other : Codec

-- `extra` is the analytics that are sent in an emsg box.
pub record Sample : Type 0 where
  pub duration : ℕ
  pub flags : ℕ
  pub pts_offset : ℤ
  pub body : List ℕ
  pub extra : Option ℕ
  pub presentation_time_ms : ℤ
  pub dts : ℤ

pub record Track : Type 0 where
  pub stream_idx : ℕ
  pub id : ℕ
  pub codec : Codec
  pub timescale : ℕ
  pub samples : List Sample
  pub base_time : ℤ
  pub next_time : ℤ
  pub has_video : Bool

-- `newTrackState`; none is `ErrUnsupportedCodec`.
unfoldable pub new_track_state : ℕ → Codec → ℕ → Option Track
new_track_state idx codec id =
    let track : ℕ → Bool → Option Track = λ timescale video. some (record {
      stream_idx = idx;
      id = id;
      codec = codec;
      timescale = timescale;
      samples = [];
      base_time = pos 0;
      next_time = pos 0;
      has_video = video;
    }) in
    elim codec [
      | h264 v ↦ track 90000 true
      | h265 v ↦ track 90000 true
      | aac a ↦ track (a.rate % 2 ^ 32) false
      | flac a ↦ track (a.rate % 2 ^ 32) false
      | other ↦ none
    ]

-- `dtsToTimescale` and `durationToTimescale`.
unfoldable pub dts_to_timescale : ℤ → ℕ → ℤ
dts_to_timescale d timescale = quot (scale64 d timescale) (10 ^ 9)

unfoldable pub has_any_samples : List Track → Bool
has_any_samples [] = false
has_any_samples (t ∷ ts) = ltb 0 (length t.samples) || has_any_samples ts

unfoldable pub has_video_tracks : List Track → Bool
has_video_tracks [] = false
has_video_tracks (t ∷ ts) = t.has_video || has_video_tracks ts

-- `trackMap[idx]`.
unfoldable pub find_track : ℕ → List Track → Option Track
find_track idx [] = none
find_track idx (t ∷ ts) = elim (find_track idx ts) [
  | some u ↦ some u
  | none ↦ if t.stream_idx == idx then some t else none
]

-- A change of the track that `trackMap[idx]` points to.
unfoldable pub update_track : ℕ → (Track → Track) → List Track → List Track
unfolding find_track
update_track idx f [] = []
update_track idx f (t ∷ ts) = elim (find_track idx ts) [
  | some u ↦ t ∷ update_track idx f ts
  | none ↦ (if t.stream_idx == idx then f t else t) ∷ ts
]

-- `makeSample`, with the DTS already normalised.
unfoldable pub make_sample : Packet → Track → Sample
unfolding dts_to_timescale
make_sample pkt ts = record {
  duration = to_uint32 (dts_to_timescale pkt.duration ts.timescale);
  flags = if ts.has_video then (if pkt.key_frame then 2 * 16 ^ 6 else 16 ^ 6 + 16 ^ 4) else 0;
  pts_offset = to_int32 (dts_to_timescale pkt.pts_offset ts.timescale);
  body = pkt.payload;
  extra = pkt.analytics;
  presentation_time_ms = quot (add64 pkt.dts pkt.pts_offset) (10 ^ 6);
  dts = dts_to_timescale pkt.dts ts.timescale;
}

-- The last sample takes the duration of the one before it, if it has none.
unfoldable pub patch_last : List Sample → List Sample
patch_last [] = []
patch_last (s ∷ []) = s ∷ []
patch_last (s ∷ t ∷ []) =
    s ∷ (if t.duration == 0 then record t { duration = s.duration } else t) ∷ []
patch_last (s ∷ t ∷ u ∷ r) = s ∷ patch_last (t ∷ u ∷ r)

unfoldable pub patch_tracks : List Track → List Track
unfolding patch_last
patch_tracks [] = []
patch_tracks (t ∷ ts) = record t { samples = patch_last t.samples } ∷ patch_tracks ts

-- The tracks that have samples.
unfoldable pub active : List Track → List Track
active [] = []
active (t ∷ ts) = if ltb 0 (length t.samples) then t ∷ active ts else active ts

unfoldable pub total_duration : List Sample → ℕ
total_duration [] = 0
total_duration (s ∷ r) = s.duration + total_duration r

-- What is left of the tracks after they were written.
unfoldable pub clear_tracks : List Track → List Track
unfolding total_duration
clear_tracks [] = []
clear_tracks (t ∷ ts) =
    record t { samples = []; next_time = add64 t.next_time (pos (total_duration t.samples)) }
    ∷ clear_tracks ts

-- The number of emsg boxes.
unfoldable pub count_extra : List Sample → ℕ
count_extra [] = 0
count_extra (s ∷ r) = elim s.extra [ none ↦ count_extra r | some a ↦ suc (count_extra r) ]

unfoldable pub count_emsg : List Track → ℕ
unfolding count_extra
count_emsg [] = 0
count_emsg (t ∷ ts) = count_extra t.samples + count_emsg ts

-- The duration of the last sample, if it has none, is the distance to the next one.
unfoldable pub back_fill : ℤ → List Sample → List Sample
back_fill dts [] = []
back_fill dts (s ∷ []) =
    (if s.duration == 0 && ltb_ℤ s.dts dts
      then record s { duration = to_uint32 (sub64 dts s.dts) }
      else s)
    ∷ []
back_fill dts (s ∷ t ∷ r) = s ∷ back_fill dts (t ∷ r)

unfoldable pub append_sample : Packet → Track → Track
unfolding back_fill make_sample dts_to_timescale
append_sample pkt ts =
    let new_dts = dts_to_timescale pkt.dts ts.timescale in
    record ts {
      base_time = if length ts.samples == 0 then new_dts else ts.base_time;
      samples = back_fill new_dts ts.samples ++ (make_sample pkt ts ∷ []);
    }

-- The loop of `WriteHeader`, which skips codecs that have no track.
unfoldable pub new_tracks : List (ℕ × Codec) → ℕ → List Track
unfolding new_track_state
new_tracks [] id = []
new_tracks ((idx, codec) ∷ streams) id = elim (new_track_state idx codec id) [
  | none ↦ new_tracks streams id
  | some ts ↦ ts ∷ new_tracks streams (id + 1)
]

-- The loop of `WriteCodecChange`: whether it failed, and the tracks so far.
unfoldable pub change_tracks : List (ℕ × Codec) → List Track → Bool × List Track
unfolding find_track new_track_state update_track
change_tracks [] tracks = (false, tracks)
change_tracks ((idx, codec) ∷ streams) tracks = elim (find_track idx tracks) [
  | none ↦ change_tracks streams tracks
  | some old ↦ elim (new_track_state idx codec old.id) [
    | none ↦ (true, tracks)
    | some fresh ↦
        change_tracks streams
          (update_track idx (λ t. record fresh { next_time = old.next_time }) tracks)
  ]
]
