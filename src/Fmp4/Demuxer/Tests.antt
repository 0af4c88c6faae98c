-- ===== src/Fmp4/Demuxer/Tests.antt =====
-- A fragment of two pictures and a sound.
use vrtc_sdk.Prelude.{
  ℕ, ◌+◌, ◌*◌, ◌^◌, ◌≡◌, refl, arith, true, false, Option, none, List, [], ◌∷◌, ◌++◌,
}
use vrtc_sdk.Prelude.Int.{pos}
use vrtc_sdk.Av.{CodecData, Packet}
use vrtc_sdk.Fmp4.Track.{Sample, Track, h264, aac}
use vrtc_sdk.Fmp4.Fragment.{build_moof, build_mdat, trafs_size, per_sample_size, sizes_of}
use vrtc_sdk.Fmp4.Stsd.{SampleEntry}
use vrtc_sdk.Fmp4.Moof.{TrackDef, find_def}
use vrtc_sdk.Fmp4.Moof.Tracks.{media_size}
use vrtc_sdk.Fmp4.Moof.RoundTrip.{demuxed}
use vrtc_sdk.Fmp4.Demuxer.{Demuxer, new_demuxer, load, advance, read_packet}
use vrtc_sdk.Fmp4.Demuxer.RoundTrip.{read_packet-build_moof}

abbrev sample_of : ℕ → ℕ → List ℕ → Sample
sample_of duration flags body = record {
  duration = duration;
  flags = flags;
  pts_offset = pos 0;
  body = body;
  extra = none;
  presentation_time_ms = pos 0;
  dts = pos 0;
}

abbrev pictures : Track
pictures = record {
  stream_idx = 0;
  id = 1;
  codec = h264 (record { width = 1920; height = 1080; config = [] });
  timescale = 90000;
  samples =
      sample_of 3600 (2 * 16 ^ 6) (1 ∷ 2 ∷ 3 ∷ []) ∷ sample_of 3600 (16 ^ 6 + 16 ^ 4) (4 ∷ []) ∷ [];
  base_time = pos 7200;
  next_time = pos 0;
  has_video = true;
}

abbrev sounds : Track
sounds = record {
  stream_idx = 1;
  id = 2;
  codec = aac (record { rate = 48000; channels = 2; config = [] });
  timescale = 48000;
  samples = sample_of 1024 0 (5 ∷ 6 ∷ []) ∷ [];
  base_time = pos 3840;
  next_time = pos 0;
  has_video = false;
}

abbrev def_of : Track → TrackDef
def_of t = record {
  id = t.id;
  stream_idx = t.stream_idx;
  timescale = t.timescale;
  codec = record { codec_type = 2; tag = none; video = none };
  has_video = t.has_video;
  def_duration = 0;
  def_size = 0;
  def_flags = 0;
}

abbrev fragment : List ℕ
fragment =
    build_moof (pictures ∷ sounds ∷ []) 1 ++ (build_mdat (pictures ∷ sounds ∷ []) ++ (9 ∷ []))

abbrev reader : Demuxer
reader = record (new_demuxer fragment) { tracks = def_of pictures ∷ def_of sounds ∷ [] }

abbrev no_codec : SampleEntry → Option CodecData
no_codec b = none

abbrev same : List Packet → List Packet
same ps = ps

abbrev no_json : List ℕ → Option ℕ
no_json b = none

read_packet-build_moof_example :
    read_packet no_codec same no_json 2 reader
    ≡ read_packet no_codec same no_json 1
        (load no_json (advance reader (9 ∷ [])) (demuxed reader.tracks (pictures ∷ sounds ∷ [])))
unfolding new_demuxer find_def trafs_size media_size per_sample_size sizes_of
read_packet-build_moof_example =
    read_packet-build_moof no_codec same no_json reader (pictures ∷ sounds ∷ []) 1 (9 ∷ [])
      (omega arith) ((def_of pictures, refl, refl, refl), ((def_of sounds, refl, refl, refl), tt))
      (omega arith) (omega arith) 1 refl refl
