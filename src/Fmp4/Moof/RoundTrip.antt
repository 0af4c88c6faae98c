-- ===== src/Fmp4/Moof/RoundTrip.antt =====
-- A fragment that the muxer writes, read by the demuxer.
use vrtc_sdk.Prelude.{
  ℕ, ◌+◌, ◌^◌, ◌<◌, ◌≡◌, refl, ap, sym, ◌∙◌, none, some, List, [], ◌∷◌, ◌++◌, arith, append_assoc,
}
use vrtc_sdk.Prelude.{length, All, length-append}
use vrtc_sdk.Av.{Packet}
use vrtc_sdk.Fmp4.Track.{Track}
use vrtc_sdk.Fmp4.Fragment.{sample_bytes, track_bytes, sizes_of}
use vrtc_sdk.Fmp4.Fragment.Size.{length-sample_bytes}
use vrtc_sdk.Fmp4.Moof.{TrackDef, find_def}
use vrtc_sdk.Fmp4.Mdat.{packets_of}
use vrtc_sdk.Fmp4.Moof.Tracks.{IsDeclared, raws}
use vrtc_sdk.Fmp4.Moof.Media.{demuxed_samples, packets_of-raws_of}

-- The packets of the tracks, one after the other.
unfoldable pub demuxed : List TrackDef → List Track → List Packet
unfolding demuxed_samples
demuxed defs [] = []
demuxed defs (t ∷ ts) = elim (find_def t.id defs) [
  | none ↦ demuxed defs ts
  | some d ↦ demuxed_samples d t.has_video t.base_time t.samples ++ demuxed defs ts
]

demuxed-found :
    (defs : List TrackDef) (t : Track) (ts : List Track) (d : TrackDef)
    → find_def t.id defs ≡ some d
    → demuxed defs (t ∷ ts) ≡ demuxed_samples d t.has_video t.base_time t.samples ++ demuxed defs ts
unfolding demuxed
demuxed-found defs t ts d h = ground arith

pub packets_of-raws :
    (defs : List TrackDef) (mdat : List ℕ) (ts : List Track) (p : List ℕ)
    → All (IsDeclared defs) ts
    → mdat ≡ p ++ track_bytes ts
    → length mdat < 2 ^ 62
    → packets_of defs mdat (raws (length p) ts) ≡ demuxed defs ts
unfolding packets_of raws demuxed track_bytes
packets_of-raws defs mdat [] p a e l = refl
packets_of-raws defs mdat (t ∷ ts) p a e l =
    let size : length (p ++ sample_bytes t.samples) ≡ length p + sizes_of t.samples =
      length-append p (sample_bytes t.samples)
      ∙ ap (λ n. length p + n) (length-sample_bytes t.samples) in
    let later =
      packets_of-raws defs mdat ts (p ++ sample_bytes t.samples) a.1
        (e ∙ sym (append_assoc p (sample_bytes t.samples) (track_bytes ts))) l in
    packets_of-raws_of defs mdat a.0.0 t.id t.has_video (raws (length p + sizes_of t.samples) ts)
      t.samples t.base_time p (track_bytes ts) a.0.1 e l
    ∙ ap (λ r. demuxed_samples a.0.0 t.has_video t.base_time t.samples ++ r)
        (ap (λ n. packets_of defs mdat (raws n ts)) (sym size) ∙ later)
    ∙ sym (demuxed-found defs t ts a.0.0 a.0.1)
