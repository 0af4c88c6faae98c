-- ===== src/Fmp4/Moof/Media.antt =====
-- How the samples are cut out of an mdat.
use vrtc_sdk.Prelude.{
  ℕ, ◌+◌, ◌/◌, ◌%◌, ◌^◌, ◌≤◌, ◌<◌, ◌≡◌, refl, ap, sym, ◌∙◌, Bool, false, ◌||◌, none, some, List, [],
  ◌∷◌, ◌++◌, arith, append_assoc,
}
use vrtc_sdk.Prelude.{
  length, if◌then◌else◌, length-append, take, drop, take-length_append, drop-length_append, ◌==◌,
}
use vrtc_sdk.Prelude.Int.{ℤ, pos, ltb_ℤ, add64, add64_pos}
use vrtc_sdk.Av.{Packet}
use vrtc_sdk.Fmp4.Track.{Sample}
use vrtc_sdk.Fmp4.Fragment.{sample_bytes}
use vrtc_sdk.Fmp4.Moof.{TrackDef, RawSample, find_def}
use vrtc_sdk.Fmp4.Mdat.{packet_of, packets_of, ticks_to_duration}
use vrtc_sdk.Fmp4.Moof.Samples.{raw_of, raws_of}

-- The packets of the samples of a track that the demuxer knows as `d`: the times are those of the
-- ticks, the DTS counts from the base time by the durations.
unfoldable pub demuxed_samples : TrackDef → Bool → ℤ → List Sample → List Packet
unfolding ticks_to_duration
demuxed_samples d video dts [] = []
demuxed_samples d video dts (s ∷ r) =
    record {
      key_frame = (if video then s.flags else 0) / 2 ^ 16 % 2 == 0;
      is_discontinuity = false;
      idx = d.stream_idx;
      codec_type = d.codec.codec_type;
      frame_id = pos 0;
      dts = ticks_to_duration dts d.timescale;
      pts_offset = ticks_to_duration (if video then s.pts_offset else pos 0) d.timescale;
      duration = ticks_to_duration (pos s.duration) d.timescale;
      wall_clock_time = 0;
      payload = s.body;
      analytics = none;
      new_codecs = none;
    }
    ∷ demuxed_samples d video (add64 dts (pos s.duration)) r

-- A sample that lies in the mdat.
packets_of-step :
    (defs : List TrackDef) (mdat : List ℕ) (s : RawSample) (r : List RawSample) (d : TrackDef)
    (off : ℕ) (body : List ℕ)
    → find_def s.track_id defs ≡ some d
    → s.mdat_off ≡ pos off
    → off + s.size ≤ length mdat
    → length mdat < 2 ^ 62
    → take s.size (drop off mdat) ≡ body
    → packets_of defs mdat (s ∷ r) ≡ packet_of d s body ∷ packets_of defs mdat r
unfolding packets_of
packets_of-step defs mdat s r d off body h e k l m =
    let sum : add64 (pos off) (pos s.size) ≡ pos (off + s.size) =
      add64_pos off s.size (omega arith) in
    let inside : (ltb_ℤ (pos off) (pos 0) || ltb_ℤ (pos (length mdat)) (pos (off + s.size)))
        ≡ false =
      ground arith in
    ground arith

slice_lem : (p b q : List ℕ) → take (length b) (drop (length p) (p ++ (b ++ q))) ≡ b
slice_lem p b q = rw (drop-length_append p (b ++ q), take-length_append b q)

pub packets_of-raws_of :
    (defs : List TrackDef) (mdat : List ℕ) (d : TrackDef) (id : ℕ) (video : Bool)
    (r : List RawSample) (s : List Sample) (dts : ℤ) (p q : List ℕ)
    → find_def id defs ≡ some d
    → mdat ≡ p ++ (sample_bytes s ++ q)
    → length mdat < 2 ^ 62
    → packets_of defs mdat (raws_of id video dts (length p) s ++ r)
      ≡ demuxed_samples d video dts s ++ packets_of defs mdat r
unfolding raws_of demuxed_samples sample_bytes packet_of
packets_of-raws_of defs mdat d id video r [] dts p q h e l = refl
packets_of-raws_of defs mdat d id video r (x ∷ s) dts p q h e l =
    let front : p ++ ((x.body ++ sample_bytes s) ++ q) ≡ p ++ (x.body ++ (sample_bytes s ++ q)) =
      ap (λ l. p ++ l) (append_assoc x.body (sample_bytes s) q) in
    let size : length mdat ≡ length p + (length x.body + length (sample_bytes s ++ q)) =
      ap length (e ∙ front)
      ∙ length-append p (x.body ++ (sample_bytes s ++ q))
      ∙ ap (λ n. length p + n) (length-append x.body (sample_bytes s ++ q)) in
    let later =
      packets_of-raws_of defs mdat d id video r s (add64 dts (pos x.duration)) (p ++ x.body) q h
        (e ∙ front ∙ sym (append_assoc p x.body (sample_bytes s ++ q))) l in
    packets_of-step defs mdat (raw_of id video dts (length p) x) _ d (length p) x.body h refl
      (omega arith) l
      (ap (λ m. take (length x.body) (drop (length p) m)) (e ∙ front)
        ∙ slice_lem p x.body (sample_bytes s ++ q))
    ∙ ap (λ l. packet_of d (raw_of id video dts (length p) x) x.body ∷ l)
        (ap (λ n. packets_of defs mdat (raws_of id video (add64 dts (pos x.duration)) n s ++ r))
            (sym (length-append p x.body))
          ∙ later)
