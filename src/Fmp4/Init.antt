-- ===== src/Fmp4/Init.antt =====
-- av/format/fmp4/muxer.go: the boxes of the init segment.
use vrtc_sdk.Prelude.{
  ℕ, zero, suc, ◌+◌, ◌*◌, ◌/◌, ◌%◌, ◌^◌, bit_and, bit_or, Bool, true, false, Option, none, some,
  List, [], ◌∷◌, ◌++◌,
}
use vrtc_sdk.Prelude.{ltb, if◌then◌else◌, length}
use vrtc_sdk.Prelude.Endian.{codes, put16, put24, put32}
use vrtc_sdk.Fmp4.Track.{Codec, Picture, Sound, Track, h264, h265, aac, flac, other}
use vrtc_sdk.Fmp4.Box.{make_box, make_full_box, zeros}

-- `buildDescriptor`, its length loop on fuel; none is a loop that goes on.
unfoldable pub length_loop : ℕ → ℕ → Option (List ℕ)
length_loop zero n = none
length_loop (suc fuel) n =
    let rest = length_loop fuel (bit_and n 0x1fffff) in
    if ltb 0x7f n
    then elim rest [ none ↦ none | some l ↦ some (bit_or (n / 2 ^ 21 % 256) 0x80 ∷ l) ]
    else some (n % 256 ∷ [])

unfoldable pub build_descriptor : ℕ → ℕ → List ℕ → Option (List ℕ)
build_descriptor fuel tag payload = elim (length_loop fuel (length payload)) [
  | none ↦ none
  | some l ↦ some (tag ∷ (l ++ payload))
]

-- `buildEsds`, with the fuel of its descriptors.
unfoldable pub build_esds : ℕ → List ℕ → Option (List ℕ)
build_esds fuel asc = elim (build_descriptor fuel 5 asc) [
  | none ↦ none
  | some dsi ↦ elim (build_descriptor fuel 4 (0x40 ∷ 0x15 ∷ put24 0 (put32 0 (put32 0 dsi)))) [
    | none ↦ none
    | some dc ↦ elim (build_descriptor fuel 6 (2 ∷ [])) [
      | none ↦ none
      | some sl ↦ elim (build_descriptor fuel 3 (put16 1 (0 ∷ (dc ++ sl)))) [
        | none ↦ none
        | some es ↦ some (make_box (codes "esds") (put32 0 es))
      ]
    ]
  ]
]

-- The sample entry of a picture up to its configuration box, which `buildAvc1` and `buildHev1` share.
pub visual_entry : Picture → List ℕ → List ℕ
visual_entry v config = zeros 6 (
    put16 1 (
      put16 0 (
        put16 0 (
          zeros 12 (
            put16 v.width (
              put16 v.height (
                put32 0x00480000 (
                  put32 0x00480000
                    (put32 0 (put16 1 (zeros 32 (put16 0x18 (put16 0xffff config)))))))))))))

pub build_avc1 : Picture → List ℕ
build_avc1 v = make_box (codes "avc1") (visual_entry v (make_box (codes "avcC") v.config))

pub build_hev1 : Picture → List ℕ
build_hev1 v = make_box (codes "hev1") (visual_entry v (make_box (codes "hvcC") v.config))

-- The sample entry of sound up to its configuration box, which `buildMp4a` and `buildFLaC` share.
pub audio_entry : Sound → List ℕ → List ℕ
audio_entry a config = zeros 6 (
    put16 1 (
      put32 0 (
        put32 0
          (put16 a.channels (put16 16 (put16 0 (put16 0 (put32 (a.rate * 2 ^ 16) config))))))))

pub build_mp4a : ℕ → Sound → Option (List ℕ)
build_mp4a fuel a = elim (build_esds fuel a.config) [
  | none ↦ none
  | some esds ↦ some (make_box (codes "mp4a") (audio_entry a esds))
]

pub build_flac : Sound → List ℕ
build_flac a = make_box (codes "fLaC") (audio_entry a (make_full_box (codes "dfLa") 0 0 a.config))

-- The sample entry that `buildStsd` chooses.
pub sample_entry : ℕ → Codec → Option (List ℕ)
sample_entry fuel (h264 v) = some (build_avc1 v)
sample_entry fuel (h265 v) = some (build_hev1 v)
sample_entry fuel (aac a) = build_mp4a fuel a
sample_entry fuel (flac a) = some (build_flac a)
sample_entry fuel other = some []

pub build_stsd : List ℕ → List ℕ
build_stsd entry = make_full_box (codes "stsd") 0 0 (put32 1 entry)

pub build_stts : List ℕ
build_stts = make_full_box (codes "stts") 0 0 (put32 0 [])

pub build_stsc : List ℕ
build_stsc = make_full_box (codes "stsc") 0 0 (put32 0 [])

pub build_stsz : List ℕ
build_stsz = make_full_box (codes "stsz") 0 0 (put32 0 (put32 0 []))

pub build_stco : List ℕ
build_stco = make_full_box (codes "stco") 0 0 (put32 0 [])

pub build_stbl : List ℕ → List ℕ
build_stbl entry =
    make_box (codes "stbl")
      (build_stsd entry ++ (build_stts ++ (build_stsc ++ (build_stsz ++ build_stco))))

pub build_dinf : List ℕ
build_dinf =
    make_box (codes "dinf")
      (make_full_box (codes "dref") 0 0 (put32 1 (make_full_box (codes "url ") 0 1 [])))

pub build_vmhd : List ℕ
build_vmhd = make_full_box (codes "vmhd") 0 1 (put16 0 (zeros 6 []))

pub build_smhd : List ℕ
build_smhd = make_full_box (codes "smhd") 0 0 (put16 0 (put16 0 []))

pub build_minf : Bool → List ℕ → List ℕ
build_minf video entry =
    make_box (codes "minf")
      ((if video then build_vmhd else build_smhd) ++ (build_dinf ++ build_stbl entry))

pub build_hdlr : Bool → List ℕ
build_hdlr video = make_full_box (codes "hdlr") 0 0 (
    put32 0 (
      if video
      then codes "vide" ++ zeros 12 (codes "VideoHandler" ++ (0 ∷ []))
      else codes "soun" ++ zeros 12 (codes "SoundHandler" ++ (0 ∷ []))))

pub build_mdhd : ℕ → List ℕ
build_mdhd timescale =
    make_full_box (codes "mdhd") 0 0
      (put32 0 (put32 0 (put32 timescale (put32 0 (put16 0x55c4 (put16 0 []))))))

pub build_mdia : Track → List ℕ → List ℕ
build_mdia ts entry =
    make_box (codes "mdia")
      (build_mdhd ts.timescale ++ (build_hdlr ts.has_video ++ build_minf ts.has_video entry))

-- The identity matrix.
pub matrix : List ℕ → List ℕ
matrix r =
    put32 0x10000 (
      put32 0
        (put32 0 (put32 0 (put32 0x10000 (put32 0 (put32 0 (put32 0 (put32 0x40000000 r))))))))

-- Width and height in 16.16 fixed point, of a VideoCodecData.
pub dimensions : Codec → List ℕ
dimensions (h264 v) = put32 (v.width * 2 ^ 16) (put32 (v.height * 2 ^ 16) [])
dimensions (h265 v) = put32 (v.width * 2 ^ 16) (put32 (v.height * 2 ^ 16) [])
dimensions (aac a) = put32 0 (put32 0 [])
dimensions (flac a) = put32 0 (put32 0 [])
dimensions other = put32 0 (put32 0 [])

pub build_tkhd : Track → List ℕ
build_tkhd ts = make_full_box (codes "tkhd") 0 3 (
    put32 0 (
      put32 0 (
        put32 ts.id (
          put32 0 (
            put32 0 (
              zeros 8 (
                put16 0 (
                  put16 0 (
                    put16 (if ts.has_video then 0 else 0x100)
                      (put16 0 (matrix (dimensions ts.codec))))))))))))

pub build_trak : ℕ → Track → Option (List ℕ)
build_trak fuel ts = elim (sample_entry fuel ts.codec) [
  | none ↦ none
  | some entry ↦ some (make_box (codes "trak") (build_tkhd ts ++ build_mdia ts entry))
]

pub build_traks : ℕ → List Track → Option (List ℕ)
build_traks fuel [] = some []
build_traks fuel (t ∷ ts) = elim (build_trak fuel t) [
  | none ↦ none
  | some b ↦ elim (build_traks fuel ts) [ none ↦ none | some r ↦ some (b ++ r) ]
]

pub build_mvhd : ℕ → List ℕ
build_mvhd tracks = make_full_box (codes "mvhd") 0 0 (
    put32 0 (
      put32 0 (
        put32 1000 (
          put32 0
            (put32 0x10000 (put16 0x100 (zeros 10 (matrix (zeros 24 (put32 (tracks + 1) []))))))))))

pub build_trex : Track → List ℕ
build_trex ts =
    make_full_box (codes "trex") 0 0 (put32 ts.id (put32 1 (put32 0 (put32 0 (put32 0 [])))))

pub build_trexs : List Track → List ℕ
build_trexs [] = []
build_trexs (t ∷ ts) = build_trex t ++ build_trexs ts

pub build_mvex : List Track → List ℕ
build_mvex tracks = make_box (codes "mvex") (build_trexs tracks)

pub build_moov : ℕ → List Track → Option (List ℕ)
build_moov fuel tracks = elim (build_traks fuel tracks) [
  | none ↦ none
  | some traks ↦
      some (make_box (codes "moov") (build_mvhd (length tracks) ++ (traks ++ build_mvex tracks)))
]

-- The loop of `buildFtyp`.
pub any_h265 : List Track → Bool
any_h265 [] = false
any_h265 (t ∷ ts) = elim t.codec [ h265 v ↦ true | _ ↦ any_h265 ts ]

pub build_ftyp : List Track → List ℕ
build_ftyp tracks = make_box (codes "ftyp") (
    codes "isom"
    ++ put32 0x200 (
        codes "isomiso5"
        ++ ((if any_h265 tracks then codes "hev1" else codes "avc1") ++ codes "mp41")))

pub build_init_segment : ℕ → List Track → Option (List ℕ)
build_init_segment fuel tracks = elim (build_moov fuel tracks) [
  | none ↦ none
  | some moov ↦ some (build_ftyp tracks ++ moov)
]
