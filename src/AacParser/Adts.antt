-- ===== src/AacParser/Adts.antt =====
-- av/codec/aacparser/parser.go: ADTS headers.
use vrtc_sdk.Prelude.{
  ℕ, suc, ◌+◌, ◌-◌, ◌*◌, ◌/◌, ◌%◌, ◌^◌, ◌≤◌, ◌<◌, ◌≡◌, refl, ap, ◌∙◌, false, not, ◌||◌, ◌⊎◌, inl,
  inr, List, [], ◌∷◌, ◌++◌, ltb, ◌==◌, if◌then◌else◌, length, take, drop, arith, bit_or,
}
use vrtc_sdk.Prelude.Bits.{or_low}
use vrtc_sdk.AacParser.Config.{Mpeg4AudioConfig, complete}

-- The errors of `ParseADTSHeader`.
pub data AdtsError : Type 0 where
  unexpected_eof not_adts_header invalid_sample_rate_index adts_frame_len : AdtsError

-- The results of `ParseADTSHeader`.
pub record AdtsHeader : Type 0 where
  pub config : Mpeg4AudioConfig
  pub hdrlen : ℕ
  pub framelen : ℕ
  pub samples : ℕ

-- `ParseADTSHeader`; its channel count is at most 7, so it is always valid.
unfoldable pub parse_adts_header : List ℕ → AdtsError ⊎ AdtsHeader
unfolding complete
parse_adts_header (f0 ∷ f1 ∷ f2 ∷ f3 ∷ f4 ∷ f5 ∷ f6 ∷ r) =
    let index = f2 / 2 ^ 2 % 2 ^ 4 in
    let framelen = f3 % 2 ^ 2 * 2 ^ 11 + f4 * 2 ^ 3 + f5 / 2 ^ 5 in
    let hdrlen = if f1 % 2 == 0 then 9 else 7 in
    if not (f0 == 0xff) || not (f1 / 2 ^ 4 == 0xf)
    then inl not_adts_header
    else if ltb 12 index
    then inl invalid_sample_rate_index
    else if ltb framelen hdrlen
    then inl adts_frame_len
    else if ltb (7 + length r) framelen
    then inl unexpected_eof
    else inr (record {
      config = complete (record {
        sample_rate = 0;
        channel_layout = 0;
        object_type = f2 / 2 ^ 6 + 1;
        sample_rate_index = index;
        channel_config = f2 % 2 * 2 ^ 2 + f3 / 2 ^ 6;
      });
      hdrlen = hdrlen;
      framelen = framelen;
      samples = (f6 % 2 ^ 2 + 1) * 1024;
    })
parse_adts_header _ = inl unexpected_eof

-- `FillADTSHeader` on a header of seven bytes. `samples/1024-1` is -1 below 1024 samples.
unfoldable pub fill_adts_header : Mpeg4AudioConfig → ℕ → ℕ → List ℕ
fill_adts_header config samples payload_length =
    let size = payload_length + 7 in
    let frames = (samples / 1024 + 255) % 256 in
    0xff
    ∷ 0xf1
    ∷ ((config.object_type + 3) % 2 ^ 2 * 2 ^ 6
        + config.sample_rate_index % 2 ^ 4 * 2 ^ 2
        + config.channel_config / 2 ^ 2 % 2)
    ∷ (config.channel_config % 2 ^ 2 * 2 ^ 6 + size / 2 ^ 11 % 2 ^ 2)
    ∷ size / 2 ^ 3 % 2 ^ 8
    ∷ (0x1f + size % 2 ^ 3 * 2 ^ 5)
    ∷ bit_or 0xcc frames
    ∷ []

-- `ExtractADTSFrame`: the raw frame and what the header says.
unfoldable pub extract_adts_frame : List ℕ → AdtsError ⊎ (List ℕ × AdtsHeader)
unfolding parse_adts_header
extract_adts_frame frame = elim (parse_adts_header frame) [
  | inl e ↦ inl e
  | inr h ↦ inr (take (h.framelen - h.hdrlen) (drop h.hdrlen frame), h)
]

-- What a header says of its configuration: the rate and the layout are those of the tables.
unfoldable pub told : Mpeg4AudioConfig → Mpeg4AudioConfig
unfolding complete
told c = complete (record {
  sample_rate = 0;
  channel_layout = 0;
  object_type = c.object_type;
  sample_rate_index = c.sample_rate_index;
  channel_config = c.channel_config;
})

-- A header that passes the tests.
parse_step :
    (f2 f3 f4 f5 f6 : ℕ) (r : List ℕ) (index object channels framelen samples : ℕ)
    → f2 / 2 ^ 2 % 2 ^ 4 ≡ index
    → f2 / 2 ^ 6 + 1 ≡ object
    → f2 % 2 * 2 ^ 2 + f3 / 2 ^ 6 ≡ channels
    → f3 % 2 ^ 2 * 2 ^ 11 + f4 * 2 ^ 3 + f5 / 2 ^ 5 ≡ framelen
    → (f6 % 2 ^ 2 + 1) * 1024 ≡ samples
    → index < 13
    → 7 ≤ framelen
    → framelen ≤ 7 + length r
    → parse_adts_header (0xff ∷ 0xf1 ∷ f2 ∷ f3 ∷ f4 ∷ f5 ∷ f6 ∷ r)
      ≡ inr (record {
        config = complete (record {
          sample_rate = 0;
          channel_layout = 0;
          object_type = object;
          sample_rate_index = index;
          channel_config = channels;
        });
        hdrlen = 7;
        framelen = framelen;
        samples = samples;
      })
unfolding parse_adts_header
parse_step f2 f3 f4 f5 f6 r index object channels framelen samples a b c d e h k l =
    let index_test : ltb 12 index ≡ false = ground arith in
    let short_test : ltb framelen 7 ≡ false = ground arith in
    let long_test : ltb (7 + length r) framelen ≡ false = ground arith in
    rw (a, b, c, d, e, index_test, short_test, long_test)

-- The configurations that a header has room for.
abbrev pub FitsAdts : Mpeg4AudioConfig → Type 0
FitsAdts c =
    (1 ≤ c.object_type) × (c.object_type ≤ 4) × (c.sample_rate_index < 13) × (c.channel_config < 8)

frames_lem :
    (f : ℕ)
    → f < 4
    → (bit_or 0xcc ((suc f * 1024 / 1024 + 255) % 256) % 2 ^ 2 + 1) * 1024 ≡ suc f * 1024
frames_lem f h =
    let e : (suc f * 1024 / 1024 + 255) % 256 ≡ f = omega arith in
    rw e (omega (arith, or_low 2 51 f h))

-- `ParseADTSHeader` on what `FillADTSHeader` writes before a payload: the header tells the configuration,
-- the lengths and the samples, 1024 to 4096 in steps of 1024, if the configuration fits and the frame is
-- shorter than 8192 bytes.
parse_adts_header-fill_adts_header :
    (c : Mpeg4AudioConfig) (f : ℕ) (payload : List ℕ)
    → FitsAdts c
    → f < 4
    → length payload + 7 < 2 ^ 13
    → parse_adts_header (fill_adts_header c (suc f * 1024) (length payload) ++ payload)
      ≡ inr (record {
        config = told c;
        hdrlen = 7;
        framelen = length payload + 7;
        samples = suc f * 1024;
      })
unfolding fill_adts_header told
parse_adts_header-fill_adts_header c f payload fits h k =
    parse_step _ _ _ _ _ payload c.sample_rate_index c.object_type c.channel_config
      (length payload + 7) (suc f * 1024) (omega arith) (omega arith) (omega arith) (omega arith)
      (frames_lem f h) fits.2 (omega arith) (omega arith)

take-length : (p : List ℕ) → take (length p) p ≡ p
take-length [] = refl
take-length (x ∷ p) = ap (λ l. x ∷ l) (take-length p)

extract_step :
    (frame raw : List ℕ) (h : AdtsHeader)
    → parse_adts_header frame ≡ inr h
    → take (h.framelen - h.hdrlen) (drop h.hdrlen frame) ≡ raw
    → extract_adts_frame frame ≡ inr (raw, h)
unfolding extract_adts_frame
extract_step frame raw h e k = ground arith

-- A payload behind the header that `FillADTSHeader` writes for it is extracted whole, with the
-- configuration and the number of samples of the header. The configuration has an object type of 1 to 4,
-- an index of the table of rates and a channel configuration below 8, the frame is shorter than 8192
-- bytes, and the samples are 1024, 2048, 3072 or 4096.
pub extract_adts_frame-fill_adts_header :
    (c : Mpeg4AudioConfig) (f : ℕ) (payload : List ℕ)
    → FitsAdts c
    → f < 4
    → length payload + 7 < 2 ^ 13
    → extract_adts_frame (fill_adts_header c (suc f * 1024) (length payload) ++ payload)
      ≡ inr (
        payload,
        record {
          config = told c;
          hdrlen = 7;
          framelen = length payload + 7;
          samples = suc f * 1024;
        },
      )
unfolding fill_adts_header
extract_adts_frame-fill_adts_header c f payload fits h k =
    extract_step (fill_adts_header c (suc f * 1024) (length payload) ++ payload) payload _
      (parse_adts_header-fill_adts_header c f payload fits h k)
      (ap (λ n. take n payload) (omega arith) ∙ take-length payload)
