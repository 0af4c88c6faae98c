-- ===== src/Rtp/Aac/Tests.antt =====
-- A packet with two access units, of two bytes and of one.
use vrtc_sdk.Prelude.{ℕ, ◌≡◌, refl, arith, List, [], ◌∷◌}
use vrtc_sdk.Rtp.Aac.{Decoder, ok, decode, body_of, sizes_loop, read_bits, read_loop, cut_loop}
use vrtc_sdk.Rtp.Aac.Cuts.{Cuts, decode-Cuts}

abbrev hbr : Decoder
hbr = record { size_length = 13; index_length = 3; index_delta_length = 3 }

abbrev two_units : List ℕ
two_units = 0 ∷ 32 ∷ 0 ∷ 16 ∷ 0 ∷ 8 ∷ 7 ∷ 8 ∷ 9 ∷ []

decode_two : decode hbr two_units ≡ ok ((7 ∷ 8 ∷ []) ∷ (9 ∷ []) ∷ [])
unfolding decode body_of sizes_loop read_bits read_loop cut_loop
decode_two = refl

decode-Cuts_example : Cuts (body_of two_units) (decode hbr two_units)
decode-Cuts_example = decode-Cuts hbr two_units (omega arith)
