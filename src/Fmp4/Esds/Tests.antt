-- ===== src/Fmp4/Esds/Tests.antt =====
-- The descriptors of an esds.
use vrtc_sdk.Prelude.{ℕ, ◌≡◌, arith, none, some, List, [], ◌∷◌, ◌++◌}
use vrtc_sdk.Prelude.Endian.{codes}
use vrtc_sdk.Fmp4.Box.{make_box}
use vrtc_sdk.Fmp4.Init.{build_descriptor, build_esds}
use vrtc_sdk.Fmp4.Esds.{parse_esds, build_descriptor-endless, parse_esds-build_esds}

abbrev sixteen : List ℕ
sixteen = 1 ∷ 2 ∷ 3 ∷ 4 ∷ 5 ∷ 6 ∷ 7 ∷ 8 ∷ 9 ∷ 10 ∷ 11 ∷ 12 ∷ 13 ∷ 14 ∷ 15 ∷ 16 ∷ []

abbrev long_config : List ℕ
long_config =
    sixteen ++ (sixteen ++ (sixteen ++ (sixteen ++ (sixteen ++ (sixteen ++ (sixteen ++ sixteen))))))

build_descriptor-endless_example : build_descriptor 100 5 long_config ≡ none
build_descriptor-endless_example = build_descriptor-endless 100 5 long_config (omega arith)

parse_esds-build_esds_example :
    (p : List ℕ) × (build_esds 1 (0x11 ∷ 0x90 ∷ []) ≡ some (make_box (codes "esds") p))
    × (parse_esds p ≡ some (0x11 ∷ 0x90 ∷ []))
parse_esds-build_esds_example = parse_esds-build_esds 0 (0x11 ∷ 0x90 ∷ []) (omega arith)
