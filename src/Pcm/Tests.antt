-- ===== src/Pcm/Tests.antt =====
-- A byte of G.711.
use vrtc_sdk.Prelude.{◌≡◌, arith}
use vrtc_sdk.Pcm.Ulaw.{pcmuto_pcm, pcmto_pcmu}
use vrtc_sdk.Pcm.Alaw.{pcmato_pcm, pcmto_pcma}
use vrtc_sdk.Pcm.RoundTrip.{g711_round_trip}

g711_round_trip_example :
    (pcmto_pcmu (pcmuto_pcm 0x7f) ≡ 0x7f) × (pcmto_pcma (pcmato_pcm 0x7f) ≡ 0x7f)
g711_round_trip_example = g711_round_trip 0x7f (omega arith)
