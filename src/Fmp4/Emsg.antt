-- ===== src/Fmp4/Emsg.antt =====
-- av/format/fmp4/demuxer.go: how an emsg is read.
use vrtc_sdk.Prelude.{ℕ, zero, suc, Option, none, some, ◌>>=◌, List, [], ◌∷◌}
use vrtc_sdk.Prelude.{◌==◌, if◌then◌else◌, drop}
use vrtc_sdk.Prelude.Int.{ℤ, pos, scale64, quot, of_uint64}
use vrtc_sdk.Prelude.Endian.{get32, get64}

-- `emsgEntry`.
pub record EmsgEntry : Type 0 where
  pub scheme_id_uri : List ℕ
  pub present_time_ms : ℤ
  pub id : ℕ
  pub body : List ℕ

-- A text that ends with a zero byte, and what comes after it.
unfoldable pub read_text : List ℕ → Option (List ℕ × List ℕ)
read_text [] = none
read_text (zero ∷ r) = some ([], r)
read_text (suc c ∷ r) = read_text r >>= λ t. some (suc c ∷ t.0, t.1)

-- `parseEmsg`; the product is that of int64, and a quotient of int64 is cut at zero.
unfoldable pub parse_emsg : List ℕ → Option EmsgEntry
unfolding read_text
parse_emsg (version ∷ f2 ∷ f1 ∷ f0 ∷ r) =
    if version == 1
    then (do
      scheme ← read_text r
      value ← read_text scheme.1
      timescale ← get32 value.1
      time ← get64 (drop 4 value.1)
      id ← get32 (drop 16 value.1)
      some (record {
        scheme_id_uri = scheme.0;
        present_time_ms =
            if timescale == 0 then pos 0 else quot (scale64 (of_uint64 time) 1000) timescale;
        id = id;
        body = drop 20 value.1;
      }))
    else none
parse_emsg _ = none
