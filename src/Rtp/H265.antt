-- ===== src/Rtp/H265.antt =====
-- av/codec/h265parser/rtp.go, with the predicates of av/codec/h265parser/nalu.go that it calls.
-- A byte slice is the list of its bytes. `panics` is an index out of range, which ends the program, and
-- `stuck` is fuel run out.
pub mod Conserve
pub mod Fragments
pub mod Faults
mod Tests
use vrtc_sdk.Prelude.{
  ℕ, zero, suc, ◌+◌, ◌*◌, ◌/◌, ◌%◌, ◌^◌, bit_and, bit_or, Bool, true, false, not, ◌&&◌, ◌||◌,
}
use vrtc_sdk.Prelude.{
  List, [], ◌∷◌, ◌++◌, ltb, leb, ◌==◌, if◌then◌else◌, length, take, drop, get_or,
}

pub data Run {ℓ} (A : Type ℓ) : Type ℓ where
  returns : A → Run A
  panics : Run A
  stuck : Run A

infixl 5 ◌>>=◌
abbrev pub ◌>>=◌ {ℓ κ} : {A : Type ℓ} {B : Type κ} → Run A → (A → Run B) → Run B
returns a >>= f = f a
panics >>= f = panics
stuck >>= f = stuck

-- `nalu_type` of a NALU that starts with the byte `b`.
abbrev pub type_of : ℕ → ℕ
type_of b = bit_and (b / 2 ^ 1) 0x3F

pub nalu_type : List ℕ → Run ℕ
nalu_type [] = panics
nalu_type (b ∷ r) = returns (type_of b)

-- HEVC_NAL_BLA_W_LP to HEVC_NAL_CRA_NUT are 16 to 21.
abbrev pub irap_type : ℕ → Bool
irap_type t = t == 16 || (t == 17 || (t == 18 || (t == 19 || (t == 20 || t == 21))))

pub is_irap : List ℕ → Run Bool
unfolding nalu_type
is_irap nalu = do t ← nalu_type nalu; returns (irap_type t)

-- From HEVC_NAL_TRAIL_R to HEVC_NAL_IDR_N_LP.
abbrev pub data_type : ℕ → Bool
data_type t = leb 1 t && leb t 20

pub is_data_nalu : List ℕ → Run Bool
unfolding nalu_type
is_data_nalu nalu = do t ← nalu_type nalu; returns (data_type t)

-- The one bit that the Golomb reader takes of `nalu[2:]` is the highest of its first byte.
pub is_first_slice : List ℕ → Run Bool
unfolding nalu_type
is_first_slice nalu = if ltb (length nalu) 3 then returns false else do
  t ← nalu_type nalu
  returns (if ltb 31 t then false else bit_and (get_or nalu 2 0 / 2 ^ 7) 1 == 1)

-- `slices.ContainsFunc`, which stops at the first hit.
pub contains_func : (List ℕ → Run Bool) → List (List ℕ) → Run Bool
contains_func test [] = returns false
contains_func test (n ∷ ns) =
    let rest = contains_func test ns in test n >>= λ hit. if hit then returns true else rest

pub contains_vcl_nalu : List (List ℕ) → Run Bool
unfolding contains_func is_data_nalu
contains_vcl_nalu = contains_func is_data_nalu

pub record AccessUnit : Type 0 where
  pub nalus : List (List ℕ)
  pub key_frame : Bool

pub record Parser : Type 0 where
  pub current : List (List ℕ)
  pub fu_buffer : List ℕ
  pub fu_active : Bool

pub fresh : Parser
fresh = record { current = []; fu_buffer = []; fu_active = false }

-- What the parser returns.
pub data Pushed : Type 0 where
  ready : AccessUnit → Pushed
  nothing : Pushed
  invalid_payload : Pushed
  invalid_fu : Pushed

pub build_au : Parser → Run AccessUnit
unfolding contains_func is_irap
build_au p = do
  key ← contains_func is_irap p.current
  returns (record { nalus = p.current; key_frame = key })

-- The end of `pushNALU`, for a NALU that starts no picture over a pending one.
pub append_nalu : Parser → List ℕ → Run (Pushed × Parser)
unfolding nalu_type
append_nalu p nalu = do
  t ← nalu_type nalu
  returns (nothing, if t == 35 then p else record p { current = p.current ++ (nalu ∷ []) })

-- A first slice while NALUs are pending.
pub start_picture : Parser → List ℕ → Run (Pushed × Parser)
start_picture p nalu = contains_vcl_nalu p.current >>= λ vcl.
    if vcl
    then (build_au p >>= λ au. returns (ready au, record p { current = nalu ∷ [] }))
    else returns (nothing, record p { current = p.current ++ (nalu ∷ []) })

pub push_nalu : Parser → List ℕ → Run (Pushed × Parser)
push_nalu p nalu = nalu_type nalu >>= λ t. is_first_slice nalu >>= λ first.
    if first && ltb 0 (length p.current) then start_picture p nalu else append_nalu p nalu

pub handle_nalu : Parser → List ℕ → Run (Pushed × Parser)
handle_nalu p nalu = push_nalu p nalu

-- The loop of `parseAP`. The list is `payload[offset:]`.
pub ap_loop : ℕ → Parser → List ℕ → Run (Pushed × Parser)
ap_loop zero p rest = stuck
ap_loop (suc fuel) p (a ∷ b ∷ rest) =
    let size = bit_or (a * 2 ^ 8) b in
    let go = push_nalu p (take size rest) >>= λ (out, p').
    let again = ap_loop fuel p' (drop size rest) in
    elim out [ ready au ↦ returns (ready au, p') | _ ↦ again ] in
    if ltb (length rest) size then returns (nothing, p) else go
ap_loop (suc fuel) p _ = returns (nothing, p)

pub parse_ap : Parser → List ℕ → Run (Pushed × Parser)
parse_ap p payload = ap_loop (suc (length payload)) p (drop 2 payload)

pub parse_fu : Parser → List ℕ → Run (Pushed × Parser)
parse_fu p (h0 ∷ h1 ∷ fu ∷ rest) =
    let start = not (bit_and fu 0x80 == 0) in
    let end_ = not (bit_and fu 0x40 == 0) in
    let typ = bit_and fu 0x3F in
    let nalu_header = bit_or (bit_and h0 0x81) (typ * 2 ^ 1 % 256) in
    let started = record p { fu_buffer = nalu_header ∷ h1 ∷ rest; fu_active = true } in
    let grown = record p { fu_buffer = p.fu_buffer ++ rest } in
    if start
    then returns (nothing, started)
    else if not p.fu_active
    then returns (nothing, p)
    else if end_
    then handle_nalu (record grown { fu_active = false }) grown.fu_buffer
    else returns (nothing, grown)
parse_fu p _ = returns (invalid_fu, p)

pub push_rtp : Parser → List ℕ → Run (Pushed × Parser)
push_rtp p (h0 ∷ h1 ∷ rest) =
    let t = type_of h0 in
    if t == 48
    then parse_ap p (h0 ∷ h1 ∷ rest)
    else if t == 49
    then parse_fu p (h0 ∷ h1 ∷ rest)
    else handle_nalu p (h0 ∷ h1 ∷ rest)
push_rtp p _ = returns (invalid_payload, p)

-- `Flush`; `nothing` is nil.
pub flush : Parser → Run (Pushed × Parser)
unfolding contains_vcl_nalu build_au
flush p =
    if length p.current == 0
    then returns (nothing, p)
    else (contains_vcl_nalu p.current >>= λ vcl.
        if vcl
        then (build_au p >>= λ au. returns (ready au, record p { current = [] }))
        else returns (nothing, record p { current = [] }))
