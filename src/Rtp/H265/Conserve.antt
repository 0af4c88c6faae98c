-- ===== src/Rtp/H265/Conserve.antt =====
-- Access units out of NALUs.
use vrtc_sdk.Prelude.{ℕ, ◌≡◌, refl, sym, arith, Bool, true, false, ◌&&◌, List, [], ◌∷◌, ◌++◌}
use vrtc_sdk.Prelude.{
  ◌/◌, ◌^◌, bit_and, get_or, append-nil, append_assoc, ◌==◌, if◌then◌else◌, length, Bool-cases, inl,
  inr, ltb,
}
use vrtc_sdk.Rtp.H265.{
  Run, returns, Parser, Pushed, ready, nothing, AccessUnit, push_nalu, nalu_type, type_of,
}
use vrtc_sdk.Rtp.H265.{
  is_first_slice, append_nalu, start_picture, contains_func, contains_vcl_nalu, build_au, is_irap,
  is_data_nalu, data_type, irap_type, ◌>>=◌,
}

-- A NALU with a header byte.
abbrev pub NonEmpty : List ℕ → Type 0
NonEmpty [] = ⊥
NonEmpty (b ∷ r) = Unit

abbrev pub AllNonEmpty : List (List ℕ) → Type 0
AllNonEmpty [] = Unit
AllNonEmpty (n ∷ ns) = NonEmpty n × AllNonEmpty ns

-- The predicates on NALUs that have a header byte, as plain tests.
abbrev pub head_type : List ℕ → ℕ
head_type [] = 0
head_type (b ∷ r) = type_of b

abbrev pub any : (List ℕ → Bool) → List (List ℕ) → Bool
any test [] = false
any test (n ∷ ns) = if test n then true else any test ns

contains_func-any :
    (f : List ℕ → Run Bool) (test : List ℕ → Bool) (ns : List (List ℕ))
    → ((n : List ℕ) → NonEmpty n → f n ≡ returns (test n))
    → AllNonEmpty ns
    → contains_func f ns ≡ returns (any test ns)
unfolding contains_func
contains_func-any f test [] h a = refl
contains_func-any f test (n ∷ ns) h a =
    rw (h n a.0, contains_func-any f test ns h a.1) (by_hit (test n))
  where
    by_hit :
        (b : Bool)
        → (if b then returns true else returns (any test ns))
          ≡ returns (if b then true else any test ns)
    by_hit true = refl
    by_hit false = refl

abbrev pub is_vcl : List ℕ → Bool
is_vcl n = data_type (head_type n)

abbrev pub is_key : List ℕ → Bool
is_key n = irap_type (head_type n)

contains_vcl-any :
    (ns : List (List ℕ)) → AllNonEmpty ns → contains_vcl_nalu ns ≡ returns (any is_vcl ns)
unfolding contains_vcl_nalu
contains_vcl-any ns a = contains_func-any is_data_nalu is_vcl ns one a
  where
    one : (n : List ℕ) → NonEmpty n → is_data_nalu n ≡ returns (is_vcl n)
    one [] h = absurd h
    one (b ∷ r) h = unfold is_data_nalu in refl

build_au-any :
    (p : Parser)
    → AllNonEmpty p.current
    → build_au p ≡ returns (record { nalus = p.current; key_frame = any is_key p.current })
unfolding build_au
build_au-any p a = rw (contains_func-any is_irap is_key p.current one a)
  where
    one : (n : List ℕ) → NonEmpty n → is_irap n ≡ returns (is_key n)
    one [] h = absurd h
    one (b ∷ r) h = unfold is_irap in refl

abbrev pub is_aud : List ℕ → Bool
is_aud n = head_type n == 35

-- What `pushNALU` does with a NALU over the pending ones.
pub data Outcome (p : Parser) (n : List ℕ) : Pushed × Parser → Type 0 where
  -- An access unit delimiter is dropped.
  dropped : is_aud n ≡ true → Outcome p n (nothing, p)
  -- The NALU joins the pending ones.
  joined : is_aud n ≡ false → Outcome p n (nothing, record p { current = p.current ++ (n ∷ []) })
  -- The pending NALUs, a video slice among them, are the access unit, and the NALU starts the next.
  split :
      is_aud n ≡ false
      → any is_vcl p.current ≡ true
      → Outcome p n (
        ready (record { nalus = p.current; key_frame = any is_key p.current }),
        record p { current = n ∷ [] },
      )

-- A first slice is no delimiter.
first_slice_returns :
    (n : List ℕ)
    → NonEmpty n
    → (b : Bool) × (is_first_slice n ≡ returns b) × (b ≡ true → is_aud n ≡ false)
unfolding is_first_slice nalu_type
first_slice_returns [] h = absurd h
first_slice_returns (x ∷ r) h = elim (Bool-cases (ltb (length (x ∷ r)) 3)) [
  | inl short ↦ (false, rw short, λ e. cc)
  | inr long ↦ (
    if ltb 31 (type_of x) then false else bit_and (get_or (x ∷ r) 2 0 / 2 ^ 7) 1 == 1,
    rw long,
    λ e. ground arith,
  )
]

append-Outcome :
    (p : Parser) (n : List ℕ)
    → NonEmpty n
    → (out : Pushed × Parser) × (append_nalu p n ≡ returns out) × Outcome p n out
unfolding append_nalu nalu_type
append-Outcome p [] h = absurd h
append-Outcome p (x ∷ r) h = elim (Bool-cases (type_of x == 35)) [
  | inl aud ↦ ((nothing, p), rw aud, dropped aud)
  | inr other ↦ (_, rw other, joined other)
]

start-Outcome :
    (p : Parser) (n : List ℕ)
    → AllNonEmpty p.current
    → is_aud n ≡ false
    → (out : Pushed × Parser) × (start_picture p n ≡ returns out) × Outcome p n out
unfolding start_picture
start-Outcome p n a video = elim (Bool-cases (any is_vcl p.current)) [
  | inl vcl ↦ (_, rw (contains_vcl-any p.current a, vcl, build_au-any p a), split video vcl)
  | inr no_vcl ↦ (_, rw (contains_vcl-any p.current a, no_vcl), joined video)
]

pub push_nalu-Outcome :
    (p : Parser) (n : List ℕ)
    → AllNonEmpty p.current
    → NonEmpty n
    → (out : Pushed × Parser) × (push_nalu p n ≡ returns out) × Outcome p n out
unfolding push_nalu nalu_type
push_nalu-Outcome p [] a h = absurd h
push_nalu-Outcome p (x ∷ r) a h =
    let (first, e, video) = first_slice_returns (x ∷ r) h in
    elim (Bool-cases (first && ltb 0 (length p.current))) [
      | inl begins ↦ rw (e, begins) (start-Outcome p (x ∷ r) a (video (ground arith)))
      | inr goes_on ↦ rw (e, goes_on) (append-Outcome p (x ∷ r) h)
    ]

-- The NALUs of single-NALU packets, pushed in order: the access units returned, and the parser after.
pub feed : Parser → List (List ℕ) → Run (List AccessUnit × Parser)
feed p [] = returns ([], p)
feed p (n ∷ ns) = push_nalu p n >>= λ (out, p').
    feed p' ns >>= λ (aus, p''). returns (elim out [ ready au ↦ au ∷ aus | _ ↦ aus ], p'')

abbrev pub all_nalus : List AccessUnit → List (List ℕ)
all_nalus [] = []
all_nalus (au ∷ aus) = au.nalus ++ all_nalus aus

abbrev pub without_auds : List (List ℕ) → List (List ℕ)
without_auds [] = []
without_auds (n ∷ ns) = if is_aud n then without_auds ns else n ∷ without_auds ns

-- Each unit has a video slice, and is a keyframe exactly if it has an IRAP NALU.
abbrev pub AreUnits : List AccessUnit → Type 0
AreUnits [] = Unit
AreUnits (au ∷ aus) =
    (any is_vcl au.nalus ≡ true) × (au.key_frame ≡ any is_key au.nalus) × AreUnits aus

AllNonEmpty-append :
    (ns ms : List (List ℕ)) → AllNonEmpty ns → AllNonEmpty ms → AllNonEmpty (ns ++ ms)
AllNonEmpty-append [] ms a b = b
AllNonEmpty-append (n ∷ ns) ms a b = (a.0, AllNonEmpty-append ns ms a.1 b)

abbrev Conserved : Parser → List (List ℕ) → Type 0
Conserved p ns =
    (r : List AccessUnit × Parser) × (feed p ns ≡ returns r)
    × (all_nalus r.0 ++ r.1.current ≡ p.current ++ without_auds ns)
    × AreUnits r.0

feed_step :
    (p : Parser) (n : List ℕ) (ns : List (List ℕ)) (out : Pushed × Parser)
    → push_nalu p n ≡ returns out
    → Outcome p n out
    → Conserved out.1 ns
    → Conserved p (n ∷ ns)
unfolding feed
feed_step p n ns (o, p') e (dropped aud) ((aus, q), f, same, units) =
    ((aus, q), rw (e, f), rw aud same, units)
feed_step p n ns (o, p') e (joined video) ((aus, q), f, same, units) = (
  (aus, q),
  rw (e, f),
  rw (video, same) (append_assoc p.current (n ∷ []) (without_auds ns)),
  units,
)
feed_step p n ns (o, p') e (split video vcl) ((aus, q), f, same, units) = (
  (record { nalus = p.current; key_frame = any is_key p.current } ∷ aus, q),
  rw (e, f),
  rw (video, append_assoc p.current (all_nalus aus) q.current, same),
  (vcl, refl, units),
)

Outcome-AllNonEmpty :
    (p : Parser) (n : List ℕ) (out : Pushed × Parser)
    → Outcome p n out
    → AllNonEmpty p.current
    → NonEmpty n
    → AllNonEmpty out.1.current
Outcome-AllNonEmpty p n (o, p') (dropped aud) a h = a
Outcome-AllNonEmpty p n (o, p') (joined video) a h = AllNonEmpty-append p.current (n ∷ []) a (h, tt)
Outcome-AllNonEmpty p n (o, p') (split video vcl) a h = (h, tt)

-- Pushing NALUs that all have a header byte never panics. The NALUs of the access units returned and
-- of those still pending are the pending ones and the pushed ones, in order, but for the access unit
-- delimiters; each unit has a video slice, and is a keyframe exactly if it has an IRAP NALU.
pub feed_conserves :
    (p : Parser) (ns : List (List ℕ))
    → AllNonEmpty p.current
    → AllNonEmpty ns
    → (r : List AccessUnit × Parser) × (feed p ns ≡ returns r)
      × (all_nalus r.0 ++ r.1.current ≡ p.current ++ without_auds ns)
      × AreUnits r.0
feed_conserves p [] a h = (([], p), unfold feed in refl, sym (append-nil p.current), tt)
feed_conserves p (n ∷ ns) a h =
    let (out, e, cases) = push_nalu-Outcome p n a h.0 in
    let kept = Outcome-AllNonEmpty p n out cases a h.0 in
    feed_step p n ns out e cases (feed_conserves out.1 ns kept h.1)
