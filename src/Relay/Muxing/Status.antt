-- ===== src/Relay/Muxing/Status.antt =====
-- The status of each muxer, as the log of the calls tells it.
use vrtc_sdk.Prelude.{
  ℕ, suc, ◌≤◌, ◌<◌, ◌≡◌, ◌≢◌, refl, ap, sym, ◌∙◌, arith, ◌⊎◌, inl, inr, true, false, Option, none,
  some, List, [], ◌∷◌, ◌++◌,
}
use vrtc_sdk.Prelude.{◌==◌, ==_iff, if◌then◌else◌, Bool-cases}
use mathlib.Core.Path.{subst}
use vrtc_sdk.Av.{Stream}
use vrtc_sdk.Relay.Consumer.{Error, muxer_write_header, consumer_mux_factory}
use vrtc_sdk.Relay.Muxing.{
  Answer, fine, rotate, broken, Call, open_muxer, header, codec_change, packet, trailer,
  close_muxer,
}
use vrtc_sdk.Relay.Muxing.{World, call, close_mux, open_and_init_muxer}

pub data Status : Type 0 where
  absent opened live failed ending ended misused : Status

-- A muxer is opened, then gets its header, then packets and codec changes; if its header fails, or
-- when it is done, it gets its trailer and is closed. It may be closed again.
abbrev pub next : Status → Call → Answer → Status
next absent open_muxer fine = opened
next absent open_muxer a = absent
next opened (header s) fine = live
next opened (header s) a = failed
next live (packet p) a = live
next live (codec_change s) a = live
next live trailer a = ending
next failed trailer a = ending
next ending close_muxer a = ended
next ended trailer a = ending
next s c a = misused

pub track : ℕ → Status → List (ℕ × Call × Answer) → Status
track n s [] = s
track n s ((m, c, a) ∷ r) = track n (if m == n then next s c a else s) r

abbrev pub status : World → ℕ → Status
status w n = track n absent w.log

track-append :
    (n m : ℕ) (c : Call) (a : Answer) (s : Status) (log : List (ℕ × Call × Answer))
    → track n s (log ++ ((m, c, a) ∷ []))
      ≡ (if m == n then next (track n s log) c a else track n s log)
unfolding track
track-append n m c a s [] = refl
track-append n m c a s ((k, d, b) ∷ r) = track-append n m c a (if k == n then next s d b else s) r

status-call :
    (w : World) (m : ℕ) (c : Call) (n : ℕ)
    → status (call w m c).1 n ≡ (if m == n then next (status w n) c (call w m c).0 else status w n)
unfolding call
status-call w m c n = go w.answers refl
  where
    go :
        (l : List Answer)
        → w.answers ≡ l
        → status (call w m c).1 n
          ≡ (if m == n then next (status w n) c (call w m c).0 else status w n)
    go [] e = rw e (track-append n m c fine absent w.log)
    go (a ∷ r) e = rw e (track-append n m c a absent w.log)

opened-call : (w : World) (m : ℕ) (c : Call) → (call w m c).1.opened ≡ w.opened
unfolding call
opened-call w m c = go w.answers refl
  where
    go : (l : List Answer) → w.answers ≡ l → (call w m c).1.opened ≡ w.opened
    go [] e = rw e refl
    go (a ∷ r) e = rw e refl

abbrev pub IsDone : Status → Type 0
IsDone s = (s ≡ ended) ⊎ (s ≡ absent)

-- The muxer `m` is in the status `s`, and all others are done or not opened yet.
pub record Holds (w : World) (m : ℕ) (s : Status) : Type 0 where
  pub inside : m < w.opened
  pub this : status w m ≡ s
  pub others : (n : ℕ) → n ≢ m → IsDone (status w n)
  pub above : (n : ℕ) → w.opened ≤ n → status w n ≡ absent

pub record Settled (w : World) : Type 0 where
  pub all : (n : ℕ) → IsDone (status w n)
  pub above : (n : ℕ) → w.opened ≤ n → status w n ≡ absent

beq-same : (n : ℕ) → (n == n) ≡ true
beq-same n = (==_iff n n).1 refl

beq-other : (m n : ℕ) → n ≢ m → (m == n) ≡ false
beq-other m n h = elim (Bool-cases (m == n)) [
  | inl e ↦ absurd (h (sym ((==_iff m n).0 e)))
  | inr e ↦ e
]

pub call-Holds :
    (w : World) (m : ℕ) (c : Call) (s : Status)
    → Holds w m s
    → Holds (call w m c).1 m (next s c (call w m c).0)
call-Holds w m c s h = record {
  inside = rw (opened-call w m c) h.inside;
  this = status-call w m c m ∙ (rw (beq-same m, h.this) refl);
  others = λ n ne.
      subst IsDone (sym (status-call w m c n ∙ (rw (beq-other m n ne) refl))) (h.others n ne);
  above = λ n le.
      let le' : w.opened ≤ n = rw (opened-call w m c) at le in
      status-call w m c n ∙ (rw (beq-other m n (λ e. omega (arith, h.inside, e))) (h.above n le'));
}

pub close_mux-Holds :
    (w : World) (m : ℕ) (s : Status)
    → ((a : Answer) → next s trailer a ≡ ending)
    → Holds w m s
    → Holds (close_mux w m) m ended
unfolding close_mux
close_mux-Holds w m s e h =
    let w1 = (call w m trailer).1 in
    let h1 = subst (Holds w1 m) (e (call w m trailer).0) (call-Holds w m trailer s h) in
    call-Holds w1 m close_muxer ending h1

pub Holds-Settled : (w : World) (m : ℕ) → Holds w m ended → Settled w
Holds-Settled w m h = record {
  all = λ n. elim (Bool-cases (n == m)) [
    | inl e ↦ inl (ap (status w) ((==_iff n m).0 e) ∙ h.this)
    | inr e ↦ h.others n (λ p. let x : true ≡ false = sym ((==_iff n m).1 p) ∙ e in cc)
  ];
  above = h.above;
}

opened-close_mux : (w : World) (m : ℕ) → (close_mux w m).opened ≡ w.opened
unfolding close_mux
opened-close_mux w m = opened-call (call w m trailer).1 m close_muxer ∙ opened-call w m trailer

pub status-other :
    (w : World) (m : ℕ) (c : Call) (n : ℕ) → n ≢ m → status (call w m c).1 n ≡ status w n
status-other w m c n h = status-call w m c n ∙ (rw (beq-other m n h) refl)

pub status-close_mux_other : (w : World) (m n : ℕ) → n ≢ m → status (close_mux w m) n ≡ status w n
unfolding close_mux
status-close_mux_other w m n h =
    status-other (call w m trailer).1 m close_muxer n h ∙ status-other w m trailer n h

-- What `openAndInitMuxer` leaves: a muxer that has its header, or an error and no muxer in use.
abbrev pub Opens : World → (Option Error × ℕ) × World → Type 0
Opens w ((none, m), w') = Holds w' m live × ((n : ℕ) → n < w.opened → status w' n ≡ status w n)
Opens w ((some e, m), w') =
    Settled w' × (w.opened ≤ w'.opened) × ((n : ℕ) → n < w.opened → status w' n ≡ status w n)

open-Holds :
    (w : World) (a : Answer)
    → Settled w
    → (call w w.opened open_muxer).0 ≡ a
    → let w1 = (call w w.opened open_muxer).1 in
      Holds (record w1 { opened = suc w.opened }) w.opened (next absent open_muxer a)
open-Holds w a h e =
    let n = w.opened in
    let w1 = (call w n open_muxer).1 in
    record {
      inside = omega arith;
      this = status-call w n open_muxer n ∙ (rw (beq-same n, h.above n (omega arith), e) refl);
      others = λ k ne. subst IsDone (sym (status-other w n open_muxer k ne)) (h.all k);
      above =
          λ k le. status-other w n open_muxer k (λ p. omega (arith, p)) ∙ h.above k (omega arith);
    }

open_fails :
    (w : World) (a : Answer)
    → Settled w
    → (call w w.opened open_muxer).0 ≡ a
    → next absent open_muxer a ≡ absent
    → Settled (call w w.opened open_muxer).1
open_fails w a h e none_yet = record {
  all = λ n. elim (Bool-cases (w.opened == n)) [
    | inl p ↦ inr (same n ∙ rw (p, h.above n (omega (arith, (==_iff w.opened n).0 p)), e) none_yet)
    | inr p ↦ subst IsDone (sym (same n ∙ (rw p refl))) (h.all n)
  ];
  above = λ n le. elim (Bool-cases (w.opened == n)) [
    | inl p ↦ same n ∙ rw (p, h.above n (omega (arith, (==_iff w.opened n).0 p)), e) none_yet
    | inr p ↦ same n ∙ rw p (h.above n (omega (arith, opened-call w w.opened open_muxer)))
  ];
}
  where
    same :
        (n : ℕ)
        → status (call w w.opened open_muxer).1 n ≡ (
            if w.opened == n
            then next (status w n) open_muxer (call w w.opened open_muxer).0
            else status w n)
    same n = status-call w w.opened open_muxer n

pub open_and_init_muxer-Opens :
    (w : World) (headers : List Stream) → Settled w → Opens w (open_and_init_muxer w headers)
unfolding open_and_init_muxer
open_and_init_muxer-Opens w headers h =
    go (call w n open_muxer).0 (call w1' n (header headers)).0 refl refl
  where
    n : ℕ
    n = w.opened

    w1 : World
    w1 = (call w n open_muxer).1

    w1' : World
    w1' = record w1 { opened = suc n }

    w2 : World
    w2 = (call w1' n (header headers)).1

    kept : (k : ℕ) → k < n → status w2 k ≡ status w k
    kept k lt =
        status-other w1' n (header headers) k (λ p. omega (arith, p))
        ∙ status-other w n open_muxer k (λ p. omega (arith, p))

    written :
        (a b : Answer)
        → (call w n open_muxer).0 ≡ a
        → (call w1' n (header headers)).0 ≡ b
        → Holds w2 n (next (next absent open_muxer a) (header headers) b)
    written a b ea eb =
        subst (λ x. Holds w2 n (next (next absent open_muxer a) (header headers) x)) eb
          (call-Holds w1' n (header headers) (next absent open_muxer a) (open-Holds w a h ea))

    unfinished :
        Holds w2 n failed
        → Settled (close_mux w2 n)
          × (w.opened ≤ (close_mux w2 n).opened)
          × ((k : ℕ) → k < w.opened → status (close_mux w2 n) k ≡ status w k)
    unfinished f = (
      Holds-Settled (close_mux w2 n) n (close_mux-Holds w2 n failed (λ a. refl) f),
      omega (arith, opened-close_mux w2 n, opened-call w1' n (header headers)),
      λ k lt. status-close_mux_other w2 n k (λ p. omega (arith, p, lt)) ∙ kept k lt,
    )

    not_opened :
        Settled w1
        → Settled w1 × (w.opened ≤ w1.opened) × ((k : ℕ) → k < w.opened → status w1 k ≡ status w k)
    not_opened f = (
      f,
      omega (arith, opened-call w n open_muxer),
      λ k lt. status-other w n open_muxer k (λ p. omega (arith, p, lt)),
    )

    go :
        (a b : Answer)
        → (call w n open_muxer).0 ≡ a
        → (call w1' n (header headers)).0 ≡ b
        → Opens w (elim a as (λ _. (Option Error × ℕ) × World) [
          | fine ↦ elim b as (λ _. (Option Error × ℕ) × World) [
            | fine ↦ ((none, n), w2)
            | _ ↦ ((some muxer_write_header, n), close_mux w2 n)
          ]
          | _ ↦ ((some consumer_mux_factory, n), w1)
        ])
    go fine fine ea eb = (written fine fine ea eb, kept)
    go fine rotate ea eb = unfinished (written fine rotate ea eb)
    go fine broken ea eb = unfinished (written fine broken ea eb)
    go rotate b ea eb = not_opened (open_fails w rotate h ea refl)
    go broken b ea eb = not_opened (open_fails w broken h ea refl)

-- A world in which nothing has been called.
abbrev pub quiet : List Answer → World
quiet answers = record { answers = answers; log = []; opened = 0 }

pub quiet-Settled : (answers : List Answer) → Settled (quiet answers)
unfolding track
quiet-Settled answers = record { all = λ n. inr refl; above = λ n le. refl }
