-- ===== src/Relay/Muxing/Written.antt =====
-- The packets that the muxers accept.
use vrtc_sdk.Prelude.{
  ℕ, suc, ◌≡◌, refl, ap, sym, ◌∙◌, arith, Bool, Option, none, some, List, [], ◌∷◌, ◌++◌, append-nil,
  append_assoc,
}
use vrtc_sdk.Prelude.{if◌then◌else◌}
use vrtc_sdk.Av.{Stream, Packet}
use vrtc_sdk.Relay.Consumer.{Error, muxer_write_packet, muxer_write_codec_change}
use vrtc_sdk.Relay.Muxing.{
  Answer, fine, Call, open_muxer, header, codec_change, packet, trailer, close_muxer,
}
use vrtc_sdk.Relay.Muxing.{
  World, call, close_mux, open_and_init_muxer, rotate_muxer, change_codec, handle_packet,
  packet_loop, run,
}
use vrtc_sdk.Relay.Muxing.Status.{quiet}

-- The packets of the calls that succeeded, over all muxers, in the order of the calls.
pub accepted : List (ℕ × Call × Answer) → List Packet
accepted [] = []
accepted ((n, packet p, fine) ∷ r) = p ∷ accepted r
accepted ((n, c, a) ∷ r) = accepted r

-- What one call adds.
abbrev gain : Call → Answer → List Packet
gain (packet p) fine = p ∷ []
gain c a = []

accepted-append :
    (log : List (ℕ × Call × Answer)) (n : ℕ) (c : Call) (a : Answer)
    → accepted (log ++ ((n, c, a) ∷ [])) ≡ accepted log ++ gain c a
unfolding accepted
accepted-append [] n c a = ground arith
accepted-append (e ∷ log) n c a = ground (arith, accepted-append log n c a)

accepted-call :
    (w : World) (n : ℕ) (c : Call)
    → accepted (call w n c).1.log ≡ accepted w.log ++ gain c (call w n c).0
unfolding call
accepted-call w n c = go w.answers refl
  where
    go :
        (l : List Answer)
        → w.answers ≡ l
        → accepted (call w n c).1.log ≡ accepted w.log ++ gain c (call w n c).0
    go [] e = rw e (accepted-append w.log n c fine)
    go (a ∷ r) e = rw e (accepted-append w.log n c a)

accepted-close_mux : (w : World) (n : ℕ) → accepted (close_mux w n).log ≡ accepted w.log
unfolding close_mux
accepted-close_mux w n =
    accepted-call (call w n trailer).1 n close_muxer
    ∙ append-nil _
    ∙ accepted-call w n trailer
    ∙ append-nil _

accepted-open_and_init_muxer :
    (w : World) (headers : List Stream)
    → accepted (open_and_init_muxer w headers).1.log ≡ accepted w.log
unfolding open_and_init_muxer
accepted-open_and_init_muxer w headers =
    ground (arith, opens, writes, accepted-close_mux (call w1 w.opened (header headers)).1 w.opened)
  where
    w1 : World
    w1 = record (call w w.opened open_muxer).1 { opened = suc w.opened }

    opens : accepted (call w w.opened open_muxer).1.log ≡ accepted w.log
    opens = accepted-call w w.opened open_muxer ∙ append-nil _

    writes : accepted (call w1 w.opened (header headers)).1.log ≡ accepted w.log
    writes = accepted-call w1 w.opened (header headers) ∙ append-nil _ ∙ opens

-- A packet is accepted once if there is no error, and not at all if there is one.
abbrev only_if_fine : Option Error → Packet → List Packet
only_if_fine none p = p ∷ []
only_if_fine (some e) p = []

accepted-rotate_muxer :
    (w : World) (headers : List Stream) (m : ℕ) (p : Packet)
    → let r = rotate_muxer w headers m p in
      accepted r.1.log ≡ accepted w.log ++ only_if_fine r.0.0 p
unfolding rotate_muxer
accepted-rotate_muxer w headers m p =
    opened (open_and_init_muxer wc headers)
      (accepted-open_and_init_muxer wc headers ∙ accepted-close_mux w m)
  where
    wc : World
    wc = close_mux w m

    opened :
        (o : (Option Error × ℕ) × World)
        → accepted o.1.log ≡ accepted w.log
        → let r : (Option Error × ℕ) × World = elim o.0.0 as (λ _. (Option Error × ℕ) × World) [
          | some x ↦ ((some x, m), o.1)
          | none ↦ elim (call o.1 o.0.1 (packet p)).0 as (λ _. (Option Error × ℕ) × World) [
            | fine ↦ ((none, o.0.1), (call o.1 o.0.1 (packet p)).1)
            | _ ↦ ((some muxer_write_packet, m), close_mux (call o.1 o.0.1 (packet p)).1 o.0.1)
          ]
        ] in
          accepted r.1.log ≡ accepted w.log ++ only_if_fine r.0.0 p
    opened ((some x, n), w1) e = ground (arith, append-nil (accepted w.log))
    opened ((none, n), w1) e = ground (
      arith,
      append-nil (accepted w.log),
      append-nil (accepted w1.log),
      accepted-call w1 n (packet p),
      accepted-close_mux (call w1 n (packet p)).1 n,
    )

accepted-change_codec :
    (w : World) (changer : Bool) (m : ℕ) (p : Packet)
    → accepted (change_codec w changer m p).1.log ≡ accepted w.log
unfolding change_codec
accepted-change_codec w changer m p = go p.new_codecs
  where
    told : (s : List Stream) → accepted (call w m (codec_change s)).1.log ≡ accepted w.log
    told s = accepted-call w m (codec_change s) ∙ append-nil _

    go :
        (o : Option (List Stream))
        → accepted
            (elim o as (λ _. Option Error × World) [
              | none ↦ (none, w)
              | some s ↦
                  if changer
                  then (elim (call w m (codec_change s)).0 as (λ _. Option Error × World) [
                    | fine ↦ (none, (call w m (codec_change s)).1)
                    | _ ↦ (some muxer_write_codec_change, (call w m (codec_change s)).1)
                  ])
                  else (none, w)
            ]).1.log
          ≡ accepted w.log
    go none = refl
    go (some s) = ground (arith, told s)

accepted-handle_packet :
    (w : World) (changer : Bool) (headers : List Stream) (m : ℕ) (p : Packet)
    → let r = handle_packet w changer headers m p in
      accepted r.1.log ≡ accepted w.log ++ only_if_fine r.0.0 p
unfolding handle_packet
accepted-handle_packet w changer headers m p = ground (
  arith,
  accepted-change_codec w changer m p,
  accepted-call w1 m (packet p),
  accepted-rotate_muxer (call w1 m (packet p)).1 headers m p,
  append-nil (accepted w.log),
)
  where
    w1 : World
    w1 = (change_codec w changer m p).1

-- The accepted packets are a beginning of `ps`, and all of them if there is no error.
pub record Accepts (before ps after : List Packet) (e : Option Error) : Type 0 where
  pub front : List Packet
  pub rest : List Packet
  pub split : ps ≡ front ++ rest
  pub written : after ≡ before ++ front
  pub all : e ≡ none → rest ≡ []

accepted-packet_loop :
    (w : World) (changer : Bool) (headers : List Stream) (m : ℕ) (ps : List Packet)
    → let r = packet_loop w changer headers m ps in
      Accepts (accepted w.log) ps (accepted r.1.log) r.0.0
unfolding packet_loop
accepted-packet_loop w changer headers m [] = record {
  front = [];
  rest = [];
  split = refl;
  written = sym (append-nil _);
  all = λ e. refl;
}
accepted-packet_loop w changer headers m (p ∷ ps) =
    go (handle_packet w changer headers m p) (accepted-handle_packet w changer headers m p)
      (λ w' m'. accepted-packet_loop w' changer headers m' ps)
  where
    go :
        (h : (Option Error × ℕ) × World)
        → accepted h.1.log ≡ accepted w.log ++ only_if_fine h.0.0 p
        → ((w' : World) (m' : ℕ)
            → let r = packet_loop w' changer headers m' ps in
              Accepts (accepted w'.log) ps (accepted r.1.log) r.0.0)
        → let r : (Option Error × ℕ) × World = elim h.0.0 as (λ _. (Option Error × ℕ) × World) [
          | some x ↦ ((some x, h.0.1), h.1)
          | none ↦ packet_loop h.1 changer headers h.0.1 ps
        ] in
          Accepts (accepted w.log) (p ∷ ps) (accepted r.1.log) r.0.0
    go ((some x, m'), w') e later = record {
      front = [];
      rest = p ∷ ps;
      split = refl;
      written = e;
      all = λ z. absurd (cc);
    }
    go ((none, m'), w') e later =
        let a = later w' m' in
        record {
          front = p ∷ a.front;
          rest = a.rest;
          split = ap (λ l. p ∷ l) a.split;
          written =
              a.written ∙ ap (λ l. l ++ a.front) e ∙ append_assoc (accepted w.log) (p ∷ []) a.front;
          all = a.all;
        }

-- Whatever the factory and the muxers answer, the packets that the muxers of a consumer accept, taken
-- together over all rotations, are a beginning of the packets that came, each once and in order; and
-- if the goroutine ends without an error they are all of them.
pub run-Accepts :
    (answers : List Answer) (changer : Bool) (headers : List Stream) (ps : List Packet)
    → let r = run (quiet answers) changer headers ps in Accepts [] ps (accepted r.1.log) r.0
unfolding run
run-Accepts answers changer headers ps =
    go (open_and_init_muxer (quiet answers) headers)
      (accepted-open_and_init_muxer (quiet answers) headers ∙ (unfold accepted in refl))
  where
    go :
        (o : (Option Error × ℕ) × World)
        → accepted o.1.log ≡ []
        → let l = packet_loop o.1 changer headers o.0.1 ps in
          let r : Option Error × World = elim o.0.0 as (λ _. Option Error × World) [
            | some x ↦ (some x, o.1)
            | none ↦ (l.0.0, close_mux l.1 l.0.1)
          ] in
          Accepts [] ps (accepted r.1.log) r.0
    go ((some x, m), w) e = record {
      front = [];
      rest = ps;
      split = refl;
      written = e;
      all = λ z. absurd (cc);
    }
    go ((none, m), w) e =
        let l = packet_loop w changer headers m ps in
        let a = accepted-packet_loop w changer headers m ps in
        record {
          front = a.front;
          rest = a.rest;
          split = a.split;
          written = accepted-close_mux l.1 l.0.1 ∙ a.written ∙ ap (λ k. k ++ a.front) e;
          all = a.all;
        }
