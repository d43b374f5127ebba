-- ===== src/Native/Framing/RoundTrip.antt =====
-- native-host/framing.js: reading, chunk by chunk, the bytes that a sender writes.
use web_action_recorder_exte.Common.{
  ℕ, zero, suc, true, false, ltb, ◌==◌, ◌+◌, ◌<◌, List, [], ◌∷◌, ◌++◌, map, length, length-append,
  take, drop, length-drop, Option, none, some, All, ◌≡◌, refl, arith, ap, sym, ◌∙◌, Bool-cases, inl,
  inr, ◌⊎◌,
}
use mathlib.Core.Path.{subst}
use mathlib.Core.List.{append_assoc, append-nil}
use web_action_recorder_exte.Core.Errors.{ok}
use web_action_recorder_exte.Native.Framing.{
  write_uint32_le, encode_native_message, Framer, stop, go_on, turn, after, drain, push, end,
  push_all, collect_native_messages, read_uint32_le, with_buffer, on_message,
}
use web_action_recorder_exte.Native.Framing.Laws.{Waits, push-Waits}
use web_action_recorder_exte.Native.Framing.Bytes.{
  frame, frames, joined, All-behind, Sendable, read-write_uint32_le, append_split, take-append,
  drop-drop,
}

module _ {M : Type 0} (parse : List ℕ → Option M) (max_bytes : ℕ) where
  -- A turn on bytes that begin what was sent: it waits, or takes the first payload.
  abbrev Takes : Framer M → List ℕ → List ℕ → List ℕ → Type 0
  Takes f rest p more =
      (turn parse max_bytes f ≡ stop f)
      ⊎ ((b : List ℕ) × (turn parse max_bytes f ≡ go_on (on_message (parse p) (with_buffer f b)))
          × (b ++ rest ≡ more))

  turn-short : (f : Framer M) → length f.buffer < 4 → turn parse max_bytes f ≡ stop f
  turn-short f h = let e : ltb (length f.buffer) 4 ≡ true = ground arith in rw e refl

  turn-Takes :
      (f : Framer M) (rest p more : List ℕ)
      → Sendable max_bytes p
      → max_bytes < 4294967296
      → f.buffer ++ rest ≡ frame p ++ more
      → Takes f rest p more
  turn-Takes f rest p more can small e = elim (Bool-cases (ltb (length f.buffer) 4)) [
    | inl short ↦ inl (rw short refl)
    | inr long ↦
        let parts =
          append_split f.buffer rest (write_uint32_le (length p)) (p ++ more) e (ground arith) in
        let len : read_uint32_le f.buffer ≡ length p =
          rw (parts.0) (read-write_uint32_le (length p) (drop 4 f.buffer) (omega (arith, can.1))) in
        let positive : (read_uint32_le f.buffer == 0) ≡ false = ground (arith, len, can.0) in
        let allowed : ltb max_bytes (read_uint32_le f.buffer) ≡ false =
          ground (arith, len, can.1) in
        elim (Bool-cases (ltb (length f.buffer) (4 + read_uint32_le f.buffer))) [
          | inl waits ↦ inl (rw (long, positive, allowed, waits) refl)
          | inr full ↦
              let body =
                append_split (drop 4 f.buffer) rest p more (parts.1)
                  (ground (arith, len, full, length-drop 4 f.buffer)) in
              let payload : take (read_uint32_le f.buffer) (drop 4 f.buffer) ≡ p =
                rw (len, body.0) (take-append p (drop (length p) (drop 4 f.buffer))) in
              let left : drop (length p) (drop 4 f.buffer)
                  ≡ drop (4 + read_uint32_le f.buffer) f.buffer =
                rw len (drop-drop 4 (length p) f.buffer) in
              inr (
                drop (4 + read_uint32_le f.buffer) f.buffer,
                rw (long, positive, allowed, full, payload) refl,
                ap (λ b. b ++ rest) (sym left) ∙ body.1,
              )
        ]
  ]

  -- The payloads, handed over one after another.
  abbrev deliver : List (List ℕ) → Framer M → Framer M
  deliver [] f = f
  deliver (p ∷ ps) f = deliver ps (on_message (parse p) f)

  with_buffer-on_message :
      (o : Option M) (f : Framer M) (b c : List ℕ)
      → with_buffer (on_message o (with_buffer f b)) c ≡ on_message o (with_buffer f c)
  with_buffer-on_message none f b c = refl
  with_buffer-on_message (some m) f b c = refl

  buffer-on_message : (o : Option M) (f : Framer M) → (on_message o f).buffer ≡ f.buffer
  buffer-on_message none f = refl
  buffer-on_message (some m) f = refl

  buffer-deliver : (ps : List (List ℕ)) (f : Framer M) → (deliver ps f).buffer ≡ f.buffer
  buffer-deliver [] f = refl
  buffer-deliver (p ∷ ps) f =
      buffer-deliver ps (on_message (parse p) f) ∙ buffer-on_message (parse p) f

  with_buffer-deliver :
      (ps : List (List ℕ)) (f : Framer M) (b : List ℕ)
      → with_buffer (deliver ps f) b ≡ deliver ps (with_buffer f b)
  with_buffer-deliver [] f b = refl
  with_buffer-deliver (p ∷ ps) f b =
      with_buffer-deliver ps (on_message (parse p) f) b
      ∙ ap (deliver ps) (with_buffer-on_message (parse p) f f.buffer b)

  deliver-append :
      (ps qs : List (List ℕ)) (f : Framer M) → deliver qs (deliver ps f) ≡ deliver (ps ++ qs) f
  deliver-append [] qs f = refl
  deliver-append (p ∷ ps) qs f = deliver-append ps qs (on_message (parse p) f)

  -- Where the reading of `ps` stands: those in `qs` are handed over, `b` begins the others.
  abbrev Stands : Framer M → Framer M → List ℕ → List (List ℕ) → Type 0
  Stands f g rest ps =
      (qs : List (List ℕ)) × (rs : List (List ℕ)) × (b : List ℕ) × (ps ≡ qs ++ rs)
      × (b ++ rest ≡ frames rs)
      × (g ≡ deliver qs (with_buffer f b))

  drain-Stands :
      (fuel : ℕ) (f : Framer M) (rest : List ℕ) (ps : List (List ℕ))
      → All (Sendable max_bytes) ps
      → max_bytes < 4294967296
      → f.buffer ++ rest ≡ frames ps
      → Stands f (drain parse max_bytes fuel f) rest ps
  unfolding drain
  drain-Stands zero f rest ps can small e = ([], ps, f.buffer, refl, e, refl)
  drain-Stands (suc fuel) f rest [] can small e =
      let empty : length f.buffer < 4 = omega (arith, ap length e, length-append f.buffer rest) in
      ([], [], f.buffer, refl, e, rw (turn-short f empty) refl)
  drain-Stands (suc fuel) f rest (p ∷ ps) can small e =
      elim (turn-Takes f rest p (frames ps) (can.0) small e) [
        | inl stopped ↦ ([], p ∷ ps, f.buffer, refl, e, rw stopped refl)
        | inr taken ↦
            let g = on_message (parse p) (with_buffer f (taken.0)) in
            let next = drain-Stands fuel g rest ps (can.1) small (
              ap (λ b. b ++ rest) (buffer-on_message (parse p) (with_buffer f (taken.0)))
              ∙ taken.2) in
            (
              p ∷ next.0,
              next.1,
              next.2,
              ap (λ l. p ∷ l) (next.3),
              next.4,
              ap (λ t. after t (drain parse max_bytes fuel)) (taken.1)
                  ∙ (next.5
                      ∙ ap (deliver (next.0))
                          (with_buffer-on_message (parse p) f (taken.0) (next.2))),
            )
      ]

  push_all-Stands :
      (f : Framer M) (chunks ps : List (List ℕ))
      → All (Sendable max_bytes) ps
      → max_bytes < 4294967296
      → f.buffer ++ joined chunks ≡ frames ps
      → Stands f (push_all parse max_bytes f chunks) [] ps
  unfolding push
  push_all-Stands f [] ps can small e = ([], ps, f.buffer, refl, e, refl)
  push_all-Stands f (c ∷ cs) ps can small e =
      let one =
        drain-Stands (length (f.buffer ++ c) + 1) (with_buffer f (f.buffer ++ c)) (joined cs) ps can
          small (append_assoc f.buffer c (joined cs) ∙ e) in
      let g : Framer M = push parse max_bytes f c in
      let kept : g.buffer ≡ one.2 =
        ap Framer.buffer (one.5) ∙ buffer-deliver (one.0) (with_buffer f (one.2)) in
      let rest =
        push_all-Stands g cs (one.1)
          (All-behind (Sendable max_bytes) (one.0) (one.1)
            (subst (All (Sendable max_bytes)) (one.3) can))
          small (ap (λ b. b ++ joined cs) kept ∙ one.4) in
      let both : with_buffer g (rest.2) ≡ deliver (one.0) (with_buffer f (rest.2)) =
        ap (λ x. with_buffer x (rest.2)) (one.5)
        ∙ with_buffer-deliver (one.0) (with_buffer f (one.2)) (rest.2) in
      (
        one.0 ++ rest.0,
        rest.1,
        rest.2,
        one.3 ∙ (ap (λ l. one.0 ++ l) (rest.3) ∙ sym (append_assoc (one.0) (rest.0) (rest.1))),
        rest.4,
        rest.5
            ∙ (ap (deliver (rest.0)) both
                ∙ deliver-append (one.0) (rest.0) (with_buffer f (rest.2))),
      )

  push_all-Waits :
      (f : Framer M) (chunks : List (List ℕ))
      → Waits parse max_bytes f.buffer
      → Waits parse max_bytes (push_all parse max_bytes f chunks).buffer
  push_all-Waits f [] h = h
  push_all-Waits f (c ∷ cs) h =
      push_all-Waits (push parse max_bytes f c) cs (push-Waits parse max_bytes f c).0

  -- A buffer that waits holds no frame that was sent.
  Waits-frames :
      (rs : List (List ℕ))
      → All (Sendable max_bytes) rs
      → max_bytes < 4294967296
      → Waits parse max_bytes (frames rs)
      → rs ≡ []
  Waits-frames [] can small h = refl
  Waits-frames (r ∷ rs) can small h =
      let len = read-write_uint32_le (length r) (r ++ frames rs) (omega (arith, can.0.1)) in
      let size = length-append r (frames rs) in
      absurd (elim h [ inl e ↦ omega (arith, e) | inr e ↦ omega (arith, e.0, len, size) ])

  deliver-parsed :
      (ps : List (List ℕ)) (ms : List M) (f : Framer M)
      → map parse ps ≡ map some ms
      → deliver ps f ≡ record { buffer = f.buffer; messages = f.messages ++ ms; errors = f.errors }
  deliver-parsed [] [] f h = rw (append-nil f.messages) refl
  deliver-parsed [] (m ∷ ms) f h = absurd (ground arith)
  deliver-parsed (p ∷ ps) [] f h = absurd (ground arith)
  deliver-parsed (p ∷ ps) (m ∷ ms) f h =
      let first : parse p ≡ some m = ground arith in
      let later : map parse ps ≡ map some ms = ground arith in
      ap (λ o. deliver ps (on_message o f)) first
      ∙ (deliver-parsed ps ms (on_message (some m) f) later
          ∙ rw (append_assoc f.messages (m ∷ []) ms) refl)

  collect-frames :
      (chunks ps : List (List ℕ)) (ms : List M)
      → All (Sendable max_bytes) ps
      → max_bytes < 4294967296
      → map parse ps ≡ map some ms
      → joined chunks ≡ frames ps
      → collect_native_messages parse max_bytes chunks
        ≡ record { buffer = []; messages = ms; errors = [] }
  unfolding collect_native_messages end
  collect-frames chunks ps ms can small valid e =
      let f : Framer M = record { buffer = []; messages = []; errors = [] } in
      let done = push_all-Stands f chunks ps can small e in
      let g : Framer M = push_all parse max_bytes f chunks in
      let held : g.buffer ≡ frames (done.1) =
        ap Framer.buffer (done.5)
        ∙ (buffer-deliver (done.0) (with_buffer f (done.2))
            ∙ (sym (append-nil (done.2)) ∙ done.4)) in
      let none_left : done.1 ≡ [] =
        Waits-frames (done.1)
          (All-behind (Sendable max_bytes) (done.0) (done.1)
            (subst (All (Sendable max_bytes)) (done.3) can))
          small
          (subst (Waits parse max_bytes) held (push_all-Waits f chunks (inl (omega arith)))) in
      let all_done : done.0 ≡ ps =
        sym (append-nil (done.0)) ∙ (ap (λ l. done.0 ++ l) (sym none_left) ∙ sym (done.3)) in
      let start : done.2 ≡ [] = sym (append-nil (done.2)) ∙ (done.4 ∙ ap frames none_left) in
      let final : g ≡ record { buffer = []; messages = ms; errors = [] } =
        done.5
        ∙ (ap (λ b. deliver (done.0) (with_buffer f b)) start
            ∙ (ap (λ l. deliver l f) all_done ∙ deliver-parsed ps ms f valid)) in
      ap (end {M = M}) final

-- The frames that `encodeNativeMessage` makes of the payloads, none of which it refuses.
abbrev pub Sent : ℕ → List (List ℕ) → List (List ℕ) → Type 0
Sent max_bytes [] [] = Unit
Sent max_bytes (p ∷ ps) (f ∷ fs) = (encode_native_message max_bytes p ≡ ok f) × Sent max_bytes ps fs
Sent max_bytes _ _ = ⊥

encode-Sendable :
    (max_bytes : ℕ) (p f : List ℕ)
    → encode_native_message max_bytes p ≡ ok f
    → Sendable max_bytes p × (f ≡ frame p)
unfolding encode_native_message
encode-Sendable max_bytes [] f h = absurd (cc)
encode-Sendable max_bytes (b ∷ p) f h = elim (Bool-cases (ltb max_bytes (length (b ∷ p)))) [
  | inl e ↦ absurd (ground arith)
  | inr e ↦ ((omega arith, ground arith), ground arith)
]

Sent-frames :
    (max_bytes : ℕ) (ps fs : List (List ℕ))
    → Sent max_bytes ps fs
    → All (Sendable max_bytes) ps × (joined fs ≡ frames ps)
Sent-frames max_bytes [] [] h = (tt, refl)
Sent-frames max_bytes [] (f ∷ fs) h = absurd h
Sent-frames max_bytes (p ∷ ps) [] h = absurd h
Sent-frames max_bytes (p ∷ ps) (f ∷ fs) h =
    let one = encode-Sendable max_bytes p f (h.0) in
    let rest = Sent-frames max_bytes ps fs (h.1) in ((one.0, rest.0), rw (one.1, rest.1) refl)

-- Whatever the chunks are in which the frames of the payloads arrive, collectNativeMessages returns
-- the message of each payload, in order, and no error: when `encodeNativeMessage` accepts every
-- payload, the limit is one that the header's 32 bits can hold, and each payload is a JSON text.
pub collect_native_messages-encode :
    {M : Type 0} (parse : List ℕ → Option M) (max_bytes : ℕ) (ps fs chunks : List (List ℕ))
    (ms : List M)
    → Sent max_bytes ps fs
    → max_bytes < 4294967296
    → map parse ps ≡ map some ms
    → joined chunks ≡ joined fs
    → collect_native_messages parse max_bytes chunks
      ≡ record { buffer = []; messages = ms; errors = [] }
collect_native_messages-encode parse max_bytes ps fs chunks ms sent small valid e =
    let all = Sent-frames max_bytes ps fs sent in
    collect-frames parse max_bytes chunks ps ms (all.0) small valid (e ∙ all.1)
