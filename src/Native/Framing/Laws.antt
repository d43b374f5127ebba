-- ===== src/Native/Framing/Laws.antt =====
-- native-host/framing.js: what the loop of `push` leaves in the buffer.
use web_action_recorder_exte.Common.{
  ℕ, zero, suc, ltb, ◌==◌, ◌+◌, ◌<◌, ◌≤◌, List, ◌++◌, length, take, drop, length-drop, Option, none,
  some, ◌≡◌, refl, arith, Bool-cases, inl, inr, ◌⊎◌,
}
use web_action_recorder_exte.Native.Framing.{
  Framer, Turn, stop, go_on, turn, after, drain, push, read_uint32_le, with_buffer, on_message,
}

module _ {M : Type 0} (parse : List ℕ → Option M) (max_bytes : ℕ) where
  -- No frame of the buffer is complete, and the length of the first is one that is allowed.
  abbrev pub Waits : List ℕ → Type 0
  Waits buffer =
      (length buffer < 4)
      ⊎ ((length buffer < 4 + read_uint32_le buffer) × (read_uint32_le buffer ≤ max_bytes))

  abbrev TurnLeaves : Framer M → Turn M → Type 0
  TurnLeaves f (stop g) = Waits g.buffer
  TurnLeaves f (go_on g) = length g.buffer + 4 ≤ length f.buffer

  buffer-on_message : (m : Option M) (f : Framer M) → (on_message m f).buffer ≡ f.buffer
  buffer-on_message none f = refl
  buffer-on_message (some m) f = refl

  turn-leaves : (f : Framer M) → TurnLeaves f (turn parse max_bytes f)
  turn-leaves f = elim (Bool-cases (ltb (length f.buffer) 4)) [
    | inl e ↦ rw e (inl (ground arith))
    | inr e ↦ elim (Bool-cases (read_uint32_le f.buffer == 0)) [
      | inl e' ↦ rw (e, e') (ground (arith, length-drop 4 f.buffer))
      | inr e' ↦ elim (Bool-cases (ltb max_bytes (read_uint32_le f.buffer))) [
        | inl e'' ↦ rw (e, e', e'') (inl (omega arith))
        | inr e'' ↦
            let allowed : read_uint32_le f.buffer ≤ max_bytes = ground arith in
            elim (Bool-cases (ltb (length f.buffer) (4 + read_uint32_le f.buffer))) [
              | inl e3 ↦ rw (e, e', e'', e3) (inr (ground arith, allowed))
              | inr e3 ↦
                  rw
                    (
                      e,
                      e',
                      e'',
                      e3,
                      buffer-on_message (parse (take (read_uint32_le f.buffer) (drop 4 f.buffer)))
                          (with_buffer f (drop (4 + read_uint32_le f.buffer) f.buffer)),
                    )
                    (ground (arith, length-drop (4 + read_uint32_le f.buffer) f.buffer))
            ]
      ]
    ]
  ]

  after-Waits :
      (fuel : ℕ) (f : Framer M) (t : Turn M) (next : Framer M → Framer M)
      → TurnLeaves f t
      → length f.buffer < suc fuel
      → ((g : Framer M) → length g.buffer < fuel → Waits (next g).buffer)
      → Waits (after t next).buffer
  after-Waits fuel f (stop g) next h k ih = h
  after-Waits fuel f (go_on g) next h k ih = ih g (omega (arith, h, k))

  drain-Waits :
      (fuel : ℕ) (f : Framer M)
      → length f.buffer < fuel
      → Waits (drain parse max_bytes fuel f).buffer
  unfolding drain
  drain-Waits zero f h = absurd (omega arith)
  drain-Waits (suc fuel) f h =
      after-Waits fuel f (turn parse max_bytes f) (drain parse max_bytes fuel) (turn-leaves f) h
        (drain-Waits fuel)

  -- Between two chunks the framer keeps less than one frame of the largest size allowed, whatever
  -- the bytes are that come in, and it has taken every complete frame.
  pub push-Waits :
      (f : Framer M) (chunk : List ℕ)
      → Waits (push parse max_bytes f chunk).buffer
        × (length (push parse max_bytes f chunk).buffer < 4 + max_bytes)
  unfolding push
  push-Waits f chunk =
      let waits =
        drain-Waits (length (f.buffer ++ chunk) + 1) (with_buffer f (f.buffer ++ chunk))
          (omega arith) in
      (waits, elim waits [ inl e ↦ omega (arith, e) | inr e ↦ omega (arith, e) ])
