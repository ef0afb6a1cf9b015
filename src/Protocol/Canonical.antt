-- ===== src/Protocol/Canonical.antt =====
-- The decoders of the cloud table's objects accept the encodings of the encoders, and nothing else.
use mathlib.Core.Logic.{◌↔◌}
use dbplayground.Base.{
  ℕ, ◌^◌, ◌<◌, ◌≡◌, refl, sym, ◌∙◌, subst, List, append-nil, Bool, All, arith, Bool-cases, inl, inr,
}
use dbplayground.Base.Result
use dbplayground.Base.Result.{Result, ok, err, Ensures, Ensures-ok, >>=-eq-ok, ok-injective}
use dbplayground.Codec.{IsByte}
use dbplayground.Protocol.{SequentialState, state_magic, valid_state, write_state, encode_state}
use dbplayground.Protocol.Decoders.{get_state, decode_by, decode_state}
use dbplayground.Wire.{Reader, guard, at_end, put_string}
use dbplayground.Wire.Reads.{
  Reads, Reads-bind, Reads-map, Reads-word, Reads-header, Reads-string, Reads-end,
}
use dbplayground.Wire.Accepts.{
  Accepts, Accepts-bind, Accepts-pure, Accepts-word, Accepts-header, Accepts-string, Accepts-end,
}

module _ {ℓ} {A : Type ℓ} (get : Reader A) (valid : A → Bool) (write : A → Result (List ℕ)) where
  abbrev pub encode_by : A → Result (List ℕ)
  encode_by a = Result.◌>>=◌ (guard (valid a)) λ _. write a

  encode_by-ok : (a : A) {bytes : List ℕ} → encode_by a ≡ ok bytes → write a ≡ ok bytes
  encode_by-ok a h = elim (Bool-cases (valid a)) [
    | inl good ↦ rw good at h
    | inr bad ↦ let broken = rw bad at h in cc
  ]

  encode_by_valid :
      (a : A) {x y : List ℕ} → encode_by a ≡ ok x → write a ≡ ok y → encode_by a ≡ ok y
  encode_by_valid a h w = h ∙ sym (encode_by-ok a h) ∙ w

  pub decode_by_iff :
      (a : A) (bytes : List ℕ)
      → Accepts (λ b x. write b ≡ ok x) get
      → (write a ≡ ok bytes → Reads get bytes a)
      → All IsByte bytes
      → (decode_by get encode_by bytes ≡ ok a) ↔ (encode_by a ≡ ok bytes)
  unfolding decode_by
  decode_by_iff a bytes accepts reads octets = (
    λ h.
        let (b, read, h') = >>=-eq-ok (Result.◌>>=◌ (get bytes) at_end) _ h in
        let (x, encoded, same) = >>=-eq-ok (encode_by b) _ h' in
        subst (λ c. encode_by c ≡ ok bytes) (ok-injective same)
          (encode_by_valid b encoded (Ensures-ok (Accepts-end bytes accepts octets) read)),
    λ h. rw (Reads-end (reads (encode_by-ok a h)), h) refl,
  )

-- The numbers of an object are of the widths of their types.
abbrev pub StateFits : SequentialState → Type 0
StateFits s =
    (s.state_version < 2 ^ 64)
    × (s.schema_version < 2 ^ 64)
    × (s.writer_epoch < 2 ^ 64)
    × (s.indexed_seq < 2 ^ 64)
    × (s.published_seq < 2 ^ 64)

get_state-Accepts : Accepts (λ s x. write_state s ≡ ok x) get_state
unfolding get_state write_state
get_state-Accepts = Accepts-bind _ (Accepts-header state_magic) λ u x₀ w₀.
    Accepts-bind _ Accepts-string λ id x₁ w₁. Accepts-bind _ (Accepts-word 8) λ version x₂ w₂.
      Accepts-bind _ (Accepts-word 8) λ schema x₃ w₃. Accepts-bind _ (Accepts-word 8) λ epoch x₄ w₄.
        Accepts-bind _ (Accepts-word 8) λ indexed x₅ w₅.
          Accepts-bind _ (Accepts-word 8) λ published x₆ w₆.
            Accepts-bind _ Accepts-string λ key x₇ w₇.
              Accepts-pure _ (rw (w₀, w₁, w₂.0, w₃.0, w₄.0, w₅.0, w₆.0, w₇, append-nil) refl)

get_state-Reads :
    (s : SequentialState) (bytes : List ℕ)
    → StateFits s
    → write_state s ≡ ok bytes
    → Reads get_state bytes s
unfolding get_state write_state
get_state-Reads s bytes fits h =
    let (id, e, h') = >>=-eq-ok (put_string s.table_id) _ h in
    let (key, e', same) = >>=-eq-ok (put_string s.manifest_key) _ h' in
    subst (λ x. Reads get_state x s) (ok-injective same)
      (Reads-bind _ (Reads-header state_magic refl) (
        Reads-bind _ (Reads-string s.table_id e) (
          Reads-bind _ (Reads-word 8 s.state_version (omega arith)) (
            Reads-bind _ (Reads-word 8 s.schema_version (omega arith)) (
              Reads-bind _ (Reads-word 8 s.writer_epoch (omega arith)) (
                Reads-bind _ (Reads-word 8 s.indexed_seq (omega arith)) (
                  Reads-bind _ (Reads-word 8 s.published_seq (omega arith))
                    (Reads-map _ (Reads-string s.manifest_key e')))))))))

-- Bytes are decoded to a state whose numbers are 64 bits wide exactly if the state is encoded to
-- these bytes.
pub decode_state_iff :
    (s : SequentialState) (bytes : List ℕ)
    → StateFits s
    → All IsByte bytes
    → (decode_state bytes ≡ ok s) ↔ (encode_state s ≡ ok bytes)
unfolding decode_state encode_state
decode_state_iff s bytes fits octets =
    decode_by_iff get_state valid_state write_state s bytes get_state-Accepts
      (get_state-Reads s bytes fits) octets
