-- ===== src/Turn/Builder/RoundTrip.antt =====
-- Messages that a builder makes decode, with their attributes, and pass the checks on them.
mod Tests
use csqtt_antinet_module.Stun.{
  header_size, attr_fingerprint, fingerprint_xor, decode, attributes, collect, fingerprint_valid,
}
use csqtt_antinet_module.Turn.Builder.{
  attr_message_integrity, with_transaction, finish, finish_authenticated, verify_integrity,
}
use csqtt_antinet_module.Turn.Builder.Wire.{
  Attr, attr_bytes, wire, add_all, header, length-header, length-attr_bytes, wire-snoc,
  finish-branch, add_attribute-wire, add_all-bytes, finish_authenticated-branch, signed, finished,
  signed_attrs, fingerprint_of, integrity_of,
}
use csqtt_antinet_module.Turn.Builder.Reads.{IsAttr, items, message, decode-header}
use mathlib.Core.List.{append_assoc}
use csqtt_antinet_module.Turn.Builder.Checks.{
  collect-message, found_at, attribute-message, take-message, fingerprint_check, integrity_check,
  signed_part-header,
}
use csqtt_antinet_module.Prelude.{
  ℕ, suc, ◌+◌, ◌^◌, ◌≤◌, ◌<◌, bit_xor, ◌≡◌, refl, ap, ◌∙◌, ◌≢◌, inr, true, false, some, List, [],
  ◌∷◌, ◌++◌, arith, ltb, length, length-append, All, All-append, Bytes, u32_mod,
}
use csqtt_antinet_module.Prelude.{All-mono, to_be, length-to_be, from_be-to_be, bit_xor-lt}

-- An attribute that no step of `finish` and no check looks for.
pub record IsPlain (a : Attr) : Type 0 where
  pub not_fingerprint : a.0 ≢ attr_fingerprint
  pub not_integrity : a.0 ≢ attr_message_integrity

module _ (crc32 : Bytes → ℕ) (crc32_range : (b : Bytes) → crc32 b < u32_mod) where
  abbrev pub completed : (kind : ℕ) → Bytes → List Attr → List Attr
  completed kind t attrs = attrs ++ fingerprint_of crc32 kind t (wire attrs) ∷ []

  completed-IsAttr :
      (kind : ℕ) (t : Bytes) (attrs : List Attr)
      → All IsAttr attrs
      → All IsAttr (completed kind t attrs)
  completed-IsAttr kind t attrs h =
      All-append IsAttr attrs (fingerprint_of crc32 kind t (wire attrs) ∷ []) h (
        record {
          kind_range = omega arith;
          kind_kept = omega arith;
          size_range = omega (
            arith,
            length-to_be 4 (
                bit_xor (crc32 (header kind (length (wire attrs) + 8) t ++ wire attrs))
                  fingerprint_xor),
          );
        },
        tt,
      )

  length-completed :
      (kind : ℕ) (t : Bytes) (attrs : List Attr)
      → length (wire (completed kind t attrs)) ≡ length (wire attrs) + 8
  length-completed kind t attrs = omega (
    arith,
    ap length (wire-snoc attrs (fingerprint_of crc32 kind t (wire attrs))),
    length-append (wire attrs) (attr_bytes (fingerprint_of crc32 kind t (wire attrs))),
    length-attr_bytes (fingerprint_of crc32 kind t (wire attrs)),
    length-to_be 4
        (bit_xor (crc32 (header kind (length (wire attrs) + 8) t ++ wire attrs)) fingerprint_xor),
  )

  fingerprint_valid-completed :
      (kind : ℕ) (t : Bytes) (attrs : List Attr)
      → length t ≡ 12
      → All IsAttr attrs
      → All (λ a. a.0 ≢ attr_fingerprint) attrs
      → fingerprint_valid crc32 (message kind t (completed kind t attrs)) ≡ some (some true)
  fingerprint_valid-completed kind t attrs size h plain =
      let word =
        bit_xor (crc32 (header kind (length (wire attrs) + 8) t ++ wire attrs)) fingerprint_xor in
      let head = header kind (length (wire (completed kind t attrs))) t in
      let l = length-header kind (length (wire (completed kind t attrs))) t size in
      let small : word < 2 ^ 32 =
        bit_xor-lt 32 (crc32 (header kind (length (wire attrs) + 8) t ++ wire attrs))
          fingerprint_xor (crc32_range (header kind (length (wire attrs) + 8) t ++ wire attrs))
          (omega arith) in
      let value = to_be 4 word in
      fingerprint_check crc32 (message kind t (completed kind t attrs))
        (found_at attr_fingerprint value attrs)
        (attribute-message kind t attrs attr_fingerprint value [] size
          (completed-IsAttr kind t attrs h) plain)
        (length-to_be 4 word)
        (omega (
          arith,
          length-append head (wire (completed kind t attrs)),
          length-completed kind t attrs,
        ))
        (rw
          (
            from_be-to_be 4 word (omega arith),
            take-message head attrs (fingerprint_of crc32 kind t (wire attrs) ∷ []) l,
            length-completed kind t attrs,
          )
          refl)

  -- The bytes of a new builder with its attributes.
  add_all-header :
      (kind : ℕ) (t : Bytes) (attrs : List Attr)
      → length t ≡ 12
      → (add_all attrs (with_transaction kind t)).bytes ≡ header kind 0 t ++ wire attrs
  unfolding with_transaction header
  add_all-header kind t attrs size =
      add_all-bytes attrs (with_transaction kind t)
        (let l = length-header kind 0 t size in omega arith)

  decoded :
      (kind : ℕ) (t : Bytes) (attrs : List Attr)
      → 0 < kind
      → kind < 0x4000
      → length t ≡ 12
      → All IsAttr attrs
      → All (λ a. a.0 ≢ attr_fingerprint) attrs
      → length (wire attrs) + 8 ≤ 65535
      → let m = message kind t (completed kind t attrs) in
        (finished crc32 kind t attrs ≡ m.raw)
        × (decode m.raw ≡ inr m)
        × (collect (suc (length m.raw)) (attributes m)
            ≡ some (items header_size (completed kind t attrs)))
        × (fingerprint_valid crc32 m ≡ some (some true))
  decoded kind t attrs pos small size h plain fits = (
    rw (length-completed kind t attrs) refl,
    decode-header kind t (completed kind t attrs) pos small size
        (omega (arith, length-completed kind t attrs)) (completed-IsAttr kind t attrs h),
    collect-message kind t (completed kind t attrs) size (completed-IsAttr kind t attrs h),
    fingerprint_valid-completed kind t attrs size h plain,
  )

  -- A message without credentials is built whenever its attributes fit the length field. It decodes
  -- with its kind and transaction id, the iterator gives its attributes in order, each at its place,
  -- followed by the fingerprint, and the fingerprint is valid.
  decode-finish :
      (kind : ℕ) (t : Bytes) (attrs : List Attr)
      → 0 < kind
      → kind < 0x4000
      → length t ≡ 12
      → All IsAttr attrs
      → All IsPlain attrs
      → length (wire attrs) + 8 ≤ 65535
      → let m = message kind t (completed kind t attrs) in
        (finish crc32 (add_all attrs (with_transaction kind t)) ≡ some m.raw)
        × (decode m.raw ≡ inr m)
        × (collect (suc (length m.raw)) (attributes m)
            ≡ some (items header_size (completed kind t attrs)))
        × (fingerprint_valid crc32 m ≡ some (some true))
  decode-finish kind t attrs pos small size h plain fits =
      let b : ltb 65535 (length (wire attrs) + 8) ≡ false = ground arith in
      let d =
        decoded kind t attrs pos small size h
          (All-mono IsPlain (λ a. a.0 ≢ attr_fingerprint) (λ a p. p.not_fingerprint) attrs plain)
          fits in
      (
        finish-branch crc32 kind 0 t attrs (add_all attrs (with_transaction kind t)) size
              (add_all-header kind t attrs size)
            ∙ rw b (ap some d.0),
        d.1,
        d.2,
        d.3,
      )

  module _ (hmac : Bytes → Bytes → Bytes)
      (length-hmac : (key b : Bytes) → length (hmac key b) ≡ 20) where
    length-signed :
        (key : Bytes) (kind : ℕ) (t : Bytes) (attrs : List Attr)
        → length (wire (signed_attrs hmac key kind t attrs)) ≡ length (wire attrs) + 24
    unfolding signed_attrs
    length-signed key kind t attrs = omega (
      arith,
      ap length (wire-snoc attrs (integrity_of hmac key kind t (wire attrs))),
      length-append (wire attrs) (attr_bytes (integrity_of hmac key kind t (wire attrs))),
      length-attr_bytes (integrity_of hmac key kind t (wire attrs)),
      length-hmac key (header kind (length (wire attrs) + 24) t ++ wire attrs),
    )

    signed-IsAttr :
        (key : Bytes) (kind : ℕ) (t : Bytes) (attrs : List Attr)
        → All IsAttr attrs
        → All IsAttr (signed_attrs hmac key kind t attrs)
    unfolding signed_attrs
    signed-IsAttr key kind t attrs h =
        All-append IsAttr attrs (integrity_of hmac key kind t (wire attrs) ∷ []) h (
          record {
            kind_range = omega arith;
            kind_kept = omega arith;
            size_range =
                omega
                  (arith, length-hmac key (header kind (length (wire attrs) + 24) t ++ wire attrs));
          },
          tt,
        )

    signed-plain :
        (key : Bytes) (kind : ℕ) (t : Bytes) (attrs : List Attr)
        → All IsPlain attrs
        → All (λ a. a.0 ≢ attr_fingerprint) (signed_attrs hmac key kind t attrs)
    unfolding signed_attrs
    signed-plain key kind t attrs plain =
        All-append (λ a. a.0 ≢ attr_fingerprint) attrs
          (integrity_of hmac key kind t (wire attrs) ∷ [])
          (All-mono IsPlain (λ a. a.0 ≢ attr_fingerprint) (λ a p. p.not_fingerprint) attrs plain)
          (omega arith, tt)

    -- The receiver's check of the integrity attribute agrees with what the builder signed.
    verify-signed :
        (key : Bytes) (kind : ℕ) (t : Bytes) (attrs : List Attr)
        → length t ≡ 12
        → All IsAttr attrs
        → All IsPlain attrs
        → length (wire attrs) + 32 ≤ 65535
        → let m = message kind t (completed kind t (signed_attrs hmac key kind t attrs)) in
          verify_integrity hmac m.raw m (some key) ≡ true
    unfolding signed_attrs
    verify-signed key kind t attrs size h plain fits =
        let all = signed_attrs hmac key kind t attrs in
        let own = integrity_of hmac key kind t (wire attrs) in
        let after : List Attr = own ∷ fingerprint_of crc32 kind t (wire all) ∷ [] in
        let q : completed kind t all ≡ attrs ++ after =
          append_assoc attrs (own ∷ []) (fingerprint_of crc32 kind t (wire all) ∷ []) in
        let ok : All IsAttr (attrs ++ after) =
          rw q at (completed-IsAttr kind t all (signed-IsAttr key kind t attrs h)) in
        let size_field = length (wire (attrs ++ after)) in
        let l = length-header kind size_field t size in
        let m = message kind t (attrs ++ after) in
        rw q (
          integrity_check hmac key m.raw m (found_at attr_message_integrity own.1 attrs)
            (attribute-message kind t attrs attr_message_integrity own.1
              (fingerprint_of crc32 kind t (wire all) ∷ []) size ok
              (All-mono IsPlain (λ a. a.0 ≢ attr_message_integrity) (λ a p. p.not_integrity) attrs
                plain))
            (length-hmac key (header kind (length (wire attrs) + 24) t ++ wire attrs)) (omega arith)
            (omega arith)
            (ap (λ (b : Bytes). hmac key b)
              (signed_part-header kind size_field (length (wire attrs) + 24) t (wire attrs) m.raw
                size (take-message (header kind size_field t) attrs after l) refl)))

    -- A message with credentials is built whenever its attributes and the two that are added fit the
    -- length field. It decodes with its attributes in order, followed by those two, the fingerprint is
    -- valid, and the integrity attribute verifies under the key it was made with.
    pub verify-finish_authenticated :
        (key : Bytes) (kind : ℕ) (t : Bytes) (attrs : List Attr)
        → 0 < kind
        → kind < 0x4000
        → length t ≡ 12
        → All IsAttr attrs
        → All IsPlain attrs
        → length (wire attrs) + 32 ≤ 65535
        → let m = message kind t (completed kind t (signed_attrs hmac key kind t attrs)) in
          (finish_authenticated crc32 hmac key (add_all attrs (with_transaction kind t))
            ≡ some m.raw)
          × (decode m.raw ≡ inr m)
          × (collect (suc (length m.raw)) (attributes m)
              ≡ some (items header_size (completed kind t (signed_attrs hmac key kind t attrs))))
          × (fingerprint_valid crc32 m ≡ some (some true))
          × (verify_integrity hmac m.raw m (some key) ≡ true)
    verify-finish_authenticated key kind t attrs pos small size h plain fits =
        let own = integrity_of hmac key kind t (wire attrs) in
        let all = signed_attrs hmac key kind t attrs in
        let grown : length (wire all) ≡ length (wire attrs) + 24 = length-signed key kind t attrs in
        let b : ltb 65535 (length (wire attrs) + 24) ≡ false = ground arith in
        let c : ltb 65535 (length (wire all) + 8) ≡ false = ground arith in
        let d =
          decoded kind t all pos small size (signed-IsAttr key kind t attrs h)
            (signed-plain key kind t attrs plain) (omega arith) in
        let m = message kind t (completed kind t all) in
        (
          finish_authenticated-branch crc32 hmac key kind 0 t attrs
                (add_all attrs (with_transaction kind t)) size (add_all-header kind t attrs size)
              ∙ rw b (
                  finish-branch crc32 kind (length (wire attrs) + 24) t all
                    (signed crc32 hmac key kind t attrs (add_all attrs (with_transaction kind t)))
                    size
                    (unfold signed_attrs in
                      add_attribute-wire kind (length (wire attrs) + 24) attr_message_integrity
                        own.1 t (add_all attrs (with_transaction kind t)).transaction attrs size)
                  ∙ rw c (ap some d.0)),
          d.1,
          d.2,
          d.3,
          verify-signed key kind t attrs size h plain fits,
        )
