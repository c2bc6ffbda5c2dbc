-- ===== src/Turn/Builder/Wire.antt =====
-- What a builder has written: the header, and each attribute behind it with its padding.
use csqtt_antinet_module.Stun.{magic_cookie, attr_fingerprint, fingerprint_xor, padded}
use csqtt_antinet_module.Turn.Builder.{
  attr_message_integrity, MessageBuilder, set_message_length, pad, add_attribute, finish,
  finish_authenticated,
}
use csqtt_antinet_module.Prelude.{
  ℕ, zero, suc, ◌+◌, ◌-◌, ◌%◌, ◌≤◌, bit_xor, ◌≡◌, refl, sym, ap, ◌∙◌, ◌≢◌, inl, inr, none, some,
  List, [], ◌∷◌, ◌++◌, arith, ltb, ◌==◌, if◌then◌else◌, Bool-cases, length, replicate,
  length-append, length-replicate, Bytes,
}
use csqtt_antinet_module.Prelude.{to_be}
use mathlib.Core.List.{append-nil, append_assoc}

-- An attribute's kind and value.
abbrev pub Attr : Type 0
Attr = ℕ × Bytes

abbrev pub zeros : ℕ → Bytes
zeros size = replicate ((4 - size % 4) % 4) 0

unfoldable pub attr_bytes : Attr → Bytes
attr_bytes (kind, value) =
    to_be 2 kind ++ (to_be 2 (length value) ++ (value ++ zeros (length value)))

unfoldable pub wire : List Attr → Bytes
wire [] = []
wire (a ∷ attrs) = attr_bytes a ++ wire attrs

-- One call of `attribute` after another.
unfoldable pub add_all : List Attr → MessageBuilder → MessageBuilder
add_all [] m = m
add_all ((kind, value) ∷ attrs) m = add_all attrs (add_attribute kind value m)

unfoldable pub header : (kind size : ℕ) → Bytes → Bytes
header kind size transaction = to_be 2 kind ++ (to_be 2 size ++ (magic_cookie ++ transaction))

pub length-header : (kind size : ℕ) (t : Bytes) → length t ≡ 12 → length (header kind size t) ≡ 20
unfolding header to_be
length-header kind size t h = omega (arith, h)

pub length-attr_bytes : (a : Attr) → length (attr_bytes a) ≡ 4 + padded (length a.1)
unfolding attr_bytes to_be
length-attr_bytes (kind, value) = omega (
  arith,
  length-append value (zeros (length value)),
  length-replicate {A = ℕ} ((4 - length value % 4) % 4) 0,
)

pub wire-append : (xs ys : List Attr) → wire (xs ++ ys) ≡ wire xs ++ wire ys
unfolding wire
wire-append [] ys = refl
wire-append (a ∷ xs) ys =
    rw (wire-append xs ys) (sym (append_assoc (attr_bytes a) (wire xs) (wire ys)))

pub wire-snoc : (xs : List Attr) (a : Attr) → wire (xs ++ a ∷ []) ≡ wire xs ++ attr_bytes a
wire-snoc xs a =
    wire-append xs (a ∷ [])
    ∙ ap (λ (b : Bytes). wire xs ++ b) (unfold wire in append-nil (attr_bytes a))

pub length-wire-mod : (attrs : List Attr) → length (wire attrs) % 4 ≡ 0
unfolding wire
length-wire-mod [] = refl
length-wire-mod (a ∷ attrs) =
    omega
      (arith, length-append (attr_bytes a) (wire attrs), length-attr_bytes a, length-wire-mod attrs)

pad_fuel :
    (fuel : ℕ) (p : Bytes) → (4 - length p % 4) % 4 ≤ fuel → pad fuel p ≡ p ++ zeros (length p)
unfolding pad
pad_fuel zero p h = let e : (4 - length p % 4) % 4 ≡ 0 = omega arith in rw (e, append-nil) refl
pad_fuel (suc fuel) p h = elim (Bool-cases (length p % 4 == 0)) [
  | inl stop ↦ let e : (4 - length p % 4) % 4 ≡ 0 = ground arith in rw (stop, e, append-nil) refl
  | inr go ↦
      let odd : length p % 4 ≢ 0 = λ e. ground arith in
      let l : length (p ++ 0 ∷ []) ≡ length p + 1 = length-append p (0 ∷ []) in
      let e : (4 - length p % 4) % 4 ≡ suc ((4 - (length p + 1) % 4) % 4) = ground arith in
      rw (go, e)
        (pad_fuel fuel (p ++ 0 ∷ []) (omega arith)
          ∙ rw l (append_assoc p (0 ∷ []) (replicate ((4 - (length p + 1) % 4) % 4) 0)))
]

-- An attribute that is added stands behind what the builder had, padded to a multiple of 4.
pub add_attribute-bytes :
    (kind : ℕ) (value : Bytes) (m : MessageBuilder)
    → length m.bytes % 4 ≡ 0
    → (add_attribute kind value m).bytes ≡ m.bytes ++ attr_bytes (kind, value)
unfolding add_attribute attr_bytes to_be
add_attribute-bytes kind value m h =
    let raw : Bytes = to_be 2 kind ++ (to_be 2 (length value) ++ value) in
    let l : length (m.bytes ++ raw) ≡ length m.bytes + (4 + length value) =
      omega (arith, length-append m.bytes raw) in
    let e : (4 - length (m.bytes ++ raw) % 4) % 4 ≡ (4 - length value % 4) % 4 = omega arith in
    pad_fuel 3 (m.bytes ++ raw) (omega arith)
    ∙ rw e (append_assoc m.bytes raw (zeros (length value)))

pub add_all-bytes :
    (attrs : List Attr) (m : MessageBuilder)
    → length m.bytes % 4 ≡ 0
    → (add_all attrs m).bytes ≡ m.bytes ++ wire attrs
unfolding add_all wire
add_all-bytes [] m h = sym (append-nil m.bytes)
add_all-bytes ((kind, value) ∷ attrs) m h =
    let e = add_attribute-bytes kind value m h in
    add_all-bytes attrs (add_attribute kind value m) (
      rw e (
        omega (
          arith,
          length-append m.bytes (attr_bytes (kind, value)),
          length-attr_bytes (kind, value),
        )))
    ∙ rw e (append_assoc m.bytes (attr_bytes (kind, value)) (wire attrs))

pub set_message_length-header :
    (kind size trailing : ℕ) (t body : Bytes)
    → length t ≡ 12
    → set_message_length (header kind size t ++ body) trailing ≡ (
        if ltb 65535 (length body + trailing)
        then none
        else some (header kind (length body + trailing) t ++ body))
unfolding set_message_length header to_be
set_message_length-header kind size trailing t body h =
    let e : length (header kind size t ++ body) - 20 + trailing ≡ length body + trailing =
      omega (arith, length-append t body, h) in
    rw e refl

-- The attribute that `finish` adds.
abbrev pub fingerprint_of : (crc32 : Bytes → ℕ) → (kind : ℕ) → (t body : Bytes) → Attr
fingerprint_of crc32 kind t body = (
  attr_fingerprint,
  to_be 4 (bit_xor (crc32 (header kind (length body + 8) t ++ body)) fingerprint_xor),
)

-- The attribute that `finish_authenticated` adds.
abbrev pub integrity_of :
    (hmac : Bytes → Bytes → Bytes) → (key : Bytes) → (kind : ℕ) → (t body : Bytes) → Attr
integrity_of hmac key kind t body =
    (attr_message_integrity, hmac key (header kind (length body + 24) t ++ body))

-- Behind a builder's content, an attribute is one more of the wire's.
pub add_attribute-wire :
    (kind size k : ℕ) (value t tr : Bytes) (attrs : List Attr)
    → length t ≡ 12
    → (add_attribute k value
        (record { bytes = header kind size t ++ wire attrs; transaction = tr })).bytes
      ≡ header kind size t ++ wire (attrs ++ (k, value) ∷ [])
add_attribute-wire kind size k value t tr attrs h =
    add_attribute-bytes k value
      (record { bytes = header kind size t ++ wire attrs; transaction = tr })
      (omega (
        arith,
        length-append (header kind size t) (wire attrs),
        length-header kind size t h,
        length-wire-mod attrs,
      ))
    ∙ append_assoc (header kind size t) (wire attrs) (attr_bytes (k, value))
    ∙ ap (λ (b : Bytes). header kind size t ++ b) (sym (wire-snoc attrs (k, value)))

unfoldable pub signed_attrs :
    (hmac : Bytes → Bytes → Bytes) → (key : Bytes) → (kind : ℕ) → Bytes → List Attr → List Attr
signed_attrs hmac key kind t attrs = attrs ++ integrity_of hmac key kind t (wire attrs) ∷ []

module _ (crc32 : Bytes → ℕ) where
  abbrev pub finished : (kind : ℕ) → Bytes → List Attr → Bytes
  finished kind t attrs =
      header kind (length (wire attrs) + 8) t
      ++ wire (attrs ++ fingerprint_of crc32 kind t (wire attrs) ∷ [])

  pub finish-branch :
      (kind size : ℕ) (t : Bytes) (attrs : List Attr) (m : MessageBuilder)
      → length t ≡ 12
      → m.bytes ≡ header kind size t ++ wire attrs
      → finish crc32 m
        ≡ (if ltb 65535 (length (wire attrs) + 8) then none else some (finished kind t attrs))
  unfolding finish
  finish-branch kind size t attrs m h e =
      rw (e, finish, set_message_length-header kind size 8 t (wire attrs) h)
        (elim (Bool-cases (ltb 65535 (length (wire attrs) + 8))) [
          | inl large ↦ rw large refl
          | inr fits ↦ rw fits (
              ap some (
                add_attribute-wire kind (length (wire attrs) + 8) attr_fingerprint
                  (fingerprint_of crc32 kind t (wire attrs)).1 t m.transaction attrs h))
        ])

  -- What `finish` gives.
  pub finish-wire :
      (kind size : ℕ) (t : Bytes) (attrs : List Attr) (m : MessageBuilder) {packet : Bytes}
      → length t ≡ 12
      → m.bytes ≡ header kind size t ++ wire attrs
      → finish crc32 m ≡ some packet
      → (length (wire attrs) + 8 ≤ 65535) × (packet ≡ finished kind t attrs)
  finish-wire kind size t attrs m h e f =
      let g = sym (finish-branch kind size t attrs m h e) ∙ f in ground arith

  module _ (hmac : Bytes → Bytes → Bytes) (key : Bytes) where
    abbrev pub signed : (kind : ℕ) → Bytes → List Attr → MessageBuilder → MessageBuilder
    signed kind t attrs m =
        add_attribute attr_message_integrity (integrity_of hmac key kind t (wire attrs)).1
          (record m { bytes = header kind (length (wire attrs) + 24) t ++ wire attrs })

    pub finish_authenticated-branch :
        (kind size : ℕ) (t : Bytes) (attrs : List Attr) (m : MessageBuilder)
        → length t ≡ 12
        → m.bytes ≡ header kind size t ++ wire attrs
        → finish_authenticated crc32 hmac key m ≡ (
            if ltb 65535 (length (wire attrs) + 24)
            then none
            else finish crc32 (signed kind t attrs m))
    unfolding finish_authenticated
    finish_authenticated-branch kind size t attrs m h e =
        rw (e, finish_authenticated, set_message_length-header kind size 24 t (wire attrs) h)
          (elim (Bool-cases (ltb 65535 (length (wire attrs) + 24))) [
            | inl large ↦ rw large refl
            | inr fits ↦ rw fits refl
          ])

    -- What `finish_authenticated` gives.
    pub finish_authenticated-wire :
        (kind size : ℕ) (t : Bytes) (attrs : List Attr) (m : MessageBuilder) {packet : Bytes}
        → length t ≡ 12
        → m.bytes ≡ header kind size t ++ wire attrs
        → finish_authenticated crc32 hmac key m ≡ some packet
        → (length (wire (signed_attrs hmac key kind t attrs)) + 8 ≤ 65535)
          × (packet ≡ finished kind t (signed_attrs hmac key kind t attrs))
    unfolding signed_attrs
    finish_authenticated-wire kind size t attrs m h e f =
        finish-wire kind (length (wire attrs) + 24) t (signed_attrs hmac key kind t attrs)
          (signed kind t attrs m) h
          (add_attribute-wire kind (length (wire attrs) + 24) attr_message_integrity
            (integrity_of hmac key kind t (wire attrs)).1 t m.transaction attrs h)
          (let g = sym (finish_authenticated-branch kind size t attrs m h e) ∙ f in ground arith)
