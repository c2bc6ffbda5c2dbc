-- ===== src/Turn/Builder/Reads.antt =====
-- What `decode` and the iterator over the attributes read of the bytes that a builder writes.
use csqtt_antinet_module.Stun.{
  magic_cookie, header_size, Attribute, Message, padded, scan, decode, Cursor, attribute_at, after,
  collect,
}
use csqtt_antinet_module.Stun.Attributes.{next-item, next-finished, collect-step}
use csqtt_antinet_module.Turn.Builder.Wire.{
  Attr, attr_bytes, wire, header, length-header, length-attr_bytes, length-wire-mod, zeros,
}
use csqtt_antinet_module.Prelude.{
  ℕ, zero, suc, ◌+◌, ◌-◌, ◌/◌, ◌%◌, ◌≤◌, ◌<◌, ◌≡◌, refl, sym, ap, ◌∙◌, ◌≢◌, inr, true, false, none,
  some, List, [], ◌∷◌, ◌++◌, arith, ◌==◌, length, get_or, drop, length-append, take-length-append,
  All, Bytes, slice, byte, be16_at, bytes_eq,
}
use csqtt_antinet_module.Prelude.{to_be}
use mathlib.Core.List.{append-nil, append_assoc}

-- An attribute that the iterator gives back as it was written: its fields fit their words, and it is
-- not of the kind that the iterator renames.
pub record IsAttr (a : Attr) : Type 0 where
  pub kind_range : a.0 < 65536
  pub kind_kept : a.0 ≢ 0x8020
  pub size_range : length a.1 < 65536

-- The attributes of a message that stand from `from` on.
unfoldable pub items : ℕ → List Attr → List Attribute
items from [] = []
items from ((kind, value) ∷ attrs) =
    record { kind = kind; value = value; header_start = from; value_end = from + 4 + length value }
    ∷ items (from + 4 + padded (length value)) attrs

get_or-append : (p q : Bytes) (i d : ℕ) → get_or (p ++ q) (length p + i) d ≡ get_or q i d
get_or-append [] q i d = let e : 0 + i ≡ i = omega arith in rw e refl
get_or-append (b ∷ p) q i d =
    let e : suc (length p) + i ≡ suc (length p + i) = omega arith in rw e (get_or-append p q i d)

drop-append : (p q : Bytes) (n : ℕ) → drop (length p + n) (p ++ q) ≡ drop n q
drop-append [] q n = let e : 0 + n ≡ n = omega arith in rw e refl
drop-append (b ∷ p) q n =
    let e : suc (length p) + n ≡ suc (length p + n) = omega arith in rw e (drop-append p q n)

-- What stands at an attribute behind `front`.
module _ (front : Bytes) (kind : ℕ) (value rest : Bytes) where
  abbrev raw : Bytes
  raw = front ++ (attr_bytes (kind, value) ++ rest)

  kind_at : kind < 65536 → be16_at raw (length front) ≡ kind
  unfolding attr_bytes to_be
  kind_at h =
      let here : length front ≡ length front + 0 = omega arith in
      let high : byte raw (length front) ≡ kind / 256 % 256 =
        ap (λ (i : ℕ). byte raw i) here
        ∙ get_or-append front (attr_bytes (kind, value) ++ rest) 0 0 in
      omega (arith, high, get_or-append front (attr_bytes (kind, value) ++ rest) 1 0)

  size_at : length value < 65536 → be16_at raw (length front + 2) ≡ length value
  unfolding attr_bytes to_be
  size_at h =
      let e : length front + 2 + 1 ≡ length front + 3 = omega arith in
      rw e (
        omega (
          arith,
          get_or-append front (attr_bytes (kind, value) ++ rest) 2 0,
          get_or-append front (attr_bytes (kind, value) ++ rest) 3 0,
        ))

  value_at : slice raw (length front + 4) (length front + 4 + length value) ≡ value
  unfolding attr_bytes to_be
  value_at =
      let e : length front + 4 + length value - (length front + 4) ≡ length value = omega arith in
      rw (e, drop-append front (attr_bytes (kind, value) ++ rest) 4)
        (rw (append_assoc value (zeros (length value)) rest)
          (take-length-append value (zeros (length value) ++ rest)))

  length-raw : length raw ≡ length front + (4 + padded (length value) + length rest)
  length-raw = omega (
    arith,
    length-append front (attr_bytes (kind, value) ++ rest),
    length-append (attr_bytes (kind, value)) rest,
    length-attr_bytes (kind, value),
  )

  -- The position behind the attribute.
  length-past :
      length (front ++ attr_bytes (kind, value)) ≡ length front + 4 + padded (length value)
  length-past =
      omega (arith, length-append front (attr_bytes (kind, value)), length-attr_bytes (kind, value))

-- The checks of `decode` find no fault in the attributes.
scan-wire :
    (fuel : ℕ) (front : Bytes) (attrs : List Attr) (raw : Bytes)
    → All IsAttr attrs
    → raw ≡ front ++ wire attrs
    → scan fuel raw (length raw) (length front) ≡ none
unfolding scan wire
scan-wire zero front attrs raw h e = refl
scan-wire (suc fuel) front [] raw h e =
    let l : length raw ≡ length front = rw (e, append-nil) refl in rw l (ground arith)
scan-wire (suc fuel) front ((kind, value) ∷ attrs) raw h e =
    let s : be16_at raw (length front + 2) ≡ length value =
      rw e (size_at front kind value (wire attrs) h.0.size_range) in
    let l : length raw ≡ length front + (4 + padded (length value) + length (wire attrs)) =
      rw e (length-raw front kind value (wire attrs)) in
    let rest : scan fuel raw (length raw) (length front + 4 + padded (length value)) ≡ none =
      rw (← length-past front kind value (wire attrs)) (
        scan-wire fuel (front ++ attr_bytes (kind, value)) attrs raw h.1
          (e ∙ sym (append_assoc front (attr_bytes (kind, value)) (wire attrs)))) in
    rw s (ground arith)

-- The iterator gives the attributes in order and then stops.
pub collect-wire :
    (fuel : ℕ) (front : Bytes) (attrs : List Attr) (raw : Bytes)
    → All IsAttr attrs
    → raw ≡ front ++ wire attrs
    → length attrs < fuel
    → collect fuel (record { raw = raw; position = length front; end = length raw })
      ≡ some (items (length front) attrs)
unfolding collect wire items
collect-wire zero front attrs raw h e lt = absurd (omega arith)
collect-wire (suc fuel) front [] raw h e lt =
    let l : length raw ≡ length front = rw (e, append-nil) refl in
    rw
      (
        next-finished (record { raw = raw; position = length front; end = length raw })
            (omega arith),
        collect,
      )
      refl
collect-wire (suc fuel) front ((kind, value) ∷ attrs) raw h e lt =
    let rest = wire attrs in
    let k : be16_at raw (length front) ≡ kind =
      rw e (kind_at front kind value rest h.0.kind_range) in
    let s : be16_at raw (length front + 2) ≡ length value =
      rw e (size_at front kind value rest h.0.size_range) in
    let v : slice raw (length front + 4) (length front + 4 + length value) ≡ value =
      rw e (value_at front kind value rest) in
    let l : length raw ≡ length front + (4 + padded (length value) + length rest) =
      rw e (length-raw front kind value rest) in
    let c : Cursor = record { raw = raw; position = length front; end = length raw } in
    let kept : (kind == 0x8020) ≡ false = let ne = h.0.kind_kept in ground arith in
    let a : attribute_at c ≡ record {
      kind = kind;
      value = value;
      header_start = length front;
      value_end = length front + 4 + length value;
    } =
      rw (k, s, v, kept) refl in
    let p : collect fuel (after c) ≡ some (items (length front + 4 + padded (length value)) attrs) =
      rw (s, ← length-past front kind value rest)
        (collect-wire fuel (front ++ attr_bytes (kind, value)) attrs raw h.1
          (e ∙ sym (append_assoc front (attr_bytes (kind, value)) rest)) (omega arith)) in
    collect-step fuel c (next-item c refl (omega arith) (omega arith) (omega (arith, s))) p
    ∙ rw a refl

pub length-le-wire : (attrs : List Attr) → length attrs ≤ length (wire attrs)
unfolding wire
length-le-wire [] = omega arith
length-le-wire (a ∷ attrs) =
    omega
      (arith, length-append (attr_bytes a) (wire attrs), length-attr_bytes a, length-le-wire attrs)

-- The message that the decoder makes of a header and attributes.
abbrev pub message : (kind : ℕ) → Bytes → List Attr → Message
message kind t attrs =
    let raw = header kind (length (wire attrs)) t ++ wire attrs in
    record { raw = raw; kind = kind; transaction = t; end = length raw }

pub decode-header :
    (kind : ℕ) (t : Bytes) (attrs : List Attr)
    → 0 < kind
    → kind < 0x4000
    → length t ≡ 12
    → length (wire attrs) ≤ 65535
    → All IsAttr attrs
    → decode (header kind (length (wire attrs)) t ++ wire attrs) ≡ inr (message kind t attrs)
unfolding decode
decode-header kind t attrs pos small size fits h =
    let raw : Bytes = header kind (length (wire attrs)) t ++ wire attrs in
    let l : length raw ≡ 20 + length (wire attrs) = omega (
      arith,
      length-append (header kind (length (wire attrs)) t) (wire attrs),
      length-header kind (length (wire attrs)) t size,
    ) in
    let k : be16_at raw 0 ≡ kind = unfold header to_be in omega arith in
    let n : be16_at raw 2 ≡ length (wire attrs) = unfold header to_be in omega arith in
    let c : bytes_eq (slice raw 4 8) magic_cookie ≡ true = unfold header to_be bytes_eq in refl in
    let t_eq : slice raw 8 20 ≡ t =
      unfold header to_be in rw (← size) (take-length-append t (wire attrs)) in
    let s : scan (length raw) raw (length raw) header_size ≡ none =
      rw (← length-header kind (length (wire attrs)) t size)
        (scan-wire (length raw) (header kind (length (wire attrs)) t) attrs raw h refl) in
    let m : length (wire attrs) % 4 ≡ 0 = length-wire-mod attrs in ground arith
