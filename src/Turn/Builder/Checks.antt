-- ===== src/Turn/Builder/Checks.antt =====
-- What the checks of a received message come to for one that a builder has written.
use csqtt_antinet_module.Stun.{
  header_size, attr_fingerprint, fingerprint_xor, Attribute, Message, padded, attributes, collect,
  find, attribute, fingerprint_valid,
}
use csqtt_antinet_module.Turn.Builder.{attr_message_integrity, signed_part, verify_integrity}
use csqtt_antinet_module.Turn.Builder.Wire.{
  Attr, attr_bytes, wire, header, length-header, length-attr_bytes, wire-append,
}
use csqtt_antinet_module.Turn.Builder.Reads.{IsAttr, items, message, collect-wire, length-le-wire}
use mathlib.Core.List.{append_assoc}
use csqtt_antinet_module.Prelude.{
  ℕ, suc, ◌+◌, ◌-◌, ◌≤◌, bit_xor, ◌≡◌, refl, ap, ◌≢◌, true, false, some, List, [], ◌∷◌, ◌++◌, arith,
  ◌==◌, length, take, length-append, take-length-append, All, Bytes, from_be, bytes_eq,
}
use csqtt_antinet_module.Prelude.{bytes_eq_refl, to_be}

-- The iterator over a built message, from the header on.
pub collect-message :
    (kind : ℕ) (t : Bytes) (attrs : List Attr)
    → length t ≡ 12
    → All IsAttr attrs
    → collect (suc (length (message kind t attrs).raw)) (attributes (message kind t attrs))
      ≡ some (items header_size attrs)
unfolding attributes
collect-message kind t attrs size h =
    let head = header kind (length (wire attrs)) t in
    let l = length-header kind (length (wire attrs)) t size in
    rw l at (
      collect-wire (suc (length (head ++ wire attrs))) head attrs (head ++ wire attrs) h refl
        (omega (arith, length-append head (wire attrs), length-le-wire attrs)))

-- The first attribute of a kind that the attributes before it do not have.
pub find-items :
    (from : ℕ) (attrs : List Attr) (kind : ℕ) (value : Bytes) (rest : List Attr)
    → All (λ a. a.0 ≢ kind) attrs
    → find kind (items from (attrs ++ (kind, value) ∷ rest))
      ≡ some (record {
        kind = kind;
        value = value;
        header_start = from + length (wire attrs);
        value_end = from + length (wire attrs) + 4 + length value;
      })
unfolding find items wire
find-items from [] kind value rest h =
    let e : from ≡ from + 0 = omega arith in
    let k : (kind == kind) ≡ true = ground arith in rw (k, ← e) refl
find-items from ((k, v) ∷ attrs) kind value rest h =
    let skip : (k == kind) ≡ false = let ne = h.0 in ground arith in
    let e : from + 4 + padded (length v) + length (wire attrs)
        ≡ from + length (attr_bytes (k, v) ++ wire attrs) =
      omega (arith, length-append (attr_bytes (k, v)) (wire attrs), length-attr_bytes (k, v)) in
    rw (skip, ← e) (find-items (from + 4 + padded (length v)) attrs kind value rest h.1)

abbrev pub found_at : (kind : ℕ) → Bytes → (before : List Attr) → Attribute
found_at kind value before = record {
  kind = kind;
  value = value;
  header_start = header_size + length (wire before);
  value_end = header_size + length (wire before) + 4 + length value;
}

pub attribute-message :
    (kind : ℕ) (t : Bytes) (before : List Attr) (k : ℕ) (value : Bytes) (rest : List Attr)
    → length t ≡ 12
    → All IsAttr (before ++ (k, value) ∷ rest)
    → All (λ a. a.0 ≢ k) before
    → attribute k (message kind t (before ++ (k, value) ∷ rest))
      ≡ some (some (found_at k value before))
unfolding attribute
attribute-message kind t before k value rest size h ne =
    rw (attribute, collect-message kind t (before ++ (k, value) ∷ rest) size h)
      (ap some (find-items header_size before k value rest ne))

-- The part of a message in front of the attributes behind `before`.
pub take-message :
    (head : Bytes) (before after : List Attr)
    → length head ≡ header_size
    → take (header_size + length (wire before)) (head ++ wire (before ++ after))
      ≡ head ++ wire before
take-message head before after h =
    rw (wire-append before after, ← append_assoc head (wire before) (wire after))
      (let e : header_size + length (wire before) ≡ length (head ++ wire before) =
          omega (arith, length-append head (wire before), h) in
        rw e (take-length-append (head ++ wire before) (wire after)))

pub fingerprint_check :
    (crc32 : Bytes → ℕ) (m : Message) (a : Attribute)
    → attribute attr_fingerprint m ≡ some (some a)
    → length a.value ≡ 4
    → a.header_start + 8 ≡ m.end
    → from_be a.value ≡ bit_xor (crc32 (take a.header_start m.raw)) fingerprint_xor
    → fingerprint_valid crc32 m ≡ some (some true)
unfolding fingerprint_valid
fingerprint_check crc32 m a e l p c = ground arith

pub integrity_check :
    (hmac : Bytes → Bytes → Bytes) (key packet : Bytes) (m : Message) (a : Attribute)
    → attribute attr_message_integrity m ≡ some (some a)
    → length a.value ≡ 20
    → 20 ≤ a.header_start
    → a.header_start + 4 ≤ 65535
    → hmac key (signed_part packet a.header_start) ≡ a.value
    → verify_integrity hmac packet m (some key) ≡ true
unfolding verify_integrity
integrity_check hmac key packet m a e l low high same =
    let s : bytes_eq (hmac key (signed_part packet a.header_start)) a.value ≡ true =
      rw same (bytes_eq_refl a.value) in
    ground arith

pub signed_part-header :
    (kind size other : ℕ) (t body : Bytes) (packet : Bytes)
    → length t ≡ 12
    → take (header_size + length body) packet ≡ header kind size t ++ body
    → other ≡ length body + 24
    → signed_part packet (header_size + length body) ≡ header kind other t ++ body
unfolding signed_part header to_be
signed_part-header kind size other t body packet h e o =
    let n : header_size + length body + 24 - 20 ≡ other = omega arith in rw (e, n) refl
