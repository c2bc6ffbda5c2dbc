-- ===== src/Stun/Attributes.antt =====
-- What the checks of `decode` promise the iterator over the attributes.
use csqtt_antinet_module.Stun.{
  header_size, Attribute, Message, padded, scan, decode, Cursor, attributes, finished, item,
  attribute_at, after, next, collect,
}
use csqtt_antinet_module.Prelude.{
  ℕ, zero, suc, ◌+◌, ◌≤◌, ◌<◌, ◌≡◌, refl, ap, ◌∙◌, inl, inr, none, some, List, [], ◌∷◌, arith, ltb,
  ltb→lt, Bool-cases, length, Bytes, be16_at, length-slice,
}

-- The attributes stand one after the other, each inside the message, from `from` up to `to`.
unfoldable pub Tiles : ℕ → ℕ → List Attribute → Type 0
Tiles from to [] = from ≡ to
Tiles from to (a ∷ xs) =
    (a.header_start ≡ from)
    × (a.value_end ≤ to)
    × (length a.value + (from + 4) ≡ a.value_end)
    × Tiles (from + 4 + padded (length a.value)) to xs

pub next-item :
    (c : Cursor)
    → c.end ≡ length c.raw
    → c.position < c.end
    → c.position + 4 ≤ c.end
    → c.position + 4 + be16_at c.raw (c.position + 2) ≤ c.end
    → next c ≡ item (attribute_at c) (after c)
unfolding next
next-item c e more h l = ground arith

pub next-finished : (c : Cursor) → c.end ≤ c.position → next c ≡ finished
unfolding next
next-finished c h = ground arith

-- What a turn of the scan has found out when the scan finds no fault.
scan-ok :
    (fuel : ℕ) (raw : Bytes) (end position : ℕ)
    → position < end
    → scan (suc fuel) raw end position ≡ none
    → (position + 4 + padded (be16_at raw (position + 2)) ≤ end)
      × (position + 4 + be16_at raw (position + 2) ≤ end)
      × (scan fuel raw end (position + 4 + padded (be16_at raw (position + 2))) ≡ none)
unfolding scan
scan-ok fuel raw end position more s = ground arith

pub collect-step :
    (fuel : ℕ) (c : Cursor) {a : Attribute} {xs : List Attribute}
    → next c ≡ item a (after c)
    → collect fuel (after c) ≡ some xs
    → collect (suc fuel) c ≡ some (a ∷ xs)
unfolding collect
collect-step fuel c e f = rw (e, f, collect) refl

scan-collect :
    (fuel : ℕ) (c : Cursor)
    → c.end ≡ length c.raw
    → c.position ≤ c.end
    → c.end ≤ c.position + fuel
    → scan fuel c.raw c.end c.position ≡ none
    → (xs : List Attribute) × (collect (suc fuel) c ≡ some xs) × Tiles c.position c.end xs
unfolding Tiles collect
scan-collect zero c e le enough s =
    ([], rw (next-finished c (omega arith), collect) refl, omega arith)
scan-collect (suc fuel) c e le enough s = elim (Bool-cases (ltb c.position c.end)) [
  | inr stop ↦ ([], rw (next-finished c (ground arith), collect) refl, ground arith)
  | inl go ↦
      let more = ltb→lt c.position c.end go in
      let (a, b, r) = scan-ok fuel c.raw c.end c.position more s in
      let (xs, f, t) = scan-collect fuel (after c) e a (omega arith) r in
      let size : length (attribute_at c).value ≡ be16_at c.raw (c.position + 2) =
        length-slice c.raw (c.position + 4) (c.position + 4 + be16_at c.raw (c.position + 2))
          (omega arith) (omega arith)
        ∙ omega arith in
      (
        attribute_at c ∷ xs,
        collect-step (suc fuel) c (next-item c e more (omega arith) b) f,
        (refl, b, omega (arith, size), rw (ap (λ (k : ℕ). c.position + 4 + padded k) size) t),
      )
]

-- What a message that decodes has passed.
decode_ok :
    (raw : Bytes) {m : Message}
    → decode raw ≡ inr m
    → (m.raw ≡ raw)
      × (m.end ≡ length m.raw)
      × (header_size ≤ m.end)
      × (scan (length m.raw) m.raw m.end header_size ≡ none)
unfolding decode
decode_ok raw {m} e = ground arith

-- A message that decodes has attributes that stand one after the other and fill it: the iterator
-- over them comes to an end and never reads outside the message.
pub decode-attributes :
    (raw : Bytes) {m : Message}
    → decode raw ≡ inr m
    → (xs : List Attribute) × (collect (suc (length m.raw)) (attributes m) ≡ some xs)
      × Tiles header_size m.end xs
      × (m.raw ≡ raw)
      × (m.end ≡ length m.raw)
unfolding attributes
decode-attributes raw {m} e =
    let (raw_eq, end_eq, size, s) = decode_ok raw e in
    let (xs, f, t) = scan-collect (length m.raw) (attributes m) end_eq size (omega arith) s in
    (xs, f, t, raw_eq, end_eq)
