-- ===== src/Dispatcher/Spare/Tracker.antt =====
-- The count of spares stays small, for each flow and over all.
use csqtt_antinet_module.Dispatcher.Spare.{
  quic_spare_flow_cap, Tracker, spares, set_spares, retain, trimmed, spare_for_key,
}
use csqtt_antinet_module.Prelude.{
  ℕ, ◌+◌, ◌≤◌, ◌<◌, ◌≡◌, refl, ap, ◌∙◌, ◌⊎◌, inl, inr, true, false, [], ◌∷◌, arith, ltb, leb, ◌==◌,
  leb→le, ==_iff, Bool-cases, length, All,
}

length-set_spares :
    (key count : ℕ) (map : Tracker) → length (set_spares key count map) ≤ length map + 1
unfolding set_spares
length-set_spares key count [] = omega arith
length-set_spares key count ((k, n) ∷ map) = ground (arith, length-set_spares key count map)

spares-set_spares : (key count : ℕ) (map : Tracker) → spares key (set_spares key count map) ≡ count
unfolding set_spares spares
spares-set_spares key count [] = rw ((==_iff key key).1 refl) refl
spares-set_spares key count ((k, n) ∷ map) = elim (Bool-cases (k == key)) [
  | inl same ↦ rw same (rw same refl)
  | inr other ↦ rw other (rw other (spares-set_spares key count map))
]

-- Writing back the count that is there changes nothing.
set_spares-same :
    (key : ℕ) (map : Tracker) → 0 < spares key map → set_spares key (spares key map) map ≡ map
unfolding set_spares spares
set_spares-same key [] h = absurd (omega arith)
set_spares-same key ((k, n) ∷ map) h = elim (Bool-cases (k == key)) [
  | inl same ↦ rw same refl
  | inr other ↦
      let later : spares key ((k, n) ∷ map) ≡ spares key map = rw (other, spares) refl in
      let skipped : set_spares key (spares key map) ((k, n) ∷ map)
          ≡ (k, n) ∷ set_spares key (spares key map) map =
        rw (other, set_spares) refl in
      ap (λ (c : ℕ). set_spares key c ((k, n) ∷ map)) later
      ∙ skipped
      ∙ ap (λ (r : Tracker). (k, n) ∷ r) (set_spares-same key map (rw later at h))
]

-- At most 256 flows are counted, each with at most two spares.
pub record IsTracker (map : Tracker) : Type 0 where
  pub size : length map ≤ quic_spare_flow_cap
  pub counts : All (λ (e : ℕ × ℕ). e.1 ≤ 2) map

counts-set_spares :
    (key count : ℕ) (map : Tracker)
    → All (λ (e : ℕ × ℕ). e.1 ≤ 2) map
    → count ≤ 2
    → All (λ (e : ℕ × ℕ). e.1 ≤ 2) (set_spares key count map)
unfolding set_spares
counts-set_spares key count [] v h = (h, v)
counts-set_spares key count ((k, n) ∷ map) v h = elim (Bool-cases (k == key)) [
  | inl same ↦ rw same (h, v.1)
  | inr other ↦ rw other (v.0, counts-set_spares key count map v.1 h)
]

counts-retain :
    (map : Tracker) → All (λ (e : ℕ × ℕ). e.1 ≤ 2) map → All (λ (e : ℕ × ℕ). e.1 ≤ 2) (retain map)
unfolding retain
counts-retain [] v = v
counts-retain ((k, n) ∷ map) v = elim (Bool-cases (ltb n 2)) [
  | inl few ↦ rw few (v.0, counts-retain map v.1)
  | inr many ↦ rw many (counts-retain map v.1)
]

trimmed-IsTracker :
    (key : ℕ) (map : Tracker) → All (λ (e : ℕ × ℕ). e.1 ≤ 2) map → IsTracker (trimmed key map)
trimmed-IsTracker key map v = elim (Bool-cases (leb (length map) quic_spare_flow_cap)) [
  | inl fits ↦ rw fits (record { size = leb→le (length map) 256 fits; counts = v })
  | inr over ↦ elim (Bool-cases (leb (length (retain map)) quic_spare_flow_cap)) [
    | inl kept ↦
        rw (over, kept)
          (record { size = leb→le (length (retain map)) 256 kept; counts = counts-retain map v })
    | inr still ↦ rw (over, still) (record { size = omega arith; counts = (omega arith, tt) })
  ]
]

-- A flow gets no third spare while it is counted and otherwise gets one; whatever the flow, at most
-- 256 flows are counted afterwards, each with at most two spares.
spare_for_key_lem :
    (key : ℕ) (map : Tracker)
    → IsTracker map
    → (((2 ≤ spares key map) × (spare_for_key key map ≡ (false, map)))
        ⊎ ((spares key map < 2) × ((spare_for_key key map).0 ≡ true)))
      × IsTracker (spare_for_key key map).1
unfolding spare_for_key
spare_for_key_lem key map v = elim (Bool-cases (leb 2 (spares key map))) [
  | inl used ↦
      let enough = leb→le 2 (spares key map) used in
      let same = set_spares-same key map (omega arith) in
      rw (used, same, spare_for_key) (inl (enough, refl), v)
  | inr left ↦
      rw (left, spare_for_key)
        (
          inr (ground (arith, left), refl),
          trimmed-IsTracker key (set_spares key (spares key map + 1) map)
              (counts-set_spares key (spares key map + 1) map v.counts (ground (arith, left))),
        )
]
