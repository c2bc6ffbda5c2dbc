-- ===== src/Dispatcher/FastPath/Fair.antt =====
-- Where the packets of each class go, and that the slot names a worker.
mod Tests
use csqtt_antinet_module.Dispatcher.FastPath.{
  RoundRobinCursor, Cursors, start_cursors, cursor, set_cursor, advance, FastPathScheduler,
  sync_worker_count, begin_for_class,
}
use csqtt_antinet_module.Scheduler.Classes.{PacketClass, small, medium, bulk, index, stream_chunk}
use native.Mathlib.Nat.{suc-mod, mod-lt, mod-eq_of_lt, mod_self, zero-add, add_comm, zero-mod}
use csqtt_antinet_module.Prelude.{
  ℕ, suc, ◌+◌, ◌-◌, ◌/◌, ◌%◌, ◌<◌, ◌≡◌, refl, sym, ap, ◌∙◌, ◌≢◌, inl, inr, true, false, some, List,
  [], ◌∷◌, arith, ◌==◌, if◌then◌else◌, ==_iff, Bool-cases,
}

-- Where the cursor of a class stands after `k` of its packets.
abbrev pub place : (worker_count chunk k : ℕ) → RoundRobinCursor
place worker_count chunk k = record {
  current_worker = k / chunk % worker_count;
  remaining = (chunk - k % chunk) % chunk;
}

suc-mod_as : (m n : ℕ) → (m + 1) % n ≡ (m % n + 1) % n
suc-mod_as m n =
    let left : m + 1 ≡ suc m = omega arith in
    let right : m % n + 1 ≡ suc (m % n) = omega arith in
    ap (λ (j : ℕ). j % n) left ∙ suc-mod m n ∙ ap (λ (j : ℕ). j % n) (sym right)

unequal : {a b : ℕ} → (a == b) ≡ false → a ≢ b
unequal {a} {b} e h = ground arith

turn_mod : (m n : ℕ) → 0 < n → (if m % n + 1 == n then 0 else m % n + 1) ≡ (m + 1) % n
turn_mod m n h = elim (Bool-cases (m % n + 1 == n)) [
  | inl last ↦
      rw last
        (sym (suc-mod_as m n ∙ ap (λ (j : ℕ). j % n) ((==_iff (m % n + 1) n).0 last) ∙ mod_self n))
  | inr more ↦
      rw more (sym (suc-mod_as m n ∙ mod-eq_of_lt (omega (arith, mod-lt m h, unequal more))))
]

advance-place_of :
    (count chunk k : ℕ)
    → 0 < count
    → (if (chunk - k % chunk) % chunk == 0 then chunk else (chunk - k % chunk) % chunk) - 1
      ≡ (chunk - (k + 1) % chunk) % chunk
    → (k + 1) / chunk
      ≡ (if (chunk - (k + 1) % chunk) % chunk == 0 then k / chunk + 1 else k / chunk)
    → advance count chunk (place count chunk k) ≡ place count chunk (k + 1)
advance-place_of count chunk k h r q = elim (Bool-cases ((chunk - (k + 1) % chunk) % chunk == 0)) [
  | inl ends ↦
      let slot : (k + 1) / chunk ≡ k / chunk + 1 = rw ends at q in
      rw (r, ends, slot)
        (ap
          (λ (j : ℕ). record { current_worker = j; remaining = (chunk - (k + 1) % chunk) % chunk })
          (turn_mod (k / chunk) count h))
  | inr goes_on ↦
      let slot : (k + 1) / chunk ≡ k / chunk = rw goes_on at q in rw (r, goes_on, slot) refl
]

advance-place :
    (class : PacketClass) (count k : ℕ)
    → 0 < count
    → advance count (stream_chunk class) (place count (stream_chunk class) k)
      ≡ place count (stream_chunk class) (k + 1)
unfolding stream_chunk
advance-place small count k h = advance-place_of count 4 k h (ground arith) (ground arith)
advance-place medium count k h = advance-place_of count 16 k h (ground arith) (ground arith)
advance-place bulk count k h = advance-place_of count 32 k h (ground arith) (ground arith)

start-place :
    (count : ℕ) (class : PacketClass)
    → cursor class start_cursors ≡ place count (stream_chunk class) 0
unfolding cursor stream_chunk
start-place count small =
    ap (λ (j : ℕ). record { current_worker = j; remaining = 0 }) (sym (zero-mod count))
start-place count medium =
    ap (λ (j : ℕ). record { current_worker = j; remaining = 0 }) (sym (zero-mod count))
start-place count bulk =
    ap (λ (j : ℕ). record { current_worker = j; remaining = 0 }) (sym (zero-mod count))

unfoldable pub seen : PacketClass → List PacketClass → ℕ
seen class [] = 0
seen class (other ∷ classes) = (if index class == index other then 1 else 0) + seen class classes

cursor-set_cursor :
    (class other : PacketClass) (c : RoundRobinCursor) (cs : Cursors)
    → cursor class (set_cursor other c cs)
      ≡ (if index class == index other then c else cursor class cs)
unfolding cursor set_cursor index
cursor-set_cursor small small c cs = refl
cursor-set_cursor small medium c cs = refl
cursor-set_cursor small bulk c cs = refl
cursor-set_cursor medium small c cs = refl
cursor-set_cursor medium medium c cs = refl
cursor-set_cursor medium bulk c cs = refl
cursor-set_cursor bulk small c cs = refl
cursor-set_cursor bulk medium c cs = refl
cursor-set_cursor bulk bulk c cs = refl

index-injective : (a b : PacketClass) → (index a == index b) ≡ true → a ≡ b
unfolding index
index-injective small small e = refl
index-injective small medium e = absurd cc
index-injective small bulk e = absurd cc
index-injective medium small e = absurd cc
index-injective medium medium e = refl
index-injective medium bulk e = absurd cc
index-injective bulk small e = absurd cc
index-injective bulk medium e = absurd cc
index-injective bulk bulk e = refl

module _ (W : Type 0) where
  -- So many packets of each class have been given a worker, of `count`.
  pub record HasDispatched (count : ℕ) (f : PacketClass → ℕ) (s : FastPathScheduler W)
      : Type 0 where
    pub workers : s.worker_count ≡ count
    pub places :
        (class : PacketClass) → cursor class s.cursors ≡ place count (stream_chunk class) (f class)

  -- The scheduler after packets of these classes, the number of workers unchanged.
  unfoldable pub after : ℕ → List PacketClass → FastPathScheduler W → FastPathScheduler W
  after count [] s = s
  after count (class ∷ classes) s = after count classes (begin_for_class W count class s).1

  begin_for_class-same :
      (count : ℕ) (class : PacketClass) (s : FastPathScheduler W)
      → 0 < count
      → s.worker_count ≡ count
      → begin_for_class W count class s ≡ (
        some (record { start_slot = (cursor class s.cursors).current_worker; class = class }),
        record s {
          cursors =
              set_cursor class
                (advance count (stream_chunk class) (cursor class s.cursors))
                s.cursors;
        },
      )
  unfolding begin_for_class sync_worker_count
  begin_for_class-same count class s h w =
      let workers : (count == 0) ≡ false = ground (arith, h) in
      let same : (s.worker_count == count) ≡ true = (==_iff s.worker_count count).1 w in
      rw (workers, same, begin_for_class, sync_worker_count) refl

  begin_for_class-step :
      (count : ℕ) (class : PacketClass) (f : PacketClass → ℕ) (s : FastPathScheduler W)
      → 0 < count
      → HasDispatched count f s
      → ((begin_for_class W count class s).0
          ≡ some (record { start_slot = f class / stream_chunk class % count; class = class }))
        × HasDispatched count
            (λ (c : PacketClass). (if index c == index class then 1 else 0) + f c)
            (begin_for_class W count class s).1
  begin_for_class-step count class f s h v =
      let e = begin_for_class-same count class s h v.workers in
      rw e (
        ap
            (λ (c : RoundRobinCursor).
              some (record { start_slot = c.current_worker; class = class }))
            (v.places class),
        record {
          workers = v.workers;
          places = λ c. cursor-set_cursor c class moved s.cursors ∙ place_of c;
        },
      )
    where
      moved : RoundRobinCursor
      moved = advance count (stream_chunk class) (cursor class s.cursors)

      place_of :
          (c : PacketClass)
          → (if index c == index class then moved else cursor c s.cursors)
            ≡ place count (stream_chunk c) ((if index c == index class then 1 else 0) + f c)
      place_of c = elim (Bool-cases (index c == index class)) [
        | inr other ↦
            rw other
              (v.places c ∙ ap (λ (k : ℕ). place count (stream_chunk c) k) (sym (zero-add (f c))))
        | inl same ↦
            let is : c ≡ class = index-injective c class same in
            rw (same, is)
              (ap (λ (d : RoundRobinCursor). advance count (stream_chunk class) d) (v.places class)
                ∙ advance-place class count (f class) h
                ∙ ap (λ (k : ℕ). place count (stream_chunk class) k) (add_comm (f class) 1))
      ]

  after-HasDispatched :
      (count : ℕ) (classes : List PacketClass) (f : PacketClass → ℕ) (s : FastPathScheduler W)
      → 0 < count
      → HasDispatched count f s
      → HasDispatched count (λ (c : PacketClass). seen c classes + f c) (after count classes s)
  unfolding after seen
  after-HasDispatched count [] f s h v = record {
    workers = v.workers;
    places = λ c. rw (zero-add (f c)) (v.places c);
  }
  after-HasDispatched count (class ∷ classes) f s h v =
      let (ticket, w) = begin_for_class-step count class f s h v in
      let u =
        after-HasDispatched count classes
          (λ (c : PacketClass). (if index c == index class then 1 else 0) + f c)
          (begin_for_class W count class s).1 h w in
      record {
        workers = u.workers;
        places = λ c. u.places c ∙ ap (λ (k : ℕ). place count (stream_chunk c) k) (regroup c);
      }
    where
      regroup :
          (c : PacketClass)
          → seen c classes + ((if index c == index class then 1 else 0) + f c)
            ≡ (if index c == index class then 1 else 0) + seen c classes + f c
      regroup c = omega arith

  -- With an unchanged number of workers, each class goes round them on its own: a packet of a class
  -- of which `k` packets have gone before is given slot `k / chunk % count`, in chunks of 4, 16 and
  -- 32 packets for the small, medium and bulk classes, whatever other packets came in between.
  pub begin_for_class_lem :
      (count : ℕ) (classes : List PacketClass) (class : PacketClass) (s : FastPathScheduler W)
      → 0 < count
      → s.worker_count ≡ count
      → s.cursors ≡ start_cursors
      → ((begin_for_class W count class (after count classes s)).0
          ≡ some (record {
            start_slot = seen class classes / stream_chunk class % count;
            class = class;
          }))
        × (seen class classes / stream_chunk class % count < count)
  begin_for_class_lem count classes class s h w c =
      let fresh : HasDispatched count (λ (k : PacketClass). 0) s = record {
        workers = w;
        places = λ k. ap (cursor k) c ∙ start-place count k;
      } in
      let v = after-HasDispatched count classes (λ (k : PacketClass). 0) s h fresh in
      let none_yet : seen class classes + 0 ≡ seen class classes = omega arith in
      (
        rw (← none_yet)
            (begin_for_class-step count class (λ (k : PacketClass). seen k classes + 0)
              (after count classes s) h v).0,
        mod-lt (seen class classes / stream_chunk class) h,
      )
