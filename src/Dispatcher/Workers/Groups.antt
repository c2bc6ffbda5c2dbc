-- ===== src/Dispatcher/Workers/Groups.antt =====
-- The workers in groups of one TURN path: a group for each path, in the order of the paths.
use Prim.Native.Nat.{Ordering}
use mathlib.Core.Path.{subst}
use csqtt_antinet_module.ArrayQueue.{ArrayQueue}
use csqtt_antinet_module.Dispatcher.Queue.{QueuedPacket}
use csqtt_antinet_module.Dispatcher.Select.{WorkerChannels}
use csqtt_antinet_module.Dispatcher.Workers.{by_path_and_id, same_path, add_to_groups, grouped}
use csqtt_antinet_module.Prelude.ByteOrder.{
  cmp_bytes, Lt, cmp_bytes_refl, cmp_bytes_eq, cmp_bytes_gt, Lt-trans,
}
use csqtt_antinet_module.Prelude.Sorting.{is_before, Before, IsSorted}
use csqtt_antinet_module.Prelude.{
  ◌≤◌, ◌≡◌, refl, sym, ap, ◌∙◌, ◌⊎◌, inl, inr, Bool, true, false, List, [], ◌∷◌, ◌++◌, arith,
  if-elim, bytes_eq_refl, All, Bytes, bytes_eq, bytes_eq_sound,
}

abbrev pub Le : Bytes → Bytes → Type 0
Le p r = (p ≡ r) ⊎ Lt p r

Le-trans : (p r s : Bytes) → Le p r → Le r s → Le p s
Le-trans p r s (inl e) k = subst (λ t. Le t s) (sym e) k
Le-trans p r s (inr l) (inl e) = inr (subst (λ t. Lt p t) e l)
Le-trans p r s (inr l) (inr k) = inr (Lt-trans p r s l k)

Lt-Le : (p r s : Bytes) → Lt p r → Le r s → Lt p s
Lt-Le p r s l (inl e) = subst (λ t. Lt p t) e l
Lt-Le p r s l (inr k) = Lt-trans p r s l k

order-cases : (o : Ordering) → (o ≡ Ordering.lt) ⊎ ((o ≡ Ordering.eq) ⊎ (o ≡ Ordering.gt))
order-cases Ordering.lt = inl refl
order-cases Ordering.eq = inr (inl refl)
order-cases Ordering.gt = inr (inr refl)

module _ {P : Type 0} (q : ArrayQueue (QueuedPacket P)) where
  abbrev pub Workers : Type 0
  Workers = List (WorkerChannels q)

  -- The numbers in the place of the second comparison.
  IsUpTo : WorkerChannels q → WorkerChannels q → Type 0
  IsUpTo v w = Lt v.turn_path w.turn_path ⊎ ((v.turn_path ≡ w.turn_path) × (v.id ≤ w.id))

  up_to : (v w : WorkerChannels q) → Before (by_path_and_id q) v w → IsUpTo v w
  unfolding by_path_and_id IsUpTo
  up_to v w h = elim (order-cases (cmp_bytes v.turn_path w.turn_path)) [
    | inl e ↦ inl e
    | inr (inl e) ↦ inr (cmp_bytes_eq v.turn_path w.turn_path e, ground arith)
    | inr (inr e) ↦ absurd (ground arith)
  ]

  before : (v w : WorkerChannels q) → IsUpTo v w → Before (by_path_and_id q) v w
  unfolding by_path_and_id IsUpTo
  before v w (inl l) = rw (by_path_and_id, l) refl
  before v w (inr (e, h)) =
      let same = ap (cmp_bytes v.turn_path) (sym e) ∙ cmp_bytes_refl v.turn_path in
      ground (arith, same)

  pub total :
      (v w : WorkerChannels q)
      → is_before (by_path_and_id q) (by_path_and_id q v w) ≡ false
      → Before (by_path_and_id q) w v
  unfolding by_path_and_id IsUpTo
  total v w h = elim (order-cases (cmp_bytes v.turn_path w.turn_path)) [
    | inl e ↦ absurd (ground arith)
    | inr (inl e) ↦ before w v (inr (sym (cmp_bytes_eq v.turn_path w.turn_path e), ground arith))
    | inr (inr e) ↦ before w v (inl (cmp_bytes_gt v.turn_path w.turn_path e))
  ]

  pub trans :
      (u v w : WorkerChannels q)
      → Before (by_path_and_id q) u v
      → Before (by_path_and_id q) v w
      → Before (by_path_and_id q) u w
  unfolding IsUpTo
  trans u v w h k = before u w (chain (up_to u v h) (up_to v w k))
    where
      chain : IsUpTo u v → IsUpTo v w → IsUpTo u w
      chain (inl l) (inl m) = inl (Lt-trans u.turn_path v.turn_path w.turn_path l m)
      chain (inl l) (inr (e, m)) = inl (subst (λ t. Lt u.turn_path t) e l)
      chain (inr (e, l)) (inl m) = inl (subst (λ t. Lt t w.turn_path) (sym e) m)
      chain (inr (e, l)) (inr (f, m)) = inr (e ∙ f, omega arith)

  abbrev pub path_of : Workers → Bytes
  path_of [] = []
  path_of (w ∷ ws) = w.turn_path

  abbrev pub NonEmpty : Workers → Type 0
  NonEmpty [] = ⊥
  NonEmpty (w ∷ ws) = Unit

  -- Groups with workers and with ever greater paths.
  abbrev pub Ascending : List Workers → Type 0
  Ascending [] = Unit
  Ascending (g ∷ gs) = NonEmpty g × (All (λ h. Lt (path_of g) (path_of h)) gs × Ascending gs)

  path-append : (g ws : Workers) → NonEmpty g → path_of (g ++ ws) ≡ path_of g
  path-append [] ws h = absurd h
  path-append (w ∷ g) ws h = refl

  NonEmpty-append : (g ws : Workers) → NonEmpty g → NonEmpty (g ++ ws)
  NonEmpty-append [] ws h = absurd h
  NonEmpty-append (w ∷ g) ws h = tt

  -- What holds of the paths of all groups and of a worker, holds after the worker is added.
  add-All :
      (Q : Bytes → Type 0) (gs : List Workers) (w : WorkerChannels q)
      → Ascending gs
      → All (λ g. Q (path_of g)) gs
      → Q w.turn_path
      → All (λ g. Q (path_of g)) (add_to_groups q gs w)
  unfolding add_to_groups
  add-All Q [] w a h k = (k, tt)
  add-All Q (g ∷ []) w a h k =
      if-elim (All (λ g. Q (path_of g))) (same_path q g w) ((g ++ (w ∷ [])) ∷ [])
        (g ∷ (w ∷ []) ∷ []) (λ e. (subst Q (sym (path-append g (w ∷ []) a.0)) h.0, tt))
        (λ e. (h.0, (k, tt)))
  add-All Q (g ∷ n ∷ gs) w a h k = (h.0, add-All Q (n ∷ gs) w a.1.1 h.1 k)

  differs :
      (g : Workers) (w : WorkerChannels q)
      → NonEmpty g
      → same_path q g w ≡ false
      → Le (path_of g) w.turn_path
      → Lt (path_of g) w.turn_path
  unfolding same_path
  differs [] w n e l = absurd n
  differs (v ∷ g) w n e (inl p) = absurd (
      bad (bytes_eq v.turn_path w.turn_path) e
        (subst (λ t. bytes_eq v.turn_path t ≡ true) p (bytes_eq_refl v.turn_path)))
    where
      bad : (b : Bool) → b ≡ false → b ≡ true → ⊥
      bad b h k = cc
  differs (v ∷ g) w n e (inr p) = p

  add-Ascending :
      (gs : List Workers) (w : WorkerChannels q)
      → Ascending gs
      → All (λ g. Le (path_of g) w.turn_path) gs
      → Ascending (add_to_groups q gs w)
  unfolding add_to_groups
  add-Ascending [] w a h = (tt, (tt, tt))
  add-Ascending (g ∷ []) w a h =
      if-elim Ascending (same_path q g w) ((g ++ (w ∷ [])) ∷ []) (g ∷ (w ∷ []) ∷ [])
        (λ e. (NonEmpty-append g (w ∷ []) a.0, (tt, tt)))
        (λ e. (a.0, ((differs g w a.0 e h.0, tt), (tt, (tt, tt)))))
  add-Ascending (g ∷ n ∷ gs) w a h = (
    a.0,
    (
      add-All (Lt (path_of g)) (n ∷ gs) w a.1.1 a.1.0
          (Lt-Le (path_of g) (path_of n) w.turn_path a.1.0.0 h.1.0),
      add-Ascending (n ∷ gs) w a.1.1 h.1,
    ),
  )

  abbrev pub Follows : List Workers → WorkerChannels q → Type 0
  Follows gs w = All (λ g. Le (path_of g) w.turn_path) gs

  path_le : (v w : WorkerChannels q) → Before (by_path_and_id q) v w → Le v.turn_path w.turn_path
  unfolding IsUpTo
  path_le v w h = elim (up_to v w h) [ inl l ↦ inr l | inr (e, n) ↦ inl e ]

  add-Follows :
      (gs : List Workers) (w : WorkerChannels q) (ws : Workers)
      → Ascending gs
      → All (Before (by_path_and_id q) w) ws
      → All (Follows gs) ws
      → All (Follows (add_to_groups q gs w)) ws
  add-Follows gs w [] a b f = tt
  add-Follows gs w (v ∷ ws) a b f =
      (add-All (λ p. Le p v.turn_path) gs w a f.0 (path_le w v b.0), add-Follows gs w ws a b.1 f.1)

  -- Some group is of a path.
  abbrev pub Occurs : Bytes → List Workers → Type 0
  Occurs p [] = ⊥
  Occurs p (g ∷ gs) = (path_of g ≡ p) ⊎ Occurs p gs

  Occurs-add :
      (p : Bytes) (gs : List Workers) (w : WorkerChannels q)
      → Ascending gs
      → Occurs p gs
      → Occurs p (add_to_groups q gs w)
  unfolding add_to_groups
  Occurs-add p [] w a h = absurd h
  Occurs-add p (g ∷ []) w a h =
      if-elim (Occurs p) (same_path q g w) ((g ++ (w ∷ [])) ∷ []) (g ∷ (w ∷ []) ∷ [])
        (λ e. elim h [ inl k ↦ inl (path-append g (w ∷ []) a.0 ∙ k) | inr k ↦ absurd k ])
        (λ e. elim h [ inl k ↦ inl k | inr k ↦ absurd k ])
  Occurs-add p (g ∷ n ∷ gs) w a (inl k) = inl k
  Occurs-add p (g ∷ n ∷ gs) w a (inr k) = inr (Occurs-add p (n ∷ gs) w a.1.1 k)

  same-path :
      (g : Workers) (w : WorkerChannels q) → same_path q g w ≡ true → path_of g ≡ w.turn_path
  unfolding same_path
  same-path [] w e = absurd (cc)
  same-path (v ∷ g) w e = bytes_eq_sound v.turn_path w.turn_path e

  add-Occurs :
      (gs : List Workers) (w : WorkerChannels q)
      → Ascending gs
      → Occurs w.turn_path (add_to_groups q gs w)
  unfolding add_to_groups
  add-Occurs [] w a = inl refl
  add-Occurs (g ∷ []) w a =
      if-elim (Occurs w.turn_path) (same_path q g w) ((g ++ (w ∷ [])) ∷ []) (g ∷ (w ∷ []) ∷ [])
        (λ e. inl (path-append g (w ∷ []) a.0 ∙ same-path g w e)) (λ e. inr (inl refl))
  add-Occurs (g ∷ n ∷ gs) w a = inr (add-Occurs (n ∷ gs) w a.1.1)

  pub grouped-Ascending :
      (gs : List Workers) (ws : Workers)
      → Ascending gs
      → IsSorted (by_path_and_id q) ws
      → All (Follows gs) ws
      → Ascending (grouped q gs ws)
        × (((p : Bytes) → Occurs p gs → Occurs p (grouped q gs ws))
            × All (λ w. Occurs w.turn_path (grouped q gs ws)) ws)
  unfolding grouped
  grouped-Ascending gs [] a s f = (a, (λ p h. h, tt))
  grouped-Ascending gs (w ∷ ws) a s f =
      let rest =
        grouped-Ascending (add_to_groups q gs w) ws (add-Ascending gs w a f.0) s.1
          (add-Follows gs w ws a s.0 f.1) in
      (
        rest.0,
        (
          λ p h. rest.1.0 p (Occurs-add p gs w a h),
          (rest.1.0 w.turn_path (add-Occurs gs w a), rest.1.1),
        ),
      )
