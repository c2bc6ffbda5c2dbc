-- ===== src/Idle/Losses/Calls.antt =====
-- Lists of calls for lost paths: their workers, and one call that has changed.
use csqtt_antinet_module.Idle.{LostStage, called, returned, LostCall}
use mathlib.Core.Path.{subst}
use csqtt_antinet_module.Prelude.{
  ℕ, zero, suc, ◌≡◌, refl, sym, ap, ◌∙◌, ◌≢◌, inl, inr, Option, none, some, List, [], ◌∷◌, arith,
  ◌==◌, ==_iff, Bool-cases, get_elem?, set, get_elem?-set, get_elem?-set_other,
}

-- The calls for the workers, before their first operation.
abbrev pub calls_of : List ℕ → List LostCall
calls_of [] = []
calls_of (w ∷ ws) = record { worker_id = w; stage = called } ∷ calls_of ws

abbrev pub HasReturned : LostCall → Type 0
HasReturned c = c.stage ≡ returned

-- A call is at an index, and what the others know holds of all calls but that one.
abbrev pub All-others : (i : ℕ) → (LostCall → Type 0) → List LostCall → Type 0
All-others i Q calls = (j : ℕ) (c : LostCall) → j ≢ i → get_elem? calls j ≡ some c → Q c

abbrev pub workers : List LostCall → List ℕ
workers [] = []
workers (c ∷ calls) = c.worker_id ∷ workers calls

-- What holds of the new call at an index and of the calls at the others.
pub at_set :
    (Q : ℕ → LostCall → Type 0) (calls : List LostCall) (k : ℕ) (v : LostCall) {c : LostCall}
    → get_elem? calls k ≡ some c
    → ((j : ℕ) (d : LostCall) → j ≢ k → get_elem? calls j ≡ some d → Q j d)
    → Q k v
    → (j : ℕ) (d : LostCall) → get_elem? (set calls k v) j ≡ some d
    → Q j d
at_set Q calls k v here rest new j d g = elim (Bool-cases (j == k)) [
  | inl same ↦
      let is_k : j ≡ k = (==_iff j k).0 same in
      let is_v : v ≡ d = same_call (
        sym (get_elem?-set calls k v here)
        ∙ subst (λ x. get_elem? (set calls k v) x ≡ some d) is_k g) in
      subst (λ x. Q x d) (sym is_k) (subst (Q k) is_v new)
  | inr other ↦
      let apart : j ≢ k = λ e. ground (arith, other) in
      rest j d apart (sym (get_elem?-set_other calls k j v (λ e. apart (sym e))) ∙ g)
]
  where
    same_call : {x y : LostCall} → some x ≡ some y → x ≡ y
    same_call e = cc

pub get_elem?-workers :
    (calls : List LostCall) (k : ℕ) {c : LostCall}
    → get_elem? calls k ≡ some c
    → get_elem? (workers calls) k ≡ some c.worker_id
get_elem?-workers [] k e = absurd (cc)
get_elem?-workers (d ∷ calls) zero e =
    ap (λ (o : Option LostCall). elim o [ none ↦ none | some x ↦ some x.worker_id ]) e
get_elem?-workers (d ∷ calls) (suc k) e = get_elem?-workers calls k e

pub workers-set :
    (calls : List LostCall) (k : ℕ) (stage : LostStage) {c : LostCall}
    → get_elem? calls k ≡ some c
    → workers (set calls k (record c { stage = stage })) ≡ workers calls
workers-set [] k stage e = refl
workers-set (d ∷ calls) zero stage {c} e =
    let same : c ≡ d = cc in ap (λ (x : LostCall). x.worker_id ∷ workers calls) same
workers-set (d ∷ calls) (suc k) stage e = ap (λ l. d.worker_id ∷ l) (workers-set calls k stage e)

pub workers-calls_of : (ws : List ℕ) → workers (calls_of ws) ≡ ws
workers-calls_of [] = refl
workers-calls_of (w ∷ ws) = ap (λ l. w ∷ l) (workers-calls_of ws)

pub calls_of-called :
    (ws : List ℕ) (j : ℕ) (c : LostCall) → get_elem? (calls_of ws) j ≡ some c → c.stage ≡ called
calls_of-called [] j c e = absurd (cc)
calls_of-called (w ∷ ws) zero c e =
    ap (λ (o : Option LostCall). elim o [ none ↦ called | some x ↦ x.stage ]) (sym e)
calls_of-called (w ∷ ws) (suc j) c e = calls_of-called ws j c e
