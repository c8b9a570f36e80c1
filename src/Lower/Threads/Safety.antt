-- ===== src/Lower/Threads/Safety.antt =====
-- Every interleaving of the threads of src/lower.c on one child.
use mathlib.Core.Path.{subst}
use llfree_c.Base.{
  ℕ, ◌+◌, ◌-◌, ◌≡◌, ◌≢◌, ◌⊎◌, inl, inr, refl, sym, ap, ◌∙◌, arith, true, false, some, List,
  Bool-cases, ◌==◌, get_elem?, set, replicate, total, total-set, total-ge, total-replicate,
  get_elem?-set_self, get_elem?-set_ne, get_elem?-replicate, lt_of_get_elem?,
}
use llfree_c.Child.{Child}
use llfree_c.Bitfield.{Bitfield}
use llfree_c.Lower.Single.{IsChild}
use llfree_c.Lower.Threads.{Worker, idle, failed, Move, World, Step, pick, Reach, here, later}
use llfree_c.Lower.Threads.Invariant.{owed, uses, owns, IsSane, Balance, Inv, Effect}
use llfree_c.Lower.Threads.Balance.{Balance-debt}
use llfree_c.Lower.Threads.Moves.{Move-Effect, Move-uses}

-- What stands at `j` after a write at `i`.
set-cases :
    (ws : List Worker) (i j : ℕ) (w u v : Worker)
    → get_elem? ws i ≡ some w
    → get_elem? (set ws i v) j ≡ some u
    → ((i ≡ j) × (u ≡ v)) ⊎ ((i ≡ j → ⊥) × (get_elem? ws j ≡ some u))
set-cases ws i j w u v at e = elim (Bool-cases (i == j)) [
  | inl same ↦
      let eq : i ≡ j = ground arith in
      let written = get_elem?-set_self ws i v (lt_of_get_elem? ws i w at) in
      inl (eq, ground (arith, written, e, eq))
  | inr other ↦
      let ne : i ≡ j → ⊥ = ground arith in inr (ne, sym (get_elem?-set_ne ws i j v ne) ∙ e)
]

module _ (c : Child) (f : Bitfield) (ws : List Worker) (inv : Inv c f ws) (i : ℕ) (w w' : Worker)
    (c' : Child) (f' : Bitfield) (at : get_elem? ws i ≡ some w) (mv : Move c f w c' f' w') where
  abbrev others : ℕ
  others = total owed ws - owed w

  debts : Balance c f (others + owed w)
  debts =
      let split : total owed ws ≡ others + owed w = omega (arith, total-ge owed ws i w at) in
      Balance-debt c f _ _ split inv.balance

  effect : Effect c f w c' f' w' others
  effect = Move-Effect c f w c' f' w' others debts (inv.sane i w at) mv

  pub total-uses : c'.free + total uses (set ws i w') ≡ c.free + total uses ws
  total-uses = omega (
    arith,
    Move-uses c f w c' f' w' others debts (inv.sane i w at) mv,
    total-set uses ws i w w' at,
  )

  -- The mover and another thread own no frame in common.
  apart :
      (j x : ℕ) (u : Worker)
      → (i ≡ j → ⊥)
      → get_elem? ws j ≡ some u
      → owns w' x ≡ true
      → owns u x ≡ true
      → ⊥
  apart j x u ne at_j mine theirs = elim (Bool-cases (owns w x)) [
    | inl before ↦ ne (inv.unique i j x w u at at_j before theirs)
    | inr gained ↦ effect.gains x u mine gained (inv.sane j u at_j) theirs
  ]

  pub Inv-move : Inv c' f' (set ws i w')
  Inv-move =
      let sum = total-set owed ws i w w' at in
      record {
        balance =
            Balance-debt c' f' _ _ (omega (arith, sum, total-ge owed ws i w at)) effect.balance;
        sane = λ j u e. elim (set-cases ws i j w u w' at e) [
          | inl (_, new) ↦ subst (IsSane c' f') (sym new) effect.sane
          | inr (ne, old) ↦
              effect.keeps u (inv.sane j u old)
                (λ x theirs mine. ne (inv.unique i j x w u at old mine theirs))
        ];
        unique = λ j k x v u e e' mine theirs. elim (set-cases ws i j w v w' at e) [
          | inl (here_j, new) ↦ elim (set-cases ws i k w u w' at e') [
            | inl (here_k, _) ↦ sym here_j ∙ here_k
            | inr (ne, old) ↦
                absurd (apart k x u ne old (ap (λ t. owns t x) (sym new) ∙ mine) theirs)
          ]
          | inr (ne, old) ↦ elim (set-cases ws i k w u w' at e') [
            | inl (_, new) ↦
                absurd (apart j x v ne old (ap (λ t. owns t x) (sym new) ∙ theirs) mine)
            | inr (_, old') ↦ inv.unique j k x v u old old' mine theirs
          ]
        ];
      }

Inv-Step : {s t : World} → Inv s.child s.bits s.workers → Step s t → Inv t.child t.bits t.workers
Inv-Step {s} inv (pick i {w} {w'} {c'} {f'} at mv) =
    Inv-move s.child s.bits s.workers inv i w w' c' f' at mv

Inv-Reach : {s t : World} → Inv s.child s.bits s.workers → Reach s t → Inv t.child t.bits t.workers
Inv-Reach inv here = inv
Inv-Reach inv (later before step) = Inv-Step (Inv-Reach inv before) step

abbrev frames_of : World → ℕ
frames_of s = s.child.free + total uses s.workers

frames_of-Step : {s t : World} → Inv s.child s.bits s.workers → Step s t → frames_of t ≡ frames_of s
frames_of-Step {s} inv (pick i {w} {w'} {c'} {f'} at mv) =
    total-uses s.child s.bits s.workers inv i w w' c' f' at mv

frames_of-Reach :
    {s t : World} → Inv s.child s.bits s.workers → Reach s t → frames_of t ≡ frames_of s
frames_of-Reach inv here = refl
frames_of-Reach inv (later before step) =
    frames_of-Step (Inv-Reach inv before) step ∙ frames_of-Reach inv before

-- A child on which `n` threads are about to start.
abbrev pub fresh : Child → Bitfield → ℕ → World
fresh c f n = record { child = c; bits = f; workers = replicate n idle }

Inv-fresh : (c : Child) (f : Bitfield) (n : ℕ) → IsChild c f → Inv c f (replicate n idle)
Inv-fresh c f n agree =
    let no_debt : total owed (replicate n idle) ≡ 0 = omega (arith, total-replicate owed n idle) in
    record {
      balance = record {
        field = agree.field;
        counter = λ e. omega (arith, agree.counted e, no_debt);
        all_taken =
            λ e. let (none_free, none_set) = agree.whole e in (none_free, none_set, no_debt);
      };
      sane = λ i w e. subst (IsSane c f) (sym (get_elem?-replicate n i idle w e)) tt;
      unique = λ i j x w u e e' mine theirs. absurd (none_owned i w x e mine);
    }
  where
    none_owned :
        (i : ℕ) (w : Worker) (x : ℕ) → get_elem? (replicate n idle) i ≡ some w → owns w x ≡ true → ⊥
    none_owned i w x e mine =
        let same = get_elem?-replicate n i idle w e in
        ground (arith, sym (ap (λ t. owns t x) same) ∙ mine)

module _ (c : Child) (f : Bitfield) (n : ℕ) (agree : IsChild c f) (t : World)
    (run : Reach (fresh c f n) t) where
  invariant : Inv t.child t.bits t.workers
  invariant = Inv-Reach (Inv-fresh c f n agree) run

  -- When any number of threads start on a child whose counter and bits agree, each of them
  -- allocating and freeing runs of an order up to 6 or the child as a huge page, then after any
  -- interleaving of their atomic accesses no thread has failed: a counter can always be put back,
  -- and a thread that frees what it has allocated meets no error.
  pub threads_never_fail : (i : ℕ) → get_elem? t.workers i ≢ some failed
  threads_never_fail i e = invariant.sane i failed e

  -- When any number of threads start on a child whose counter and bits agree, each of them
  -- allocating and freeing runs of an order up to 6 or the child as a huge page, then after any
  -- interleaving of their atomic accesses two different threads own no frame in common.
  pub owners_differ :
      (i j x : ℕ) (w u : Worker)
      → i ≢ j
      → get_elem? t.workers i ≡ some w
      → get_elem? t.workers j ≡ some u
      → owns w x ≡ true
      → owns u x ≡ false
  owners_differ i j x w u ne at_i at_j mine = elim (Bool-cases (owns u x)) [
    | inl theirs ↦ absurd (ne (invariant.unique i j x w u at_i at_j mine theirs))
    | inr e ↦ e
  ]

  -- When any number of threads start on a child whose counter and bits agree, each of them
  -- allocating and freeing runs of an order up to 6 or the child as a huge page, then after any
  -- interleaving of their atomic accesses the counter together with the frames that the threads
  -- use, from the moment that they take them off the counter until they have put them back, is the
  -- counter of the start.
  pub frames_conserved : t.child.free + total uses t.workers ≡ c.free
  frames_conserved =
      let none_used : total uses (replicate n idle) ≡ 0 =
        omega (arith, total-replicate uses n idle) in
      omega (arith, frames_of-Reach (Inv-fresh c f n agree) run)

  -- When any number of threads start on a child whose counter and bits agree, each of them
  -- allocating and freeing runs of an order up to 6 or the child as a huge page, then after any
  -- interleaving of their atomic accesses when no thread is between its access to the counter and
  -- its access to the bits, counter and bits of the child agree again.
  pub settled-IsChild : total owed t.workers ≡ 0 → IsChild t.child t.bits
  settled-IsChild none_owed =
      let b = invariant.balance in
      record {
        field = b.field;
        counted = λ e. omega (arith, b.counter e, none_owed);
        whole = λ e. let (none_free, none_set, _) = b.all_taken e in (none_free, none_set);
      }
