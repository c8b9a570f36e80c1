-- ===== src/Llfree/Upper/Moved.antt =====
-- How `get_local` of src/llfree.c ends.
use mathlib.Core.Path.{subst}
use llfree_c.Base.{ℕ, ◌+◌, ◌/◌, ◌<◌, ◌≡◌, ◌⊎◌, inl, inr, sym, ◌∙◌, Option, some, []}
use llfree_c.Types.{Outcome, llfree_ok, llfree_err, memory}
use llfree_c.Lower.State.{Lower}
use llfree_c.Llfree.{Llfree}
use llfree_c.Llfree.Upper.{IsUpper}
use llfree_c.Llfree.Upper.Ends.{Gives, TakesRun}

-- A computation that also says where the search goes on.
pub record GivesMoved (frames : ℕ) (shape : ℕ → Option (Option ℕ)) (n : ℕ) (wanted : Option ℕ)
    (l : Lower) (m : Option (Llfree × Outcome × Option ℕ)) : Type 0 where
  pub state : Llfree
  pub res : Outcome
  pub start : Option ℕ
  pub ran : m ≡ some (state, res, start)
  pub inside : (t : ℕ) → start ≡ some t → t < (frames + 4095) / 4096
  pub upper : IsUpper frames shape [] state
  pub end :
      TakesRun frames n wanted l state.lower res ⊎ ((res ≡ llfree_err memory) × (state.lower ≡ l))

pub GivesMoved-eq :
    {frames : ℕ} {shape : ℕ → Option (Option ℕ)} {n : ℕ} {wanted : Option ℕ} {l : Lower}
    {m m' : Option (Llfree × Outcome × Option ℕ)}
    → m ≡ m'
    → GivesMoved frames shape n wanted l m'
    → GivesMoved frames shape n wanted l m
GivesMoved-eq {frames} {shape} {n} {wanted} {l} e g =
    subst (GivesMoved frames shape n wanted l) (sym e) g

-- What goes on where the first part took nothing.
pub follow-GivesMoved :
    {frames : ℕ} {shape : ℕ → Option (Option ℕ)} {n : ℕ} {wanted : Option ℕ} {l : Lower}
    (m : Option (Llfree × Outcome × Option ℕ)) (m' : Option (Llfree × Outcome))
    → GivesMoved frames shape n wanted l m
    → ((s : Llfree) (frame class : ℕ) (start : Option ℕ)
        → m ≡ some (s, llfree_ok frame class, start)
        → m' ≡ some (s, llfree_ok frame class))
    → ((s : Llfree) (start : Option ℕ)
        → m ≡ some (s, llfree_err memory, start)
        → ((t : ℕ) → start ≡ some t → t < (frames + 4095) / 4096)
        → IsUpper frames shape [] s
        → s.lower ≡ l
        → Gives frames shape n wanted l m')
    → Gives frames shape n wanted l m'
follow-GivesMoved m m' g keeps after =
    let ran = g.ran in
    elim g.end [
      | inl t ↦
          let done = t.done in
          record {
            state = g.state;
            res = g.res;
            ran = keeps g.state t.frame t.class g.start (cc (ran, done)) ∙ cc done;
            upper = g.upper;
            end = inl t;
          }
      | inr (failed, same) ↦ after g.state g.start (cc (ran, failed)) g.inside g.upper same
    ]
