-- ===== src/Llfree/Upper/Safety.antt =====
-- src/llfree.c from its start on.
use llfree_c.Base.{ℕ, ◌+◌, ◌≡◌, ◌∙◌, ap, Bool, false, ltb, if◌then◌else◌, some, List}
use llfree_c.Types.{Outcome, llfree_ok, Classing}
use llfree_c.Child.{Child}
use llfree_c.Bitfield.{Bitfield}
use llfree_c.Tree.{Tree}
use llfree_c.Lower.Spec.{is_free}
use llfree_c.Llfree.{Llfree}
use llfree_c.Llfree.Meta.{Meta}
use llfree_c.Llfree.Manage.{llfree_init}
use llfree_c.Llfree.Upper.History.{Call, calls, AllSmall}
use llfree_c.Llfree.Upper.Balance.{one_if, given, taken_back, calls-balance}
use llfree_c.Llfree.Upper.Init.{IsSetup, mode_of, llfree_init_lem}

-- For one to eight classes with identifiers below 8, a default class below 8, buffers in place and
-- of the sizes that at least 512 and fewer than `2 ^ 41` frames ask for, and any sequence of
-- `llfree_get`, `llfree_put` and `llfree_drain` with orders up to 6, `llfree_init` that frees or
-- allocates all frames and the calls after it do not fail an assertion. For every frame, the times
-- it was given away and whether it is free at the end add up to the times it was taken back and
-- whether it was free at the start, which holds for the frames below the number of frames if all
-- were freed and for none otherwise.
pub llfree_init-calls :
    (frames : ℕ) (free_all : Bool) (meta : Meta) (fields : List Bitfield) (children : List Child)
    (trees : List Tree) (classing : Classing) (cs : List Call)
    → IsSetup frames meta fields children trees classing
    → AllSmall cs
    → (s : Llfree) × (s' : Llfree) × (all : List Outcome) × (llfree_init frames
          (mode_of free_all)
          meta
          fields
          children
          trees
          classing
        ≡ some (some s, llfree_ok 0 0))
      × (calls cs s ≡ some (s', all))
      × ((x : ℕ)
          → given x cs all + one_if (is_free s'.lower x)
            ≡ taken_back x cs all + one_if (if free_all then ltb x frames else false))
llfree_init-calls frames free_all meta fields children trees classing cs q small =
    let (s, shape, started, u, free) =
      llfree_init_lem frames free_all meta fields children trees classing q in
    let (s', all, ran, _, balance) = calls-balance frames shape cs s q.few small u in
    (s, s', all, started, ran, λ x. balance x ∙ ap (λ b. taken_back x cs all + one_if b) (free x))
