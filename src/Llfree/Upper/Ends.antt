-- ===== src/Llfree/Upper/Ends.antt =====
-- How a request for frames of src/llfree.c ends, and the steps of the handlers that have this end.
use mathlib.Core.Path.{subst}
use llfree_c.Base.{
  ℕ, ◌/◌, ◌^◌, ◌≤◌, ◌<◌, ◌≡◌, ◌⊎◌, inl, inr, refl, sym, ◌∙◌, arith, Option, some, [], ◌∷◌, ◌>>=◌,
}
use llfree_c.Types.{Outcome, llfree_ok, llfree_err, memory}
use llfree_c.Lower.State.{Lower}
use llfree_c.Lower.Ready.{Taken, IsWanted}
use llfree_c.Llfree.{Llfree, put_back, lower_get_of}
use llfree_c.Llfree.Get.{or_else}
use llfree_c.Llfree.Upper.{IsUpper}
use llfree_c.Llfree.Upper.Entries.{FitsTree, put_back_lem, lower_get_of_lem}

-- The result names a run of `n` frames that went from free to allocated, at the frame asked for if
-- one was.
pub record TakesRun (frames n : ℕ) (wanted : Option ℕ) (l l' : Lower) (res : Outcome) : Type 0 where
  pub frame : ℕ
  pub class : ℕ
  pub tree : ℕ
  pub done : res ≡ llfree_ok frame class
  pub is_wanted : IsWanted wanted frame
  pub taken : Taken frames l l' tree n frame

-- A computation that ends under the invariant: frames were taken from `l`, or none and `l` is as
-- before.
pub record Gives (frames : ℕ) (shape : ℕ → Option (Option ℕ)) (n : ℕ) (wanted : Option ℕ)
    (l : Lower) (m : Option (Llfree × Outcome)) : Type 0 where
  pub state : Llfree
  pub res : Outcome
  pub ran : m ≡ some (state, res)
  pub upper : IsUpper frames shape [] state
  pub end :
      TakesRun frames n wanted l state.lower res ⊎ ((res ≡ llfree_err memory) × (state.lower ≡ l))

module _ {frames : ℕ} {shape : ℕ → Option (Option ℕ)} {n : ℕ} {wanted : Option ℕ} {l : Lower} where
  -- A request that took nothing.
  pub refuse-Gives :
      {m : Option (Llfree × Outcome)} (s : Llfree)
      → m ≡ some (s, llfree_err memory)
      → IsUpper frames shape [] s
      → s.lower ≡ l
      → Gives frames shape n wanted l m
  refuse-Gives s ran u same = record {
    state = s;
    res = llfree_err memory;
    ran = ran;
    upper = u;
    end = inr (refl, same);
  }

  pub Gives-eq :
      {m m' : Option (Llfree × Outcome)}
      → m ≡ m'
      → Gives frames shape n wanted l m'
      → Gives frames shape n wanted l m
  Gives-eq e g = subst (Gives frames shape n wanted l) (sym e) g

  pub Gives-from :
      {m : Option (Llfree × Outcome)} {k : Lower}
      → k ≡ l
      → Gives frames shape n wanted k m
      → Gives frames shape n wanted l m
  Gives-from {m} same g = subst (λ k. Gives frames shape n wanted k m) same g

  -- What goes on where the first part took nothing.
  pub follow-Gives :
      (m m' : Option (Llfree × Outcome))
      → Gives frames shape n wanted l m
      → ((s : Llfree) (frame class : ℕ)
          → m ≡ some (s, llfree_ok frame class)
          → m' ≡ some (s, llfree_ok frame class))
      → ((s : Llfree)
          → m ≡ some (s, llfree_err memory)
          → IsUpper frames shape [] s
          → s.lower ≡ l
          → Gives frames shape n wanted l m')
      → Gives frames shape n wanted l m'
  follow-Gives m m' g keeps after =
      let ran = g.ran in
      elim g.end [
        | inl t ↦
            let done = t.done in
            record {
              state = g.state;
              res = g.res;
              ran = keeps g.state t.frame t.class (cc (ran, done)) ∙ cc done;
              upper = g.upper;
              end = inl t;
            }
        | inr (failed, same) ↦ after g.state (cc (ran, failed)) g.upper same
      ]

  pub or_else-Gives :
      (m : Option (Llfree × Outcome)) (next : Llfree → Option (Llfree × Outcome))
      → Gives frames shape n wanted l m
      → ((s : Llfree)
          → IsUpper frames shape [] s
          → s.lower ≡ l
          → Gives frames shape n wanted l (next s))
      → Gives frames shape n wanted l (m >>= λ found. or_else found next)
  or_else-Gives m next g after =
      follow-Gives m (m >>= λ found. or_else found next) g (λ s frame class e. cc e)
        (λ s e u same. Gives-eq (cc e) (after s u same))

-- The lower allocator is asked for frames in the hand, and they go back if it refuses.
abbrev pub Serves : ℕ → (ℕ → Option (Option ℕ)) → Option ℕ → Llfree → ℕ → ℕ → ℕ → Type 0
Serves frames shape wanted s k start order =
    ((l' : Lower) × (frame : ℕ) × (lower_get_of s start order wanted
        ≡ some (record s { lower = l' }, llfree_ok frame 0))
      × IsUpper frames shape [] (record s { lower = l' })
      × IsWanted wanted frame
      × Taken frames s.lower l' k (2 ^ order) frame)
    ⊎ ((t : Llfree) × (lower_get_of s start order wanted ≡ some (s, llfree_err memory))
        × (put_back s k (2 ^ order) ≡ some t)
        × IsUpper frames shape [] t
        × (t.lower ≡ s.lower))

pub serve_lem :
    {frames : ℕ} {shape : ℕ → Option (Option ℕ)} (s : Llfree) (k start order : ℕ)
    (wanted : Option ℕ)
    → frames < 2 ^ 41
    → order ≤ 6
    → IsUpper frames shape ((k, 2 ^ order) ∷ []) s
    → start < frames
    → start / 4096 ≡ k
    → FitsTree frames wanted order k
    → Serves frames shape wanted s k start order
serve_lem {frames} {shape} s k start order wanted few small u inside tree fits =
    let (l', res, ran, end) =
      lower_get_of_lem s k start order wanted few small u inside tree fits in
    elim end [
      | inl (frame, done, taken, is_wanted, u') ↦
          inl (l', frame, cc (ran, done), u', is_wanted, taken)
      | inr (kept, refused) ↦
          let (t, back, u', same, _) =
            put_back_lem s k (2 ^ order) u (omega (arith, inside, tree)) in
          inr (t, cc (ran, kept, refused), back, u', same)
    ]
