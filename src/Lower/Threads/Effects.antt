-- ===== src/Lower/Threads/Effects.antt =====
-- What the accesses of src/lower.c that write bits, and those that put a counter back, do to a child
-- and to the threads on it.
use mathlib.Core.Path.{subst}
use llfree_c.Base.{
  ℕ, ◌+◌, ◌^◌, ◌≤◌, ◌<◌, ◌≡◌, inl, inr, refl, ◌∙◌, arith, true, false, some, none, Bool-cases,
}
use llfree_c.Base.Bits.{two_pow_pos}
use llfree_c.Child.{Child, child_eq, child_inc}
use llfree_c.Bitfield.{Bitfield}
use llfree_c.Bitfield.Field.{ones}
use llfree_c.Bitfield.Frames.{frame_bit, in_run}
use llfree_c.Bitfield.Clear.{Freed}
use llfree_c.Bitfield.Mark.{Marked}
use llfree_c.Lower.Undo.{all_free, allocated}
use llfree_c.Lower.Split.{no_bit}
use llfree_c.Lower.Threads.{Worker, idle, counted, holds, freeing, cleared, whole, IsRun}
use llfree_c.Lower.Threads.Invariant.{owns, Owner, IsSane, Balance, Effect}
use llfree_c.Lower.Threads.Balance.{
  IsSane-keep, owner_bit, Effect-quiet, room, Balance-inc, Balance-debt,
}

-- So no thread owns a frame of a child without ones that is not a huge page.
pub whole_apart :
    (c : Child) (f : Bitfield) (debt x : ℕ) (u : Worker)
    → Balance c f debt
    → c.huge ≡ false
    → ones f ≡ 0
    → IsSane c f u
    → owns u x ≡ true
    → ⊥
whole_apart c f debt x u b small none_set sane own = elim (owner_bit c f u x sane own) [
  | inl set_bit ↦ no_bit f x b.field none_set set_bit
  | inr huge ↦ ground (arith, huge, small)
]

-- A run that was clear and is set now, off what the thread owed.
module _ (c : Child) (f f' : Bitfield) (order pos others : ℕ) (run : IsRun order pos)
    (b : Balance c f (others + 2 ^ order)) (m : Marked f f' pos (2 ^ order)) where
  now_set : (x : ℕ) → frame_bit f x ≡ 1 → frame_bit f' x ≡ 1
  now_set x e = elim (Bool-cases (in_run pos (2 ^ order) x)) [
    | inl inside ↦ m.now x ∙ rw inside refl
    | inr outside ↦ m.now x ∙ rw outside e
  ]

  pub Effect-mark : Effect c f (counted order) c f' (holds order pos) others
  Effect-mark =
      let (small, sum) = room c f others order b in
      record {
        balance = record {
          field = m.field;
          counter = λ e. omega (arith, sum, m.count);
          all_taken = λ e. ground (arith, e, small);
        };
        sane = record { run = run; marked = λ x inside. m.now x ∙ rw inside refl };
        keeps = λ u old apart. IsSane-keep c c f f' u (λ e own. e) (λ x own. now_set x) old;
        gains = λ x u gained before old own. elim (owner_bit c f u x old own) [
          | inl set_bit ↦ omega (arith, m.was_clear x gained, set_bit)
          | inr huge ↦ ground (arith, huge, small)
        ];
      }

-- A run that was set and is clear now, which the thread owes to the counter.
pub Effect-clear :
    (c : Child) (f f' : Bitfield) (order pos others : ℕ)
    → order ≤ 6
    → pos < 512
    → Balance c f (others + 0)
    → Freed f f' pos (2 ^ order)
    → Effect c f (freeing order pos) c f' (cleared order) others
Effect-clear c f f' order pos others h inside b m = record {
  balance = record {
    field = m.field;
    counter = λ e. omega (arith, b.counter e, m.count);
    all_taken = λ e.
        let (_, none_set, _) = b.all_taken e in absurd (omega (arith, m.count, two_pow_pos order));
  };
  sane = h;
  keeps = λ u old apart.
      IsSane-keep c c f f' u (λ e own. e)
        (λ x own e. elim (Bool-cases (in_run pos (2 ^ order) x)) [
          | inl mine ↦ absurd (apart x own mine)
          | inr outside ↦ m.now x ∙ rw outside e
        ])
        old;
  gains = λ x u gained before old own. ground arith;
}

-- What was owed goes back to the counter.
pub Effect-inc :
    (c d : Child) (f : Bitfield) (order others : ℕ) (w : Worker)
    → order ≤ 6
    → Balance c f (others + 2 ^ order)
    → child_inc c order ≡ some d
    → Effect c f w d f idle others
Effect-inc c d f order others w h b up =
    let (ran, b') = Balance-inc c f order others h b in
    let (small, sum) = room c f others order b in
    let same : record c { free = c.free + 2 ^ order } ≡ d = ground (arith, ran, up) in
    Effect-quiet c d f w idle others (λ e. ground (arith, e, small))
      (Balance-debt d f others (others + 0) (omega arith) (subst (λ t. Balance t f others) same b'))
      tt (λ x gained. ground arith)

pub Effect-inc_fails :
    (c : Child) (f : Bitfield) (order others : ℕ)
    → order ≤ 6
    → Balance c f (others + 2 ^ order)
    → child_inc c order ≡ none
    → ⊥
Effect-inc_fails c f order others h b stop =
    ground (arith, (Balance-inc c f order others h b).0, stop)

-- An entirely free child has no bit set, and no thread owns a frame of it.
pub Effect-take_whole :
    (f : Bitfield) (others : ℕ)
    → Balance all_free f (others + 0)
    → Effect all_free f idle allocated f whole others
Effect-take_whole f others b =
    let sum = b.counter refl in
    let none_set : ones f ≡ 0 = omega arith in
    record {
      balance = record {
        field = b.field;
        counter = λ e. ground (arith, e);
        all_taken = λ e. (refl, none_set, omega (arith, sum));
      };
      sane = refl;
      keeps =
          λ u old apart. IsSane-keep all_free allocated f f u (λ e own. refl) (λ x own e. e) old;
      gains = λ x u gained before old own. whole_apart all_free f _ x u b refl none_set old own;
    }

pub Effect-put_whole :
    (f : Bitfield) (others : ℕ)
    → Balance allocated f (others + 0)
    → Effect allocated f whole all_free f idle others
Effect-put_whole f others b =
    let (_, none_set, none_owed) = b.all_taken refl in
    record {
      balance = record {
        field = b.field;
        counter = λ e. omega (arith, none_set, none_owed);
        all_taken = λ e. ground (arith, e);
      };
      sane = tt;
      keeps = λ u old apart.
          IsSane-keep allocated all_free f f u (λ e own. absurd (apart 0 own refl)) (λ x own e. e)
            old;
      gains = λ x u gained before old own. ground arith;
    }

pub child_eq-eq : (a b : Child) → child_eq a b ≡ true → b ≡ a
child_eq-eq a b e = ground (arith, e)

-- The entry of a huge page is `allocated`.
pub put_whole_succeeds :
    (c : Child) (f : Bitfield) (debt : ℕ)
    → Balance c f debt
    → c.huge ≡ true
    → child_eq c allocated ≡ false
    → ⊥
put_whole_succeeds c f debt b huge e =
    let (none_free, _, _) = b.all_taken huge in ground (arith, huge, none_free, e)

pub load_small :
    (c : Child) (f : Bitfield) (order pos debt : ℕ)
    → Owner f order pos
    → Balance c f debt
    → c.huge ≡ true
    → ⊥
load_small c f order pos debt own b huge =
    let (_, none_set, _) = b.all_taken huge in
    no_bit f pos b.field none_set (own.marked pos (ground (arith, two_pow_pos order)))
